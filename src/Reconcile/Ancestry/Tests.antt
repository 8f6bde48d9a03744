-- ===== src/Reconcile/Ancestry/Tests.antt =====
-- A merge of two lines that part at one snapshot: runs of reconcile/ancestry.py, and the theorems at
-- them.
use pyboltzmann.Prelude.{ℕ, ◌≡◌, ◌↔◌, ◌⊎◌, refl, Bool, true, false, some, List, [], ◌∷◌, arith}
use pyboltzmann.Prelude.Order.{◌==◌}
use pyboltzmann.Prelude.Sets.{contains}
use pyboltzmann.Prelude.Bytes.{bytes_lt}
use pyboltzmann.Prelude.Dict.{get}
use pyboltzmann.Exceptions.{ok}
use pyboltzmann.Identity.{OciDigest, oci_order}
use pyboltzmann.Reconcile.Ancestry.{
  Snapshot, History, push, scan, reaches_loop, reaches, is_resolvable, snapshot_at, digest_reaches,
}
use pyboltzmann.Reconcile.Ancestry.Laws.{Behind, reaches-Behind}

program : Unit {0}
unfolding contains ◌==◌ bytes_lt get push scan reaches_loop reaches is_resolvable snapshot_at
    digest_reaches
program = tt

abbrev at : ℕ → OciDigest
at n = record { raw = n ∷ [] }

abbrev after : List OciDigest → Snapshot
after parents = record { parents = parents }

-- The parent of 1 is not held.
abbrev history : History
history =
    (at 1, after (at 0 ∷ []))
    ∷ (at 2, after (at 1 ∷ []))
    ∷ (at 3, after (at 1 ∷ []))
    ∷ (at 4, after (at 2 ∷ at 3 ∷ []))
    ∷ []

abbrev merge : Snapshot
merge = after (at 2 ∷ at 3 ∷ [])

reaches_runs :
    (reaches history merge (at 4) (at 1) ≡ ok true)
    × (reaches history merge (at 4) (at 0) ≡ ok true)
    × (reaches history merge (at 4) (at 9) ≡ ok false)
    × (digest_reaches history (at 2) (at 3) merge (at 4) ≡ ok false)
unfolding program
reaches_runs = (refl, refl, refl, refl)

merge_held : (s : Snapshot) → get (at 4) history ≡ some s → s ≡ merge
unfolding program
merge_held s e = ground arith

reaches-Behind_example :
    (b : Bool) × (reaches history merge (at 4) (at 1) ≡ ok b)
    × ((b ≡ true) ↔ ((at 4 ≡ at 1) ⊎ Behind history merge (at 1)))
reaches-Behind_example = reaches-Behind history merge (at 4) (at 1) merge_held
