-- ===== src/Reconcile/Ancestor/Tests.antt =====
-- Histories that part at one snapshot, at two, or at none: runs of reconcile/ancestry.py, and the
-- theorems at them.
use mathlib.Core.Path.{subst}
use pyboltzmann.Reconcile.Ancestry.Laws.{Behind, reaches-Behind}
use pyboltzmann.Prelude.{
  ℕ, ◌≡◌, refl, some, none, List, [], ◌∷◌, arith, true, false, ◌⊎◌, inl, inr, sym,
}
use pyboltzmann.Prelude.Order.{◌==◌, ==_sound}
use pyboltzmann.Prelude.Sets.{contains}
use pyboltzmann.Prelude.Bytes.{bytes_lt}
use pyboltzmann.Prelude.Dict.{get}
use pyboltzmann.Exceptions.{ok, raise, no_common_ancestor, multiple_merge_bases}
use pyboltzmann.Identity.{OciDigest, oci_order}
use pyboltzmann.Reconcile.Ancestry.{
  Snapshot, History, push, scan, reaches_loop, reaches, is_resolvable, snapshot_at, digest_reaches,
}
use pyboltzmann.Reconcile.Ancestor.{
  include, is_hinted, visit_parent, visit_parents, search_loop, is_behind_another, best_of, only,
  common_ancestor,
}
use pyboltzmann.Reconcile.Ancestor.Laws.{common_ancestor_hint}
use pyboltzmann.Reconcile.Ancestor.Meeting.{Reached}
use pyboltzmann.Reconcile.Ancestor.Answer.{
  Outcome, common_ancestor-Outcome, common_ancestor_unrelated,
}

program : Unit {0}
unfolding contains ◌==◌ bytes_lt get push scan reaches_loop reaches is_resolvable snapshot_at
    digest_reaches include is_hinted visit_parent visit_parents search_loop is_behind_another
    best_of only common_ancestor
program = tt

abbrev at : ℕ → OciDigest
at n = record { raw = n ∷ [] }

abbrev after : List OciDigest → Snapshot
after parents = record { parents = parents }

abbrev history : History
history =
    (at 1, after (at 0 ∷ []))
    ∷ (at 2, after (at 1 ∷ []))
    ∷ (at 3, after (at 1 ∷ []))
    ∷ (at 4, after (at 2 ∷ at 3 ∷ []))
    ∷ []

abbrev merge : Snapshot
merge = after (at 2 ∷ at 3 ∷ [])

answers :
    (common_ancestor history (at 1 ∷ at 0 ∷ []) merge (at 4) none ≡ ok (at 1))
    × (common_ancestor history (at 2 ∷ at 1 ∷ at 0 ∷ []) merge (at 4) none ≡ ok (at 2))
    × (common_ancestor history (at 2 ∷ at 3 ∷ []) merge (at 4) none ≡ raise multiple_merge_bases)
    × (common_ancestor history (at 9 ∷ []) merge (at 4) none ≡ raise no_common_ancestor)
unfolding program
answers = (refl, refl, refl, refl)

common_ancestor_hint_case :
    common_ancestor history (at 1 ∷ at 0 ∷ []) merge (at 4) (some (at 1))
    ≡ common_ancestor history (at 1 ∷ at 0 ∷ []) merge (at 4) none
common_ancestor_hint_case =
    common_ancestor_hint history (at 1 ∷ at 0 ∷ []) merge (at 4) (some (at 1))

merge_held : (s : Snapshot) → get (at 4) history ≡ some s → s ≡ merge
unfolding program
merge_held s e = ground arith

common_ancestor-Outcome_example :
    Outcome history
      (at 1 ∷ at 0 ∷ [])
      merge
      (at 4)
      merge_held
      (common_ancestor history (at 1 ∷ at 0 ∷ []) merge (at 4) (some (at 1)))
common_ancestor-Outcome_example =
    common_ancestor-Outcome history (at 1 ∷ at 0 ∷ []) merge (at 4) merge_held (some (at 1))

abbrev strangers : List OciDigest
strangers = at 9 ∷ []

not_reached : reaches history merge (at 4) (at 9) ≡ ok false
unfolding program
not_reached = refl

strangers_apart :
    (a : OciDigest) → contains a strangers ≡ true → Reached history strangers merge (at 4) a → ⊥
unfolding contains
strangers_apart a m r =
    let it : a ≡ at 9 = ==_sound a (at 9) (ground arith) in
    let (b, run, exact) = reaches-Behind history merge (at 4) (at 9) merge_held in
    let moved : Reached history strangers merge (at 4) (at 9) =
      subst (Reached history strangers merge (at 4)) it r in
    let told : (at 4 ≡ at 9) ⊎ Behind history merge (at 9) = elim moved [
      | inl e ↦ inl (sym e)
      | inr k ↦ inr k
    ] in
    let yes_b : b ≡ true = exact.1 told in ground (arith, run, not_reached, yes_b)

common_ancestor_unrelated_example :
    common_ancestor history strangers merge (at 4) none ≡ raise no_common_ancestor
common_ancestor_unrelated_example =
    common_ancestor_unrelated history strangers merge (at 4) merge_held none strangers_apart
