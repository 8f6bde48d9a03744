-- ===== src/Brain/History/Tests.antt =====
-- Walks of `_reachable_from` over a merge, with one parent that is not held.
use pyboltzmann.Prelude.{ℕ, ◌≡◌, ◌↔◌, refl, true, List, [], ◌∷◌}
use pyboltzmann.Prelude.Order.{◌==◌}
use pyboltzmann.Prelude.Sets.{contains}
use pyboltzmann.Prelude.Bytes.{bytes_lt}
use pyboltzmann.Prelude.Dict.{get}
use pyboltzmann.Exceptions.{ok}
use pyboltzmann.Identity.{OciDigest, oci_order}
use pyboltzmann.Reconcile.Ancestry.{Snapshot, History}
use pyboltzmann.Brain.History.{add_parents, reachable_loop, all_parents, reachable_from}
use pyboltzmann.Brain.History.Laws.{Reaches, reachable_from-Reaches}

abbrev at : ℕ → OciDigest
at n = record { raw = n ∷ [] }

abbrev after : List OciDigest → Snapshot
after parents = record { parents = parents }

abbrev merged : History
merged =
    (at 1, after (at 0 ∷ []))
    ∷ (at 2, after (at 1 ∷ []))
    ∷ (at 3, after (at 1 ∷ []))
    ∷ (at 4, after (at 2 ∷ at 3 ∷ []))
    ∷ []

walk : reachable_from merged (at 4) ≡ ok (at 4 ∷ at 2 ∷ at 3 ∷ at 1 ∷ at 0 ∷ [])
unfolding reachable_from reachable_loop add_parents all_parents contains get ◌==◌ bytes_lt
walk = refl

reachable_from-Reaches_example :
    (found : List OciDigest) × (reachable_from merged (at 4) ≡ ok found)
    × ((d : OciDigest) → (contains d found ≡ true) ↔ Reaches merged (at 4) d)
reachable_from-Reaches_example = reachable_from-Reaches merged (at 4)
