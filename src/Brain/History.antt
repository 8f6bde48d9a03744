-- ===== src/Brain/History.antt =====
-- `_reachable_from` of brain.py: every snapshot that is reachable from one, as far as the store resolves.
pub mod Laws
mod Tests
use pyboltzmann.Prelude.{ℕ, zero, suc, ◌+◌, none, some, List, [], ◌∷◌, ◌++◌, length, if◌then◌else◌}
use pyboltzmann.Prelude.Sets.{contains, union}
use pyboltzmann.Prelude.Dict.{get}
use pyboltzmann.Exceptions.{Result, ok, raise, out_of_fuel}
use pyboltzmann.Identity.{OciDigest, oci_order}
use pyboltzmann.Reconcile.Ancestry.{Snapshot, History}

-- The loop over the parents: what is seen, and what waits, the latest first.
unfoldable pub add_parents :
    List OciDigest → List OciDigest → List OciDigest → List OciDigest × List OciDigest
add_parents [] seen frontier = (seen, frontier)
add_parents (parent ∷ parents) seen frontier =
    if contains parent seen
    then add_parents parents seen frontier
    else add_parents parents (union seen (parent ∷ [])) (parent ∷ frontier)

unfoldable pub reachable_loop :
    ℕ → History → List OciDigest → List OciDigest → Result (List OciDigest)
reachable_loop zero h seen frontier = raise out_of_fuel
reachable_loop (suc fuel) h seen [] = ok seen
reachable_loop (suc fuel) h seen (current ∷ frontier) = elim (get current h) [
  | none ↦ reachable_loop fuel h seen frontier
  | some s ↦
      let added = add_parents s.parents seen frontier in reachable_loop fuel h added.0 added.1
]

-- Every parent that a document names.
unfoldable pub all_parents : History → List OciDigest
all_parents [] = []
all_parents ((_, s) ∷ h) = s.parents ++ all_parents h

-- Fuel: the start, and each parent that is named, once.
unfoldable pub reachable_from : History → OciDigest → Result (List OciDigest)
unfolding all_parents
reachable_from h digest = reachable_loop (length (all_parents h) + 2) h (digest ∷ []) (digest ∷ [])
