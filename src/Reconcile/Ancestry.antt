-- ===== src/Reconcile/Ancestry.antt =====
-- reconcile/ancestry.py: the walk over the parents of a snapshot. A history is the snapshot documents
-- that the store holds, decoded, under the digests that name them.
pub mod Parents
pub mod Laws
mod Tests
use pyboltzmann.Prelude.{
  ℕ, zero, suc, ◌+◌, Bool, true, false, not, Option, none, some, List, [], ◌∷◌, ◌++◌, length,
  if◌then◌else◌,
}
use pyboltzmann.Prelude.Order.{◌==◌}
use pyboltzmann.Prelude.Sets.{contains, union}
use pyboltzmann.Prelude.Dict.{Dict, get}
use pyboltzmann.Exceptions.{Result, ok, raise, ◌>>=◌, snapshot_error, out_of_fuel}
use pyboltzmann.Identity.{OciDigest, oci_order}

-- What the walk reads of a snapshot document.
pub record Snapshot : Type 0 where
  pub parents : List OciDigest

abbrev pub History : Type 0
History = Dict OciDigest Snapshot

-- `store.is_resolvable(digest)`
unfoldable pub is_resolvable : History → OciDigest → Bool
is_resolvable h digest = elim (get digest h) [ none ↦ false | some _ ↦ true ]

unfoldable pub snapshot_at : History → OciDigest → Result Snapshot
snapshot_at h digest = elim (get digest h) [ none ↦ raise snapshot_error | some s ↦ ok s ]

-- What the loop over the parents of one snapshot comes to: the target, or what is seen and what is
-- left to visit, the latest first.
pub data Scan : Type 0 where
  hit : Scan
  more : List OciDigest → List Snapshot → Scan

-- `if store.is_resolvable(parent): frontier.append(snapshot_at(store, parent))`
unfoldable pub push : History → OciDigest → List Snapshot → List Snapshot
push h parent frontier = elim (get parent h) [ none ↦ frontier | some s ↦ s ∷ frontier ]

unfoldable pub scan : History → OciDigest → List OciDigest → List OciDigest → List Snapshot → Scan
scan h target [] seen frontier = more seen frontier
scan h target (parent ∷ parents) seen frontier =
    if parent == target
    then hit
    else if contains parent seen
    then scan h target parents seen frontier
    else scan h target parents (union seen (parent ∷ [])) (push h parent frontier)

unfoldable pub reaches_loop : ℕ → History → OciDigest → List OciDigest → List Snapshot → Result Bool
reaches_loop zero h target seen frontier = raise out_of_fuel
reaches_loop (suc fuel) h target seen [] = ok false
reaches_loop (suc fuel) h target seen (s ∷ frontier) =
    elim (scan h target s.parents seen frontier) [
      | hit ↦ ok true
      | more seen' frontier' ↦ reaches_loop fuel h target seen' frontier'
    ]

-- Fuel: each snapshot is visited once, and the head.
unfoldable pub reaches : History → Snapshot → OciDigest → OciDigest → Result Bool
reaches h head head_digest target =
    if head_digest == target
    then ok true
    else reaches_loop (length h + 2) h target (head_digest ∷ []) (head ∷ [])

unfoldable pub digest_reaches : History → OciDigest → OciDigest → Snapshot → OciDigest → Result Bool
digest_reaches h head_digest target theirs theirs_digest =
    if head_digest == target
    then ok true
    else if head_digest == theirs_digest
    then reaches h theirs theirs_digest target
    else if not (is_resolvable h head_digest)
    then ok false
    else do head ← snapshot_at h head_digest; reaches h head head_digest target
