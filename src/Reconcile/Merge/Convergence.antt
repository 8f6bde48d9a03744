-- ===== src/Reconcile/Merge/Convergence.antt =====
-- Reconciliation by reconcile/merge.py does not depend on which side is called ours, and a side that
-- changed nothing changes nothing.
use pyboltzmann.Prelude.{
  ◌≡◌, refl, sym, ◌∙◌, Bool, true, false, not, ◌&&◌, Option, none, some, List, arith, if◌then◌else◌,
  Bool-cases, inl, inr,
}
use mathlib.Core.Path.{ap₂}
use pyboltzmann.Prelude.Sorting.{sorted_set_unique, sorted_set_of_ascending, ascending_unique}
use pyboltzmann.Exceptions.{Exception, Result, ok, raise, ◌>>=◌}
use pyboltzmann.Identity.{BlockId, MerkleRoot, block_order}
use pyboltzmann.Identity.Hashing.{Sha256}
use pyboltzmann.Blocks.MemoryType.{MemoryType, is_append_only}
use pyboltzmann.Merkle.Tree.{sorted_leaves}
use pyboltzmann.Merkle.Diff.{merkle_root}
use pyboltzmann.Module.Composition.{Composition, block_ids, has}
use pyboltzmann.Module.Composition.Laws.{IsVersion}
use pyboltzmann.Reconcile.Merge.{
  ModuleReconciliation, is_nil, is_of, members, excluded_blocks, merged_blocks, adopt, keep,
  combine, reconcile, merge_module,
}
use pyboltzmann.Reconcile.Merge.Laws.{
  KeepsAll, merge_module-IsMerge, contains-excluded, contains-merged, is_nil_congr,
}

-- The composition that a reconciliation leads to, or the exception.
abbrev pub outcome :
    Result (Option ModuleReconciliation) → Result (Option (List BlockId × MerkleRoot))
outcome (ok none) = ok none
outcome (ok (some r)) = ok (some (r.block_ids, r.root))
outcome (raise e) = raise e

abbrev pub AllVersions : Option Composition → Type 0
AllVersions none = Unit
AllVersions (some c) = IsVersion c

merged_swap :
    (base mine yours : List BlockId)
    → sorted_leaves (merged_blocks base mine yours) ≡ sorted_leaves (merged_blocks base yours mine)
unfolding sorted_leaves
merged_swap base mine yours =
    sorted_set_unique (merged_blocks base mine yours) (merged_blocks base yours mine)
      (λ b. ground (arith, contains-merged base mine yours b, contains-merged base yours mine b))

excluded_swap :
    (base mine yours : List BlockId)
    → is_nil (excluded_blocks base mine yours) ≡ is_nil (excluded_blocks base yours mine)
excluded_swap base mine yours =
    is_nil_congr (excluded_blocks base mine yours) (excluded_blocks base yours mine) (λ b.
      ground (arith, contains-excluded base mine yours b, contains-excluded base yours mine b))

module _ ⦃sha : Sha256⦄ where
  -- What both outcomes of `combine` are made of.
  sealed : Bool → List BlockId → Result (Option (List BlockId × MerkleRoot))
  sealed refused kept =
      if refused
      then raise Exception.append_only_violation
      else do r ← merkle_root kept; ok (some (kept, r))

  combine_outcome :
      (m : MemoryType) (base : List BlockId) (ours theirs : Composition)
      → outcome (reconcile m base (some ours) (some theirs))
        ≡ sealed
            (is_append_only m
              && not (is_nil (excluded_blocks base (block_ids ours) (block_ids theirs))))
            (sorted_leaves (merged_blocks base (block_ids ours) (block_ids theirs)))
  unfolding reconcile combine sealed
  combine_outcome m base ours theirs = ground arith

  adopt_keep :
      (m : MemoryType) (base : List BlockId) (c : Composition)
      → IsVersion c
      → outcome (reconcile m base none (some c)) ≡ outcome (reconcile m base (some c) none)
  unfolding reconcile adopt keep sorted_leaves
  adopt_keep m base c v =
      let same = sorted_set_of_ascending (block_ids c) v.ascending in rw same (ground arith)

  combine_swap :
      (m : MemoryType) (base : List BlockId) (a b : Composition)
      → outcome (reconcile m base (some a) (some b)) ≡ outcome (reconcile m base (some b) (some a))
  combine_swap m base a b =
      combine_outcome m base a b
      ∙ ap₂ (λ x ks. sealed (is_append_only m && not x) ks)
          (excluded_swap base (block_ids a) (block_ids b))
          (merged_swap base (block_ids a) (block_ids b))
      ∙ sym (combine_outcome m base b a)

  reconcile_swap :
      (m : MemoryType) (base : List BlockId) (a b : Option Composition)
      → AllVersions a
      → AllVersions b
      → outcome (reconcile m base a b) ≡ outcome (reconcile m base b a)
  reconcile_swap m base none none v w = refl
  reconcile_swap m base none (some b) v w = adopt_keep m base b w
  reconcile_swap m base (some a) none v w = sym (adopt_keep m base a v)
  reconcile_swap m base (some a) (some b) v w = combine_swap m base a b

  -- Whichever side reconciles, both reach the same composition and root, or the same exception.
  pub merge_module_swap :
      (m : MemoryType) (base a b : Option Composition)
      → AllVersions a
      → AllVersions b
      → outcome (merge_module m base a b) ≡ outcome (merge_module m base b a)
  unfolding merge_module
  merge_module_swap m base a b v w =
      let swapped = reconcile_swap m (members base) a b v w in
      elim (Bool-cases (is_of m base && (is_of m a && is_of m b))) [
        | inl good ↦
            let good' : (is_of m base && (is_of m b && is_of m a)) ≡ true = ground arith in
            rw (good, good') swapped
        | inr bad ↦
            let bad' : (is_of m base && (is_of m b && is_of m a)) ≡ false = ground arith in
            rw (bad, bad')
      ]

  -- A side that is still at the ancestor changes nothing: the merge succeeds, and the other side's
  -- composition stands.
  pub merge_module_fast_forward :
      (m : MemoryType) (base ours : Composition)
      → IsVersion ours
      → base.memory_type ≡ m
      → ours.memory_type ≡ m
      → (is_append_only m ≡ true → KeepsAll (block_ids base) ours base)
      → (r : ModuleReconciliation) × (merge_module m (some base) (some ours) (some base)
          ≡ ok (some r))
        × (r.block_ids ≡ block_ids ours)
  unfolding has
  merge_module_fast_forward m base ours v p q keeps =
      let (r, e, merged) = merge_module-IsMerge m base ours base p q p keeps in
      (
        r,
        e,
        ascending_unique r.block_ids (block_ids ours) merged.ordered v.ascending
            (λ b. ground (arith, merged.result b)),
      )
