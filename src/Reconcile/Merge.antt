-- ===== src/Reconcile/Merge.antt =====
-- reconcile/merge.py: the structural half of reconciliation, set arithmetic over one module.
pub mod Laws
pub mod Convergence
use pyboltzmann.Prelude.{
  Bool, true, false, not, ◌&&◌, ◌||◌, Option, none, some, List, [], ◌∷◌, length, eqb, if◌then◌else◌,
}
use pyboltzmann.Prelude.Sets.{union, difference}
use pyboltzmann.Exceptions.{Result, ok, raise, append_only_violation, value_error, ◌>>=◌}
use pyboltzmann.Identity.{BlockId, MerkleRoot, block_order}
use pyboltzmann.Identity.Hashing.{Sha256}
use pyboltzmann.Blocks.MemoryType.{MemoryType, is_append_only, is_same, memory_types}
use pyboltzmann.Merkle.Tree.{sorted_leaves}
use pyboltzmann.Merkle.Diff.{merkle_root}
use pyboltzmann.Module.Composition.{Composition, block_ids, root}

pub record ModuleReconciliation : Type 0 where
  pub memory_type : MemoryType
  pub block_ids : List BlockId
  pub root : MerkleRoot
  pub added_by_us : List BlockId
  pub added_by_them : List BlockId
  pub removed : List BlockId
  pub incoming : List BlockId
  pub adopted : Bool

abbrev pub is_nil : List BlockId → Bool
is_nil [] = true
is_nil (_ ∷ _) = false

unfoldable pub is_noop : ModuleReconciliation → Bool
is_noop r = is_nil r.added_by_them && (is_nil r.removed && not r.adopted)

-- The check of one composition's module, at the head of `merge_module`.
unfoldable pub is_of : MemoryType → Option Composition → Bool
is_of memory_type none = true
is_of memory_type (some c) = is_same c.memory_type memory_type

abbrev pub members : Option Composition → List BlockId
members none = []
members (some c) = block_ids c

-- What both sides have removed from the ancestor, and what is left.
unfoldable pub excluded_blocks : List BlockId → List BlockId → List BlockId → List BlockId
excluded_blocks ancestor mine yours = union (difference ancestor mine) (difference ancestor yours)

unfoldable pub merged_blocks : List BlockId → List BlockId → List BlockId → List BlockId
unfolding excluded_blocks
merged_blocks ancestor mine yours =
    difference (union (union ancestor mine) yours) (excluded_blocks ancestor mine yours)

module _ ⦃sha : Sha256⦄ where
  -- `ours is None`
  unfoldable pub adopt : MemoryType → List BlockId → Composition → Result ModuleReconciliation
  adopt memory_type ancestor theirs = do
    theirs_root ← root theirs
    let taken = block_ids theirs
    ok (record {
      memory_type = memory_type;
      block_ids = sorted_leaves taken;
      root = theirs_root;
      added_by_us = [];
      added_by_them = sorted_leaves (difference taken ancestor);
      removed = [];
      incoming = sorted_leaves taken;
      adopted = true;
    })

  -- `theirs is None`
  unfoldable pub keep : MemoryType → List BlockId → Composition → Result ModuleReconciliation
  keep memory_type ancestor ours = do
    ours_root ← root ours
    ok (record {
      memory_type = memory_type;
      block_ids = block_ids ours;
      root = ours_root;
      added_by_us = sorted_leaves (difference (block_ids ours) ancestor);
      added_by_them = [];
      removed = [];
      incoming = [];
      adopted = false;
    })

  -- Both sides hold the module.
  unfoldable pub combine :
      MemoryType → List BlockId → Composition → Composition → Result ModuleReconciliation
  combine memory_type ancestor ours theirs =
      let mine = block_ids ours in
      let yours = block_ids theirs in
      let excluded = excluded_blocks ancestor mine yours in
      let kept = merged_blocks ancestor mine yours in
      if is_append_only memory_type && not (is_nil excluded)
      then raise append_only_violation
      else do
        merged_root ← merkle_root (sorted_leaves kept)
        ok (record {
          memory_type = memory_type;
          block_ids = sorted_leaves kept;
          root = merged_root;
          added_by_us = sorted_leaves (difference mine ancestor);
          added_by_them = sorted_leaves (difference yours ancestor);
          removed = sorted_leaves excluded;
          incoming = sorted_leaves (difference kept mine);
          adopted = false;
        })

  unfoldable pub reconcile :
      MemoryType
      → List BlockId
      → Option Composition
      → Option Composition
      → Result (Option ModuleReconciliation)
  reconcile memory_type ancestor none none = ok none
  reconcile memory_type ancestor none (some theirs) = do
    r ← adopt memory_type ancestor theirs
    ok (some r)
  reconcile memory_type ancestor (some ours) none = do
    r ← keep memory_type ancestor ours
    ok (some r)
  reconcile memory_type ancestor (some ours) (some theirs) = do
    r ← combine memory_type ancestor ours theirs
    ok (some r)

  unfoldable pub merge_module :
      MemoryType
      → Option Composition
      → Option Composition
      → Option Composition
      → Result (Option ModuleReconciliation)
  merge_module memory_type base ours theirs =
      if is_of memory_type base && (is_of memory_type ours && is_of memory_type theirs)
      then reconcile memory_type (members base) ours theirs
      else raise value_error

  -- A dict from memory types is a function; the result is a dict in the canonical module order.
  unfoldable pub reconcile_each :
      (base ours theirs : MemoryType → Option Composition)
      → List MemoryType
      → Result (List (MemoryType × ModuleReconciliation))
  reconcile_each base ours theirs [] = ok []
  reconcile_each base ours theirs (m ∷ rest) = do
    merged ← merge_module m (base m) (ours m) (theirs m)
    results ← reconcile_each base ours theirs rest
    ok (elim merged [ none ↦ results | some r ↦ (m, r) ∷ results ])

  unfoldable pub reconciled_modules :
      (base ours theirs : MemoryType → Option Composition)
      → Result (List (MemoryType × ModuleReconciliation))
  reconciled_modules base ours theirs = reconcile_each base ours theirs memory_types
