-- ===== src/Module/Composition.antt =====
-- module/composition.py: the set of blocks that make up one version of a module.
pub mod Laws
pub mod Document
use pyboltzmann.Prelude.{Bool, true, false, not, ◌&&◌, List, [], ◌∷◌, if◌then◌else◌, all}
use pyboltzmann.Prelude.Sets.{contains, union, difference}
use pyboltzmann.Exceptions.{Result, ok, raise, append_only_violation, value_error, ◌>>=◌}
use pyboltzmann.Identity.{BlockId, MerkleRoot, block_order}
use pyboltzmann.Identity.Hashing.{Sha256}
use pyboltzmann.Blocks.MemoryType.{MemoryType, is_append_only, is_same}
use pyboltzmann.Merkle.Tree
use pyboltzmann.Merkle.Tree.{MerkleTree, sorted_leaves}
use pyboltzmann.Merkle.Proof.{InclusionProof}
use pyboltzmann.Merkle.Diff
use pyboltzmann.Merkle.Diff.{CompositionDiff}

-- `_members` is the set of the tree's leaves.
pub record Composition : Type 0 where
  pub memory_type : MemoryType
  pub tree : MerkleTree

-- `Composition(memory_type, block_ids)`
unfoldable pub make : MemoryType → List BlockId → Composition
make memory_type block_ids = record { memory_type = memory_type; tree = Tree.init block_ids }

abbrev pub block_ids : Composition → List BlockId
block_ids c = c.tree.leaves

-- `block_id in composition`
unfoldable pub has : Composition → BlockId → Bool
has c block_id = contains block_id (block_ids c)

-- `__eq__`: the same module and equal sets of members
unfoldable pub equal : Composition → Composition → Bool
equal a b =
    is_same a.memory_type b.memory_type
    && (all (λ x. contains x (block_ids b)) (block_ids a)
        && all (λ x. contains x (block_ids a)) (block_ids b))

unfoldable pub add : Composition → List BlockId → Composition
add c added = make c.memory_type (union (block_ids c) added)

unfoldable pub drop : Composition → List BlockId → Result Composition
drop c dropped =
    if is_append_only c.memory_type
    then raise append_only_violation
    else ok (make c.memory_type (difference (block_ids c) dropped))

module _ ⦃sha : Sha256⦄ where
  unfoldable pub root : Composition → Result MerkleRoot
  root c = do (r, _) ← Tree.root c.tree; ok r

  unfoldable pub inclusion_proof : Composition → BlockId → Result InclusionProof
  inclusion_proof c block_id = do (proof, _) ← Tree.inclusion_proof c.tree block_id; ok proof

  unfoldable pub verify : Composition → Result Bool
  verify c = do (good, _) ← Tree.verify_tree c.tree; ok good

  unfoldable pub diff : Composition → Composition → Result CompositionDiff
  diff c other =
      if not (is_same c.memory_type other.memory_type)
      then raise value_error
      else Diff.diff (block_ids c) (block_ids other)
