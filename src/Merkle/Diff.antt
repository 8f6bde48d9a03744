-- ===== src/Merkle/Diff.antt =====
-- merkle/diff.py: what changed between two compositions, by set arithmetic over the leaf lists.
pub mod Laws
mod Tests
use pyboltzmann.Prelude.{ℕ, Bool, not, ◌&&◌, List, [], ◌∷◌, length, eqb}
use pyboltzmann.Prelude.Sets.{difference, intersection}
use pyboltzmann.Exceptions.{Result, ok, raise, ◌>>=◌}
use pyboltzmann.Identity.{BlockId, MerkleRoot, block_order}
use pyboltzmann.Identity.Hashing.{Sha256}
use pyboltzmann.Merkle.Tree.{sorted_leaves, init, root}

pub record CompositionDiff : Type 0 where
  pub before : MerkleRoot
  pub after : MerkleRoot
  pub added : List BlockId
  pub removed : List BlockId
  pub unchanged : List BlockId

unfoldable pub is_empty : CompositionDiff → Bool
is_empty d = eqb (length d.added) 0 && eqb (length d.removed) 0

unfoldable pub transfer_size : CompositionDiff → ℕ
transfer_size d = length d.added

module _ ⦃sha : Sha256⦄ where
  unfoldable pub merkle_root : List BlockId → Result MerkleRoot
  merkle_root block_ids = do (computed, _) ← root (init block_ids); ok computed

  unfoldable pub diff : List BlockId → List BlockId → Result CompositionDiff
  diff before after = do
    let before_leaves = sorted_leaves before
    let after_leaves = sorted_leaves after
    before_root ← merkle_root before_leaves
    after_root ← merkle_root after_leaves
    ok (record {
      before = before_root;
      after = after_root;
      added = sorted_leaves (difference after_leaves before_leaves);
      removed = sorted_leaves (difference before_leaves after_leaves);
      unchanged = sorted_leaves (intersection before_leaves after_leaves);
    })
