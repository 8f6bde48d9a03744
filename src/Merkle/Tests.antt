-- ===== src/Merkle/Tests.antt =====
-- The tree of three blocks under the toy digest: runs of merkle/tree.py, merkle/proof.py and
-- merkle/diff.py, and the theorems at them.
use pyboltzmann.Prelude.{
  ℕ, ◌+◌, ◌≤◌, ◌<◌, ◌^◌, ◌≡◌, ◌⊎◌, refl, true, false, some, List, [], ◌∷◌, arith, length, get_elem?,
}
use pyboltzmann.Prelude.Order.{◌==◌}
use pyboltzmann.Prelude.Sets.{contains, SameMembers}
use pyboltzmann.Prelude.Bytes.{bytes_lt}
use pyboltzmann.Exceptions.{Result, ok, raise, merkle_error}
use pyboltzmann.Identity.{BlockId, MerkleRoot, block_order}
use pyboltzmann.Identity.Toy.{toy, toy_digest, block}
use pyboltzmann.Identity.Hashing.{hash_leaf, hash_node}
use pyboltzmann.Identity.Collisions.{Collision}
use pyboltzmann.Merkle.Tree.{
  MerkleTree, sorted_leaves, init, root, inclusion_proof, verify_tree, index_of, collect_path,
  collect_level, subtree_hash, compute_hash, cached, verify_leaves, largest_power_of_two_below,
  shift_left,
}
use pyboltzmann.Merkle.Proof.{InclusionProof, verify, climb, climb_level, skip_levels}
use pyboltzmann.Merkle.Powers.{largest_power_of_two_below_bounds}
use pyboltzmann.Merkle.Positions.{raws}
use pyboltzmann.Merkle.Reference.{reference_root}
use pyboltzmann.Merkle.Commitment.{
  Answers, inclusion_proof_complete, inclusion_proof_refused, verify_tree-init,
}
use pyboltzmann.Merkle.Commitment.Binding.{verify_sound, root_binds, root_of_set}

program : Unit {0}
unfolding contains ◌==◌ bytes_lt sorted_leaves init root inclusion_proof verify_tree index_of
    collect_path collect_level subtree_hash compute_hash cached verify_leaves
    largest_power_of_two_below verify climb climb_level skip_levels hash_leaf hash_node toy_digest
program = tt

abbrev three : List BlockId
three = block 9 ∷ block 4 ∷ block 7 ∷ block 4 ∷ []

abbrev reordered : List BlockId
reordered = block 7 ∷ block 9 ∷ block 4 ∷ []

three_sorted : sorted_leaves three ≡ block 4 ∷ block 7 ∷ block 9 ∷ []
unfolding program
three_sorted = refl

three_sizes :
    (largest_power_of_two_below 3 ≡ 2)
    × (largest_power_of_two_below 4 ≡ 2)
    × (largest_power_of_two_below 5 ≡ 4)
unfolding program
three_sizes = (refl, refl, refl)

-- The root and the tree that a run leaves, or an empty one where it raises.
abbrev root_of : Result (MerkleRoot × MerkleTree) → MerkleRoot
root_of (ok (r, t)) = r
root_of (raise e) = record { raw = [] }

abbrev after : Result (MerkleRoot × MerkleTree) → MerkleTree
after (ok (r, t)) = t
after (raise e) = record { leaves = []; nodes = [] }

abbrev three_root : MerkleRoot
three_root = root_of (root (init three))

three_runs : root (init three) ≡ ok (three_root, after (root (init three)))
unfolding program
three_runs = refl

abbrev proof_of_nine : InclusionProof
proof_of_nine = record {
  block_id = block 9;
  leaf_index = 2;
  tree_size = 3;
  audit_path = hash_node (hash_leaf (4 ∷ [])) (hash_leaf (7 ∷ [])) ∷ [];
}

nine_verifies : verify proof_of_nine three_root ≡ true
unfolding program
nine_verifies = refl

short_path_fails : verify (record proof_of_nine { audit_path = [] }) three_root ≡ false
unfolding program
short_path_fails = refl

wrong_index_fails : verify (record proof_of_nine { leaf_index = 0 }) three_root ≡ false
unfolding program
wrong_index_fails = refl

inclusion_proof_complete_example :
    (proof : InclusionProof) × Answers
      (inclusion_proof (init three) (block 9))
      proof
      (sorted_leaves three)
    × (verify proof (record { raw = reference_root (raws (sorted_leaves three)) }) ≡ true)
    × (proof.block_id ≡ block 9)
    × (get_elem? (raws (sorted_leaves three)) proof.leaf_index ≡ some (9 ∷ []))
    × ((h : ℕ) → length (sorted_leaves three) ≤ 2 ^ h → length proof.audit_path ≤ h)
unfolding program
inclusion_proof_complete_example = inclusion_proof_complete three (block 9) refl

inclusion_proof_refused_case : inclusion_proof (init three) (block 5) ≡ raise merkle_error
unfolding program
inclusion_proof_refused_case = inclusion_proof_refused three (block 5) refl

verify_tree-init_case : Answers (verify_tree (init three)) true (sorted_leaves three)
verify_tree-init_case = verify_tree-init three

verify_sound_example : (contains (block 9) three ≡ true) ⊎ Collision
verify_sound_example =
    verify_sound three proof_of_nine three_root (after (root (init three))) three_runs nine_verifies

same_members : SameMembers three reordered
unfolding contains
same_members b = ground arith

root_of_set_case : root (init three) ≡ root (init reordered)
root_of_set_case = root_of_set three reordered same_members

reordered_runs : root (init reordered) ≡ ok (three_root, after (root (init reordered)))
unfolding program
reordered_runs = refl

root_binds_example : SameMembers three reordered ⊎ Collision
root_binds_example =
    root_binds three reordered three_root (after (root (init three)))
      (after (root (init reordered))) three_runs reordered_runs

largest_power_of_two_below_bounds_case :
    (m : ℕ) × (largest_power_of_two_below 6 ≡ shift_left 1 m)
    × (largest_power_of_two_below 6 < 6)
    × (6 ≤ largest_power_of_two_below 6 + largest_power_of_two_below 6)
largest_power_of_two_below_bounds_case = largest_power_of_two_below_bounds 6 (omega arith)
