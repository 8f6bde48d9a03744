-- ===== src/Merkle/Tree.antt =====
-- merkle/tree.py: RFC 9162 over sorted leaves, with the cache of internal node hashes as state.
-- A method that fills the cache returns the tree beside its result.
use pyboltzmann.Prelude.{
  ℕ, zero, suc, ◌+◌, ◌-◌, ◌/◌, Bool, true, false, ◌&&◌, Option, none, some, List, [], ◌∷◌, ◌++◌,
  map, eqb, ltb, if◌then◌else◌, length, get_elem?,
}
use pyboltzmann.Prelude.Order.{◌==◌}
use pyboltzmann.Prelude.Bytes.{Bytes}
use pyboltzmann.Prelude.Sorting.{sorted_set}
use pyboltzmann.Exceptions.{Result, ok, raise, merkle_error, index_error, out_of_fuel, ◌>>=◌}
use pyboltzmann.Identity.{BlockId, MerkleRoot, block_order}
use pyboltzmann.Identity.Hashing.{Sha256, hash_leaf, hash_node, hash_empty}
use pyboltzmann.Merkle.Proof.{InclusionProof, verify}

unfoldable pub sorted_leaves : List BlockId → List BlockId
unfolding sorted_set
sorted_leaves block_ids = sorted_set block_ids

-- Python's `n.bit_length()`, with `n` as fuel, and `a << k`.
unfoldable pub bits : ℕ → ℕ → ℕ
bits zero n = 0
bits (suc fuel) n = let rest = bits fuel (n / 2) in if eqb n 0 then 0 else suc rest

unfoldable pub bit_length : ℕ → ℕ
unfolding bits
bit_length n = bits n n

unfoldable pub shift_left : ℕ → ℕ → ℕ
shift_left a zero = a
shift_left a (suc k) = shift_left a k + shift_left a k

unfoldable pub largest_power_of_two_below : ℕ → ℕ
unfolding bit_length shift_left
largest_power_of_two_below n = shift_left 1 (bit_length (n - 1) - 1)

-- `_nodes`, a dict from spans to hashes; the newest entry comes first.
abbrev pub Nodes : Type 0
Nodes = List ((ℕ × ℕ) × Bytes)

unfoldable pub cached : ℕ → ℕ → Nodes → Option Bytes
cached start end [] = none
cached start end (((s, e), computed) ∷ nodes) =
    if eqb s start && eqb e end then some computed else cached start end nodes

unfoldable pub raw_at : List Bytes → ℕ → Result Bytes
raw_at raw i = elim (get_elem? raw i) [ none ↦ raise index_error | some x ↦ ok x ]

module _ ⦃sha : Sha256⦄ where
  -- What `_subtree_hash` does on a span that is not cached; `recur` is its own recursive call.
  unfoldable pub compute_hash :
      (ℕ → ℕ → Nodes → Result (Bytes × Nodes)) → List Bytes → ℕ → ℕ → Nodes → Result (Bytes × Nodes)
  unfolding raw_at
  compute_hash recur raw start end nodes =
      if eqb (end - start) 1 then (do leaf ← raw_at raw start; ok (hash_leaf leaf, nodes)) else do
        let split = start + largest_power_of_two_below (end - start)
        (left, nodes₁) ← recur start split nodes
        (right, nodes₂) ← recur split end nodes₁
        ok (hash_node left right, nodes₂)

  unfoldable pub subtree_hash : ℕ → List Bytes → ℕ → ℕ → Nodes → Result (Bytes × Nodes)
  subtree_hash zero raw start end nodes = raise out_of_fuel
  subtree_hash (suc fuel) raw start end nodes = elim (cached start end nodes) [
    | some computed ↦ ok (computed, nodes)
    | none ↦ do
      (computed, nodes') ← compute_hash (subtree_hash fuel raw) raw start end nodes
      ok (computed, ((start, end), computed) ∷ nodes')
  ]

  -- One level of `_collect_path`; `recur` is its own recursive call.
  unfoldable pub collect_level :
      (ℕ → ℕ → ℕ → List Bytes → Nodes → Result (List Bytes × Nodes))
      → List Bytes
      → ℕ
      → ℕ
      → ℕ
      → List Bytes
      → Nodes
      → Result (List Bytes × Nodes)
  collect_level recur raw index start end path nodes =
      if eqb (end - start) 1
      then ok (path, nodes)
      else let split = start + largest_power_of_two_below (end - start) in
        if ltb (start + index) split
        then (do
          (path', nodes₁) ← recur index start split path nodes
          (sibling, nodes₂) ← subtree_hash (end - start) raw split end nodes₁
          ok (path' ++ sibling ∷ [], nodes₂))
        else do
          (path', nodes₁) ← recur (start + index - split) split end path nodes
          (sibling, nodes₂) ← subtree_hash (end - start) raw start split nodes₁
          ok (path' ++ sibling ∷ [], nodes₂)

  unfoldable pub collect_path :
      ℕ → List Bytes → ℕ → ℕ → ℕ → List Bytes → Nodes → Result (List Bytes × Nodes)
  collect_path zero raw index start end path nodes = raise out_of_fuel
  collect_path (suc fuel) raw index start end path nodes =
      collect_level (collect_path fuel raw) raw index start end path nodes

-- `_raw`, `_members` and `_index` are functions of `leaves`.
pub record MerkleTree : Type 0 where
  pub leaves : List BlockId
  pub nodes : Nodes

abbrev pub raw_leaves : MerkleTree → List Bytes
raw_leaves tree = map (λ (b : BlockId). b.raw) tree.leaves

unfoldable pub init : List BlockId → MerkleTree
unfolding sorted_leaves
init block_ids = record { leaves = sorted_leaves block_ids; nodes = [] }

-- `_index[block_id]`, from `enumerate(self.leaves)`
unfoldable pub position_from : ℕ → BlockId → List BlockId → Option ℕ
position_from i block_id [] = none
position_from i block_id (leaf ∷ leaves) =
    if block_id == leaf then some i else position_from (suc i) block_id leaves

unfoldable pub index_of : MerkleTree → BlockId → Result ℕ
unfolding position_from
index_of tree block_id = elim (position_from 0 block_id tree.leaves) [
  | none ↦ raise merkle_error
  | some i ↦ ok i
]

module _ ⦃sha : Sha256⦄ where
  unfoldable pub root : MerkleTree → Result (MerkleRoot × MerkleTree)
  root tree =
      let n = length (raw_leaves tree) in
      if eqb n 0 then ok (record { raw = hash_empty }, tree) else do
        (computed, nodes') ← subtree_hash n (raw_leaves tree) 0 n tree.nodes
        ok (record { raw = computed }, record tree { nodes = nodes' })

  unfoldable pub inclusion_proof : MerkleTree → BlockId → Result (InclusionProof × MerkleTree)
  inclusion_proof tree block_id = do
    index ← index_of tree block_id
    let n = length (raw_leaves tree)
    (path, nodes') ← collect_path n (raw_leaves tree) index 0 n [] tree.nodes
    ok (
      record { block_id = block_id; leaf_index = index; tree_size = n; audit_path = path },
      record tree { nodes = nodes' },
    )

  -- The `all(…)` of `verify`, which stops at the first leaf that does not prove into the root.
  unfoldable pub verify_leaves : List BlockId → MerkleRoot → MerkleTree → Result (Bool × MerkleTree)
  verify_leaves [] expected tree = ok (true, tree)
  verify_leaves (leaf ∷ leaves) expected tree = do
    (proof, tree') ← inclusion_proof tree leaf
    if verify proof expected then verify_leaves leaves expected tree' else ok (false, tree')

  unfoldable pub verify_tree : MerkleTree → Result (Bool × MerkleTree)
  verify_tree tree = do (expected, tree') ← root tree; verify_leaves tree'.leaves expected tree'
