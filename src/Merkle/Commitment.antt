-- ===== src/Merkle/Commitment.antt =====
-- What a `MerkleTree` of merkle/tree.py promises its callers: the root, complete proofs and the
-- whole-tree check.
pub mod Binding
use pyboltzmann.Prelude.{
  ◌^◌, ℕ, zero, suc, ◌+◌, ◌-◌, ◌≤◌, ◌<◌, ◌≡◌, ◌⊎◌, inl, inr, refl, sym, ap, ◌∙◌, Bool, true, false,
  ◌&&◌, ◌||◌, Option, some, none, List, [], ◌∷◌, ◌++◌, arith, map, length, get_elem?, eqb, leb,
  Bool-cases, if◌then◌else◌,
}
use mathlib.Core.Path.{subst, subst₂, ap₂}
use pyboltzmann.Prelude.Order.{◌==◌, ==_refl, ==_sound}
use pyboltzmann.Prelude.Sets.{contains, SameMembers}
use pyboltzmann.Prelude.Sorting.{
  IsAscending, sorted_set, sorted_set-IsAscending, contains-sorted_set, sorted_set_unique,
  sorted_set_of_ascending,
}
use pyboltzmann.Prelude.Bytes.{Bytes, bytes_order}
use pyboltzmann.Exceptions.{Result, ok, raise, merkle_error, ◌>>=◌}
use pyboltzmann.Identity.{BlockId, MerkleRoot, block_order, BlockId-injective}
use pyboltzmann.Identity.Hashing.{Sha256, hash_empty, hash_leaf}
use pyboltzmann.Identity.Collisions.{Collision}
use pyboltzmann.Merkle.Tree.{
  MerkleTree, Nodes, sorted_leaves, init, raw_leaves, root, index_of, position_from,
  inclusion_proof, verify_leaves, verify_tree, collect_path,
}
use pyboltzmann.Merkle.Proof.{InclusionProof, climb, verify}
use pyboltzmann.Merkle.Shape.{Shape, size, fringe, tree_hash, tree_path, leaf_at}
use pyboltzmann.Merkle.Span.{Covers, Covers-size, Covers-leaf_at}
use pyboltzmann.Merkle.Span.Form.{Covers-IsSplit, le-shift_left}
use pyboltzmann.Merkle.Climb.{climb-whole, length-path-le}
use pyboltzmann.Merkle.Powers.{shift_left-pow}
use pyboltzmann.Merkle.Cache.{IsCache, Returns, subtree_hash-Returns, collect_path-Returns}
use pyboltzmann.Merkle.Soundness.{climb_sound, climb_empty}
use pyboltzmann.Merkle.Reference.{whole, reference_root, reference_root-injective, fringe-whole}
use pyboltzmann.Merkle.Positions.{
  contains-sorted_leaves, length-raws, raws, raws_injective, contains-raws, position_found,
  position_missing, get_elem?-lt, some_eq,
}

-- The cache holds hashes of the tree's own spans. `init` starts with none.
abbrev pub IsReady : ⦃sha : Sha256⦄ → MerkleTree → Type 0
IsReady tree = IsCache (raws tree.leaves) tree.nodes

abbrev pub tree_of : List BlockId → Nodes → MerkleTree
tree_of leaves nodes = record { leaves = leaves; nodes = nodes }

module _ ⦃sha : Sha256⦄ where
  -- A method that returns `a` and changes nothing but the cache.
  abbrev pub Answers {ℓ} : {A : Type ℓ} → Result (A × MerkleTree) → A → List BlockId → Type ℓ
  Answers r a leaves =
      (nodes : Nodes) × (r ≡ ok (a, tree_of leaves nodes)) × IsCache (raws leaves) nodes

  pub root-Answers :
      (leaves : List BlockId) (nodes : Nodes)
      → IsCache (raws leaves) nodes
      → Answers (root (tree_of leaves nodes)) (record { raw = reference_root (raws leaves) }) leaves
  unfolding root reference_root
  root-Answers [] nodes v = (nodes, refl, v)
  root-Answers (b ∷ leaves) nodes v =
      let raw : List Bytes = raws (b ∷ leaves) in
      let (t, c) = whole b.raw (raws leaves) in
      let (nodes', p, v') =
        subtree_hash-Returns raw (length raw) 0 (length raw) t nodes (omega arith) c v in
      let some_leaf : eqb (length raw) 0 ≡ false = ground arith in (nodes', rw (some_leaf, p), v')

  index_of-found :
      (leaves : List BlockId) (nodes : Nodes) (b : BlockId)
      → contains b leaves ≡ true
      → (i : ℕ) × (index_of (tree_of leaves nodes) b ≡ ok i)
        × (get_elem? (raws leaves) i ≡ some b.raw)
  unfolding index_of
  index_of-found leaves nodes b h =
      let (i, found, at) = position_found 0 b leaves h in
      let z : 0 + i ≡ i = omega arith in (i, rw (found, z), at)

  pub inclusion_proof_missing :
      (tree : MerkleTree) (b : BlockId)
      → contains b tree.leaves ≡ false
      → inclusion_proof tree b ≡ raise merkle_error
  unfolding index_of inclusion_proof
  inclusion_proof_missing tree b h =
      let missing : index_of tree b ≡ raise merkle_error =
        rw (position_missing 0 b tree.leaves h, index_of) in
      rw missing

  verify_accepts :
      (b : BlockId) (i n : ℕ) (path : List Bytes) (r : Bytes)
      → i < n
      → climb path i (n - 1) (hash_leaf b.raw) ≡ some (0, 0, r)
      → verify
          (record { block_id = b; leaf_index = i; tree_size = n; audit_path = path })
          (record { raw = r })
        ≡ true
  unfolding verify
  verify_accepts b i n path r h p =
      let inside : leb n i ≡ false = ground arith in rw (inside, p) (==_refl r)

  -- The proof that the tree's shape gives for the leaf at `i`.
  abbrev pub proof_at : BlockId → ℕ → Shape → ℕ → InclusionProof
  proof_at b i t n = record {
    block_id = b;
    leaf_index = i;
    tree_size = n;
    audit_path = tree_path t i;
  }

  pub inclusion_proof-Answers :
      (leaves : List BlockId) (nodes : Nodes) (b : BlockId)
      → contains b leaves ≡ true
      → IsCache (raws leaves) nodes
      → (proof : InclusionProof) × Answers (inclusion_proof (tree_of leaves nodes) b) proof leaves
        × (verify proof (record { raw = reference_root (raws leaves) }) ≡ true)
        × (proof.block_id ≡ b)
        × (get_elem? (raws leaves) proof.leaf_index ≡ some b.raw)
        × ((h : ℕ) → length leaves ≤ 2 ^ h → length proof.audit_path ≤ h)
  unfolding reference_root
  inclusion_proof-Answers [] nodes b h v = absurd (unfold contains in ground arith)
  inclusion_proof-Answers (x ∷ leaves) nodes b h v =
      let raw : List Bytes = raws (x ∷ leaves) in
      let n : ℕ = length raw in
      let (t, c) = whole x.raw (raws leaves) in
      let (i, found, at) = index_of-found (x ∷ leaves) nodes b h in
      let within = get_elem?-lt raw i b.raw at in
      let wide = Covers-size raw 0 n t c in
      let z : n - 0 ≡ n = omega arith in
      let start : 0 + i ≡ i = omega arith in
      let leaf : leaf_at t i ≡ b.raw =
        some_eq (leaf_at t i) b.raw
          (sym (Covers-leaf_at raw 0 n i t c (omega arith)) ∙ ap (get_elem? raw) start ∙ at) in
      let (nodes', p, v') =
        collect_path-Returns raw n i 0 n t [] nodes (omega arith) (omega arith) c v in
      (
        proof_at b i t n,
        (nodes', unfold inclusion_proof in rw (found, p), v'),
        verify_accepts b i n (tree_path t i) (tree_hash t) within (
            subst₂
              (λ size_of x.
                climb (tree_path t i) i (size_of - 1) (hash_leaf x) ≡ some (0, 0, tree_hash t))
              (wide ∙ z) leaf
              (climb-whole n t i (Covers-IsSplit raw n 0 n t c (omega (arith, le-shift_left n)))
                (omega arith))),
        refl,
        at,
        λ k fits. length-path-le k t i (
            Covers-IsSplit raw k 0 n t c
              (omega (arith, fits, shift_left-pow k, length-raws (x ∷ leaves)))),
      )

  -- Every leaf of a list proves into the root of the whole.
  verify_leaves-Answers :
      (some_leaves leaves : List BlockId) (nodes : Nodes)
      → ((b : BlockId) → contains b some_leaves ≡ true → contains b leaves ≡ true)
      → IsCache (raws leaves) nodes
      → Answers
          (verify_leaves some_leaves
            (record { raw = reference_root (raws leaves) })
            (tree_of leaves nodes))
          true
          leaves
  unfolding verify_leaves contains
  verify_leaves-Answers [] leaves nodes sub v = (nodes, refl, v)
  verify_leaves-Answers (b ∷ bs) leaves nodes sub v =
      let (proof, (nodes', p, v'), good, _, _, _) =
        inclusion_proof-Answers leaves nodes b (sub b (ground (arith, ==_refl b))) v in
      let (nodes'', p'', v'') =
        verify_leaves-Answers bs leaves nodes' (λ c h. sub c (ground arith)) v' in
      (nodes'', rw (p, good, p''), v'')

  -- The root of a set of blocks is the RFC's root of its sorted members.
  pub root-init :
      (block_ids : List BlockId)
      → Answers
          (root (init block_ids))
          (record { raw = reference_root (raws (sorted_leaves block_ids)) })
          (sorted_leaves block_ids)
  unfolding init
  root-init block_ids = root-Answers (sorted_leaves block_ids) [] tt

  -- A freshly built tree passes its own check: every leaf proves into the root.
  pub verify_tree-init :
      (block_ids : List BlockId)
      → Answers (verify_tree (init block_ids)) true (sorted_leaves block_ids)
  unfolding verify_tree init
  verify_tree-init block_ids =
      let leaves : List BlockId = sorted_leaves block_ids in
      let (nodes, p, v) = root-Answers leaves [] tt in
      let (nodes', p', v') = verify_leaves-Answers leaves leaves nodes (λ b h. h) v in
      (nodes', rw (p, p'), v')

  -- For a member of the set, `inclusion_proof` returns a proof of that block at its place among the
  -- sorted leaves, the proof verifies against the root, and its path has at most `h` hashes where
  -- the tree has at most `2 ^ h` leaves.
  pub inclusion_proof_complete :
      (block_ids : List BlockId) (b : BlockId)
      → contains b block_ids ≡ true
      → (proof : InclusionProof) × Answers
          (inclusion_proof (init block_ids) b)
          proof
          (sorted_leaves block_ids)
        × (verify proof (record { raw = reference_root (raws (sorted_leaves block_ids)) }) ≡ true)
        × (proof.block_id ≡ b)
        × (get_elem? (raws (sorted_leaves block_ids)) proof.leaf_index ≡ some b.raw)
        × ((h : ℕ) → length (sorted_leaves block_ids) ≤ 2 ^ h → length proof.audit_path ≤ h)
  unfolding init
  inclusion_proof_complete block_ids b h =
      inclusion_proof-Answers (sorted_leaves block_ids) [] b
        (contains-sorted_leaves b block_ids ∙ h) tt

  -- A block outside the set has no proof: `inclusion_proof` raises MerkleError.
  pub inclusion_proof_refused :
      (block_ids : List BlockId) (b : BlockId)
      → contains b block_ids ≡ false
      → inclusion_proof (init block_ids) b ≡ raise merkle_error
  unfolding init
  inclusion_proof_refused block_ids b h =
      inclusion_proof_missing (tree_of (sorted_leaves block_ids) []) b
        (contains-sorted_leaves b block_ids ∙ h)
