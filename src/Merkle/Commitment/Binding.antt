-- ===== src/Merkle/Commitment/Binding.antt =====
-- A root of merkle/tree.py names one set of blocks, and a proof of merkle/proof.py that verifies
-- against it names a member, up to a collision of SHA-256.
use pyboltzmann.Prelude.{
  ℕ, ◌-◌, ◌≡◌, ◌⊎◌, inl, inr, refl, sym, ap, ◌∙◌, true, Option, some, none, List, [], ◌∷◌, arith,
}
use mathlib.Core.Path.{subst}
use pyboltzmann.Prelude.Order.{==_sound}
use pyboltzmann.Prelude.Sets.{contains, SameMembers}
use pyboltzmann.Prelude.Sorting.{sorted_set_unique}
use pyboltzmann.Prelude.Bytes.{Bytes, bytes_order}
use pyboltzmann.Exceptions.{ok}
use pyboltzmann.Identity.{BlockId, MerkleRoot, block_order}
use pyboltzmann.Identity.Hashing.{Sha256, hash_empty, hash_leaf}
use pyboltzmann.Identity.Collisions.{Collision}
use pyboltzmann.Merkle.Tree.{MerkleTree, sorted_leaves, init, root}
use pyboltzmann.Merkle.Proof.{InclusionProof, climb, verify}
use pyboltzmann.Merkle.Shape.{Shape, tree_hash}
use pyboltzmann.Merkle.Soundness.{climb_sound, climb_empty}
use pyboltzmann.Merkle.Reference.{whole, reference_root, reference_root-injective, fringe-whole}
use pyboltzmann.Merkle.Positions.{raws, raws_injective, contains-raws}
use pyboltzmann.Merkle.Positions.{contains-sorted_leaves}
use pyboltzmann.Merkle.Commitment.{tree_of, root-init}

module _ ⦃sha : Sha256⦄ where
  verify_climbs :
      (proof : InclusionProof) (r : Bytes)
      → verify proof (record { raw = r }) ≡ true
      → (p' : ℕ) × (climb proof.audit_path proof.leaf_index
            (proof.tree_size - 1)
            (hash_leaf proof.block_id.raw)
          ≡ some (p', 0, r))
  unfolding verify
  verify_climbs proof r h =
      go
        (climb proof.audit_path proof.leaf_index (proof.tree_size - 1)
          (hash_leaf proof.block_id.raw))
        refl
    where
      go :
          (out : Option (ℕ × ℕ × Bytes))
          → climb proof.audit_path proof.leaf_index
              (proof.tree_size - 1)
              (hash_leaf proof.block_id.raw)
            ≡ out
          → (p' : ℕ) × (climb proof.audit_path proof.leaf_index
                (proof.tree_size - 1)
                (hash_leaf proof.block_id.raw)
              ≡ some (p', 0, r))
      go none e = absurd (ground arith)
      go (some (p', l', r')) e = (p', ground (arith, ==_sound r' r))

  sound_raw :
      (raw : List Bytes) (proof : InclusionProof)
      → verify proof (record { raw = reference_root raw }) ≡ true
      → (contains proof.block_id.raw raw ≡ true) ⊎ Collision
  unfolding reference_root
  sound_raw [] proof h =
      let (p', e) = verify_climbs proof hash_empty h in
      inr (
        climb_empty proof.block_id.raw proof.audit_path proof.leaf_index (proof.tree_size - 1) p' 0
          e)
  sound_raw (x ∷ raw) proof h =
      let t : Shape = (whole x raw).0 in
      let (p', e) = verify_climbs proof (tree_hash t) h in
      subst (λ xs. (contains proof.block_id.raw xs ≡ true) ⊎ Collision) (fringe-whole x raw)
        (climb_sound proof.block_id.raw proof.audit_path proof.leaf_index (proof.tree_size - 1) p' 0
          t e)

  root_value :
      (block_ids : List BlockId) (r : MerkleRoot) (tree : MerkleTree)
      → root (init block_ids) ≡ ok (r, tree)
      → r.raw ≡ reference_root (raws (sorted_leaves block_ids))
  root_value block_ids r tree h = let (nodes, p, _) = root-init block_ids in ground (arith, p)

  -- A proof that verifies against the root of a set, however it was made, is about a member of the
  -- set; otherwise two inputs of SHA-256 with one digest are at hand.
  pub verify_sound :
      (block_ids : List BlockId) (proof : InclusionProof) (r : MerkleRoot) (tree : MerkleTree)
      → root (init block_ids) ≡ ok (r, tree)
      → verify proof r ≡ true
      → (contains proof.block_id block_ids ≡ true) ⊎ Collision
  verify_sound block_ids proof r tree h good =
      let value = root_value block_ids r tree h in
      let same : r ≡ record { raw = reference_root (raws (sorted_leaves block_ids)) } =
        λ i. record { raw = value i } in
      elim (sound_raw (raws (sorted_leaves block_ids)) proof
        (subst (λ x. verify proof x ≡ true) same good)) [
          | inl m ↦ inl (
              sym (contains-sorted_leaves proof.block_id block_ids)
              ∙ sym (contains-raws proof.block_id (sorted_leaves block_ids))
              ∙ m)
          | inr c ↦ inr c
        ]

  -- Two sets with one root have the same members, or two inputs of SHA-256 with one digest are at
  -- hand.
  pub root_binds :
      (xs ys : List BlockId) (r : MerkleRoot) (t u : MerkleTree)
      → root (init xs) ≡ ok (r, t)
      → root (init ys) ≡ ok (r, u)
      → SameMembers xs ys ⊎ Collision
  root_binds xs ys r t u h k =
      let value = sym (root_value xs r t h) ∙ root_value ys r u k in
      elim (reference_root-injective (raws (sorted_leaves xs)) (raws (sorted_leaves ys)) value) [
        | inl e ↦ inl (λ b.
            sym (contains-sorted_leaves b xs)
            ∙ ap (contains b) (raws_injective (sorted_leaves xs) (sorted_leaves ys) e)
            ∙ contains-sorted_leaves b ys)
        | inr c ↦ inr c
      ]

  init_set : (xs ys : List BlockId) → SameMembers xs ys → init xs ≡ init ys
  unfolding init sorted_leaves
  init_set xs ys same = ap (λ ls. tree_of ls []) (sorted_set_unique xs ys same)

  -- The root does not depend on the order or the repetitions of the blocks it is built from.
  pub root_of_set : (xs ys : List BlockId) → SameMembers xs ys → root (init xs) ≡ root (init ys)
  root_of_set xs ys same = ap root (init_set xs ys same)
