-- ===== src/Merkle/Binding.antt =====
-- A Merkle root binds its leaves: two trees with one hash are one tree, or SHA-256 is broken.
use pyboltzmann.Prelude.{◌≡◌, ◌⊎◌, inl, inr, sym, ap, ◌∙◌, length}
use mathlib.Core.Path.{ap₂}
use pyboltzmann.Identity.Hashing.{Sha256, digest_size}
use pyboltzmann.Identity.Collisions.{
  Collision, length-hash_leaf, length-hash_node, hash_leaf-injective, hash_leaf-hash_node,
  hash_node-injective,
}
use pyboltzmann.Merkle.Shape.{Shape, leaf, node, tree_hash}

module _ ⦃sha : Sha256⦄ where
  pub length-tree_hash : (t : Shape) → length (tree_hash t) ≡ digest_size
  unfolding tree_hash
  length-tree_hash (leaf x) = length-hash_leaf x
  length-tree_hash (node l r) = length-hash_node (tree_hash l) (tree_hash r)

  both :
      (l r l' r' : Shape)
      → (l ≡ l') ⊎ Collision
      → (r ≡ r') ⊎ Collision
      → (node l r ≡ node l' r') ⊎ Collision
  both l r l' r' (inl p) (inl q) = inl (ap₂ node p q)
  both l r l' r' (inr c) q = inr c
  both l r l' r' (inl p) (inr c) = inr c

  pub tree_hash-injective : (t u : Shape) → tree_hash t ≡ tree_hash u → (t ≡ u) ⊎ Collision
  unfolding tree_hash
  tree_hash-injective (leaf x) (leaf y) h = elim (hash_leaf-injective x y h) [
    | inl e ↦ inl (ap leaf e)
    | inr c ↦ inr c
  ]
  tree_hash-injective (leaf x) (node l r) h =
      inr (hash_leaf-hash_node x (tree_hash l) (tree_hash r) h)
  tree_hash-injective (node l r) (leaf x) h =
      inr (hash_leaf-hash_node x (tree_hash l) (tree_hash r) (sym h))
  tree_hash-injective (node l r) (node l' r') h =
      let n : length (tree_hash l) ≡ length (tree_hash l') =
        length-tree_hash l ∙ sym (length-tree_hash l') in
      elim (hash_node-injective (tree_hash l) (tree_hash r) (tree_hash l') (tree_hash r') n h) [
        | inl (p, q) ↦ both l r l' r' (tree_hash-injective l l' p) (tree_hash-injective r r' q)
        | inr c ↦ inr c
      ]
