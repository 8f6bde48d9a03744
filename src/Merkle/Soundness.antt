-- ===== src/Merkle/Soundness.antt =====
-- A proof that verifies against the hash of a tree is about one of its leaves, whatever index, size
-- and path the proof claims, or it exhibits a collision of SHA-256.
use pyboltzmann.Prelude.{
  ℕ, ◌≡◌, ◌⊎◌, inl, inr, refl, sym, ap, ◌∙◌, true, some, List, [], ◌∷◌, arith, length,
}
use mathlib.Core.Path.{subst}
use pyboltzmann.Prelude.Order.{==_complete}
use pyboltzmann.Prelude.Sets.{contains, contains-append}
use pyboltzmann.Prelude.Bytes.{Bytes, bytes_order}
use pyboltzmann.Identity.Hashing.{Sha256, hash_leaf, hash_node, hash_empty, digest_size}
use pyboltzmann.Identity.Collisions.{
  Collision, length-hash_leaf, length-hash_node, hash_leaf-injective, hash_leaf-hash_node,
  hash_node-injective, hash_node-injective_right, hash_leaf-hash_empty, hash_node-hash_empty,
}
use pyboltzmann.Merkle.Proof.{climb_level, climb}
use pyboltzmann.Merkle.Shape.{Shape, leaf, node, tree_hash, fringe}
use pyboltzmann.Merkle.Binding.{length-tree_hash}

module _ ⦃sha : Sha256⦄ where
  -- `r` is the hash of the tree or of one of its subtrees.
  abbrev pub IsWithin : Bytes → Shape → Type 0
  IsWithin r (leaf x) = r ≡ hash_leaf x
  IsWithin r (node l h) = (r ≡ tree_hash (node l h)) ⊎ (IsWithin r l ⊎ IsWithin r h)

  pub IsWithin-self : (t : Shape) (r : Bytes) → r ≡ tree_hash t → IsWithin r t
  unfolding tree_hash
  IsWithin-self (leaf x) r e = e
  IsWithin-self (node l h) r e = inl e

  -- One of the two has the size of a digest.
  abbrev IsSized : Bytes → Bytes → Type 0
  IsSized x y = (length x ≡ digest_size) ⊎ (length y ≡ digest_size)

  children :
      (x y : Bytes) (l h : Shape)
      → IsSized x y
      → hash_node x y ≡ tree_hash (node l h)
      → ((x ≡ tree_hash l) × (y ≡ tree_hash h)) ⊎ Collision
  unfolding tree_hash
  children x y l h (inl n) e =
      hash_node-injective x y (tree_hash l) (tree_hash h) (n ∙ sym (length-tree_hash l)) e
  children x y l h (inr n) e =
      hash_node-injective_right x y (tree_hash l) (tree_hash h) (n ∙ sym (length-tree_hash h)) e

  -- With a parent the tree has its children.
  step_down :
      (x y : Bytes) (t : Shape)
      → IsSized x y
      → IsWithin (hash_node x y) t
      → (IsWithin x t × IsWithin y t) ⊎ Collision
  step_down x y (leaf z) n w = inr (hash_leaf-hash_node z x y (sym w))
  step_down x y (node l h) n (inl e) = elim (children x y l h n e) [
    | inl (p, q) ↦ inl (inr (inl (IsWithin-self l x p)), inr (inr (IsWithin-self h y q)))
    | inr c ↦ inr c
  ]
  step_down x y (node l h) n (inr (inl w)) = elim (step_down x y l n w) [
    | inl (p, q) ↦ inl (inr (inl p), inr (inl q))
    | inr c ↦ inr c
  ]
  step_down x y (node l h) n (inr (inr w)) = elim (step_down x y h n w) [
    | inl (p, q) ↦ inl (inr (inr p), inr (inr q))
    | inr c ↦ inr c
  ]

  -- Whichever way a level turns, it hashes the running hash with the sibling.
  level_hash :
      (sibling running : Bytes) (p l : ℕ)
      → ((climb_level sibling p l running).2 ≡ hash_node sibling running)
        ⊎ ((climb_level sibling p l running).2 ≡ hash_node running sibling)
  unfolding climb_level
  level_hash sibling running p l = ground arith

  level_IsWithin :
      (sibling running : Bytes) (p l : ℕ) (t : Shape)
      → length running ≡ digest_size
      → IsWithin (climb_level sibling p l running).2 t
      → IsWithin running t ⊎ Collision
  level_IsWithin sibling running p l t n w = elim (level_hash sibling running p l) [
    | inl e ↦ elim (step_down sibling running t (inr n) (subst (λ x. IsWithin x t) e w)) [
      | inl (a, b) ↦ inl b
      | inr c ↦ inr c
    ]
    | inr e ↦ elim (step_down running sibling t (inl n) (subst (λ x. IsWithin x t) e w)) [
      | inl (a, b) ↦ inl a
      | inr c ↦ inr c
    ]
  ]

  length-level :
      (sibling running : Bytes) (p l : ℕ) → length (climb_level sibling p l running).2 ≡ digest_size
  length-level sibling running p l = elim (level_hash sibling running p l) [
    | inl e ↦ ap (λ (x : Bytes). length x) e ∙ length-hash_node sibling running
    | inr e ↦ ap (λ (x : Bytes). length x) e ∙ length-hash_node running sibling
  ]

  climb-cons :
      (s : Bytes) (path : List Bytes) (p l : ℕ) (r : Bytes) (p' l' : ℕ) (r' : Bytes)
      → climb (s ∷ path) p l r ≡ some (p', l', r')
      → climb path (climb_level s p l r).0 (climb_level s p l r).1 (climb_level s p l r).2
        ≡ some (p', l', r')
  unfolding climb
  climb-cons s path p l r p' l' r' e = ground arith

  -- If the loop ends within the tree, it started there.
  climb-IsWithin :
      (path : List Bytes) (p l : ℕ) (r : Bytes) (p' l' : ℕ) (r' : Bytes) (t : Shape)
      → length r ≡ digest_size
      → climb path p l r ≡ some (p', l', r')
      → IsWithin r' t
      → IsWithin r t ⊎ Collision
  unfolding climb
  climb-IsWithin [] p l r p' l' r' t n e w =
      let same : r' ≡ r = ground arith in inl (subst (λ x. IsWithin x t) same w)
  climb-IsWithin (s ∷ path) p l r p' l' r' t n e w =
      let next = climb_level s p l r in
      elim (climb-IsWithin path next.0 next.1 next.2 p' l' r' t (length-level s r p l)
        (climb-cons s path p l r p' l' r' e) w) [
          | inl above ↦ level_IsWithin s r p l t n above
          | inr c ↦ inr c
        ]

  -- A leaf hash within the tree is that of a leaf.
  leaf_IsWithin :
      (x : Bytes) (t : Shape)
      → IsWithin (hash_leaf x) t
      → (contains x (fringe t) ≡ true) ⊎ Collision
  unfolding contains tree_hash
  leaf_IsWithin x (leaf y) w = elim (hash_leaf-injective x y w) [
    | inl e ↦ inl (ground (arith, ==_complete x y))
    | inr c ↦ inr c
  ]
  leaf_IsWithin x (node l h) (inl e) = inr (hash_leaf-hash_node x (tree_hash l) (tree_hash h) e)
  leaf_IsWithin x (node l h) (inr (inl w)) = elim (leaf_IsWithin x l w) [
    | inl m ↦ inl (ground (arith, contains-append x (fringe l) (fringe h)))
    | inr c ↦ inr c
  ]
  leaf_IsWithin x (node l h) (inr (inr w)) = elim (leaf_IsWithin x h w) [
    | inl m ↦ inl (ground (arith, contains-append x (fringe l) (fringe h)))
    | inr c ↦ inr c
  ]

  pub climb_sound :
      (x : Bytes) (path : List Bytes) (p l p' l' : ℕ) (t : Shape)
      → climb path p l (hash_leaf x) ≡ some (p', l', tree_hash t)
      → (contains x (fringe t) ≡ true) ⊎ Collision
  climb_sound x path p l p' l' t e =
      elim (climb-IsWithin path p l (hash_leaf x) p' l' (tree_hash t) t (length-hash_leaf x) e
        (IsWithin-self t (tree_hash t) refl)) [ inl w ↦ leaf_IsWithin x t w | inr c ↦ inr c ]

  -- No proof ends at the hash of the empty tree.
  empty_level :
      (sibling running : Bytes) (p l : ℕ)
      → (climb_level sibling p l running).2 ≡ hash_empty
      → Collision
  empty_level sibling running p l h = elim (level_hash sibling running p l) [
    | inl e ↦ hash_node-hash_empty sibling running (sym e ∙ h)
    | inr e ↦ hash_node-hash_empty running sibling (sym e ∙ h)
  ]

  climb_empty_from :
      (path : List Bytes) (p l p' l' : ℕ) (r : Bytes)
      → (r ≡ hash_empty → Collision)
      → climb path p l r ≡ some (p', l', hash_empty)
      → Collision
  unfolding climb
  climb_empty_from [] p l p' l' r no_start e = no_start (ground arith)
  climb_empty_from (s ∷ path) p l p' l' r no_start e =
      climb_empty_from path (climb_level s p l r).0 (climb_level s p l r).1 p' l'
        (climb_level s p l r).2 (empty_level s r p l) (climb-cons s path p l r p' l' hash_empty e)

  pub climb_empty :
      (x : Bytes) (path : List Bytes) (p l p' l' : ℕ)
      → climb path p l (hash_leaf x) ≡ some (p', l', hash_empty)
      → Collision
  climb_empty x path p l p' l' =
      climb_empty_from path p l p' l' (hash_leaf x) (hash_leaf-hash_empty x)
