-- ===== src/Merkle/Reference.antt =====
-- The root that RFC 9162 defines for a list of leaves, and its uniqueness.
use pyboltzmann.Prelude.{
  ℕ, zero, suc, ◌≡◌, ◌⊎◌, inl, inr, refl, sym, ap, ◌∙◌, some, List, [], ◌∷◌, ◌++◌, arith, length,
  get_elem?,
}
use mathlib.Core.List.{append-nil, append_assoc}
use pyboltzmann.Prelude.Bytes.{Bytes}
use pyboltzmann.Identity.Hashing.{Sha256, hash_empty}
use pyboltzmann.Identity.Collisions.{Collision, hash_leaf-hash_empty, hash_node-hash_empty}
use pyboltzmann.Merkle.Shape.{Shape, leaf, node, fringe, tree_hash}
use pyboltzmann.Merkle.Span.{Covers, covers_leaf, covers_node, split_point, Covers-exists}
use pyboltzmann.Merkle.Binding.{tree_hash-injective}

-- The tree of all the leaves.
pub whole : (x : Bytes) (raw : List Bytes) → (t : Shape) × Covers (x ∷ raw) 0 (length (x ∷ raw)) t
whole x raw =
    let n : ℕ = length (x ∷ raw) in
    Covers-exists (x ∷ raw) n 0 n (omega arith) (omega arith) (omega arith)

module _ ⦃sha : Sha256⦄ where
  -- MTH of RFC 9162, Section 2.1.1.
  unfoldable pub reference_root : List Bytes → Bytes
  reference_root [] = hash_empty
  reference_root (x ∷ raw) = tree_hash (whole x raw).0

-- The elements from the `s`-th on.
drop : ℕ → List Bytes → List Bytes
drop zero xs = xs
drop (suc n) [] = []
drop (suc n) (x ∷ xs) = drop n xs

drop_at :
    (xs : List Bytes) (s : ℕ) (x : Bytes)
    → get_elem? xs s ≡ some x
    → drop s xs ≡ x ∷ drop (suc s) xs
unfolding drop
drop_at [] s x h = absurd (ground arith)
drop_at (y ∷ xs) zero x h = ground arith
drop_at (y ∷ xs) (suc s) x h = drop_at xs s x h

drop_end : (xs : List Bytes) → drop (length xs) xs ≡ []
unfolding drop
drop_end [] = refl
drop_end (x ∷ xs) = drop_end xs

Covers-fringe :
    (xs : List Bytes) (s e : ℕ) (t : Shape) → Covers xs s e t → fringe t ++ drop e xs ≡ drop s xs
Covers-fringe xs s e _ (covers_leaf {x = x} p at) = rw p (sym (drop_at xs s x at))
Covers-fringe xs s e _ (covers_node {l = l} {r = r} q cl cr) =
    append_assoc (fringe l) (fringe r) (drop e xs)
    ∙ ap (λ ys. fringe l ++ ys) (Covers-fringe xs (split_point s e) e r cr)
    ∙ Covers-fringe xs s (split_point s e) l cl

pub fringe-whole : (x : Bytes) (raw : List Bytes) → fringe (whole x raw).0 ≡ x ∷ raw
unfolding drop
fringe-whole x raw =
    let (t, c) = whole x raw in
    sym (append-nil (fringe t))
    ∙ ap (λ ys. fringe t ++ ys) (sym (drop_end (x ∷ raw)))
    ∙ Covers-fringe (x ∷ raw) 0 (length (x ∷ raw)) t c

module _ ⦃sha : Sha256⦄ where
  pub tree_hash-hash_empty : (t : Shape) → tree_hash t ≡ hash_empty → Collision
  unfolding tree_hash
  tree_hash-hash_empty (leaf x) h = hash_leaf-hash_empty x h
  tree_hash-hash_empty (node l r) h = hash_node-hash_empty (tree_hash l) (tree_hash r) h

  -- Equal roots come from equal leaves, or from a collision.
  pub reference_root-injective :
      (xs ys : List Bytes) → reference_root xs ≡ reference_root ys → (xs ≡ ys) ⊎ Collision
  unfolding reference_root
  reference_root-injective [] [] h = inl refl
  reference_root-injective [] (y ∷ ys) h = inr (tree_hash-hash_empty (whole y ys).0 (sym h))
  reference_root-injective (x ∷ xs) [] h = inr (tree_hash-hash_empty (whole x xs).0 h)
  reference_root-injective (x ∷ xs) (y ∷ ys) h =
      elim (tree_hash-injective (whole x xs).0 (whole y ys).0 h) [
        | inl e ↦ inl (sym (fringe-whole x xs) ∙ ap fringe e ∙ fringe-whole y ys)
        | inr c ↦ inr c
      ]
