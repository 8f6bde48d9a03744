-- ===== src/Merkle/Shape.antt =====
-- The tree that RFC 9162, Section 2.1.1, describes, as a value: what merkle/tree.py computes span by
-- span is stated against it.
use pyboltzmann.Prelude.{
  ℕ, zero, suc, ◌+◌, ◌-◌, ◌≤◌, ◌<◌, ◌≡◌, refl, List, [], ◌∷◌, ◌++◌, arith, ltb, if◌then◌else◌,
}
use pyboltzmann.Prelude.Bytes.{Bytes}
use pyboltzmann.Identity.Hashing.{Sha256, hash_leaf, hash_node}
use pyboltzmann.Merkle.Tree.{shift_left}

pub data Shape : Type 0 where
  leaf : Bytes → Shape
  node : Shape → Shape → Shape

abbrev pub size : Shape → ℕ
size (leaf x) = 1
size (node l r) = size l + size r

-- The leaves, from left to right.
abbrev pub fringe : Shape → List Bytes
fringe (leaf x) = x ∷ []
fringe (node l r) = fringe l ++ fringe r

abbrev pub leaf_at : Shape → ℕ → Bytes
leaf_at (leaf x) i = x
leaf_at (node l r) i = if ltb i (size l) then leaf_at l i else leaf_at r (i - size l)

-- Merkle Tree Hash and audit path, as the RFC defines them.
module _ ⦃sha : Sha256⦄ where
  unfoldable pub tree_hash : Shape → Bytes
  tree_hash (leaf x) = hash_leaf x
  tree_hash (node l r) = hash_node (tree_hash l) (tree_hash r)

  unfoldable pub tree_path : Shape → ℕ → List Bytes
  tree_path (leaf x) i = []
  tree_path (node l r) i =
      if ltb i (size l)
      then tree_path l i ++ tree_hash r ∷ []
      else tree_path r (i - size l) ++ tree_hash l ∷ []

-- All levels full.
abbrev pub IsPerfect : ℕ → Shape → Type 0
IsPerfect zero (leaf x) = Unit
IsPerfect zero (node l r) = ⊥
IsPerfect (suc m) (leaf x) = ⊥
IsPerfect (suc m) (node l r) = IsPerfect m l × IsPerfect m r

-- At most `2 ^ h` leaves, a perfect tree to the left of every split.
pub data IsSplit : ℕ → Shape → Type 0 where
  single : {h : ℕ} {x : Bytes} → IsSplit h (leaf x)
  fork : {h m : ℕ} {l r : Shape} → m < h → IsPerfect m l → IsSplit m r → IsSplit h (node l r)

pub size-pos : (t : Shape) → 0 < size t
size-pos (leaf x) = omega arith
size-pos (node l r) = omega (arith, size-pos l)

pub size-perfect : (m : ℕ) (t : Shape) → IsPerfect m t → size t ≡ shift_left 1 m
unfolding shift_left
size-perfect zero (leaf x) p = refl
size-perfect zero (node l r) p = absurd p
size-perfect (suc m) (leaf x) p = absurd p
size-perfect (suc m) (node l r) p = omega (arith, size-perfect m l p.0, size-perfect m r p.1)

pub shift_left_mono : (m h : ℕ) → m ≤ h → shift_left 1 m ≤ shift_left 1 h
unfolding shift_left
shift_left_mono m zero p = let e : m ≡ 0 = omega arith in rw e (omega arith)
shift_left_mono zero (suc h) p = omega (arith, shift_left_mono zero h (omega arith))
shift_left_mono (suc m) (suc h) p = omega (arith, shift_left_mono m h (omega arith))

pub size-split : (h : ℕ) (t : Shape) → IsSplit h t → size t ≤ shift_left 1 h
unfolding shift_left
size-split h _ single = omega (arith, shift_left_mono 0 h (omega arith))
size-split h (node l r) (fork {m = m} lt p e) =
    omega (arith, size-perfect m l p, size-split m r e, shift_left_mono (suc m) h lt)
