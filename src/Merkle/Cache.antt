-- ===== src/Merkle/Cache.antt =====
-- The cache of internal node hashes holds only hashes of the spans it files them under, so every
-- method of the tree computes what it would compute without a cache.
use pyboltzmann.Prelude.{
  ℕ, zero, suc, ◌+◌, ◌-◌, ◌≤◌, ◌<◌, ◌≡◌, refl, ap, Option, none, some, List, [], ◌∷◌, ◌++◌, arith,
  get_elem?, true, false, ltb, eqb, inl, inr, Bool-cases, lt→ltb, ◌∙◌, ◌&&◌,
}
use mathlib.Core.Path.{subst₂}
use mathlib.Core.List.{append-nil, append_assoc}
use native.Mathlib.Decide.{dec_lt}
use pyboltzmann.Prelude.Bytes.{Bytes}
use pyboltzmann.Exceptions.{Result, ok}
use pyboltzmann.Identity.Hashing.{Sha256}
use pyboltzmann.Merkle.Tree.{
  Nodes, cached, raw_at, compute_hash, subtree_hash, collect_level, collect_path,
}
use pyboltzmann.Merkle.Shape.{Shape, leaf, node, size, tree_hash, tree_path}
use pyboltzmann.Merkle.Span.{
  Covers, covers_leaf, covers_node, split_point, split_bounds, Covers-lt, Covers-size,
  Covers-unique,
}

raw_at-some :
    (raw : List Bytes) (i : ℕ) (x : Bytes) → get_elem? raw i ≡ some x → raw_at raw i ≡ ok x
unfolding raw_at
raw_at-some raw i x h = ground arith

module _ ⦃sha : Sha256⦄ (raw : List Bytes) where
  -- Every entry is the hash of the tree of its span.
  abbrev pub IsCache : Nodes → Type 0
  IsCache [] = Unit
  IsCache (((s, e), computed) ∷ nodes) =
      ((t : Shape) → Covers raw s e t → computed ≡ tree_hash t) × IsCache nodes

  cached-IsCache :
      (s e : ℕ) (t : Shape) (nodes : Nodes) (computed : Bytes)
      → IsCache nodes
      → Covers raw s e t
      → cached s e nodes ≡ some computed
      → computed ≡ tree_hash t
  unfolding cached
  cached-IsCache s e t [] computed v c h = absurd (ground arith)
  cached-IsCache s e t (((s', e'), d) ∷ nodes) computed v c h =
      elim (Bool-cases (eqb s' s && eqb e' e)) [
        | inl here ↦
            let ps : s ≡ s' = ground arith in
            let pe : e ≡ e' = ground arith in
            let moved : Covers raw s' e' t = subst₂ (λ x y. Covers raw x y t) ps pe c in
            ground (arith, v.0 t moved)
        | inr there ↦ cached-IsCache s e t nodes computed v.1 c (ground arith)
      ]

  -- A method that returns `a` and keeps the cache valid.
  abbrev pub Returns {ℓ} : {A : Type ℓ} → Result (A × Nodes) → A → Type ℓ
  Returns r a = (nodes : Nodes) × (r ≡ ok (a, nodes)) × IsCache nodes

  remember :
      (fuel s e : ℕ) (t : Shape) (nodes : Nodes)
      → Covers raw s e t
      → IsCache nodes
      → Returns (compute_hash (subtree_hash fuel raw) raw s e nodes) (tree_hash t)
      → Returns (subtree_hash (suc fuel) raw s e nodes) (tree_hash t)
  unfolding subtree_hash
  remember fuel s e t nodes c v (nodes', p, v') = go (cached s e nodes) refl
    where
      go :
          (found : Option Bytes)
          → cached s e nodes ≡ found
          → Returns (subtree_hash (suc fuel) raw s e nodes) (tree_hash t)
      go none q = (
        ((s, e), tree_hash t) ∷ nodes',
        rw (q, subtree_hash, p),
        ((λ u cu. ap tree_hash (Covers-unique raw s e t u c cu)), v'),
      )
      go (some computed) q =
          (nodes, rw (q, subtree_hash) (rw (cached-IsCache s e t nodes computed v c q)), v)

  -- With fuel for its length, a span hashes to the tree that covers it, whatever was cached.
  pub subtree_hash-Returns :
      (fuel s e : ℕ) (t : Shape) (nodes : Nodes)
      → e - s ≤ fuel
      → Covers raw s e t
      → IsCache nodes
      → Returns (subtree_hash fuel raw s e nodes) (tree_hash t)
  unfolding compute_hash tree_hash
  subtree_hash-Returns zero s e t nodes f c v = absurd (omega (arith, Covers-lt raw s e t c))
  subtree_hash-Returns (suc fuel) s e _ nodes f (covers_leaf {x = x} p at) v =
      let one : eqb (e - s) 1 ≡ true = ground arith in
      remember fuel s e (leaf x) nodes (covers_leaf p at) v
        (nodes, rw (one, raw_at-some raw s x at), v)
  subtree_hash-Returns (suc fuel) s e _ nodes f (covers_node {l = l} {r = r} q cl cr) v =
      let m : ℕ = split_point s e in
      let bounds = split_bounds s e q in
      let many : eqb (e - s) 1 ≡ false = ground arith in
      let (nodes₁, p₁, v₁) = subtree_hash-Returns fuel s m l nodes (omega arith) cl v in
      let (nodes₂, p₂, v₂) = subtree_hash-Returns fuel m e r nodes₁ (omega arith) cr v₁ in
      remember fuel s e (node l r) nodes (covers_node q cl cr) v (nodes₂, rw (many, p₁, p₂), v₂)

  collect_one :
      (recur : ℕ → ℕ → ℕ → List Bytes → Nodes → Result (List Bytes × Nodes)) (i s e : ℕ)
      (path : List Bytes) (nodes : Nodes)
      → e ≡ suc s
      → collect_level recur raw i s e path nodes ≡ ok (path ++ [], nodes)
  unfolding collect_level
  collect_one recur i s e path nodes p =
      let one : eqb (e - s) 1 ≡ true = ground arith in rw (one, append-nil)

  -- The two branches of one level, where the calls that it makes return.
  collect_left :
      (recur : ℕ → ℕ → ℕ → List Bytes → Nodes → Result (List Bytes × Nodes)) (i s e : ℕ)
      (path below : List Bytes) (sibling : Bytes) (nodes nodes₁ nodes₂ : Nodes)
      → suc s < e
      → s + i < split_point s e
      → recur i s (split_point s e) path nodes ≡ ok (below, nodes₁)
      → subtree_hash (e - s) raw (split_point s e) e nodes₁ ≡ ok (sibling, nodes₂)
      → collect_level recur raw i s e path nodes ≡ ok (below ++ sibling ∷ [], nodes₂)
  unfolding collect_level
  collect_left recur i s e path below sibling nodes nodes₁ nodes₂ many left p₁ p₂ =
      let m : eqb (e - s) 1 ≡ false = ground arith in
      rw (m, lt→ltb (s + i) (split_point s e) left, p₁, p₂)

  collect_right :
      (recur : ℕ → ℕ → ℕ → List Bytes → Nodes → Result (List Bytes × Nodes)) (i s e : ℕ)
      (path below : List Bytes) (sibling : Bytes) (nodes nodes₁ nodes₂ : Nodes)
      → suc s < e
      → split_point s e ≤ s + i
      → recur (s + i - split_point s e) (split_point s e) e path nodes ≡ ok (below, nodes₁)
      → subtree_hash (e - s) raw s (split_point s e) nodes₁ ≡ ok (sibling, nodes₂)
      → collect_level recur raw i s e path nodes ≡ ok (below ++ sibling ∷ [], nodes₂)
  unfolding collect_level
  collect_right recur i s e path below sibling nodes nodes₁ nodes₂ many right p₁ p₂ =
      let m : eqb (e - s) 1 ≡ false = ground arith in
      let b : ltb (s + i) (split_point s e) ≡ false = ground arith in rw (m, b, p₁, p₂)

  -- The audit path of a node after a path that is already there.
  path_left :
      (l r : Shape) (i : ℕ) (path : List Bytes)
      → i < size l
      → (path ++ tree_path l i) ++ tree_hash r ∷ [] ≡ path ++ tree_path (node l r) i
  unfolding tree_path
  path_left l r i path h = rw (lt→ltb i (size l) h, append_assoc)

  path_right :
      (l r : Shape) (i : ℕ) (path : List Bytes)
      → size l ≤ i
      → (path ++ tree_path r (i - size l)) ++ tree_hash l ∷ [] ≡ path ++ tree_path (node l r) i
  unfolding tree_path
  path_right l r i path h = let b : ltb i (size l) ≡ false = ground arith in rw (b, append_assoc)

  -- The walk to the leaf at `i` appends the siblings of the tree's audit path, leaf upwards.
  pub collect_path-Returns :
      (fuel i s e : ℕ) (t : Shape) (path : List Bytes) (nodes : Nodes)
      → e - s ≤ fuel
      → i < size t
      → Covers raw s e t
      → IsCache nodes
      → Returns (collect_path fuel raw i s e path nodes) (path ++ tree_path t i)
  unfolding collect_path tree_path
  collect_path-Returns zero i s e t path nodes f h c v =
      absurd (omega (arith, Covers-lt raw s e t c))
  collect_path-Returns (suc fuel) i s e _ path nodes f h (covers_leaf {x = x} p at) v =
      (nodes, collect_one (collect_path fuel raw) i s e path nodes p, v)
  collect_path-Returns (suc fuel) i s e _ path nodes f h (covers_node {l = l} {r = r} q cl cr) v =
      let m : ℕ = split_point s e in
      let bounds = split_bounds s e q in
      let width = Covers-size raw s m l cl in
      elim (dec_lt i (size l)) [
        | yes left ↦
            let (nodes₁, p₁, v₁) =
              collect_path-Returns fuel i s m l path nodes (omega arith) left cl v in
            let (nodes₂, p₂, v₂) = subtree_hash-Returns (e - s) m e r nodes₁ (omega arith) cr v₁ in
            (
              nodes₂,
              collect_left (collect_path fuel raw) i s e path (path ++ tree_path l i) (tree_hash r)
                    nodes nodes₁ nodes₂ q (omega arith) p₁ p₂
                  ∙ ap (λ x. ok (x, nodes₂)) (path_left l r i path left),
              v₂,
            )
        | no right ↦
            let (nodes₁, p₁, v₁) =
              collect_path-Returns fuel (i - size l) m e r path nodes (omega arith) (omega arith) cr
                v in
            let (nodes₂, p₂, v₂) = subtree_hash-Returns (e - s) s m l nodes₁ (omega arith) cl v₁ in
            let k : s + i - m ≡ i - size l = omega arith in
            let p₁' : collect_path fuel raw (s + i - m) m e path nodes
                ≡ ok (path ++ tree_path r (i - size l), nodes₁) =
              rw k p₁ in
            (
              nodes₂,
              collect_right (collect_path fuel raw) i s e path (path ++ tree_path r (i - size l))
                    (tree_hash l) nodes nodes₁ nodes₂ q (omega arith) p₁' p₂
                  ∙ ap (λ x. ok (x, nodes₂)) (path_right l r i path (omega arith)),
              v₂,
            )
      ]
