-- ===== src/Merkle/Span.antt =====
-- The tree of a span of leaves, by the split of merkle/tree.py: there is exactly one, and it has
-- the shape that RFC 9162 asks for.
pub mod Form
use pyboltzmann.Prelude.{
  ℕ, zero, suc, ◌+◌, ◌-◌, ◌≤◌, ◌<◌, ◌≡◌, refl, ap, Option, none, some, List, [], ◌∷◌, arith, length,
  get_elem?, true, false, ltb, if◌then◌else◌,
}
use mathlib.Core.Path.{ap₂, subst}
use native.Mathlib.Decide.{dec_lt}
use pyboltzmann.Prelude.Bytes.{Bytes}
use pyboltzmann.Merkle.Tree.{shift_left, largest_power_of_two_below}
use pyboltzmann.Merkle.Powers.{largest_power_of_two_below_bounds, shift_left-pos}
use pyboltzmann.Merkle.Shape.{
  Shape, leaf, node, size, leaf_at, IsPerfect, IsSplit, single, fork, size-pos, shift_left_mono,
}

abbrev pub split_point : ℕ → ℕ → ℕ
split_point start end = start + largest_power_of_two_below (end - start)

-- `Covers raw s e t`: `t` is the tree of `raw[s:e]`.
pub data Covers (raw : List Bytes) : ℕ → ℕ → Shape → Type 0 where
  covers_leaf :
      {s e : ℕ} {x : Bytes} → e ≡ suc s → get_elem? raw s ≡ some x → Covers raw s e (leaf x)
  covers_node :
      {s e : ℕ} {l r : Shape}
      → suc s < e
      → Covers raw s (split_point s e) l
      → Covers raw (split_point s e) e r
      → Covers raw s e (node l r)

get_elem?-some :
    (raw : List Bytes) (i : ℕ) → i < length raw → (x : Bytes) × (get_elem? raw i ≡ some x)
get_elem?-some [] i h = absurd (omega arith)
get_elem?-some (x ∷ raw) zero h = (x, refl)
get_elem?-some (x ∷ raw) (suc i) h = get_elem?-some raw i (omega arith)

pub split_bounds : (s e : ℕ) → suc s < e → (s < split_point s e) × (split_point s e < e)
split_bounds s e h =
    let (m, p, below, _) = largest_power_of_two_below_bounds (e - s) (omega arith) in
    (omega (arith, p, shift_left-pos m), omega (arith, below))

module _ (raw : List Bytes) where
  pub Covers-exists :
      (fuel s e : ℕ) → e - s ≤ fuel → s < e → e ≤ length raw → (t : Shape) × Covers raw s e t
  Covers-exists zero s e f h k = absurd (omega arith)
  Covers-exists (suc fuel) s e f h k = elim (dec_lt (suc s) e) [
    | yes many ↦
        let (low, high) = split_bounds s e many in
        let (l, cl) = Covers-exists fuel s (split_point s e) (omega arith) low (omega arith) in
        let (r, cr) = Covers-exists fuel (split_point s e) e (omega arith) high k in
        (node l r, covers_node many cl cr)
    | no one ↦
        let (x, at) = get_elem?-some raw s (omega arith) in (leaf x, covers_leaf (omega arith) at)
  ]

  pub Covers-lt : (s e : ℕ) (t : Shape) → Covers raw s e t → s < e
  Covers-lt s e _ (covers_leaf p at) = omega arith
  Covers-lt s e _ (covers_node h cl cr) = omega arith

  pub Covers-size : (s e : ℕ) (t : Shape) → Covers raw s e t → size t ≡ e - s
  Covers-size s e _ (covers_leaf p at) = omega arith
  Covers-size s e _ (covers_node {l = l} {r = r} h cl cr) = omega (
    arith,
    Covers-size s (split_point s e) l cl,
    Covers-size (split_point s e) e r cr,
    split_bounds s e h,
  )

  pub Covers-unique : (s e : ℕ) (t u : Shape) → Covers raw s e t → Covers raw s e u → t ≡ u
  Covers-unique s e _ _ (covers_leaf p at) (covers_leaf p' at') = ground arith
  Covers-unique s e _ _ (covers_leaf p at) (covers_node h cl cr) = absurd (omega arith)
  Covers-unique s e _ _ (covers_node h cl cr) (covers_leaf p at) = absurd (omega arith)
  Covers-unique s e _ _ (covers_node h cl cr) (covers_node h' cl' cr') =
      ap₂ node (Covers-unique s (split_point s e) _ _ cl cl')
        (Covers-unique (split_point s e) e _ _ cr cr')

  -- The leaf at `i` is the one at `s + i` of the list.
  pub Covers-leaf_at :
      (s e i : ℕ) (t : Shape)
      → Covers raw s e t
      → i < size t
      → get_elem? raw (s + i) ≡ some (leaf_at t i)
  Covers-leaf_at s e i _ (covers_leaf p at) h = let z : s + i ≡ s = omega arith in rw z at
  Covers-leaf_at s e i _ (covers_node {l = l} {r = r} q cl cr) h = elim (dec_lt i (size l)) [
    | yes left ↦
        let test : ltb i (size l) ≡ true = ground arith in
        rw test (Covers-leaf_at s (split_point s e) i l cl left)
    | no right ↦
        let test : ltb i (size l) ≡ false = ground arith in
        let z : s + i ≡ split_point s e + (i - size l) =
          omega (arith, Covers-size s (split_point s e) l cl, split_bounds s e q) in
        rw (test, z) (Covers-leaf_at (split_point s e) e (i - size l) r cr (omega arith))
  ]
