-- ===== src/Merkle/Span/Form.antt =====
-- The split of merkle/tree.py gives the trees of RFC 9162: perfect to the left of every split.
use pyboltzmann.Prelude.{ℕ, zero, suc, ◌+◌, ◌-◌, ◌≤◌, ◌<◌, ◌≡◌, refl, List, arith}
use native.Mathlib.Decide.{dec_lt}
use pyboltzmann.Prelude.Bytes.{Bytes}
use pyboltzmann.Merkle.Tree.{shift_left, largest_power_of_two_below}
use pyboltzmann.Merkle.Powers.{largest_power_of_two_below_bounds, shift_left-pos}
use pyboltzmann.Merkle.Shape.{Shape, IsPerfect, IsSplit, single, fork, shift_left_mono}
use pyboltzmann.Merkle.Span.{Covers, covers_leaf, covers_node, split_point, split_bounds}

shift_left-suc : (m : ℕ) → shift_left 1 (suc m) ≡ shift_left 1 m + shift_left 1 m
unfolding shift_left
shift_left-suc m = refl

-- Powers of two are told apart by their order.
lt_of_shift_left-lt : (m h : ℕ) → shift_left 1 m < shift_left 1 h → m < h
lt_of_shift_left-lt m h p = elim (dec_lt m h) [
  | yes q ↦ q
  | no q ↦ absurd (omega (arith, shift_left_mono h m (omega arith)))
]

-- The split of `2 ^ (m + 1)` leaves is `2 ^ m`.
split_of_power :
    (m n : ℕ) → n ≡ shift_left 1 (suc m) → largest_power_of_two_below n ≡ shift_left 1 m
split_of_power m n e =
    let (k, p, below, half) =
      largest_power_of_two_below_bounds n (omega (arith, shift_left-suc m, shift_left-pos m)) in
    let upper = lt_of_shift_left-lt k (suc m) (omega (arith, p)) in
    let lower = shift_left_mono k m (omega arith) in omega (arith, shift_left-suc m)

module _ (raw : List Bytes) where
  Covers-IsPerfect :
      (m s e : ℕ) (t : Shape) → Covers raw s e t → e - s ≡ shift_left 1 m → IsPerfect m t
  Covers-IsPerfect zero s e _ (covers_leaf p at) h = tt
  Covers-IsPerfect zero s e _ (covers_node q cl cr) h = absurd (unfold shift_left in omega arith)
  Covers-IsPerfect (suc m) s e _ (covers_leaf p at) h =
      absurd (omega (arith, shift_left-suc m, shift_left-pos m))
  Covers-IsPerfect (suc m) s e _ (covers_node {l = l} {r = r} q cl cr) h =
      let k = split_of_power m (e - s) h in
      (
        Covers-IsPerfect m s (split_point s e) l cl (omega (arith, k)),
        Covers-IsPerfect m (split_point s e) e r cr
            (omega (arith, k, shift_left-suc m, split_bounds s e q)),
      )

  pub Covers-IsSplit :
      (h s e : ℕ) (t : Shape) → Covers raw s e t → e - s ≤ shift_left 1 h → IsSplit h t
  Covers-IsSplit h s e _ (covers_leaf p at) b = single
  Covers-IsSplit h s e _ (covers_node {l = l} {r = r} q cl cr) b =
      let (m, p, below, half) = largest_power_of_two_below_bounds (e - s) (omega arith) in
      fork (lt_of_shift_left-lt m h (omega (arith, p)))
        (Covers-IsPerfect m s (split_point s e) l cl (omega (arith, p)))
        (Covers-IsSplit m (split_point s e) e r cr (omega (arith, p)))

pub le-shift_left : (n : ℕ) → n ≤ shift_left 1 n
unfolding shift_left
le-shift_left zero = omega arith
le-shift_left (suc n) = omega (arith, le-shift_left n, shift_left-pos n)
