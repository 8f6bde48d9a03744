-- ===== src/Merkle/Powers.antt =====
-- `_largest_power_of_two_below` of merkle/tree.py, and the shifts of a position that the proof's
-- loop makes.
use native.Mathlib.Nat.{pow-suc}
use pyboltzmann.Prelude.{◌^◌, ℕ, zero, suc, ◌+◌, ◌-◌, ◌/◌, ◌≤◌, ◌<◌, ◌≡◌, refl, ap, arith}
use native.Mathlib.Decide.{dec_lt}
use pyboltzmann.Merkle.Tree.{bits, bit_length, shift_left, largest_power_of_two_below}

-- `position >> k`, one bit at a time
unfoldable pub shift_right : ℕ → ℕ → ℕ
shift_right n zero = n
shift_right n (suc k) = shift_right n k / 2

pub shift_left-pos : (k : ℕ) → 0 < shift_left 1 k
unfolding shift_left
shift_left-pos zero = omega arith
shift_left-pos (suc k) = omega (arith, shift_left-pos k)

pub shift_left-add : (a b k : ℕ) → shift_left (a + b) k ≡ shift_left a k + shift_left b k
unfolding shift_left
shift_left-add a b zero = refl
shift_left-add a b (suc k) = omega (arith, shift_left-add a b k)

pub shift_left-zero : (k : ℕ) → shift_left 0 k ≡ 0
unfolding shift_left
shift_left-zero zero = refl
shift_left-zero (suc k) = omega (arith, shift_left-zero k)

pub shift_left-double : (a k : ℕ) → shift_left (a + a) k ≡ shift_left a (suc k)
unfolding shift_left
shift_left-double a k = shift_left-add a a k

pub shift_left-compose : (a j k : ℕ) → shift_left (shift_left a j) k ≡ shift_left a (j + k)
unfolding shift_left
shift_left-compose a j zero = ap (shift_left a) (omega arith)
shift_left-compose a j (suc k) =
    let e : j + suc k ≡ suc (j + k) = omega arith in
    omega (arith, shift_left-compose a j k, ap (shift_left a) e)

-- Dropping `k` bits of `a << k` plus a remainder that fits in them gives `a` back.
pub shift_right-left : (k a r : ℕ) → r < shift_left 1 k → shift_right (shift_left a k + r) k ≡ a
unfolding shift_left shift_right
shift_right-left zero a r h = omega arith
shift_right-left (suc k) a r h = elim (dec_lt r (shift_left 1 k)) [
  | yes low ↦
      let e : shift_left a (suc k) + r ≡ shift_left (a + a) k + r =
        omega (arith, shift_left-double a k) in
      let ih = shift_right-left k (a + a) r low in
      omega (arith, ih, ap (λ (t : ℕ). shift_right t k) e)
  | no high ↦
      let e : shift_left a (suc k) + r ≡ shift_left (a + a + 1) k + (r - shift_left 1 k) =
        omega (arith, shift_left-double a k, shift_left-add (a + a) 1 k) in
      let ih = shift_right-left k (a + a + 1) (r - shift_left 1 k) (omega arith) in
      omega (arith, ih, ap (λ (t : ℕ). shift_right t k) e)
]

bits_zero : (fuel : ℕ) → bits fuel 0 ≡ 0
unfolding bits
bits_zero zero = refl
bits_zero (suc fuel) = refl

bits-suc : (fuel n : ℕ) → 0 < n → bits (suc fuel) n ≡ suc (bits fuel (n / 2))
unfolding bits
bits-suc fuel n p = ground arith

double_below : (k : ℕ) → 0 < k → shift_left 1 k ≡ shift_left 1 (k - 1) + shift_left 1 (k - 1)
unfolding shift_left
double_below zero p = absurd (omega arith)
double_below (suc k) p = let e : suc k - 1 ≡ k = omega arith in rw e refl

bits_bounds :
    (fuel n : ℕ)
    → 0 < n
    → n ≤ fuel
    → (0 < bits fuel n) × (shift_left 1 (bits fuel n - 1) ≤ n) × (n < shift_left 1 (bits fuel n))
bits_bounds zero n p q = absurd (omega arith)
bits_bounds (suc fuel) n p q = elim (dec_lt 0 (n / 2)) [
  | yes many ↦
      let b : ℕ = bits fuel (n / 2) in
      let ih = bits_bounds fuel (n / 2) many (omega arith) in
      let pred : suc b - 1 ≡ b = omega arith in
      let d : shift_left 1 (suc b) ≡ shift_left 1 b + shift_left 1 b = unfold shift_left in refl in
      rw (bits-suc fuel n p, pred)
        (omega arith, omega (arith, double_below b ih.0, ih.1), omega (arith, d, ih.2))
  | no one ↦
      let z : n / 2 ≡ 0 = omega arith in
      rw (bits-suc fuel n p, z, bits_zero fuel)
        (unfold shift_left in (omega arith, omega arith, omega arith))
]

-- For `n > 1` the split point is a power of two below `n` and at least half of it.
pub largest_power_of_two_below_bounds :
    (n : ℕ)
    → 1 < n
    → (m : ℕ) × (largest_power_of_two_below n ≡ shift_left 1 m)
      × (largest_power_of_two_below n < n)
      × (n ≤ largest_power_of_two_below n + largest_power_of_two_below n)
unfolding largest_power_of_two_below bit_length
largest_power_of_two_below_bounds n p =
    let b : ℕ = bits (n - 1) (n - 1) in
    let bounds = bits_bounds (n - 1) (n - 1) (omega arith) (omega arith) in
    (b - 1, refl, omega (arith, bounds.1), omega (arith, double_below b bounds.0, bounds.2))

pub shift_left-pow : (k : ℕ) → shift_left 1 k ≡ 2 ^ k
unfolding shift_left
shift_left-pow zero = refl
shift_left-pow (suc k) = omega (arith, shift_left-pow k, pow-suc 2 k)
