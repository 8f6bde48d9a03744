-- ===== src/Prelude/Bytes.antt =====
-- Python's `bytes`: lists of numbers below 256, ordered lexicographically.
use Prim.Native.Nat.{ℕ}
use mathlib.Core.Path.{◌≡◌, refl}
use mathlib.Core.Bool.{Bool, true, false, ◌&&◌, ◌||◌}
use mathlib.Core.List.{List, [], ◌∷◌}
use native.Mathlib.Omega.{arith}
use pyboltzmann.Prelude.Tests.{ltb, eqb}
use pyboltzmann.Prelude.Order.{LinearOrder}

abbrev pub Bytes : Type 0
Bytes = List ℕ

-- `a < b` on two `bytes`
unfoldable pub bytes_lt : Bytes → Bytes → Bool
bytes_lt xs [] = false
bytes_lt [] (y ∷ ys) = true
bytes_lt (x ∷ xs) (y ∷ ys) = ltb x y || (eqb x y && bytes_lt xs ys)

pub bytes_lt_irrefl : (xs : Bytes) → bytes_lt xs xs ≡ false
unfolding bytes_lt
bytes_lt_irrefl [] = refl
bytes_lt_irrefl (x ∷ xs) = ground (arith, bytes_lt_irrefl xs)

pub bytes_lt_trans :
    (xs ys zs : Bytes) → bytes_lt xs ys ≡ true → bytes_lt ys zs ≡ true → bytes_lt xs zs ≡ true
unfolding bytes_lt
bytes_lt_trans [] [] zs p q = absurd (ground arith)
bytes_lt_trans (x ∷ xs) [] zs p q = absurd (ground arith)
bytes_lt_trans xs (y ∷ ys) [] p q = absurd (ground arith)
bytes_lt_trans [] (y ∷ ys) (z ∷ zs) p q = refl
bytes_lt_trans (x ∷ xs) (y ∷ ys) (z ∷ zs) p q = ground (arith, bytes_lt_trans xs ys zs)

pub bytes_lt_connex : (xs ys : Bytes) → bytes_lt xs ys ≡ false → bytes_lt ys xs ≡ false → xs ≡ ys
unfolding bytes_lt
bytes_lt_connex [] [] p q = refl
bytes_lt_connex [] (y ∷ ys) p q = absurd (ground arith)
bytes_lt_connex (x ∷ xs) [] p q = absurd (ground arith)
bytes_lt_connex (x ∷ xs) (y ∷ ys) p q = ground (arith, bytes_lt_connex xs ys)

instance abbrev pub bytes_order : LinearOrder Bytes
bytes_order = record {
  lt = bytes_lt;
  lt_irrefl = bytes_lt_irrefl;
  lt_trans = bytes_lt_trans;
  lt_connex = bytes_lt_connex;
}
