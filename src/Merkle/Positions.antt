-- ===== src/Merkle/Positions.antt =====
-- `_index` of merkle/tree.py: where a block stands among the sorted leaves, and the bytes there.
use pyboltzmann.Prelude.{
  ℕ, zero, suc, ◌+◌, ◌<◌, ◌≡◌, inl, inr, refl, sym, ap, ◌∙◌, true, false, some, none, List, [], ◌∷◌,
  arith, map, length, get_elem?, Bool-cases,
}
use mathlib.Core.Path.{ap₂}
use pyboltzmann.Prelude.Order.{◌==◌, ==_sound}
use pyboltzmann.Prelude.Sets.{contains}
use pyboltzmann.Prelude.Sorting.{contains-sorted_set}
use pyboltzmann.Prelude.Bytes.{Bytes, bytes_order}
use pyboltzmann.Identity.{BlockId, block_order, BlockId-injective}
use pyboltzmann.Merkle.Tree.{sorted_leaves, position_from}

-- Lists of identities and lists of their bytes.
abbrev pub raws : List BlockId → List Bytes
raws = map (λ (b : BlockId). b.raw)

pub raws_injective : (xs ys : List BlockId) → raws xs ≡ raws ys → xs ≡ ys
raws_injective [] [] h = refl
raws_injective [] (y ∷ ys) h = absurd (ground arith)
raws_injective (x ∷ xs) [] h = absurd (ground arith)
raws_injective (x ∷ xs) (y ∷ ys) h =
    ap₂ ◌∷◌ (BlockId-injective x y (ground arith)) (raws_injective xs ys (ground arith))

pub contains-raws : (b : BlockId) (bs : List BlockId) → contains b.raw (raws bs) ≡ contains b bs
unfolding contains ◌==◌
contains-raws b [] = refl
contains-raws b (x ∷ bs) = ground (arith, contains-raws b bs)

pub some_eq : (x y : Bytes) → some x ≡ some y → x ≡ y
some_eq x y h = cc

pub position_found :
    (k : ℕ) (b : BlockId) (bs : List BlockId)
    → contains b bs ≡ true
    → (i : ℕ) × (position_from k b bs ≡ some (k + i)) × (get_elem? (raws bs) i ≡ some b.raw)
unfolding contains position_from
position_found k b [] h = absurd (ground arith)
position_found k b (x ∷ bs) h = elim (Bool-cases (b == x)) [
  | inl here ↦
      let z : k ≡ k + 0 = omega arith in
      (0, rw here (ap some z), ap (λ (y : BlockId). some y.raw) (sym (==_sound b x here)))
  | inr there ↦
      let (i, found, at) = position_found (suc k) b bs (ground arith) in
      let z : suc k + i ≡ k + suc i = omega arith in (suc i, rw there (found ∙ ap some z), at)
]

pub position_missing :
    (k : ℕ) (b : BlockId) (bs : List BlockId) → contains b bs ≡ false → position_from k b bs ≡ none
unfolding contains position_from
position_missing k b [] h = refl
position_missing k b (x ∷ bs) h = ground (arith, position_missing (suc k) b bs)

pub get_elem?-lt : (xs : List Bytes) (i : ℕ) (x : Bytes) → get_elem? xs i ≡ some x → i < length xs
get_elem?-lt [] i x h = absurd (ground arith)
get_elem?-lt (y ∷ xs) zero x h = omega arith
get_elem?-lt (y ∷ xs) (suc i) x h = omega (arith, get_elem?-lt xs i x h)

pub length-raws : (bs : List BlockId) → length (raws bs) ≡ length bs
length-raws [] = refl
length-raws (b ∷ bs) = omega (arith, length-raws bs)

pub contains-sorted_leaves :
    (b : BlockId) (block_ids : List BlockId)
    → contains b (sorted_leaves block_ids) ≡ contains b block_ids
unfolding sorted_leaves
contains-sorted_leaves b block_ids = contains-sorted_set b block_ids
