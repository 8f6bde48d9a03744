-- ===== src/Identity/Digest/Laws.antt =====
-- identity/digest.py: a digest and its text.
use pyboltzmann.Prelude.{
  ℕ, ◌+◌, ◌*◌, ◌/◌, ◌%◌, ◌≡◌, refl, ap, ◌∙◌, Bool, true, not, ◌&&◌, [], ◌∷◌, ◌++◌, arith, ltb, eqb,
  if◌then◌else◌, length, all, drop, drop-append,
}
use mathlib.Core.Path.{ap₂}
use pyboltzmann.Prelude.Bytes.{Bytes}
use pyboltzmann.Prelude.Texts.{Text, starts_with, starts_with-append, starts_with-drop}
use pyboltzmann.Exceptions.{ok, raise, digest_format}
use pyboltzmann.Identity.{Digest}
use pyboltzmann.Identity.Digest.{
  is_hex, nibble, nibble_char, hex, from_hex, str, strip_newline, matches_pattern, parse,
  algorithm_prefix,
}

-- A digest: 32 bytes.
abbrev pub is_digest : Bytes → Bool
is_digest raw = eqb (length raw) 32 && all (λ b. ltb b 256) raw

hex-IsHex : (raw : Bytes) → all (λ b. ltb b 256) raw ≡ true → all is_hex (hex raw) ≡ true
unfolding hex is_hex all
hex-IsHex [] h = refl
hex-IsHex (b ∷ raw) h = ground (arith, hex-IsHex raw (ground arith))

length-hex : (raw : Bytes) → length (hex raw) ≡ 2 * length raw
unfolding hex
length-hex [] = omega arith
length-hex (b ∷ raw) = omega (arith, length-hex raw)

nibbles :
    (b : ℕ)
    → ltb b 256 ≡ true
    → nibble (nibble_char (b / 16)) * 16 + nibble (nibble_char (b % 16)) ≡ b
unfolding nibble nibble_char
nibbles b h = ground arith

from_hex-hex : (raw : Bytes) → all (λ b. ltb b 256) raw ≡ true → from_hex (hex raw) ≡ raw
unfolding from_hex hex all
from_hex-hex [] h = refl
from_hex-hex (b ∷ raw) h = ap₂ ◌∷◌ (nibbles b (ground arith)) (from_hex-hex raw (ground arith))

-- A text of hex characters does not end in a newline.
strip_newline_hex : (text : Text) → all is_hex text ≡ true → strip_newline text ≡ text
unfolding strip_newline all is_hex
strip_newline_hex [] h = refl
strip_newline_hex (c ∷ []) h = ground arith
strip_newline_hex (c ∷ d ∷ text) h = ground (arith, strip_newline_hex (d ∷ text) (ground arith))

digest_size : (raw : Bytes) → is_digest raw ≡ true → length raw ≡ 32
digest_size raw h = ground arith

guard_ok :
    {A : Type 0} (m e a : Bool) (x y : A)
    → (if not m then raise digest_format else if e && a then ok x else raise digest_format) ≡ ok y
    → (m ≡ true) × (e ≡ true) × (a ≡ true) × (y ≡ x)
guard_ok m e a x y h = ground arith

guard_true :
    {A : Type 0} (m e a : Bool) (x : A)
    → m ≡ true
    → e ≡ true
    → a ≡ true
    → (if not m then raise digest_format else if e && a then ok x else raise digest_format) ≡ ok x
guard_true m e a x p q r = ground arith

and_true : (a b c : Bool) → a ≡ true → b ≡ true → c ≡ true → (a && (b && c)) ≡ true
and_true a b c p q r = ground arith

abbrev rest : Text → Text
rest value = drop (length algorithm_prefix) value

parse_hex :
    (value t : Text)
    → starts_with value algorithm_prefix ≡ true
    → rest value ≡ t
    → length t ≡ 64
    → all is_hex t ≡ true
    → parse value ≡ ok (from_hex t)
unfolding parse
parse_hex value t start e size digits =
    let bare = ap strip_newline e ∙ strip_newline_hex t digits in
    let m : matches_pattern value ≡ true =
      and_true (starts_with value algorithm_prefix) (eqb (length (strip_newline (rest value))) 64)
        (all is_hex (strip_newline (rest value))) start
        (ap (λ u. eqb (length u) 64) bare ∙ ap (λ n. eqb n 64) size)
        (ap (all is_hex) bare ∙ digits) in
    guard_true (matches_pattern value) (eqb (length (rest value)) 64) (all is_hex (rest value))
      (from_hex (rest value)) m (ap (λ u. eqb (length u) 64) e ∙ ap (λ n. eqb n 64) size)
      (ap (all is_hex) e ∙ digits)
    ∙ ap (λ u. ok (from_hex u)) e

-- The text of a digest is read back.
pub parse-str : (raw : Digest) → is_digest raw ≡ true → parse (str raw) ≡ ok raw
unfolding str
parse-str raw h =
    let bytes : all (λ b. ltb b 256) raw ≡ true = ground arith in
    let size : length (hex raw) ≡ 64 = omega (arith, length-hex raw, digest_size raw h) in
    parse_hex (algorithm_prefix ++ hex raw) (hex raw)
      (starts_with-append algorithm_prefix (hex raw)) (drop-append algorithm_prefix (hex raw)) size
      (hex-IsHex raw bytes)
    ∙ ap ok (from_hex-hex raw bytes)

hex_digit : (c : ℕ) → is_hex c ≡ true → (ltb (nibble c) 16 ≡ true) × (nibble_char (nibble c) ≡ c)
unfolding is_hex nibble nibble_char
hex_digit c h = (ground arith, ground arith)

hex_digits_lem :
    (h l : ℕ)
    → is_hex h ≡ true
    → is_hex l ≡ true
    → (nibble_char ((nibble h * 16 + nibble l) / 16) ≡ h)
      × (nibble_char ((nibble h * 16 + nibble l) % 16) ≡ l)
hex_digits_lem h l p q =
    let (a, b) = hex_digit h p in
    let (c, d) = hex_digit l q in
    let high : (nibble h * 16 + nibble l) / 16 ≡ nibble h = ground arith in
    let low : (nibble h * 16 + nibble l) % 16 ≡ nibble l = ground arith in
    (ap nibble_char high ∙ b, ap nibble_char low ∙ d)

hex-from_hex :
    (text : Text) → length text % 2 ≡ 0 → all is_hex text ≡ true → hex (from_hex text) ≡ text
unfolding hex from_hex all
hex-from_hex [] n h = refl
hex-from_hex (c ∷ []) n h = absurd (omega arith)
hex-from_hex (c ∷ d ∷ text) n h =
    let (a, b) = hex_digits_lem c d (ground arith) (ground arith) in
    ap₂ ◌∷◌ a (ap₂ ◌∷◌ b (hex-from_hex text (omega arith) (ground arith)))

starts_part : (a b : Bool) → (a && b) ≡ true → a ≡ true
starts_part a b h = ground arith

equal_part : (m n : ℕ) → eqb m n ≡ true → m ≡ n
equal_part m n h = ground arith

parse_ok :
    (value : Text) (raw : Digest)
    → parse value ≡ ok raw
    → (starts_with value algorithm_prefix ≡ true)
      × (length (drop (length algorithm_prefix) value) ≡ 64)
      × (all is_hex (drop (length algorithm_prefix) value) ≡ true)
      × (raw ≡ from_hex (drop (length algorithm_prefix) value))
unfolding parse
parse_ok value raw h =
    let (m, e, a, q) =
      guard_ok (matches_pattern value) (eqb (length (rest value)) 64) (all is_hex (rest value))
        (from_hex (rest value)) raw h in
    (
      starts_part (starts_with value algorithm_prefix)
          (eqb (length (strip_newline (rest value))) 64 && all is_hex (strip_newline (rest value)))
          m,
      equal_part (length (rest value)) 64 e,
      a,
      q,
    )

-- A text that is accepted is the text of what it was read as: there is one spelling of a digest.
pub str-parse : (value : Text) (raw : Digest) → parse value ≡ ok raw → str raw ≡ value
unfolding str
str-parse value raw h =
    let (start, size, digits, e) = parse_ok value raw h in
    let back = hex-from_hex (drop (length algorithm_prefix) value) (omega arith) digits in
    ap (λ r. algorithm_prefix ++ hex r) e
    ∙ (ap (λ t. algorithm_prefix ++ t) back ∙ starts_with-drop algorithm_prefix value start)
