-- ===== src/Identity/Digest.antt =====
-- identity/digest.py: the text of a digest, `sha256:` and 64 hex characters. A digest is represented by
-- its raw bytes, and `hex` is what they spell.
pub mod Laws
mod Tests
use pyboltzmann.Prelude.{
  ℕ, ◌+◌, ◌-◌, ◌*◌, ◌/◌, ◌%◌, ◌≡◌, refl, sym, ap, ◌∙◌, Bool, true, false, not, ◌&&◌, ◌||◌, List, [],
  ◌∷◌, ◌++◌, arith, leb, ltb, eqb, if◌then◌else◌, length, length-append, all, drop, drop-append,
  inl, inr, Bool-cases,
}
use pyboltzmann.Prelude.Bytes.{Bytes}
use pyboltzmann.Prelude.Texts.{Text, codes, starts_with, starts_with-append}
use pyboltzmann.Exceptions.{Result, ok, raise, digest_format}
use pyboltzmann.Identity.{Digest}

abbrev pub hex_digest_length : ℕ
hex_digest_length = 64

abbrev pub algorithm_prefix : Text
algorithm_prefix = codes "sha256:"

-- `[0-9a-f]`
unfoldable pub is_hex : ℕ → Bool
is_hex c = (leb b'0' c && leb c b'9') || (leb b'a' c && leb c b'f')

unfoldable pub nibble_char : ℕ → ℕ
nibble_char n = if ltb n 10 then 48 + n else 87 + n

unfoldable pub nibble : ℕ → ℕ
nibble c = if ltb c 58 then c - 48 else c - 87

-- `raw.hex()`
unfoldable pub hex : Bytes → Text
unfolding nibble_char
hex [] = []
hex (b ∷ raw) = nibble_char (b / 16) ∷ nibble_char (b % 16) ∷ hex raw

-- `bytes.fromhex(hex)`
unfoldable pub from_hex : Text → Bytes
unfolding nibble
from_hex (h ∷ l ∷ text) = (nibble h * 16 + nibble l) ∷ from_hex text
from_hex _ = []

-- `__str__`
unfoldable pub str : Digest → Text
unfolding hex
str raw = algorithm_prefix ++ hex raw

-- `__post_init__`, for the one algorithm
unfoldable pub post_init : Text → Result Digest
unfolding is_hex from_hex
post_init text =
    if eqb (length text) hex_digest_length && all is_hex text
    then ok (from_hex text)
    else raise digest_format

-- Without the final newline that `$` allows.
unfoldable pub strip_newline : Text → Text
strip_newline [] = []
strip_newline (c ∷ []) = if eqb c 10 then [] else c ∷ []
strip_newline (c ∷ d ∷ text) = c ∷ strip_newline (d ∷ text)

-- `DIGEST_PATTERN.match(value)`: the pattern ends in `$`
unfoldable pub matches_pattern : Text → Bool
unfolding strip_newline is_hex
matches_pattern value =
    starts_with value algorithm_prefix
    && (eqb (length (strip_newline (drop (length algorithm_prefix) value))) hex_digest_length
        && all is_hex (strip_newline (drop (length algorithm_prefix) value)))

-- `parse` of a string: what follows the first `:` is the hex digest.
unfoldable pub parse : Text → Result Digest
unfolding matches_pattern post_init
parse value =
    if not (matches_pattern value)
    then raise digest_format
    else post_init (drop (length algorithm_prefix) value)
