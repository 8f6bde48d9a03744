-- ===== src/Identity/Serialization/Tests.antt =====
-- identity/serialization.py on a document of two members.
use pyboltzmann.Prelude.{◌≡◌, refl, arith, Bool, true, false, all, List, [], ◌∷◌}
use pyboltzmann.Prelude.Bytes.{Bytes, bytes_lt}
use pyboltzmann.Prelude.Texts.{codes}
use pyboltzmann.Exceptions.{ok, raise, serialization_error}
use pyboltzmann.Identity.Json.{pos, Json, integer, string, object, end, member}
use pyboltzmann.Identity.Serialization
use pyboltzmann.Identity.Serialization.Strings.{normalize_string-utf16}
use pyboltzmann.Identity.Serialization.Canonical.{
  canonical, is_plain, is_scalar, utf16, parse_json_strict, canonicalize,
}
use pyboltzmann.Identity.Serialization.RoundTrip.{
  parse_json_strict-canonicalize, canonicalize-injective,
}
use pyboltzmann.Identity.Serialization.Strict.{is_strict, parse_json_strict-IsStrict}
use pyboltzmann.Identity.Serialization.Toy.{toy_json, toy_dumps}

abbrev value : Json
value = object (member (codes "b") (integer (pos 1)) (member (codes "a") (string (codes "x")) end))

value_plain : is_plain value ≡ true
unfolding is_plain all pyboltzmann.Prelude.Order.◌==◌ bytes_lt
value_plain = refl

-- A lone surrogate is refused, and a pair is one character.
lone : Serialization.normalize_string (55357 ∷ 97 ∷ []) ≡ raise serialization_error
unfolding Serialization.normalize_string
lone = refl

pair : Serialization.normalize_string (55357 ∷ 56832 ∷ []) ≡ ok (128512 ∷ [])
unfolding Serialization.normalize_string
pair = refl

normalize_string-utf16_example :
    Serialization.normalize_string (utf16 (97 ∷ 128512 ∷ [])) ≡ ok (97 ∷ 128512 ∷ [])
unfolding all is_scalar
normalize_string-utf16_example = normalize_string-utf16 (97 ∷ 128512 ∷ []) refl

parse_json_strict-canonicalize_example :
    (document : Bytes) × (canonicalize value ≡ ok document)
    × (parse_json_strict document ≡ ok (canonical value))
parse_json_strict-canonicalize_example = parse_json_strict-canonicalize value value_plain

written : canonicalize value ≡ ok (toy_dumps value)
unfolding canonicalize pyboltzmann.Prelude.Order.◌==◌ bytes_lt
written = refl

parsed : parse_json_strict (toy_dumps value) ≡ ok (canonical value)
unfolding parse_json_strict pyboltzmann.Identity.Serialization.Toy.toy_loads toy_dumps bytes_lt
    pyboltzmann.Identity.Serialization.Toy.read_text pyboltzmann.Prelude.drop
    pyboltzmann.Prelude.Sets.contains pyboltzmann.Prelude.Order.◌==◌ pyboltzmann.Prelude.take
parsed = refl

canonicalize-injective_case : canonical value ≡ canonical value
canonicalize-injective_case =
    canonicalize-injective value value (toy_dumps value) value_plain value_plain written written

parse_json_strict-IsStrict_example : is_strict (canonical value) ≡ true
parse_json_strict-IsStrict_example =
    parse_json_strict-IsStrict (toy_dumps value) (canonical value) parsed
