-- ===== src/Identity/Serialization.antt =====
-- identity/serialization.py: strict decoding and canonical serialization of JSON. The decoder of
-- Python's `json` (with UTF-8) and the external package rfc8785 are parameters. Object keys are strings.
pub mod Strings
pub mod Canonical
pub mod Strict
pub mod RoundTrip
pub mod Toy
mod Tests
use pyboltzmann.Prelude.{
  ℕ, ◌+◌, ◌-◌, ◌*◌, ◌≡◌, ◌%◌, ◌/◌, Bool, true, false, not, ◌&&◌, ◌||◌, Option, none, some, List, [],
  ◌∷◌, leb, ltb, if◌then◌else◌,
}
use pyboltzmann.Prelude.Order.{◌==◌, LinearOrder}
use pyboltzmann.Prelude.Sets.{contains}
use pyboltzmann.Prelude.Bytes.{Bytes, bytes_order, bytes_lt}
use pyboltzmann.Prelude.Texts.{Text, codes}
use pyboltzmann.Exceptions.{Result, ok, raise, serialization_error, non_deterministic_value, ◌>>=◌}
use pyboltzmann.Identity.Json.{
  ℤ, pos, negsuc, Json, null, boolean, integer, float, constant, string, array, object, Items, nil,
  item, Members, end, member,
}

abbrev pub serialization_id : Text
serialization_id = codes "jcs/1"

abbrev pub max_safe_integer : ℕ
max_safe_integer = 9007199254740991

-- 0xD800 to 0xDBFF, and 0xDC00 to 0xDFFF
unfoldable pub is_high : ℕ → Bool
is_high c = leb 55296 c && leb c 56319

unfoldable pub is_low : ℕ → Bool
is_low c = leb 56320 c && leb c 57343

-- `0x10000 + ((high - 0xD800) << 10) + low - 0xDC00`
unfoldable pub combine : ℕ → ℕ → ℕ
combine high low = 65536 + (high - 55296) * 1024 + low - 56320

-- `_normalize_string`, with the high surrogate that was just read, if there is one.
unfoldable pub normalize_from : Option ℕ → Text → Result Text
unfolding is_high is_low combine
normalize_from none [] = ok []
normalize_from (some high) [] = raise serialization_error
normalize_from none (c ∷ rest) =
    let following = normalize_from (if is_high c then some c else none) rest in
    if is_high c
    then following
    else if is_low c
    then raise serialization_error
    else do t ← following; ok (c ∷ t)
normalize_from (some high) (c ∷ rest) =
    let following = normalize_from none rest in
    if not (is_low c) then raise serialization_error else do t ← following; ok (combine high c ∷ t)

unfoldable pub normalize_string : Text → Result Text
unfolding normalize_from
normalize_string value = normalize_from none value

-- `_unique_object`: the pairs of one object, with the keys before them.
unfoldable pub unique_object : List Text → Members → Result Members
unique_object before end = ok end
unique_object before (member k v ms) =
    let rest = unique_object (k ∷ before) ms in
    if contains k before then raise serialization_error else do r ← rest; ok (member k v r)

-- `json.loads` with its hooks: `_unique_object` on each object once its values are read, and
-- `_reject_constant`.
unfoldable mutual
  unfolding unique_object

  pub with_hooks : Json → Result Json
  with_hooks null = ok null
  with_hooks (boolean b) = ok (boolean b)
  with_hooks (integer i) = ok (integer i)
  with_hooks (float f) = ok (float f)
  with_hooks (constant c) = raise serialization_error
  with_hooks (string t) = ok (string t)
  with_hooks (array xs) = do ys ← with_hooks_items xs; ok (array ys)
  with_hooks (object ms) = do ns ← with_hooks_members ms; r ← unique_object [] ns; ok (object r)

  pub with_hooks_items : Items → Result Items
  with_hooks_items nil = ok nil
  with_hooks_items (item x xs) = do y ← with_hooks x; ys ← with_hooks_items xs; ok (item y ys)

  pub with_hooks_members : Members → Result Members
  with_hooks_members end = ok end
  with_hooks_members (member k v ms) = do
    w ← with_hooks v
    ns ← with_hooks_members ms
    ok (member k w ns)

-- `_normalize_json_strings`
unfoldable mutual
  unfolding normalize_string

  pub normalize : Json → Result Json
  normalize null = ok null
  normalize (boolean b) = ok (boolean b)
  normalize (integer i) = ok (integer i)
  normalize (float f) = ok (float f)
  normalize (constant c) = ok (constant c)
  normalize (string t) = do u ← normalize_string t; ok (string u)
  normalize (array xs) = do ys ← normalize_items xs; ok (array ys)
  normalize (object ms) = do ns ← normalize_members [] ms; ok (object ns)

  pub normalize_items : Items → Result Items
  normalize_items nil = ok nil
  normalize_items (item x xs) = do y ← normalize x; ys ← normalize_items xs; ok (item y ys)

  -- with the normalized keys before them
  pub normalize_members : List Text → Members → Result Members
  normalize_members before end = ok end
  normalize_members before (member k v ms) = do
    j ← normalize_string k
    w ← (if contains j before then raise serialization_error else normalize v)
    ns ← normalize_members (j ∷ before) ms
    ok (member j w ns)

unfoldable pub is_safe : ℤ → Bool
is_safe (pos n) = leb n max_safe_integer
is_safe (negsuc n) = leb (n + 1) max_safe_integer

-- `reject_non_deterministic`
unfoldable mutual
  unfolding is_safe

  pub reject_non_deterministic : Json → Result (Unit {0})
  reject_non_deterministic null = ok tt
  reject_non_deterministic (boolean b) = ok tt
  reject_non_deterministic (integer i) = if is_safe i then ok tt else raise non_deterministic_value
  reject_non_deterministic (float f) = raise non_deterministic_value
  reject_non_deterministic (constant c) = raise non_deterministic_value
  reject_non_deterministic (string t) = ok tt
  reject_non_deterministic (array xs) = reject_items xs
  reject_non_deterministic (object ms) = reject_members ms

  pub reject_items : Items → Result (Unit {0})
  reject_items nil = ok tt
  reject_items (item x xs) = do _ ← reject_non_deterministic x; reject_items xs

  pub reject_members : Members → Result (Unit {0})
  reject_members end = ok tt
  reject_members (member k v ms) = do _ ← reject_non_deterministic v; reject_members ms
