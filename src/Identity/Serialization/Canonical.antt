-- ===== src/Identity/Serialization/Canonical.antt =====
-- rfc8785, as far as the code relies on it, and `canonicalize` of identity/serialization.py.
use pyboltzmann.Prelude.{
  ℕ, ◌+◌, ◌-◌, ◌/◌, ◌%◌, ◌≡◌, Bool, true, false, not, ◌&&◌, Option, none, some, [], ◌∷◌, ltb,
  if◌then◌else◌, all,
}
use pyboltzmann.Prelude.Order.{◌==◌}
use pyboltzmann.Prelude.Bytes.{Bytes, bytes_lt, bytes_order}
use pyboltzmann.Prelude.Texts.{Text}
use pyboltzmann.Exceptions.{Result, ok, raise, serialization_error, ◌>>=◌}
use pyboltzmann.Identity.Json.{
  Json, null, boolean, integer, float, constant, string, array, object, Items, nil, item, Members,
  end, member, has_member,
}
use pyboltzmann.Identity.Serialization.{
  is_high, is_low, is_safe, with_hooks, normalize, reject_non_deterministic, serialization_id,
}

-- The UTF-16 code units of a text.
unfoldable pub utf16 : Text → Text
utf16 [] = []
utf16 (c ∷ rest) =
    let units = utf16 rest in
    if ltb c 65536
    then c ∷ units
    else (55296 + (c - 65536) / 1024) ∷ (56320 + (c - 65536) % 1024) ∷ units

-- The order of RFC 8785 on the members of an object: by the code units of their names.
unfoldable pub insert_member : Text → Json → Members → Members
unfolding utf16
insert_member k v end = member k v end
insert_member k v (member j w ms) =
    let rest = insert_member k v ms in
    if bytes_lt (utf16 j) (utf16 k) then member j w rest else member k v (member j w ms)

unfoldable mutual
  unfolding insert_member

  pub canonical : Json → Json
  canonical (array xs) = array (canonical_items xs)
  canonical (object ms) = object (canonical_members ms)
  canonical v = v

  pub canonical_items : Items → Items
  canonical_items nil = nil
  canonical_items (item x xs) = item (canonical x) (canonical_items xs)

  pub canonical_members : Members → Members
  canonical_members end = end
  canonical_members (member k v ms) = insert_member k (canonical v) (canonical_members ms)

-- Neither a surrogate nor beyond Unicode.
unfoldable pub is_scalar : ℕ → Bool
unfolding is_high is_low
is_scalar c = (not (is_high c) && not (is_low c)) && ltb c 1114112

-- What a document may hold: scalar values in its strings, integers that are safe, and no name twice.
unfoldable mutual
  unfolding is_scalar is_safe has_member

  pub is_plain : Json → Bool
  is_plain null = true
  is_plain (boolean b) = true
  is_plain (integer i) = is_safe i
  is_plain (float f) = false
  is_plain (constant c) = false
  is_plain (string t) = all is_scalar t
  is_plain (array xs) = are_plain xs
  is_plain (object ms) = have_plain ms

  pub are_plain : Items → Bool
  are_plain nil = true
  are_plain (item x xs) = is_plain x && are_plain xs

  pub have_plain : Members → Bool
  have_plain end = true
  have_plain (member k v ms) =
      (all is_scalar k && not (has_member k ms)) && (is_plain v && have_plain ms)

-- The decoder (UTF-8 and `json.loads`, before its hooks) and `rfc8785.dumps`. What the code relies on:
-- plain values are serialized, and what is serialized decodes to the same value with its members in
-- canonical order.
pub record JsonLibrary : Type 0 where
  pub loads : Bytes → Option Json
  pub dumps : Json → Option Bytes
  pub dumps_plain : (v : Json) → is_plain v ≡ true → (document : Bytes) × (dumps v ≡ some document)
  pub loads-dumps :
      (v : Json) (document : Bytes)
      → is_plain v ≡ true
      → dumps v ≡ some document
      → loads document ≡ some (canonical v)

module _ ⦃json : JsonLibrary⦄ where
  -- `parse_json_strict`
  unfoldable pub parse_json_strict : Bytes → Result Json
  unfolding with_hooks normalize
  parse_json_strict document = elim (json.loads document) [
    | none ↦ raise serialization_error
    | some decoded ↦ do v ← with_hooks decoded; normalize v
  ]

  unfoldable pub canonicalize_jcs : Json → Result Bytes
  unfolding reject_non_deterministic
  canonicalize_jcs value = do
    _ ← reject_non_deterministic value
    elim (json.dumps value) [ none ↦ raise serialization_error | some document ↦ ok document ]

  -- `get_serializer(serialization)(value)`
  unfoldable pub canonicalize_as : Json → Text → Result Bytes
  unfolding canonicalize_jcs
  canonicalize_as value serialization =
      if serialization == serialization_id
      then canonicalize_jcs value
      else raise serialization_error

  unfoldable pub canonicalize : Json → Result Bytes
  unfolding canonicalize_as
  canonicalize value = canonicalize_as value serialization_id
