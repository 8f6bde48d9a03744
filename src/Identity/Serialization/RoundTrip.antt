-- ===== src/Identity/Serialization/RoundTrip.antt =====
-- identity/serialization.py: what `canonicalize` writes, `parse_json_strict` reads.
use pyboltzmann.Prelude.{◌≡◌, refl, Bool, true, false, not, ◌&&◌, ◌||◌, List, [], ◌∷◌, arith}
use pyboltzmann.Prelude.Order.{◌==◌, ==_refl, ==_comm}
use pyboltzmann.Prelude.Sets.{contains}
use pyboltzmann.Prelude.Bytes.{Bytes, bytes_order}
use pyboltzmann.Prelude.Texts.{Text}
use pyboltzmann.Exceptions.{ok}
use pyboltzmann.Identity.Json.{
  Json, null, boolean, integer, float, constant, string, array, object, Items, nil, item, Members,
  end, member, has_member,
}
use pyboltzmann.Identity.Serialization
use pyboltzmann.Identity.Serialization.Strings.{normalize_string_scalar}
use pyboltzmann.Identity.Serialization.Canonical.{
  JsonLibrary, canonical, canonical_items, canonical_members, insert_member, is_plain, are_plain,
  have_plain, parse_json_strict, canonicalize,
}

-- No name of the members is among those before them.
abbrev pub apart : List Text → Members → Bool
apart [] ms = true
apart (k ∷ before) ms = not (has_member k ms) && apart before ms

apart_contains :
    (before : List Text) (k : Text) (v : Json) (ms : Members)
    → apart before (member k v ms) ≡ true
    → contains k before ≡ false
unfolding contains has_member
apart_contains [] k v ms h = refl
apart_contains (j ∷ before) k v ms h =
    ground (arith, apart_contains before k v ms (ground arith), ==_comm j k)

apart_rest :
    (before : List Text) (k : Text) (v : Json) (ms : Members)
    → apart before (member k v ms) ≡ true
    → apart before ms ≡ true
unfolding has_member
apart_rest [] k v ms h = refl
apart_rest (j ∷ before) k v ms h = ground (arith, apart_rest before k v ms (ground arith))

unique_object_plain :
    (before : List Text) (ms : Members)
    → have_plain ms ≡ true
    → apart before ms ≡ true
    → Serialization.unique_object before ms ≡ ok ms
unfolding Serialization.unique_object have_plain
unique_object_plain before end h a = refl
unique_object_plain before (member k v ms) h a = ground (
  arith,
  apart_contains before k v ms a,
  apart_rest before k v ms a,
  unique_object_plain (k ∷ before) ms (ground arith),
)

mutual
  unfolding Serialization.with_hooks is_plain

  with_hooks_plain : (v : Json) → is_plain v ≡ true → Serialization.with_hooks v ≡ ok v
  with_hooks_plain null h = refl
  with_hooks_plain (boolean b) h = refl
  with_hooks_plain (integer i) h = refl
  with_hooks_plain (float f) h = absurd (ground arith)
  with_hooks_plain (constant c) h = absurd (ground arith)
  with_hooks_plain (string t) h = refl
  with_hooks_plain (array xs) h = ground (arith, with_hooks_items_plain xs h)
  with_hooks_plain (object ms) h =
      ground (arith, with_hooks_members_plain ms h, unique_object_plain [] ms h refl)

  with_hooks_items_plain :
      (xs : Items) → are_plain xs ≡ true → Serialization.with_hooks_items xs ≡ ok xs
  with_hooks_items_plain nil h = refl
  with_hooks_items_plain (item x xs) h =
      ground (arith, with_hooks_plain x (ground arith), with_hooks_items_plain xs (ground arith))

  with_hooks_members_plain :
      (ms : Members) → have_plain ms ≡ true → Serialization.with_hooks_members ms ≡ ok ms
  with_hooks_members_plain end h = refl
  with_hooks_members_plain (member k v ms) h =
      ground (arith, with_hooks_plain v (ground arith), with_hooks_members_plain ms (ground arith))

mutual
  unfolding Serialization.normalize is_plain

  normalize_plain : (v : Json) → is_plain v ≡ true → Serialization.normalize v ≡ ok v
  normalize_plain null h = refl
  normalize_plain (boolean b) h = refl
  normalize_plain (integer i) h = refl
  normalize_plain (float f) h = refl
  normalize_plain (constant c) h = refl
  normalize_plain (string t) h = ground (arith, normalize_string_scalar t h)
  normalize_plain (array xs) h = ground (arith, normalize_items_plain xs h)
  normalize_plain (object ms) h = ground (arith, normalize_members_plain [] ms h refl)

  normalize_items_plain :
      (xs : Items) → are_plain xs ≡ true → Serialization.normalize_items xs ≡ ok xs
  normalize_items_plain nil h = refl
  normalize_items_plain (item x xs) h =
      ground (arith, normalize_plain x (ground arith), normalize_items_plain xs (ground arith))

  normalize_members_plain :
      (before : List Text) (ms : Members)
      → have_plain ms ≡ true
      → apart before ms ≡ true
      → Serialization.normalize_members before ms ≡ ok ms
  normalize_members_plain before end h a = refl
  normalize_members_plain before (member k v ms) h a = ground (
    arith,
    normalize_string_scalar k (ground arith),
    normalize_plain v (ground arith),
    apart_contains before k v ms a,
    apart_rest before k v ms a,
    normalize_members_plain (k ∷ before) ms (ground arith),
  )

mutual
  unfolding Serialization.reject_non_deterministic is_plain

  reject_plain : (v : Json) → is_plain v ≡ true → Serialization.reject_non_deterministic v ≡ ok tt
  reject_plain null h = refl
  reject_plain (boolean b) h = refl
  reject_plain (integer i) h = ground arith
  reject_plain (float f) h = absurd (ground arith)
  reject_plain (constant c) h = absurd (ground arith)
  reject_plain (string t) h = refl
  reject_plain (array xs) h = reject_items_plain xs h
  reject_plain (object ms) h = reject_members_plain ms h

  reject_items_plain : (xs : Items) → are_plain xs ≡ true → Serialization.reject_items xs ≡ ok tt
  reject_items_plain nil h = refl
  reject_items_plain (item x xs) h =
      ground (arith, reject_plain x (ground arith), reject_items_plain xs (ground arith))

  reject_members_plain :
      (ms : Members) → have_plain ms ≡ true → Serialization.reject_members ms ≡ ok tt
  reject_members_plain end h = refl
  reject_members_plain (member k v ms) h =
      ground (arith, reject_plain v (ground arith), reject_members_plain ms (ground arith))

-- Sorting the members keeps the names and the values.
has_member-insert_member :
    (k j : Text) (v : Json) (ms : Members)
    → has_member k (insert_member j v ms) ≡ ((k == j) || has_member k ms)
unfolding has_member insert_member
has_member-insert_member k j v end = refl
has_member-insert_member k j v (member i w ms) = ground (arith, has_member-insert_member k j v ms)

insert_member_plain :
    (k : Text) (v : Json) (ms : Members)
    → have_plain (member k v ms) ≡ true
    → have_plain (insert_member k v ms) ≡ true
unfolding have_plain insert_member
insert_member_plain k v end h = h
insert_member_plain k v (member j w ms) h = ground (
  arith,
  has_member-insert_member j k v ms,
  ==_comm j k,
  insert_member_plain k v ms (ground arith),
)

has_member-canonical_members :
    (k : Text) (ms : Members) → has_member k (canonical_members ms) ≡ has_member k ms
unfolding has_member canonical
has_member-canonical_members k end = refl
has_member-canonical_members k (member j v ms) = ground (
  arith,
  has_member-insert_member k j (canonical v) (canonical_members ms),
  has_member-canonical_members k ms,
)

-- Members stay plain if their value and the rest are replaced by plain ones with the same names.
replace_plain :
    (k : Text) (v w : Json) (ms ns : Members)
    → have_plain (member k v ms) ≡ true
    → has_member k ns ≡ has_member k ms
    → is_plain w ≡ true
    → have_plain ns ≡ true
    → have_plain (member k w ns) ≡ true
unfolding have_plain
replace_plain k v w ms ns h same p q = ground arith

member_parts :
    (k : Text) (v : Json) (ms : Members)
    → have_plain (member k v ms) ≡ true
    → (is_plain v ≡ true) × (have_plain ms ≡ true)
unfolding have_plain
member_parts k v ms h = (ground arith, ground arith)

mutual
  unfolding canonical is_plain

  canonical_plain : (v : Json) → is_plain v ≡ true → is_plain (canonical v) ≡ true
  canonical_plain null h = refl
  canonical_plain (boolean b) h = refl
  canonical_plain (integer i) h = h
  canonical_plain (float f) h = h
  canonical_plain (constant c) h = h
  canonical_plain (string t) h = h
  canonical_plain (array xs) h = canonical_items_plain xs h
  canonical_plain (object ms) h = canonical_members_plain ms h

  canonical_items_plain : (xs : Items) → are_plain xs ≡ true → are_plain (canonical_items xs) ≡ true
  canonical_items_plain nil h = refl
  canonical_items_plain (item x xs) h =
      ground (arith, canonical_plain x (ground arith), canonical_items_plain xs (ground arith))

  canonical_members_plain :
      (ms : Members) → have_plain ms ≡ true → have_plain (canonical_members ms) ≡ true
  canonical_members_plain end h = refl
  canonical_members_plain (member k v ms) h =
      let (p, q) = member_parts k v ms h in
      let values = canonical_plain v p in
      let rest = canonical_members_plain ms q in
      insert_member_plain k (canonical v) (canonical_members ms) (
        replace_plain k v (canonical v) ms (canonical_members ms) h
          (has_member-canonical_members k ms) values rest)

module _ ⦃json : JsonLibrary⦄ where
  -- A plain value, one whose integers are safe, whose strings hold no surrogate and whose objects repeat
  -- no name, is serialized, and strict decoding gives the value back with the members of its objects in
  -- canonical order.
  pub parse_json_strict-canonicalize :
      (v : Json)
      → is_plain v ≡ true
      → (document : Bytes) × (canonicalize v ≡ ok document)
        × (parse_json_strict document ≡ ok (canonical v))
  unfolding canonicalize parse_json_strict
  parse_json_strict-canonicalize v h =
      let (document, e) = json.dumps_plain v h in
      let again = canonical_plain v h in
      (
        document,
        ground (arith, reject_plain v h, ==_refl Serialization.serialization_id),
        ground (
          arith,
          json.loads-dumps v document h e,
          with_hooks_plain (canonical v) again,
          normalize_plain (canonical v) again,
        ),
      )

  -- Two plain values with one canonical serialization are the same up to the order of their members.
  pub canonicalize-injective :
      (v w : Json) (document : Bytes)
      → is_plain v ≡ true
      → is_plain w ≡ true
      → canonicalize v ≡ ok document
      → canonicalize w ≡ ok document
      → canonical v ≡ canonical w
  canonicalize-injective v w document h k p q =
      let (d, c, r) = parse_json_strict-canonicalize v h in
      let (e, c', r') = parse_json_strict-canonicalize w k in ground arith
