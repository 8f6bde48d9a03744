-- ===== src/Identity/Serialization/Strict.antt =====
-- identity/serialization.py: what `parse_json_strict` lets through.
use pyboltzmann.Prelude.{
  ◌≡◌, refl, Bool, true, false, not, ◌&&◌, Bool-cases, inl, inr, Option-cases, List, [], ◌∷◌, arith,
  all, leb,
}
use pyboltzmann.Prelude.Order.{==_comm}
use pyboltzmann.Prelude.Sets.{contains}
use pyboltzmann.Prelude.Bytes.{Bytes, bytes_order}
use pyboltzmann.Prelude.Texts.{Text}
use pyboltzmann.Exceptions.{ok, Result-cases}
use pyboltzmann.Identity.Json.{
  Json, null, boolean, integer, float, constant, string, array, object, Items, nil, item, Members,
  end, member, has_member,
}
use pyboltzmann.Identity.Serialization
use pyboltzmann.Identity.Serialization.Strings.{normalize_string_clean}
use pyboltzmann.Identity.Serialization.Canonical.{JsonLibrary, parse_json_strict}
use pyboltzmann.Identity.Serialization.RoundTrip.{apart}

abbrev pub is_clean : Text → Bool
is_clean t = all (λ c. not (leb 55296 c && leb c 57343)) t

-- No string holds a surrogate, and no object a name twice.
unfoldable mutual
  unfolding has_member

  pub is_strict : Json → Bool
  is_strict (string t) = is_clean t
  is_strict (array xs) = are_strict xs
  is_strict (object ms) = have_strict ms
  is_strict v = true

  pub are_strict : Items → Bool
  are_strict nil = true
  are_strict (item x xs) = is_strict x && are_strict xs

  pub have_strict : Members → Bool
  have_strict end = true
  have_strict (member k v ms) =
      (is_clean k && not (has_member k ms)) && (is_strict v && have_strict ms)

apart_cons :
    (before : List Text) (k : Text) (v : Json) (ms : Members)
    → contains k before ≡ false
    → apart before ms ≡ true
    → apart before (member k v ms) ≡ true
unfolding contains has_member
apart_cons [] k v ms h a = refl
apart_cons (j ∷ before) k v ms h a =
    ground (arith, apart_cons before k v ms (ground arith) (ground arith), ==_comm j k)

apart_end : (before : List Text) → apart before end ≡ true
unfolding has_member
apart_end [] = refl
apart_end (k ∷ before) = ground (arith, apart_end before)

apart_head :
    (before : List Text) (j : Text) (ms : Members)
    → apart (j ∷ before) ms ≡ true
    → (has_member j ms ≡ false) × (apart before ms ≡ true)
apart_head before j ms h = (ground arith, ground arith)

-- The steps of a round of `normalize_members` that succeeds.
normalize_members_step :
    (before : List Text) (k : Text) (v : Json) (ms ns : Members)
    → Serialization.normalize_members before (member k v ms) ≡ ok ns
    → (j : Text) × (w : Json) × (rest : Members) × (Serialization.normalize_string k ≡ ok j)
      × (contains j before ≡ false)
      × (Serialization.normalize v ≡ ok w)
      × (Serialization.normalize_members (j ∷ before) ms ≡ ok rest)
      × (ns ≡ member j w rest)
unfolding Serialization.normalize
normalize_members_step before k v ms ns h = elim (Result-cases (Serialization.normalize_string k)) [
  | inl (j, p) ↦ elim (Bool-cases (contains j before)) [
    | inl e ↦ absurd (ground arith)
    | inr n ↦ elim (Result-cases (Serialization.normalize v)) [
      | inl (w, q) ↦ elim (Result-cases (Serialization.normalize_members (j ∷ before) ms)) [
        | inl (rest, r) ↦ (j, w, rest, p, n, q, r, ground arith)
        | inr (x, r) ↦ absurd (ground arith)
      ]
      | inr (x, q) ↦ absurd (ground arith)
    ]
  ]
  | inr (x, p) ↦ absurd (ground arith)
]

normalize_items_step :
    (x : Json) (xs ys : Items)
    → Serialization.normalize_items (item x xs) ≡ ok ys
    → (y : Json) × (rest : Items) × (Serialization.normalize x ≡ ok y)
      × (Serialization.normalize_items xs ≡ ok rest)
      × (ys ≡ item y rest)
unfolding Serialization.normalize
normalize_items_step x xs ys h = elim (Result-cases (Serialization.normalize x)) [
  | inl (y, p) ↦ elim (Result-cases (Serialization.normalize_items xs)) [
    | inl (rest, q) ↦ (y, rest, p, q, ground arith)
    | inr (e, q) ↦ absurd (ground arith)
  ]
  | inr (e, p) ↦ absurd (ground arith)
]

have_strict-member :
    (k : Text) (v : Json) (ms : Members)
    → is_clean k ≡ true
    → has_member k ms ≡ false
    → is_strict v ≡ true
    → have_strict ms ≡ true
    → have_strict (member k v ms) ≡ true
unfolding have_strict
have_strict-member k v ms a b c d = ground arith

mutual
  unfolding Serialization.normalize is_strict

  normalize_strict : (v w : Json) → Serialization.normalize v ≡ ok w → is_strict w ≡ true
  normalize_strict null w h = ground arith
  normalize_strict (boolean b) w h = ground arith
  normalize_strict (integer i) w h = ground arith
  normalize_strict (float f) w h = ground arith
  normalize_strict (constant c) w h = ground arith
  normalize_strict (string t) w h = elim (Result-cases (Serialization.normalize_string t)) [
    | inl (u, p) ↦ ground (arith, normalize_string_clean t u p)
    | inr (e, p) ↦ absurd (ground arith)
  ]
  normalize_strict (array xs) w h = elim (Result-cases (Serialization.normalize_items xs)) [
    | inl (ys, p) ↦ ground (arith, normalize_items_strict xs ys p)
    | inr (e, p) ↦ absurd (ground arith)
  ]
  normalize_strict (object ms) w h = elim (Result-cases (Serialization.normalize_members [] ms)) [
    | inl (ns, p) ↦ ground (arith, normalize_members_strict [] ms ns p)
    | inr (e, p) ↦ absurd (ground arith)
  ]

  normalize_items_strict :
      (xs ys : Items) → Serialization.normalize_items xs ≡ ok ys → are_strict ys ≡ true
  normalize_items_strict nil ys h = ground arith
  normalize_items_strict (item x xs) ys h =
      let (y, rest, p, q, e) = normalize_items_step x xs ys h in
      ground (arith, normalize_strict x y p, normalize_items_strict xs rest q)

  normalize_members_strict :
      (before : List Text) (ms ns : Members)
      → Serialization.normalize_members before ms ≡ ok ns
      → (have_strict ns ≡ true) × (apart before ns ≡ true)
  normalize_members_strict before end ns h =
      let e : ns ≡ end = ground arith in rw e (refl, apart_end before)
  normalize_members_strict before (member k v ms) ns h =
      let (j, w, rest, p, n, q, r, e) = normalize_members_step before k v ms ns h in
      let (strict, free) = normalize_members_strict (j ∷ before) ms rest r in
      let value = normalize_strict v w q in
      let name = normalize_string_clean k j p in
      let (fresh, others) = apart_head before j rest free in
      rw e
        (have_strict-member j w rest name fresh value strict, apart_cons before j w rest n others)

-- What strict decoding accepts holds no surrogate, in a string or in a name, and no name twice in an
-- object, whatever the decoder of Python produced.
pub parse_json_strict-IsStrict :
    ⦃json : JsonLibrary⦄ (document : Bytes) (v : Json)
    → parse_json_strict document ≡ ok v
    → is_strict v ≡ true
unfolding parse_json_strict
parse_json_strict-IsStrict ⦃json⦄ document v h = elim (Option-cases (json.loads document)) [
  | inl e ↦ absurd (ground arith)
  | inr (decoded, e) ↦ elim (Result-cases (Serialization.with_hooks decoded)) [
    | inl (w, p) ↦ normalize_strict w v (ground arith)
    | inr (x, p) ↦ absurd (ground arith)
  ]
]
