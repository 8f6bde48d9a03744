-- ===== src/Identity/Serialization/Toy.antt =====
-- A stand-in for the decoder and for rfc8785 in tests: values in canonical order, in prefix notation.
use pyboltzmann.Prelude.{
  ℕ, zero, suc, ◌+◌, ◌≤◌, ◌≡◌, refl, ap, ◌∙◌, true, false, Option, none, some, [], ◌∷◌, ◌++◌, arith,
  length, length-append, take, drop, take-append, drop-append,
}
use pyboltzmann.Prelude.Bytes.{Bytes}
use pyboltzmann.Prelude.Texts.{Text}
use pyboltzmann.Identity.Json.{
  pos, negsuc, Json, null, boolean, integer, float, constant, string, array, object, Items, nil,
  item, Members, end, member,
}
use pyboltzmann.Identity.Serialization.Canonical.{JsonLibrary, canonical}

abbrev pub write_text : Text → Bytes → Bytes
write_text t r = length t ∷ (t ++ r)

unfoldable mutual
  pub write : Json → Bytes → Bytes
  write null r = 0 ∷ r
  write (boolean true) r = 1 ∷ r
  write (boolean false) r = 2 ∷ r
  write (integer (pos n)) r = 3 ∷ n ∷ r
  write (integer (negsuc n)) r = 4 ∷ n ∷ r
  write (float t) r = 5 ∷ write_text t r
  write (constant t) r = 6 ∷ write_text t r
  write (string t) r = 7 ∷ write_text t r
  write (array xs) r = 8 ∷ write_items xs r
  write (object ms) r = 9 ∷ write_members ms r

  pub write_items : Items → Bytes → Bytes
  write_items nil r = 0 ∷ r
  write_items (item x xs) r = 1 ∷ write x (write_items xs r)

  pub write_members : Members → Bytes → Bytes
  write_members end r = 0 ∷ r
  write_members (member k v ms) r = 1 ∷ write_text k (write v (write_members ms r))

unfoldable pub read_text : Bytes → Option (Text × Bytes)
read_text [] = none
read_text (n ∷ r) = some (take n r, drop n r)

abbrev pub bind {ℓ κ} : {A : Type ℓ} {B : Type κ} → Option A → (A → Option B) → Option B
bind none f = none
bind (some a) f = f a

abbrev pub text_as : (Text → Json) → Bytes → Option (Json × Bytes)
text_as f r = bind (read_text r) (λ p. some (f p.0, p.1))

pub data Tag : Type 0 where
  null_tag true_tag false_tag pos_tag negsuc_tag float_tag constant_tag string_tag : Tag
  array_tag object_tag : Tag

abbrev pub tag_of : ℕ → Tag
tag_of zero = null_tag
tag_of (suc zero) = true_tag
tag_of (suc (suc zero)) = false_tag
tag_of (suc (suc (suc zero))) = pos_tag
tag_of (suc (suc (suc (suc zero)))) = negsuc_tag
tag_of (suc (suc (suc (suc (suc zero))))) = float_tag
tag_of (suc (suc (suc (suc (suc (suc zero)))))) = constant_tag
tag_of (suc (suc (suc (suc (suc (suc (suc zero))))))) = string_tag
tag_of (suc (suc (suc (suc (suc (suc (suc (suc zero)))))))) = array_tag
tag_of (suc (suc (suc (suc (suc (suc (suc (suc (suc _))))))))) = object_tag

abbrev pub number_as : (ℕ → Json) → Bytes → Option (Json × Bytes)
number_as f [] = none
number_as f (i ∷ r) = some (f i, r)

unfoldable mutual
  pub read : ℕ → Bytes → Option (Json × Bytes)
  read zero r = none
  read (suc n) [] = none
  read (suc n) (t ∷ r) = elim (tag_of t) [
    | null_tag ↦ some (null, r)
    | true_tag ↦ some (boolean true, r)
    | false_tag ↦ some (boolean false, r)
    | pos_tag ↦ number_as (λ i. integer (pos i)) r
    | negsuc_tag ↦ number_as (λ i. integer (negsuc i)) r
    | float_tag ↦ text_as float r
    | constant_tag ↦ text_as constant r
    | string_tag ↦ text_as string r
    | array_tag ↦ bind (read_items n r) (λ p. some (array p.0, p.1))
    | object_tag ↦ bind (read_members n r) (λ p. some (object p.0, p.1))
  ]

  pub read_items : ℕ → Bytes → Option (Items × Bytes)
  read_items zero r = none
  read_items (suc n) [] = none
  read_items (suc n) (zero ∷ r) = some (nil, r)
  read_items (suc n) (suc _ ∷ r) =
      bind (read n r) (λ p. bind (read_items n p.1) (λ q. some (item p.0 q.0, q.1)))

  pub read_members : ℕ → Bytes → Option (Members × Bytes)
  read_members zero r = none
  read_members (suc n) [] = none
  read_members (suc n) (zero ∷ r) = some (end, r)
  read_members (suc n) (suc _ ∷ r) = bind (read_text r) (λ t.
      bind (read n t.1) (λ p. bind (read_members n p.1) (λ q. some (member t.0 p.0 q.0, q.1))))

-- The fuel that a value takes.
unfoldable mutual
  cost : Json → ℕ
  cost (array xs) = 1 + cost_items xs
  cost (object ms) = 1 + cost_members ms
  cost v = 1

  cost_items : Items → ℕ
  cost_items nil = 1
  cost_items (item x xs) = 1 + (cost x + cost_items xs)

  cost_members : Members → ℕ
  cost_members end = 1
  cost_members (member k v ms) = 1 + (cost v + cost_members ms)

cost_pos : (v : Json) → 1 ≤ cost v
unfolding cost
cost_pos null = omega arith
cost_pos (boolean b) = omega arith
cost_pos (integer i) = omega arith
cost_pos (float t) = omega arith
cost_pos (constant t) = omega arith
cost_pos (string t) = omega arith
cost_pos (array xs) = omega arith
cost_pos (object ms) = omega arith

cost_items_pos : (xs : Items) → 1 ≤ cost_items xs
unfolding cost
cost_items_pos nil = omega arith
cost_items_pos (item x xs) = omega arith

cost_members_pos : (ms : Members) → 1 ≤ cost_members ms
unfolding cost
cost_members_pos end = omega arith
cost_members_pos (member k v ms) = omega arith

mutual
  unfolding write cost

  cost-write : (v : Json) (r : Bytes) → cost v + length r ≤ length (write v r)
  cost-write null r = omega arith
  cost-write (boolean true) r = omega arith
  cost-write (boolean false) r = omega arith
  cost-write (integer (pos i)) r = omega arith
  cost-write (integer (negsuc i)) r = omega arith
  cost-write (float t) r = omega (arith, length-append t r)
  cost-write (constant t) r = omega (arith, length-append t r)
  cost-write (string t) r = omega (arith, length-append t r)
  cost-write (array xs) r = omega (arith, cost_items-write xs r)
  cost-write (object ms) r = omega (arith, cost_members-write ms r)

  cost_items-write : (xs : Items) (r : Bytes) → cost_items xs + length r ≤ length (write_items xs r)
  cost_items-write nil r = omega arith
  cost_items-write (item x xs) r =
      omega (arith, cost-write x (write_items xs r), cost_items-write xs r)

  cost_members-write :
      (ms : Members) (r : Bytes) → cost_members ms + length r ≤ length (write_members ms r)
  cost_members-write end r = omega arith
  cost_members-write (member k v ms) r = omega (
    arith,
    length-append k (write v (write_members ms r)),
    cost-write v (write_members ms r),
    cost_members-write ms r,
  )

read_text-write_text : (t : Text) (r : Bytes) → read_text (write_text t r) ≡ some (t, r)
unfolding read_text
read_text-write_text t r = ground (arith, take-append t r, drop-append t r)

mutual
  unfolding read write cost

  read-write : (n : ℕ) (v : Json) (r : Bytes) → cost v ≤ n → read n (write v r) ≡ some (v, r)
  read-write zero v r h = absurd (omega (arith, cost_pos v))
  read-write (suc n) null r h = refl
  read-write (suc n) (boolean true) r h = refl
  read-write (suc n) (boolean false) r h = refl
  read-write (suc n) (integer (pos i)) r h = refl
  read-write (suc n) (integer (negsuc i)) r h = refl
  read-write (suc n) (float t) r h = rw (read_text-write_text t r) refl
  read-write (suc n) (constant t) r h = rw (read_text-write_text t r) refl
  read-write (suc n) (string t) r h = rw (read_text-write_text t r) refl
  read-write (suc n) (array xs) r h = rw (read_items-write n xs r (omega arith)) refl
  read-write (suc n) (object ms) r h = rw (read_members-write n ms r (omega arith)) refl

  read_items-write :
      (n : ℕ) (xs : Items) (r : Bytes)
      → cost_items xs ≤ n
      → read_items n (write_items xs r) ≡ some (xs, r)
  read_items-write zero xs r h = absurd (omega (arith, cost_items_pos xs))
  read_items-write (suc n) nil r h = refl
  read_items-write (suc n) (item x xs) r h =
      rw (read-write n x (write_items xs r) (omega arith))
        (rw (read_items-write n xs r (omega arith)) refl)

  read_members-write :
      (n : ℕ) (ms : Members) (r : Bytes)
      → cost_members ms ≤ n
      → read_members n (write_members ms r) ≡ some (ms, r)
  read_members-write zero ms r h = absurd (omega (arith, cost_members_pos ms))
  read_members-write (suc n) end r h = refl
  read_members-write (suc n) (member k v ms) r h =
      rw (read_text-write_text k (write v (write_members ms r))) (
        rw (read-write n v (write_members ms r) (omega arith))
          (rw (read_members-write n ms r (omega arith)) refl))

unfoldable pub toy_loads : Bytes → Option Json
unfolding read
toy_loads document = bind (read (length document) document) (λ p. some p.0)

unfoldable pub toy_dumps : Json → Bytes
unfolding write canonical
toy_dumps v = write (canonical v) []

pub toy_loads-toy_dumps : (v : Json) → toy_loads (toy_dumps v) ≡ some (canonical v)
unfolding toy_loads toy_dumps
toy_loads-toy_dumps v =
    let enough : cost (canonical v) ≤ length (write (canonical v) []) =
      omega (arith, cost-write (canonical v) []) in
    rw (read-write (length (write (canonical v) [])) (canonical v) [] enough) refl

instance abbrev pub toy_json : JsonLibrary
toy_json = record {
  loads = toy_loads;
  dumps = λ v. some (toy_dumps v);
  dumps_plain = λ v h. (toy_dumps v, refl);
  loads-dumps = λ v document h e.
      let same : document ≡ toy_dumps v = ground arith in ap toy_loads same ∙ toy_loads-toy_dumps v;
}
