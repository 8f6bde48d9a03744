-- ===== src/Identity/Principal/Forms.antt =====
-- identity/principal.py: an identifier is accepted exactly if it takes one of the two forms.
use pyboltzmann.Prelude.{
  ℕ, ◌+◌, ◌≡◌, refl, sym, ap, ◌∙◌, inl, inr, Bool, true, false, not, ◌&&◌, ◌||◌, Bool-cases, [],
  ◌∷◌, ◌++◌, arith, leb, ltb, if◌then◌else◌, length, all, some, none,
}
use pyboltzmann.Prelude.Texts.{Text, has_char, before, after, partition_lem, all_imp}
use pyboltzmann.Identity.Principal
use pyboltzmann.Identity.Principal.Words
use pyboltzmann.Identity.Principal.Grammar.{
  passes_local, passes_address, passes_namespaced, is_plain, is_domain_char, refusal_plain, joined,
  joined_size, joined_some, local_parts, refuses_address_lem, refuses_namespaced_lem,
  address_no_slash, namespaced_no_at, valid_domain-all, valid_segment-all, local_plain,
  domain_plain, segment_plain,
}

-- The tests on the whole text pass.
abbrev passes : Text → Bool
passes value =
    (not (Principal.is_empty value) && not (ltb 320 (length value))) && all is_plain value

passes-joined :
    (a b : Text) (c : ℕ)
    → leb (length a + length b) 319 ≡ true
    → all is_plain a ≡ true
    → all is_plain b ≡ true
    → is_plain c ≡ true
    → passes (a ++ c ∷ b) ≡ true
passes-joined a b c n p q r =
    ground (arith, joined a b c p q r, joined_size a b c, joined_some a b c)

address-passes : (value : Text) → passes_address value ≡ true → passes value ≡ true
unfolding Principal.is_printable Principal.is_upper
address-passes value h =
    let whole = partition_lem b'@' value (ground arith) in
    let (chars, size, _) = local_parts (before b'@' value) (ground arith) in
    let (labels, most, _, _) = valid_domain-all (after b'@' value) (ground arith) in
    let left = all_imp Principal.is_local_char is_plain (before b'@' value) local_plain chars in
    let right = all_imp is_domain_char is_plain (after b'@' value) domain_plain labels in
    ap passes (sym whole)
    ∙ passes-joined (before b'@' value) (after b'@' value) b'@' (ground arith) left right refl

namespaced-passes : (value : Text) → passes_namespaced value ≡ true → passes value ≡ true
unfolding Principal.is_printable Principal.is_upper
namespaced-passes value h =
    let whole = partition_lem b'/' value (ground arith) in
    let (chars, size, _) = valid_segment-all (before b'/' value) (ground arith) in
    let (others, most, _) = valid_segment-all (after b'/' value) (ground arith) in
    let left = all_imp Principal.is_segment_char is_plain (before b'/' value) segment_plain chars in
    let right =
      all_imp Principal.is_segment_char is_plain (after b'/' value) segment_plain others in
    ap passes (sym whole)
    ∙ passes-joined (before b'/' value) (after b'/' value) b'/' (ground arith) left right refl

all_and :
    (p q : ℕ → Bool) (t : Text) → all p t ≡ true → all q t ≡ true → all (λ c. p c && q c) t ≡ true
unfolding all
all_and p q [] h k = refl
all_and p q (c ∷ t) h k = ground (arith, all_and p q t)

unplain_chain :
    (e l p u rest : Bool)
    → ((p && u) ≡ true → (not e && not l) ≡ false)
    → (if e then true else if l then true else if not p then true else if not u then true else rest)
      ≡ true
unplain_chain e l p u rest h = ground arith

last_fails : (a b : Bool) → (a && b) ≡ false → b ≡ true → a ≡ false
last_fails a b h k = ground arith

left_part : (a b : Bool) → (a && b) ≡ true → a ≡ true
left_part a b h = ground arith

right_part : (a b : Bool) → (a && b) ≡ true → b ≡ true
right_part a b h = ground arith

empty_part : (a b c : Bool) → ((not a && not b) && c) ≡ true → a ≡ false
empty_part a b c h = ground arith

size_part : (a b c : Bool) → ((not a && not b) && c) ≡ true → b ≡ false
size_part a b c h = ground arith

negated : (a b c : Bool) → a ≡ not (b && c) → (d : Bool) → (d && (b && c)) ≡ (d && not a)
negated a b c h d = ground arith

twice : (a : Bool) → not (not a) ≡ a
twice a = ground arith

unless : (a b : Bool) → b ≡ false → (a ≡ true → b ≡ true) → a ≡ false
unless a b h k = ground arith

negate : (a b : Bool) → not a ≡ b → a ≡ not b
negate a b h = ground arith

form_chain :
    (r at address namespaced : Bool)
    → r ≡ not (address || namespaced)
    → (address ≡ true → at ≡ true)
    → (namespaced ≡ true → at ≡ false)
    → (if r
        then none
        else if at
        then some Principal.ActorIdForm.address
        else some Principal.ActorIdForm.namespaced)
      ≡ (if address
          then some Principal.ActorIdForm.address
          else if namespaced
          then some Principal.ActorIdForm.namespaced
          else none)
form_chain r at address namespaced p q s = ground arith

refusal_unplain : (value : Text) → passes value ≡ false → Principal.refusal value ≡ true
unfolding Principal.refusal
refusal_unplain value h =
    unplain_chain (Principal.is_empty value) (ltb 320 (length value))
      (all Principal.is_printable value) (all (λ c. not (Principal.is_upper c)) value)
      (if has_char b'@' value && has_char b'/' value
        then true
        else if has_char b'@' value
        then Principal.refuses_address (before b'@' value) (after b'@' value)
        else if not (has_char b'/' value)
        then true
        else if Principal.has_several_slashes value
        then true
        else Principal.refuses_namespaced (before b'/' value) (after b'/' value))
      (λ g.
        last_fails (not (Principal.is_empty value) && not (ltb 320 (length value)))
          (all is_plain value) h
          (all_and Principal.is_printable (λ c. not (Principal.is_upper c)) value (left_part _ _ g)
            (right_part _ _ g)))

address_slash : (value : Text) → passes_address value ≡ true → has_char b'/' value ≡ false
address_slash value h =
    let whole = partition_lem b'@' value (left_part _ _ h) in
    ap (has_char b'/') (sym whole)
    ∙ address_no_slash (before b'@' value) (after b'@' value) (left_part _ _ (right_part _ _ h))
        (right_part _ _ (right_part _ _ h))

namespaced_at :
    (value : Text)
    → passes_namespaced value ≡ true
    → (has_char b'@' value ≡ false) × (Principal.has_several_slashes value ≡ false)
unfolding Principal.has_several_slashes
namespaced_at value h =
    let whole = partition_lem b'/' value (left_part _ _ h) in
    let (at, slash) =
      namespaced_no_at (before b'/' value) (after b'/' value) (left_part _ _ (right_part _ _ h))
        (right_part _ _ (right_part _ _ h)) in
    (ap (has_char b'@') (sym whole) ∙ at, slash)

forms_chain :
    (at slash several a n address namespaced : Bool)
    → address ≡ (at && not a)
    → namespaced ≡ (slash && not n)
    → (address ≡ true → slash ≡ false)
    → (namespaced ≡ true → (at ≡ false) × (several ≡ false))
    → (if at && slash
        then true
        else if at
        then a
        else if not slash
        then true
        else if several
        then true
        else n)
      ≡ not (address || namespaced)
forms_chain at slash several a n address namespaced p q r s = ground arith

plain_forms :
    (value : Text)
    → passes value ≡ true
    → Principal.refusal value ≡ not (passes_address value || passes_namespaced value)
plain_forms value h =
    let a = refuses_address_lem (before b'@' value) (after b'@' value) in
    let n = refuses_namespaced_lem (before b'/' value) (after b'/' value) in
    refusal_plain value (empty_part _ _ _ h) (size_part _ _ _ h) (right_part _ _ h)
    ∙ forms_chain (has_char b'@' value) (has_char b'/' value) (Principal.has_several_slashes value)
        (Principal.refuses_address (before b'@' value) (after b'@' value))
        (Principal.refuses_namespaced (before b'/' value) (after b'/' value)) (passes_address value)
        (passes_namespaced value)
        (negated (Principal.refuses_address (before b'@' value) (after b'@' value))
          (passes_local (before b'@' value)) (Principal.valid_domain (after b'@' value)) a
          (has_char b'@' value))
        (negated (Principal.refuses_namespaced (before b'/' value) (after b'/' value))
          (Principal.valid_segment (before b'/' value)) (Principal.valid_segment (after b'/' value))
          n (has_char b'/' value))
        (address_slash value) (namespaced_at value)

accepted_lem :
    (value : Text) → Principal.is_actor_id value ≡ (passes_address value || passes_namespaced value)
unfolding Principal.is_actor_id
accepted_lem value = elim (Bool-cases (passes value)) [
  | inl h ↦ rw (plain_forms value h) (twice (passes_address value || passes_namespaced value))
  | inr n ↦
      let a = unless (passes_address value) (passes value) n (address-passes value) in
      let b = unless (passes_namespaced value) (passes value) n (namespaced-passes value) in
      rw (refusal_unplain value n) (rw a (rw b refl))
]

-- An identifier is accepted exactly if it is an address or a namespaced name, by the grammar of the two forms:
-- a local part of at most 64 characters, of parts between single dots, at a domain of at most 255 characters
-- and of two labels or more; or two segments of at most 128 characters on the two sides of a slash.
-- The tests on the whole text refuse nothing that the two forms admit, the bound of 320 characters among
-- them.
pub is_actor_id-forms :
    (value : Text)
    → Principal.is_actor_id value ≡ (Words.is_address value || Words.is_namespaced value)
is_actor_id-forms value =
    accepted_lem value ∙ rw (Words.is_address_lem value, Words.is_namespaced_lem value) refl

refusal-forms :
    (value : Text) → Principal.refusal value ≡ not (passes_address value || passes_namespaced value)
unfolding Principal.is_actor_id
refusal-forms value =
    negate (Principal.refusal value) (passes_address value || passes_namespaced value)
      (accepted_lem value)

form_lem :
    (value : Text)
    → Principal.actor_id_form value ≡ (
        if passes_address value
        then some Principal.ActorIdForm.address
        else if passes_namespaced value
        then some Principal.ActorIdForm.namespaced
        else none)
unfolding Principal.actor_id_form
form_lem value =
    form_chain (Principal.refusal value) (has_char b'@' value) (passes_address value)
      (passes_namespaced value) (refusal-forms value) (λ h. left_part _ _ h)
      (λ h. (namespaced_at value h).0)

-- The form of an accepted identifier is the one that it takes, and it takes only one.
pub actor_id_form-forms :
    (value : Text)
    → Principal.actor_id_form value ≡ (
        if Words.is_address value
        then some Principal.ActorIdForm.address
        else if Words.is_namespaced value
        then some Principal.ActorIdForm.namespaced
        else none)
actor_id_form-forms value =
    form_lem value ∙ rw (Words.is_address_lem value, Words.is_namespaced_lem value) refl
