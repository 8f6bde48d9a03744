-- ===== src/Identity/Principal/Grammar.antt =====
-- identity/principal.py: the refusals, by the parts of an identifier.
use pyboltzmann.Prelude.{
  ℕ, ◌+◌, ◌≡◌, refl, ◌∙◌, inl, inr, Bool, true, false, not, ◌&&◌, ◌||◌, Bool-cases, List, [], ◌∷◌,
  ◌++◌, arith, leb, ltb, eqb, if◌then◌else◌, length, length-append, all,
}
use pyboltzmann.Prelude.Texts.{
  Text, split, has_char, before, after, all-append, all_imp, has_char-append, has_char-all,
}
use pyboltzmann.Identity.Principal

-- The tests of the code on `local@domain`.
abbrev pub passes_local : Text → Bool
passes_local local =
    (Principal.runs_over local Principal.is_local_char && leb (length local) 64)
    && (not
          (Principal.first_is (λ c. eqb c b'.') local || Principal.last_is (λ c. eqb c b'.') local)
        && not (Principal.has_double_dot local))

abbrev pub passes_address : Text → Bool
passes_address value =
    has_char b'@' value
    && (passes_local (before b'@' value) && Principal.valid_domain (after b'@' value))

-- The tests of the code on `namespace/name`.
abbrev pub passes_namespaced : Text → Bool
passes_namespaced value =
    has_char b'/' value
    && (Principal.valid_segment (before b'/' value) && Principal.valid_segment (after b'/' value))

runs_all : (t : Text) (p : ℕ → Bool) → Principal.runs_over t p ≡ true → all p t ≡ true
unfolding Principal.runs_over
runs_all [] p h = absurd (ground arith)
runs_all (c ∷ t) p h = h

split_several : (t : Text) → Principal.is_several (split b'.' t).1 ≡ has_char b'.' t
unfolding Principal.is_several has_char
split_several [] = refl
split_several (c ∷ t) = ground (arith, split_several t)

abbrev pub is_domain_char : ℕ → Bool
is_domain_char c = Principal.is_label_char c || eqb c b'.'

valid_label-all : (t : Text) → Principal.valid_label t ≡ true → all is_domain_char t ≡ true
unfolding Principal.valid_label
valid_label-all t h =
    all_imp Principal.is_label_char is_domain_char t (λ c g. ground arith)
      (runs_all t Principal.is_label_char (ground arith))

all_labels-all :
    (ts : List Text) → Principal.all_labels ts ≡ true → all (λ t. all is_domain_char t) ts ≡ true
unfolding Principal.all_labels all
all_labels-all [] h = refl
all_labels-all (t ∷ ts) h =
    ground (arith, valid_label-all t (ground arith), all_labels-all ts (ground arith))

split-all :
    (t : Text)
    → (all is_domain_char (split b'.' t).0 && all (λ u. all is_domain_char u) (split b'.' t).1)
      ≡ true
    → all is_domain_char t ≡ true
unfolding all Principal.is_label_char
split-all [] h = refl
split-all (c ∷ t) h = elim (Bool-cases (eqb c b'.')) [
  | inl e ↦ ground (arith, split-all t (ground arith))
  | inr n ↦ ground (arith, split-all t (ground arith))
]

pub valid_domain-all :
    (d : Text)
    → Principal.valid_domain d ≡ true
    → (all is_domain_char d ≡ true)
      × (leb (length d) 255 ≡ true)
      × (leb 1 (length d) ≡ true)
      × (has_char b'.' d ≡ true)
unfolding Principal.valid_domain all
valid_domain-all d h =
    let labels = all_labels-all ((split b'.' d).0 ∷ (split b'.' d).1) (ground arith) in
    (split-all d labels, ground arith, ground arith, ground (arith, split_several d))

pub valid_segment-all :
    (t : Text)
    → Principal.valid_segment t ≡ true
    → (all Principal.is_segment_char t ≡ true)
      × (leb (length t) 128 ≡ true)
      × (leb 1 (length t) ≡ true)
unfolding Principal.valid_segment
valid_segment-all t h =
    (runs_all t Principal.is_segment_char (ground arith), ground arith, ground arith)

-- Printable and no capital: what every character of the two forms is.
abbrev pub is_plain : ℕ → Bool
is_plain c = Principal.is_printable c && not (Principal.is_upper c)

plain_guards :
    (t : Text)
    → all is_plain t ≡ true
    → (all Principal.is_printable t ≡ true) × (all (λ c. not (Principal.is_upper c)) t ≡ true)
plain_guards t h = (
  all_imp is_plain Principal.is_printable t (λ c g. ground arith) h,
  all_imp is_plain (λ c. not (Principal.is_upper c)) t (λ c g. ground arith) h,
)

pub local_plain : (c : ℕ) → Principal.is_local_char c ≡ true → is_plain c ≡ true
unfolding Principal.is_local_char Principal.is_printable Principal.is_upper
local_plain c h = ground arith

pub domain_plain : (c : ℕ) → is_domain_char c ≡ true → is_plain c ≡ true
unfolding Principal.is_label_char Principal.is_printable Principal.is_upper
domain_plain c h = ground arith

pub segment_plain : (c : ℕ) → Principal.is_segment_char c ≡ true → is_plain c ≡ true
unfolding Principal.is_segment_char Principal.is_printable Principal.is_upper
segment_plain c h = ground arith

-- What is left of the refusals where the tests on the whole text pass.
pub refusal_plain :
    (value : Text)
    → Principal.is_empty value ≡ false
    → ltb Principal.max_actor_id (length value) ≡ false
    → all is_plain value ≡ true
    → Principal.refusal value ≡ (
        if has_char b'@' value && has_char b'/' value
        then true
        else if has_char b'@' value
        then Principal.refuses_address (before b'@' value) (after b'@' value)
        else if not (has_char b'/' value)
        then true
        else if Principal.has_several_slashes value
        then true
        else Principal.refuses_namespaced (before b'/' value) (after b'/' value))
unfolding Principal.refusal
refusal_plain value e l h = let (p, u) = plain_guards value h in rw e (rw l (rw p (rw u refl)))

-- The tests on a text in two parts.
pub joined :
    (a b : Text) (c : ℕ)
    → all is_plain a ≡ true
    → all is_plain b ≡ true
    → is_plain c ≡ true
    → all is_plain (a ++ c ∷ b) ≡ true
unfolding all
joined a b c p q r = ground (arith, all-append is_plain a (c ∷ b))

pub joined_size : (a b : Text) (c : ℕ) → length (a ++ c ∷ b) ≡ length a + (1 + length b)
joined_size a b c = omega (arith, length-append a (c ∷ b))

pub joined_some : (a b : Text) (c : ℕ) → Principal.is_empty (a ++ c ∷ b) ≡ false
unfolding Principal.is_empty
joined_some [] b c = refl
joined_some (x ∷ a) b c = refl

nonempty : (t : Text) → leb 1 (length t) ≡ true → Principal.is_empty t ≡ false
unfolding Principal.is_empty
nonempty [] h = absurd (ground arith)
nonempty (c ∷ t) h = refl

pub local_parts :
    (l : Text)
    → passes_local l ≡ true
    → (all Principal.is_local_char l ≡ true)
      × (leb (length l) 64 ≡ true)
      × (Principal.is_empty l ≡ false)
unfolding Principal.runs_over Principal.is_empty
local_parts [] h = absurd (ground arith)
local_parts (c ∷ l) h = (ground arith, ground arith, refl)

address_chain :
    (e l m r b double ed dot v : Bool)
    → (r ≡ true → e ≡ false)
    → l ≡ not m
    → (v ≡ true → (ed ≡ false) × (dot ≡ true))
    → (if e
        then true
        else if l
        then true
        else if not r
        then true
        else if b
        then true
        else if double
        then true
        else if ed
        then true
        else if not dot
        then true
        else not v)
      ≡ not (((r && m) && (not b && not double)) && v)
address_chain e l m r b double ed dot v p q h = ground arith

over : (m n : ℕ) → ltb m n ≡ not (leb n m)
over m n = ground arith

runs_over_some :
    (t : Text) (p : ℕ → Bool) → Principal.runs_over t p ≡ true → Principal.is_empty t ≡ false
unfolding Principal.runs_over Principal.is_empty
runs_over_some [] p h = absurd (ground arith)
runs_over_some (c ∷ t) p h = refl

pub refuses_address_lem :
    (l d : Text) → Principal.refuses_address l d ≡ not (passes_local l && Principal.valid_domain d)
unfolding Principal.refuses_address
refuses_address_lem l d =
    address_chain (Principal.is_empty l) (ltb 64 (length l)) (leb (length l) 64)
      (Principal.runs_over l Principal.is_local_char)
      (Principal.first_is (λ c. eqb c b'.') l || Principal.last_is (λ c. eqb c b'.') l)
      (Principal.has_double_dot l) (Principal.is_empty d) (has_char b'.' d)
      (Principal.valid_domain d) (runs_over_some l Principal.is_local_char) (over 64 (length l))
      (λ v. let (_, _, some, dot) = valid_domain-all d v in (nonempty d some, dot))

namespaced_chain :
    (e f n m : Bool)
    → (n ≡ true → e ≡ false)
    → (m ≡ true → f ≡ false)
    → (if e then true else if f then true else if not n then true else not m) ≡ not (n && m)
namespaced_chain e f n m p q = ground arith

pub refuses_namespaced_lem :
    (n m : Text)
    → Principal.refuses_namespaced n m
      ≡ not (Principal.valid_segment n && Principal.valid_segment m)
unfolding Principal.refuses_namespaced
refuses_namespaced_lem n m =
    namespaced_chain (Principal.is_empty n) (Principal.is_empty m) (Principal.valid_segment n)
      (Principal.valid_segment m) (λ v. nonempty n (valid_segment-all n v).2)
      (λ v. nonempty m (valid_segment-all m v).2)

-- An address has no `/` and a namespaced name no `@`.
pub address_no_slash :
    (l d : Text)
    → passes_local l ≡ true
    → Principal.valid_domain d ≡ true
    → has_char b'/' (l ++ b'@' ∷ d) ≡ false
unfolding has_char Principal.is_local_char Principal.is_label_char
address_no_slash l d p q = ground (
  arith,
  has_char-append b'/' l (b'@' ∷ d),
  has_char-all b'/' Principal.is_local_char l refl (local_parts l p).0,
  has_char-all b'/' is_domain_char d refl (valid_domain-all d q).0,
)

pub namespaced_no_at :
    (n m : Text)
    → Principal.valid_segment n ≡ true
    → Principal.valid_segment m ≡ true
    → (has_char b'@' (n ++ b'/' ∷ m) ≡ false) × (has_char b'/' m ≡ false)
unfolding has_char Principal.is_segment_char
namespaced_no_at n m p q =
    let right : has_char b'@' m ≡ false =
      has_char-all b'@' Principal.is_segment_char m refl (valid_segment-all m q).0 in
    let left : has_char b'@' n ≡ false =
      has_char-all b'@' Principal.is_segment_char n refl (valid_segment-all n p).0 in
    (
      has_char-append b'@' n (b'/' ∷ m) ∙ rw left (rw right refl),
      has_char-all b'/' Principal.is_segment_char m refl (valid_segment-all m q).0,
    )
