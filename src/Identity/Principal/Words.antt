-- ===== src/Identity/Principal/Words.antt =====
-- The two forms of an actor identifier that identity/principal.py documents, as a grammar of words and
-- dots; and the tests of the module against it.
use pyboltzmann.Prelude.{
  ℕ, suc, ◌≡◌, refl, ◌∙◌, inl, inr, Bool, true, false, not, ◌&&◌, ◌||◌, Bool-cases, List, [], ◌∷◌,
  arith, leb, eqb, length, all,
}
use pyboltzmann.Prelude.Texts.{Text, split, has_char, before, after}
use pyboltzmann.Identity.Principal
use pyboltzmann.Identity.Principal.Grammar.{passes_local, passes_address, passes_namespaced}

-- `[a-z0-9]`
unfoldable pub alphanumeric : ℕ → Bool
alphanumeric c = (leb b'a' c && leb c b'z') || (leb b'0' c && leb c b'9')

-- `([a-z0-9extra]*[a-z0-9])?`
unfoldable pub ends_word : (ℕ → Bool) → Text → Bool
ends_word extra [] = true
ends_word extra (c ∷ []) = alphanumeric c
ends_word extra (c ∷ d ∷ t) = (alphanumeric c || extra c) && ends_word extra (d ∷ t)

-- `[a-z0-9]([a-z0-9extra]*[a-z0-9])?`
unfoldable pub is_word : (ℕ → Bool) → Text → Bool
is_word extra [] = false
is_word extra (c ∷ t) = alphanumeric c && ends_word extra t

-- `[a-z0-9_%+-]`
unfoldable pub atom_char : ℕ → Bool
unfolding alphanumeric
atom_char c = alphanumeric c || (eqb c b'_' || (eqb c b'%' || (eqb c b'+' || eqb c b'-')))

-- `[a-z0-9_%+-]+`
unfoldable pub is_atom : Text → Bool
is_atom [] = false
is_atom (c ∷ t) = all atom_char (c ∷ t)

-- A segment, at most 128 characters.
unfoldable pub is_segment : Text → Bool
is_segment t = is_word (λ c. eqb c b'.' || (eqb c b'_' || eqb c b'-')) t && leb (length t) 128

-- A label, at most 63 characters.
unfoldable pub is_label : Text → Bool
is_label t = is_word (λ c. eqb c b'-') t && leb (length t) 63

-- The parts of a text between the dots.
abbrev pub parts : Text → List Text
parts t = (split b'.' t).0 ∷ (split b'.' t).1

unfoldable pub is_domain : Text → Bool
is_domain t = leb (length t) 255 && (leb 2 (length (parts t)) && all is_label (parts t))

unfoldable pub is_local : Text → Bool
is_local t = leb (length t) 64 && all is_atom (parts t)

-- `local@domain`
unfoldable pub is_address : Text → Bool
is_address t = has_char b'@' t && (is_local (before b'@' t) && is_domain (after b'@' t))

-- `namespace/name`
unfoldable pub is_namespaced : Text → Bool
is_namespaced t = has_char b'/' t && (is_segment (before b'/' t) && is_segment (after b'/' t))

ends_word_lem :
    (allowed extra : ℕ → Bool) (c : ℕ) (t : Text)
    → ((x : ℕ) → allowed x ≡ (alphanumeric x || extra x))
    → (all allowed (c ∷ t) && Principal.last_is Principal.is_lower (c ∷ t))
      ≡ ends_word extra (c ∷ t)
unfolding all Principal.last_is Principal.is_lower ends_word alphanumeric
ends_word_lem allowed extra c [] same = ground (arith, same c)
ends_word_lem allowed extra c (d ∷ t) same =
    ground (arith, same c, ends_word_lem allowed extra d t same)

is_word_lem :
    (allowed extra : ℕ → Bool) (t : Text)
    → ((x : ℕ) → allowed x ≡ (alphanumeric x || extra x))
    → (Principal.runs_over t allowed && Principal.bounded_by_alphanumerics t) ≡ is_word extra t
unfolding all Principal.last_is Principal.first_is Principal.runs_over
    Principal.bounded_by_alphanumerics Principal.is_lower is_word ends_word alphanumeric
is_word_lem allowed extra [] same = refl
is_word_lem allowed extra (c ∷ []) same = ground (arith, same c)
is_word_lem allowed extra (c ∷ d ∷ t) same =
    ground (arith, same c, ends_word_lem allowed extra d t same)

word_size : (extra : ℕ → Bool) (t : Text) → is_word extra t ≡ true → leb 1 (length t) ≡ true
unfolding is_word
word_size extra [] h = absurd (ground arith)
word_size extra (c ∷ t) h = ground arith

sized :
    (one most word same : Bool)
    → (word ≡ true → one ≡ true)
    → same ≡ word
    → ((one && most) && same) ≡ (word && most)
sized one most word same f e = ground arith

pub is_segment_lem : (t : Text) → Principal.valid_segment t ≡ is_segment t
unfolding Principal.valid_segment is_segment Principal.is_segment_char Principal.is_lower
    alphanumeric
is_segment_lem t = sized (leb 1 (length t)) (leb (length t) 128) _ _ (word_size _ t) (
    is_word_lem Principal.is_segment_char (λ c. eqb c b'.' || (eqb c b'_' || eqb c b'-')) t
      (λ x. refl))

is_label_lem : (t : Text) → Principal.valid_label t ≡ is_label t
unfolding Principal.valid_label is_label Principal.is_label_char Principal.is_lower alphanumeric
is_label_lem t =
    sized (leb 1 (length t)) (leb (length t) 63) _ _ (word_size _ t)
      (is_word_lem Principal.is_label_char (λ c. eqb c b'-') t (λ x. refl))

all_labels_lem : (ts : List Text) → Principal.all_labels ts ≡ all is_label ts
unfolding Principal.all_labels all
all_labels_lem [] = refl
all_labels_lem (t ∷ ts) = ground (arith, is_label_lem t, all_labels_lem ts)

several_lem : (ts : List Text) → Principal.is_several ts ≡ leb 1 (length ts)
unfolding Principal.is_several
several_lem [] = refl
several_lem (t ∷ ts) = ground arith

-- A text with several parts is not empty.
parts_size : (t : Text) → leb 2 (length (parts t)) ≡ true → leb 1 (length t) ≡ true
parts_size [] h = absurd (ground arith)
parts_size (c ∷ t) h = ground arith

domain_chain :
    (one most several several' labels labels' : Bool)
    → several ≡ several'
    → labels ≡ labels'
    → (several' ≡ true → one ≡ true)
    → ((one && most) && (several && labels)) ≡ (most && (several' && labels'))
domain_chain one most several several' labels labels' p q f = ground arith

counted : (n : ℕ) → leb 1 n ≡ leb 2 (suc n)
counted n = ground arith

pub is_domain_lem : (t : Text) → Principal.valid_domain t ≡ is_domain t
unfolding Principal.valid_domain is_domain
is_domain_lem t =
    domain_chain (leb 1 (length t)) (leb (length t) 255) _ _ _ _
      (several_lem (split b'.' t).1 ∙ counted (length (split b'.' t).1)) (all_labels_lem (parts t))
      (parts_size t)

-- The test of a local part, where it starts a part between dots and where it goes on with one.
abbrev starts : Text → Bool
starts t =
    Principal.runs_over t Principal.is_local_char
    && (not (Principal.first_is (λ c. eqb c b'.') t || Principal.last_is (λ c. eqb c b'.') t)
        && not (Principal.has_double_dot t))

abbrev goes_on : Text → Bool
goes_on t =
    all Principal.is_local_char t
    && (not (Principal.last_is (λ c. eqb c b'.') t) && not (Principal.has_double_dot t))

-- Before another character, the last character and the double dots are those of the rest.
last_step :
    (c : ℕ) (t : Text)
    → eqb c b'.' ≡ false
    → (Principal.last_is (λ c. eqb c b'.') (c ∷ t) ≡ Principal.last_is (λ c. eqb c b'.') t)
      × (Principal.has_double_dot (c ∷ t) ≡ Principal.has_double_dot t)
unfolding Principal.last_is Principal.has_double_dot
last_step c [] n = (n, refl)
last_step c (d ∷ t) n = (refl, ground arith)

-- After a dot, a part starts.
dot_step : (c : ℕ) (t : Text) → eqb c b'.' ≡ true → goes_on (c ∷ t) ≡ starts t
unfolding Principal.last_is Principal.first_is Principal.has_double_dot Principal.runs_over all
    Principal.is_local_char
dot_step c [] e = ground arith
dot_step c (d ∷ t) e = ground arith

starts_step :
    (c : ℕ) (t : Text)
    → eqb c b'.' ≡ false
    → (starts (c ∷ t) ≡ (atom_char c && goes_on t)) × (goes_on (c ∷ t) ≡ (atom_char c && goes_on t))
unfolding Principal.first_is Principal.runs_over all Principal.is_local_char Principal.is_lower
    atom_char alphanumeric
starts_step c t n = let (l, d) = last_step c t n in (ground (arith, l, d), ground (arith, l, d))

starts_dot : (c : ℕ) (t : Text) → eqb c b'.' ≡ true → starts (c ∷ t) ≡ false
unfolding Principal.first_is
starts_dot c t e = ground arith

-- The parts between the dots, where the first may be what goes on with one.
parts_lem :
    (t : Text)
    → (starts t ≡ all is_atom (parts t))
      × (goes_on t ≡ (all atom_char (split b'.' t).0 && all is_atom (split b'.' t).1))
unfolding all is_atom Principal.runs_over Principal.last_is Principal.has_double_dot
parts_lem [] = (refl, refl)
parts_lem (c ∷ t) =
    let (begin, on) = parts_lem t in
    elim (Bool-cases (eqb c b'.')) [
      | inl e ↦ (ground (arith, starts_dot c t e), ground (arith, dot_step c t e, begin))
      | inr n ↦ let (s, g) = starts_step c t n in (ground (arith, s, on), ground (arith, g, on))
    ]

local_chain : (r m b start : Bool) → (r && b) ≡ start → ((r && m) && b) ≡ (m && start)
local_chain r m b start e = ground arith

pub is_local_lem : (t : Text) → passes_local t ≡ is_local t
unfolding is_local
is_local_lem t = local_chain _ (leb (length t) 64) _ _ (parts_lem t).0

pub is_address_lem : (t : Text) → passes_address t ≡ is_address t
unfolding is_address
is_address_lem t = rw (is_local_lem (before b'@' t), is_domain_lem (after b'@' t)) refl

pub is_namespaced_lem : (t : Text) → passes_namespaced t ≡ is_namespaced t
unfolding is_namespaced
is_namespaced_lem t = rw (is_segment_lem (before b'/' t), is_segment_lem (after b'/' t)) refl
