-- ===== src/Identity/Serialization/Strings.antt =====
-- identity/serialization.py: `_normalize_string` decodes UTF-16.
use pyboltzmann.Prelude.{
  ℕ, ◌+◌, ◌-◌, ◌/◌, ◌%◌, ◌≡◌, refl, Bool, true, false, not, ◌&&◌, Bool-cases, inl, inr, Option,
  none, some, [], ◌∷◌, leb, ltb, arith, all,
}
use pyboltzmann.Prelude.Texts.{Text}
use pyboltzmann.Exceptions.{ok, Result-cases}
use pyboltzmann.Identity.Serialization
use pyboltzmann.Identity.Serialization.Canonical.{utf16, is_scalar}

combine-utf16 :
    (c : ℕ)
    → ltb c 65536 ≡ false
    → is_scalar c ≡ true
    → (Serialization.is_high (55296 + (c - 65536) / 1024) ≡ true)
      × (Serialization.is_low (56320 + (c - 65536) % 1024) ≡ true)
      × (Serialization.combine (55296 + (c - 65536) / 1024) (56320 + (c - 65536) % 1024) ≡ c)
unfolding is_scalar Serialization.combine
combine-utf16 c n h = (ground arith, ground arith, ground arith)

-- A Unicode text that was written in UTF-16, one escape for each code unit, is read back whole: each
-- pair of surrogates becomes the character that it stands for.
pub normalize_string-utf16 :
    (t : Text) → all is_scalar t ≡ true → Serialization.normalize_string (utf16 t) ≡ ok t
unfolding Serialization.normalize_string utf16 is_scalar all
normalize_string-utf16 [] h = refl
normalize_string-utf16 (c ∷ t) h = elim (Bool-cases (ltb c 65536)) [
  | inl e ↦ ground (arith, normalize_string-utf16 t (ground arith))
  | inr n ↦
      ground (arith, combine-utf16 c n (ground arith), normalize_string-utf16 t (ground arith))
]

-- A text without surrogates is left as it is.
pub normalize_string_scalar :
    (t : Text) → all is_scalar t ≡ true → Serialization.normalize_string t ≡ ok t
unfolding Serialization.normalize_string is_scalar all
normalize_string_scalar [] h = refl
normalize_string_scalar (c ∷ t) h = ground (arith, normalize_string_scalar t (ground arith))

abbrev is_surrogate : ℕ → Bool
unfolding Serialization.is_high Serialization.is_low
is_surrogate c = leb 55296 c && leb c 57343

normalize_from_clean :
    (before : Option ℕ) (t u : Text)
    → Serialization.normalize_from before t ≡ ok u
    → all (λ c. not (is_surrogate c)) u ≡ true
unfolding Serialization.normalize_from all
normalize_from_clean none [] u h = ground arith
normalize_from_clean (some high) [] u h = absurd (ground arith)
normalize_from_clean none (c ∷ t) u h = elim (Bool-cases (Serialization.is_high c)) [
  | inl e ↦ normalize_from_clean (some c) t u (ground arith)
  | inr n ↦ elim (Result-cases (Serialization.normalize_from none t)) [
    | inl (v, p) ↦ ground (arith, normalize_from_clean none t v p)
    | inr (x, p) ↦ absurd (ground arith)
  ]
]
normalize_from_clean (some high) (c ∷ t) u h =
    elim (Result-cases (Serialization.normalize_from none t)) [
      | inl (v, p) ↦ ground (arith, normalize_from_clean none t v p)
      | inr (x, p) ↦ absurd (ground arith)
    ]

-- What is normalized holds no surrogate.
pub normalize_string_clean :
    (t u : Text)
    → Serialization.normalize_string t ≡ ok u
    → all (λ c. not (leb 55296 c && leb c 57343)) u ≡ true
unfolding Serialization.normalize_string
normalize_string_clean t u h = normalize_from_clean none t u h
