-- ===== src/Prelude/Texts.antt =====
-- Python's `str` where the code walks its characters: a list of code points.
use Prim.Native.Nat.{ℕ}
use Prim.Native.Char.{code}
use Prim.Native.String.{String}
use mathlib.Core.Path.{◌≡◌, refl, ap}
use mathlib.Core.Bool.{Bool, true, false, not, ◌&&◌, ◌||◌}
use mathlib.Core.Logic.{inl, inr}
use mathlib.Core.List.{List, [], ◌∷◌, ◌++◌}
use native.Mathlib.Omega.{arith}
use pyboltzmann.Prelude.Tests.{eqb, Bool-cases, if◌then◌else◌}
use pyboltzmann.Prelude.Lists.{length, all, drop}

abbrev pub Text : Type 0
Text = List ℕ

-- The code points of a literal.
abbrev pub codes : String → Text
codes String.[] = []
codes (String.◌∷◌ c s) = code c ∷ codes s

-- `text.startswith(prefix)`
unfoldable pub starts_with : Text → Text → Bool
starts_with text [] = true
starts_with [] (p ∷ prefix) = false
starts_with (c ∷ text) (p ∷ prefix) = eqb c p && starts_with text prefix

-- `text.replace(old, new)` for two characters
unfoldable pub replace : ℕ → ℕ → Text → Text
replace old new [] = []
replace old new (c ∷ text) = (if eqb c old then new else c) ∷ replace old new text

pub starts_with-append : (prefix text : Text) → starts_with (prefix ++ text) prefix ≡ true
unfolding starts_with
starts_with-append [] text = refl
starts_with-append (p ∷ prefix) text = ground (arith, starts_with-append prefix text)

pub length-replace : (old new : ℕ) (text : Text) → length (replace old new text) ≡ length text
unfolding replace
length-replace old new [] = refl
length-replace old new (c ∷ text) = omega (arith, length-replace old new text)

-- Replacing back gives the text again, if it did not hold the new character.
pub replace-replace :
    (old new : ℕ) (text : Text)
    → all (λ c. not (eqb c new)) text ≡ true
    → replace new old (replace old new text) ≡ text
unfolding replace all
replace-replace old new [] h = refl
replace-replace old new (c ∷ text) h = ground (arith, replace-replace old new text (ground arith))

pub starts_with-drop :
    (prefix text : Text)
    → starts_with text prefix ≡ true
    → prefix ++ drop (length prefix) text ≡ text
unfolding starts_with drop
starts_with-drop [] text h = refl
starts_with-drop (p ∷ prefix) [] h = absurd (ground arith)
starts_with-drop (p ∷ prefix) (c ∷ text) h = ground (arith, starts_with-drop prefix text)

-- `text.split(separator)`: the first part, and the others.
abbrev pub split : ℕ → Text → Text × List Text
split separator [] = ([], [])
split separator (c ∷ rest) =
    let (first, others) = split separator rest in
    if eqb c separator then ([], first ∷ others) else (c ∷ first, others)

-- `c in text`, and `text.partition(c)`: what is before the first `c`, and what is after it.
unfoldable pub has_char : ℕ → Text → Bool
has_char c [] = false
has_char c (d ∷ text) = eqb d c || has_char c text

unfoldable pub before : ℕ → Text → Text
before c [] = []
before c (d ∷ text) = let rest = before c text in if eqb d c then [] else d ∷ rest

unfoldable pub after : ℕ → Text → Text
after c [] = []
after c (d ∷ text) = let rest = after c text in if eqb d c then text else rest

pub partition_lem :
    (c : ℕ) (text : Text) → has_char c text ≡ true → before c text ++ c ∷ after c text ≡ text
unfolding has_char before after
partition_lem c [] h = absurd (ground arith)
partition_lem c (d ∷ text) h = ground (arith, partition_lem c text)

pub all-append : (p : ℕ → Bool) (a b : Text) → all p (a ++ b) ≡ (all p a && all p b)
unfolding all
all-append p [] b = refl
all-append p (c ∷ a) b = ground (arith, all-append p a b)

pub all_imp :
    (p q : ℕ → Bool) (text : Text)
    → ((c : ℕ) → p c ≡ true → q c ≡ true)
    → all p text ≡ true
    → all q text ≡ true
unfolding all
all_imp p q [] f h = refl
all_imp p q (c ∷ text) f h = ground (arith, f c, all_imp p q text f (ground arith))

pub has_char-append : (c : ℕ) (a b : Text) → has_char c (a ++ b) ≡ (has_char c a || has_char c b)
unfolding has_char
has_char-append c [] b = refl
has_char-append c (d ∷ a) b = ground (arith, has_char-append c a b)

-- A character that a test refuses is not in a text that passes it.
pub has_char-all :
    (c : ℕ) (p : ℕ → Bool) (text : Text) → p c ≡ false → all p text ≡ true → has_char c text ≡ false
unfolding has_char all
has_char-all c p [] n h = refl
has_char-all c p (d ∷ text) n h = elim (Bool-cases (eqb d c)) [
  | inl e ↦ let same : d ≡ c = ground arith in absurd (ground (arith, ap p same))
  | inr k ↦ ground (arith, has_char-all c p text n (ground arith))
]
