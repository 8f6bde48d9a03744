-- ===== src/Prelude/Sets.antt =====
-- Python's `set` as a list whose order and repetitions do not matter: only membership is read.
use mathlib.Core.Path.{◌≡◌, refl}
use mathlib.Core.Bool.{Bool, false, not, ◌&&◌, ◌||◌}
use mathlib.Core.List.{List, [], ◌∷◌, ◌++◌}
use native.Mathlib.Omega.{arith}
use pyboltzmann.Prelude.Lists.{filter}
use pyboltzmann.Prelude.Order.{LinearOrder, ◌==◌, ==_sound}

module _ {ℓ} {A : Type ℓ} ⦃o : LinearOrder A⦄ where
  -- `x in s`
  unfoldable pub contains : A → List A → Bool
  contains x [] = false
  contains x (y ∷ ys) = (x == y) || contains x ys

  -- `a | b`, `a - b`, `a & b`
  abbrev pub union : List A → List A → List A
  union a b = a ++ b

  unfoldable pub difference : List A → List A → List A
  difference a b = filter (λ x. not (contains x b)) a

  unfoldable pub intersection : List A → List A → List A
  intersection a b = filter (λ x. contains x b) a

  pub contains-append :
      (x : A) (a b : List A) → contains x (a ++ b) ≡ (contains x a || contains x b)
  unfolding contains
  contains-append x [] b = refl
  contains-append x (y ∷ a) b = ground (arith, contains-append x a b)

  pub contains-filter :
      (x : A) (p : A → Bool) (a : List A) → contains x (filter p a) ≡ (contains x a && p x)
  unfolding contains filter
  contains-filter x p [] = refl
  contains-filter x p (y ∷ a) = ground (arith, contains-filter x p a, ==_sound x y)

  pub contains-difference :
      (x : A) (a b : List A) → contains x (difference a b) ≡ (contains x a && not (contains x b))
  unfolding difference
  contains-difference x a b = contains-filter x (λ y. not (contains y b)) a

  pub contains-intersection :
      (x : A) (a b : List A) → contains x (intersection a b) ≡ (contains x a && contains x b)
  unfolding intersection
  contains-intersection x a b = contains-filter x (λ y. contains y b) a

  -- Two sets with the same members.
  abbrev pub SameMembers : List A → List A → Type ℓ
  SameMembers a b = (x : A) → contains x a ≡ contains x b

pub ruleset set_laws = (contains-append, contains-difference, contains-intersection)
