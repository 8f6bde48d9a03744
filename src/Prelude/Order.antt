-- ===== src/Prelude/Order.antt =====
-- A linear order by a Boolean test, and the equality test that it decides.
use mathlib.Core.Path.{◌≡◌}
use mathlib.Core.Bool.{Bool, true, false, not, ◌&&◌}
use native.Mathlib.Omega.{arith}

pub record LinearOrder {ℓ} (A : Type ℓ) : Type ℓ where
  pub lt : A → A → Bool
  pub lt_irrefl : (a : A) → lt a a ≡ false
  pub lt_trans : (a b c : A) → lt a b ≡ true → lt b c ≡ true → lt a c ≡ true
  pub lt_connex : (a b : A) → lt a b ≡ false → lt b a ≡ false → a ≡ b

infix 50 ◌==◌
unfoldable pub ◌==◌ {ℓ} : {A : Type ℓ} ⦃o : LinearOrder A⦄ → A → A → Bool
◌==◌ ⦃o⦄ a b = not (o.lt a b) && not (o.lt b a)

module _ {ℓ} {A : Type ℓ} ⦃o : LinearOrder A⦄ where
  pub ==_sound : (a b : A) → (a == b) ≡ true → a ≡ b
  unfolding ◌==◌
  ==_sound a b h = o.lt_connex a b (ground arith) (ground arith)

  pub ==_refl : (a : A) → (a == a) ≡ true
  unfolding ◌==◌
  ==_refl a = ground (arith, o.lt_irrefl a)

  pub ==_complete : (a b : A) → a ≡ b → (a == b) ≡ true
  ==_complete a b e = ground (arith, ==_refl a)

  pub ==_comm : (a b : A) → (a == b) ≡ (b == a)
  unfolding ◌==◌
  ==_comm a b = ground arith

  pub lt-ne : (a b : A) → o.lt a b ≡ true → (a == b) ≡ false
  unfolding ◌==◌
  lt-ne a b h = ground arith

  pub lt_asymm : (a b : A) → o.lt a b ≡ true → o.lt b a ≡ false
  lt_asymm a b h = ground (arith, o.lt_trans a b a, o.lt_irrefl a)

-- The order of the images under a function that tells its arguments apart.
abbrev pub order_on {ℓ κ} :
    {A : Type ℓ} {B : Type κ} (o : LinearOrder B) (f : A → B)
    → ((x y : A) → f x ≡ f y → x ≡ y)
    → LinearOrder A
order_on o f injective = record {
  lt = λ x y. o.lt (f x) (f y);
  lt_irrefl = λ x. o.lt_irrefl (f x);
  lt_trans = λ x y z. o.lt_trans (f x) (f y) (f z);
  lt_connex = λ x y p q. injective x y (o.lt_connex (f x) (f y) p q);
}
