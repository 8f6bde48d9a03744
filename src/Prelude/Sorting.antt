-- ===== src/Prelude/Sorting.antt =====
-- Python's `sorted(set(xs))`: repetitions dropped, then sorted by insertion.
use mathlib.Core.Path.{◌≡◌, refl, sym, subst, ap₂}
use mathlib.Core.Logic.{inl, inr}
use mathlib.Core.Bool.{true, false, ◌||◌}
use mathlib.Core.List.{List, [], ◌∷◌}
use native.Mathlib.Omega.{arith}
use pyboltzmann.Prelude.Tests.{if◌then◌else◌, Bool-cases}
use pyboltzmann.Prelude.Order.{LinearOrder, ◌==◌, ==_sound, ==_refl, lt_asymm}
use pyboltzmann.Prelude.Sets.{contains, SameMembers}

module _ {ℓ} {A : Type ℓ} ⦃o : LinearOrder A⦄ where
  unfoldable pub distinct : List A → List A
  distinct [] = []
  distinct (x ∷ xs) = let rest = distinct xs in if contains x xs then rest else x ∷ rest

  unfoldable pub insert_sorted : A → List A → List A
  insert_sorted x [] = x ∷ []
  insert_sorted x (y ∷ ys) = if o.lt y x then y ∷ insert_sorted x ys else x ∷ y ∷ ys

  unfoldable pub sort : List A → List A
  sort [] = []
  sort (x ∷ xs) = insert_sorted x (sort xs)

  unfoldable pub sorted_set : List A → List A
  unfolding distinct insert_sorted sort contains ◌==◌
  sorted_set xs = sort (distinct xs)

  -- `x` lies strictly below every element.
  abbrev pub IsBelow : A → List A → Type 0
  IsBelow x [] = Unit
  IsBelow x (y ∷ ys) = (o.lt x y ≡ true) × IsBelow x ys

  abbrev pub IsAscending : List A → Type 0
  IsAscending [] = Unit
  IsAscending (x ∷ xs) = IsBelow x xs × IsAscending xs

  pub contains-distinct : (x : A) (xs : List A) → contains x (distinct xs) ≡ contains x xs
  unfolding contains distinct
  contains-distinct x [] = refl
  contains-distinct x (y ∷ ys) = ground (arith, contains-distinct x ys, ==_sound x y)

  contains-insert_sorted :
      (x y : A) (ys : List A) → contains x (insert_sorted y ys) ≡ ((x == y) || contains x ys)
  unfolding contains insert_sorted
  contains-insert_sorted x y [] = refl
  contains-insert_sorted x y (z ∷ ys) = ground (arith, contains-insert_sorted x y ys)

  pub contains-sort : (x : A) (xs : List A) → contains x (sort xs) ≡ contains x xs
  unfolding contains sort
  contains-sort x [] = refl
  contains-sort x (y ∷ ys) =
      ground (arith, contains-sort x ys, contains-insert_sorted x y (sort ys))

  pub contains-sorted_set : (x : A) (xs : List A) → contains x (sorted_set xs) ≡ contains x xs
  unfolding sorted_set
  contains-sorted_set x xs = ground (arith, contains-sort x (distinct xs), contains-distinct x xs)

  pub IsBelow-trans : (x y : A) (ys : List A) → o.lt x y ≡ true → IsBelow y ys → IsBelow x ys
  IsBelow-trans x y [] h b = tt
  IsBelow-trans x y (z ∷ ys) h b = (o.lt_trans x y z h b.0, IsBelow-trans x y ys h b.1)

  pub IsBelow-lt : (x y : A) (ys : List A) → IsBelow x ys → contains y ys ≡ true → o.lt x y ≡ true
  unfolding contains
  IsBelow-lt x y [] b c = absurd (ground arith)
  IsBelow-lt x y (z ∷ ys) b c = ground (arith, IsBelow-lt x y ys b.1, ==_sound y z)

  pub IsBelow-fresh : (x : A) (ys : List A) → IsBelow x ys → contains x ys ≡ false
  IsBelow-fresh x ys b = ground (arith, IsBelow-lt x x ys b, o.lt_irrefl x)

  insert_sorted-IsBelow :
      (z x : A) (ys : List A) → o.lt z x ≡ true → IsBelow z ys → IsBelow z (insert_sorted x ys)
  unfolding insert_sorted
  insert_sorted-IsBelow z x [] h b = (h, tt)
  insert_sorted-IsBelow z x (y ∷ ys) h b = elim (Bool-cases (o.lt y x)) [
    | inl e ↦ rw e (b.0, insert_sorted-IsBelow z x ys h b.1)
    | inr e ↦ rw e (h, b)
  ]

  insert_sorted-IsAscending :
      (x : A) (ys : List A)
      → contains x ys ≡ false
      → IsAscending ys
      → IsAscending (insert_sorted x ys)
  unfolding insert_sorted contains ◌==◌
  insert_sorted-IsAscending x [] h a = (tt, tt)
  insert_sorted-IsAscending x (y ∷ ys) h a = elim (Bool-cases (o.lt y x)) [
    | inl e ↦
        rw e (insert_sorted-IsBelow y x ys e a.0, insert_sorted-IsAscending x ys (ground arith) a.1)
    | inr e ↦
        let below : o.lt x y ≡ true = ground arith in
        rw e ((below, IsBelow-trans x y ys below a.0), a)
  ]

  sort-distinct-IsAscending : (xs : List A) → IsAscending (sort (distinct xs))
  unfolding sort distinct
  sort-distinct-IsAscending [] = tt
  sort-distinct-IsAscending (x ∷ xs) = elim (Bool-cases (contains x xs)) [
    | inl e ↦ rw e (sort-distinct-IsAscending xs)
    | inr e ↦ rw e (
        insert_sorted-IsAscending x (sort (distinct xs))
          (ground (arith, contains-sort x (distinct xs), contains-distinct x xs))
          (sort-distinct-IsAscending xs))
  ]

  pub sorted_set-IsAscending : (xs : List A) → IsAscending (sorted_set xs)
  unfolding sorted_set
  sorted_set-IsAscending xs = sort-distinct-IsAscending xs

  heads_eq :
      (x y : A) (xs ys : List A)
      → IsBelow x xs
      → IsBelow y ys
      → SameMembers (x ∷ xs) (y ∷ ys)
      → x ≡ y
  unfolding contains
  heads_eq x y xs ys bx by same = ground (
    arith,
    same x,
    same y,
    ==_refl x,
    ==_refl y,
    ==_sound x y,
    ==_sound y x,
    IsBelow-lt y x ys by,
    IsBelow-lt x y xs bx,
    lt_asymm x y,
  )

  tails_same :
      (x : A) (xs ys : List A)
      → IsBelow x xs
      → IsBelow x ys
      → SameMembers (x ∷ xs) (x ∷ ys)
      → SameMembers xs ys
  unfolding contains
  tails_same x xs ys bx by same z =
      ground (arith, same z, ==_sound z x, IsBelow-fresh x xs bx, IsBelow-fresh x ys by)

  -- A strictly ascending list is determined by its members.
  pub ascending_unique :
      (xs ys : List A) → IsAscending xs → IsAscending ys → SameMembers xs ys → xs ≡ ys
  unfolding contains
  ascending_unique [] [] ax ay same = refl
  ascending_unique [] (y ∷ ys) ax ay same = absurd (ground (arith, same y, ==_refl y))
  ascending_unique (x ∷ xs) [] ax ay same = absurd (ground (arith, same x, ==_refl x))
  ascending_unique (x ∷ xs) (y ∷ ys) ax ay same =
      let e = heads_eq x y xs ys ax.0 ay.0 same in
      let by : IsBelow x ys = rw e ay.0 in
      let same' = subst (λ t. SameMembers (x ∷ xs) (t ∷ ys)) (sym e) same in
      ap₂ ◌∷◌ e (ascending_unique xs ys ax.1 ay.1 (tails_same x xs ys ax.0 by same'))

  pub sorted_set_unique : (xs ys : List A) → SameMembers xs ys → sorted_set xs ≡ sorted_set ys
  sorted_set_unique xs ys same =
      ascending_unique (sorted_set xs) (sorted_set ys) (sorted_set-IsAscending xs)
        (sorted_set-IsAscending ys) (λ x. simp contains-sorted_set (same x))

  pub sorted_set_of_ascending : (xs : List A) → IsAscending xs → sorted_set xs ≡ xs
  sorted_set_of_ascending xs a =
      ascending_unique (sorted_set xs) xs (sorted_set-IsAscending xs) a
        (λ x. contains-sorted_set x xs)
