-- ===== src/Prelude/Closure.antt =====
-- Breadth-first closure of a set under a function to lists: what one round adds, the invariant of
-- the rounds, and why they end. The loops themselves are the program's.
use mathlib.Core.Path.{◌≡◌, sym, ap, ◌∙◌}
use mathlib.Core.Bool.{Bool, true, false, not, ◌&&◌, ◌||◌}
use mathlib.Core.List.{List, [], ◌∷◌, ◌++◌}
use mathlib.Core.Logic.{inl, inr}
use Prim.Native.Nat.{ℕ, ◌≤◌, ◌<◌}
use native.Mathlib.Omega.{arith}
use pyboltzmann.Prelude.Tests.{Bool-cases}
use pyboltzmann.Prelude.Lists.{length, filter}
use pyboltzmann.Prelude.Order.{LinearOrder, ◌==◌, ==_sound, ==_refl}
use pyboltzmann.Prelude.Sets.{contains, contains-append}

module _ {ℓ} {A : Type ℓ} ⦃o : LinearOrder A⦄ where
  -- `{y for x in xs for y in f(x)}`
  unfoldable pub flat_map : (A → List A) → List A → List A
  flat_map f [] = []
  flat_map f (x ∷ xs) = f x ++ flat_map f xs

  pub contains-flat_map :
      (f : A → List A) (xs : List A) (x y : A)
      → contains x xs ≡ true
      → contains y (f x) ≡ true
      → contains y (flat_map f xs) ≡ true
  unfolding flat_map contains
  contains-flat_map f [] x y h k = absurd (ground arith)
  contains-flat_map f (z ∷ xs) x y h k = elim (Bool-cases (x == z)) [
    | inl e ↦
        let there : contains y (f z) ≡ true =
          ap (λ w. contains y (f w)) (sym (==_sound x z e)) ∙ k in
        ground (arith, contains-append y (f z) (flat_map f xs))
    | inr n ↦ ground (
      arith,
      contains-append y (f z) (flat_map f xs),
      contains-flat_map f xs x y (ground arith) k,
    )
  ]

  pub flat_map_origin :
      (f : A → List A) (xs : List A) (y : A)
      → contains y (flat_map f xs) ≡ true
      → (x : A) × (contains x xs ≡ true) × (contains y (f x) ≡ true)
  unfolding flat_map contains
  flat_map_origin f [] y h = absurd (ground arith)
  flat_map_origin f (z ∷ xs) y h = elim (Bool-cases (contains y (f z))) [
    | inl e ↦ (z, ground (arith, ==_refl z), e)
    | inr n ↦
        let rest : contains y (flat_map f xs) ≡ true =
          ground (arith, contains-append y (f z) (flat_map f xs)) in
        let (x, p, q) = flat_map_origin f xs y rest in (x, ground arith, q)
  ]

  -- How much of the universe is not in the set yet.
  unfoldable pub missing : List A → List A → ℕ
  unfolding filter
  missing universe found = length (filter (λ u. not (contains u found)) universe)

  pub missing_le :
      (universe found more : List A) → missing universe (found ++ more) ≤ missing universe found
  unfolding missing
  missing_le [] found more = omega arith
  missing_le (u ∷ universe) found more =
      ground (arith, missing_le universe found more, contains-append u found more)

  pub missing_lt :
      (universe found more : List A) (x : A)
      → contains x universe ≡ true
      → contains x found ≡ false
      → contains x more ≡ true
      → missing universe (found ++ more) < missing universe found
  unfolding missing contains
  missing_lt [] found more x h k m = absurd (ground arith)
  missing_lt (u ∷ universe) found more x h k m = elim (Bool-cases (x == u)) [
    | inl e ↦
        let old : contains u found ≡ false =
          ap (λ w. contains w found) (sym (==_sound x u e)) ∙ k in
        let new : contains u more ≡ true = ap (λ w. contains w more) (sym (==_sound x u e)) ∙ m in
        ground (arith, missing_le universe found more, contains-append u found more)
    | inr n ↦
        ground
          (arith, missing_lt universe found more x (ground arith) k m, contains-append u found more)
  ]

  pub missing-le-length : (universe found : List A) → missing universe found ≤ length universe
  unfolding missing
  missing-le-length [] found = omega arith
  missing-le-length (u ∷ universe) found = ground (arith, missing-le-length universe found)

  -- A walk along `next` that skips some elements. `roots` are the elements that it started from
  -- without collecting them, and `P` is what holds of whatever it may reach.
  module _ {κ} (next : A → List A) (skip : A → Bool) (roots : List A) (P : A → Type κ) where
    abbrev pub IsKnown : List A → A → Type 0
    IsKnown found b = (contains b roots || contains b found) ≡ true

    pub record IsWalk (found frontier : List A) : Type (ℓ ⊔ κ) where
      pub inside : (b : A) → contains b frontier ≡ true → IsKnown found b
      pub reached : (b : A) → IsKnown found b → P b
      pub settled :
          (b d : A)
          → IsKnown found b
          → contains b frontier ≡ false
          → contains d (next b) ≡ true
          → (skip d || contains d found) ≡ true

    -- The elements that a round discovers.
    pub record IsRound (found frontier discovered : List A) : Type ℓ where
      pub fresh :
          (d : A)
          → contains d discovered
            ≡ (contains d (flat_map next frontier) && (not (contains d found) && not (skip d)))

    pub IsRound-IsWalk :
        (found frontier discovered : List A)
        → ((b d : A) → P b → contains d (next b) ≡ true → skip d ≡ false → P d)
        → IsWalk found frontier
        → IsRound found frontier discovered
        → IsWalk (found ++ discovered) discovered
    IsRound-IsWalk found frontier discovered step w r = record {
      inside = λ b h. ground (arith, contains-append b found discovered);
      reached = λ b h. elim (Bool-cases (contains b roots || contains b found)) [
        | inl old ↦ w.reached b old
        | inr new ↦
            let here : contains b discovered ≡ true =
              ground (arith, contains-append b found discovered) in
            let (x, p, q) = flat_map_origin next frontier b (ground (arith, r.fresh b)) in
            step x b (w.reached x (w.inside x p)) q (ground (arith, r.fresh b))
      ];
      settled = λ b d h n m.
          let old : IsKnown found b = ground (arith, contains-append b found discovered) in
          elim (Bool-cases (contains b frontier)) [
            | inl e ↦ ground (
              arith,
              contains-flat_map next frontier b d e m,
              r.fresh d,
              contains-append d found discovered,
            )
            | inr e ↦ ground (arith, w.settled b d old e m, contains-append d found discovered)
          ];
    }

    -- Nothing that is known leads outside.
    abbrev pub IsClosed : List A → Type ℓ
    IsClosed found =
        (b d : A)
        → IsKnown found b
        → contains d (next b) ≡ true
        → (skip d || contains d found) ≡ true

    pub IsWalk-IsClosed :
        (found frontier discovered : List A)
        → IsWalk found frontier
        → IsRound found frontier discovered
        → ((d : A) → contains d discovered ≡ false)
        → IsClosed found
    IsWalk-IsClosed found frontier discovered w r none_new b d h m =
        elim (Bool-cases (contains b frontier)) [
          | inl e ↦ ground (arith, contains-flat_map next frontier b d e m, r.fresh d, none_new d)
          | inr e ↦ w.settled b d h e m
        ]

    -- A round that discovers something leaves less of the universe.
    pub IsRound-missing :
        (universe found frontier discovered : List A) (d : A)
        → ((b c : A) → contains c (next b) ≡ true → contains c universe ≡ true)
        → IsRound found frontier discovered
        → contains d discovered ≡ true
        → missing universe (found ++ discovered) < missing universe found
    IsRound-missing universe found frontier discovered d covers r h =
        let (x, p, q) = flat_map_origin next frontier d (ground (arith, r.fresh d)) in
        missing_lt universe found discovered d (covers x d q) (ground (arith, r.fresh d)) h
