-- ===== src/Prelude/Dict.antt =====
-- Python's `dict` as an association list in insertion order: `d[k] = v` replaces an entry in place.
use mathlib.Core.Path.{◌≡◌, refl, ap, ◌∙◌}
use mathlib.Core.Option.{Option, none, some}
use mathlib.Core.Bool.{Bool, true, false, ◌||◌, ◌&&◌}
use mathlib.Core.List.{List, [], ◌∷◌, ◌++◌}
use native.Mathlib.Omega.{arith}
use pyboltzmann.Prelude.Tests.{if◌then◌else◌, Bool-cases}
use mathlib.Core.Logic.{inl, inr}
use pyboltzmann.Prelude.Order.{LinearOrder, ◌==◌, ==_sound, ==_comm}
use pyboltzmann.Prelude.Sets.{contains, contains-append}

abbrev pub Dict {ℓ κ} : Type ℓ → Type κ → Type (ℓ ⊔ κ)
Dict K V = List (K × V)

module _ {ℓ κ} {K : Type ℓ} {V : Type κ} ⦃o : LinearOrder K⦄ where
  -- `d.get(k)`
  unfoldable pub get : K → Dict K V → Option V
  get k [] = none
  get k ((j, v) ∷ d) = if j == k then some v else get k d

  -- `d[k] = v`
  unfoldable pub put : K → V → Dict K V → Dict K V
  put k v [] = (k, v) ∷ []
  put k v ((j, w) ∷ d) = if j == k then (j, v) ∷ d else (j, w) ∷ put k v d

  pub get-put :
      (k j : K) (v : V) (d : Dict K V) → get j (put k v d) ≡ (if k == j then some v else get j d)
  unfolding get put
  get-put k j v [] = refl
  get-put k j v ((i, w) ∷ d) =
      ground (arith, get-put k j v d, ==_sound i k, ==_sound i j, ==_sound k j)

  -- `d.setdefault(k, v)`
  unfoldable pub setdefault : K → V → Dict K V → Dict K V
  setdefault k v d = elim (get k d) [ none ↦ put k v d | some _ ↦ d ]

  -- `d.pop(k, None)`
  unfoldable pub pop : K → Dict K V → Dict K V
  pop k [] = []
  pop k ((j, v) ∷ d) = let rest = pop k d in if j == k then rest else (j, v) ∷ rest

  -- `list(d)`
  unfoldable pub keys : Dict K V → List K
  keys [] = []
  keys ((k, v) ∷ d) = k ∷ keys d

  -- `k in d`
  unfoldable pub has_key : K → Dict K V → Bool
  has_key k d = elim (get k d) [ none ↦ false | some _ ↦ true ]

  pub get-setdefault :
      (k j : K) (v : V) (d : Dict K V)
      → get j (setdefault k v d)
        ≡ elim (get j d) [ none ↦ if k == j then some v else none | some w ↦ some w ]
  unfolding setdefault
  get-setdefault k j v d =
      ground (arith, get-put k j v d, ==_sound k j, ap (λ i. get i d) (==_sound k j _))

  pub get-pop : (k j : K) (d : Dict K V) → get j (pop k d) ≡ (if k == j then none else get j d)
  unfolding get pop
  get-pop k j [] = ground arith
  get-pop k j ((i, w) ∷ d) = ground (arith, get-pop k j d, ==_sound i k, ==_sound i j, ==_sound k j)

  pub contains-keys : (k : K) (d : Dict K V) → contains k (keys d) ≡ has_key k d
  unfolding contains keys has_key get
  contains-keys k [] = refl
  contains-keys k ((j, v) ∷ d) = ground (arith, contains-keys k d, ==_comm k j)

module _ {ℓ} {K A : Type ℓ} ⦃o : LinearOrder K⦄ ⦃p : LinearOrder A⦄ where
  -- `d.get(k, set())`
  unfoldable pub set_at : K → Dict K (List A) → List A
  set_at k d = elim (get k d) [ none ↦ [] | some s ↦ s ]

  -- `d.setdefault(k, set()).add(x)`
  unfoldable pub add_at : K → A → Dict K (List A) → Dict K (List A)
  unfolding set_at
  add_at k x d = put k (set_at k d ++ x ∷ []) d

  set_at-put :
      (k j : K) (xs : List A) (d : Dict K (List A))
      → set_at j (put k xs d) ≡ (if k == j then xs else set_at j d)
  unfolding set_at
  set_at-put k j xs d = ground (arith, get-put k j xs d)

  pub contains-add_at :
      (k j : K) (x y : A) (d : Dict K (List A))
      → contains y (set_at j (add_at k x d)) ≡ (contains y (set_at j d) || ((k == j) && (y == x)))
  unfolding add_at contains
  contains-add_at k j x y d = elim (Bool-cases (k == j)) [
    | inl e ↦
        let here = ap (λ i. contains y (set_at i d)) (==_sound k j e) in
        let grown = contains-append y (set_at k d) (x ∷ []) in
        ap (contains y) (set_at-put k j (set_at k d ++ x ∷ []) d) ∙ rw e (ground arith)
    | inr n ↦ ap (contains y) (set_at-put k j (set_at k d ++ x ∷ []) d) ∙ rw n (ground arith)
  ]
