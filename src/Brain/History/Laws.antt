-- ===== src/Brain/History/Laws.antt =====
-- The walk of `_reachable_from` in brain.py ends and is exact.
use mathlib.Core.Path.{subst}
use pyboltzmann.Prelude.{
  ℕ, zero, suc, ◌+◌, ◌≤◌, ◌<◌, ◌≡◌, ◌↔◌, refl, ap, sym, ◌∙◌, inl, inr, true, false, not, ◌&&◌, ◌||◌,
  none, some, List, [], ◌∷◌, length, arith, Bool-cases, Option-cases,
}
use pyboltzmann.Prelude.Order.{◌==◌, ==_sound, ==_refl}
use pyboltzmann.Prelude.Sets.{contains, union, contains-append}
use pyboltzmann.Prelude.Dict.{get}
use pyboltzmann.Prelude.Closure.{missing, missing_lt, missing-le-length}
use pyboltzmann.Exceptions.{ok}
use pyboltzmann.Identity.{OciDigest, oci_order}
use pyboltzmann.Reconcile.Ancestry.{Snapshot, History}
use pyboltzmann.Brain.History.{add_parents, reachable_loop, all_parents, reachable_from}

-- The snapshot itself, or a parent of one that is reachable and whose document is held.
pub data Reaches (h : History) (start : OciDigest) : OciDigest → Type 0 where
  self : Reaches h start start
  further :
      {d p : OciDigest} {s : Snapshot}
      → Reaches h start d
      → get d h ≡ some s
      → contains p s.parents ≡ true
      → Reaches h start p

get-all_parents :
    (h : History) (d p : OciDigest) (s : Snapshot)
    → get d h ≡ some s
    → contains p s.parents ≡ true
    → contains p (all_parents h) ≡ true
unfolding get all_parents
get-all_parents [] d p s e m = absurd (ground arith)
get-all_parents ((k, t) ∷ h) d p s e m = elim (Bool-cases (k == d)) [
  | inl same ↦
      let t_is : t ≡ s = ground arith in
      ground
        (arith, contains-append p t.parents (all_parents h), ap (λ u. contains p u.parents) t_is)
  | inr n ↦
      ground (
        arith,
        contains-append p t.parents (all_parents h),
        get-all_parents h d p s (ground arith) m,
      )
]

some_eq : (s t : Snapshot) → some s ≡ some t → s ≡ t
some_eq s t e = ground arith

-- What the loop over the parents does.
pub record Added (universe ps seen frontier : List OciDigest) (seen' frontier' : List OciDigest)
    : Type 0 where
  pub all_seen : (x : OciDigest) → contains x seen' ≡ (contains x seen || contains x ps)
  pub waits :
      (x : OciDigest)
      → contains x frontier' ≡ (contains x frontier || (contains x ps && not (contains x seen)))
  pub smaller : length frontier' + missing universe seen' ≤ length frontier + missing universe seen

add_parents_lem :
    (universe ps seen frontier : List OciDigest)
    → ((x : OciDigest) → contains x ps ≡ true → contains x universe ≡ true)
    → Added universe ps seen frontier
        (add_parents ps seen frontier).0
        (add_parents ps seen frontier).1
unfolding add_parents contains
add_parents_lem universe [] seen frontier inside = record {
  all_seen = λ x. ground arith;
  waits = λ x. ground arith;
  smaller = omega arith;
}
add_parents_lem universe (p ∷ ps) seen frontier inside = elim (Bool-cases (contains p seen)) [
  | inl old ↦
      let rest = add_parents_lem universe ps seen frontier (λ x m. inside x (ground arith)) in
      rw old (record {
        all_seen = λ x. ground (
          arith,
          rest.all_seen x,
          λ (e : (x == p) ≡ true). ap (λ y. contains y seen) (==_sound x p e),
        );
        waits = λ x. ground (
          arith,
          rest.waits x,
          λ (e : (x == p) ≡ true). ap (λ y. contains y seen) (==_sound x p e),
        );
        smaller = rest.smaller;
      })
  | inr new ↦
      let rest =
        add_parents_lem universe ps (union seen (p ∷ [])) (p ∷ frontier)
          (λ x m. inside x (ground arith)) in
      rw new (record {
        all_seen = λ x. ground (arith, rest.all_seen x, contains-append x seen (p ∷ []));
        waits = λ x. ground (
          arith,
          rest.waits x,
          contains-append x seen (p ∷ []),
          λ (e : (x == p) ≡ true). ap (λ y. contains y seen) (==_sound x p e),
        );
        smaller = omega (
          arith,
          rest.smaller,
          missing_lt universe seen (p ∷ []) p (inside p (ground (arith, ==_refl p))) new
              (ground (arith, ==_refl p)),
        );
      })
]

module _ (h : History) (start : OciDigest) where
  abbrev Closed : OciDigest → List OciDigest → Type 0
  Closed d seen =
      (s : Snapshot) (p : OciDigest)
      → get d h ≡ some s
      → contains p s.parents ≡ true
      → contains p seen ≡ true

  record IsSearch (seen frontier : List OciDigest) : Type 0 where
    begun : contains start seen ≡ true
    inside : (d : OciDigest) → contains d frontier ≡ true → contains d seen ≡ true
    reached : (d : OciDigest) → contains d seen ≡ true → Reaches h start d
    settled : (d : OciDigest) → contains d seen ≡ true → contains d frontier ≡ false → Closed d seen

  -- Taking a snapshot whose document is not held.
  absent-IsSearch :
      (d : OciDigest) (seen frontier : List OciDigest)
      → IsSearch seen (d ∷ frontier)
      → get d h ≡ none
      → IsSearch seen frontier
  unfolding contains
  absent-IsSearch d seen frontier w e = record {
    begun = w.begun;
    inside = λ x m. w.inside x (ground arith);
    reached = w.reached;
    settled = λ x m n. elim (Bool-cases (x == d)) [
      | inl same ↦ λ s p g k.
          let g' : get d h ≡ some s = ap (λ y. get y h) (sym (==_sound x d same)) ∙ g in
          absurd (ground arith)
      | inr other ↦ w.settled x m (ground arith)
    ];
  }

  -- Taking one whose document is held, with its parents added.
  held-IsSearch :
      (d : OciDigest) (s : Snapshot) (seen frontier seen' frontier' : List OciDigest)
      → IsSearch seen (d ∷ frontier)
      → get d h ≡ some s
      → Added (all_parents h) s.parents seen frontier seen' frontier'
      → IsSearch seen' frontier'
  unfolding contains
  held-IsSearch d s seen frontier seen' frontier' w e a = record {
    begun = ground (arith, a.all_seen start, w.begun);
    inside = λ x m. ground (arith, a.all_seen x, a.waits x, w.inside x);
    reached = λ x m. elim (Bool-cases (contains x seen)) [
      | inl old ↦ w.reached x old
      | inr new ↦
          further (w.reached d (w.inside d (ground (arith, ==_refl d)))) e
            (ground (arith, a.all_seen x))
    ];
    settled = λ x m n. elim (Bool-cases (x == d)) [
      | inl same ↦ λ t p g k.
          let t_is : t ≡ s = some_eq t s (sym g ∙ (ap (λ y. get y h) (==_sound x d same) ∙ e)) in
          ground (arith, a.all_seen p, ap (λ u. contains p u.parents) t_is)
      | inr other ↦
          let old : contains x seen ≡ true = ground (arith, a.all_seen x, a.waits x) in
          λ t p g k.
            let before = w.settled x old (ground (arith, a.waits x)) t p g k in
            ground (arith, a.all_seen p)
    ];
  }

  Reaches-seen :
      (seen : List OciDigest)
      → IsSearch seen []
      → (d : OciDigest) → Reaches h start d
      → contains d seen ≡ true
  unfolding contains
  Reaches-seen seen w d self = w.begun
  Reaches-seen seen w p (further {d = d} {s = s} r e m) =
      w.settled d (Reaches-seen seen w d r) refl s p e m

  reachable_loop_lem :
      (fuel : ℕ) (seen frontier : List OciDigest)
      → IsSearch seen frontier
      → length frontier + missing (all_parents h) seen < fuel
      → (found : List OciDigest) × (reachable_loop fuel h seen frontier ≡ ok found)
        × ((d : OciDigest) → (contains d found ≡ true) ↔ Reaches h start d)
  unfolding reachable_loop
  reachable_loop_lem zero seen frontier w f = absurd (omega arith)
  reachable_loop_lem (suc fuel) seen [] w f =
      (seen, refl, λ d. (w.reached d, Reaches-seen seen w d))
  reachable_loop_lem (suc fuel) seen (d ∷ frontier) w f = elim (Option-cases (get d h)) [
    | inl e ↦
        let (found, run, exact) =
          reachable_loop_lem fuel seen frontier (absent-IsSearch d seen frontier w e)
            (omega arith) in
        (found, rw (e, reachable_loop) run, exact)
    | inr (s, e) ↦
        let a =
          add_parents_lem (all_parents h) s.parents seen frontier
            (λ x m. get-all_parents h d x s e m) in
        let (found, run, exact) =
          reachable_loop_lem fuel (add_parents s.parents seen frontier).0
            (add_parents s.parents seen frontier).1
            (held-IsSearch d s seen frontier (add_parents s.parents seen frontier).0
              (add_parents s.parents seen frontier).1 w e a)
            (omega (arith, a.smaller)) in
        (found, rw (e, reachable_loop) run, exact)
  ]

  -- The walk over all parents ends, whatever the history, and finds exactly the snapshots that are
  -- reachable: the start, and each parent that a reachable document that is held names.
  pub reachable_from-Reaches :
      (found : List OciDigest) × (reachable_from h start ≡ ok found)
      × ((d : OciDigest) → (contains d found ≡ true) ↔ Reaches h start d)
  unfolding reachable_from contains
  reachable_from-Reaches =
      let first : IsSearch (start ∷ []) (start ∷ []) = record {
        begun = ground (arith, ==_refl start);
        inside = λ d m. m;
        reached = λ d m. subst (Reaches h start) (sym (==_sound d start (ground arith))) self;
        settled = λ d m n. absurd (ground arith);
      } in
      reachable_loop_lem (length (all_parents h) + 2) (start ∷ []) (start ∷ []) first
        (omega (arith, missing-le-length (all_parents h) (start ∷ [])))
