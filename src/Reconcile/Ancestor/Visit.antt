-- ===== src/Reconcile/Ancestor/Visit.antt =====
-- What visiting the parents of one snapshot does to the search of reconcile/ancestry.py.
use mathlib.Core.Path.{subst}
use pyboltzmann.Prelude.{
  ℕ, ◌+◌, ◌≤◌, true, false, not, ◌&&◌, ◌||◌, Option, none, some, List, [], ◌∷◌, ◌++◌, length, ◌≡◌,
  ◌⊎◌, refl, ap, sym, ◌∙◌, arith, inl, inr, Bool-cases, In, here, there, In-cases,
}
use pyboltzmann.Prelude.Order.{◌==◌, ==_sound, ==_refl, ==_complete}
use pyboltzmann.Prelude.Sets.{contains, union, contains-append}
use pyboltzmann.Prelude.Dict.{get}
use pyboltzmann.Prelude.Closure.{missing, missing_le, missing_lt}
use pyboltzmann.Identity.{OciDigest, oci_order}
use pyboltzmann.Reconcile.Ancestry.{Snapshot, History}
use pyboltzmann.Reconcile.Ancestry.Parents.{keys, get-keys}
use pyboltzmann.Reconcile.Ancestor.{Search, include, is_hinted, visit_parent, visit_parents}

pub contains-include :
    (x d : OciDigest) (ds : List OciDigest)
    → contains x (include d ds) ≡ (contains x ds || (x == d))
unfolding include contains
contains-include x d ds = elim (Bool-cases (contains d ds)) [
  | inl e ↦
      let held : (x == d) ≡ true → contains x ds ≡ true =
        λ q. ap (λ y. contains y ds) (==_sound x d q) ∙ e in
      rw e (ground (arith, held))
  | inr n ↦ rw n (ground (arith, contains-append x ds (d ∷ [])))
]

abbrev pub effort : History → Search → ℕ
effort h q = length q.frontier + missing (keys h) q.seen

module _ (h : History) (contained : List OciDigest) where
  -- What the search `to` is after the parents `ps` are visited from `from`.
  pub record Visited (ps : List OciDigest) (from to : Search) : Type 0 where
    pub all_seen : (x : OciDigest) → contains x to.seen ≡ (contains x from.seen || contains x ps)
    pub collected :
        (x : OciDigest)
        → contains x to.candidates ≡ (
            contains x from.candidates
            || (contains x ps && (not (contains x from.seen) && contains x contained)))
    pub kept : (d : OciDigest) (s : Snapshot) → In (d, s) from.frontier → In (d, s) to.frontier
    pub pushed :
        (d : OciDigest) (s : Snapshot)
        → contains d ps ≡ true
        → contains d from.seen ≡ false
        → contains d contained ≡ false
        → get d h ≡ some s
        → In (d, s) to.frontier
    pub origin :
        (d : OciDigest) (s : Snapshot)
        → In (d, s) to.frontier
        → In (d, s) from.frontier ⊎ ((contains d ps ≡ true) × (get d h ≡ some s))
    pub smaller : effort h to ≤ effort h from

  Visited-refl : (from : Search) → Visited [] from from
  unfolding contains
  Visited-refl from = record {
    all_seen = λ x. ground arith;
    collected = λ x. ground arith;
    kept = λ d s i. i;
    pushed = λ d s m n c e. absurd (ground arith);
    origin = λ d s i. inl i;
    smaller = omega arith;
  }

  Visited-trans :
      (ps qs : List OciDigest) (a b c : Search)
      → Visited ps a b
      → Visited qs b c
      → Visited (ps ++ qs) a c
  Visited-trans ps qs a b c v w = record {
    all_seen = λ x. ground (arith, v.all_seen x, w.all_seen x, contains-append x ps qs);
    collected =
        λ x. ground (arith, v.collected x, w.collected x, v.all_seen x, contains-append x ps qs);
    kept = λ d s i. w.kept d s (v.kept d s i);
    pushed = λ d s m n k e. elim (Bool-cases (contains d ps)) [
      | inl p ↦ w.kept d s (v.pushed d s p n k e)
      | inr p ↦
          w.pushed d s (ground (arith, contains-append d ps qs)) (ground (arith, v.all_seen d)) k e
    ];
    origin = λ d s i. elim (w.origin d s i) [
      | inl j ↦ elim (v.origin d s j) [
        | inl k ↦ inl k
        | inr (m, e) ↦ inr (ground (arith, contains-append d ps qs), e)
      ]
      | inr (m, e) ↦ inr (ground (arith, contains-append d ps qs), e)
    ];
    smaller = omega (arith, v.smaller, w.smaller);
  }

  abbrev seeing : Search → OciDigest → List OciDigest
  seeing from p = union from.seen (p ∷ [])

  -- A parent that is shared becomes a candidate.
  abbrev sharing : Search → OciDigest → Search
  sharing from p = record from { seen = seeing from p; candidates = include p from.candidates }

  -- A parent that is not is visited later, if it is held.
  abbrev waiting : Search → OciDigest → List (OciDigest × Snapshot) → Search
  waiting from p frontier = record from { seen = seeing from p; frontier = frontier }

  sharing-Visited :
      (from : Search) (p : OciDigest)
      → contains p from.seen ≡ false
      → contains p contained ≡ true
      → Visited (p ∷ []) from (sharing from p)
  unfolding contains
  sharing-Visited from p n c =
      let fresh : (x : OciDigest)
          → (x == p) ≡ true
          → (not (contains x from.seen) && contains x contained) ≡ true =
        λ x e.
          ap (λ y. not (contains y from.seen) && contains y contained) (==_sound x p e)
          ∙ ground arith in
      record {
        all_seen = λ x. ground (arith, contains-append x from.seen (p ∷ []));
        collected = λ x. ground (arith, contains-include x p from.candidates, fresh x);
        kept = λ d s i. i;
        pushed = λ d s m k q e.
            let it : d ≡ p = ==_sound d p (ground arith) in
            absurd (ground (arith, ap (λ y. contains y contained) it));
        origin = λ d s i. inl i;
        smaller = omega (arith, missing_le (keys h) from.seen (p ∷ []));
      }

  abbrev queue :
      OciDigest → Option Snapshot → List (OciDigest × Snapshot) → List (OciDigest × Snapshot)
  queue p none frontier = frontier
  queue p (some s) frontier = (p, s) ∷ frontier

  waiting-Visited :
      (from : Search) (p : OciDigest) (o : Option Snapshot)
      → get p h ≡ o
      → contains p from.seen ≡ false
      → contains p contained ≡ false
      → Visited (p ∷ []) from (waiting from p (queue p o from.frontier))
  unfolding contains
  waiting-Visited from p none g n c =
      let no_shared : (x : OciDigest) → (x == p) ≡ true → contains x contained ≡ false =
        λ x e. ap (λ y. contains y contained) (==_sound x p e) ∙ c in
      record {
        all_seen = λ x. ground (arith, contains-append x from.seen (p ∷ []));
        collected = λ x. ground (arith, no_shared x);
        kept = λ d s i. i;
        pushed = λ d s m k q e.
            let it : d ≡ p = ==_sound d p (ground arith) in
            absurd (ground (arith, g, e, ap (λ y. get y h) it));
        origin = λ d s i. inl i;
        smaller = omega (arith, missing_le (keys h) from.seen (p ∷ []));
      }
  waiting-Visited from p (some t) g n c =
      let no_shared : (x : OciDigest) → (x == p) ≡ true → contains x contained ≡ false =
        λ x e. ap (λ y. contains y contained) (==_sound x p e) ∙ c in
      let less =
        missing_lt (keys h) from.seen (p ∷ []) p (get-keys h p t g) n (ground (arith, ==_refl p)) in
      record {
        all_seen = λ x. ground (arith, contains-append x from.seen (p ∷ []));
        collected = λ x. ground (arith, no_shared x);
        kept = λ d s i. there i;
        pushed = λ d s m k q e.
            let it : d ≡ p = ==_sound d p (ground arith) in
            let same : s ≡ t = ground (arith, g, e, ap (λ y. get y h) it) in
            subst (λ (v : OciDigest × Snapshot). In v ((p, t) ∷ from.frontier))
              (λ j. (sym it j, sym same j)) here;
        origin = λ d s i. elim (In-cases (p, t) (d, s) from.frontier i) [
          | inl e ↦
              let is_p : p ≡ d = ap (λ (v : OciDigest × Snapshot). v.0) e in
              let is_t : t ≡ s = ap (λ (v : OciDigest × Snapshot). v.1) e in
              inr (
                ground (arith, ==_complete d p (sym is_p)),
                ap (λ y. get y h) (sym is_p) ∙ g ∙ ap some is_t,
              )
          | inr j ↦ inl j
        ];
        smaller = omega (arith, less);
      }

  is_old :
      (from : Search) (p : OciDigest)
      → contains p from.seen ≡ true
      → (x : OciDigest) → contains x (p ∷ []) ≡ true
      → contains x from.seen ≡ true
  unfolding contains
  is_old from p old x m = ap (λ y. contains y from.seen) (==_sound x p (ground arith)) ∙ old

  visit_old :
      (from : Search) (p : OciDigest)
      → contains p from.seen ≡ true
      → from ≡ visit_parent h contained none p from
  unfolding visit_parent
  visit_old from p old = rw (old, visit_parent) refl

  visit_shared :
      (from : Search) (p : OciDigest)
      → contains p from.seen ≡ false
      → contains p contained ≡ true
      → sharing from p ≡ visit_parent h contained none p from
  unfolding visit_parent is_hinted
  visit_shared from p new c = rw (new, c) refl

  visit_waiting :
      (from : Search) (p : OciDigest) (o : Option Snapshot)
      → get p h ≡ o
      → contains p from.seen ≡ false
      → contains p contained ≡ false
      → waiting from p (queue p o from.frontier) ≡ visit_parent h contained none p from
  unfolding visit_parent is_hinted
  visit_waiting from p none g new c = rw (new, c, g) refl
  visit_waiting from p (some t) g new c = rw (new, c, g) refl

  visit_parent-Visited :
      (from : Search) (p : OciDigest) → Visited (p ∷ []) from (visit_parent h contained none p from)
  visit_parent-Visited from p = elim (Bool-cases (contains p from.seen)) [
    | inl old ↦ subst (Visited (p ∷ []) from) (visit_old from p old) (record {
      all_seen = λ x. ground (arith, is_old from p old x);
      collected = λ x. ground (arith, is_old from p old x);
      kept = λ d s i. i;
      pushed = λ d s m n c e. absurd (ground (arith, is_old from p old d));
      origin = λ d s i. inl i;
      smaller = omega arith;
    })
    | inr new ↦ elim (Bool-cases (contains p contained)) [
      | inl c ↦
          subst (Visited (p ∷ []) from) (visit_shared from p new c) (sharing-Visited from p new c)
      | inr c ↦
          subst (Visited (p ∷ []) from) (visit_waiting from p (get p h) refl new c)
            (waiting-Visited from p (get p h) refl new c)
    ]
  ]

  pub visit_parents-Visited :
      (ps : List OciDigest) (from : Search)
      → Visited ps from (visit_parents h contained none ps from)
  unfolding visit_parents
  visit_parents-Visited [] from = Visited-refl from
  visit_parents-Visited (p ∷ ps) from =
      let next : Search = visit_parent h contained none p from in
      Visited-trans (p ∷ []) ps from next (visit_parents h contained none ps next)
        (visit_parent-Visited from p) (visit_parents-Visited ps next)
