-- ===== src/Reconcile/Ancestor/Candidates.antt =====
-- The candidates that `common_ancestor` of reconcile/ancestry.py collects.
use mathlib.Core.Path.{subst}
use pyboltzmann.Prelude.{
  ℕ, zero, suc, ◌+◌, ◌<◌, true, none, some, List, [], ◌∷◌, length, ◌≡◌, ◌⊎◌, refl, ap, sym, ◌∙◌,
  arith, inl, inr, Bool-cases, In, here, In-nil,
}
use pyboltzmann.Prelude.Order.{==_sound, ==_refl}
use pyboltzmann.Prelude.Sets.{contains}
use pyboltzmann.Prelude.Dict.{get}
use pyboltzmann.Prelude.Closure.{missing, missing-le-length}
use pyboltzmann.Exceptions.{ok}
use pyboltzmann.Identity.{OciDigest, oci_order}
use pyboltzmann.Reconcile.Ancestry.{Snapshot, History}
use pyboltzmann.Reconcile.Ancestry.Laws.{parent, further}
use pyboltzmann.Reconcile.Ancestry.Parents.{keys, length-keys}
use pyboltzmann.Reconcile.Ancestor.{Search, include, visit_parents, search_loop}
use pyboltzmann.Reconcile.Ancestor.Leads.{Leads, same, from_theirs, from_held, Leads-further}
use pyboltzmann.Reconcile.Ancestor.Visit.{visit_parents-Visited}
use pyboltzmann.Reconcile.Ancestor.Meeting.{Reached, IsHunt, popped, shared-IsHunt, Visited-IsHunt}

module _ (h : History) (contained : List OciDigest) (theirs : Snapshot)
    (theirs_digest : OciDigest) where
  abbrev pub Shared : OciDigest → Type 0
  Shared d = (contains d contained ≡ true) × Reached h contained theirs theirs_digest d

  abbrev pub Lead : OciDigest → OciDigest → Type 0
  Lead = Leads h theirs theirs_digest

  abbrev pub Met : OciDigest → List OciDigest → Type 0
  Met a candidates = (c : OciDigest) × (contains c candidates ≡ true) × Lead c a

  -- What the candidates of the search are: shared snapshots, that lead to all the shared ones.
  pub record Meets (candidates : List OciDigest) : Type 0 where
    pub sound : (c : OciDigest) → contains c candidates ≡ true → Shared c
    pub all_met : (a : OciDigest) → Shared a → Met a candidates
    pub own : contains theirs_digest contained ≡ true → contains theirs_digest candidates ≡ true

  led_or_seen :
      (candidates seen : List OciDigest)
      → IsHunt h contained theirs theirs_digest candidates seen []
      → (d : OciDigest) → Reached h contained theirs theirs_digest d
      → Met d candidates ⊎ (contains d seen ≡ true)
  led_or_seen candidates seen w d (inl e) = inr (ap (λ y. contains y seen) e ∙ w.rooted)
  led_or_seen candidates seen w d (inr (parent m)) = elim w.settled_head [
    | inl k ↦ elim (w.collected theirs_digest w.rooted k) [
      | inl c ↦ inl (theirs_digest, c, from_theirs refl (parent m))
      | inr (s, i) ↦ absurd (In-nil (theirs_digest, s) i)
    ]
    | inr (inl i) ↦ absurd (In-nil (theirs_digest, theirs) i)
    | inr (inr f) ↦ inr (f d m)
  ]
  led_or_seen candidates seen w p (inr (further {d = d} {s = s} b e m)) =
      elim (led_or_seen candidates seen w d (inr b)) [
        | inl (c, k, l) ↦ inl (c, k, Leads-further h theirs theirs_digest c d p s l e m)
        | inr q ↦ elim (w.settled d s q e) [
          | inl k ↦ elim (w.collected d q k) [
            | inl c ↦ inl (d, c, from_held s e (parent m))
            | inr (t, i) ↦ absurd (In-nil (d, t) i)
          ]
          | inr (inl i) ↦ absurd (In-nil (d, s) i)
          | inr (inr f) ↦ inr (f p m)
        ]
      ]

  search_loop-Meets :
      (fuel : ℕ) (candidates seen : List OciDigest) (frontier : List (OciDigest × Snapshot))
      → IsHunt h contained theirs theirs_digest candidates seen frontier
      → length frontier + missing (keys h) seen < fuel
      → (r : List OciDigest) × (search_loop fuel h contained none candidates seen frontier ≡ ok r)
        × Meets r
  unfolding search_loop
  search_loop-Meets zero candidates seen frontier w f = absurd (omega arith)
  search_loop-Meets (suc fuel) candidates seen [] w f = (
    candidates,
    refl,
    record {
      sound = w.common;
      own = λ k. elim (w.collected theirs_digest w.rooted k) [
        | inl c ↦ c
        | inr (s, i) ↦ absurd (In-nil (theirs_digest, s) i)
      ];
      all_met = λ a (k, r). elim (led_or_seen candidates seen w a r) [
        | inl c ↦ c
        | inr q ↦ elim (w.collected a q k) [
          | inl c ↦ (a, c, same refl)
          | inr (s, i) ↦ absurd (In-nil (a, s) i)
        ]
      ];
    },
  )
  search_loop-Meets (suc fuel) candidates seen ((d, s) ∷ frontier) w f =
      elim (Bool-cases (contains d contained)) [
        | inl k ↦
            let (r, run, m) =
              search_loop-Meets fuel (include d candidates) seen frontier
                (shared-IsHunt h contained theirs theirs_digest d s frontier candidates seen w k)
                (omega arith) in
            (r, rw (k, search_loop) run, m)
        | inr n ↦
            let from : Search = record {
              candidates = candidates;
              seen = seen;
              frontier = frontier;
            } in
            let to : Search = visit_parents h contained none s.parents from in
            let v = visit_parents-Visited h contained s.parents from in
            let (r, run, m) =
              search_loop-Meets fuel to.candidates to.seen to.frontier
                (Visited-IsHunt h contained theirs theirs_digest d s frontier candidates seen to w n
                  v)
                (omega (arith, v.smaller)) in
            (r, rw (n, search_loop) run, m)
      ]

  first :
      (d : OciDigest) (s : Snapshot)
      → d ≡ theirs_digest
      → s ≡ theirs
      → In {A = OciDigest × Snapshot} (d, s) ((theirs_digest, theirs) ∷ [])
  first d s p q =
      subst
        (λ (v : OciDigest × Snapshot).
          In {A = OciDigest × Snapshot} v ((theirs_digest, theirs) ∷ []))
        (λ j. (sym p j, sym q j)) here

  pub search-Meets :
      ((s : Snapshot) → get theirs_digest h ≡ some s → s ≡ theirs)
      → (r : List OciDigest) × (search_loop
            (length h + 2)
            h
            contained
            none
            []
            (theirs_digest ∷ [])
            ((theirs_digest, theirs) ∷ [])
          ≡ ok r)
        × Meets r
  unfolding contains
  search-Meets held =
      let start : IsHunt h contained theirs theirs_digest [] (theirs_digest ∷ [])
          ((theirs_digest, theirs) ∷ []) =
        record {
          common = λ c m. absurd (ground arith);
          waiting = λ d s i.
              elim (popped h contained theirs theirs_digest theirs_digest theirs [] d s i) [
                | inl (p, q) ↦ (inl (sym p), λ x m. parent (ap (λ t. contains x t.parents) q ∙ m))
                | inr j ↦ absurd (In-nil (d, s) j)
              ];
          collected =
              λ d m k. inr (theirs, first d theirs (==_sound d theirs_digest (ground arith)) refl);
          settled_head = inr (inl here);
          settled = λ d s m e.
              let it : d ≡ theirs_digest = ==_sound d theirs_digest (ground arith) in
              inr (inl (first d s it (held s (ap (λ y. get y h) (sym it) ∙ e))));
          rooted = ground (arith, ==_refl theirs_digest);
        } in
      let enough = missing-le-length (keys h) (theirs_digest ∷ []) in
      search_loop-Meets (length h + 2) [] (theirs_digest ∷ []) ((theirs_digest, theirs) ∷ []) start
        (omega (arith, enough, length-keys h))
