-- ===== src/Reconcile/Ancestor/Answer.antt =====
-- What `common_ancestor` of reconcile/ancestry.py answers.
use mathlib.Core.Path.{subst}
use pyboltzmann.Prelude.{
  ◌+◌, true, false, Option, none, some, List, [], ◌∷◌, length, ◌≡◌, ◌⊎◌, refl, ap, sym, ◌∙◌, arith,
  inl, inr, Bool-cases,
}
use pyboltzmann.Prelude.Order.{◌==◌, ==_sound, ==_refl, ==_complete, ==_comm}
use pyboltzmann.Prelude.Sets.{contains}
use pyboltzmann.Prelude.Dict.{get}
use pyboltzmann.Exceptions.{Result, ok, raise, no_common_ancestor, multiple_merge_bases}
use pyboltzmann.Identity.{OciDigest, oci_order}
use pyboltzmann.Reconcile.Ancestry.{Snapshot, History}
use pyboltzmann.Reconcile.Ancestor.{only, common_ancestor}
use pyboltzmann.Reconcile.Ancestor.Laws.{common_ancestor_hint}
use pyboltzmann.Reconcile.Ancestor.Leads.{
  Leads, same, from_theirs, from_held, Leads-Behind, Dominated, best_of_lem,
}
use pyboltzmann.Reconcile.Ancestor.Distinct.{are_distinct, search_loop_distinct, best_of_distinct}
use pyboltzmann.Reconcile.Ancestor.Meeting.{Reached}
use pyboltzmann.Reconcile.Ancestor.Candidates

module _ (h : History) (contained : List OciDigest) (theirs : Snapshot)
    (theirs_digest : OciDigest) where
  abbrev pub Shared : OciDigest → Type 0
  Shared = Candidates.Shared h contained theirs theirs_digest

  abbrev pub Lead : OciDigest → OciDigest → Type 0
  Lead = Leads h theirs theirs_digest

  module _ (held : (s : Snapshot) → get theirs_digest h ≡ some s → s ≡ theirs) where
    -- A shared snapshot that no shared snapshot is ahead of: what leads to it is led to by it.
    abbrev pub IsBest : OciDigest → Type 0
    IsBest a = Shared a × ((b : OciDigest) → Shared b → Lead b a → Lead a b)

    -- One shared snapshot leads to it, and another to that one.
    abbrev pub IsPassed : OciDigest → Type 0
    IsPassed a = (c d : OciDigest) × Shared c × Shared d × (d ≡ c → ⊥) × Lead d c × Lead c a

    -- What the search for a common ancestor comes to.
    pub data Outcome (answer : Result OciDigest) : Type 0 where
      found :
          (a : OciDigest)
          → answer ≡ ok a
          → IsBest a
          → ((b : OciDigest) → Shared b → Lead a b ⊎ IsPassed b)
          → Outcome answer
      several :
          (a b : OciDigest)
          → answer ≡ raise multiple_merge_bases
          → IsBest a
          → IsBest b
          → (Lead a b → ⊥)
          → (Lead b a → ⊥)
          → Outcome answer
      unrelated :
          answer ≡ raise no_common_ancestor
          → ((b : OciDigest) → Shared b → IsPassed b)
          → Outcome answer

    unequal : (x y : OciDigest) → (x == y) ≡ false → x ≡ y → ⊥
    unequal x y n e = ground (arith, ==_complete x y e)

    module _ (r : List OciDigest)
        (meets : Candidates.Meets h contained theirs theirs_digest r) where
      -- A candidate that no other one leads to is best.
      free-IsBest :
          (a : OciDigest)
          → contains a r ≡ true
          → (Dominated h theirs theirs_digest held a r → ⊥)
          → IsBest a
      free-IsBest a k free = (meets.sound a k, ahead)
        where
          by : (c b : OciDigest) → contains c r ≡ true → Lead c a → Lead c b → Lead a b
          by c b m to_a to_b = elim (Bool-cases (c == a)) [
            | inl e ↦ subst (λ y. Lead y b) (==_sound c a e) to_b
            | inr n ↦ absurd (free (c, m, n, to_a))
          ]

          ahead : (b : OciDigest) → Shared b → Lead b a → Lead a b
          ahead b shared (same e) = same (sym e)
          ahead b shared (from_theirs e w) =
              let held_here = ap (λ y. contains y contained) (sym e) ∙ shared.0 in
              by theirs_digest b (meets.own held_here) (from_theirs refl w) (same (sym e))
          ahead b shared (from_held s g w) =
              let (c, m, l) = meets.all_met b shared in
              by c b m (Leads-Behind h theirs theirs_digest c b s a l g w) l

      Dominated-IsPassed :
          (c a : OciDigest)
          → contains c r ≡ true
          → Lead c a
          → Dominated h theirs theirs_digest held c r
          → IsPassed a
      Dominated-IsPassed c a k l (d, m, n, to) =
          (c, d, meets.sound c k, meets.sound d m, unequal d c n, to, l)

      only-Outcome :
          (best : List OciDigest)
          → are_distinct best ≡ true
          → ((c : OciDigest)
              → contains c best ≡ true
              → (contains c r ≡ true) × (Dominated h theirs theirs_digest held c r → ⊥))
          → ((c : OciDigest)
              → contains c r ≡ true
              → (contains c best ≡ true) ⊎ Dominated h theirs theirs_digest held c r)
          → Outcome (only best)
      unfolding only contains are_distinct
      only-Outcome [] u inside covers = unrelated refl (λ b shared.
          let (c, m, l) = meets.all_met b shared in
          elim (covers c m) [
            | inl k ↦ absurd (ground arith)
            | inr w ↦ Dominated-IsPassed c b m l w
          ])
      only-Outcome (a ∷ []) u inside covers =
          let (k, free) = inside a (ground (arith, ==_refl a)) in
          found a refl (free-IsBest a k free) (λ b shared.
            let (c, m, l) = meets.all_met b shared in
            elim (covers c m) [
              | inl q ↦ inl (subst (λ y. Lead y b) (==_sound c a (ground arith)) l)
              | inr w ↦ inr (Dominated-IsPassed c b m l w)
            ])
      only-Outcome (a ∷ b ∷ ds) u inside covers =
          let (k, free) = inside a (ground (arith, ==_refl a)) in
          let (q, clear) = inside b (ground (arith, ==_refl b)) in
          let apart : (a == b) ≡ false = ground arith in
          several a b refl (free-IsBest a k free) (free-IsBest b q clear)
            (λ l. clear (a, k, apart, l)) (λ l. free (b, q, ground (arith, ==_comm a b), l))

    -- Where the store holds the other head's own document under its digest, if it holds one, the search
    -- ends, with any hint. Shared are the snapshots of our history that are the other head or behind it.
    -- An answer is a shared snapshot that no shared one is ahead of, and it leads to all the shared ones but
    -- those that are passed: one shared snapshot leads to them, and another to that one. The search is
    -- refused for several bases if there are two that neither leads to the other and that no shared snapshot
    -- is ahead of, and for none if all the shared ones are passed.
    pub common_ancestor-Outcome :
        (hint : Option OciDigest) → Outcome (common_ancestor h contained theirs theirs_digest hint)
    unfolding common_ancestor are_distinct
    common_ancestor-Outcome hint =
        let (r, run, meets) = Candidates.search-Meets h contained theirs theirs_digest held in
        let (best, chosen, inside, covers) = best_of_lem h theirs theirs_digest held r r in
        let each =
          search_loop_distinct h contained none (length h + 2) [] (theirs_digest ∷ [])
            ((theirs_digest, theirs) ∷ []) r refl run in
        let answer : common_ancestor h contained theirs theirs_digest hint ≡ only best =
          common_ancestor_hint h contained theirs theirs_digest hint ∙ rw (run, chosen) refl in
        subst Outcome (sym answer) (
          only-Outcome r meets best (best_of_distinct h theirs theirs_digest r r best chosen each).0
            inside covers)

    empty_best : (cs : List OciDigest) → ((c : OciDigest) → contains c cs ≡ true → ⊥) → cs ≡ []
    unfolding contains
    empty_best [] f = refl
    empty_best (c ∷ cs) f = absurd (f c (ground (arith, ==_refl c)))

    -- Histories that share no snapshot are refused as unrelated, with any hint.
    pub common_ancestor_unrelated :
        (hint : Option OciDigest)
        → ((a : OciDigest)
            → contains a contained ≡ true
            → Reached h contained theirs theirs_digest a
            → ⊥)
        → common_ancestor h contained theirs theirs_digest hint ≡ raise no_common_ancestor
    unfolding common_ancestor only
    common_ancestor_unrelated hint apart =
        let (r, run, meets) = Candidates.search-Meets h contained theirs theirs_digest held in
        let (best, chosen, inside, _) = best_of_lem h theirs theirs_digest held r r in
        let none_left =
          empty_best best
            (λ c m. let shared = meets.sound c (inside c m).0 in apart c shared.0 shared.1) in
        common_ancestor_hint h contained theirs theirs_digest hint
        ∙ rw (run, chosen, none_left) refl
