-- ===== src/Reconcile/Ancestor/Meeting.antt =====
-- The search of reconcile/ancestry.py ends, and its candidates are shared snapshots, at least one where
-- the histories share any.
use mathlib.Core.Path.{subst}
use pyboltzmann.Prelude.{
  true, false, some, List, ◌∷◌, ◌≡◌, ◌⊎◌, ap, sym, ◌∙◌, arith, inl, inr, Bool-cases, In, here,
  there, In-cases, false≢true,
}
use pyboltzmann.Prelude.Order.{◌==◌, ==_sound, ==_complete}
use pyboltzmann.Prelude.Sets.{contains}
use pyboltzmann.Prelude.Dict.{get}
use pyboltzmann.Identity.{OciDigest, oci_order}
use pyboltzmann.Reconcile.Ancestry.{Snapshot, History}
use pyboltzmann.Reconcile.Ancestry.Laws.{Behind, further}
use pyboltzmann.Reconcile.Ancestor.{Search, include}
use pyboltzmann.Reconcile.Ancestor.Visit.{contains-include, Visited}

module _ (h : History) (contained : List OciDigest) (theirs : Snapshot)
    (theirs_digest : OciDigest) where
  -- The other head, or a snapshot behind it.
  abbrev pub Reached : OciDigest → Type 0
  Reached d = (d ≡ theirs_digest) ⊎ Behind h theirs d

  abbrev pub AllSeen : Snapshot → List OciDigest → Type 0
  AllSeen s seen = (p : OciDigest) → contains p s.parents ≡ true → contains p seen ≡ true

  -- A snapshot is shared, waits, or has its parents seen.
  abbrev pub Settled : OciDigest → Snapshot → List OciDigest → List (OciDigest × Snapshot) → Type 0
  Settled d s seen frontier = (contains d contained ≡ true) ⊎ (In (d, s) frontier ⊎ AllSeen s seen)

  pub record IsHunt (candidates seen : List OciDigest) (frontier : List (OciDigest × Snapshot))
      : Type 0 where
    pub common :
        (c : OciDigest) → contains c candidates ≡ true → (contains c contained ≡ true) × Reached c
    pub waiting :
        (d : OciDigest) (s : Snapshot)
        → In (d, s) frontier
        → Reached d × ((p : OciDigest) → contains p s.parents ≡ true → Behind h theirs p)
    pub collected :
        (d : OciDigest)
        → contains d seen ≡ true
        → contains d contained ≡ true
        → (contains d candidates ≡ true) ⊎ ((s : Snapshot) × In (d, s) frontier)
    pub settled_head : Settled theirs_digest theirs seen frontier
    pub settled :
        (d : OciDigest) (s : Snapshot)
        → contains d seen ≡ true
        → get d h ≡ some s
        → Settled d s seen frontier
    pub rooted : contains theirs_digest seen ≡ true

  module _ (d : OciDigest) (s : Snapshot) (frontier : List (OciDigest × Snapshot)) where
    -- The entry that is popped, by its components.
    pub popped :
        (e : OciDigest) (t : Snapshot)
        → In (e, t) ((d, s) ∷ frontier)
        → ((d ≡ e) × (s ≡ t)) ⊎ In (e, t) frontier
    popped e t i = elim (In-cases (d, s) (e, t) frontier i) [
      | inl q ↦
          inl (ap (λ (v : OciDigest × Snapshot). v.0) q, ap (λ (v : OciDigest × Snapshot). v.1) q)
      | inr j ↦ inr j
    ]

    pub shared-IsHunt :
        (candidates seen : List OciDigest)
        → IsHunt candidates seen ((d, s) ∷ frontier)
        → contains d contained ≡ true
        → IsHunt (include d candidates) seen frontier
    shared-IsHunt candidates seen w c = record {
      common = λ x m. elim (Bool-cases (x == d)) [
        | inl e ↦
            let it : x ≡ d = ==_sound x d e in
            (ap (λ y. contains y contained) it ∙ c, subst Reached (sym it) (w.waiting d s here).0)
        | inr n ↦ w.common x (ground (arith, contains-include x d candidates))
      ];
      waiting = λ e t i. w.waiting e t (there i);
      collected = λ e m k. elim (w.collected e m k) [
        | inl q ↦ inl (ground (arith, contains-include e d candidates))
        | inr (t, i) ↦ elim (popped e t i) [
          | inl (q, _) ↦
              inl (ground (arith, contains-include e d candidates, ==_complete e d (sym q)))
          | inr j ↦ inr (t, j)
        ]
      ];
      settled_head = left theirs_digest theirs w.settled_head;
      settled = λ e t m g. left e t (w.settled e t m g);
      rooted = w.rooted;
    }
      where
        left :
            (e : OciDigest) (t : Snapshot)
            → Settled e t seen ((d, s) ∷ frontier)
            → Settled e t seen frontier
        left e t (inl k) = inl k
        left e t (inr (inr f)) = inr (inr f)
        left e t (inr (inl i)) = elim (popped e t i) [
          | inl (q, _) ↦ inl (ap (λ y. contains y contained) (sym q) ∙ c)
          | inr j ↦ inr (inl j)
        ]

    pub Visited-IsHunt :
        (candidates seen : List OciDigest) (to : Search)
        → IsHunt candidates seen ((d, s) ∷ frontier)
        → contains d contained ≡ false
        → Visited h contained s.parents
            (record { candidates = candidates; seen = seen; frontier = frontier })
            to
        → IsHunt to.candidates to.seen to.frontier
    Visited-IsHunt candidates seen to w n v = record {
      common = λ x m. elim (Bool-cases (contains x candidates)) [
        | inl e ↦ w.common x e
        | inr e ↦ (
          ground (arith, v.collected x),
          inr ((w.waiting d s here).1 x (ground (arith, v.collected x))),
        )
      ];
      waiting = λ e t i. elim (v.origin e t i) [
        | inl j ↦ w.waiting e t (there j)
        | inr (m, g) ↦ let b = (w.waiting d s here).1 e m in (inr b, λ p k. further b g k)
      ];
      collected = λ e m k. elim (Bool-cases (contains e seen)) [
        | inl q ↦ elim (w.collected e q k) [
          | inl old ↦ inl (ground (arith, v.collected e))
          | inr (t, i) ↦ elim (popped e t i) [
            | inl (same, _) ↦ absurd (false≢true (sym n ∙ ap (λ y. contains y contained) same ∙ k))
            | inr j ↦ inr (t, v.kept e t j)
          ]
        ]
        | inr q ↦ inl (ground (arith, v.collected e, v.all_seen e))
      ];
      settled_head = left theirs_digest theirs w.settled_head;
      settled = λ e t m g. elim (Bool-cases (contains e seen)) [
        | inl q ↦ left e t (w.settled e t q g)
        | inr q ↦ elim (Bool-cases (contains e contained)) [
          | inl k ↦ inl k
          | inr k ↦ inr (inl (v.pushed e t (ground (arith, v.all_seen e)) q k g))
        ]
      ];
      rooted = ground (arith, v.all_seen theirs_digest, w.rooted);
    }
      where
        left :
            (e : OciDigest) (t : Snapshot)
            → Settled e t seen ((d, s) ∷ frontier)
            → Settled e t to.seen to.frontier
        left e t (inl k) = inl k
        left e t (inr (inr f)) = inr (inr (λ p m. ground (arith, v.all_seen p, f p m)))
        left e t (inr (inl i)) = elim (popped e t i) [
          | inl (_, same) ↦
              inr (inr (λ p m. ground (arith, v.all_seen p, ap (λ q. contains p q.parents) same)))
          | inr j ↦ inr (inl (v.kept e t j))
        ]
