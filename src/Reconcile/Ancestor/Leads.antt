-- ===== src/Reconcile/Ancestor/Leads.antt =====
-- Which snapshots `common_ancestor` of reconcile/ancestry.py finds behind which.
use mathlib.Core.Path.{subst}
use pyboltzmann.Prelude.{
  Bool, true, false, none, some, List, [], ◌∷◌, ◌≡◌, ◌⊎◌, refl, ap, sym, ◌∙◌, arith, inl, inr,
  Bool-cases, Option-cases, false≢true,
}
use pyboltzmann.Prelude.Order.{◌==◌, ==_sound, ==_refl, ==_complete}
use pyboltzmann.Prelude.Sets.{contains}
use pyboltzmann.Prelude.Dict.{get}
use pyboltzmann.Exceptions.{ok}
use pyboltzmann.Identity.{OciDigest, oci_order}
use pyboltzmann.Reconcile.Ancestry.{Snapshot, History, is_resolvable, snapshot_at, digest_reaches}
use pyboltzmann.Reconcile.Ancestry.Laws.{Behind, parent, further, reaches-Behind}
use pyboltzmann.Reconcile.Ancestor.{is_behind_another, best_of}

module _ (h : History) (theirs : Snapshot) (theirs_digest : OciDigest) where
  -- The second snapshot is the first or behind it, by the documents that are held and that of the other
  -- head.
  pub data Leads (x y : OciDigest) : Type 0 where
    same : x ≡ y → Leads x y
    from_theirs : x ≡ theirs_digest → Behind h theirs y → Leads x y
    from_held : (s : Snapshot) → get x h ≡ some s → Behind h s y → Leads x y

  -- What a held snapshot adds to what leads to it.
  pub Leads-further :
      (x y z : OciDigest) (s : Snapshot)
      → Leads x y
      → get y h ≡ some s
      → contains z s.parents ≡ true
      → Leads x z
  Leads-further x y z s (same e) g m = from_held s (ap (λ k. get k h) e ∙ g) (parent m)
  Leads-further x y z s (from_theirs e b) g m = from_theirs e (further b g m)
  Leads-further x y z s (from_held t e b) g m = from_held t e (further b g m)

  pub Leads-Behind :
      (x y : OciDigest) (s : Snapshot) (z : OciDigest)
      → Leads x y
      → get y h ≡ some s
      → Behind h s z
      → Leads x z
  Leads-Behind x y s z l g (parent m) = Leads-further x y z s l g m
  Leads-Behind x y s z l g (further {d = d} {s = t} b e m) =
      Leads-further x d z t (Leads-Behind x y s d l g b) e m

  module _ (held : (s : Snapshot) → get theirs_digest h ≡ some s → s ≡ theirs) where
    Leads-theirs :
        (other target : OciDigest)
        → other ≡ theirs_digest
        → Leads other target
        → (theirs_digest ≡ target) ⊎ Behind h theirs target
    Leads-theirs other target e (same q) = inl (sym e ∙ q)
    Leads-theirs other target e (from_theirs q b) = inr b
    Leads-theirs other target e (from_held s g b) =
        let own = held s (ap (λ k. get k h) (sym e) ∙ g) in
        inr (subst (λ t. Behind h t target) own b)

    Leads-held :
        (other target : OciDigest) (s : Snapshot)
        → (other == theirs_digest) ≡ false
        → get other h ≡ some s
        → Leads other target
        → (other ≡ target) ⊎ Behind h s target
    Leads-held other target s n g (same q) = inl q
    Leads-held other target s n g (from_theirs q b) =
        absurd (ground (arith, ==_complete other theirs_digest q))
    Leads-held other target s n g (from_held t e b) =
        inr (subst (λ u. Behind h u target) (ground (arith, g, e)) b)

    Leads-lost :
        (other target : OciDigest)
        → (other == target) ≡ false
        → (other == theirs_digest) ≡ false
        → get other h ≡ none
        → Leads other target
        → ⊥
    Leads-lost other target n k g (same q) = ground (arith, ==_complete other target q)
    Leads-lost other target n k g (from_theirs q b) =
        ground (arith, ==_complete other theirs_digest q)
    Leads-lost other target n k g (from_held t e b) = ground arith

    pub digest_reaches_lem :
        (other target : OciDigest)
        → (b : Bool) × (digest_reaches h other target theirs theirs_digest ≡ ok b)
          × (b ≡ true → Leads other target)
          × (Leads other target → b ≡ true)
    unfolding digest_reaches is_resolvable snapshot_at
    digest_reaches_lem other target = elim (Bool-cases (other == target)) [
      | inl e ↦ (true, rw e refl, (λ t. same (==_sound other target e)), λ l. refl)
      | inr n ↦ elim (Bool-cases (other == theirs_digest)) [
        | inl e ↦
            let it = ==_sound other theirs_digest e in
            let (b, run, exact) = reaches-Behind h theirs theirs_digest target held in
            (
              b,
              ground (arith, n, e, run),
              λ t. elim (exact.0 t) [ inl q ↦ same (it ∙ q) | inr w ↦ from_theirs it w ],
              λ l. exact.1 (Leads-theirs other target it l),
            )
        | inr k ↦ elim (Option-cases (get other h)) [
          | inl e ↦ (
            false,
            ground (arith, n, k, e),
            λ t. absurd (false≢true t),
            λ l. absurd (Leads-lost other target n k e l),
          )
          | inr (s, e) ↦
              let own : (t : Snapshot) → get other h ≡ some t → t ≡ s =
                λ t g. ground (arith, e, g) in
              let (b, run, exact) = reaches-Behind h s other target own in
              (
                b,
                ground (arith, n, k, e, run),
                λ t. elim (exact.0 t) [ inl q ↦ same q | inr w ↦ from_held s e w ],
                λ l. exact.1 (Leads-held other target s k e l),
              )
        ]
      ]
    ]

    -- Another of the given snapshots leads to it.
    abbrev pub Dominated : OciDigest → List OciDigest → Type 0
    Dominated c others =
        (other : OciDigest) × (contains other others ≡ true)
        × ((other == c) ≡ false)
        × Leads other c

    Dominated-cons :
        (c other : OciDigest) (others : List OciDigest)
        → Dominated c others
        → Dominated c (other ∷ others)
    unfolding contains
    Dominated-cons c other others (o, m, n, l) = (o, ground arith, n, l)

    Dominated-tail :
        (c other : OciDigest) (others : List OciDigest)
        → (((other == c) ≡ true) ⊎ (Leads other c → ⊥))
        → Dominated c (other ∷ others)
        → Dominated c others
    unfolding contains
    Dominated-tail c other others not_this (o, m, n, l) = elim (Bool-cases (o == other)) [
      | inl e ↦
          let it = ==_sound o other e in
          elim not_this [
            | inl q ↦ absurd (ground (arith, ap (λ y. y == c) it))
            | inr f ↦ absurd (f (subst (λ y. Leads y c) it l))
          ]
      | inr k ↦ (o, ground arith, n, l)
    ]

    is_behind_another_lem :
        (c : OciDigest) (others : List OciDigest)
        → (b : Bool) × (is_behind_another h theirs theirs_digest c others ≡ ok b)
          × (b ≡ true → Dominated c others)
          × (Dominated c others → b ≡ true)
    unfolding is_behind_another contains
    is_behind_another_lem c [] =
        (false, refl, (λ t. absurd (false≢true t)), λ (o, m, n, l). absurd (ground arith))
    is_behind_another_lem c (other ∷ others) =
        let (rest, later, to, fro) = is_behind_another_lem c others in
        elim (Bool-cases (other == c)) [
          | inl e ↦ (
            rest,
            ground (arith, e, later),
            λ t. Dominated-cons c other others (to t),
            λ w. fro (Dominated-tail c other others (inl e) w),
          )
          | inr n ↦
              let (b, run, leads, led) = digest_reaches_lem other c in
              elim (Bool-cases b) [
                | inl t ↦ (
                  true,
                  ground (arith, n, run, t),
                  λ _. (other, ground (arith, ==_refl other), n, leads t),
                  λ _. refl,
                )
                | inr f ↦ (
                  rest,
                  ground (arith, n, run, f, later),
                  λ t. Dominated-cons c other others (to t),
                  λ w.
                      fro (Dominated-tail c other others (inr (λ l. false≢true (sym f ∙ led l))) w),
                )
              ]
        ]

    -- What is kept of the candidates are those that no other one leads to.
    pub best_of_lem :
        (candidates cs : List OciDigest)
        → (best : List OciDigest) × (best_of h theirs theirs_digest candidates cs ≡ ok best)
          × ((c : OciDigest)
              → contains c best ≡ true
              → (contains c cs ≡ true) × (Dominated c candidates → ⊥))
          × ((c : OciDigest)
              → contains c cs ≡ true
              → (contains c best ≡ true) ⊎ Dominated c candidates)
    unfolding best_of contains
    best_of_lem candidates [] =
        ([], refl, (λ c m. absurd (ground arith)), λ c m. absurd (ground arith))
    best_of_lem candidates (c ∷ cs) =
        let (b, run, behind, ahead) = is_behind_another_lem c candidates in
        let (rest, later, inside, covers) = best_of_lem candidates cs in
        elim (Bool-cases b) [
          | inl t ↦ (
            rest,
            ground (arith, run, later, t),
            λ x m. let (k, free) = inside x m in (ground arith, free),
            λ x m. elim (Bool-cases (x == c)) [
              | inl e ↦ inr (subst (λ y. Dominated y candidates) (sym (==_sound x c e)) (behind t))
              | inr n ↦ covers x (ground arith)
            ],
          )
          | inr f ↦ (
            c ∷ rest,
            ground (arith, run, later, f),
            λ x m. elim (Bool-cases (x == c)) [
              | inl e ↦ (
                ground arith,
                λ w.
                    false≢true
                      (sym f ∙ ahead (subst (λ y. Dominated y candidates) (==_sound x c e) w)),
              )
              | inr n ↦ let (k, free) = inside x (ground arith) in (ground arith, free)
            ],
            λ x m. elim (Bool-cases (x == c)) [
              | inl e ↦ inl (ground arith)
              | inr n ↦ elim (covers x (ground arith)) [
                | inl k ↦ inl (ground arith)
                | inr d ↦ inr d
              ]
            ],
          )
        ]
