-- ===== src/Module/Ledger/Queries.antt =====
-- The queries of module/ledger.py against the records that `Ledger.of` could read.
use pyboltzmann.Prelude.{
  Bool, true, false, ◌&&◌, ◌||◌, Option, none, some, List, [], ◌∷◌, ◌≡◌, refl, ◌↔◌, false≢true, ap,
  ◌∙◌, sym, arith, inl, inr, Bool-cases,
}
use pyboltzmann.Prelude.Order.{◌==◌, ==_sound, ==_refl}
use pyboltzmann.Prelude.Sets.{contains}
use pyboltzmann.Prelude.Dict.{Dict, get, set_at, add_at, contains-add_at}
use pyboltzmann.Exceptions.{Result, ok}
use pyboltzmann.Identity.{BlockId, block_order}
use pyboltzmann.Module.Ledger.{
  Ledger, Collaborator, Event, registration, normalization, derivation, supersession, demotion,
  validation, removal, Entry, empty, add_dependents, absorb_event, absorb, of_blocks, ledger_of,
  dependents_of, successors_of, is_accessible,
}
use pyboltzmann.Module.Ledger.Records.{
  supersedes, cites, demotes, recorded, IsGathered, of_blocks-IsGathered,
}
use pyboltzmann.Module.Ledger.Precedence.{
  by_event, superseded_cases, IsCoherent, absorb_event-IsCoherent, absorb_event-successors_of,
}

contains-add_dependents :
    (d c b : BlockId) (froms : List BlockId) (m : Dict BlockId (List BlockId))
    → contains d (set_at c (add_dependents b froms m))
      ≡ (contains d (set_at c m) || ((d == b) && contains c froms))
unfolding add_dependents contains
contains-add_dependents d c b [] m = ground arith
contains-add_dependents d c b (f ∷ froms) m = ground (
  arith,
  contains-add_dependents d c b froms (add_at f b m),
  contains-add_at f c b d m,
  ==_sound f c,
  ==_sound c f,
  ==_refl c,
)

absorb_event-dependents_of :
    (d c : BlockId) (l : Ledger) (e : Event) (i : BlockId)
    → contains d (dependents_of (absorb_event l e i) c)
      ≡ (contains d (dependents_of l c) || cites d c e)
unfolding absorb_event cites
absorb_event-dependents_of d c l (registration _) i = ground arith
absorb_event-dependents_of d c l (normalization _) i = ground arith
absorb_event-dependents_of d c l (derivation b froms _ _) i =
    contains-add_dependents d c b froms l.dependents
absorb_event-dependents_of d c l (demotion _) i = ground arith
absorb_event-dependents_of d c l (validation _ _) i = ground arith
absorb_event-dependents_of d c l (removal _) i = ground arith
absorb_event-dependents_of d c l (supersession new old) i = ground arith

absorb_event-demoted :
    (b : BlockId) (l : Ledger) (e : Event) (i : BlockId)
    → contains b (absorb_event l e i).demoted ≡ (contains b l.demoted || demotes b e)
unfolding absorb_event demotes contains
absorb_event-demoted b l (registration _) i = ground arith
absorb_event-demoted b l (normalization _) i = ground arith
absorb_event-demoted b l (derivation _ _ _ _) i = ground arith
absorb_event-demoted b l (demotion _) i = ground arith
absorb_event-demoted b l (validation _ _) i = ground arith
absorb_event-demoted b l (removal _) i = ground arith
absorb_event-demoted b l (supersession _ _) i = ground arith

module _ (resolvable : BlockId → Bool) (read : BlockId → Result (Option Entry)) where
  gather :
      (ask : Ledger → Bool) (test : Event → Bool)
      → ((l : Ledger) (d : Dict BlockId (List Collaborator))
          → ask (record l { assistance = d }) ≡ ask l)
      → ((l : Ledger) (e : Event) (i : BlockId)
          → IsCoherent l
          → ask (absorb_event l e i) ≡ (ask l || test e))
      → IsGathered resolvable read IsCoherent ask test
  gather ask test quiet step = record {
    keeps = λ l e i c. by_event IsCoherent l e i (λ d.
        absorb_event-IsCoherent (record l { assistance = d }) e.event i (record { held = c.held }));
    grows = λ l e i c.
        by_event (λ m. ask m ≡ (ask l || test e.event)) l e i
          (λ d.
            step (record l { assistance = d }) e.event i (record { held = c.held })
            ∙ ap (λ a. a || test e.event) (quiet l d));
  }

  -- Every resolvable block can be read.
  abbrev pub Reads : List BlockId → Type 0
  Reads bs =
      (b : BlockId)
      → contains b bs ≡ true
      → resolvable b ≡ true
      → (found : Option Entry) × (read b ≡ ok found)

  of_blocks-Reads :
      (bs : List BlockId) (l : Ledger)
      → Reads bs
      → (r : Ledger) × (of_blocks resolvable read bs l ≡ ok r)
  unfolding of_blocks contains
  of_blocks-Reads [] l reads = (l, refl)
  of_blocks-Reads (b ∷ bs) l reads =
      let later : Reads bs = λ c h. reads c (ground (arith, h)) in
      elim (Bool-cases (resolvable b)) [
        | inl e ↦
            let (found, f) = reads b (ground (arith, ==_refl b)) e in
            let (r, q) =
              of_blocks-Reads bs (elim found [ none ↦ l | some entry ↦ absorb l entry b ]) later in
            (r, ground (arith, q, e, f))
        | inr n ↦ let (r, q) = of_blocks-Reads bs l later in (r, ground (arith, q, n))
      ]

  -- Where every resolvable block can be read, the ledger is read.
  pub ledger_of-Reads :
      (bs : List BlockId) → Reads bs → (l : Ledger) × (ledger_of resolvable read (some bs) ≡ ok l)
  unfolding ledger_of
  ledger_of-Reads bs reads = of_blocks-Reads bs empty reads

  empty-IsCoherent : IsCoherent empty
  unfolding get
  empty-IsCoherent = record { held = λ b. tt }

  module _ (bs : List BlockId) (l : Ledger) (run : ledger_of resolvable read (some bs) ≡ ok l) where
    -- The successors of a block are those that some readable record names, whatever order the records
    -- were read in.
    pub successors_of-recorded :
        (s b : BlockId)
        → contains s (successors_of l b) ≡ recorded resolvable read bs (supersedes s b)
    unfolding ledger_of successors_of get contains
    successors_of-recorded s b =
        let g =
          gather (λ m. contains s (successors_of m b)) (supersedes s b) (λ m d. refl)
            (absorb_event-successors_of s b) in
        (of_blocks-IsGathered resolvable read _ _ g bs empty l empty-IsCoherent run).1

    -- The dependents of a block are those that some readable derivation record derives from it.
    pub dependents_of-recorded :
        (d c : BlockId) → contains d (dependents_of l c) ≡ recorded resolvable read bs (cites d c)
    unfolding ledger_of set_at get contains
    dependents_of-recorded d c =
        let g =
          gather (λ m. contains d (dependents_of m c)) (cites d c) (λ m a. refl)
            (λ m e i _. absorb_event-dependents_of d c m e i) in
        (of_blocks-IsGathered resolvable read _ _ g bs empty l empty-IsCoherent run).1

    demoted-recorded :
        (b : BlockId) → contains b l.demoted ≡ recorded resolvable read bs (demotes b)
    unfolding ledger_of contains
    demoted-recorded b =
        let g =
          gather (λ m. contains b m.demoted) (demotes b) (λ m a. refl)
            (λ m e i _. absorb_event-demoted b m e i) in
        (of_blocks-IsGathered resolvable read _ _ g bs empty l empty-IsCoherent run).1

    -- A block is accessible exactly when no readable record demotes it or supersedes it.
    pub is_accessible-recorded :
        (b : BlockId)
        → (is_accessible l b ≡ true) ↔ (
            (recorded resolvable read bs (demotes b) ≡ false)
            × ((s : BlockId) → recorded resolvable read bs (supersedes s b) ≡ false))
    unfolding ledger_of is_accessible contains
    is_accessible-recorded b =
        let g =
          gather (λ m. contains b m.demoted) (demotes b) (λ m a. refl)
            (λ m e i _. absorb_event-demoted b m e i) in
        let coherent =
          (of_blocks-IsGathered resolvable read _ _ g bs empty l empty-IsCoherent run).0 in
        let low = demoted-recorded b in
        elim (superseded_cases l b coherent) [
          | inl (e, f) ↦ (
            (λ h. (
              ground (arith, e, low),
              λ s. sym (successors_of-recorded s b) ∙ ap (contains s) f,
            )),
            (λ (h, k). ground (arith, e, low)),
          )
          | inr (s, e, f) ↦ (
            (λ h. absurd (ground (arith, e))),
            (λ (h, k). absurd (false≢true (sym (k s) ∙ sym (successors_of-recorded s b) ∙ f))),
          )
        ]
