-- ===== src/Module/Ledger/Precedence.antt =====
-- The two maps of module/ledger.py that hold the successors of a block: what one more record does to
-- them.
use pyboltzmann.Prelude.{
  true, ◌||◌, Option, none, some, List, [], ◌∷◌, ◌++◌, ◌≡◌, refl, ap, ◌∙◌, sym, arith, inl, inr,
  Bool-cases, if◌then◌else◌, ◌⊎◌,
}
use pyboltzmann.Prelude.Order.{◌==◌, ==_sound, ==_refl}
use pyboltzmann.Prelude.Sets.{contains, contains-append}
use pyboltzmann.Prelude.Dict.{Dict, get, put, get-put}
use pyboltzmann.Identity.{BlockId, block_order}
use pyboltzmann.Module.Ledger.{
  Ledger, Event, registration, normalization, derivation, supersession, demotion, validation,
  removal, Entry, Collaborator, block_of, absorb_assistance, contend, absorb_event, absorb,
  successors_of,
}
use pyboltzmann.Module.Ledger.Records.{supersedes}

-- A block with competing successors has a last one, which is among them.
abbrev pub IsHeld : Option (List BlockId) → Option BlockId → Type 0
IsHeld none so = Unit
IsHeld (some cs) none = ⊥
IsHeld (some cs) (some h) = contains h cs ≡ true

pub record IsCoherent (l : Ledger) : Type 0 where
  pub held : (b : BlockId) → IsHeld (get b l.competing) (get b l.superseded_by)

-- The successors of a block by its two entries, and the entries after one more successor.
abbrev succ_of : Option (List BlockId) → Option BlockId → List BlockId
succ_of (some cs) so = cs
succ_of none none = []
succ_of none (some h) = h ∷ []

abbrev next_competing : BlockId → Option (List BlockId) → Option BlockId → Option (List BlockId)
next_competing new co none = co
next_competing new co (some h) =
    if h == new then co else some (elim co [ none ↦ h ∷ [] | some s ↦ s ] ++ new ∷ [])

get-contend :
    (new old b : BlockId) (so : Option BlockId) (d : Dict BlockId (List BlockId))
    → get b (contend new old so d)
      ≡ (if old == b then next_competing new (get old d) so else get b d)
unfolding contend
get-contend new old b none d = elim (Bool-cases (old == b)) [
  | inl e ↦ rw e (ap (λ k. get k d) (sym (==_sound old b e)))
  | inr n ↦ rw n refl
]
get-contend new old b (some h) d =
    let grown = elim (get old d) [ none ↦ h ∷ [] | some s ↦ s ] ++ new ∷ [] in
    let same : (old == b) ≡ true → get old d ≡ get b d =
      λ e. ap (λ k. get k d) (==_sound old b e) in
    ground (arith, get-put old b grown d, same)

succ_of-next_competing :
    (new s : BlockId) (co : Option (List BlockId)) (so : Option BlockId)
    → IsHeld co so
    → contains s (succ_of (next_competing new co so) (some new))
      ≡ (contains s (succ_of co so) || (s == new))
unfolding contains
succ_of-next_competing new s none none i = ground arith
succ_of-next_competing new s none (some h) i = ground (arith, ==_sound h new)
succ_of-next_competing new s (some cs) none i = absurd i
succ_of-next_competing new s (some cs) (some h) i =
    let member : (h == new) ≡ true → (s == new) ≡ true → contains s cs ≡ true =
      λ e f. ap (λ w. contains w cs) (==_sound s new f ∙ sym (==_sound h new e)) ∙ i in
    ground (arith, member, contains-append s cs (new ∷ []))

IsHeld-next_competing :
    (new : BlockId) (co : Option (List BlockId)) (so : Option BlockId)
    → IsHeld co so
    → IsHeld (next_competing new co so) (some new)
unfolding contains
IsHeld-next_competing new none none i = tt
IsHeld-next_competing new (some cs) none i = absurd i
IsHeld-next_competing new none (some h) i = elim (Bool-cases (h == new)) [
  | inl e ↦ rw e tt
  | inr n ↦ rw n (ground (arith, ==_refl new))
]
IsHeld-next_competing new (some cs) (some h) i = elim (Bool-cases (h == new)) [
  | inl e ↦ rw e (ap (λ w. contains w cs) (sym (==_sound h new e)) ∙ i)
  | inr n ↦ rw n (ground (arith, ==_refl new, contains-append new cs (new ∷ [])))
]

-- What an entry does to anything but the assistance, it does by its record.
pub by_event :
    (P : Ledger → Type 0) (l : Ledger) (e : Entry) (i : BlockId)
    → ((d : Dict BlockId (List Collaborator))
        → P (absorb_event (record l { assistance = d }) e.event i))
    → P (absorb l e i)
unfolding absorb absorb_assistance
by_event P l e i f =
    elim e.assisted_by
      as (λ ps. P (
        absorb_event
          (elim ps [
            | [] ↦ l
            | p ∷ qs ↦ record l { assistance = put (block_of e.event i) (p ∷ qs) l.assistance }
          ])
          e.event i)) [
            | [] ↦ f l.assistance
            | p ∷ qs ↦ f (put (block_of e.event i) (p ∷ qs) l.assistance)
          ]

pub absorb_event-IsCoherent :
    (l : Ledger) (e : Event) (i : BlockId) → IsCoherent l → IsCoherent (absorb_event l e i)
unfolding absorb_event
absorb_event-IsCoherent l (registration _) i c = record { held = c.held }
absorb_event-IsCoherent l (normalization _) i c = record { held = c.held }
absorb_event-IsCoherent l (derivation _ _ _ _) i c = record { held = c.held }
absorb_event-IsCoherent l (demotion _) i c = record { held = c.held }
absorb_event-IsCoherent l (validation _ _) i c = record { held = c.held }
absorb_event-IsCoherent l (removal _) i c = record { held = c.held }
absorb_event-IsCoherent l (supersession new old) i c = record {
  held = λ b.
      rw
        (
          get-contend new old b (get old l.superseded_by) l.competing,
          get-put old b new l.superseded_by,
        )
        (elim (Bool-cases (old == b)) [
          | inl e ↦ rw e (
              IsHeld-next_competing new (get old l.competing) (get old l.superseded_by)
                (c.held old))
          | inr n ↦ rw n (c.held b)
        ]);
}

successors_of-succ_of :
    (l : Ledger) (b : BlockId)
    → successors_of l b ≡ succ_of (get b l.competing) (get b l.superseded_by)
unfolding successors_of
successors_of-succ_of l b = ground arith

pub absorb_event-successors_of :
    (s b : BlockId) (l : Ledger) (e : Event) (i : BlockId)
    → IsCoherent l
    → contains s (successors_of (absorb_event l e i) b)
      ≡ (contains s (successors_of l b) || supersedes s b e)
unfolding absorb_event successors_of supersedes
absorb_event-successors_of s b l (registration _) i c = ground arith
absorb_event-successors_of s b l (normalization _) i c = ground arith
absorb_event-successors_of s b l (derivation _ _ _ _) i c = ground arith
absorb_event-successors_of s b l (demotion _) i c = ground arith
absorb_event-successors_of s b l (validation _ _) i c = ground arith
absorb_event-successors_of s b l (removal _) i c = ground arith
absorb_event-successors_of s b l (supersession new old) i c = elim (Bool-cases (old == b)) [
  | inl e ↦
      let there : get b (contend new old (get old l.superseded_by) l.competing)
          ≡ next_competing new (get old l.competing) (get old l.superseded_by) =
        get-contend new old b (get old l.superseded_by) l.competing ∙ rw e refl in
      let over : get b (put old new l.superseded_by) ≡ some new =
        get-put old b new l.superseded_by ∙ rw e refl in
      let grown =
        succ_of-next_competing new s (get old l.competing) (get old l.superseded_by) (c.held old) in
      let before = successors_of-succ_of l old in ground (arith, e, ==_sound old b e)
  | inr n ↦
      let there : get b (contend new old (get old l.superseded_by) l.competing)
          ≡ get b l.competing =
        get-contend new old b (get old l.superseded_by) l.competing ∙ rw n refl in
      let over : get b (put old new l.superseded_by) ≡ get b l.superseded_by =
        get-put old b new l.superseded_by ∙ rw n refl in
      ground (arith, n, there, over)
]

held_cases :
    (co : Option (List BlockId)) (so : Option BlockId)
    → IsHeld co so
    → ((so ≡ none) × (succ_of co so ≡ []))
      ⊎ ((h : BlockId) × (so ≡ some h) × (contains h (succ_of co so) ≡ true))
unfolding contains
held_cases none none i = inl (refl, refl)
held_cases none (some h) i = inr (h, refl, ground (arith, ==_refl h))
held_cases (some cs) none i = absurd i
held_cases (some cs) (some h) i = inr (h, refl, i)

pub superseded_cases :
    (l : Ledger) (b : BlockId)
    → IsCoherent l
    → ((get b l.superseded_by ≡ none) × (successors_of l b ≡ []))
      ⊎ ((h : BlockId) × (get b l.superseded_by ≡ some h) × (contains h (successors_of l b) ≡ true))
superseded_cases l b c =
    rw (successors_of-succ_of l b)
      (held_cases (get b l.competing) (get b l.superseded_by) (c.held b))
