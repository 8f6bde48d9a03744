-- ===== src/Brain/Branching/Return.antt =====
-- `checkout` of brain.py, and the checkout back.
use mathlib.Core.Path.{subst}
use pyboltzmann.Prelude.{
  ◌≡◌, refl, ap, sym, ◌∙◌, true, false, Option, none, some, ◌∷◌, arith, if◌then◌else◌,
}
use pyboltzmann.Prelude.Order.{◌==◌, ==_refl, ==_sound}
use pyboltzmann.Prelude.Bytes.{bytes_order}
use pyboltzmann.Prelude.Dict.{get, put, get-put}
use pyboltzmann.Prelude.Texts.{Text}
use pyboltzmann.Exceptions.{Result, ok, raise, ◌>>=◌, reconciliation_halted, block_not_found}
use pyboltzmann.Identity.{OciDigest, oci_order}
use pyboltzmann.Reconcile.Ancestry.{is_resolvable}
use pyboltzmann.Brain.Branching
use pyboltzmann.Brain.Branching.{Brain, BrainState, BranchRef, RefTable, Origin}

-- A checkout of another branch that is held, with the document of its head.
pub checkout_lem :
    (b : Brain) (table : RefTable) (s : BrainState) (name : Text) (target : BranchRef)
    → b.reconciling ≡ false
    → Branching.recorded_refs (Branching.repair b) ≡ ok (table, s)
    → (name == table.current) ≡ false
    → get name table.branches ≡ some target
    → is_resolvable (Branching.repair b).documents target.snapshot ≡ true
    → Branching.checkout b name
      ≡ (Branching.switch (Branching.repair b) table name target, ok target.snapshot)
unfolding Branching.checkout Branching.checkout_from Branching.checkout_target Branching.install
    Branching.switch Branching.move_head Branching.begin_switch Branching.end_switch
    Branching.write_head Branching.write_refs
checkout_lem b table s name target open? recorded other found held =
    let d = Branching.repair b in
    ap
      (λ c.
        if c
        then (b, raise reconciliation_halted)
        else Branching.checkout_from d name (Branching.recorded_refs d))
      open?
    ∙ ap (Branching.checkout_from d name) recorded
    ∙ ap
        (λ c.
          if c
          then (d, ok s.snapshot)
          else Branching.checkout_target d table name (get name table.branches))
        other
    ∙ ap (Branching.checkout_target d table name) found
    ∙ ap
        (λ c.
          if c
          then (Branching.switch d table name target, ok target.snapshot)
          else (Branching.switch d table name target, raise block_not_found))
        held

-- The current branch is recorded at the head, and recording it again changes nothing.
abbrev pub IsCurrent : RefTable → BrainState → Type 0
IsCurrent table s =
    (ref : BranchRef) × (get table.current table.branches ≡ some ref)
    × (ref.snapshot ≡ s.snapshot)
    × (ref.origin ≡ s.origin)
    × (Branching.updated s ref ≡ ref)

-- The table with the ref of the current branch brought up to date.
abbrev pub with_current : RefTable → BrainState → BranchRef → RefTable
with_current t state ref = record t {
  branches = put t.current (Branching.updated state ref) t.branches;
}

abbrev pub recording : RefTable → BrainState → Result BranchRef → Result (RefTable × BrainState)
recording t state (raise e) = raise e
recording t state (ok ref) = ok (with_current t state ref, state)

the {ℓ} : {A : Type ℓ} → A → Result A → A
the d (ok a) = a
the d (raise e) = d

updated-updated :
    (s : BrainState) (ref : BranchRef)
    → Branching.updated s (Branching.updated s ref) ≡ Branching.updated s ref
unfolding Branching.updated
updated-updated s ref =
    ap (λ r. record ref { snapshot = s.snapshot; origin = s.origin; reference = r })
      (again s.origin)
  where
    again :
        (o : Option Origin)
        → (elim o as (λ _. Option Text) [
          | none ↦ elim o as (λ _. Option Text) [ none ↦ ref.reference | some q ↦ some q.reference ]
          | some q ↦ some q.reference
        ])
          ≡ (elim o as (λ _. Option Text) [ none ↦ ref.reference | some q ↦ some q.reference ])
    again none = refl
    again (some q) = refl

with_current-IsCurrent :
    (t : RefTable) (state : BrainState) (ref : BranchRef)
    → IsCurrent (with_current t state ref) state
unfolding Branching.updated
with_current-IsCurrent t state ref = (
  Branching.updated state ref,
  get-put t.current t.current (Branching.updated state ref) t.branches
      ∙ ap (λ c. if c then some (Branching.updated state ref) else get t.current t.branches)
          (==_refl t.current),
  refl,
  refl,
  updated-updated state ref,
)

recording-IsCurrent :
    (t table : RefTable) (s state : BrainState) (r : Result BranchRef)
    → recording t state r ≡ ok (table, s)
    → IsCurrent table s
unfolding the
recording-IsCurrent t table s state (raise e) h = absurd (ground arith)
recording-IsCurrent t table s state (ok ref) h =
    subst (λ (p : RefTable × BrainState). IsCurrent p.0 p.1) (ap (the (t, state)) h)
      (with_current-IsCurrent t state ref)

pub bound_ok :
    (t : RefTable) (state : BrainState) (r : Result BranchRef)
    → recording t state r
      ≡ ◌>>=◌ {B = RefTable × BrainState}
          (r >>= λ ref. ok (with_current t state ref))
          (λ u. ok (u, state))
bound_ok t state (raise e) = refl
bound_ok t state (ok ref) = refl

stated-IsCurrent :
    (state : Option BrainState) (refs : Option RefTable) (b : Brain) (table : RefTable)
    (s : BrainState)
    → Branching.recorded_refs (record b { state = state; refs = refs }) ≡ ok (table, s)
    → IsCurrent table s
unfolding Branching.recorded_refs Branching.recorded Branching.table_of
stated-IsCurrent none none b table s h = absurd (ground arith)
stated-IsCurrent none (some t) b table s h = absurd (ground arith)
stated-IsCurrent (some state) (some t) b table s h =
    recording-IsCurrent t table s state (Branching.current_ref t state)
      (bound_ok t state (Branching.current_ref t state) ∙ h)
stated-IsCurrent (some state) none b table s h =
    recording-IsCurrent _ table s state _ (bound_ok _ state _ ∙ h)

pub recorded_refs-IsCurrent :
    (b : Brain) (table : RefTable) (s : BrainState)
    → Branching.recorded_refs b ≡ ok (table, s)
    → IsCurrent table s
recorded_refs-IsCurrent b table s h = stated-IsCurrent b.state b.refs b table s h

pub current_ref_found :
    (table : RefTable) (s : BrainState) (ref : BranchRef)
    → get table.current table.branches ≡ some ref
    → Branching.current_ref table s ≡ ok ref
unfolding Branching.current_ref
current_ref_found table s ref found = rw (found, Branching.current_ref) refl

-- The head after a switch, and the ref table with the new branch brought up to it.
abbrev pub arrived : Brain → RefTable → Text → BranchRef → BrainState
unfolding Branching.begin_switch Branching.write_refs
arrived b table name target =
    let c = Branching.begin_switch b table name in
    record {
      snapshot = target.snapshot;
      retained =
          Branching.retained_set b.retained_roots target.snapshot (Branching.branch_heads c)
            (target.snapshot ∷ Branching.retained_before c);
      origin = target.origin;
    }

abbrev pub arrival : Brain → RefTable → Text → BranchRef → RefTable
unfolding arrived
arrival b table name target =
    with_current (record table { current = name; switching = none }) (arrived b table name target)
      target

pub arrival_lem :
    (b : Brain) (table : RefTable) (name : Text) (target : BranchRef)
    → ((arrival b table name target).current ≡ name)
      × ((arrived b table name target).snapshot ≡ target.snapshot)
unfolding arrival arrived
arrival_lem b table name target = (refl, refl)

pub recorded_refs-switch :
    (b : Brain) (table : RefTable) (name : Text) (target : BranchRef)
    → get name table.branches ≡ some target
    → Branching.recorded_refs (Branching.switch b table name target)
      ≡ ok (arrival b table name target, arrived b table name target)
unfolding Branching.recorded_refs Branching.recorded Branching.table_of Branching.switch
    Branching.move_head Branching.begin_switch Branching.end_switch Branching.write_head
    Branching.write_refs arrived arrival
recorded_refs-switch b table name target found =
    let t : RefTable = record table { current = name; switching = none } in
    let s = arrived b table name target in
    sym (bound_ok t s (Branching.current_ref t s))
    ∙ ap (recording t s) (current_ref_found t s target found)

current_branch-switch :
    (b : Brain) (table : RefTable) (name : Text) (target : BranchRef)
    → Branching.current_branch (Branching.switch b table name target) ≡ name
unfolding Branching.current_branch Branching.repair Branching.switch Branching.end_switch
    Branching.write_refs
current_branch-switch b table name target = refl

pub repair-switched :
    (b : Brain) (table : RefTable) (name : Text) (target : BranchRef)
    → Branching.repair (Branching.switch b table name target) ≡ Branching.switch b table name target
unfolding Branching.repair Branching.switch Branching.end_switch Branching.write_refs
repair-switched b table name target = refl

pub repair-reconciling : (b : Brain) → (Branching.repair b).reconciling ≡ b.reconciling
unfolding Branching.repair Branching.write_refs
repair-reconciling b = ground arith

-- The branch that a switch left is at the head that it was left at.
get-arrival :
    (b : Brain) (table : RefTable) (name : Text) (target ref : BranchRef)
    → (name == table.current) ≡ false
    → get table.current table.branches ≡ some ref
    → get table.current (arrival b table name target).branches ≡ some ref
unfolding arrival arrived
get-arrival b table name target ref other found =
    let new = Branching.updated (arrived b table name target) target in
    get-put name table.current new table.branches
    ∙ ap (λ c. if c then some new else get table.current table.branches) other
    ∙ found

-- A brain whose head is at a snapshot, with an origin, on a branch.
pub record IsAt (b : Brain) (name : Text) (digest : OciDigest) (origin : Option Origin)
    : Type 0 where
  pub state : BrainState
  pub head : b.state ≡ some state
  pub snapshot : state.snapshot ≡ digest
  pub from : state.origin ≡ origin
  pub current : Branching.current_branch b ≡ name

switch-IsAt :
    (b : Brain) (table : RefTable) (name : Text) (target : BranchRef)
    → IsAt (Branching.switch b table name target) name target.snapshot target.origin
unfolding Branching.switch Branching.move_head Branching.begin_switch Branching.end_switch
    Branching.write_head Branching.write_refs arrived
switch-IsAt b table name target = record {
  state = arrived b table name target;
  head = refl;
  snapshot = refl;
  from = refl;
  current = current_branch-switch b table name target;
}

apart : (x y : Text) → (x == y) ≡ false → (y == x) ≡ false
apart x y n = ground (arith, ==_sound y x, ==_refl x)

-- Where no reconciliation is open and the documents of both heads are held, the checkout of another branch
-- succeeds and puts the head at the snapshot and the origin of that branch; and the checkout of the branch
-- that was left succeeds after it and puts the head back at the snapshot and the origin it had.
pub checkout_back :
    (b : Brain) (table : RefTable) (s : BrainState) (name : Text) (target : BranchRef)
    → b.reconciling ≡ false
    → Branching.recorded_refs (Branching.repair b) ≡ ok (table, s)
    → (name == table.current) ≡ false
    → get name table.branches ≡ some target
    → is_resolvable (Branching.repair b).documents target.snapshot ≡ true
    → is_resolvable (Branching.repair b).documents s.snapshot ≡ true
    → (there : Brain) × (Branching.checkout b name ≡ (there, ok target.snapshot))
      × IsAt there name target.snapshot target.origin
      × (back : Brain) × (Branching.checkout there table.current ≡ (back, ok s.snapshot))
      × IsAt back table.current s.snapshot s.origin
unfolding Branching.switch Branching.repair Branching.end_switch Branching.write_refs
    Branching.move_head Branching.write_head Branching.begin_switch
checkout_back b table s name target closed recorded other found held held_here =
    let d = Branching.repair b in
    let c = Branching.switch d table name target in
    let (ref, left, same, from, _) = recorded_refs-IsCurrent d table s recorded in
    let t = arrival d table name target in
    let back = Branching.switch (Branching.repair c) t table.current ref in
    let returned =
      checkout_lem c t (arrived d table name target) table.current ref
        (repair-reconciling b ∙ closed)
        (ap Branching.recorded_refs (repair-switched d table name target)
          ∙ recorded_refs-switch d table name target found)
        (apart name table.current other) (get-arrival d table name target ref other left)
        (ap (is_resolvable d.documents) same ∙ held_here) in
    (
      c,
      checkout_lem b table s name target closed recorded other found held,
      switch-IsAt d table name target,
      back,
      returned ∙ ap (λ x. (back, ok x)) same,
      subst (λ o. IsAt back table.current s.snapshot o) from
          (subst (λ x. IsAt back table.current x ref.origin) same
            (switch-IsAt (Branching.repair c) t table.current ref)),
    )
