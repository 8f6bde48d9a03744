-- ===== src/Brain/Branching/Resume.antt =====
-- `checkout` of brain.py, called again after it was interrupted.
use pyboltzmann.Prelude.{
  ◌≡◌, ap, sym, ◌∙◌, true, false, Option, none, some, [], ◌∷◌, arith, if◌then◌else◌, inl, inr,
  Bool-cases,
}
use pyboltzmann.Prelude.Order.{◌==◌, ==_complete}
use pyboltzmann.Prelude.Bytes.{bytes_order}
use pyboltzmann.Prelude.Dict.{Dict, get, put}
use pyboltzmann.Prelude.Texts.{Text}
use pyboltzmann.Exceptions.{Result, ok, raise, reconciliation_halted}
use pyboltzmann.Identity.{oci_order}
use pyboltzmann.Reconcile.Ancestry.{is_resolvable}
use pyboltzmann.Brain.Branching
use pyboltzmann.Brain.Branching.{Brain, BrainState, BranchRef, RefTable}
use pyboltzmann.Brain.Branching.Checkout.{repair-begin_switch, repair-move_head, undone}
use pyboltzmann.Brain.Branching.Return.{
  checkout_lem, recording, bound_ok, recorded_refs-IsCurrent, current_ref_found, arrived, arrival,
  arrival_lem, recorded_refs-switch, repair-switched, repair-reconciling,
}

-- The checkout of the branch that is current.
checkout_current :
    (b : Brain) (table : RefTable) (s : BrainState) (name : Text)
    → b.reconciling ≡ false
    → Branching.recorded_refs (Branching.repair b) ≡ ok (table, s)
    → (name == table.current) ≡ true
    → Branching.checkout b name ≡ (Branching.repair b, ok s.snapshot)
unfolding Branching.checkout Branching.checkout_from
checkout_current b table s name closed recorded here =
    let d = Branching.repair b in
    ap
      (λ c.
        if c
        then (b, raise reconciliation_halted)
        else Branching.checkout_from d name (Branching.recorded_refs d))
      closed
    ∙ ap (Branching.checkout_from d name) recorded
    ∙ ap
        (λ c.
          if c
          then (d, ok s.snapshot)
          else Branching.checkout_target d table name (get name table.branches))
        here

put_same :
    (k : Text) (ref : BranchRef) (d : Dict Text BranchRef) → get k d ≡ some ref → put k ref d ≡ d
unfolding get put
put_same k ref [] h = absurd (ground arith)
put_same k ref ((j, w) ∷ d) h = elim (Bool-cases (j == k)) [
  | inl e ↦ ground arith
  | inr n ↦ ground (arith, put_same k ref d)
]

recording_same :
    (t : RefTable) (s state : BrainState) (table : RefTable) (r : Result BranchRef)
    → recording t state r ≡ ok (table, s)
    → state ≡ s
recording_same t s state table (raise e) h = absurd (ground arith)
recording_same t s state table (ok ref) h = ground arith

-- The head pointer that is read with the refs is that of the brain.
recorded_head :
    (state : Option BrainState) (refs : Option RefTable) (b : Brain) (table : RefTable)
    (s : BrainState)
    → Branching.recorded_refs (record b { state = state; refs = refs }) ≡ ok (table, s)
    → state ≡ some s
unfolding Branching.recorded_refs Branching.recorded Branching.table_of
recorded_head none none b table s h = absurd (ground arith)
recorded_head none (some t) b table s h = absurd (ground arith)
recorded_head (some state) (some t) b table s h =
    ap (λ x. some x)
      (recording_same t s state table (Branching.current_ref t state)
        (bound_ok t state (Branching.current_ref t state) ∙ h))
recorded_head (some state) none b table s h =
    ap (λ x. some x) (recording_same _ s state table _ (bound_ok _ state _ ∙ h))

-- What was recorded is recorded again as it is.
recorded_again :
    (b : Brain) (table : RefTable) (s : BrainState) (ref : BranchRef)
    → b.state ≡ some s
    → get table.current table.branches ≡ some ref
    → Branching.updated s ref ≡ ref
    → Branching.recorded_refs (Branching.write_refs b table) ≡ ok (table, s)
unfolding Branching.recorded_refs Branching.recorded Branching.table_of Branching.write_refs
recorded_again b table s ref head found same =
    ap (λ h. Branching.recorded_refs (record b { state = h; refs = some table })) head
    ∙ sym (bound_ok table s (Branching.current_ref table s))
    ∙ ap (recording table s) (current_ref_found table s ref found)
    ∙ ap (λ d. ok (record table { branches = d }, s))
        (ap (λ r. put table.current r table.branches) same
          ∙ put_same table.current ref table.branches found)

repair-repair : (b : Brain) → Branching.repair (Branching.repair b) ≡ Branching.repair b
unfolding Branching.repair Branching.repaired Branching.write_refs
repair-repair b = ground arith

-- What is stored where a checkout of another branch stops: nothing yet, the intention with the head
-- elsewhere than the target, the head too, or all of it.
pub data IsStopped (d : Brain) (table : RefTable) (name : Text) (target : BranchRef)
    : Brain → Type 0 where
  before : IsStopped d table name target d
  begun :
      Branching.is_at d.state target ≡ false
      → IsStopped d table name target (Branching.begin_switch d table name)
  moved :
      IsStopped d table name target
        (Branching.move_head (Branching.begin_switch d table name) target)
  ended : IsStopped d table name target (Branching.switch d table name target)

module _ (b : Brain) (table : RefTable) (s : BrainState) (name : Text) (target : BranchRef) where
  -- A checkout that finds the switch made.
  resumed :
      (stopped : Brain)
      → stopped.reconciling ≡ false
      → get name table.branches ≡ some target
      → Branching.repair stopped ≡ Branching.switch b table name target
      → Branching.checkout stopped name ≡ (Branching.switch b table name target, ok target.snapshot)
  resumed stopped closed found repaired =
      checkout_current stopped (arrival b table name target) (arrived b table name target) name
        closed
        (ap Branching.recorded_refs repaired ∙ recorded_refs-switch b table name target found)
        (==_complete name (arrival b table name target).current
          (sym (arrival_lem b table name target).0))
      ∙ ap (λ x. (Branching.repair stopped, ok x)) (arrival_lem b table name target).1
      ∙ ap (λ x. (x, ok target.snapshot)) repaired

  -- A checkout that finds the switch undone.
  restarted :
      (stopped : Brain)
      → stopped.reconciling ≡ false
      → Branching.recorded_refs b ≡ ok (table, s)
      → (name == table.current) ≡ false
      → get name table.branches ≡ some target
      → is_resolvable b.documents target.snapshot ≡ true
      → Branching.repair stopped ≡ Branching.write_refs b (undone table)
      → Branching.checkout stopped name ≡ (Branching.switch b table name target, ok target.snapshot)
  unfolding Branching.write_refs Branching.switch Branching.move_head Branching.begin_switch
      Branching.end_switch Branching.write_head
  restarted stopped closed recorded other found held repaired =
      let (ref, here, _, _, same) = recorded_refs-IsCurrent b table s recorded in
      checkout_lem stopped (undone table) s name target closed
        (ap Branching.recorded_refs repaired
          ∙ recorded_again b (undone table) s ref (recorded_head b.state b.refs b table s recorded)
              here same)
        other found (ap (λ x. is_resolvable x.documents target.snapshot) repaired ∙ held)
      ∙ ap (λ x. (Branching.switch x (undone table) name target, ok target.snapshot)) repaired

  -- Wherever a checkout from a repaired brain stopped, the next one ends the switch.
  resumed_from :
      (stopped : Brain)
      → Branching.repair b ≡ b
      → b.reconciling ≡ false
      → Branching.recorded_refs b ≡ ok (table, s)
      → (name == table.current) ≡ false
      → get name table.branches ≡ some target
      → is_resolvable b.documents target.snapshot ≡ true
      → IsStopped b table name target stopped
      → Branching.checkout stopped name ≡ (Branching.switch b table name target, ok target.snapshot)
  unfolding Branching.write_refs Branching.switch Branching.move_head Branching.begin_switch
      Branching.end_switch Branching.write_head
  resumed_from _ whole closed recorded other found held before =
      checkout_lem b table s name target closed (ap Branching.recorded_refs whole ∙ recorded) other
        found (ap (λ x. is_resolvable x.documents target.snapshot) whole ∙ held)
      ∙ ap (λ x. (Branching.switch x table name target, ok target.snapshot)) whole
  resumed_from _ whole closed recorded other found held (begun at) =
      restarted (Branching.begin_switch b table name) closed recorded other found held
        (repair-begin_switch b table name target false found at)
  resumed_from _ whole closed recorded other found held moved =
      resumed (Branching.move_head (Branching.begin_switch b table name) target) closed found
        (repair-move_head b table name target found)
  resumed_from _ whole closed recorded other found held ended =
      resumed (Branching.switch b table name target) closed found
        (repair-switched b table name target)

-- A checkout of another branch that would succeed may be interrupted and called again. Where no
-- reconciliation is open and the document of the other head is held, the call after the interruption
-- leaves the same brain and gives the same answer as a call that was not interrupted, whether nothing was
-- written, or the intention with the head elsewhere than the target, or the head too, or all of it.
pub checkout_resumed :
    (b : Brain) (table : RefTable) (s : BrainState) (name : Text) (target : BranchRef)
    (stopped : Brain)
    → b.reconciling ≡ false
    → Branching.recorded_refs (Branching.repair b) ≡ ok (table, s)
    → (name == table.current) ≡ false
    → get name table.branches ≡ some target
    → is_resolvable (Branching.repair b).documents target.snapshot ≡ true
    → IsStopped (Branching.repair b) table name target stopped
    → Branching.checkout stopped name ≡ Branching.checkout b name
checkout_resumed b table s name target stopped closed recorded other found held stop =
    resumed_from (Branching.repair b) table s name target stopped (repair-repair b)
      (repair-reconciling b ∙ closed) recorded other found held stop
    ∙ sym (checkout_lem b table s name target closed recorded other found held)
