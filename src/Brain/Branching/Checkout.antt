-- ===== src/Brain/Branching/Checkout.antt =====
-- `checkout` of brain.py: what an interruption leaves to repair.
use pyboltzmann.Prelude.{◌≡◌, ap, ◌∙◌, Bool, true, Option, none, some, if◌then◌else◌}
use pyboltzmann.Prelude.Order.{==_refl}
use pyboltzmann.Prelude.Bytes.{bytes_order}
use pyboltzmann.Prelude.Dict.{get}
use pyboltzmann.Prelude.Texts.{Text}
use pyboltzmann.Identity.{oci_order}
use pyboltzmann.Brain.Branching
use pyboltzmann.Brain.Branching.{Brain, BrainState, BranchRef, RefTable, Origin}

abbrev pub finished : RefTable → Text → RefTable
finished table name = record table { current = name; switching = none }

abbrev pub undone : RefTable → RefTable
undone table = record table { switching = none }

repaired_lem :
    (state : Option BrainState) (table : RefTable) (name : Text) (target : BranchRef)
    (answer : Bool)
    → get name table.branches ≡ some target
    → Branching.is_at state target ≡ answer
    → Branching.repaired state (record table { switching = some name }) name
      ≡ (if answer then finished table name else undone table)
unfolding Branching.repaired
repaired_lem state table name target answer found at =
    ap
      (λ (o : Option BranchRef). elim o as (λ _. RefTable) [
        | none ↦ undone table
        | some t ↦ if Branching.is_at state t then finished table name else undone table
      ])
      found
    ∙ ap (λ c. if c then finished table name else undone table) at

pub repair-begin_switch :
    (b : Brain) (table : RefTable) (name : Text) (target : BranchRef) (answer : Bool)
    → get name table.branches ≡ some target
    → Branching.is_at b.state target ≡ answer
    → Branching.repair (Branching.begin_switch b table name)
      ≡ Branching.write_refs b (if answer then finished table name else undone table)
unfolding Branching.repair Branching.begin_switch Branching.write_refs
repair-begin_switch b table name target answer found at =
    ap (Branching.write_refs b) (repaired_lem b.state table name target answer found at)

-- Once the head has moved, reopening ends the switch.
pub repair-move_head :
    (b : Brain) (table : RefTable) (name : Text) (target : BranchRef)
    → get name table.branches ≡ some target
    → Branching.repair (Branching.move_head (Branching.begin_switch b table name) target)
      ≡ Branching.switch b table name target
unfolding Branching.repair Branching.switch Branching.begin_switch Branching.move_head
    Branching.write_head Branching.end_switch Branching.write_refs Branching.is_at
repair-move_head b table name target found =
    let moved = Branching.move_head (Branching.begin_switch b table name) target in
    ap (Branching.write_refs moved)
      (repaired_lem moved.state table name target true found (==_refl target.snapshot))
