-- ===== src/Module/Tests.antt =====
-- A ledger of five records, one of them unreadable, and a small composition: runs of
-- module/ledger.py and module/composition.py, and the theorems at them.
use pyboltzmann.Prelude.{
  ◌≡◌, ◌≢◌, ◌↔◌, refl, Bool, true, false, not, ◌&&◌, ◌||◌, Option, none, some, List, [], ◌∷◌, arith,
  ◌⊎◌, if◌then◌else◌, filter, inl, inr, sym, ◌∙◌,
}
use pyboltzmann.Prelude.Order.{◌==◌}
use pyboltzmann.Prelude.Sets.{contains}
use pyboltzmann.Prelude.Bytes.{bytes_lt}
use pyboltzmann.Prelude.Closure.{flat_map}
use pyboltzmann.Prelude.Dict.{get, put, set_at, add_at}
use pyboltzmann.Exceptions.{Result, ok, raise, Result-cases, append_only_violation, block_not_found}
use pyboltzmann.Identity.{BlockId, block_order}
use pyboltzmann.Identity.Toy.{toy, block}
use pyboltzmann.Blocks.MemoryType.{MemoryType, is_append_only}
use pyboltzmann.Module.Composition.{Composition, make, has, add, drop}
use pyboltzmann.Module.Composition.Laws.{
  IsVersion, make-IsVersion, has-make, version_unique, has-add, drop_lem,
}
use pyboltzmann.Module.Ledger.{
  Ledger, Event, derivation, supersession, demotion, Entry, empty, absorb, absorb_event,
  absorb_assistance, contend, add_dependents, of_blocks, ledger_of, closure, successors_of,
  is_accessible, dependents_of, Producer, ProducerKind, discover, closure_loop, citing,
}
use pyboltzmann.Module.Ledger.Records.{supersedes, cites, demotes, recorded}
use pyboltzmann.Module.Ledger.Closure.{Cites, closure-Cites}
use pyboltzmann.Module.Ledger.Queries.{
  Reads, ledger_of-Reads, successors_of-recorded, dependents_of-recorded, is_accessible-recorded,
}
use pyboltzmann.Module.Ledger.Makers.{
  made_by, keys_where, is_made_by, is_same_kind, has_version, made_by_narrows,
}

program : Unit {0}
unfolding contains ◌==◌ bytes_lt get put set_at add_at absorb absorb_event absorb_assistance contend
    add_dependents of_blocks ledger_of closure successors_of is_accessible discover closure_loop
    citing supersedes cites demotes recorded filter flat_map
program = tt

-- Block 20 is derived from 1 and 21 from 20, which 1 cites in turn; 30 and 31 both supersede 21.
abbrev entry : Event → Result (Option Entry)
entry e = ok (some (record { event = e; assisted_by = [] }))

abbrev source : BlockId → Result (Option Entry)
source b =
    if b == block 100
    then entry (derivation (block 20) (block 1 ∷ []) none none)
    else if b == block 101
    then entry (derivation (block 21) (block 20 ∷ []) none none)
    else if b == block 102
    then entry (derivation (block 1) (block 21 ∷ []) none none)
    else if b == block 103
    then entry (supersession (block 30) (block 21))
    else if b == block 104
    then entry (supersession (block 31) (block 21))
    else if b == block 105
    then entry (demotion (block 20))
    else if b == block 106
    then ok none
    else raise block_not_found

abbrev present : BlockId → Bool
present b = not (b == block 107)

abbrev records : List BlockId
records =
    block 100
    ∷ block 101
    ∷ block 102
    ∷ block 103
    ∷ block 104
    ∷ block 105
    ∷ block 106
    ∷ block 107
    ∷ []

abbrev ledger : Ledger
ledger = elim (ledger_of present source (some records)) [ ok l ↦ l | raise _ ↦ empty ]

ledger_runs : ledger_of present source (some records) ≡ ok ledger
unfolding program
ledger_runs = refl

closure_runs : closure ledger (block 1) ≡ ok (block 20 ∷ block 21 ∷ [])
unfolding program
closure_runs = refl

precedence_runs :
    (successors_of ledger (block 21) ≡ block 30 ∷ block 31 ∷ [])
    × (is_accessible ledger (block 20) ≡ false)
    × (is_accessible ledger (block 1) ≡ true)
unfolding program
precedence_runs = (refl, refl, refl)

closure-Cites_example :
    (found : List BlockId) × (closure ledger (block 1) ≡ ok found)
    × ((b : BlockId) → contains b found ≡ true → (b ≢ block 1) × Cites ledger (block 1) b)
    × ((b : BlockId) → b ≢ block 1 → Cites ledger (block 1) b → contains b found ≡ true)
closure-Cites_example = closure-Cites ledger (block 1)

source-Reads : Reads present source records
unfolding contains
source-Reads b h p = elim (Result-cases (source b)) [
  | inl found ↦ found
  | inr (e, f) ↦ absurd (ground arith)
]

ledger_of-Reads_case : (l : Ledger) × (ledger_of present source (some records) ≡ ok l)
ledger_of-Reads_case = ledger_of-Reads present source records source-Reads

successors_of-recorded_example :
    contains (block 30) (successors_of ledger (block 21))
    ≡ recorded present source records (supersedes (block 30) (block 21))
successors_of-recorded_example =
    successors_of-recorded present source records ledger ledger_runs (block 30) (block 21)

dependents_of-recorded_case :
    contains (block 21) (dependents_of ledger (block 20))
    ≡ recorded present source records (cites (block 21) (block 20))
dependents_of-recorded_case =
    dependents_of-recorded present source records ledger ledger_runs (block 21) (block 20)

is_accessible-recorded_case : (is_accessible ledger (block 20) ≡ true) ↔ (
    (recorded present source records (demotes (block 20)) ≡ false)
    × ((s : BlockId) → recorded present source records (supersedes s (block 20)) ≡ false))
is_accessible-recorded_case =
    is_accessible-recorded present source records ledger ledger_runs (block 20)

abbrev trained : Producer
trained = record { kind = ProducerKind.model; id = "m"; version = some "2" }

abbrev one_model : Ledger
one_model = record empty { producers = (block 40, trained) ∷ [] }

model_found : contains (block 40) (made_by one_model trained) ≡ true
unfolding program made_by keys_where is_made_by is_same_kind has_version
model_found = refl

made_by_narrows_case :
    contains (block 40) (made_by one_model (record trained { version = none })) ≡ true
made_by_narrows_case = made_by_narrows one_model trained (block 40) model_found

abbrev version : Composition
version = make MemoryType.semantic (block 3 ∷ block 1 ∷ [])

drop_lem_case :
    ((is_append_only version.memory_type ≡ true)
      × (drop version (block 3 ∷ []) ≡ raise append_only_violation))
    ⊎ ((is_append_only version.memory_type ≡ false)
        × ((d : Composition) × (drop version (block 3 ∷ []) ≡ ok d)
            × IsVersion d
            × (d.memory_type ≡ version.memory_type)
            × ((b : BlockId) → has d b ≡ (has version b && not (contains b (block 3 ∷ []))))))
drop_lem_case = drop_lem version (block 3 ∷ [])

has-add_case :
    has (add version (block 2 ∷ [])) (block 2)
    ≡ (has version (block 2) || contains (block 2) (block 2 ∷ []))
has-add_case = has-add version (block 2 ∷ []) (block 2)

abbrev again : List BlockId
again = block 1 ∷ block 3 ∷ block 3 ∷ []

same_blocks : (b : BlockId) → contains b (block 3 ∷ block 1 ∷ []) ≡ contains b again
unfolding contains
same_blocks b = ground arith

version_unique_case : version ≡ make MemoryType.semantic again
version_unique_case =
    version_unique version (make MemoryType.semantic again)
      (make-IsVersion MemoryType.semantic (block 3 ∷ block 1 ∷ []))
      (make-IsVersion MemoryType.semantic again) (unfold make in refl)
      (λ b.
        has-make MemoryType.semantic (block 3 ∷ block 1 ∷ []) b
        ∙ same_blocks b
        ∙ sym (has-make MemoryType.semantic again b))
