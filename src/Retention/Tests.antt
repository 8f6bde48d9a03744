-- ===== src/Retention/Tests.antt =====
-- A semantic module whose blocks point at each other: runs of retention/cascade.py, and the theorems
-- at them.
use pyboltzmann.Prelude.{
  ◌≡◌, ◌↔◌, refl, true, false, ◌||◌, none, some, [], ◌∷◌, filter, if◌then◌else◌,
}
use pyboltzmann.Prelude.Order.{◌==◌}
use pyboltzmann.Prelude.Sets.{contains, difference}
use pyboltzmann.Prelude.Bytes.{bytes_lt}
use pyboltzmann.Prelude.Dict.{get, put, set_at}
use pyboltzmann.Prelude.Closure.{flat_map}
use pyboltzmann.Exceptions.{Result, ok, raise, block_not_found}
use pyboltzmann.Identity.{BlockId, block_order}
use pyboltzmann.Identity.Toy.{block}
use pyboltzmann.Blocks.MemoryType.{MemoryType, is_same, memory_order}
use pyboltzmann.Blocks.Block.{Block, semantic_block, memory_type_of}
use pyboltzmann.Store.{BlockStore}
use pyboltzmann.Merkle.Tree.{sorted_leaves, init}
use pyboltzmann.Module.Composition.{make, has}
use pyboltzmann.Module.Ledger.{Ledger, empty, closure, closure_loop, citing, discover}
use pyboltzmann.Module.Installed
use pyboltzmann.Module.Installed.{Module}
use pyboltzmann.Retention.Cascade.{
  ReferenceIndex, Modules, flatten, pointing, update, references, targets_of, add_targets,
  index_blocks, index_module, reference_index, place, place_all, update_all, record_fresh,
  discover_kinds, discover_from, walk, referencing, dependents_of_drop, ByModule,
}
use pyboltzmann.Retention.Cascade.Walk.{pointing_at}
use pyboltzmann.Retention.Cascade.Index.{refers_from, reference_index-refers}
use pyboltzmann.Retention.Cascade.Laws.{Falls, dependents_of_drop-Falls}
use pyboltzmann.Retention.Plan.{
  CascadePlan, plan_many, plan_cascade, plan_over, plan_each, sort_each, exclude, without_empty,
  first_of, merge_dependents, merge_rederivable, merge_edges, edges_of, rederivable_of,
}
use pyboltzmann.Retention.Plan.Laws.{FallsWith, plan_many-Falls, plan_many_no_dangling}

program : Unit {0}
unfolding contains ◌==◌ bytes_lt get put set_at flat_map filter difference sorted_leaves init make
    has is_same memory_type_of closure closure_loop citing discover Installed.get Installed.check
    flatten pointing update references targets_of add_targets index_blocks index_module
    reference_index place place_all update_all record_fresh discover_kinds discover_from walk
    referencing dependents_of_drop plan_many plan_cascade plan_over plan_each sort_each exclude
    without_empty first_of merge_dependents merge_rederivable merge_edges edges_of rederivable_of
program = tt

-- Block 3 points at 2, and 2 at 1; 1 is a canonical block, which block 5 cites.
abbrev pointing_block : BlockId → Result Block
pointing_block b = ok (semantic_block (some (record { predicate = "part_of"; target = b } ∷ [])))

abbrev store : BlockStore
store = record {
  is_resolvable = λ b. true;
  get_block = λ b.
      if b == block 3
      then pointing_block (block 2)
      else if b == block 2
      then pointing_block (block 1)
      else if b == block 5
      then ok (semantic_block none)
      else raise block_not_found;
}

abbrev knowledge : Module
knowledge = record {
  memory_type = MemoryType.semantic;
  store = store;
  composition = make MemoryType.semantic (block 2 ∷ block 3 ∷ block 5 ∷ []);
  tombstones = [];
}

abbrev modules : Modules
modules = (MemoryType.semantic, knowledge) ∷ []

abbrev ledger : Ledger
ledger = record empty { dependents = (block 1, block 5 ∷ []) ∷ [] }

abbrev index : ReferenceIndex
index =
    (block 1, (MemoryType.semantic, block 2 ∷ []) ∷ [])
    ∷ (block 2, (MemoryType.semantic, block 3 ∷ []) ∷ [])
    ∷ []

index_runs : reference_index modules ≡ ok index
unfolding program
index_runs = refl

abbrev plan : CascadePlan
plan = record {
  origin = block 1;
  origin_memory_type = MemoryType.canonical;
  privileged = true;
  dependents = (MemoryType.semantic, block 2 ∷ block 3 ∷ block 5 ∷ []) ∷ [];
  rederivable = [];
  provenance_edges = [];
}

plan_runs : plan_many (block 1 ∷ []) MemoryType.canonical modules ledger none ≡ ok plan
unfolding program
plan_runs = refl

reference_index-refers_example : contains (block 3) (pointing_at index (block 2)) ≡ (
    refers_from MemoryType.semantic modules (block 2) (block 3)
    || refers_from MemoryType.procedural modules (block 2) (block 3))
reference_index-refers_example = reference_index-refers modules index index_runs (block 2) (block 3)

dependents_of_drop-Falls_example :
    (d : ByModule) × (dependents_of_drop (block 1) modules ledger index ≡ ok d)
    × ((b : BlockId) → (contains b (flatten d) ≡ true) ↔ Falls modules ledger index (block 1) b)
dependents_of_drop-Falls_example = dependents_of_drop-Falls modules ledger index (block 1)

plan_many-Falls_example :
    (p : CascadePlan) × (plan_many (block 1 ∷ []) MemoryType.canonical modules ledger none ≡ ok p)
    × ((b : BlockId)
        → (contains b (flatten p.dependents) ≡ true) ↔ (
            (contains b (block 1 ∷ []) ≡ false)
            × FallsWith MemoryType.canonical modules ledger none index (block 1 ∷ []) b))
plan_many-Falls_example =
    plan_many-Falls MemoryType.canonical modules ledger none index (block 1) [] index_runs

two_goes :
    (contains (block 2) (block 1 ∷ []) || contains (block 2) (flatten plan.dependents)) ≡ true
unfolding program
two_goes = refl

three_points : contains (block 3) (pointing_at index (block 2)) ≡ true
unfolding program
three_points = refl

plan_many_no_dangling_example :
    (contains (block 3) (block 1 ∷ []) || contains (block 3) (flatten plan.dependents)) ≡ true
plan_many_no_dangling_example =
    plan_many_no_dangling MemoryType.canonical modules ledger none index (block 1) [] plan
      index_runs plan_runs (block 2) (block 3) two_goes three_points
