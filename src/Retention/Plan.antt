-- ===== src/Retention/Plan.antt =====
-- The plans of retention/cascade.py, with `CascadePlan` of retention/requests.py: what a drop of one
-- block, or of several in one commit, would remove.
pub mod Laws
use pyboltzmann.Prelude.{
  ℕ, ◌+◌, Bool, true, false, not, Option, none, some, List, [], ◌∷◌, ◌++◌, length, filter,
  if◌then◌else◌,
}
use pyboltzmann.Prelude.Sets.{contains, union, difference}
use pyboltzmann.Prelude.Sorting.{sorted_set}
use pyboltzmann.Prelude.Dict.{get, set_at}
use pyboltzmann.Exceptions.{Result, ok, raise, ◌>>=◌, index_error}
use pyboltzmann.Identity.{BlockId, block_order}
use pyboltzmann.Blocks.MemoryType
use pyboltzmann.Blocks.MemoryType.{MemoryType, memory_order, is_same}
use pyboltzmann.Module.Ledger.{Ledger}
use pyboltzmann.Retention.Cascade.{
  ByModule, ReferenceIndex, Modules, flatten, update_all, reference_index, dependents_of_drop,
}

pub record CascadePlan : Type 0 where
  pub origin : BlockId
  pub origin_memory_type : MemoryType
  pub privileged : Bool
  pub dependents : ByModule
  pub rederivable : List BlockId
  pub provenance_edges : List BlockId

-- `CascadePlan.size`
unfoldable pub size : ByModule → ℕ
size [] = 0
size ((_, blocks) ∷ d) = length blocks + size d

unfoldable pub sort_each : ByModule → ByModule
sort_each [] = []
sort_each ((kind, blocks) ∷ d) = (kind, sorted_set blocks) ∷ sort_each d

-- `[ledger.derivation_records[b] for b in blocks if b in ledger.derivation_records]`
unfoldable pub edges_of : Ledger → List BlockId → List BlockId
edges_of l [] = []
edges_of l (b ∷ bs) =
    elim (get b l.derivation_records) [ none ↦ [] | some record_id ↦ record_id ∷ [] ]
    ++ edges_of l bs

unfoldable pub rederivable_of : Ledger → BlockId → Option BlockId → List BlockId → List BlockId
rederivable_of l origin none blocks = []
rederivable_of l origin (some _) blocks =
    sorted_set (filter (λ b. contains origin (set_at b l.evidence)) blocks)

-- The plan, over structural edges that are already inverted.
unfoldable pub plan_over :
    BlockId → MemoryType → Modules → Ledger → Option BlockId → ReferenceIndex → Result CascadePlan
plan_over origin memory_type modules l rederive_against structural = do
  dependents ← dependents_of_drop origin modules l structural
  ok (record {
    origin = origin;
    origin_memory_type = memory_type;
    privileged = is_same memory_type MemoryType.canonical;
    dependents = sort_each dependents;
    rederivable = rederivable_of l origin rederive_against (flatten dependents);
    provenance_edges = edges_of l (sorted_set (flatten dependents));
  })

unfoldable pub plan_cascade :
    BlockId
    → MemoryType
    → Modules
    → Ledger
    → Option BlockId
    → Option ReferenceIndex
    → Result CascadePlan
plan_cascade origin memory_type modules l rederive_against none = do
  structural ← reference_index modules
  plan_over origin memory_type modules l rederive_against structural
plan_cascade origin memory_type modules l rederive_against (some structural) =
    plan_over origin memory_type modules l rederive_against structural

unfoldable pub plan_each :
    List BlockId
    → MemoryType
    → Modules
    → Ledger
    → Option BlockId
    → ReferenceIndex
    → Result (List CascadePlan)
plan_each [] memory_type modules l rederive_against structural = ok []
plan_each (o ∷ os) memory_type modules l rederive_against structural = do
  plan ← plan_cascade o memory_type modules l rederive_against (some structural)
  plans ← plan_each os memory_type modules l rederive_against structural
  ok (plan ∷ plans)

unfoldable pub merge_dependents : List CascadePlan → ByModule → ByModule
merge_dependents [] d = d
merge_dependents (p ∷ plans) d = merge_dependents plans (update_all p.dependents d)

unfoldable pub merge_rederivable : List CascadePlan → List BlockId
merge_rederivable [] = []
merge_rederivable (p ∷ plans) = union p.rederivable (merge_rederivable plans)

unfoldable pub merge_edges : List CascadePlan → List BlockId
merge_edges [] = []
merge_edges (p ∷ plans) = union p.provenance_edges (merge_edges plans)

-- `{kind: found - dropped}`, and without the kinds that this leaves empty
unfoldable pub exclude : List BlockId → ByModule → ByModule
exclude dropped [] = []
exclude dropped ((kind, found) ∷ d) = (kind, difference found dropped) ∷ exclude dropped d

unfoldable pub without_empty : ByModule → ByModule
without_empty [] = []
without_empty ((kind, []) ∷ d) = without_empty d
without_empty ((kind, b ∷ bs) ∷ d) = (kind, b ∷ bs) ∷ without_empty d

-- `ordered[0]`
unfoldable pub first_of : List BlockId → Result BlockId
first_of [] = raise index_error
first_of (b ∷ _) = ok b

unfoldable pub plan_many :
    List BlockId → MemoryType → Modules → Ledger → Option BlockId → Result CascadePlan
plan_many origins memory_type modules l rederive_against = do
  let ordered = sorted_set origins
  structural ← reference_index modules
  plans ← plan_each ordered memory_type modules l rederive_against structural
  first ← first_of ordered
  ok (record {
    origin = first;
    origin_memory_type = memory_type;
    privileged = is_same memory_type MemoryType.canonical;
    dependents = sort_each (without_empty (exclude ordered (merge_dependents plans [])));
    rederivable = sorted_set (merge_rederivable plans);
    provenance_edges = sorted_set (merge_edges plans);
  })
