-- ===== src/Retention/Cascade.antt =====
-- retention/cascade.py: working out what a drop takes with it.
pub mod Walk
pub mod Index
pub mod Laws
use pyboltzmann.Prelude.{
  ℕ, zero, suc, ◌+◌, Bool, true, false, not, ◌&&◌, Option, none, some, List, [], ◌∷◌, ◌++◌, map,
  length, filter, if◌then◌else◌,
}
use pyboltzmann.Prelude.Order.{◌==◌}
use pyboltzmann.Prelude.Sets.{contains, union, difference}
use pyboltzmann.Prelude.Sorting.{sorted_set}
use pyboltzmann.Prelude.Dict.{Dict, get, put, set_at}
use pyboltzmann.Exceptions.{Result, ok, raise, ◌>>=◌, index_error, out_of_fuel}
use pyboltzmann.Identity.{BlockId, block_order}
use pyboltzmann.Blocks.MemoryType
use pyboltzmann.Blocks.MemoryType.{MemoryType, memory_order, is_same}
use pyboltzmann.Blocks.Block.{Block, Relation, Step, semantic_block, procedural_block}
use pyboltzmann.Store.{BlockStore}
use pyboltzmann.Module.Composition.{Composition, block_ids, has}
use pyboltzmann.Module.Ledger.{Ledger, closure}
use pyboltzmann.Module.Installed
use pyboltzmann.Module.Installed.{Module}

-- `dict[MemoryType, set[BlockId]]`, and what points at a block, by module.
abbrev pub ByModule : Type 0
ByModule = Dict MemoryType (List BlockId)

abbrev pub ReferenceIndex : Type 0
ReferenceIndex = Dict BlockId ByModule

abbrev pub Modules : Type 0
Modules = Dict MemoryType Module

-- `d.get(k, {})`
unfoldable pub pointing : BlockId → ReferenceIndex → ByModule
pointing b index = elim (get b index) [ none ↦ [] | some d ↦ d ]

-- `dependents.setdefault(kind, set()).update(blocks)`
unfoldable pub update : MemoryType → List BlockId → ByModule → ByModule
update kind blocks d = put kind (union (set_at kind d) blocks) d

unfoldable pub uses_of : List Step → List BlockId
uses_of [] = []
uses_of (s ∷ steps) = elim s.uses [ none ↦ [] | some used ↦ used ] ++ uses_of steps

unfoldable pub targets_of : Option (List Relation) → List BlockId
targets_of none = []
targets_of (some relations) = map (λ r. r.target) relations

unfoldable pub references : Block → List BlockId
references (semantic_block relations) = targets_of relations
references (procedural_block steps) = uses_of steps
references _ = []

-- The innermost loop of `reference_index`: each target is pointed at by the block.
unfoldable pub add_targets : MemoryType → BlockId → List BlockId → ReferenceIndex → ReferenceIndex
add_targets kind block_id [] index = index
add_targets kind block_id (target ∷ targets) index =
    add_targets kind block_id targets
      (put target (update kind (block_id ∷ []) (pointing target index)) index)

unfoldable pub index_blocks :
    MemoryType → Module → List BlockId → ReferenceIndex → Result ReferenceIndex
index_blocks kind m [] index = ok index
index_blocks kind m (b ∷ bs) index = elim (m.store.is_resolvable b) [
  | false ↦ index_blocks kind m bs index
  | true ↦ do
    block ← Installed.get m b
    index_blocks kind m bs (add_targets kind b (references block) index)
]

unfoldable pub index_module : MemoryType → Modules → ReferenceIndex → Result ReferenceIndex
index_module kind modules index = elim (get kind modules) [
  | none ↦ ok index
  | some m ↦ index_blocks kind m (block_ids m.composition) index
]

unfoldable pub reference_index : Modules → Result ReferenceIndex
reference_index modules = do
  index ← index_module MemoryType.semantic modules []
  index_module MemoryType.procedural modules index

unfoldable pub flatten : ByModule → List BlockId
flatten [] = []
flatten ((_, blocks) ∷ d) = blocks ++ flatten d

-- The module that a dependent is filed under: the first that holds it.
unfoldable pub place : Modules → BlockId → ByModule → ByModule
place [] b d = d
place ((kind, m) ∷ modules) b d =
    if has m.composition b then update kind (b ∷ []) d else place modules b d

unfoldable pub place_all : Modules → List BlockId → ByModule → ByModule
place_all modules [] d = d
place_all modules (b ∷ bs) d = place_all modules bs (place modules b d)

unfoldable pub update_all : ByModule → ByModule → ByModule
update_all [] d = d
update_all ((kind, blocks) ∷ more) d = update_all more (update kind blocks d)

-- `dependents`, `seen` and `discovered`
pub record Frontier : Type 0 where
  pub dependents : ByModule
  pub seen : List BlockId
  pub discovered : List BlockId

-- `if fresh: ...`
unfoldable pub record_fresh : MemoryType → List BlockId → Frontier → Frontier
record_fresh kind [] f = f
record_fresh kind (x ∷ xs) f = record {
  dependents = update kind (x ∷ xs) f.dependents;
  seen = union f.seen (x ∷ xs);
  discovered = union f.discovered (x ∷ xs);
}

unfoldable pub discover_kinds : BlockId → ByModule → Frontier → Frontier
discover_kinds origin [] f = f
discover_kinds origin ((kind, referencing) ∷ more) f =
    let fresh = filter (λ b. not (contains b f.seen) && not (b == origin)) referencing in
    discover_kinds origin more (record_fresh kind fresh f)

unfoldable pub discover_from : BlockId → ReferenceIndex → List BlockId → Frontier → Frontier
discover_from origin structural [] f = f
discover_from origin structural (b ∷ bs) f =
    discover_from origin structural bs (discover_kinds origin (pointing b structural) f)

unfoldable pub walk :
    ℕ → BlockId → ReferenceIndex → List BlockId → ByModule → List BlockId → Result ByModule
walk zero origin structural frontier dependents seen = raise out_of_fuel
walk (suc fuel) origin structural [] dependents seen = ok dependents
walk (suc fuel) origin structural (b ∷ bs) dependents seen =
    let f =
      discover_from origin structural (b ∷ bs)
        (record { dependents = dependents; seen = seen; discovered = [] }) in
    walk fuel origin structural f.discovered f.dependents f.seen

-- Every block that points at another.
unfoldable pub referencing : ReferenceIndex → List BlockId
referencing [] = []
referencing ((_, d) ∷ index) = flatten d ++ referencing index

-- `dependents`. Fuel: each round but the last finds a referencing block that was not seen before.
unfoldable pub dependents_of_drop : BlockId → Modules → Ledger → ReferenceIndex → Result ByModule
dependents_of_drop origin modules ledger structural = do
  cited ← closure ledger origin
  let first = update_all (pointing origin structural) (place_all modules cited [])
  walk (length (referencing structural) + 2) origin structural (flatten first) first (flatten first)
