-- ===== src/Module/Ledger.antt =====
-- module/ledger.py: a read-only view over the provenance module, and the records of
-- blocks/provenance.py as far as the ledger reads them.
pub mod Closure
pub mod Records
pub mod Precedence
pub mod Queries
pub mod Makers
use Prim.Native.String.{String}
use text.Mathlib.Text.{◌==◌ as str_eq}
use pyboltzmann.Prelude.{
  ℕ, zero, suc, Bool, true, false, not, ◌&&◌, ◌||◌, Option, none, some, List, [], ◌∷◌, ◌++◌, filter,
  length, ltb, leb, if◌then◌else◌, map, ◌+◌,
}
use pyboltzmann.Prelude.Order.{◌==◌}
use pyboltzmann.Prelude.Sets.{contains, union}
use pyboltzmann.Prelude.Sorting.{distinct}
use pyboltzmann.Prelude.Closure.{flat_map}
use pyboltzmann.Prelude.Dict.{Dict, get, put, set_at, add_at}
use pyboltzmann.Exceptions.{Result, ok, raise, out_of_fuel, ◌>>=◌}
use pyboltzmann.Identity.{BlockId, block_order}

pub data ActorKind : Type 0 where
  human agent service pipeline : ActorKind

pub data ProducerKind : Type 0 where
  model pipeline batch actor : ProducerKind

pub record Collaborator : Type 0 where
  pub id : String
  pub kind : ActorKind
  pub model : Option String

pub record Producer : Type 0 where
  pub kind : ProducerKind
  pub id : String
  pub version : Option String

-- A record of either schema version. A derivation has its producer at version 1 alone; the verdict
-- of a validation is kept by the name of its status.
pub data Event : Type 0 where
  registration : BlockId → Event
  normalization : BlockId → Event
  derivation : BlockId → List BlockId → Option Producer → Option String → Event
  supersession : BlockId → BlockId → Event
  demotion : BlockId → Event
  validation : BlockId → String → Event
  removal : List BlockId → Event

-- A provenance block: its record, and who assisted (none at version 1).
pub record Entry : Type 0 where
  pub event : Event
  pub assisted_by : List Collaborator

pub record Ledger : Type 0 where
  pub locators : Dict BlockId String
  pub superseded_by : Dict BlockId BlockId
  pub competing : Dict BlockId (List BlockId)
  pub demoted : List BlockId
  pub evidence : Dict BlockId (List BlockId)
  pub dependents : Dict BlockId (List BlockId)
  pub producers : Dict BlockId Producer
  pub derivation_records : Dict BlockId BlockId
  pub assistance : Dict BlockId (List Collaborator)
  pub removed : List BlockId
  pub validations : Dict BlockId String

abbrev pub empty : Ledger
empty = record {
  locators = [];
  superseded_by = [];
  competing = [];
  demoted = [];
  evidence = [];
  dependents = [];
  producers = [];
  derivation_records = [];
  assistance = [];
  removed = [];
  validations = [];
}

-- `getattr(record, "block", entry_id)`
unfoldable pub block_of : Event → BlockId → BlockId
block_of (registration b) entry_id = b
block_of (normalization b) entry_id = b
block_of (derivation b _ _ _) entry_id = b
block_of (supersession b _) entry_id = b
block_of (demotion b) entry_id = b
block_of (validation b _) entry_id = b
block_of (removal _) entry_id = entry_id

unfoldable pub absorb_assistance : Ledger → Entry → BlockId → Ledger
unfolding block_of
absorb_assistance l entry entry_id = elim entry.assisted_by [
  | [] ↦ l
  | p ∷ ps ↦ record l { assistance = put (block_of entry.event entry_id) (p ∷ ps) l.assistance }
]

-- `if value is not None: d[k] = value`
abbrev pub put_some {ℓ} : {V : Type ℓ} → BlockId → Option V → Dict BlockId V → Dict BlockId V
put_some k none d = d
put_some k (some v) d = put k v d

-- `for cited in derived_from: dependents.setdefault(cited, set()).add(block)`
unfoldable pub add_dependents :
    BlockId → List BlockId → Dict BlockId (List BlockId) → Dict BlockId (List BlockId)
add_dependents b [] d = d
add_dependents b (cited ∷ rest) d = add_dependents b rest (add_at cited b d)

-- The competing successors after one more, `b`, for what `held` has superseded so far.
unfoldable pub contend :
    BlockId → BlockId → Option BlockId → Dict BlockId (List BlockId) → Dict BlockId (List BlockId)
contend b old none d = d
contend b old (some held) d =
    if held == b
    then d
    else put old (elim (get old d) [ none ↦ held ∷ [] | some s ↦ s ] ++ b ∷ []) d

unfoldable pub absorb_event : Ledger → Event → BlockId → Ledger
unfolding contend add_dependents
absorb_event l (registration b) entry_id = l
absorb_event l (normalization b) entry_id = l
absorb_event l (derivation b derived_from producer locator) entry_id = record l {
  locators = put_some b locator l.locators;
  evidence = put b derived_from l.evidence;
  producers = put_some b producer l.producers;
  derivation_records = put b entry_id l.derivation_records;
  dependents = add_dependents b derived_from l.dependents;
}
absorb_event l (supersession b old) entry_id = record l {
  competing = contend b old (get old l.superseded_by) l.competing;
  superseded_by = put old b l.superseded_by;
}
absorb_event l (demotion b) entry_id = record l { demoted = b ∷ l.demoted }
absorb_event l (validation b verdict) entry_id = record l {
  validations = put b verdict l.validations;
}
absorb_event l (removal blocks) entry_id = record l { removed = union l.removed blocks }

unfoldable pub absorb : Ledger → Entry → BlockId → Ledger
unfolding absorb_event absorb_assistance
absorb l entry entry_id = absorb_event (absorb_assistance l entry entry_id) entry.event entry_id

-- The loop of `Ledger.of`, over the provenance module's blocks in order. `resolvable` is the store's
-- answer, and `read` the module's: the entry, or none for a block of another class.
unfoldable pub of_blocks :
    (resolvable : BlockId → Bool) (read : BlockId → Result (Option Entry))
    → List BlockId
    → Ledger
    → Result Ledger
of_blocks resolvable read [] l = ok l
of_blocks resolvable read (b ∷ bs) l = elim (resolvable b) [
  | false ↦ of_blocks resolvable read bs l
  | true ↦ do
    found ← read b
    of_blocks resolvable read bs (elim found [ none ↦ l | some entry ↦ absorb l entry b ])
]

unfoldable pub ledger_of :
    (resolvable : BlockId → Bool) (read : BlockId → Result (Option Entry))
    → Option (List BlockId)
    → Result Ledger
ledger_of resolvable read none = ok empty
ledger_of resolvable read (some block_ids) = of_blocks resolvable read block_ids empty

-- `self.dependents.get(block_id, set())`
abbrev pub dependents_of : Ledger → BlockId → List BlockId
dependents_of l b = set_at b l.dependents

unfoldable pub discover : Ledger → BlockId → List BlockId → List BlockId → List BlockId
discover l origin found frontier =
    filter (λ d. not (contains d found) && not (d == origin)) (flat_map (dependents_of l) frontier)

-- The loop of `closure`; an empty frontier ends it, and so does a round that discovers nothing.
unfoldable pub closure_loop :
    ℕ → Ledger → BlockId → List BlockId → List BlockId → Result (List BlockId)
closure_loop zero l origin found frontier = raise out_of_fuel
closure_loop (suc fuel) l origin found [] = ok found
closure_loop (suc fuel) l origin found (b ∷ frontier) =
    elim (discover l origin found (b ∷ frontier)) [
      | [] ↦ ok found
      | d ∷ ds ↦ closure_loop fuel l origin (union found (d ∷ ds)) (d ∷ ds)
    ]

-- Every block that is recorded as citing another.
unfoldable pub citing : Dict BlockId (List BlockId) → List BlockId
citing [] = []
citing ((_, ds) ∷ d) = ds ++ citing d

-- Fuel: each round but the last finds a citing block that was not found before.
unfoldable pub closure : Ledger → BlockId → Result (List BlockId)
closure l origin = closure_loop (length (citing l.dependents) + 2) l origin [] (origin ∷ [])

unfoldable pub successors_of : Ledger → BlockId → List BlockId
successors_of l b = elim (get b l.competing) [
  | some contested ↦ contested
  | none ↦ elim (get b l.superseded_by) [ none ↦ [] | some held ↦ held ∷ [] ]
]

-- `self.superseded_by.get(block) not in successors`
unfoldable pub is_standing : Ledger → List BlockId → BlockId → Bool
is_standing l successors b = elim (get b l.superseded_by) [
  | none ↦ true
  | some over ↦ not (contains over successors)
]

unfoldable pub contested : Ledger → BlockId → List BlockId
contested l b =
    let successors = distinct (successors_of l b) in
    let standing = filter (is_standing l successors) successors in
    if ltb (length successors) 2 then [] else if ltb 1 (length standing) then standing else []

unfoldable pub is_accessible : Ledger → BlockId → Bool
is_accessible l b = elim (get b l.superseded_by) [
  | none ↦ not (contains b l.demoted)
  | some _ ↦ false
]
