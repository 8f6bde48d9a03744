-- ===== src/Authenticity/Chain/Tests.antt =====
-- A chain of three snapshots, of which the store may lack the first.
use pyboltzmann.Prelude.{
  ◌≡◌, ◌⊎◌, refl, Bool, true, false, Option, none, some, List, [], ◌∷◌, arith, if◌then◌else◌,
}
use pyboltzmann.Prelude.Order.{◌==◌}
use pyboltzmann.Prelude.Bytes.{Bytes, bytes_order}
use pyboltzmann.Exceptions.{Exception, Result, ok, raise, snapshot_error, out_of_fuel}
use pyboltzmann.Identity.{OciDigest}
use pyboltzmann.Identity.Toy.{toy, toy_digest}
use pyboltzmann.Store.Memory
use pyboltzmann.Store.Memory.{MemoryBlockStore}
use pyboltzmann.Authenticity.Chain
use pyboltzmann.Authenticity.Chain.{Snapshot, Position, first_parent}
use pyboltzmann.Authenticity.Chain.Genesis.{start, back, genesis_of-Line}
use pyboltzmann.Authenticity.Chain.Ends.{walk_first_parents_ends}

abbrev named : Bytes → OciDigest
named content = record { raw = toy_digest content }

abbrev first : Snapshot
first = record { digest = named (1 ∷ []); parents = []; trust_root = none }

abbrev second : Snapshot
second = record { digest = named (2 ∷ []); parents = named (1 ∷ []) ∷ []; trust_root = none }

abbrev third : Snapshot
third = record { digest = named (3 ∷ []); parents = named (2 ∷ []) ∷ []; trust_root = none }

abbrev from_document : Bytes → Result Snapshot
from_document content =
    if content == 1 ∷ []
    then ok first
    else if content == 2 ∷ []
    then ok second
    else raise snapshot_error

abbrev store : MemoryBlockStore
store = record {
  blobs = (toy_digest (1 ∷ []), 1 ∷ []) ∷ (toy_digest (2 ∷ []), 2 ∷ []) ∷ [];
  tombstones = [];
  pointers = [];
}

abbrev pruned : MemoryBlockStore
pruned = record { blobs = (toy_digest (2 ∷ []), 2 ∷ []) ∷ []; tombstones = []; pointers = [] }

found : Chain.genesis_of from_document store third ≡ ok (some (named (1 ∷ [])))
unfolding Chain.genesis_of first_parent Chain.Memory.is_resolvable pyboltzmann.Prelude.Dict.has_key
    pyboltzmann.Prelude.Dict.get ◌==◌ pyboltzmann.Prelude.Bytes.bytes_lt toy_digest Chain.readable
    Chain.Memory.get_bytes pyboltzmann.Identity.Hashing.sha256 pyboltzmann.Prelude.Sets.contains
    Chain.max_walk Chain.onward Chain.positioned Chain.at_genesis Chain.genesis_in
    Chain.load_snapshot Chain.add
found = refl

undecided : Chain.genesis_of from_document pruned third ≡ ok none
unfolding Chain.genesis_of first_parent Chain.Memory.is_resolvable pyboltzmann.Prelude.Dict.has_key
    pyboltzmann.Prelude.Dict.get ◌==◌ pyboltzmann.Prelude.Bytes.bytes_lt toy_digest Chain.readable
    Chain.Memory.get_bytes pyboltzmann.Identity.Hashing.sha256 pyboltzmann.Prelude.Sets.contains
    Chain.max_walk Chain.onward Chain.positioned Chain.genesis_in Chain.load_snapshot Chain.add
undecided = refl

load_second : Chain.load_snapshot from_document store (named (2 ∷ [])) ≡ ok (some second)
unfolding Chain.load_snapshot Chain.Memory.is_resolvable pyboltzmann.Prelude.Dict.has_key
    pyboltzmann.Prelude.Dict.get ◌==◌ pyboltzmann.Prelude.Bytes.bytes_lt toy_digest Chain.readable
    Chain.Memory.get_bytes pyboltzmann.Identity.Hashing.sha256
load_second = refl

named_second : first_parent third.parents ≡ some (named (2 ∷ []))
unfolding first_parent
named_second = refl

genesis_of-Line_example :
    (Chain.genesis_of from_document store second ≡ ok (some (named (1 ∷ []))))
    × (first_parent second.parents ≡ none → some (named (1 ∷ [])) ≡ some second.digest)
genesis_of-Line_example =
    genesis_of-Line from_document store third second (some (named (1 ∷ []))) found
      (back (named (2 ∷ [])) start named_second load_second)

loads_end : (d : OciDigest) → Chain.load_snapshot from_document store d ≡ raise out_of_fuel → ⊥
unfolding Chain.load_snapshot Chain.readable Memory.get_bytes Memory.load
loads_end d h = ground arith

walk_first_parents_ends_example :
    ((positions : List Position) × (Chain.walk_first_parents from_document store third
        ≡ ok positions))
    ⊎ ((e : Exception) × (Chain.walk_first_parents from_document store third ≡ raise e)
        × (e ≡ out_of_fuel → ⊥))
walk_first_parents_ends_example = walk_first_parents_ends from_document store loads_end third
