-- ===== src/Retention/Reachability/Tests.antt =====
-- Runs of retention/reachability.py on a snapshot of one module of two blocks.
use pyboltzmann.Prelude.{
  ◌≡◌, ◌↔◌, refl, true, Option, none, some, List, [], ◌∷◌, ◌++◌, In, here, if◌then◌else◌,
}
use pyboltzmann.Prelude.Order.{◌==◌}
use pyboltzmann.Prelude.Bytes.{Bytes, bytes_order}
use pyboltzmann.Exceptions.{Exception, ok, raise, ◌>>=◌, block_integrity}
use pyboltzmann.Identity.{Digest, OciDigest, BlockId}
use pyboltzmann.Identity.Toy.{toy, toy_digest, checksum}
use pyboltzmann.Identity.Serialization.Toy.{toy_json}
use pyboltzmann.Module.Composition.{Composition, make, block_ids}
use pyboltzmann.Module.Composition.Document.{document, from_document}
use pyboltzmann.Store.Memory
use pyboltzmann.Store.Memory.{MemoryBlockStore}
use pyboltzmann.Retention.Reachability
use pyboltzmann.Retention.Reachability.{
  Snapshot, ModuleRef, Decoders, tolerated, is_gone, raws, index_of,
}
use pyboltzmann.Retention.Reachability.Needs.{Needs}
use pyboltzmann.Retention.Reachability.Marked.{mark-Needs}
use pyboltzmann.Retention.Reachability.Corruption.{mark_stops}
use pyboltzmann.Identity.Hashing.{sha256}
use pyboltzmann.Prelude.Dict.{get, has_key}
use pyboltzmann.Prelude.Sets.{contains}
use pyboltzmann.Retention.Reachability.Example.{
  first, version, written, evidence, module_ref, snapshot_of, decoders, store_with, needed,
}

program : Unit {0}
unfolding document ◌==◌ pyboltzmann.Prelude.Bytes.bytes_lt make pyboltzmann.Merkle.Tree.init
    toy_digest from_document pyboltzmann.Identity.Serialization.Canonical.parse_json_strict
    pyboltzmann.Identity.Serialization.Toy.toy_loads
    pyboltzmann.Identity.Serialization.Toy.toy_dumps
    pyboltzmann.Identity.Serialization.Toy.read_text pyboltzmann.Prelude.drop
    pyboltzmann.Prelude.take pyboltzmann.Module.Composition.Document.of_decoded
    pyboltzmann.Identity.Json.member_at pyboltzmann.Prelude.Texts.starts_with
    pyboltzmann.Prelude.all get checksum sha256 has_key contains tolerated is_gone raws index_of
    Memory.load Memory.get_bytes block_ids Reachability.read_composition Reachability.bytes_named_by
    Reachability.blocks_need Reachability.members_need Reachability.modules_need
    Reachability.reachable_from Reachability.mark
program = tt

marked : Reachability.mark decoders (snapshot_of (7 ∷ []) ∷ []) (store_with (1 ∷ [])) ≡ ok needed
unfolding program
marked = refl

mark-Needs_example : (contains (toy_digest evidence) needed ≡ true) ↔ (
    (snapshot : Snapshot) × In snapshot (snapshot_of (7 ∷ []) ∷ [])
    × Needs decoders (store_with (1 ∷ [])) snapshot (toy_digest evidence))
mark-Needs_example =
    mark-Needs decoders (store_with (1 ∷ [])) (snapshot_of (7 ∷ []) ∷ []) needed
      (toy_digest evidence) marked

read : (Memory.get_bytes (store_with (3 ∷ [])) (toy_digest written) >>= from_document) ≡ ok version
unfolding program
read = refl

corrupt : Memory.get_bytes (store_with (3 ∷ [])) first.raw ≡ raise block_integrity
unfolding program
corrupt = refl

member : In first (block_ids version)
unfolding program
member = here

mark_stops_example :
    (e : Exception) × (Reachability.mark decoders (snapshot_of (7 ∷ []) ∷ []) (store_with (3 ∷ []))
      ≡ raise e)
mark_stops_example =
    mark_stops decoders (store_with (3 ∷ [])) (snapshot_of (7 ∷ []) ∷ []) (snapshot_of (7 ∷ []))
      module_ref version first here here read member corrupt
