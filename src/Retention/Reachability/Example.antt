-- ===== src/Retention/Reachability/Example.antt =====
-- A snapshot of one module of two blocks, one of which names content.
use pyboltzmann.Prelude.{none, List, [], ◌∷◌, if◌then◌else◌}
use pyboltzmann.Prelude.Order.{◌==◌}
use pyboltzmann.Prelude.Bytes.{Bytes, bytes_order}
use pyboltzmann.Exceptions.{ok, raise}
use pyboltzmann.Identity.{Digest, OciDigest, BlockId}
use pyboltzmann.Identity.Toy.{toy, toy_digest}
use pyboltzmann.Identity.Serialization.Toy.{toy_json}
use pyboltzmann.Blocks.MemoryType.{MemoryType}
use pyboltzmann.Module.Composition.{Composition, make}
use pyboltzmann.Module.Composition.Document.{document}
use pyboltzmann.Store.Memory.{MemoryBlockStore}
use pyboltzmann.Retention.Reachability.{Snapshot, ModuleRef, Decoders}

abbrev pub first : BlockId
first = record { raw = toy_digest (1 ∷ []) }

abbrev pub second : BlockId
second = record { raw = toy_digest (2 ∷ []) }

abbrev pub version : Composition
version = make MemoryType.semantic (first ∷ second ∷ [])

abbrev pub written : Bytes
written = elim (document version) [ raise _ ↦ [] | ok content ↦ content ]

abbrev pub evidence : Bytes
evidence = 9 ∷ []

abbrev pub root : OciDigest
root = record { raw = toy_digest (7 ∷ []) }

abbrev pub module_ref : ModuleRef
module_ref = record { composition = record { raw = toy_digest written }; index_digest = none }

abbrev pub snapshot_of : Bytes → Snapshot
snapshot_of content = record {
  digest = record { raw = toy_digest content };
  parents = [];
  modules = module_ref ∷ [];
}

-- The first block names the evidence.
abbrev pub decoders : Decoders
decoders = record {
  content_digests = λ content. if content == 1 ∷ [] then ok (toy_digest evidence ∷ []) else ok [];
  read_snapshot = λ content. ok (snapshot_of content);
}

-- A store where the first block has some bytes; one entry is garbage.
abbrev pub store_with : Bytes → MemoryBlockStore
store_with content = record {
  blobs =
      (toy_digest written, written)
      ∷ (first.raw, content)
      ∷ (second.raw, 2 ∷ [])
      ∷ (toy_digest evidence, evidence)
      ∷ (toy_digest (8 ∷ []), 8 ∷ [])
      ∷ (root.raw, 7 ∷ [])
      ∷ [];
  tombstones = [];
  pointers = [];
}

abbrev pub needed : List Digest
needed = root.raw ∷ toy_digest written ∷ first.raw ∷ toy_digest evidence ∷ second.raw ∷ []
