-- ===== src/Blocks/Block.antt =====
-- blocks/semantic.py, blocks/procedural.py and blocks/provenance.py: what the other parts read of a
-- decoded block, which is its module, its structural edges and its provenance entry.
use Prim.Native.String.{String}
use pyboltzmann.Prelude.{Option, List}
use pyboltzmann.Identity.{BlockId}
use pyboltzmann.Blocks.MemoryType.{MemoryType}

pub record Relation : Type 0 where
  pub predicate : String
  pub target : BlockId

pub record Step : Type 0 where
  pub action : String
  pub uses : Option (List BlockId)

pub data Block : Type 0 where
  canonical_block episodic_block provenance_block : Block
  semantic_block : Option (List Relation) → Block
  procedural_block : List Step → Block

-- `block.MEMORY_TYPE`
unfoldable pub memory_type_of : Block → MemoryType
memory_type_of canonical_block = MemoryType.canonical
memory_type_of episodic_block = MemoryType.episodic
memory_type_of provenance_block = MemoryType.provenance
memory_type_of (semantic_block _) = MemoryType.semantic
memory_type_of (procedural_block _) = MemoryType.procedural
