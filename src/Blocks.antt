-- ===== src/Blocks.antt =====
-- blocks/: the memory types, and what the other parts read of a block.
pub mod MemoryType
pub mod Block
