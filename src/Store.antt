-- ===== src/Store.antt =====
-- store/base.py: what the other parts ask of a block store.
pub mod Memory
use pyboltzmann.Prelude.{Bool}
use pyboltzmann.Exceptions.{Result}
use pyboltzmann.Identity.{BlockId}
use pyboltzmann.Blocks.Block.{Block}

pub record BlockStore : Type 0 where
  pub is_resolvable : BlockId → Bool
  pub get_block : BlockId → Result Block
