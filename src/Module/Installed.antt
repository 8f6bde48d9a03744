-- ===== src/Module/Installed.antt =====
-- `Module` of module/module.py: one memory module at one version, read through the store.
pub mod Laws
mod Tests
use pyboltzmann.Prelude.{
  Bool, true, false, not, ◌&&◌, ◌||◌, Option, none, some, List, [], ◌∷◌, if◌then◌else◌, all,
}
use pyboltzmann.Prelude.Sets.{contains, union, difference, intersection}
use pyboltzmann.Exceptions.{
  Result, ok, raise, ◌>>=◌, value_error, membership_error, block_tombstoned, memory_type_error,
}
use pyboltzmann.Identity.{BlockId, block_order}
use pyboltzmann.Blocks.MemoryType.{MemoryType, is_same}
use pyboltzmann.Blocks.Block.{Block, memory_type_of}
use pyboltzmann.Module.Composition
use pyboltzmann.Module.Composition.{Composition, block_ids, has, add, drop}
use pyboltzmann.Store.{BlockStore}

pub record Module : Type 0 where
  pub memory_type : MemoryType
  pub store : BlockStore
  pub composition : Composition
  pub tombstones : List BlockId

unfoldable pub is_nil : List BlockId → Bool
is_nil [] = true
is_nil _ = false

-- `Module(memory_type, store, composition, tombstones=tombstones)`
unfoldable pub open_module :
    MemoryType → BlockStore → Option Composition → List BlockId → Result Module
open_module memory_type store given tombstones =
    let held : Composition = elim given [ none ↦ Composition.make memory_type [] | some c ↦ c ] in
    if not (is_same held.memory_type memory_type)
    then raise value_error
    else if not (is_nil (difference tombstones (block_ids held)))
    then raise value_error
    else ok (record {
      memory_type = memory_type;
      store = store;
      composition = held;
      tombstones = tombstones;
    })

unfoldable pub check : MemoryType → Block → Result Block
check memory_type block =
    if not (is_same (memory_type_of block) memory_type) then raise memory_type_error else ok block

unfoldable pub get : Module → BlockId → Result Block
get m block_id =
    if not (has m.composition block_id)
    then raise membership_error
    else if contains block_id m.tombstones
    then raise block_tombstoned
    else do block ← m.store.get_block block_id; check m.memory_type block

-- `resolvable`: each block with whether its bytes resolve.
unfoldable pub resolvable : Module → BlockId → Bool
resolvable m block_id = not (contains block_id m.tombstones) && m.store.is_resolvable block_id

unfoldable pub with_blocks : Module → List BlockId → Result Module
with_blocks m added =
    open_module m.memory_type m.store (some (add m.composition added)) m.tombstones

unfoldable pub without_blocks : Module → List BlockId → Result Module
without_blocks m dropped = do
  kept ← drop m.composition dropped
  open_module m.memory_type m.store (some kept) (intersection m.tombstones (block_ids kept))

unfoldable pub with_tombstones : Module → List BlockId → Result Module
with_tombstones m destroyed =
    open_module m.memory_type m.store (some m.composition) (union m.tombstones destroyed)
