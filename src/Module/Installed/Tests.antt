-- ===== src/Module/Installed/Tests.antt =====
-- A module with a tombstone: the theorems on module/module.py at it.
use pyboltzmann.Prelude.{◌≡◌, ◌↔◌, refl, true, false, not, ◌&&◌, ◌||◌, none, [], ◌∷◌, arith}
use pyboltzmann.Prelude.Order.{◌==◌}
use pyboltzmann.Prelude.Sets.{contains}
use pyboltzmann.Prelude.Bytes.{bytes_lt}
use pyboltzmann.Exceptions.{ok}
use pyboltzmann.Identity.{BlockId, block_order}
use pyboltzmann.Identity.Toy.{block}
use pyboltzmann.Blocks.MemoryType.{MemoryType, is_same, is_append_only}
use pyboltzmann.Blocks.Block.{semantic_block, memory_type_of}
use pyboltzmann.Store.{BlockStore}
use pyboltzmann.Merkle.Tree.{sorted_leaves, init}
use pyboltzmann.Module.Composition.{make, has}
use pyboltzmann.Module.Composition.Laws.{make-IsVersion}
use pyboltzmann.Module.Installed.{Module, get, with_blocks, without_blocks}
use pyboltzmann.Module.Installed.Laws.{IsOpen, get_lem, with_blocks-IsOpen, without_blocks-IsOpen}

abbrev store : BlockStore
store = record { is_resolvable = λ b. true; get_block = λ b. ok (semantic_block none) }

abbrev held : Module
held = record {
  memory_type = MemoryType.semantic;
  store = store;
  composition = make MemoryType.semantic (block 1 ∷ block 2 ∷ []);
  tombstones = block 2 ∷ [];
}

held-IsOpen : IsOpen held
unfolding make init has sorted_leaves contains ◌==◌ bytes_lt
held-IsOpen = record {
  typed = refl;
  version = make-IsVersion MemoryType.semantic (block 1 ∷ block 2 ∷ []);
  buried = λ b h. ground arith;
}

get_lem_case : (get held (block 1) ≡ ok (semantic_block none)) ↔ (
    (has held.composition (block 1) ≡ true)
    × (contains (block 1) held.tombstones ≡ false)
    × (held.store.get_block (block 1) ≡ ok (semantic_block none))
    × (is_same (memory_type_of (semantic_block none)) held.memory_type ≡ true))
get_lem_case = get_lem held (block 1) (semantic_block none)

with_blocks-IsOpen_case :
    (n : Module) × (with_blocks held (block 3 ∷ []) ≡ ok n)
    × IsOpen n
    × (n.tombstones ≡ held.tombstones)
    × ((b : BlockId) → has n.composition b ≡ (has held.composition b || contains b (block 3 ∷ [])))
with_blocks-IsOpen_case = with_blocks-IsOpen held (block 3 ∷ []) held-IsOpen

without_blocks-IsOpen_case :
    (n : Module) × (without_blocks held (block 2 ∷ []) ≡ ok n)
    × IsOpen n
    × ((b : BlockId)
        → has n.composition b ≡ (has held.composition b && not (contains b (block 2 ∷ []))))
    × ((b : BlockId)
        → contains b n.tombstones ≡ (contains b held.tombstones && not (contains b (block 2 ∷ []))))
unfolding is_append_only
without_blocks-IsOpen_case = without_blocks-IsOpen held (block 2 ∷ []) held-IsOpen refl
