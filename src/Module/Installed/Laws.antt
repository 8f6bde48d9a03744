-- ===== src/Module/Installed/Laws.antt =====
-- What reading an installed module of module/module.py returns, and what deriving one keeps.
use pyboltzmann.Prelude.{
  true, false, not, ◌&&◌, ◌||◌, some, List, [], ◌∷◌, ◌≡◌, ◌↔◌, refl, ap, ◌∙◌, arith, inl, inr,
}
use pyboltzmann.Prelude.Order.{==_refl}
use pyboltzmann.Prelude.Sets.{
  contains, union, difference, intersection, contains-difference, contains-intersection,
}
use pyboltzmann.Exceptions.{ok, Result-cases}
use pyboltzmann.Identity.{BlockId, block_order}
use pyboltzmann.Blocks.MemoryType.{is_same, is_same_self, is_append_only}
use pyboltzmann.Blocks.Block.{Block, memory_type_of}
use pyboltzmann.Module.Composition.{Composition, block_ids, has, add, make}
use pyboltzmann.Module.Composition.Laws.{IsVersion, make-IsVersion, has-add, drop_lem}
use pyboltzmann.Module.Installed.{
  Module, is_nil, open_module, check, get, with_blocks, without_blocks,
}

-- What `Module.__init__` establishes.
pub record IsOpen (m : Module) : Type 0 where
  pub typed : m.composition.memory_type ≡ m.memory_type
  pub version : IsVersion m.composition
  pub buried : (b : BlockId) → contains b m.tombstones ≡ true → has m.composition b ≡ true

-- A block is read exactly when it is a member that is not tombstoned, and the store returns a block
-- of the module's type.
pub get_lem :
    (m : Module) (b : BlockId) (block : Block)
    → (get m b ≡ ok block) ↔ (
        (has m.composition b ≡ true)
        × (contains b m.tombstones ≡ false)
        × (m.store.get_block b ≡ ok block)
        × (is_same (memory_type_of block) m.memory_type ≡ true))
unfolding get check
get_lem m b block = elim (Result-cases (m.store.get_block b)) [
  | inl (x, e) ↦ (
    (λ h.
        let here : has m.composition b ≡ true = ground (arith, e) in
        let alive : contains b m.tombstones ≡ false = ground (arith, e) in
        let same : x ≡ block = ground (arith, e) in
        (here, alive, e ∙ ap ok same, ground (arith, e, same))),
    (λ (p, q, r, s). let same : x ≡ block = ground (arith, e, r) in ground (arith, p, q, r, s)),
  )
  | inr (x, e) ↦
      ((λ h. absurd (ground (arith, e))), (λ (p, q, r, s). absurd (ground (arith, e, r))))
]

is_nil_of : (bs : List BlockId) → ((b : BlockId) → contains b bs ≡ false) → is_nil bs ≡ true
unfolding is_nil contains
is_nil_of [] h = refl
is_nil_of (b ∷ bs) h = absurd (ground (arith, h b, ==_refl b))

-- The module that is opened at a version of its type, with tombstones among the members.
abbrev module_at : Module → Composition → List BlockId → Module
module_at m c tombstones = record {
  memory_type = m.memory_type;
  store = m.store;
  composition = c;
  tombstones = tombstones;
}

open_module_lem :
    (m : Module) (c : Composition) (tombstones : List BlockId)
    → c.memory_type ≡ m.memory_type
    → ((b : BlockId) → contains b tombstones ≡ true → has c b ≡ true)
    → open_module m.memory_type m.store (some c) tombstones ≡ ok (module_at m c tombstones)
unfolding open_module has
open_module_lem m c tombstones t buried =
    let typed = is_same_self c.memory_type m.memory_type t in
    let none_outside : is_nil (difference tombstones (block_ids c)) ≡ true =
      is_nil_of (difference tombstones (block_ids c))
        (λ b. ground (arith, contains-difference b tombstones (block_ids c), buried b)) in
    ground (arith, typed, none_outside)

-- Adding blocks to an open module succeeds, keeps it open, keeps its tombstones, and adds exactly the
-- blocks named.
pub with_blocks-IsOpen :
    (m : Module) (bs : List BlockId)
    → IsOpen m
    → (n : Module) × (with_blocks m bs ≡ ok n)
      × IsOpen n
      × (n.tombstones ≡ m.tombstones)
      × ((b : BlockId) → has n.composition b ≡ (has m.composition b || contains b bs))
unfolding with_blocks add make
with_blocks-IsOpen m bs o =
    let grown = add m.composition bs in
    let kept : (b : BlockId) → contains b m.tombstones ≡ true → has grown b ≡ true =
      λ b h. ground (arith, has-add m.composition bs b, o.buried b h) in
    (
      module_at m grown m.tombstones,
      open_module_lem m grown m.tombstones o.typed kept,
      record {
        typed = o.typed;
        version = make-IsVersion m.composition.memory_type (union (block_ids m.composition) bs);
        buried = kept;
      },
      refl,
      has-add m.composition bs,
    )

-- Dropping blocks from an open module that is not append-only succeeds, keeps it open, and takes
-- exactly the blocks named out of its members and its tombstones.
pub without_blocks-IsOpen :
    (m : Module) (bs : List BlockId)
    → IsOpen m
    → is_append_only m.memory_type ≡ false
    → (n : Module) × (without_blocks m bs ≡ ok n)
      × IsOpen n
      × ((b : BlockId) → has n.composition b ≡ (has m.composition b && not (contains b bs)))
      × ((b : BlockId) → contains b n.tombstones ≡ (contains b m.tombstones && not (contains b bs)))
unfolding without_blocks has
without_blocks-IsOpen m bs o h = elim (drop_lem m.composition bs) [
  | inl (e, _) ↦ absurd (ground (arith, h, e, o.typed))
  | inr (e, (d, run, v, t, members)) ↦
      let buried = intersection m.tombstones (block_ids d) in
      let inside : (b : BlockId) → contains b buried ≡ true → has d b ≡ true =
        λ b k. ground (arith, contains-intersection b m.tombstones (block_ids d)) in
      (
        module_at m d buried,
        rw run (open_module_lem m d buried (t ∙ o.typed) inside),
        record { typed = t ∙ o.typed; version = v; buried = inside },
        members,
        λ b.
            ground
              (arith, contains-intersection b m.tombstones (block_ids d), members b, o.buried b),
      )
]
