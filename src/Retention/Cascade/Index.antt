-- ===== src/Retention/Cascade/Index.antt =====
-- `reference_index` of retention/cascade.py: what it files as pointing at a block is what a readable
-- block of a semantic or procedural module references.
use pyboltzmann.Prelude.{
  Bool, true, false, ◌&&◌, ◌||◌, none, some, List, [], ◌∷◌, ◌≡◌, refl, ap, ◌∙◌, sym, arith, inl,
  inr, Bool-cases, Option-cases, if◌then◌else◌,
}
use pyboltzmann.Prelude.Order.{◌==◌, ==_sound, ==_comm}
use pyboltzmann.Prelude.Sets.{contains}
use pyboltzmann.Prelude.Dict.{get, put, get-put}
use pyboltzmann.Exceptions.{ok, raise, Result-cases}
use pyboltzmann.Identity.{BlockId, block_order}
use pyboltzmann.Blocks.MemoryType.{MemoryType, memory_order}
use pyboltzmann.Module.Composition.{block_ids}
use pyboltzmann.Module.Installed
use pyboltzmann.Module.Installed.{Module}
use pyboltzmann.Retention.Cascade.{
  ByModule, ReferenceIndex, Modules, flatten, pointing, update, references, add_targets,
  index_blocks, index_module, reference_index,
}
use pyboltzmann.Retention.Cascade.Walk.{contains-update, pointing_at}

-- Whether the block `b` of a module is resolvable and read as one that references `target`.
unfoldable pub refers : Module → BlockId → BlockId → Bool
refers m target b =
    m.store.is_resolvable b
    && elim (Installed.get m b) [ ok block ↦ contains target (references block) | raise _ ↦ false ]

unfoldable pub refers_from : MemoryType → Modules → BlockId → BlockId → Bool
refers_from kind modules target b = elim (get kind modules) [
  | none ↦ false
  | some m ↦ contains b (block_ids m.composition) && refers m target b
]

pointing-put :
    (t target : BlockId) (d : ByModule) (index : ReferenceIndex)
    → pointing t (put target d index) ≡ (if target == t then d else pointing t index)
unfolding pointing
pointing-put t target d index = ground (arith, get-put target t d index)

contains-filed :
    (x b t : BlockId) (kind : MemoryType) (target : BlockId) (index : ReferenceIndex)
    → contains x (pointing_at (put target (update kind (b ∷ []) (pointing target index)) index) t)
      ≡ (contains x (pointing_at index t) || ((x == b) && (t == target)))
unfolding contains
contains-filed x b t kind target index =
    let entry : ByModule = update kind (b ∷ []) (pointing target index) in
    let here = contains-update x kind (b ∷ []) (pointing target index) in
    elim (Bool-cases (target == t)) [
      | inl e ↦
          let moved : contains x (pointing_at (put target entry index) t)
              ≡ contains x (flatten entry) =
            ap (λ d. contains x (flatten d)) (pointing-put t target entry index ∙ rw e refl) in
          let old : contains x (pointing_at index target) ≡ contains x (pointing_at index t) =
            ap (λ k. contains x (pointing_at index k)) (==_sound target t e) in
          ground (arith, moved, here, old, ==_comm target t)
      | inr n ↦
          let kept : contains x (pointing_at (put target entry index) t)
              ≡ contains x (pointing_at index t) =
            ap (λ d. contains x (flatten d)) (pointing-put t target entry index ∙ rw n refl) in
          ground (arith, kept, ==_comm target t)
    ]

contains-add_targets :
    (x b t : BlockId) (kind : MemoryType) (targets : List BlockId) (index : ReferenceIndex)
    → contains x (pointing_at (add_targets kind b targets index) t)
      ≡ (contains x (pointing_at index t) || ((x == b) && contains t targets))
unfolding add_targets contains
contains-add_targets x b t kind [] index = ground arith
contains-add_targets x b t kind (target ∷ targets) index =
    let entry : ByModule = update kind (b ∷ []) (pointing target index) in
    ground (
      arith,
      contains-add_targets x b t kind targets (put target entry index),
      contains-filed x b t kind target index,
    )

index_blocks_lem :
    (x t : BlockId) (kind : MemoryType) (m : Module) (bs : List BlockId) (index r : ReferenceIndex)
    → index_blocks kind m bs index ≡ ok r
    → contains x (pointing_at r t)
      ≡ (contains x (pointing_at index t) || (contains x bs && refers m t x))
unfolding index_blocks refers contains
index_blocks_lem x t kind m [] index r run =
    let same : index ≡ r = ground arith in
    ap (λ i. contains x (pointing_at i t)) (sym same) ∙ ground arith
index_blocks_lem x t kind m (b ∷ bs) index r run = elim (Bool-cases (m.store.is_resolvable b)) [
  | inl e ↦ elim (Result-cases (Installed.get m b)) [
    | inl (block, f) ↦
        let grown : ReferenceIndex = add_targets kind b (references block) index in
        let rest : index_blocks kind m bs grown ≡ ok r = ground (arith, run, e, f) in
        let later = index_blocks_lem x t kind m bs grown r rest in
        let now = contains-add_targets x b t kind (references block) index in
        let answer : (x == b) ≡ true → refers m t x ≡ contains t (references block) =
          λ s. ap (refers m t) (==_sound x b s) ∙ ground (arith, e, f) in
        ground (arith, later, now, answer)
    | inr (y, f) ↦ absurd (ground (arith, run, e, f))
  ]
  | inr n ↦
      let rest : index_blocks kind m bs index ≡ ok r = ground (arith, run, n) in
      let later = index_blocks_lem x t kind m bs index r rest in
      let answer : (x == b) ≡ true → refers m t x ≡ false =
        λ s. ap (refers m t) (==_sound x b s) ∙ ground (arith, n) in
      ground (arith, later, answer)
]

index_module_lem :
    (x t : BlockId) (kind : MemoryType) (modules : Modules) (index r : ReferenceIndex)
    → index_module kind modules index ≡ ok r
    → contains x (pointing_at r t)
      ≡ (contains x (pointing_at index t) || refers_from kind modules t x)
unfolding index_module refers_from
index_module_lem x t kind modules index r run = elim (Option-cases (get kind modules)) [
  | inl e ↦
      let same : index ≡ r = ground (arith, run, e) in
      ap (λ i. contains x (pointing_at i t)) (sym same) ∙ ground (arith, e)
  | inr (m, e) ↦
      let rest : index_blocks kind m (block_ids m.composition) index ≡ ok r =
        ground (arith, run, e) in
      index_blocks_lem x t kind m (block_ids m.composition) index r rest ∙ ground (arith, e)
]

-- Where the index is built, it files a block as pointing at another exactly when it is a resolvable block of
-- the semantic or the procedural module that references it.
pub reference_index-refers :
    (modules : Modules) (index : ReferenceIndex)
    → reference_index modules ≡ ok index
    → (t x : BlockId)
    → contains x (pointing_at index t) ≡ (
        refers_from MemoryType.semantic modules t x
        || refers_from MemoryType.procedural modules t x)
unfolding reference_index contains pointing flatten get
reference_index-refers modules index run t x =
    elim (Result-cases (index_module MemoryType.semantic modules [])) [
      | inl (first, e) ↦
          let rest : index_module MemoryType.procedural modules first ≡ ok index =
            ground (arith, run, e) in
          let semantic = index_module_lem x t MemoryType.semantic modules [] first e in
          let procedural = index_module_lem x t MemoryType.procedural modules first index rest in
          procedural ∙ ap (λ b. b || refers_from MemoryType.procedural modules t x) semantic
      | inr (y, e) ↦ absurd (ground (arith, run, e))
    ]
