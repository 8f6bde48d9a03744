-- ===== src/Reconcile/Tests.antt =====
-- Three versions of one module: runs of reconcile/merge.py, and the theorems at them.
use pyboltzmann.Prelude.{◌≡◌, refl, true, false, ◌&&◌, some, List, [], ◌∷◌, arith}
use pyboltzmann.Prelude.Order.{◌==◌}
use pyboltzmann.Prelude.Sets.{contains}
use pyboltzmann.Prelude.Bytes.{bytes_lt}
use pyboltzmann.Exceptions.{ok, raise, append_only_violation}
use pyboltzmann.Identity.{BlockId, block_order}
use pyboltzmann.Identity.Toy.{toy, block}
use pyboltzmann.Blocks.MemoryType.{MemoryType, is_append_only}
use pyboltzmann.Module.Composition.{Composition, make, block_ids, has}
use pyboltzmann.Module.Composition.Laws.{make-IsVersion, has-make}
use pyboltzmann.Reconcile.Merge.{ModuleReconciliation, combine, merge_module}
use pyboltzmann.Reconcile.Merge.Laws.{IsMerge, merge_module-IsMerge, combine-refused}
use pyboltzmann.Reconcile.Merge.Convergence.{outcome, merge_module_swap, merge_module_fast_forward}

abbrev version : List BlockId → Composition
version bs = make MemoryType.semantic bs

abbrev base : Composition
base = version (block 1 ∷ block 2 ∷ [])

abbrev ours : Composition
ours = version (block 1 ∷ block 3 ∷ [])

abbrev theirs : Composition
theirs = version (block 4 ∷ block 1 ∷ block 2 ∷ [])

semantic_may_drop : is_append_only MemoryType.semantic ≡ true → ⊥
unfolding is_append_only
semantic_may_drop h = ground arith

merge_module-IsMerge_example :
    (r : ModuleReconciliation) × (merge_module MemoryType.semantic
        (some base)
        (some ours)
        (some theirs)
      ≡ ok (some r))
    × IsMerge (block_ids base) ours theirs r
unfolding make
merge_module-IsMerge_example =
    merge_module-IsMerge MemoryType.semantic base ours theirs refl refl refl
      (λ h. absurd (semantic_may_drop h))

abbrev log : Composition
log = make MemoryType.episodic (block 1 ∷ [])

abbrev cut : Composition
cut = make MemoryType.episodic (block 2 ∷ [])

log_loses : (has cut (block 1) && has log (block 1)) ≡ false
unfolding contains ◌==◌ bytes_lt
log_loses = rw (has-make MemoryType.episodic (block 2 ∷ []) (block 1)) refl

combine-refused_case :
    combine MemoryType.episodic (block 1 ∷ []) cut log ≡ raise append_only_violation
unfolding is_append_only contains ◌==◌ bytes_lt
combine-refused_case =
    combine-refused MemoryType.episodic (block 1 ∷ []) cut log (block 1) refl refl log_loses

merge_module_swap_example :
    outcome (merge_module MemoryType.semantic (some base) (some ours) (some theirs))
    ≡ outcome (merge_module MemoryType.semantic (some base) (some theirs) (some ours))
merge_module_swap_example =
    merge_module_swap MemoryType.semantic (some base) (some ours) (some theirs)
      (make-IsVersion MemoryType.semantic (block 1 ∷ block 3 ∷ []))
      (make-IsVersion MemoryType.semantic (block 4 ∷ block 1 ∷ block 2 ∷ []))

merge_module_fast_forward_case :
    (r : ModuleReconciliation) × (merge_module MemoryType.semantic
        (some base)
        (some ours)
        (some base)
      ≡ ok (some r))
    × (r.block_ids ≡ block_ids ours)
unfolding make
merge_module_fast_forward_case =
    merge_module_fast_forward MemoryType.semantic base ours
      (make-IsVersion MemoryType.semantic (block 1 ∷ block 3 ∷ [])) refl refl
      (λ h. absurd (semantic_may_drop h))
