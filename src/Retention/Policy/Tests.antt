-- ===== src/Retention/Policy/Tests.antt =====
-- The permissive policy of retention/policy.py and the default one: runs, and the theorems at them.
use pyboltzmann.Prelude.{◌≡◌, ◌↔◌, refl, true, false, none, [], ◌∷◌}
use pyboltzmann.Exceptions.{ok, raise, retention_policy}
use pyboltzmann.Blocks.MemoryType.{MemoryType, is_append_only, is_same}
use pyboltzmann.Retention.Policy.{
  drop, tombstone, is_redaction, is_mechanism, RetentionPolicy, lists_module, lists_mechanism,
  is_allowed, redacts_nothing, authorize,
}
use pyboltzmann.Retention.Policy.Laws.{authorize-drop, Widens, authorize-Widens}

program : Unit {0}
unfolding is_append_only is_same is_redaction is_mechanism lists_module lists_mechanism is_allowed
    redacts_nothing authorize
program = tt

abbrev default_policy : RetentionPolicy
default_policy = record {
  droppable_modules =
      MemoryType.canonical ∷ MemoryType.semantic ∷ MemoryType.procedural ∷ MemoryType.provenance
      ∷ [];
  canonical_drop_allowed = false;
  cascade_review_threshold = none;
  retained_roots = 10;
  redactable_media_types = none;
  allowed_mechanisms = none;
}

-- `PERMISSIVE_POLICY`
abbrev permissive_policy : RetentionPolicy
permissive_policy = record default_policy { canonical_drop_allowed = true }

answers :
    (authorize default_policy drop MemoryType.semantic ≡ ok tt)
    × (authorize default_policy drop MemoryType.canonical ≡ raise retention_policy)
    × (authorize permissive_policy drop MemoryType.canonical ≡ ok tt)
    × (authorize permissive_policy drop MemoryType.episodic ≡ raise retention_policy)
    × (authorize permissive_policy tombstone MemoryType.semantic ≡ raise retention_policy)
unfolding program
answers = (refl, refl, refl, refl, refl)

authorize-drop_case : (authorize permissive_policy drop MemoryType.canonical ≡ ok tt) ↔ (
    (is_append_only MemoryType.canonical ≡ false)
    × (is_allowed drop permissive_policy.allowed_mechanisms ≡ true)
    × (lists_module MemoryType.canonical permissive_policy.droppable_modules ≡ true)
    × (is_same MemoryType.canonical MemoryType.canonical ≡ true → true ≡ true))
authorize-drop_case = authorize-drop permissive_policy MemoryType.canonical

permissive-Widens : Widens default_policy permissive_policy
permissive-Widens = record {
  modules = λ m h. h;
  canonical = λ h. refl;
  redactable = λ h. h;
  mechanisms = λ k h. h;
}

authorize-Widens_case : authorize permissive_policy drop MemoryType.semantic ≡ ok tt
unfolding program
authorize-Widens_case =
    authorize-Widens default_policy permissive_policy drop MemoryType.semantic permissive-Widens
      refl
