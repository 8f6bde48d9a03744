-- ===== src/Retention/Policy.antt =====
-- retention/policy.py, with `RemovalMechanism` of blocks/provenance.py: what a deployment permits to be
-- removed.
pub mod Laws
mod Tests
use Prim.Native.String.{String}
use pyboltzmann.Prelude.{
  ℕ, Bool, true, false, not, ◌&&◌, ◌||◌, Option, none, some, List, [], ◌∷◌, if◌then◌else◌, ltb,
}
use pyboltzmann.Exceptions.{Result, ok, raise, retention_policy}
use pyboltzmann.Blocks.MemoryType
use pyboltzmann.Blocks.MemoryType.{MemoryType, is_append_only, is_same}

pub data RemovalMechanism : Type 0 where
  drop supersede demote prune tombstone crypto_shred lineage_rewrite : RemovalMechanism

unfoldable pub is_redaction : RemovalMechanism → Bool
is_redaction tombstone = true
is_redaction crypto_shred = true
is_redaction lineage_rewrite = true
is_redaction _ = false

-- `a is b`
unfoldable pub is_mechanism : RemovalMechanism → RemovalMechanism → Bool
is_mechanism drop drop = true
is_mechanism supersede supersede = true
is_mechanism demote demote = true
is_mechanism prune prune = true
is_mechanism tombstone tombstone = true
is_mechanism crypto_shred crypto_shred = true
is_mechanism lineage_rewrite lineage_rewrite = true
is_mechanism _ _ = false

pub record RetentionPolicy : Type 0 where
  pub droppable_modules : List MemoryType
  pub canonical_drop_allowed : Bool
  pub cascade_review_threshold : Option ℕ
  pub retained_roots : ℕ
  pub redactable_media_types : Option (List String)
  pub allowed_mechanisms : Option (List RemovalMechanism)

unfoldable pub lists_module : MemoryType → List MemoryType → Bool
lists_module m [] = false
lists_module m (n ∷ ns) = is_same m n || lists_module m ns

unfoldable pub lists_mechanism : RemovalMechanism → List RemovalMechanism → Bool
lists_mechanism k [] = false
lists_mechanism k (j ∷ js) = is_mechanism k j || lists_mechanism k js

-- `self.allowed_mechanisms is None or mechanism in self.allowed_mechanisms`
unfoldable pub is_allowed : RemovalMechanism → Option (List RemovalMechanism) → Bool
is_allowed k none = true
is_allowed k (some js) = lists_mechanism k js

-- `not self.redactable_media_types`
unfoldable pub redacts_nothing : Option (List String) → Bool
redacts_nothing none = true
redacts_nothing (some []) = true
redacts_nothing (some (_ ∷ _)) = false

unfoldable pub authorize : RetentionPolicy → RemovalMechanism → MemoryType → Result (Unit {0})
authorize policy mechanism memory_type =
    if is_mechanism mechanism drop && is_append_only memory_type
    then raise retention_policy
    else if not (is_allowed mechanism policy.allowed_mechanisms)
    then raise retention_policy
    else if is_mechanism mechanism drop && not (lists_module memory_type policy.droppable_modules)
    then raise retention_policy
    else if is_mechanism mechanism drop
        && (is_same memory_type MemoryType.canonical && not policy.canonical_drop_allowed)
    then raise retention_policy
    else if is_redaction mechanism && redacts_nothing policy.redactable_media_types
    then raise retention_policy
    else ok tt

unfoldable pub requires_review : RetentionPolicy → ℕ → Bool
requires_review policy cascade_size = elim policy.cascade_review_threshold [
  | none ↦ false
  | some threshold ↦ ltb threshold cascade_size
]
