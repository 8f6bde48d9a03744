-- ===== src/Retention/Policy/Laws.antt =====
-- What retention/policy.py permits, for every configuration.
use pyboltzmann.Prelude.{true, false, ◌≡◌, ◌↔◌, arith}
use pyboltzmann.Exceptions.{ok}
use pyboltzmann.Blocks.MemoryType.{MemoryType, is_append_only, is_same}
use pyboltzmann.Retention.Policy.{
  RemovalMechanism, drop, is_redaction, is_mechanism, RetentionPolicy, lists_module, is_allowed,
  redacts_nothing, authorize,
}

-- A drop is permitted exactly from a module that is not append-only and that the policy lists, where the
-- policy does not restrict the mechanisms or lists drops, and, for the canonical module, where it allows
-- canonical drops.
pub authorize-drop :
    (p : RetentionPolicy) (m : MemoryType)
    → (authorize p drop m ≡ ok tt) ↔ (
        (is_append_only m ≡ false)
        × (is_allowed drop p.allowed_mechanisms ≡ true)
        × (lists_module m p.droppable_modules ≡ true)
        × (is_same m MemoryType.canonical ≡ true → p.canonical_drop_allowed ≡ true))
unfolding authorize is_mechanism is_redaction
authorize-drop p m = (
  (λ h. (ground arith, ground arith, ground arith, λ c. ground arith)),
  (λ (a, b, c, d). ground (arith, d)),
)

-- Whatever one policy permits, another permits.
pub record Widens (p q : RetentionPolicy) : Type 0 where
  pub modules :
      (m : MemoryType)
      → lists_module m p.droppable_modules ≡ true
      → lists_module m q.droppable_modules ≡ true
  pub canonical : p.canonical_drop_allowed ≡ true → q.canonical_drop_allowed ≡ true
  pub redactable :
      redacts_nothing q.redactable_media_types ≡ true
      → redacts_nothing p.redactable_media_types ≡ true
  pub mechanisms :
      (k : RemovalMechanism)
      → is_allowed k p.allowed_mechanisms ≡ true
      → is_allowed k q.allowed_mechanisms ≡ true

-- A policy that lists at least what another does, allows canonical drops and mechanisms where it does,
-- and redacts something where it does, permits every removal that the other permits.
pub authorize-Widens :
    (p q : RetentionPolicy) (k : RemovalMechanism) (m : MemoryType)
    → Widens p q
    → authorize p k m ≡ ok tt
    → authorize q k m ≡ ok tt
unfolding authorize
authorize-Widens p q k m w h =
    ground (arith, w.modules m, w.canonical, w.redactable, w.mechanisms k)
