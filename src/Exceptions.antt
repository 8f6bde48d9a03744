-- ===== src/Exceptions.antt =====
-- exceptions.py: the exceptions that the modelled code raises, and a result that is a value or one
-- of them. `index_error` and `value_error` are Python's own; `out_of_fuel` stands for a loop that
-- has not ended, and the theorems show that it is never returned.
use mathlib.Core.Path.{◌≡◌, refl}
use pyboltzmann.Prelude.{arith}
use mathlib.Core.Logic.{◌⊎◌, inl, inr}

pub data Exception : Type 0 where
  merkle_error inclusion_proof_error append_only_violation retention_policy : Exception
  module_error identity_error serialization_error signature_format : Exception
  invalid_branch_name snapshot_error no_common_ancestor multiple_merge_bases : Exception
  block_not_found block_tombstoned block_integrity block_schema : Exception
  membership_error memory_type_error non_deterministic_value digest_format actor_id branch_error :
      Exception
  branch_exists branch_not_found unmerged_branch reconciliation_halted : Exception
  index_error value_error out_of_fuel : Exception

pub data Result {ℓ} (A : Type ℓ) : Type ℓ where
  ok : A → Result A
  raise : Exception → Result A

infixl 5 ◌>>=◌
abbrev pub ◌>>=◌ {ℓ κ} : {A : Type ℓ} {B : Type κ} → Result A → (A → Result B) → Result B
ok a >>= f = f a
raise e >>= f = raise e

pub Result-cases {ℓ} :
    {A : Type ℓ} (r : Result A) → ((a : A) × (r ≡ ok a)) ⊎ ((e : Exception) × (r ≡ raise e))
Result-cases (ok a) = inl (a, refl)
Result-cases (raise e) = inr (e, refl)

pub bind_ok {ℓ κ} :
    {A : Type ℓ} {B : Type κ} (r : Result A) (f : A → Result B) (b : B)
    → (r >>= f) ≡ ok b
    → (a : A) × (r ≡ ok a) × (f a ≡ ok b)
bind_ok (ok a) f b h = (a, refl, h)
bind_ok (raise e) f b h = absurd (ground arith)

pub ok_eq {ℓ} : {A : Type ℓ} (a b : A) → ok a ≡ ok b → a ≡ b
ok_eq a b e = ground arith
