-- ===== src/Merkle/Proof.antt =====
-- merkle/proof.py: inclusion proofs. A node hash is 64 hex characters in the source and stands here
-- as the bytes that they spell, so `bytes.fromhex` is the identity.
use pyboltzmann.Prelude.{
  ℕ, zero, suc, ◌-◌, ◌/◌, ◌%◌, Bool, false, not, ◌&&◌, ◌||◌, Option, none, some, List, [], ◌∷◌, eqb,
  leb, if◌then◌else◌,
}
use pyboltzmann.Prelude.Order.{◌==◌}
use pyboltzmann.Prelude.Bytes.{Bytes, bytes_order}
use pyboltzmann.Exceptions.{Result, ok, raise, inclusion_proof_error}
use pyboltzmann.Identity.{BlockId, MerkleRoot}
use pyboltzmann.Identity.Hashing.{Sha256, hash_leaf, hash_node}

pub record InclusionProof : Type 0 where
  pub block_id : BlockId
  pub leaf_index : ℕ
  pub tree_size : ℕ
  pub audit_path : List Bytes

-- `position & 1`
abbrev pub is_odd : ℕ → Bool
is_odd n = eqb (n % 2) 1

-- `while not position & 1 and position != 0`, with `position` as fuel
unfoldable pub skip_levels : ℕ → ℕ → ℕ → ℕ × ℕ
skip_levels zero position last = (position, last)
skip_levels (suc fuel) position last =
    let rest = skip_levels fuel (position / 2) (last / 2) in
    if not (is_odd position) && not (eqb position 0) then rest else (position, last)

module _ ⦃sha : Sha256⦄ where
  -- One round of the loop over `audit_path`: the new position, last and running hash.
  unfoldable pub climb_level : Bytes → ℕ → ℕ → Bytes → ℕ × ℕ × Bytes
  climb_level sibling position last running =
      if is_odd position || eqb position last
      then (let (position', last') = skip_levels position position last in
          (position' / 2, last' / 2, hash_node sibling running))
      else (position / 2, last / 2, hash_node running sibling)

  -- The loop over `audit_path`: its variables at the end, or `none` where it returns False.
  unfoldable pub climb : List Bytes → ℕ → ℕ → Bytes → Option (ℕ × ℕ × Bytes)
  climb [] position last running = some (position, last, running)
  climb (sibling ∷ path) position last running =
      let (position', last', running') = climb_level sibling position last running in
      let rest = climb path position' last' running' in if eqb last 0 then none else rest

  unfoldable pub verify : InclusionProof → MerkleRoot → Bool
  verify proof root =
      if leb proof.tree_size proof.leaf_index
      then false
      else elim (climb proof.audit_path proof.leaf_index (proof.tree_size - 1)
          (hash_leaf proof.block_id.raw)) [
            | none ↦ false
            | some (_, last, running) ↦ eqb last 0 && running == root.raw
          ]

  unfoldable pub require : InclusionProof → MerkleRoot → Result (Unit {0})
  require proof root = if not (verify proof root) then raise inclusion_proof_error else ok tt
