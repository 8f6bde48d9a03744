-- ===== src/Authenticity/Chain.antt =====
-- authenticity/chain.py: where a snapshot stands on the line of first parents. Documents of snapshots are
-- read from the store in memory through a decoder.
pub mod Walk
pub mod Genesis
pub mod Ends
mod Tests
use pyboltzmann.Prelude.{
  ℕ, zero, suc, Bool, true, false, Option, none, some, List, [], ◌∷◌, length, ltb, if◌then◌else◌,
}
use pyboltzmann.Prelude.Order.{◌==◌}
use pyboltzmann.Prelude.Sets.{contains}
use pyboltzmann.Prelude.Bytes.{Bytes, bytes_order}
use pyboltzmann.Exceptions.{
  Exception, Result, ok, raise, ◌>>=◌, snapshot_error, membership_error, value_error, out_of_fuel,
}
use pyboltzmann.Identity.{OciDigest, oci_order}
use pyboltzmann.Identity.Hashing.{Sha256}
use pyboltzmann.Store.Memory
use pyboltzmann.Store.Memory.{MemoryBlockStore}

-- `MAX_WALK`
unfoldable pub max_walk : ℕ
max_walk = 100000

-- What the walks read of a trust root and of a snapshot; both digests are properties in the source.
pub record TrustRoot : Type 0 where
  pub digest : OciDigest
  pub revision : ℕ

pub record Snapshot : Type 0 where
  pub digest : OciDigest
  pub parents : List OciDigest
  pub trust_root : Option TrustRoot

pub data SnapshotRole : Type 0 where
  genesis ordinary revision : SnapshotRole

pub record Position : Type 0 where
  pub snapshot : Snapshot
  pub digest : OciDigest
  pub parent : Option Snapshot
  pub role : SnapshotRole
  pub in_force : Option TrustRoot
  pub truncated : Bool

-- `except (ValueError, SnapshotError)`, with its subclass
unfoldable pub readable : Result Snapshot → Result (Option Snapshot)
readable (ok snapshot) = ok (some snapshot)
readable (raise snapshot_error) = ok none
readable (raise membership_error) = ok none
readable (raise value_error) = ok none
readable (raise e) = raise e

unfoldable pub first_parent : List OciDigest → Option OciDigest
first_parent [] = none
first_parent (parent ∷ _) = some parent

-- `parent_authority == child_authority`
unfoldable pub same_authority : Option TrustRoot → Option TrustRoot → Bool
same_authority none none = true
same_authority none (some _) = false
same_authority (some _) none = false
same_authority (some a) (some b) = a.digest == b.digest

-- A position whose first parent is named: it is held, or the chain is truncated.
unfoldable pub positioned : Snapshot → Option Snapshot → Position
positioned snapshot none = record {
  snapshot = snapshot;
  digest = snapshot.digest;
  parent = none;
  role = ordinary;
  in_force = none;
  truncated = true;
}
positioned snapshot (some parent) = record {
  snapshot = snapshot;
  digest = snapshot.digest;
  parent = some parent;
  role = if same_authority parent.trust_root snapshot.trust_root then ordinary else revision;
  in_force = parent.trust_root;
  truncated = false;
}

unfoldable pub at_genesis : Snapshot → Position
at_genesis snapshot = record {
  snapshot = snapshot;
  digest = snapshot.digest;
  parent = none;
  role = genesis;
  in_force = snapshot.trust_root;
  truncated = false;
}

-- `set.add`: the size of the set is compared with the limit, so an element stands in it once.
unfoldable pub add : OciDigest → List OciDigest → List OciDigest
add d seen = if contains d seen then seen else d ∷ seen

-- The end of a round of the walk: the chain ends here, or goes on at the parent.
unfoldable pub onward :
    Position → Option Snapshot → (Snapshot → Result (List Position)) → Result (List Position)
onward position none next = ok (position ∷ [])
onward position (some parent) next = do rest ← next parent; ok (position ∷ rest)

-- The digest of the last position, if it is a genesis.
unfoldable pub genesis_in : List Position → Option OciDigest
genesis_in [] = none
genesis_in (position ∷ []) = elim position.role [
  | genesis ↦ some position.digest
  | ordinary ↦ none
  | revision ↦ none
]
genesis_in (_ ∷ next ∷ positions) = genesis_in (next ∷ positions)

module _ ⦃sha : Sha256⦄ (from_document : Bytes → Result Snapshot) (s : MemoryBlockStore) where
  unfoldable pub load_snapshot : OciDigest → Result (Option Snapshot)
  load_snapshot digest =
      if Memory.is_resolvable s digest.raw
      then readable (Memory.get_bytes s digest.raw >>= from_document)
      else ok none

  -- The position of a snapshot whose first parent is named, or not.
  unfoldable pub locate_by : Snapshot → Option OciDigest → Result Position
  unfolding load_snapshot
  locate_by snapshot none = ok (at_genesis snapshot)
  locate_by snapshot (some digest) = do
    parent ← load_snapshot digest
    ok (positioned snapshot parent)

  unfoldable pub locate : Snapshot → Result Position
  unfolding locate_by
  locate snapshot = locate_by snapshot (first_parent snapshot.parents)

  -- The loop of `walk_first_parents`, with the most snapshots that it visits.
  unfoldable pub walk : ℕ → ℕ → List OciDigest → Snapshot → Result (List Position)
  unfolding locate
  walk zero limit seen snapshot = raise out_of_fuel
  walk (suc fuel) limit seen snapshot = do
    position ← locate snapshot
    elim (contains snapshot.digest seen) [
      | true ↦ raise snapshot_error
      | false ↦ elim (ltb limit (length (add snapshot.digest seen))) [
        | true ↦ raise snapshot_error
        | false ↦ onward position position.parent (walk fuel limit (add snapshot.digest seen))
      ]
    ]

  -- Fuel: the walk refuses to visit more than the limit.
  unfoldable pub walk_first_parents : Snapshot → Result (List Position)
  unfolding walk
  walk_first_parents snapshot = walk (suc max_walk) max_walk [] snapshot

  unfoldable pub genesis_of : Snapshot → Result (Option OciDigest)
  unfolding walk_first_parents
  genesis_of snapshot = do positions ← walk_first_parents snapshot; ok (genesis_in positions)
