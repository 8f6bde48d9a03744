-- ===== src/Retention/Reachability.antt =====
-- retention/reachability.py, with what authenticity/record.py adds to it: what a retained root still
-- needs, and what a sweep may reclaim. The hex of a digest is its raw bytes. Of a snapshot and of a module
-- reference stands what is read here. The documents of blocks and snapshots are read through parameters.
pub mod Needs
pub mod Members
pub mod Marked
pub mod Corruption
pub mod Sweep
pub mod Example
mod Tests
use pyboltzmann.Prelude.{
  Bool, true, false, not, Option, none, some, List, [], ◌∷◌, ◌++◌, map, filter, if◌then◌else◌,
}
use pyboltzmann.Prelude.Sets.{contains, union}
use pyboltzmann.Prelude.Sorting.{sort}
use pyboltzmann.Prelude.Bytes.{Bytes, bytes_order}
use pyboltzmann.Prelude.Texts.{codes}
use pyboltzmann.Exceptions.{Exception, Result, ok, raise, ◌>>=◌, block_not_found, block_tombstoned}
use pyboltzmann.Identity.{Digest, OciDigest, BlockId}
use pyboltzmann.Identity.Hashing.{Sha256}
use pyboltzmann.Identity.Serialization.Canonical.{JsonLibrary}
use pyboltzmann.Module.Composition
use pyboltzmann.Module.Composition.{Composition}
use pyboltzmann.Module.Composition.Document.{from_document}
use pyboltzmann.Store.Memory
use pyboltzmann.Store.Memory.{MemoryBlockStore}

-- The fields of `ModuleRef` and of `Snapshot` that reachability reads; `digest` is a property of the latter.
pub record ModuleRef : Type 0 where
  pub composition : OciDigest
  pub index_digest : Option OciDigest

pub record Snapshot : Type 0 where
  pub digest : OciDigest
  pub parents : List OciDigest
  pub modules : List ModuleRef

-- An artifact that the layout's index names, with the config and the layers of its manifest.
pub record PublishedArtifact : Type 0 where
  pub digest : OciDigest
  pub manifest : Option (OciDigest × List OciDigest)

unfoldable pub is_gone : Exception → Bool
is_gone block_not_found = true
is_gone block_tombstoned = true
is_gone _ = false

-- `except (BlockNotFoundError, BlockTombstonedError)`
unfoldable pub tolerated {ℓ} : {A : Type ℓ} → Result A → Result (Option A)
tolerated (ok a) = ok (some a)
tolerated (raise e) = if is_gone e then ok none else raise e

unfoldable pub raws : List OciDigest → List Digest
raws [] = []
raws (d ∷ ds) = d.raw ∷ raws ds

unfoldable pub index_of : Option OciDigest → List Digest
index_of none = []
index_of (some d) = d.raw ∷ []

-- What a manifest names, where it can be read.
unfoldable pub manifest_of : Option (OciDigest × List OciDigest) → List Digest
manifest_of none = []
manifest_of (some (config, layers)) = config.raw ∷ raws layers

unfoldable pub reachable_from_tags : MemoryBlockStore → List PublishedArtifact → List Digest
reachable_from_tags s [] = []
reachable_from_tags s (artifact ∷ artifacts) =
    if Memory.is_resolvable s artifact.digest.raw
    then artifact.digest.raw ∷ manifest_of artifact.manifest ++ reachable_from_tags s artifacts
    else reachable_from_tags s artifacts

-- The records over snapshots that are kept.
unfoldable pub records_over : List Digest → List (OciDigest × List OciDigest) → List Digest
records_over kept [] = []
records_over kept ((snapshot, digests) ∷ entries) =
    if contains snapshot.raw kept
    then raws digests ++ records_over kept entries
    else records_over kept entries

-- `reachable_signatures`: with any of them, the empty config.
unfoldable pub with_empty_config : Digest → List Digest → List Digest
with_empty_config empty [] = []
with_empty_config empty (d ∷ ds) = empty ∷ d ∷ ds

unfoldable pub reachable_signatures :
    Digest → List Digest → List (OciDigest × List OciDigest) → List Digest
reachable_signatures empty kept entries = with_empty_config empty (records_over kept entries)

-- A block whose bytes are gone names nothing.
abbrev pub named_in : Option (List Digest) → List Digest
named_in none = []
named_in (some digests) = digests

unfoldable pub sweep : List Digest → MemoryBlockStore → List Digest
sweep keep s = sort (filter (λ d. not (contains d keep)) (Memory.iter_digests s))

-- What the store and the decoders of documents give a brain that prunes: `content_digests` of a block,
-- and a snapshot.
pub record Decoders : Type 0 where
  pub content_digests : Bytes → Result (List Digest)
  pub read_snapshot : Bytes → Result Snapshot

module _ ⦃sha : Sha256⦄ ⦃json : JsonLibrary⦄ (decoders : Decoders) where
  unfoldable pub read_composition : MemoryBlockStore → OciDigest → Result (Option Composition)
  read_composition s digest = tolerated (Memory.get_bytes s digest.raw >>= from_document)

  unfoldable pub bytes_named_by : MemoryBlockStore → BlockId → Result (List Digest)
  bytes_named_by s block_id = do
    found ← tolerated (Memory.get_bytes s block_id.raw >>= decoders.content_digests)
    ok (named_in found)

  -- The loop over the block ids of a composition.
  unfoldable pub blocks_need : MemoryBlockStore → List BlockId → Result (List Digest)
  unfolding bytes_named_by
  blocks_need s [] = ok []
  blocks_need s (block_id ∷ block_ids) = do
    named ← bytes_named_by s block_id
    rest ← blocks_need s block_ids
    ok (block_id.raw ∷ named ++ rest)

  unfoldable pub members_need : MemoryBlockStore → Option Composition → Result (List Digest)
  unfolding blocks_need
  members_need s none = ok []
  members_need s (some c) = blocks_need s (Composition.block_ids c)

  -- The loop over the modules of a snapshot.
  unfoldable pub modules_need : MemoryBlockStore → List ModuleRef → Result (List Digest)
  unfolding members_need read_composition
  modules_need s [] = ok []
  modules_need s (reference ∷ modules) = do
    composition ← read_composition s reference.composition
    members ← members_need s composition
    rest ← modules_need s modules
    ok (reference.composition.raw ∷ index_of reference.index_digest ++ members ++ rest)

  unfoldable pub reachable_from : Snapshot → MemoryBlockStore → Result (List Digest)
  unfolding modules_need
  reachable_from snapshot s = do
    named ← modules_need s snapshot.modules
    ok (snapshot.digest.raw ∷ raws snapshot.parents ++ named)

  unfoldable pub mark : List Snapshot → MemoryBlockStore → Result (List Digest)
  unfolding reachable_from
  mark [] s = ok []
  mark (snapshot ∷ snapshots) s = do
    needed ← reachable_from snapshot s
    rest ← mark snapshots s
    ok (needed ++ rest)
