-- ===== src/Brain/Pruning.antt =====
-- `prune` of brain.py, over the store in memory: `history`, the roots, the marked set and the deletions.
pub mod Roots
pub mod Safety
mod Tests
use pyboltzmann.Prelude.{
  ℕ, Bool, true, false, not, ◌&&◌, Option, none, some, List, [], ◌∷◌, ◌++◌, length, if◌then◌else◌,
}
use pyboltzmann.Prelude.Sets.{contains}
use pyboltzmann.Prelude.Sorting.{distinct}
use pyboltzmann.Prelude.Bytes.{bytes_order}
use pyboltzmann.Exceptions.{Result, ok, ◌>>=◌}
use pyboltzmann.Identity.{Digest, OciDigest, oci_order}
use pyboltzmann.Identity.Hashing.{Sha256}
use pyboltzmann.Identity.Serialization.Canonical.{JsonLibrary}
use pyboltzmann.Store.Memory
use pyboltzmann.Store.Memory.{MemoryBlockStore}
use pyboltzmann.Retention.Reachability
use pyboltzmann.Retention.Reachability.{Snapshot, Decoders, PublishedArtifact}
use pyboltzmann.Retention.Reachability.Sweep.{delete_all}
use pyboltzmann.Brain.Branching
use pyboltzmann.Brain.Branching.{Brain}

pub record PruneReport : Type 0 where
  pub retained_roots : ℕ
  pub reachable : ℕ
  pub reclaimed : List Digest
  pub dry_run : Bool

-- What else names bytes: the artifacts of the layout's index, the signature index, and the digest of the
-- empty config.
pub record Named : Type 0 where
  pub artifacts : List PublishedArtifact
  pub signatures : List (OciDigest × List OciDigest)
  pub empty_config : Digest

unfoldable pub digests_of : List Snapshot → List OciDigest
digests_of [] = []
digests_of (snapshot ∷ snapshots) = snapshot.digest ∷ digests_of snapshots

module _ ⦃sha : Sha256⦄ ⦃json : JsonLibrary⦄ (decoders : Decoders) where
  unfoldable pub snapshot_at : MemoryBlockStore → OciDigest → Result Snapshot
  snapshot_at s digest = Memory.get_bytes s digest.raw >>= decoders.read_snapshot

  -- The snapshots of digests, where the store still resolves them, unless they are among others.
  unfoldable pub resolved :
      MemoryBlockStore → List OciDigest → List OciDigest → Result (List Snapshot)
  unfolding snapshot_at
  resolved s held [] = ok []
  resolved s held (digest ∷ digests) =
      let rest = resolved s held digests in
      if not (contains digest held) && Memory.is_resolvable s digest.raw
      then (do snapshot ← snapshot_at s digest; snapshots ← rest; ok (snapshot ∷ snapshots))
      else rest

  -- `history`
  unfoldable pub history : Brain → MemoryBlockStore → Result (List Snapshot)
  unfolding resolved
  history b s = resolved s [] (Branching.retained_before b)

  -- The retained snapshots, then the branch heads that are not among them.
  unfoldable pub roots : Brain → MemoryBlockStore → Result (List Snapshot)
  unfolding history resolved
  roots b s = do
    retained ← history b s
    heads ← resolved s (digests_of retained) (distinct (Branching.branch_heads b))
    ok (retained ++ heads)

  unfoldable pub with_others : MemoryBlockStore → Named → List Digest → List Digest
  with_others s named marked =
      let keep = marked ++ Reachability.reachable_from_tags s named.artifacts in
      keep ++ Reachability.reachable_signatures named.empty_config keep named.signatures

  unfoldable pub reclaim :
      MemoryBlockStore → ℕ → List Digest → Bool → MemoryBlockStore × PruneReport
  reclaim s retained keep dry_run =
      let reclaimable = Reachability.sweep keep s in
      (
        if dry_run then s else delete_all s reclaimable,
        record {
          retained_roots = retained;
          reachable = length (distinct keep);
          reclaimed = reclaimable;
          dry_run = dry_run;
        },
      )

  unfoldable pub prune :
      Brain → MemoryBlockStore → Named → Bool → Result (MemoryBlockStore × PruneReport)
  unfolding roots with_others reclaim
  prune b s named dry_run = do
    retained ← roots b s
    marked ← Reachability.mark decoders retained s
    ok (reclaim s (length retained) (with_others s named marked) dry_run)
