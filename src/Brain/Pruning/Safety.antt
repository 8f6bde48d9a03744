-- ===== src/Brain/Pruning/Safety.antt =====
-- `prune` of brain.py reclaims nothing that a root needs.
use mathlib.Core.Path.{subst}
use pyboltzmann.Prelude.{
  ◌≡◌, ◌⊎◌, ap, sym, ◌∙◌, true, false, Option, not, none, some, List, ◌++◌, arith, In, length,
  if◌then◌else◌,
}
use pyboltzmann.Prelude.Order.{◌==◌}
use pyboltzmann.Prelude.Sets.{contains, contains-append}
use pyboltzmann.Prelude.Dict.{get, has_key}
use pyboltzmann.Prelude.Bytes.{Bytes, bytes_order}
use pyboltzmann.Exceptions.{
  Result, ok, raise, ◌>>=◌, block_tombstoned, block_not_found, block_integrity, bind_ok, ok_eq,
}
use pyboltzmann.Identity.{Digest, OciDigest, oci_order}
use pyboltzmann.Identity.Hashing.{Sha256, sha256}
use pyboltzmann.Identity.Serialization.Canonical.{JsonLibrary}
use pyboltzmann.Store.Memory
use pyboltzmann.Store.Memory.{MemoryBlockStore}
use pyboltzmann.Retention.Reachability
use pyboltzmann.Retention.Reachability.{Snapshot, Decoders}
use pyboltzmann.Retention.Reachability.Needs.{Needs}
use pyboltzmann.Retention.Reachability.Marked.{mark-Needs}
use pyboltzmann.Retention.Reachability.Sweep.{
  delete_all, contains-sweep, blobs-delete_all, tombstones-delete_all, pointers-delete_all,
}
use pyboltzmann.Brain.Branching
use pyboltzmann.Brain.Branching.{Brain}
use pyboltzmann.Brain.Pruning
use pyboltzmann.Brain.Pruning.{PruneReport, Named}
use pyboltzmann.Prelude.Texts.{Text}
use pyboltzmann.Brain.Pruning.Roots.{IsOfDocument, roots_find}

module _ ⦃sha : Sha256⦄ where
  abbrev reads : Digest → Option Bytes → Option Text → Result Bytes
  reads d held tombstone = do
    content ←
        if (elim tombstone [ none ↦ false | some _ ↦ true ])
        then raise block_tombstoned
        else elim held [ none ↦ raise block_not_found | some content ↦ ok content ]
    if not (sha256 content == d) then raise block_integrity else ok content

  get_bytes_same :
      (s t : MemoryBlockStore) (d : Digest)
      → get d t.blobs ≡ get d s.blobs
      → get d t.tombstones ≡ get d s.tombstones
      → Memory.get_bytes t d ≡ Memory.get_bytes s d
  unfolding Memory.get_bytes Memory.load has_key
  get_bytes_same s t d e f =
      ap (λ x. reads d x (get d t.tombstones)) e ∙ ap (λ x. reads d (get d s.blobs) x) f

  get_bytes_gone :
      (t : MemoryBlockStore) (d : Digest)
      → get d t.blobs ≡ none
      → get d t.tombstones ≡ none
      → Memory.get_bytes t d ≡ raise block_not_found
  unfolding Memory.get_bytes Memory.load has_key
  get_bytes_gone t d e f = ap (λ x. reads d x (get d t.tombstones)) e ∙ ap (λ x. reads d none x) f

  delete_all_rest :
      (s : MemoryBlockStore) (ds : List Digest) (d : Digest)
      → contains d ds ≡ false
      → Memory.get_bytes (delete_all s ds) d ≡ Memory.get_bytes s d
  delete_all_rest s ds d n =
      get_bytes_same s (delete_all s ds) d
        (blobs-delete_all d s ds ∙ ap (λ c. if c then none else get d s.blobs) n)
        (tombstones-delete_all d s ds ∙ ap (λ c. if c then none else get d s.tombstones) n)

  delete_all_gone :
      (s : MemoryBlockStore) (ds : List Digest) (d : Digest)
      → contains d ds ≡ true
      → Memory.get_bytes (delete_all s ds) d ≡ raise block_not_found
  delete_all_gone s ds d m =
      get_bytes_gone (delete_all s ds) d
        (blobs-delete_all d s ds ∙ ap (λ c. if c then none else get d s.blobs) m)
        (tombstones-delete_all d s ds ∙ ap (λ c. if c then none else get d s.tombstones) m)

module _ ⦃sha : Sha256⦄ ⦃json : JsonLibrary⦄ (decoders : Decoders) where
  -- What a prune leaves behind: all that a root that is resolvable needs reads as before, what was reclaimed
  -- was held and is gone, all else reads as before, and the pointers stay.
  pub record Pruned (b : Brain) (s t : MemoryBlockStore) (report : PruneReport) : Type 0 where
    pub needed :
        (r : OciDigest) (snapshot : Snapshot) (d : Digest)
        → ((contains r (Branching.retained_before b) ≡ true)
            ⊎ (contains r (Branching.branch_heads b) ≡ true))
        → Memory.is_resolvable s r.raw ≡ true
        → Pruning.snapshot_at decoders s r ≡ ok snapshot
        → Needs decoders s snapshot d
        → (contains d report.reclaimed ≡ false) × (Memory.get_bytes t d ≡ Memory.get_bytes s d)
    pub reclaimed :
        (d : Digest)
        → contains d report.reclaimed ≡ true
        → (contains d (Memory.iter_digests s) ≡ true)
          × (Memory.get_bytes t d ≡ raise block_not_found)
    pub rest :
        (d : Digest)
        → contains d report.reclaimed ≡ false
        → Memory.get_bytes t d ≡ Memory.get_bytes s d
    pub pointers : t.pointers ≡ s.pointers

  marked_kept :
      (s : MemoryBlockStore) (named : Named) (marked : List Digest) (d : Digest)
      → contains d marked ≡ true
      → contains d (Reachability.sweep (Pruning.with_others decoders s named marked) s) ≡ false
  unfolding Pruning.with_others
  marked_kept s named marked d m =
      let tags = Reachability.reachable_from_tags s named.artifacts in
      let signatures =
        Reachability.reachable_signatures named.empty_config (marked ++ tags) named.signatures in
      ground (
        arith,
        contains-sweep d (marked ++ tags ++ signatures) s,
        contains-append d (marked ++ tags) signatures,
        contains-append d marked tags,
      )

  -- The deletions of a prune, against what was marked for its roots.
  reclaim-Pruned :
      IsOfDocument decoders
      → (b : Brain) (s : MemoryBlockStore) (named : Named) (roots : List Snapshot)
        (marked : List Digest)
      → Pruning.roots decoders b s ≡ ok roots
      → Reachability.mark decoders roots s ≡ ok marked
      → (ended : MemoryBlockStore × PruneReport)
      → Pruning.reclaim decoders s
          (length roots)
          (Pruning.with_others decoders s named marked)
          false
        ≡ ended
      → Pruned b s ended.0 ended.1
  unfolding Pruning.reclaim
  reclaim-Pruned law b s named roots marked walk marks ended e =
      let keep = Pruning.with_others decoders s named marked in
      let free = Reachability.sweep keep s in
      subst (λ (x : MemoryBlockStore × PruneReport). Pruned b s x.0 x.1) e
        (record {
          needed = λ r snapshot d root held_at read n.
              let (o, q, i) = roots_find decoders law b s roots r walk root held_at in
              let is_o : o ≡ snapshot = ok_eq o snapshot (sym q ∙ read) in
              let m =
                (mark-Needs decoders s roots marked d marks).1
                  (snapshot, subst (λ x. In x roots) is_o i, n) in
              let kept = marked_kept s named marked d m in (kept, delete_all_rest s free d kept);
          reclaimed = λ d m. (ground (arith, contains-sweep d keep s), delete_all_gone s free d m);
          rest = λ d n. delete_all_rest s free d n;
          pointers = pointers-delete_all s free;
        })

  -- Where the digest of each decoded snapshot is that of its document, and a prune that is no dry run
  -- succeeds, it reclaims nothing that a root needs which the store resolves, be it retained or the head of
  -- a branch; what it reclaims was held and is gone, all else reads as before, and the pointers stay.
  pub prune-Pruned :
      IsOfDocument decoders
      → (b : Brain) (s t : MemoryBlockStore) (named : Named) (report : PruneReport)
      → Pruning.prune decoders b s named false ≡ ok (t, report)
      → Pruned b s t report
  unfolding Pruning.prune Pruning.reclaim
  prune-Pruned law b s t named report h =
      let (roots, walk, h1) = bind_ok (Pruning.roots decoders b s) _ (t, report) h in
      let (marked, marks, h2) = bind_ok (Reachability.mark decoders roots s) _ (t, report) h1 in
      reclaim-Pruned law b s named roots marked walk marks (t, report) (ok_eq _ (t, report) h2)
