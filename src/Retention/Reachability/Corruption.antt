-- ===== src/Retention/Reachability/Corruption.antt =====
-- Corruption is not absence: it stops the walk of retention/reachability.py.
use pyboltzmann.Prelude.{◌≡◌, ap, sym, ◌∙◌, inl, inr, List, [], ◌∷◌, arith, In, In-cases, some}
use pyboltzmann.Exceptions.{
  Exception, ok, raise, ◌>>=◌, block_integrity, Result-cases, bind_ok, ok_eq,
}
use pyboltzmann.Identity.{Digest, BlockId}
use pyboltzmann.Identity.Hashing.{Sha256}
use pyboltzmann.Identity.Serialization.Canonical.{JsonLibrary}
use pyboltzmann.Module.Composition
use pyboltzmann.Module.Composition.{Composition}
use pyboltzmann.Module.Composition.Document.{from_document}
use pyboltzmann.Store.Memory
use pyboltzmann.Store.Memory.{MemoryBlockStore}
use pyboltzmann.Retention.Reachability
use pyboltzmann.Retention.Reachability.{
  Snapshot, ModuleRef, Decoders, tolerated, is_gone, index_of, raws, named_in,
}

module _ ⦃sha : Sha256⦄ ⦃json : JsonLibrary⦄ (decoders : Decoders) (s : MemoryBlockStore) where
  -- A digest whose bytes do not hash to it.
  abbrev pub IsCorrupt : Digest → Type 0
  IsCorrupt d = Memory.get_bytes s d ≡ raise block_integrity

  corrupt_block :
      (b : BlockId) (named : List Digest)
      → IsCorrupt b.raw
      → Reachability.bytes_named_by decoders s b ≡ ok named
      → ⊥
  unfolding Reachability.bytes_named_by tolerated is_gone
  corrupt_block b named corrupt h =
      let stopped : (raise block_integrity) ≡ ok named =
        ap (λ r. tolerated (r >>= decoders.content_digests) >>= λ f. ok (named_in f)) (sym corrupt)
        ∙ h in
      ground arith

  corrupt_blocks :
      (bs : List BlockId) (b : BlockId) (keep : List Digest)
      → In b bs
      → IsCorrupt b.raw
      → Reachability.blocks_need decoders s bs ≡ ok keep
      → ⊥
  unfolding Reachability.blocks_need
  corrupt_blocks [] b keep i corrupt h = elim i [ ]
  corrupt_blocks (o ∷ bs) b keep i corrupt h =
      let (named, read, h1) = bind_ok (Reachability.bytes_named_by decoders s o) _ keep h in
      let (rest, walk, _) = bind_ok (Reachability.blocks_need decoders s bs) _ keep h1 in
      elim (In-cases o b bs i) [
        | inl e ↦
            corrupt_block b named corrupt
              (ap (Reachability.bytes_named_by decoders s) (sym e) ∙ read)
        | inr j ↦ corrupt_blocks bs b rest j corrupt walk
      ]

  corrupt_module :
      (r : ModuleRef) (c : Composition) (b : BlockId) (keep : List Digest)
      → (Memory.get_bytes s r.composition.raw >>= from_document) ≡ ok c
      → In b (Composition.block_ids c)
      → IsCorrupt b.raw
      → (rs : List ModuleRef) → In r rs
      → Reachability.modules_need decoders s rs ≡ ok keep
      → ⊥
  unfolding Reachability.modules_need Reachability.members_need Reachability.read_composition
      tolerated
  corrupt_module r c b keep read i corrupt [] j h = elim j [ ]
  corrupt_module r c b keep read i corrupt (o ∷ rs) j h =
      let (found, opened, h1) =
        bind_ok (Reachability.read_composition decoders s o.composition) _ keep h in
      let (members, walk, h2) = bind_ok (Reachability.members_need decoders s found) _ keep h1 in
      let (rest, more, _) = bind_ok (Reachability.modules_need decoders s rs) _ keep h2 in
      elim (In-cases o r rs j) [
        | inl e ↦
            let read_as : Reachability.read_composition decoders s r.composition ≡ ok (some c) =
              ap tolerated read in
            let is_c : found ≡ some c = ok_eq found (some c) (
              sym opened
              ∙ ap (λ x. Reachability.read_composition decoders s x.composition) e
              ∙ read_as) in
            corrupt_blocks (Composition.block_ids c) b members i corrupt
              (ap (Reachability.members_need decoders s) (sym is_c) ∙ walk)
        | inr k ↦ corrupt_module r c b rest read i corrupt rs k more
      ]

  corrupt_mark :
      (snapshot : Snapshot) (r : ModuleRef) (c : Composition) (b : BlockId)
      → In r snapshot.modules
      → (Memory.get_bytes s r.composition.raw >>= from_document) ≡ ok c
      → In b (Composition.block_ids c)
      → IsCorrupt b.raw
      → (snapshots : List Snapshot) (keep : List Digest) → In snapshot snapshots
      → Reachability.mark decoders snapshots s ≡ ok keep
      → ⊥
  unfolding Reachability.mark Reachability.reachable_from
  corrupt_mark snapshot r c b j read i corrupt [] keep k h = elim k [ ]
  corrupt_mark snapshot r c b j read i corrupt (o ∷ snapshots) keep k h =
      let (needed, walk, h1) = bind_ok (Reachability.reachable_from decoders o s) _ keep h in
      let (rest, more, _) = bind_ok (Reachability.mark decoders snapshots s) _ keep h1 in
      elim (In-cases o snapshot snapshots k) [
        | inl e ↦
            let walked = ap (λ x. Reachability.reachable_from decoders x s) (sym e) ∙ walk in
            let (named, modules, _) =
              bind_ok (Reachability.modules_need decoders s snapshot.modules) _ needed walked in
            corrupt_module r c b named read i corrupt snapshot.modules j modules
        | inr l ↦ corrupt_mark snapshot r c b j read i corrupt snapshots rest l more
      ]

  -- Where a block that the readable composition of a module of a retained snapshot names has bytes that do
  -- not hash to its identity, the walk raises, whatever else is retained.
  pub mark_stops :
      (snapshots : List Snapshot) (snapshot : Snapshot) (r : ModuleRef) (c : Composition)
      (b : BlockId)
      → In snapshot snapshots
      → In r snapshot.modules
      → (Memory.get_bytes s r.composition.raw >>= from_document) ≡ ok c
      → In b (Composition.block_ids c)
      → IsCorrupt b.raw
      → (e : Exception) × (Reachability.mark decoders snapshots s ≡ raise e)
  mark_stops snapshots snapshot r c b k j read i corrupt =
      elim (Result-cases (Reachability.mark decoders snapshots s)) [
        | inl (keep, h) ↦ absurd (corrupt_mark snapshot r c b j read i corrupt snapshots keep k h)
        | inr (e, h) ↦ (e, h)
      ]
