-- ===== src/Brain/Pruning/Roots.antt =====
-- What `prune` of brain.py reads of its roots.
use mathlib.Core.Path.{subst}
use pyboltzmann.Prelude.{
  ◌≡◌, ◌⊎◌, refl, ap, sym, ◌∙◌, inl, inr, Bool, true, false, not, ◌&&◌, List, [], ◌∷◌, ◌++◌, arith,
  Bool-cases, In, here, there, In-cases, if◌then◌else◌,
}
use pyboltzmann.Prelude.Order.{◌==◌, ==_sound}
use pyboltzmann.Prelude.Sets.{contains}
use pyboltzmann.Prelude.Sorting.{distinct, contains-distinct}
use pyboltzmann.Prelude.Bytes.{Bytes, bytes_order}
use pyboltzmann.Exceptions.{Result, ok, raise, ◌>>=◌, block_integrity, bind_ok, ok_eq}
use pyboltzmann.Identity.{Digest, OciDigest, oci_order}
use pyboltzmann.Identity.Hashing.{Sha256, sha256}
use pyboltzmann.Identity.Serialization.Canonical.{JsonLibrary}
use pyboltzmann.Store.Memory
use pyboltzmann.Store.Memory.{MemoryBlockStore}
use pyboltzmann.Retention.Reachability.{Snapshot, Decoders}
use pyboltzmann.Brain.Branching
use pyboltzmann.Brain.Branching.{Brain}
use pyboltzmann.Brain.Pruning
use pyboltzmann.Brain.Pruning.{PruneReport, Named, digests_of}

in_digests_of :
    (h : OciDigest) (snapshots : List Snapshot)
    → contains h (digests_of snapshots) ≡ true
    → (snapshot : Snapshot) × In snapshot snapshots × (snapshot.digest ≡ h)
unfolding digests_of contains
in_digests_of h [] m = absurd (ground arith)
in_digests_of h (snapshot ∷ snapshots) m = elim (Bool-cases (h == snapshot.digest)) [
  | inl e ↦ (snapshot, here, sym (==_sound h snapshot.digest e))
  | inr n ↦ let (o, i, q) = in_digests_of h snapshots (ground arith) in (o, there i, q)
]

In-append_left {ℓ} : {A : Type ℓ} (x : A) (xs ys : List A) → In x xs → In x (xs ++ ys)
In-append_left x [] ys i = elim i [ ]
In-append_left x (y ∷ xs) ys here = here
In-append_left x (y ∷ xs) ys (there i) = there (In-append_left x xs ys i)

In-append_right {ℓ} : {A : Type ℓ} (x : A) (xs ys : List A) → In x ys → In x (xs ++ ys)
In-append_right x [] ys i = i
In-append_right x (y ∷ xs) ys i = there (In-append_right x xs ys i)

-- One round of the loop that reads snapshots.
round_ok :
    (c : Bool) (r : Result Snapshot) (rest : Result (List Snapshot)) (snapshots : List Snapshot)
    → (if c then (do snapshot ← r; more ← rest; ok (snapshot ∷ more)) else rest) ≡ ok snapshots
    → ((c ≡ true)
        × (snapshot : Snapshot) × (more : List Snapshot) × (r ≡ ok snapshot)
        × (rest ≡ ok more)
        × (snapshot ∷ more ≡ snapshots))
      ⊎ ((c ≡ false) × (rest ≡ ok snapshots))
round_ok false r rest snapshots h = inr (refl, h)
round_ok true r rest snapshots h =
    let (snapshot, read, h1) = bind_ok r _ snapshots h in
    let (more, walk, h2) = bind_ok rest _ snapshots h1 in
    inl (refl, snapshot, more, read, walk, ok_eq (snapshot ∷ more) snapshots h2)

checked_ok :
    (c : Bool) (found document : Bytes)
    → (if not c then raise block_integrity else ok found) ≡ ok document
    → (c ≡ true) × (found ≡ document)
checked_ok true found document h = (refl, ok_eq found document h)
checked_ok false found document h = absurd (ground arith)

module _ ⦃sha : Sha256⦄ ⦃json : JsonLibrary⦄ (decoders : Decoders) where
  -- The digest of a snapshot is that of the document that it was read from.
  abbrev pub IsOfDocument : Type 0
  IsOfDocument =
      (document : Bytes) (snapshot : Snapshot)
      → decoders.read_snapshot document ≡ ok snapshot
      → snapshot.digest.raw ≡ sha256 document

  get_bytes-sha256 :
      (s : MemoryBlockStore) (d : Digest) (document : Bytes)
      → Memory.get_bytes s d ≡ ok document
      → sha256 document ≡ d
  unfolding Memory.get_bytes
  get_bytes-sha256 s d document h =
      let (found, _, rest) = bind_ok (Memory.load s d) _ document h in
      let (same, is_found) = checked_ok (sha256 found == d) found document rest in
      ap (λ x. sha256 x) (sym is_found) ∙ ==_sound (sha256 found) d same

  snapshot_at-digest :
      IsOfDocument
      → (s : MemoryBlockStore) (r : OciDigest) (snapshot : Snapshot)
      → Pruning.snapshot_at decoders s r ≡ ok snapshot
      → snapshot.digest ≡ r
  unfolding Pruning.snapshot_at
  snapshot_at-digest law s r snapshot h =
      let (document, got, read) =
        bind_ok (Memory.get_bytes s r.raw) decoders.read_snapshot snapshot h in
      ap (λ x. record { raw = x })
        (law document snapshot read ∙ get_bytes-sha256 s r.raw document got)

  -- What `resolved` reads, and from where.
  resolved_finds :
      (s : MemoryBlockStore) (held ds : List OciDigest) (snapshots : List Snapshot) (r : OciDigest)
      → Pruning.resolved decoders s held ds ≡ ok snapshots
      → contains r ds ≡ true
      → contains r held ≡ false
      → Memory.is_resolvable s r.raw ≡ true
      → (snapshot : Snapshot) × (Pruning.snapshot_at decoders s r ≡ ok snapshot)
        × In snapshot snapshots
  unfolding Pruning.resolved contains
  resolved_finds s held [] snapshots r h m free held_at = absurd (ground arith)
  resolved_finds s held (d ∷ ds) snapshots r h m free held_at =
      elim (round_ok (not (contains d held) && Memory.is_resolvable s d.raw)
        (Pruning.snapshot_at decoders s d) (Pruning.resolved decoders s held ds) snapshots h) [
          | inl (_, snapshot, more, read, walk, all) ↦ elim (Bool-cases (r == d)) [
            | inl e ↦
                let is_d = ==_sound r d e in
                (
                  snapshot,
                  ap (Pruning.snapshot_at decoders s) is_d ∙ read,
                  subst (In snapshot) all here,
                )
            | inr n ↦
                let (o, q, i) = resolved_finds s held ds more r walk (ground arith) free held_at in
                (o, q, subst (In o) all (there i))
          ]
          | inr (skipped, walk) ↦
              resolved_finds s held ds snapshots r walk
                (ground (
                  arith,
                  λ (e : (r == d) ≡ true).
                      ap (λ x. not (contains x held) && Memory.is_resolvable s x.raw)
                        (==_sound r d e),
                ))
                free held_at
        ]

  resolved_from :
      (s : MemoryBlockStore) (held ds : List OciDigest) (snapshots : List Snapshot) (o : Snapshot)
      → Pruning.resolved decoders s held ds ≡ ok snapshots
      → In o snapshots
      → (d : OciDigest) × (Pruning.snapshot_at decoders s d ≡ ok o)
  unfolding Pruning.resolved
  resolved_from s held [] snapshots o h i = elim (subst (In o) (sym (ok_eq [] snapshots h)) i) [ ]
  resolved_from s held (d ∷ ds) snapshots o h i =
      elim (round_ok (not (contains d held) && Memory.is_resolvable s d.raw)
        (Pruning.snapshot_at decoders s d) (Pruning.resolved decoders s held ds) snapshots h) [
          | inl (_, snapshot, more, read, walk, all) ↦
              elim (In-cases snapshot o more (subst (In o) (sym all) i)) [
                | inl e ↦ (d, read ∙ ap (λ x. ok x) e)
                | inr j ↦ resolved_from s held ds more o walk j
              ]
          | inr (_, walk) ↦ resolved_from s held ds snapshots o walk i
        ]

  -- A snapshot with the digest of a branch head was read from that head.
  retained_head :
      IsOfDocument
      → (s : MemoryBlockStore) (ds : List OciDigest) (retained : List Snapshot) (r : OciDigest)
      → Pruning.resolved decoders s [] ds ≡ ok retained
      → contains r (digests_of retained) ≡ true
      → (snapshot : Snapshot) × (Pruning.snapshot_at decoders s r ≡ ok snapshot)
        × In snapshot retained
  retained_head law s ds retained r walk m =
      let (o, i, q) = in_digests_of r retained m in
      let (d, read) = resolved_from s [] ds retained o walk i in
      let is_r : d ≡ r = sym (snapshot_at-digest law s d o read) ∙ q in
      (o, ap (Pruning.snapshot_at decoders s) (sym is_r) ∙ read, i)

  -- Every root that is resolvable is among the snapshots that a prune marks.
  pub roots_find :
      IsOfDocument
      → (b : Brain) (s : MemoryBlockStore) (roots : List Snapshot) (r : OciDigest)
      → Pruning.roots decoders b s ≡ ok roots
      → ((contains r (Branching.retained_before b) ≡ true)
          ⊎ (contains r (Branching.branch_heads b) ≡ true))
      → Memory.is_resolvable s r.raw ≡ true
      → (snapshot : Snapshot) × (Pruning.snapshot_at decoders s r ≡ ok snapshot) × In snapshot roots
  unfolding Pruning.roots Pruning.history contains
  roots_find law b s roots r h root held_at =
      let (retained, walk, h1) = bind_ok (Pruning.history decoders b s) _ roots h in
      let (heads, more, h2) =
        bind_ok
          (Pruning.resolved decoders s (digests_of retained) (distinct (Branching.branch_heads b)))
          _ roots h1 in
      let all : retained ++ heads ≡ roots = ok_eq (retained ++ heads) roots h2 in
      elim root [
        | inl m ↦
            let (o, q, i) =
              resolved_finds s [] (Branching.retained_before b) retained r walk m refl held_at in
            (o, q, subst (In o) all (In-append_left o retained heads i))
        | inr m ↦ elim (Bool-cases (contains r (digests_of retained))) [
          | inl e ↦
              let (o, q, i) = retained_head law s (Branching.retained_before b) retained r walk e in
              (o, q, subst (In o) all (In-append_left o retained heads i))
          | inr n ↦
              let (o, q, i) =
                resolved_finds s (digests_of retained) (distinct (Branching.branch_heads b)) heads r
                  more (contains-distinct r (Branching.branch_heads b) ∙ m) n held_at in
              (o, q, subst (In o) all (In-append_right o retained heads i))
        ]
      ]
