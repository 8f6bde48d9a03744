-- ===== src/Store/Memory/Reachable.antt =====
-- store/memory.py over sequences of operations: what a store that started empty holds, and what
-- stays in it.
use pyboltzmann.Prelude.{
  ◌≡◌, sym, ap, ◌∙◌, ◌⊎◌, inl, inr, Bool, true, false, not, some, arith, List, [], ◌∷◌, all,
  Option-cases,
}
use pyboltzmann.Prelude.Order.{◌==◌, ==_sound, ==_refl, ==_complete}
use pyboltzmann.Prelude.Bytes.{Bytes, bytes_order}
use pyboltzmann.Prelude.Texts.{Text}
use pyboltzmann.Prelude.Dict.{get, has_key, get-put, get-pop, get-setdefault}
use pyboltzmann.Exceptions.{ok, raise, block_integrity, block_tombstoned}
use pyboltzmann.Identity.{Digest}
use pyboltzmann.Identity.Hashing.{Sha256, sha256}
use pyboltzmann.Identity.Collisions.{Collision, same_or_collide}
use pyboltzmann.Store.Memory
use pyboltzmann.Store.Memory.{MemoryBlockStore}

-- The calls that change a store.
pub data Op : Type 0 where
  put_op : Bytes → Op
  tombstone_op : Digest → Text → Op
  delete_op : Digest → Op
  write_op : Text → Bytes → Op

-- The bytes of a digest survive a call.
abbrev pub spares : Digest → Op → Bool
spares d (put_op _) = true
spares d (tombstone_op e _) = not (e == d)
spares d (delete_op e) = not (e == d)
spares d (write_op _ _) = true

-- A call does not reclaim a digest, and so not its tombstone.
abbrev pub keeps_tombstone : Digest → Op → Bool
keeps_tombstone d (delete_op e) = not (e == d)
keeps_tombstone d _ = true

module _ ⦃sha : Sha256⦄ where
  abbrev pub apply : MemoryBlockStore → Op → MemoryBlockStore
  apply s (put_op content) = (Memory.put_bytes s content).0
  apply s (tombstone_op d reason) = Memory.tombstone s d reason
  apply s (delete_op d) = Memory.delete s d
  apply s (write_op name content) = Memory.write_pointer s name content

  abbrev pub run : MemoryBlockStore → List Op → MemoryBlockStore
  run s [] = s
  run s (op ∷ ops) = run (apply s op) ops

  -- All that is held hashes to where it is filed.
  abbrev pub IsSound : MemoryBlockStore → Type 0
  IsSound s = (d : Digest) (content : Bytes) → get d s.blobs ≡ some content → sha256 content ≡ d

  apply-IsSound : (s : MemoryBlockStore) (op : Op) → IsSound s → IsSound (apply s op)
  unfolding Memory.put_bytes Memory.tombstone Memory.delete Memory.write_pointer
  apply-IsSound s (put_op new) h d content e =
      ground
        (arith, get-setdefault (sha256 new) d new s.blobs, ==_sound (sha256 new) d, h d content)
  apply-IsSound s (tombstone_op k reason) h d content e =
      ground (arith, get-pop k d s.blobs, h d content)
  apply-IsSound s (delete_op k) h d content e = ground (arith, get-pop k d s.blobs, h d content)
  apply-IsSound s (write_op name new) h d content e = h d content e

  pub run-IsSound : (s : MemoryBlockStore) (ops : List Op) → IsSound s → IsSound (run s ops)
  run-IsSound s [] h = h
  run-IsSound s (op ∷ ops) h = run-IsSound (apply s op) ops (apply-IsSound s op h)

  pub init-IsSound : IsSound Memory.init
  unfolding Memory.init get
  init-IsSound d content e = absurd (ground arith)

  load_intact : (s : MemoryBlockStore) (d : Digest) → Memory.load s d ≡ raise block_integrity → ⊥
  unfolding Memory.load
  load_intact s d e = ground arith

  pub get_bytes_sound :
      (s : MemoryBlockStore) (d : Digest) → IsSound s → Memory.get_bytes s d ≡ Memory.load s d
  unfolding Memory.get_bytes
  get_bytes_sound s d h = elim (Option-cases (get d s.blobs)) [
    | inl e ↦ ground arith
    | inr (content, e) ↦ ground (arith, ==_complete (sha256 content) d (h d content e))
  ]

  -- A store that started empty never reports corruption: whatever calls were made on it, in whatever
  -- order, `get_bytes` answers what is loaded, and the check of the hash does not fail.
  pub get_bytes-run :
      (ops : List Op) (d : Digest)
      → (Memory.get_bytes (run Memory.init ops) d ≡ Memory.load (run Memory.init ops) d)
        × (Memory.get_bytes (run Memory.init ops) d ≡ raise block_integrity → ⊥)
  get_bytes-run ops d =
      let same =
        get_bytes_sound (run Memory.init ops) d (run-IsSound Memory.init ops init-IsSound) in
      (same, λ e. load_intact (run Memory.init ops) d (sym same ∙ e))

  -- Bytes that were stored are read back, unless their digest was redacted or two byte strings with the
  -- same SHA-256 are at hand.
  pub get_bytes-put_bytes :
      (s : MemoryBlockStore) (content : Bytes)
      → IsSound s
      → has_key (sha256 content) s.tombstones ≡ false
      → (Memory.get_bytes (Memory.put_bytes s content).0 (Memory.put_bytes s content).1.raw
          ≡ ok content)
        ⊎ Collision
  unfolding Memory.get_bytes Memory.put_bytes
  get_bytes-put_bytes s content h t = elim (Option-cases (get (sha256 content) s.blobs)) [
    | inl e ↦ inl (
        ground (
          arith,
          get-setdefault (sha256 content) (sha256 content) content s.blobs,
          ==_refl (sha256 content),
        ))
    | inr (old, e) ↦ elim (same_or_collide old content (h (sha256 content) old e)) [
      | inl same ↦ inl (
          ground (
            arith,
            get-setdefault (sha256 content) (sha256 content) content s.blobs,
            ==_refl (sha256 content),
            ap sha256 same,
          ))
      | inr c ↦ inr c
    ]
  ]

  apply-spares :
      (s : MemoryBlockStore) (op : Op) (d : Digest) (content : Bytes)
      → spares d op ≡ true
      → Memory.load s d ≡ ok content
      → Memory.load (apply s op) d ≡ ok content
  unfolding Memory.put_bytes Memory.tombstone Memory.delete Memory.write_pointer Memory.load has_key
  apply-spares s (put_op new) d content h e =
      ground (arith, get-setdefault (sha256 new) d new s.blobs)
  apply-spares s (tombstone_op k reason) d content h e =
      ground (arith, get-pop k d s.blobs, get-put k d reason s.tombstones)
  apply-spares s (delete_op k) d content h e =
      ground (arith, get-pop k d s.blobs, get-pop k d s.tombstones)
  apply-spares s (write_op name new) d content h e = e

  load-run :
      (s : MemoryBlockStore) (ops : List Op) (d : Digest) (content : Bytes)
      → all (spares d) ops ≡ true
      → Memory.load s d ≡ ok content
      → Memory.load (run s ops) d ≡ ok content
  unfolding all
  load-run s [] d content h e = e
  load-run s (op ∷ ops) d content h e =
      load-run (apply s op) ops d content (ground arith)
        (apply-spares s op d content (ground arith) e)

  -- Bytes that can be read stay readable, and stay the same, through any sequence of calls that neither
  -- redacts nor deletes their digest.
  pub get_bytes_durable :
      (s : MemoryBlockStore) (ops : List Op) (d : Digest) (content : Bytes)
      → all (spares d) ops ≡ true
      → Memory.get_bytes s d ≡ ok content
      → Memory.get_bytes (run s ops) d ≡ ok content
  unfolding Memory.get_bytes
  get_bytes_durable s ops d content h e = ground (arith, load-run s ops d content h)

  apply-keeps_tombstone :
      (s : MemoryBlockStore) (op : Op) (d : Digest)
      → keeps_tombstone d op ≡ true
      → Memory.load s d ≡ raise block_tombstoned
      → Memory.load (apply s op) d ≡ raise block_tombstoned
  unfolding Memory.put_bytes Memory.tombstone Memory.delete Memory.write_pointer Memory.load has_key
  apply-keeps_tombstone s (put_op new) d h e = ground arith
  apply-keeps_tombstone s (tombstone_op k reason) d h e =
      ground (arith, get-put k d reason s.tombstones)
  apply-keeps_tombstone s (delete_op k) d h e = ground (arith, get-pop k d s.tombstones)
  apply-keeps_tombstone s (write_op name new) d h e = e

  redacted_stays :
      (s : MemoryBlockStore) (ops : List Op) (d : Digest)
      → all (keeps_tombstone d) ops ≡ true
      → Memory.load s d ≡ raise block_tombstoned
      → Memory.load (run s ops) d ≡ raise block_tombstoned
  unfolding all
  redacted_stays s [] d h e = e
  redacted_stays s (op ∷ ops) d h e =
      redacted_stays (apply s op) ops d (ground arith)
        (apply-keeps_tombstone s op d (ground arith) e)

  load-tombstone :
      (s : MemoryBlockStore) (d : Digest) (reason : Text)
      → Memory.load (Memory.tombstone s d reason) d ≡ raise block_tombstoned
  unfolding Memory.tombstone Memory.load has_key
  load-tombstone s d reason = ground (arith, get-put d d reason s.tombstones, ==_refl d)

  -- A redaction lasts: once a digest is redacted, its bytes cannot be read through any sequence of calls
  -- that does not delete it, even if the same bytes are stored again.
  pub get_bytes-tombstone :
      (s : MemoryBlockStore) (ops : List Op) (d : Digest) (reason : Text)
      → all (keeps_tombstone d) ops ≡ true
      → Memory.get_bytes (run (Memory.tombstone s d reason) ops) d ≡ raise block_tombstoned
  unfolding Memory.get_bytes
  get_bytes-tombstone s ops d reason h =
      ground
        (arith, redacted_stays (Memory.tombstone s d reason) ops d h (load-tombstone s d reason))
