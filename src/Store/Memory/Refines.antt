-- ===== src/Store/Memory/Refines.antt =====
-- store/memory.py implements the contract of a store.
use pyboltzmann.Prelude.{true, ◌≡◌, Option, none, some}
use pyboltzmann.Prelude.Sets.{contains}
use pyboltzmann.Prelude.Bytes.{Bytes, bytes_order}
use pyboltzmann.Prelude.Texts.{Text}
use pyboltzmann.Prelude.Dict.{get}
use pyboltzmann.Identity.{Digest}
use pyboltzmann.Identity.Hashing.{Sha256, sha256}
use pyboltzmann.Store.Memory
use pyboltzmann.Store.Memory.{MemoryBlockStore}
use pyboltzmann.Store.Memory.Spec
use pyboltzmann.Store.Memory.Spec.{Status, Contents, absent, held, redacted, at}

abbrev pub status_from : Option Text → Option Bytes → Status
status_from none none = absent
status_from none (some content) = held content
status_from (some reason) _ = redacted reason

-- The contents that the dictionaries of a store describe. Bytes that stand beside a redaction are
-- forgotten.
abbrev pub contents : MemoryBlockStore → Contents
contents s = record {
  status = λ digest. status_from (get digest s.tombstones) (get digest s.blobs);
  pointer = λ name. get name s.pointers;
}

-- A store answers every question as the contract does for given contents. The digests that it lists
-- are known, and those whose bytes are held are among them.
pub record IsStore ⦃sha : Sha256⦄ (s : MemoryBlockStore) (c : Contents) : Type 0 where
  pub get_bytes : (digest : Digest) → Memory.get_bytes s digest ≡ Spec.answer (c.status digest)
  pub put_bytes : (content : Bytes) → (Memory.put_bytes s content).1.raw ≡ sha256 content
  pub has : (digest : Digest) → Memory.has s digest ≡ Spec.is_known (c.status digest)
  pub is_resolvable :
      (digest : Digest) → Memory.is_resolvable s digest ≡ Spec.is_held (c.status digest)
  pub read_pointer : (name : Text) → Memory.read_pointer s name ≡ c.pointer name
  pub listed :
      (digest : Digest)
      → contains digest (Memory.iter_digests s) ≡ true
      → Spec.is_known (c.status digest) ≡ true
  pub lists :
      (digest : Digest)
      → Spec.is_held (c.status digest) ≡ true
      → contains digest (Memory.iter_digests s) ≡ true
