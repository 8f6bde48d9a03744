-- ===== src/Store/Memory.antt =====
-- store/memory.py: the store that holds content-addressed bytes in dictionaries, with the check of
-- `get_bytes` in store/base.py. A method returns the new state beside its result.
pub mod Spec
pub mod Refines
pub mod Reachable
mod Tests
use pyboltzmann.Prelude.{
  ℕ, Bool, not, ◌&&◌, ◌||◌, Option, none, some, List, [], map, if◌then◌else◌, length,
}
use pyboltzmann.Prelude.Order.{◌==◌}
use pyboltzmann.Prelude.Bytes.{Bytes, bytes_order}
use pyboltzmann.Prelude.Texts.{Text}
use pyboltzmann.Prelude.Dict.{Dict, get, put, setdefault, pop, keys, has_key}
use pyboltzmann.Exceptions.{
  Result, ok, raise, block_not_found, block_tombstoned, block_integrity, ◌>>=◌,
}
use pyboltzmann.Identity.{Digest, OciDigest}
use pyboltzmann.Identity.Hashing.{Sha256, sha256}

pub record MemoryBlockStore : Type 0 where
  pub blobs : Dict Digest Bytes
  pub tombstones : Dict Digest Text
  pub pointers : Dict Text Bytes

-- `MemoryBlockStore()`
unfoldable pub init : MemoryBlockStore
init = record { blobs = []; tombstones = []; pointers = [] }

unfoldable pub load : MemoryBlockStore → Digest → Result Bytes
load s digest =
    if has_key digest s.tombstones
    then raise block_tombstoned
    else elim (get digest s.blobs) [ none ↦ raise block_not_found | some content ↦ ok content ]

unfoldable pub has : MemoryBlockStore → Digest → Bool
has s digest = has_key digest s.blobs || has_key digest s.tombstones

unfoldable pub is_resolvable : MemoryBlockStore → Digest → Bool
is_resolvable s digest = has_key digest s.blobs && not (has_key digest s.tombstones)

unfoldable pub tombstone : MemoryBlockStore → Digest → Text → MemoryBlockStore
tombstone s digest reason = record s {
  blobs = pop digest s.blobs;
  tombstones = put digest reason s.tombstones;
}

unfoldable pub delete : MemoryBlockStore → Digest → MemoryBlockStore
delete s digest = record s { blobs = pop digest s.blobs; tombstones = pop digest s.tombstones }

unfoldable pub iter_digests : MemoryBlockStore → List Digest
iter_digests s = keys s.blobs

unfoldable pub read_pointer : MemoryBlockStore → Text → Option Bytes
read_pointer s name = get name s.pointers

unfoldable pub write_pointer : MemoryBlockStore → Text → Bytes → MemoryBlockStore
write_pointer s name content = record s { pointers = put name content s.pointers }

-- `len(store)`
unfoldable pub size : MemoryBlockStore → ℕ
size s = length s.blobs

module _ ⦃sha : Sha256⦄ where
  unfoldable pub put_bytes : MemoryBlockStore → Bytes → MemoryBlockStore × OciDigest
  put_bytes s content = (
    record s { blobs = setdefault (sha256 content) content s.blobs },
    record { raw = sha256 content },
  )

  -- `AbstractBlockStore.get_bytes`: what is loaded must hash to the digest.
  unfoldable pub get_bytes : MemoryBlockStore → Digest → Result Bytes
  unfolding load
  get_bytes s digest = do
    content ← load s digest
    if not (sha256 content == digest) then raise block_integrity else ok content
