-- ===== src/Retention/Reachability/Sweep.antt =====
-- `sweep` of retention/reachability.py, and the deletion of what it names.
use pyboltzmann.Prelude.{
  ◌≡◌, refl, ◌∙◌, not, ◌&&◌, none, List, [], ◌∷◌, arith, filter, if◌then◌else◌,
}
use pyboltzmann.Prelude.Order.{==_sound, ==_complete}
use pyboltzmann.Prelude.Sets.{contains, contains-filter}
use pyboltzmann.Prelude.Sorting.{contains-sort}
use pyboltzmann.Prelude.Dict.{get, get-pop}
use pyboltzmann.Prelude.Bytes.{bytes_order}
use pyboltzmann.Identity.{Digest}
use pyboltzmann.Store.Memory
use pyboltzmann.Store.Memory.{MemoryBlockStore}
use pyboltzmann.Retention.Reachability

-- What is reclaimable is what the store holds and nothing keeps.
pub contains-sweep :
    (d : Digest) (keep : List Digest) (s : MemoryBlockStore)
    → contains d (Reachability.sweep keep s)
      ≡ (contains d (Memory.iter_digests s) && not (contains d keep))
unfolding Reachability.sweep
contains-sweep d keep s =
    let free = λ (x : Digest). not (contains x keep) in
    contains-sort d (filter free (Memory.iter_digests s))
    ∙ contains-filter d free (Memory.iter_digests s)

-- The loop of `prune` over what is reclaimable.
unfoldable pub delete_all : MemoryBlockStore → List Digest → MemoryBlockStore
delete_all s [] = s
delete_all s (d ∷ ds) = delete_all (Memory.delete s d) ds

pub blobs-delete_all :
    (d : Digest) (s : MemoryBlockStore) (ds : List Digest)
    → get d (delete_all s ds).blobs ≡ (if contains d ds then none else get d s.blobs)
unfolding delete_all Memory.delete contains
blobs-delete_all d s [] = refl
blobs-delete_all d s (e ∷ ds) = ground (
  arith,
  blobs-delete_all d (Memory.delete s e) ds,
  get-pop e d s.blobs,
  ==_sound d e,
  ==_sound e d,
  ==_complete d e,
  ==_complete e d,
)

pub tombstones-delete_all :
    (d : Digest) (s : MemoryBlockStore) (ds : List Digest)
    → get d (delete_all s ds).tombstones ≡ (if contains d ds then none else get d s.tombstones)
unfolding delete_all Memory.delete contains
tombstones-delete_all d s [] = refl
tombstones-delete_all d s (e ∷ ds) = ground (
  arith,
  tombstones-delete_all d (Memory.delete s e) ds,
  get-pop e d s.tombstones,
  ==_sound d e,
  ==_sound e d,
  ==_complete d e,
  ==_complete e d,
)

pub pointers-delete_all :
    (s : MemoryBlockStore) (ds : List Digest) → (delete_all s ds).pointers ≡ s.pointers
unfolding delete_all Memory.delete
pointers-delete_all s [] = refl
pointers-delete_all s (e ∷ ds) = pointers-delete_all (Memory.delete s e) ds
