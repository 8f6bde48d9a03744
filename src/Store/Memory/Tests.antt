-- ===== src/Store/Memory/Tests.antt =====
-- store/memory.py on a store that holds two byte strings and redacts one.
use pyboltzmann.Prelude.{
  ◌≡◌, ◌⊎◌, refl, arith, Bool, true, false, List, [], ◌∷◌, Option, none, some,
}
use pyboltzmann.Prelude.Order.{◌==◌}
use pyboltzmann.Prelude.Bytes.{Bytes, bytes_lt, bytes_order}
use pyboltzmann.Prelude.Texts.{codes}
use pyboltzmann.Prelude.Dict.{get, put, setdefault, pop, keys, has_key}
use pyboltzmann.Exceptions.{ok, raise, block_tombstoned, block_integrity}
use pyboltzmann.Identity.{Digest}
use pyboltzmann.Identity.Hashing.{sha256}
use pyboltzmann.Identity.Collisions.{Collision}
use pyboltzmann.Identity.Toy.{toy, toy_digest}
use pyboltzmann.Store.Memory
use pyboltzmann.Store.Memory.{MemoryBlockStore}
use pyboltzmann.Store.Memory.Spec
use pyboltzmann.Store.Memory.Reachable.{
  Op, put_op, tombstone_op, delete_op, write_op, run, init-IsSound, get_bytes-run,
  get_bytes-put_bytes, get_bytes_durable, get_bytes-tombstone,
}

abbrev hello : Bytes
hello = codes "hello"

abbrev bye : Bytes
bye = codes "bye"

abbrev hello_digest : Digest
hello_digest = toy_digest hello

abbrev bye_digest : Digest
bye_digest = toy_digest bye

abbrev history : List Op
history =
    put_op hello ∷ put_op bye ∷ write_op (codes "refs") hello ∷ tombstone_op bye_digest [] ∷ []

abbrev after : MemoryBlockStore
after = run Memory.init history

hello_reads : Memory.get_bytes after hello_digest ≡ ok hello
unfolding Memory.get_bytes has_key get Memory.tombstone put Memory.write_pointer Memory.put_bytes
    Memory.init ◌==◌ bytes_lt toy_digest pop setdefault sha256
hello_reads = refl

redacted_reads : Memory.get_bytes after bye_digest ≡ raise block_tombstoned
unfolding Memory.get_bytes has_key get Memory.tombstone put Memory.write_pointer Memory.put_bytes
    Memory.init ◌==◌ bytes_lt toy_digest
redacted_reads = refl

-- Bytes that arrive for a redacted digest are listed, though they cannot be read.
listed_not_resolvable :
    (Memory.iter_digests (run after (put_op bye ∷ [])) ≡ hello_digest ∷ bye_digest ∷ [])
    × (Memory.is_resolvable (run after (put_op bye ∷ [])) bye_digest ≡ false)
unfolding Memory.iter_digests Memory.is_resolvable keys Memory.put_bytes setdefault get
    Memory.tombstone pop Memory.write_pointer Memory.init put ◌==◌ bytes_lt sha256 toy_digest
    has_key
listed_not_resolvable = (refl, refl)

get_bytes-run_example :
    (Memory.get_bytes (run Memory.init history) hello_digest
      ≡ Memory.load (run Memory.init history) hello_digest)
    × (Memory.get_bytes (run Memory.init history) hello_digest ≡ raise block_integrity → ⊥)
get_bytes-run_example = get_bytes-run history hello_digest

hello_free : has_key (sha256 hello) Memory.init.tombstones ≡ false
unfolding Memory.init has_key get
hello_free = refl

get_bytes-put_bytes_case :
    (Memory.get_bytes
        (Memory.put_bytes Memory.init hello).0
        (Memory.put_bytes Memory.init hello).1.raw
      ≡ ok hello)
    ⊎ Collision
get_bytes-put_bytes_case = get_bytes-put_bytes Memory.init hello init-IsSound hello_free

abbrev later : List Op
later = delete_op bye_digest ∷ put_op bye ∷ []

get_bytes_durable_example : Memory.get_bytes (run after later) hello_digest ≡ ok hello
unfolding Memory.get_bytes pyboltzmann.Prelude.all ◌==◌ bytes_lt toy_digest
get_bytes_durable_example = get_bytes_durable after later hello_digest hello refl hello_reads

get_bytes-tombstone_case :
    Memory.get_bytes (run (Memory.tombstone after hello_digest []) (put_op hello ∷ [])) hello_digest
    ≡ raise block_tombstoned
unfolding pyboltzmann.Prelude.all
get_bytes-tombstone_case = get_bytes-tombstone after (put_op hello ∷ []) hello_digest [] refl
