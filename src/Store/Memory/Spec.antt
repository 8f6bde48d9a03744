-- ===== src/Store/Memory/Spec.antt =====
-- The contract of a store, without its dictionaries: what each digest and each pointer stands for.
-- The methods of store/base.py's `BlockStore` on this view.
use pyboltzmann.Prelude.{List, [], ◌∷◌, Bool, true, false, Option, none, some, if◌then◌else◌}
use pyboltzmann.Prelude.Order.{◌==◌}
use pyboltzmann.Prelude.Bytes.{Bytes, bytes_order}
use pyboltzmann.Prelude.Texts.{Text}
use pyboltzmann.Exceptions.{Result, ok, raise, block_not_found, block_tombstoned}
use pyboltzmann.Identity.{Digest}
use pyboltzmann.Store.Memory.Reachable.{Op, put_op, tombstone_op, delete_op, write_op}
use pyboltzmann.Identity.Hashing.{Sha256, sha256}

-- What a store knows of a digest: nothing, its bytes, or why it was redacted.
pub data Status : Type 0 where
  absent : Status
  held : Bytes → Status
  redacted : Text → Status

pub record Contents : Type 0 where
  pub status : Digest → Status
  pub pointer : Text → Option Bytes

abbrev pub empty : Contents
empty = record { status = λ _. absent; pointer = λ _. none }

-- A function, changed at one key.
abbrev pub at {ℓ} : {A : Type ℓ} → (Bytes → A) → Bytes → A → Bytes → A
at f k a j = if k == j then a else f j

-- What storing bytes makes of a status: storing bytes that are held is a no-op, and a redaction stands.
abbrev pub arrive : Bytes → Status → Status
arrive content absent = held content
arrive content (held old) = held old
arrive content (redacted reason) = redacted reason

-- The bytes, or the reason that they cannot be read: they are not held, or were redacted.
abbrev pub answer : Status → Result Bytes
answer absent = raise block_not_found
answer (held content) = ok content
answer (redacted reason) = raise block_tombstoned

-- Known at all, resolvable or redacted.
abbrev pub is_known : Status → Bool
is_known absent = false
is_known _ = true

-- The bytes are present and not redacted.
abbrev pub is_held : Status → Bool
is_held (held _) = true
is_held _ = false

abbrev pub write : Contents → Text → Bytes → Contents
write c name content = record c { pointer = at c.pointer name (some content) }

-- The bytes are destroyed and the identity is kept.
abbrev pub redact : Contents → Digest → Text → Contents
redact c digest reason = record c { status = at c.status digest (redacted reason) }

abbrev pub reclaim : Contents → Digest → Contents
reclaim c digest = record c { status = at c.status digest absent }

module _ ⦃sha : Sha256⦄ where
  abbrev pub store : Contents → Bytes → Contents
  store c content = record c {
    status = at c.status (sha256 content) (arrive content (c.status (sha256 content)));
  }

  abbrev pub apply : Contents → Op → Contents
  apply c (put_op content) = store c content
  apply c (tombstone_op d reason) = redact c d reason
  apply c (delete_op d) = reclaim c d
  apply c (write_op name content) = write c name content

  -- The calls that were made on a store, on its contents.
  abbrev pub replay : Contents → List Op → Contents
  replay c [] = c
  replay c (op ∷ ops) = replay (apply c op) ops
