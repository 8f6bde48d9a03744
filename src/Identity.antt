-- ===== src/Identity.antt =====
-- identity/digest.py: the three levels of identity. A digest is the algorithm, which is always
-- sha256, and 64 hex characters; it is represented here by the bytes that those characters spell,
-- which are `raw`. Ordering by `hex` and ordering by `raw` agree.
pub mod Hashing
pub mod Digest
pub mod Json
pub mod Principal
pub mod Serialization
pub mod Collisions
pub mod Toy
use pyboltzmann.Prelude.{◌≡◌, arith}
use pyboltzmann.Prelude.Order.{LinearOrder, order_on}
use pyboltzmann.Prelude.Bytes.{Bytes, bytes_order}

-- What the levels share: `digest.hex`, which is all that a physical store looks at.
abbrev pub Digest : Type 0
Digest = Bytes

pub record BlockId : Type 0 where
  pub raw : Bytes

pub record MerkleRoot : Type 0 where
  pub raw : Bytes

pub record OciDigest : Type 0 where
  pub raw : Bytes

pub BlockId-injective : (a b : BlockId) → a.raw ≡ b.raw → a ≡ b
BlockId-injective a b p = λ i. record { raw = p i }

pub OciDigest-injective : (a b : OciDigest) → a.raw ≡ b.raw → a ≡ b
OciDigest-injective a b p = λ i. record { raw = p i }

instance abbrev pub block_order : LinearOrder BlockId
block_order = order_on bytes_order (λ b. b.raw) BlockId-injective

instance abbrev pub oci_order : LinearOrder OciDigest
oci_order = order_on bytes_order (λ d. d.raw) OciDigest-injective
