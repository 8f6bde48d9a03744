-- ===== src/Identity/Hashing.antt =====
-- identity/hashing.py. SHA-256 is Python's `hashlib`: a parameter, with the one fact that it
-- documents, the size of a digest.
use pyboltzmann.Prelude.{ℕ, ◌≡◌, [], ◌∷◌, ◌++◌, length}
use pyboltzmann.Prelude.Bytes.{Bytes}

abbrev pub digest_size : ℕ
digest_size = 32

pub record Sha256 : Type 0 where
  pub digest : Bytes → Bytes
  pub size : (message : Bytes) → length (digest message) ≡ digest_size

abbrev pub leaf_prefix : Bytes
leaf_prefix = 0 ∷ []

abbrev pub node_prefix : Bytes
node_prefix = 1 ∷ []

module _ ⦃sha : Sha256⦄ where
  unfoldable pub sha256 : Bytes → Bytes
  sha256 message = sha.digest message

  unfoldable pub hash_leaf : Bytes → Bytes
  unfolding sha256
  hash_leaf digest = sha256 (leaf_prefix ++ digest)

  unfoldable pub hash_node : Bytes → Bytes → Bytes
  unfolding sha256
  hash_node left right = sha256 (node_prefix ++ (left ++ right))

  unfoldable pub hash_empty : Bytes
  unfolding sha256
  hash_empty = sha256 []
