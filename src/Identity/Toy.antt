-- ===== src/Identity/Toy.antt =====
-- A stand-in for SHA-256 in tests: 32 bytes, the first a checksum.
use pyboltzmann.Prelude.{ℕ, ◌+◌, ◌*◌, ◌%◌, ◌≡◌, refl, [], ◌∷◌, length}
use pyboltzmann.Prelude.Bytes.{Bytes}
use pyboltzmann.Identity.{BlockId}
use pyboltzmann.Identity.Hashing.{Sha256, digest_size}

unfoldable pub checksum : ℕ → Bytes → ℕ
checksum acc [] = acc % 251
checksum acc (x ∷ xs) = checksum ((acc * 31 + x + 1) % 251) xs

unfoldable pub toy_digest : Bytes → Bytes
unfolding checksum
toy_digest m =
    checksum 7 m
    ∷ 0
    ∷ 0
    ∷ 0
    ∷ 0
    ∷ 0
    ∷ 0
    ∷ 0
    ∷ 0
    ∷ 0
    ∷ 0
    ∷ 0
    ∷ 0
    ∷ 0
    ∷ 0
    ∷ 0
    ∷ 0
    ∷ 0
    ∷ 0
    ∷ 0
    ∷ 0
    ∷ 0
    ∷ 0
    ∷ 0
    ∷ 0
    ∷ 0
    ∷ 0
    ∷ 0
    ∷ 0
    ∷ 0
    ∷ 0
    ∷ 0
    ∷ []

pub toy_size : (m : Bytes) → length (toy_digest m) ≡ digest_size
unfolding toy_digest
toy_size m = refl

instance abbrev pub toy : Sha256
toy = record { digest = toy_digest; size = toy_size }

-- A block identity with a short digest.
abbrev pub block : ℕ → BlockId
block n = record { raw = n ∷ [] }
