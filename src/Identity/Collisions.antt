-- ===== src/Identity/Collisions.antt =====
-- What two equal hashes of identity/hashing.py say of what was hashed: the same input, or a pair of
-- inputs that break SHA-256. No injectivity of the hash is assumed.
use pyboltzmann.Prelude.{
  ◌≡◌, ◌≢◌, ◌⊎◌, inl, inr, refl, ap, [], ◌∷◌, ◌++◌, arith, length, length-append, ℕ_discrete,
}
use pyboltzmann.Prelude.Bytes.{Bytes}
use pyboltzmann.Identity.Hashing.{Sha256, sha256, hash_leaf, hash_node, hash_empty, digest_size}

pub Bytes-discrete : Discrete Bytes
Bytes-discrete = hlevel ℕ_discrete

pub append_injective : (a b c d : Bytes) → length a ≡ length c → a ++ b ≡ c ++ d → (a ≡ c) × (b ≡ d)
append_injective [] b [] d h p = (refl, p)
append_injective [] b (y ∷ c) d h p = absurd (omega arith)
append_injective (x ∷ a) b [] d h p = absurd (omega arith)
append_injective (x ∷ a) b (y ∷ c) d h p = ground (arith, append_injective a b c d)

module _ ⦃sha : Sha256⦄ where
  pub record Collision : Type 0 where
    pub first : Bytes
    pub second : Bytes
    pub differ : first ≢ second
    pub agree : sha256 first ≡ sha256 second

  pub same_or_collide : (x y : Bytes) → sha256 x ≡ sha256 y → (x ≡ y) ⊎ Collision
  same_or_collide x y h = elim (Bytes-discrete x y) [
    | yes e ↦ inl e
    | no n ↦ inr (record { first = x; second = y; differ = n; agree = h })
  ]

  pub length-hash_leaf : (x : Bytes) → length (hash_leaf x) ≡ digest_size
  unfolding hash_leaf
  length-hash_leaf x = sha.size (0 ∷ x)

  pub length-hash_node : (x y : Bytes) → length (hash_node x y) ≡ digest_size
  unfolding hash_node
  length-hash_node x y = sha.size (1 ∷ (x ++ y))

  pub hash_leaf-injective : (x y : Bytes) → hash_leaf x ≡ hash_leaf y → (x ≡ y) ⊎ Collision
  unfolding hash_leaf
  hash_leaf-injective x y h = elim (same_or_collide (0 ∷ x) (0 ∷ y) h) [
    | inl e ↦ inl (ground arith)
    | inr c ↦ inr c
  ]

  pub hash_leaf-hash_node : (x y z : Bytes) → hash_leaf x ≡ hash_node y z → Collision
  unfolding hash_leaf hash_node
  hash_leaf-hash_node x y z h = record {
    first = 0 ∷ x;
    second = 1 ∷ (y ++ z);
    differ = λ e. ground arith;
    agree = h;
  }

  pub hash_leaf-hash_empty : (x : Bytes) → hash_leaf x ≡ hash_empty → Collision
  unfolding hash_leaf hash_empty
  hash_leaf-hash_empty x h = record {
    first = 0 ∷ x;
    second = [];
    differ = λ e. ground arith;
    agree = h;
  }

  pub hash_node-hash_empty : (x y : Bytes) → hash_node x y ≡ hash_empty → Collision
  unfolding hash_node hash_empty
  hash_node-hash_empty x y h = record {
    first = 1 ∷ (x ++ y);
    second = [];
    differ = λ e. ground arith;
    agree = h;
  }

  -- Two node hashes agree only on the same children, if the left ones are equally long.
  pub hash_node-injective :
      (a b c d : Bytes)
      → length a ≡ length c
      → hash_node a b ≡ hash_node c d
      → ((a ≡ c) × (b ≡ d)) ⊎ Collision
  unfolding hash_node
  hash_node-injective a b c d n h = elim (same_or_collide (1 ∷ (a ++ b)) (1 ∷ (c ++ d)) h) [
    | inl e ↦ inl (append_injective a b c d n (ground arith))
    | inr k ↦ inr k
  ]

  -- So it is if the right ones are, when both sides have the same length in all.
  pub hash_node-injective_right :
      (a b c d : Bytes)
      → length b ≡ length d
      → hash_node a b ≡ hash_node c d
      → ((a ≡ c) × (b ≡ d)) ⊎ Collision
  unfolding hash_node
  hash_node-injective_right a b c d n h = elim (same_or_collide (1 ∷ (a ++ b)) (1 ∷ (c ++ d)) h) [
    | inl e ↦
        let whole : a ++ b ≡ c ++ d = ground arith in
        inl (
          append_injective a b c d
            (omega
              (arith, length-append a b, length-append c d, ap (λ (x : Bytes). length x) whole, n))
            whole)
    | inr k ↦ inr k
  ]
