-- ===== src/Authenticity/TrustRoot/Keys.antt =====
-- The keys of an acceptable trust root: each is found under its blob, and what a margin in governance means.
use pyboltzmann.Prelude.{
  ℕ, ◌+◌, ◌≤◌, ◌≡◌, ◌↔◌, refl, ap, sym, ◌∙◌, inl, inr, Bool, true, false, not, some, List, [], ◌∷◌,
  filter, length, ltb, arith, Bool-cases, In, In-cases, if◌then◌else◌,
}
use pyboltzmann.Prelude.Order.{◌==◌, ==_sound, ==_refl}
use pyboltzmann.Prelude.Bytes.{Bytes, bytes_order}
use pyboltzmann.Authenticity.TrustRoot
use pyboltzmann.Authenticity.TrustRoot.{
  TrustedKey, TrustRoot, has_key, are_distinct, entry_in, is_acceptable, govern_holders,
}

In-has_key :
    (e : TrustedKey) (entries : List TrustedKey) → In e entries → has_key e.key entries ≡ true
unfolding has_key
In-has_key e [] i = elim i [ ]
In-has_key e (o ∷ entries) i = elim (In-cases o e entries i) [
  | inl q ↦ ground (arith, ap (λ x. x.key == e.key) q, ==_refl e.key)
  | inr j ↦ ground (arith, In-has_key e entries j)
]

entry_in_lem :
    (entries : List TrustedKey) (e : TrustedKey)
    → are_distinct entries ≡ true
    → In e entries
    → entry_in entries e.key ≡ some e
unfolding are_distinct entry_in
entry_in_lem [] e u i = elim i [ ]
entry_in_lem (o ∷ entries) e u i = elim (In-cases o e entries i) [
  | inl q ↦
      ap (λ c. if c then some o else entry_in entries e.key)
        (ap (λ x. x.key == e.key) q ∙ ==_refl e.key)
      ∙ ap (λ x. some x) q
  | inr j ↦ elim (Bool-cases (o.key == e.key)) [
    | inl s ↦ absurd (
        ground
          (arith, In-has_key e entries j, ap (λ k. has_key k entries) (==_sound o.key e.key s)))
    | inr n ↦
        ap (λ c. if c then some o else entry_in entries e.key) n
        ∙ entry_in_lem entries e (ground arith) j
  ]
]

-- The entries whose blob is another.
abbrev pub without : Bytes → List TrustedKey → List TrustedKey
without key entries = filter (λ entry. not (entry.key == key)) entries

has_key-filter :
    (k : Bytes) (p : TrustedKey → Bool) (entries : List TrustedKey)
    → has_key k entries ≡ false
    → has_key k (filter p entries) ≡ false
unfolding has_key filter
has_key-filter k p [] n = refl
has_key-filter k p (e ∷ entries) n = elim (Bool-cases (p e)) [
  | inl y ↦ ground (arith, has_key-filter k p entries)
  | inr x ↦ ground (arith, has_key-filter k p entries)
]

are_distinct-filter :
    (p : TrustedKey → Bool) (entries : List TrustedKey)
    → are_distinct entries ≡ true
    → are_distinct (filter p entries) ≡ true
unfolding are_distinct filter
are_distinct-filter p [] u = refl
are_distinct-filter p (e ∷ entries) u = elim (Bool-cases (p e)) [
  | inl y ↦ ground (arith, are_distinct-filter p entries, has_key-filter e.key p entries)
  | inr x ↦ ground (arith, are_distinct-filter p entries)
]

length-without_absent :
    (k : Bytes) (entries : List TrustedKey)
    → has_key k entries ≡ false
    → length (without k entries) ≡ length entries
unfolding has_key filter
length-without_absent k [] n = refl
length-without_absent k (e ∷ entries) n = ground (arith, length-without_absent k entries)

-- Of entries with distinct blobs a blob takes at most one away, and that of an entry exactly one.
length-without :
    (k : Bytes) (entries : List TrustedKey)
    → are_distinct entries ≡ true
    → length (without k entries) + (if has_key k entries then 1 else 0) ≡ length entries
unfolding are_distinct has_key filter
length-without k [] u = refl
length-without k (e ∷ entries) u = elim (Bool-cases (e.key == k)) [
  | inl s ↦
      let fresh : has_key k entries ≡ false =
        ap (λ x. has_key x entries) (sym (==_sound e.key k s)) ∙ ground arith in
      ground (arith, length-without_absent k entries)
  | inr n ↦ ground (arith, length-without k entries)
]

acceptable-distinct : (root : TrustRoot) → is_acceptable root ≡ true → are_distinct root.keys ≡ true
unfolding is_acceptable
acceptable-distinct root a = ground arith

holders-distinct :
    (root : TrustRoot) → is_acceptable root ≡ true → are_distinct (govern_holders root) ≡ true
unfolding TrustRoot.govern_holders TrustRoot.holders
holders-distinct root a = are_distinct-filter _ root.keys (acceptable-distinct root a)

-- In a trust root that passes its checks, each listed key is found under its blob.
pub entry_for-listed :
    (root : TrustRoot) (e : TrustedKey)
    → is_acceptable root ≡ true
    → In e root.keys
    → TrustRoot.entry_for root e.key ≡ some e
unfolding TrustRoot.entry_for
entry_for-listed root e a i = entry_in_lem root.keys e (acceptable-distinct root a) i

margin_kept :
    (quorum n w : ℕ) (c : Bool) → w + (if c then 1 else 0) ≡ n → ltb quorum n ≡ true → quorum ≤ w
margin_kept quorum n w c e m = ground arith

margin_found :
    (quorum n w : ℕ) (c : Bool)
    → w + (if c then 1 else 0) ≡ n
    → c ≡ true
    → quorum ≤ w
    → ltb quorum n ≡ true
margin_found quorum n w c e y m = ground arith

-- A trust root that passes its checks and has a key that may govern has a margin in governance exactly if,
-- whichever one key is lost, the quorum is still in reach of the rest.
pub has_governance_margin-loss :
    (root : TrustRoot) (e : TrustedKey)
    → is_acceptable root ≡ true
    → In e (govern_holders root)
    → (TrustRoot.has_governance_margin root ≡ true)
      ↔ ((k : Bytes) → root.govern_quorum ≤ length (without k (govern_holders root)))
unfolding TrustRoot.has_governance_margin
has_governance_margin-loss root e a i =
    let u = holders-distinct root a in
    (
      λ m k.
          margin_kept root.govern_quorum (length (govern_holders root))
            (length (without k (govern_holders root))) (has_key k (govern_holders root))
            (length-without k (govern_holders root) u) m,
      λ h.
          margin_found root.govern_quorum (length (govern_holders root))
            (length (without e.key (govern_holders root))) (has_key e.key (govern_holders root))
            (length-without e.key (govern_holders root) u) (In-has_key e (govern_holders root) i)
            (h e.key),
    )
