-- ===== src/Retention/Reachability/Needs.antt =====
-- What a snapshot needs, independent of the walk of retention/reachability.py, and that the walk finds it.
use pyboltzmann.Prelude.{
  ◌≡◌, ◌↔◌, ◌⊎◌, refl, ap, sym, ◌∙◌, inl, inr, true, Option, none, some, List, [], ◌∷◌, ◌++◌, arith,
  Bool-cases, In, here, there, In-cases,
}
use pyboltzmann.Prelude.Order.{◌==◌, ==_sound, ==_refl}
use pyboltzmann.Prelude.Sets.{contains, contains-append}
use pyboltzmann.Prelude.Bytes.{bytes_order}
use pyboltzmann.Exceptions.{Exception, Result, ok, raise, ◌>>=◌, block_not_found, block_tombstoned}
use pyboltzmann.Identity.{Digest, OciDigest, BlockId}
use pyboltzmann.Identity.Hashing.{Sha256}
use pyboltzmann.Identity.Serialization.Canonical.{JsonLibrary}
use pyboltzmann.Module.Composition
use pyboltzmann.Module.Composition.{Composition}
use pyboltzmann.Module.Composition.Document.{from_document}
use pyboltzmann.Store.Memory
use pyboltzmann.Store.Memory.{MemoryBlockStore}
use pyboltzmann.Retention.Reachability.{Snapshot, ModuleRef, Decoders, raws, is_gone, tolerated}

-- The bytes of a digest are missing or redacted.
abbrev pub IsGone {ℓ} : {A : Type ℓ} → Result A → Type ℓ
IsGone r = (r ≡ raise block_not_found) ⊎ (r ≡ raise block_tombstoned)

is_gone_lem {ℓ} : {A : Type ℓ} (e : Exception) → is_gone e ≡ true → IsGone {A = A} (raise e)
unfolding is_gone
is_gone_lem block_not_found g = inl refl
is_gone_lem block_tombstoned g = inr refl
is_gone_lem e g = absurd (ground arith)

-- What is tolerated is what is missing or redacted.
pub tolerated_ok {ℓ} :
    {A : Type ℓ} (r : Result A) (found : Option A)
    → tolerated r ≡ ok found
    → ((a : A) × (r ≡ ok a) × (found ≡ some a)) ⊎ (IsGone r × (found ≡ none))
unfolding tolerated
tolerated_ok (ok a) found h = inl (a, refl, ground arith)
tolerated_ok (raise e) found h = elim (Bool-cases (is_gone e)) [
  | inl g ↦ inr (is_gone_lem e g, ground arith)
  | inr n ↦ absurd (ground arith)
]

pub in_append :
    (d : Digest) (a b : List Digest)
    → (contains d (a ++ b) ≡ true) ↔ ((contains d a ≡ true) ⊎ (contains d b ≡ true))
in_append d a b = (
  λ h. elim (Bool-cases (contains d a)) [
    | inl e ↦ inl e
    | inr n ↦ inr (ground (arith, contains-append d a b))
  ],
  λ h. elim h [
    | inl e ↦ ground (arith, contains-append d a b)
    | inr e ↦ ground (arith, contains-append d a b)
  ],
)

pub in_cons :
    (d e : Digest) (ds : List Digest)
    → (contains d (e ∷ ds) ≡ true) ↔ ((d ≡ e) ⊎ (contains d ds ≡ true))
unfolding contains
in_cons d e ds = (
  λ h. elim (Bool-cases (d == e)) [ inl q ↦ inl (==_sound d e q) | inr n ↦ inr (ground arith) ],
  λ h. elim h [ inl q ↦ ground (arith, ap (λ x. x == e) q, ==_refl e) | inr q ↦ ground arith ],
)

pub in_raws :
    (d : Digest) (ps : List OciDigest)
    → (contains d (raws ps) ≡ true) ↔ ((p : OciDigest) × In p ps × (d ≡ p.raw))
unfolding raws contains
in_raws d [] = (λ h. absurd (ground arith), λ h. elim h.1 [ ])
in_raws d (p ∷ ps) =
    let (found, back) = in_raws d ps in
    (
      λ h. elim ((in_cons d p.raw (raws ps)).0 h) [
        | inl q ↦ (p, here, q)
        | inr m ↦ let (o, i, q) = found m in (o, there i, q)
      ],
      λ h.
          let (o, i, q) = h in
          elim (In-cases p o ps i) [
            | inl same ↦ (in_cons d p.raw (raws ps)).1 (inl (q ∙ ap (λ x. x.raw) (sym same)))
            | inr j ↦ (in_cons d p.raw (raws ps)).1 (inr (back (o, j, q)))
          ],
    )

module _ ⦃sha : Sha256⦄ ⦃json : JsonLibrary⦄ (decoders : Decoders) (s : MemoryBlockStore) where
  -- A block needs its bytes and the content that it names.
  pub data BlockNeeds (b : BlockId) : Digest → Type 0 where
    envelope : BlockNeeds b b.raw
    content :
        (named : List Digest) (d : Digest)
        → (Memory.get_bytes s b.raw >>= decoders.content_digests) ≡ ok named
        → contains d named ≡ true
        → BlockNeeds b d

  -- A module needs its composition document, its index, and what its blocks need.
  pub data ModuleNeeds (r : ModuleRef) : Digest → Type 0 where
    composition : ModuleNeeds r r.composition.raw
    index : (d : OciDigest) → r.index_digest ≡ some d → ModuleNeeds r d.raw
    member :
        (c : Composition) (b : BlockId) (d : Digest)
        → (Memory.get_bytes s r.composition.raw >>= from_document) ≡ ok c
        → In b (Composition.block_ids c)
        → BlockNeeds b d
        → ModuleNeeds r d

  -- A snapshot needs its document, those of its parents, and what its modules need.
  pub data Needs (snapshot : Snapshot) : Digest → Type 0 where
    document : Needs snapshot snapshot.digest.raw
    parent : (p : OciDigest) → In p snapshot.parents → Needs snapshot p.raw
    module_of :
        (r : ModuleRef) (d : Digest) → In r snapshot.modules → ModuleNeeds r d → Needs snapshot d
