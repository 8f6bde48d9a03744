-- ===== src/Retention/Reachability/Members.antt =====
-- What the walk of retention/reachability.py keeps of one module.
use mathlib.Core.Path.{subst}
use pyboltzmann.Prelude.{
  ◌≡◌, ◌↔◌, ◌⊎◌, refl, ap, sym, ◌∙◌, inl, inr, true, Option, none, some, List, [], ◌∷◌, ◌++◌, arith,
  In, here, there, In-cases,
}
use pyboltzmann.Prelude.Sets.{contains}
use pyboltzmann.Prelude.Bytes.{bytes_order}
use pyboltzmann.Exceptions.{Result, ok, ◌>>=◌, bind_ok, ok_eq}
use pyboltzmann.Identity.{Digest, OciDigest, BlockId}
use pyboltzmann.Identity.Hashing.{Sha256}
use pyboltzmann.Identity.Serialization.Canonical.{JsonLibrary}
use pyboltzmann.Module.Composition
use pyboltzmann.Module.Composition.{Composition}
use pyboltzmann.Module.Composition.Document.{from_document}
use pyboltzmann.Store.Memory
use pyboltzmann.Store.Memory.{MemoryBlockStore}
use pyboltzmann.Retention.Reachability
use pyboltzmann.Retention.Reachability.{
  Snapshot, ModuleRef, Decoders, raws, index_of, tolerated, named_in,
}
use pyboltzmann.Retention.Reachability.Needs.{
  IsGone, tolerated_ok, in_append, in_cons, BlockNeeds, envelope, content, ModuleNeeds, composition,
  index, member,
}

pub Gone_absurd {ℓ} : {A : Type ℓ} (r : Result A) (a : A) → IsGone r → r ≡ ok a → ⊥
Gone_absurd r a (inl g) h = ground arith
Gone_absurd r a (inr g) h = ground arith

some_eq {ℓ} : {A : Type ℓ} (a b : A) → some a ≡ some b → a ≡ b
some_eq a b e = ground arith

in_index :
    (d : Digest) (o : Option OciDigest)
    → contains d (index_of o) ≡ true
    → (x : OciDigest) × (o ≡ some x) × (d ≡ x.raw)
unfolding index_of contains
in_index d none h = absurd (ground arith)
in_index d (some x) h = elim ((in_cons d x.raw []).0 h) [
  | inl q ↦ (x, refl, q)
  | inr m ↦ absurd (ground arith)
]

index_in : (o : Option OciDigest) (x : OciDigest) → o ≡ some x → contains x.raw (index_of o) ≡ true
unfolding index_of
index_in o x h = ap (λ y. contains x.raw (index_of y)) h ∙ (in_cons x.raw x.raw []).1 (inl refl)

pub named_ok :
    (r : Result (List Digest)) (named : List Digest)
    → (tolerated r >>= λ f. ok (named_in f)) ≡ ok named
    → (r ≡ ok named) ⊎ (IsGone r × (named ≡ []))
named_ok r named h =
    let (found, read, rest) = bind_ok (tolerated r) (λ f. ok (named_in f)) named h in
    elim (tolerated_ok r found read) [
      | inl (ds, p, q) ↦ inl (p ∙ ap (λ f. ok (named_in f)) (sym q) ∙ rest)
      | inr (g, q) ↦
          let empty : ok (named_in none) ≡ ok named = ap (λ f. ok (named_in f)) (sym q) ∙ rest in
          inr (g, ground arith)
    ]

module _ ⦃sha : Sha256⦄ ⦃json : JsonLibrary⦄ (decoders : Decoders) (s : MemoryBlockStore) where
  BlockNeeds-named :
      (b : BlockId) (named : List Digest) (d : Digest)
      → Reachability.bytes_named_by decoders s b ≡ ok named
      → BlockNeeds decoders s b d
      → contains d (b.raw ∷ named) ≡ true
  unfolding Reachability.bytes_named_by
  BlockNeeds-named b named d h envelope = (in_cons b.raw b.raw named).1 (inl refl)
  BlockNeeds-named b named d h (content ds e p m) =
      elim (named_ok (Memory.get_bytes s b.raw >>= decoders.content_digests) named h) [
        | inl q ↦
            let same : ok ds ≡ ok named = sym p ∙ q in
            let names : ds ≡ named = ground arith in
            (in_cons d b.raw named).1 (inr (ap (contains d) (sym names) ∙ m))
        | inr (g, _) ↦
            absurd (Gone_absurd (Memory.get_bytes s b.raw >>= decoders.content_digests) ds g p)
      ]

  bytes_named_by_lem :
      (b : BlockId) (named : List Digest) (d : Digest)
      → Reachability.bytes_named_by decoders s b ≡ ok named
      → (contains d (b.raw ∷ named) ≡ true) ↔ BlockNeeds decoders s b d
  unfolding Reachability.bytes_named_by contains
  bytes_named_by_lem b named d h = (
    λ m. elim ((in_cons d b.raw named).0 m) [
      | inl q ↦ subst (BlockNeeds decoders s b) (sym q) envelope
      | inr k ↦ elim (named_ok (Memory.get_bytes s b.raw >>= decoders.content_digests) named h) [
        | inl p ↦ content named d p k
        | inr (g, q) ↦ absurd (ground arith)
      ]
    ],
    BlockNeeds-named b named d h,
  )

  blocks_need_lem :
      (bs : List BlockId) (keep : List Digest) (d : Digest)
      → Reachability.blocks_need decoders s bs ≡ ok keep
      → (contains d keep ≡ true) ↔ ((b : BlockId) × In b bs × BlockNeeds decoders s b d)
  unfolding Reachability.blocks_need contains
  blocks_need_lem [] keep d h = (λ m. absurd (ground arith), λ m. elim m.1 [ ])
  blocks_need_lem (b ∷ bs) keep d h =
      let (named, read, h') = bind_ok (Reachability.bytes_named_by decoders s b) _ keep h in
      let (rest, walk, all) = bind_ok (Reachability.blocks_need decoders s bs) _ keep h' in
      let (found, back) = bytes_named_by_lem b named d read in
      let (below, above) = blocks_need_lem bs rest d walk in
      let (split, join) = in_append d (b.raw ∷ named) rest in
      let same : b.raw ∷ named ++ rest ≡ keep = ground arith in
      (
        λ m. elim (split (ap (contains d) same ∙ m)) [
          | inl k ↦ (b, here, found k)
          | inr k ↦ let (o, i, n) = below k in (o, there i, n)
        ],
        λ m.
            let (o, i, n) = m in
            ap (contains d) (sym same)
            ∙ join (elim (In-cases b o bs i) [
              | inl e ↦ inl (back (subst (λ x. BlockNeeds decoders s x d) (sym e) n))
              | inr j ↦ inr (above (o, j, n))
            ]),
      )

  -- What the composition of a module adds to what the walk keeps.
  members_need_lem :
      (r : ModuleRef) (found : Option Composition) (members : List Digest) (d : Digest)
      → Reachability.read_composition decoders s r.composition ≡ ok found
      → Reachability.members_need decoders s found ≡ ok members
      → (contains d members ≡ true) ↔ (
          (c : Composition) × (b : BlockId) × ((Memory.get_bytes s r.composition.raw
              >>= from_document)
            ≡ ok c)
          × In b (Composition.block_ids c)
          × BlockNeeds decoders s b d)
  unfolding Reachability.read_composition Reachability.members_need contains
  members_need_lem r none members d read walk = (
    λ m. absurd (ground arith),
    λ n.
        let document = Memory.get_bytes s r.composition.raw >>= from_document in
        elim (tolerated_ok document none read) [
          | inl (c, p, q) ↦ absurd (ground arith)
          | inr (g, _) ↦ absurd (Gone_absurd document n.0 g n.2)
        ],
  )
  members_need_lem r (some c) members d read walk =
      let document = Memory.get_bytes s r.composition.raw >>= from_document in
      let is_c : document ≡ ok c = elim (tolerated_ok document (some c) read) [
        | inl (a, p, q) ↦ p ∙ ap (λ x. ok x) (some_eq a c (sym q))
        | inr (g, q) ↦ absurd (ground arith)
      ] in
      let (below, above) = blocks_need_lem (Composition.block_ids c) members d walk in
      (
        λ m. let (b, i, n) = below m in (c, b, is_c, i, n),
        λ m.
            let (a, b, p, i, n) = m in
            let same : a ≡ c = ok_eq a c (sym p ∙ is_c) in
            above (b, subst (λ x. In b (Composition.block_ids x)) same i, n),
      )

  ModuleNeeds-kept :
      (r : ModuleRef) (found : Option Composition) (members : List Digest) (d : Digest)
      → Reachability.read_composition decoders s r.composition ≡ ok found
      → Reachability.members_need decoders s found ≡ ok members
      → ModuleNeeds decoders s r d
      → contains d (r.composition.raw ∷ index_of r.index_digest ++ members) ≡ true
  ModuleNeeds-kept r found members d read walk composition =
      (in_cons d d (index_of r.index_digest ++ members)).1 (inl refl)
  ModuleNeeds-kept r found members _ read walk (index d e) =
      (in_cons d.raw r.composition.raw (index_of r.index_digest ++ members)).1 (
        inr (
          (in_append d.raw (index_of r.index_digest) members).1
            (inl (index_in r.index_digest d e))))
  ModuleNeeds-kept r found members d read walk (member c b e p i n) =
      (in_cons d r.composition.raw (index_of r.index_digest ++ members)).1 (
        inr (
          (in_append d (index_of r.index_digest) members).1
            (inr ((members_need_lem r found members d read walk).1 (c, b, p, i, n)))))

  pub module_need_lem :
      (r : ModuleRef) (found : Option Composition) (members : List Digest) (d : Digest)
      → Reachability.read_composition decoders s r.composition ≡ ok found
      → Reachability.members_need decoders s found ≡ ok members
      → (contains d (r.composition.raw ∷ index_of r.index_digest ++ members) ≡ true)
        ↔ ModuleNeeds decoders s r d
  module_need_lem r found members d read walk = (
    λ m. elim ((in_cons d r.composition.raw (index_of r.index_digest ++ members)).0 m) [
      | inl q ↦ subst (ModuleNeeds decoders s r) (sym q) composition
      | inr k ↦ elim ((in_append d (index_of r.index_digest) members).0 k) [
        | inl j ↦
            let (x, e, q) = in_index d r.index_digest j in
            subst (ModuleNeeds decoders s r) (sym q) (index x e)
        | inr j ↦
            let (c, b, p, i, n) = (members_need_lem r found members d read walk).0 j in
            member c b d p i n
      ]
    ],
    ModuleNeeds-kept r found members d read walk,
  )
