-- ===== src/Module/Composition/Document/RoundTrip.antt =====
-- module/composition.py: documents and compositions correspond one to one.
use pyboltzmann.Prelude.{
  ◌≡◌, refl, ap, ◌∙◌, true, Bool-cases, inl, inr, List, [], ◌∷◌, ltb, arith, all, some,
}
use pyboltzmann.Prelude.Order.{◌==◌, ==_refl, ==_sound}
use pyboltzmann.Prelude.Bytes.{Bytes, bytes_lt, bytes_order}
use pyboltzmann.Prelude.Sorting.{IsAscending}
use pyboltzmann.Prelude.Texts.{codes}
use pyboltzmann.Exceptions.{ok, Result-cases}
use pyboltzmann.Identity.{BlockId, block_order}
use pyboltzmann.Identity.Json.{Json, string, array, object, item, Members, end, member, member_at}
use pyboltzmann.Identity.Digest.{str, hex}
use pyboltzmann.Identity.Digest.Laws.{parse-str, is_digest}
use pyboltzmann.Identity.Serialization.Canonical.{
  JsonLibrary, parse_json_strict, canonicalize, canonical, canonical_items, is_plain, are_plain,
  is_scalar,
}
use pyboltzmann.Identity.Serialization.RoundTrip.{parse_json_strict-canonicalize}
use pyboltzmann.Blocks.MemoryType.{MemoryType}
use pyboltzmann.Module.Composition.{Composition, block_ids}
use pyboltzmann.Module.Composition.Laws.{IsVersion, make_self}
use pyboltzmann.Module.Composition.Document

-- Every member is a digest of 32 bytes.
abbrev pub AreDigests : List BlockId → Type 0
AreDigests bs = all (λ b. is_digest b.raw) bs ≡ true

hex_scalar : (raw : Bytes) → all (λ b. ltb b 256) raw ≡ true → all is_scalar (hex raw) ≡ true
unfolding hex is_scalar all
hex_scalar [] h = refl
hex_scalar (b ∷ raw) h = ground (arith, hex_scalar raw (ground arith))

digest_bytes : (raw : Bytes) → is_digest raw ≡ true → all (λ b. ltb b 256) raw ≡ true
digest_bytes raw h = ground arith

str_scalar : (raw : Bytes) → is_digest raw ≡ true → all is_scalar (str raw) ≡ true
unfolding str is_scalar all
str_scalar raw h = hex_scalar raw (digest_bytes raw h)

AreDigests-cons :
    (b : BlockId) (bs : List BlockId)
    → AreDigests (b ∷ bs)
    → (is_digest b.raw ≡ true) × AreDigests bs
unfolding all
AreDigests-cons b bs h = (ground arith, ground arith)

id_items_plain : (bs : List BlockId) → AreDigests bs → are_plain (Document.id_items bs) ≡ true
unfolding Document.id_items is_plain
id_items_plain [] h = refl
id_items_plain (b ∷ bs) h =
    let (p, q) = AreDigests-cons b bs h in ground (arith, str_scalar b.raw p, id_items_plain bs q)

canonical-id_items :
    (bs : List BlockId) → canonical_items (Document.id_items bs) ≡ Document.id_items bs
unfolding Document.id_items canonical
canonical-id_items [] = refl
canonical-id_items (b ∷ bs) = ap (item (string (str b.raw))) (canonical-id_items bs)

parse_ids-id_items :
    (bs : List BlockId) → AreDigests bs → Document.parse_ids (Document.id_items bs) ≡ ok bs
unfolding Document.parse_ids Document.id_items
parse_ids-id_items [] h = refl
parse_ids-id_items (b ∷ bs) h =
    let (p, q) = AreDigests-cons b bs h in
    rw (parse-str b.raw p, Document.parse_ids) (rw (parse_ids-id_items bs q) refl)

memory_type_in-value_of :
    (m : MemoryType) → Document.memory_type_in (some (string (Document.value_of m))) ≡ ok m
unfolding Document.memory_type_in Document.value_of ◌==◌ bytes_lt
memory_type_in-value_of MemoryType.canonical = refl
memory_type_in-value_of MemoryType.episodic = refl
memory_type_in-value_of MemoryType.semantic = refl
memory_type_in-value_of MemoryType.procedural = refl
memory_type_in-value_of MemoryType.provenance = refl

ascending_lem : (bs : List BlockId) → IsAscending bs → Document.is_strictly_ascending bs ≡ true
unfolding Document.is_strictly_ascending
ascending_lem [] a = refl
ascending_lem (b ∷ []) a = refl
ascending_lem (b ∷ d ∷ bs) a = ground (arith, a.0.0, ascending_lem (d ∷ bs) a.1)

-- The members of a document in canonical order.
abbrev sorted_members : Composition → Members
sorted_members c = member (codes "block_ids") (array (Document.id_items (block_ids c))) (
    member (codes "boltzmann") Document.protocol_version (
      member (codes "layout") (string Document.layout_name)
        (member (codes "memory_type") (string (Document.value_of c.memory_type)) end)))

canonical-document_value :
    (c : Composition) → canonical (Document.document_value c) ≡ object (sorted_members c)
unfolding Document.document_value canonical bytes_lt
canonical-document_value c = rw (canonical-id_items (block_ids c)) refl

value_of_scalar : (m : MemoryType) → all is_scalar (Document.value_of m) ≡ true
unfolding Document.value_of all is_scalar
value_of_scalar MemoryType.canonical = refl
value_of_scalar MemoryType.episodic = refl
value_of_scalar MemoryType.semantic = refl
value_of_scalar MemoryType.procedural = refl
value_of_scalar MemoryType.provenance = refl

document_value_plain :
    (c : Composition) → AreDigests (block_ids c) → is_plain (Document.document_value c) ≡ true
unfolding Document.document_value is_plain ◌==◌ bytes_lt all
document_value_plain c h =
    rw (value_of_scalar c.memory_type) (rw (id_items_plain (block_ids c) h) refl)

of_members_lem :
    (c : Composition)
    → IsVersion c
    → AreDigests (block_ids c)
    → Document.of_decoded (object (sorted_members c)) ≡ ok c
unfolding Document.of_decoded Document.of_members member_at ◌==◌ bytes_lt
of_members_lem c v h = rw (memory_type_in-value_of c.memory_type) (
    rw (parse_ids-id_items (block_ids c) h)
      (rw (ascending_lem (block_ids c) v.ascending) (ap ok (make_self c v))))

module _ ⦃json : JsonLibrary⦄ where
  document_lem : (c : Composition) → Document.document c ≡ canonicalize (Document.document_value c)
  unfolding Document.document
  document_lem c = refl

  from_document_steps :
      (content : Bytes) (decoded : Json) (c : Composition)
      → parse_json_strict content ≡ ok decoded
      → Document.of_decoded decoded ≡ ok c
      → Document.document c ≡ ok content
      → Document.from_document content ≡ ok c
  unfolding Document.from_document
  from_document_steps content decoded c p q r = ground (arith, ==_refl content)

  -- The document of a version, whose members are digests, is written and read back as that version.
  pub from_document-document :
      (c : Composition)
      → IsVersion c
      → AreDigests (block_ids c)
      → (content : Bytes) × (Document.document c ≡ ok content)
        × (Document.from_document content ≡ ok c)
  from_document-document c v h =
      let (content, written, parsed) =
        parse_json_strict-canonicalize (Document.document_value c) (document_value_plain c h) in
      let decoded : Document.of_decoded (canonical (Document.document_value c)) ≡ ok c =
        ap Document.of_decoded (canonical-document_value c) ∙ of_members_lem c v h in
      (
        content,
        document_lem c ∙ written,
        from_document_steps content (canonical (Document.document_value c)) c parsed decoded
            (document_lem c ∙ written),
      )

  from_document_ok :
      (content : Bytes) (c : Composition)
      → Document.from_document content ≡ ok c
      → Document.document c ≡ ok content
  unfolding Document.from_document
  from_document_ok content c h = elim (Result-cases (parse_json_strict content)) [
    | inr (e, p) ↦ absurd (ground arith)
    | inl (decoded, p) ↦ elim (Result-cases (Document.of_decoded decoded)) [
      | inr (e, q) ↦ absurd (ground arith)
      | inl (d, q) ↦ elim (Result-cases (Document.document d)) [
        | inr (e, r) ↦ absurd (ground arith)
        | inl (again, r) ↦ elim (Bool-cases (again == content)) [
          | inl e ↦ let same = ==_sound again content e in ground arith
          | inr n ↦ absurd (ground arith)
        ]
      ]
    ]
  ]
