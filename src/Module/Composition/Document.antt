-- ===== src/Module/Composition/Document.antt =====
-- module/composition.py: the document of a composition, and the composition of a document.
pub mod RoundTrip
mod Tests
use pyboltzmann.Prelude.{
  Bool, true, false, eqb, not, ◌&&◌, Option, none, some, List, [], ◌∷◌, if◌then◌else◌,
}
use pyboltzmann.Prelude.Order.{◌==◌}
use pyboltzmann.Prelude.Bytes.{Bytes, bytes_lt, bytes_order}
use pyboltzmann.Prelude.Texts.{Text, codes}
use pyboltzmann.Exceptions.{Result, ok, raise, module_error, ◌>>=◌}
use pyboltzmann.Identity.{BlockId}
use pyboltzmann.Identity.Json.{
  pos, Json, boolean, integer, string, array, object, Items, nil, item, Members, end, member,
  member_at,
}
use pyboltzmann.Identity.Digest.{str, parse}
use pyboltzmann.Identity.Serialization.Canonical.{JsonLibrary, parse_json_strict, canonicalize}
use pyboltzmann.Blocks.MemoryType.{MemoryType}
use pyboltzmann.Merkle.Tree
use pyboltzmann.Module.Composition.{Composition, make, block_ids}

-- `PROTOCOL_VERSION` as a JSON value, and `LAYOUT_NAME`
abbrev pub protocol_version : Json
protocol_version = integer (pos 1)

abbrev pub layout_name : Text
layout_name = codes "rfc6962-sorted/1"

-- `memory_type.value`
unfoldable pub value_of : MemoryType → Text
value_of MemoryType.canonical = codes "canonical"
value_of MemoryType.episodic = codes "episodic"
value_of MemoryType.semantic = codes "semantic"
value_of MemoryType.procedural = codes "procedural"
value_of MemoryType.provenance = codes "provenance"

-- `MemoryType(value)`
unfoldable pub memory_type_named : Text → Option MemoryType
memory_type_named t =
    if t == codes "canonical"
    then some MemoryType.canonical
    else if t == codes "episodic"
    then some MemoryType.episodic
    else if t == codes "semantic"
    then some MemoryType.semantic
    else if t == codes "procedural"
    then some MemoryType.procedural
    else if t == codes "provenance"
    then some MemoryType.provenance
    else none

-- `[str(block_id) for block_id in self.block_ids]`
unfoldable pub id_items : List BlockId → Items
unfolding str
id_items [] = nil
id_items (b ∷ bs) = item (string (str b.raw)) (id_items bs)

unfoldable pub document_value : Composition → Json
unfolding value_of id_items
document_value c = object (
    member (codes "boltzmann") protocol_version (
      member (codes "memory_type") (string (value_of c.memory_type)) (
        member (codes "layout") (string layout_name)
          (member (codes "block_ids") (array (id_items (block_ids c))) end))))

-- `document.get("boltzmann") == PROTOCOL_VERSION`, where Python's `True` is 1
unfoldable pub is_protocol_version : Option Json → Bool
is_protocol_version (some (integer (pos n))) = eqb n 1
is_protocol_version (some (boolean b)) = b
is_protocol_version _ = false

-- `MemoryType(document["memory_type"])`
unfoldable pub memory_type_in : Option Json → Result MemoryType
unfolding memory_type_named
memory_type_in (some (string t)) = elim (memory_type_named t) [
  | none ↦ raise module_error
  | some m ↦ ok m
]
memory_type_in _ = raise module_error

-- `[BlockId.parse(value) for value in values]`
unfoldable pub parse_ids : Items → Result (List BlockId)
unfolding parse
parse_ids nil = ok []
parse_ids (item (string t) xs) = elim (parse t) [
  | raise _ ↦ raise module_error
  | ok raw ↦ do rest ← parse_ids xs; ok (record { raw = raw } ∷ rest)
]
parse_ids (item _ xs) = raise module_error

-- `document.get("block_ids", [])`
unfoldable pub ids_in : Option Json → Result (List BlockId)
unfolding parse_ids
ids_in none = ok []
ids_in (some (array xs)) = parse_ids xs
ids_in _ = raise module_error

-- `not any(left.raw >= right.raw for left, right in pairwise(block_ids))`
unfoldable pub is_strictly_ascending : List BlockId → Bool
is_strictly_ascending [] = true
is_strictly_ascending (a ∷ []) = true
is_strictly_ascending (a ∷ b ∷ bs) = bytes_lt a.raw b.raw && is_strictly_ascending (b ∷ bs)

-- `layout == composition.layout`
unfoldable pub is_layout : Option Json → Bool
is_layout (some (string t)) = t == layout_name
is_layout _ = false

-- The composition of the members of a decoded object, before its spelling is compared.
unfoldable pub of_members : Members → Result Composition
unfolding is_protocol_version memory_type_in ids_in is_strictly_ascending is_layout make
of_members ms =
    if not (is_protocol_version (member_at (codes "boltzmann") ms)) then raise module_error else do
      memory_type ← memory_type_in (member_at (codes "memory_type") ms)
      ids ← ids_in (member_at (codes "block_ids") ms)
      if not (is_strictly_ascending ids)
          then raise module_error
          else if not (is_layout (member_at (codes "layout") ms))
          then raise module_error
          else ok (make memory_type ids)

unfoldable pub of_decoded : Json → Result Composition
unfolding of_members
of_decoded (object ms) = of_members ms
of_decoded _ = raise module_error

module _ ⦃json : JsonLibrary⦄ where
  unfoldable pub document : Composition → Result Bytes
  unfolding document_value canonicalize
  document c = canonicalize (document_value c)

  unfoldable pub from_document : Bytes → Result Composition
  from_document content = elim (parse_json_strict content) [
    | raise _ ↦ raise module_error
    | ok decoded ↦ do
      c ← of_decoded decoded
      again ← document c
      if not (again == content) then raise module_error else ok c
  ]
