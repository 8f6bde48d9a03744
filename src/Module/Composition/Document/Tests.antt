-- ===== src/Module/Composition/Document/Tests.antt =====
-- The document of a composition of two blocks.
use pyboltzmann.Prelude.{◌≡◌, refl, true, List, [], ◌∷◌}
use pyboltzmann.Prelude.Bytes.{Bytes}
use pyboltzmann.Exceptions.{ok}
use pyboltzmann.Identity.{BlockId}
use pyboltzmann.Identity.Toy.{toy_digest}
use pyboltzmann.Identity.Serialization.Toy.{toy_json}
use pyboltzmann.Blocks.MemoryType.{MemoryType}
use pyboltzmann.Module.Composition.{Composition, make, block_ids}
use pyboltzmann.Module.Composition.Laws.{make-IsVersion}
use pyboltzmann.Module.Composition.Document.{document, from_document}
use pyboltzmann.Module.Composition.Document.RoundTrip.{AreDigests, from_document-document}

abbrev first : BlockId
first = record { raw = toy_digest (1 ∷ []) }

abbrev second : BlockId
second = record { raw = toy_digest (2 ∷ []) }

abbrev version : Composition
version = make MemoryType.semantic (second ∷ first ∷ [])

digests : AreDigests (block_ids version)
unfolding make pyboltzmann.Prelude.all pyboltzmann.Merkle.Tree.init
    pyboltzmann.Prelude.Bytes.bytes_lt toy_digest
digests = refl

from_document-document_example :
    (content : Bytes) × (document version ≡ ok content) × (from_document content ≡ ok version)
from_document-document_example =
    from_document-document version (make-IsVersion MemoryType.semantic (second ∷ first ∷ []))
      digests

abbrev written : Bytes
written = from_document-document_example.0
