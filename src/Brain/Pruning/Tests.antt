-- ===== src/Brain/Pruning/Tests.antt =====
-- A brain with one retained snapshot, and a store with one entry that nothing names.
use pyboltzmann.Prelude.{
  ◌≡◌, ap, sym, ◌∙◌, Bool, true, false, refl, Option, none, some, List, [], ◌∷◌,
}
use pyboltzmann.Prelude.Bytes.{Bytes}
use pyboltzmann.Exceptions.{ok, ok_eq}
use pyboltzmann.Identity.Toy.{toy, toy_digest}
use pyboltzmann.Identity.Hashing.{sha256}
use pyboltzmann.Identity.Serialization.Toy.{toy_json}
use pyboltzmann.Store.Memory
use pyboltzmann.Store.Memory.{MemoryBlockStore}
use pyboltzmann.Retention.Reachability
use pyboltzmann.Retention.Reachability.{Snapshot}
use pyboltzmann.Retention.Reachability.Sweep.{delete_all}
use pyboltzmann.Retention.Reachability.Example.{decoders, root, store_with, snapshot_of}
use pyboltzmann.Brain.Branching
use pyboltzmann.Brain.Branching.{Brain}
use pyboltzmann.Brain.Pruning
use pyboltzmann.Brain.Pruning.{PruneReport, Named}
use pyboltzmann.Brain.Pruning.Roots.{IsOfDocument}
use pyboltzmann.Brain.Pruning.Safety.{Pruned, prune-Pruned}

abbrev brain : Brain
brain = record {
  state = some (record { snapshot = root; retained = root ∷ []; origin = none });
  refs = none;
  reconciling = false;
  documents = [];
  retained_roots = 10;
}

abbrev others : Named
others = record { artifacts = []; signatures = []; empty_config = toy_digest [] }

abbrev report : PruneReport
report = record {
  retained_roots = 1;
  reachable = 5;
  reclaimed = toy_digest (8 ∷ []) ∷ [];
  dry_run = false;
}

abbrev swept : MemoryBlockStore
swept = Memory.delete (store_with (1 ∷ [])) (toy_digest (8 ∷ []))

pruned : Pruning.prune decoders brain (store_with (1 ∷ [])) others false ≡ ok (swept, report)
unfolding Pruning.prune Branching.retained_before pyboltzmann.Prelude.Sets.contains
    Memory.is_resolvable pyboltzmann.Prelude.Dict.has_key pyboltzmann.Prelude.Dict.get
    pyboltzmann.Prelude.Order.◌==◌ pyboltzmann.Prelude.Bytes.bytes_lt toy_digest
    pyboltzmann.Module.Composition.Document.document pyboltzmann.Module.Composition.make
    pyboltzmann.Merkle.Tree.init pyboltzmann.Identity.Serialization.Toy.toy_dumps Memory.get_bytes
    sha256 Branching.branch_heads Reachability.mark Reachability.tolerated
    pyboltzmann.Module.Composition.Document.from_document
    pyboltzmann.Identity.Serialization.Canonical.parse_json_strict
    pyboltzmann.Identity.Serialization.Toy.toy_loads
    pyboltzmann.Identity.Serialization.Toy.read_text pyboltzmann.Prelude.drop
    pyboltzmann.Prelude.take pyboltzmann.Module.Composition.Document.of_decoded
    pyboltzmann.Identity.Json.member_at pyboltzmann.Prelude.Texts.starts_with
    pyboltzmann.Prelude.all Memory.delete delete_all Reachability.raws Reachability.sweep
    pyboltzmann.Prelude.filter Memory.iter_digests pyboltzmann.Prelude.Dict.keys
    Reachability.index_of Reachability.reachable_from_tags Reachability.reachable_signatures
    Reachability.with_empty_config Reachability.records_over
pruned = refl

of_document : IsOfDocument decoders
unfolding sha256 toy_digest
of_document document snapshot e =
    ap (λ x. x.digest.raw) (sym (ok_eq (snapshot_of document) snapshot e))

prune-Pruned_example : Pruned decoders brain (store_with (1 ∷ [])) swept report
prune-Pruned_example =
    prune-Pruned decoders of_document brain (store_with (1 ∷ [])) swept others report pruned
