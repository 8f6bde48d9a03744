-- ===== src/Module/Ledger/Makers.antt =====
-- `Ledger.made_by` of module/ledger.py: what a producer made, across both shapes of record.
use Prim.Native.String.{String}
use text.Mathlib.Text.{◌==◌ as str_eq}
use pyboltzmann.Prelude.{
  Bool, true, false, not, ◌&&◌, ◌||◌, Option, none, some, List, [], ◌∷◌, ◌++◌, ◌≡◌, arith,
  if◌then◌else◌,
}
use pyboltzmann.Prelude.Sets.{contains, contains-append}
use pyboltzmann.Prelude.Dict.{Dict}
use pyboltzmann.Identity.{BlockId, block_order}
use pyboltzmann.Module.Ledger.{ActorKind, human, ProducerKind, Collaborator, Producer, Ledger}

unfoldable pub is_human : ActorKind → Bool
is_human human = true
is_human _ = false

unfoldable pub answers_to : Collaborator → Producer → Bool
answers_to party producer = answer producer.kind
  where
    answer : ProducerKind → Bool
    answer ProducerKind.model = elim party.model [ none ↦ false | some m ↦ str_eq m producer.id ]
    answer ProducerKind.actor = is_human party.kind && str_eq party.id producer.id
    answer _ = not (is_human party.kind) && str_eq party.id producer.id

unfoldable pub is_same_kind : ProducerKind → ProducerKind → Bool
is_same_kind ProducerKind.model ProducerKind.model = true
is_same_kind ProducerKind.pipeline ProducerKind.pipeline = true
is_same_kind ProducerKind.batch ProducerKind.batch = true
is_same_kind ProducerKind.actor ProducerKind.actor = true
is_same_kind _ _ = false

-- `producer.version is None or recorded.version == producer.version`
unfoldable pub has_version : Option String → Option String → Bool
has_version none recorded = true
has_version (some v) none = false
has_version (some v) (some w) = str_eq w v

unfoldable pub is_made_by : Producer → Producer → Bool
is_made_by producer recorded =
    is_same_kind recorded.kind producer.kind
    && (str_eq recorded.id producer.id && has_version producer.version recorded.version)

unfoldable pub any_answers : Producer → List Collaborator → Bool
any_answers producer [] = false
any_answers producer (p ∷ ps) = answers_to p producer || any_answers producer ps

-- The keys whose value passes a test.
unfoldable pub keys_where {ℓ} : {V : Type ℓ} → (V → Bool) → Dict BlockId V → List BlockId
keys_where test [] = []
keys_where test ((k, v) ∷ d) = let rest = keys_where test d in if test v then k ∷ rest else rest

unfoldable pub made_by : Ledger → Producer → List BlockId
made_by l producer =
    keys_where (is_made_by producer) l.producers ++ keys_where (any_answers producer) l.assistance

keys_where_mono {ℓ} :
    {V : Type ℓ} (p q : V → Bool) (d : Dict BlockId V) (b : BlockId)
    → ((v : V) → p v ≡ true → q v ≡ true)
    → contains b (keys_where p d) ≡ true
    → contains b (keys_where q d) ≡ true
unfolding keys_where contains
keys_where_mono p q [] b h k = k
keys_where_mono p q ((j, v) ∷ d) b h k = ground (arith, h v, keys_where_mono p q d b h)

has_version_any :
    (p v : Producer) → is_made_by p v ≡ true → is_made_by (record p { version = none }) v ≡ true
unfolding is_made_by has_version
has_version_any p v h = ground arith

any_answers_any :
    (p : Producer) (ps : List Collaborator)
    → any_answers p ps ≡ true
    → any_answers (record p { version = none }) ps ≡ true
unfolding any_answers answers_to
any_answers_any p [] h = h
any_answers_any p (c ∷ ps) h = ground (arith, any_answers_any p ps)

-- A version only narrows the query: whatever a producer made at a version, a query that names no
-- version finds too.
pub made_by_narrows :
    (l : Ledger) (p : Producer) (b : BlockId)
    → contains b (made_by l p) ≡ true
    → contains b (made_by l (record p { version = none })) ≡ true
unfolding made_by
made_by_narrows l p b h =
    let recorded =
      keys_where_mono (is_made_by p) (is_made_by (record p { version = none })) l.producers b
        (has_version_any p) in
    let assisted =
      keys_where_mono (any_answers p) (any_answers (record p { version = none })) l.assistance b
        (any_answers_any p) in
    ground (
      arith,
      recorded,
      assisted,
      contains-append b (keys_where (is_made_by p) l.producers)
          (keys_where (any_answers p) l.assistance),
      contains-append b (keys_where (is_made_by (record p { version = none })) l.producers)
          (keys_where (any_answers (record p { version = none })) l.assistance),
    )
