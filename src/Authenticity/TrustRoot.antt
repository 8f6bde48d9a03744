-- ===== src/Authenticity/TrustRoot.antt =====
-- authenticity/trust_root.py, with the scopes of authenticity/scopes.py: the keys that a brain authorizes.
-- The validators of the two models are tests; a key is its blob.
pub mod Keys
mod Tests
use pyboltzmann.Prelude.{
  ℕ, ◌+◌, Bool, true, false, not, ◌&&◌, ◌||◌, Option, none, some, List, [], ◌∷◌, filter, length,
  ltb, leb, eqb, all, if◌then◌else◌,
}
use pyboltzmann.Prelude.Order.{◌==◌}
use pyboltzmann.Prelude.Bytes.{Bytes, bytes_order}
use pyboltzmann.Prelude.Texts.{Text, codes}
use pyboltzmann.Identity.{OciDigest}
use pyboltzmann.Identity.Principal.{is_actor_id}

pub data Scope : Type 0 where
  ingest commit drop_canonical redact govern propose : Scope

-- `scope == other`
unfoldable pub is_scope : Scope → Scope → Bool
is_scope ingest ingest = true
is_scope commit commit = true
is_scope drop_canonical drop_canonical = true
is_scope redact redact = true
is_scope govern govern = true
is_scope propose propose = true
is_scope _ _ = false

-- `scope in scopes`
unfoldable pub lists : Scope → List Scope → Bool
lists scope [] = false
lists scope (other ∷ scopes) = is_scope scope other || lists scope scopes

unfoldable pub repeats : List Scope → Bool
repeats [] = false
repeats (scope ∷ scopes) = lists scope scopes || repeats scopes

pub record TrustedKey : Type 0 where
  pub key : Bytes
  pub subject : Option Text
  pub scopes : List Scope
  pub since : ℕ
  pub retired_from : Option ℕ
  pub compromised_from : Option OciDigest

pub record TrustRoot : Type 0 where
  pub revision : ℕ
  pub namespace : Text
  pub govern_quorum : ℕ
  pub keys : List TrustedKey

unfoldable pub snapshot_namespace : Text
snapshot_namespace = codes "boltzmann.snapshot.v1"

-- `_reject_incoherent_positions`
unfoldable pub is_coherent : TrustedKey → Bool
is_coherent entry =
    elim entry.subject [ none ↦ true | some subject ↦ is_actor_id subject ]
    && (not (repeats entry.scopes)
        && elim entry.retired_from [ none ↦ true | some retired ↦ ltb entry.since retired ])

unfoldable pub holds : TrustedKey → Scope → Bool
holds entry scope = lists scope entry.scopes

unfoldable pub has_key : Bytes → List TrustedKey → Bool
has_key key [] = false
has_key key (entry ∷ entries) = (entry.key == key) || has_key key entries

-- No blob is listed twice.
unfoldable pub are_distinct : List TrustedKey → Bool
are_distinct [] = true
are_distinct (entry ∷ entries) = not (has_key entry.key entries) && are_distinct entries

unfoldable pub any_govern : List TrustedKey → Bool
any_govern [] = false
any_govern (entry ∷ entries) = holds entry govern || any_govern entries

-- The positions of an entry are not past the revision.
unfoldable pub is_known_at : ℕ → TrustedKey → Bool
is_known_at revision entry =
    leb entry.since revision
    && elim entry.retired_from [ none ↦ true | some retired ↦ leb retired revision ]

-- `_reject_a_root_no_verifier_could_accept`
unfoldable pub is_acceptable : TrustRoot → Bool
is_acceptable root =
    (root.namespace == snapshot_namespace)
    && (are_distinct root.keys
        && (any_govern root.keys && all (is_known_at root.revision) root.keys))

unfoldable pub entry_in : List TrustedKey → Bytes → Option TrustedKey
entry_in [] key = none
entry_in (entry ∷ entries) key = if entry.key == key then some entry else entry_in entries key

unfoldable pub entry_for : TrustRoot → Bytes → Option TrustedKey
entry_for root key = entry_in root.keys key

unfoldable pub is_retired : TrustRoot → TrustedKey → Bool
is_retired root entry = elim entry.retired_from [
  | none ↦ false
  | some retired ↦ leb retired root.revision
]

unfoldable pub holders : TrustRoot → Scope → List TrustedKey
holders root scope = filter (λ entry. holds entry scope && not (is_retired root entry)) root.keys

unfoldable pub govern_holders : TrustRoot → List TrustedKey
govern_holders root = holders root govern

unfoldable pub has_governance_margin : TrustRoot → Bool
has_governance_margin root = ltb root.govern_quorum (length (govern_holders root))

pub data SinceVerdict : Type 0 where
  confirmed refuted unobservable : SinceVerdict

-- `any(root.entry_for(entry.key) is None for root in relevant)`, and the test of an admitting revision
unfoldable pub any_unlisted : List TrustRoot → TrustedKey → Bool
any_unlisted [] entry = false
any_unlisted (root ∷ roots) entry =
    (leb entry.since root.revision
      && elim (entry_for root entry.key) [ none ↦ true | some _ ↦ false ])
    || any_unlisted roots entry

unfoldable pub any_admitting : List TrustRoot → TrustedKey → Bool
any_admitting [] entry = false
any_admitting (root ∷ roots) entry = eqb root.revision entry.since || any_admitting roots entry

unfoldable pub confirm_since : List TrustRoot → TrustedKey → SinceVerdict
confirm_since observed entry =
    if any_unlisted observed entry
    then refuted
    else if any_admitting observed entry
    then confirmed
    else unobservable
