-- ===== src/Authenticity/TrustRoot/Tests.antt =====
-- A trust root of two keys that may govern, one of them retired, and a key that may not.
use pyboltzmann.Prelude.{
  ℕ, ◌≡◌, ◌↔◌, ◌≤◌, refl, true, none, some, List, [], ◌∷◌, filter, length, In, here, there,
}
use pyboltzmann.Prelude.Bytes.{Bytes}
use pyboltzmann.Prelude.Texts.{codes}
use pyboltzmann.Authenticity.TrustRoot
use pyboltzmann.Authenticity.TrustRoot.{
  TrustedKey, TrustRoot, is_acceptable, snapshot_namespace, govern, commit, govern_holders,
  confirm_since, refuted, unobservable, confirmed, SinceVerdict,
}
use pyboltzmann.Authenticity.TrustRoot.Keys.{without, entry_for-listed, has_governance_margin-loss}

abbrev owner : TrustedKey
owner = record {
  key = 1 ∷ [];
  subject = none;
  scopes = commit ∷ govern ∷ [];
  since = 1;
  retired_from = none;
  compromised_from = none;
}

abbrev former : TrustedKey
former = record {
  key = 2 ∷ [];
  subject = none;
  scopes = govern ∷ [];
  since = 1;
  retired_from = some 2;
  compromised_from = none;
}

abbrev writer : TrustedKey
writer = record {
  key = 3 ∷ [];
  subject = some (codes "ada@example.org");
  scopes = commit ∷ [];
  since = 2;
  retired_from = none;
  compromised_from = none;
}

abbrev root : TrustRoot
root = record {
  revision = 2;
  namespace = snapshot_namespace;
  govern_quorum = 1;
  keys = owner ∷ former ∷ writer ∷ [];
}

acceptable : is_acceptable root ≡ true
unfolding is_acceptable pyboltzmann.Prelude.Order.◌==◌ pyboltzmann.Prelude.Bytes.bytes_lt
    snapshot_namespace TrustRoot.are_distinct TrustRoot.has_key TrustRoot.any_govern TrustRoot.holds
    TrustRoot.lists TrustRoot.is_scope pyboltzmann.Prelude.all TrustRoot.is_known_at govern_holders
    TrustRoot.holders filter TrustRoot.is_retired confirm_since TrustRoot.any_unlisted
    TrustRoot.entry_for TrustRoot.entry_in
acceptable = refl

retired : govern_holders root ≡ owner ∷ []
unfolding govern_holders TrustRoot.holders filter TrustRoot.holds TrustRoot.lists TrustRoot.is_scope
    TrustRoot.is_retired confirm_since TrustRoot.any_unlisted TrustRoot.entry_for TrustRoot.entry_in
    pyboltzmann.Prelude.Order.◌==◌ pyboltzmann.Prelude.Bytes.bytes_lt
retired = refl

-- A key that claims an admission before it was listed is refuted.
early :
    confirm_since
      (root ∷ record root { revision = 1; keys = owner ∷ [] } ∷ [])
      (record writer { since = 1 })
    ≡ refuted
unfolding confirm_since TrustRoot.any_unlisted TrustRoot.entry_for TrustRoot.entry_in
    pyboltzmann.Prelude.Order.◌==◌ pyboltzmann.Prelude.Bytes.bytes_lt govern_holders
    TrustRoot.holders filter TrustRoot.holds TrustRoot.lists TrustRoot.is_scope TrustRoot.is_retired
early = refl

owner_holds : In owner (govern_holders root)
unfolding govern_holders TrustRoot.holders filter TrustRoot.holds TrustRoot.lists TrustRoot.is_scope
    TrustRoot.is_retired
owner_holds = here

entry_for-listed_example : TrustRoot.entry_for root (3 ∷ []) ≡ some writer
entry_for-listed_example = entry_for-listed root writer acceptable (there (there here))

has_governance_margin-loss_example :
    (TrustRoot.has_governance_margin root ≡ true)
    ↔ ((k : Bytes) → root.govern_quorum ≤ length (without k (govern_holders root)))
has_governance_margin-loss_example = has_governance_margin-loss root owner acceptable owner_holds
