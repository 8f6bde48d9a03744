-- ===== src/Reconcile/Ancestor.antt =====
-- `common_ancestor` of reconcile/ancestry.py: the snapshot that two histories parted from.
pub mod Laws
pub mod Visit
pub mod Meeting
pub mod Leads
pub mod Distinct
pub mod Candidates
pub mod Answer
mod Tests
use pyboltzmann.Prelude.{
  ℕ, zero, suc, ◌+◌, Bool, true, false, not, ◌&&◌, ◌||◌, Option, none, some, List, [], ◌∷◌, ◌++◌,
  length, if◌then◌else◌,
}
use pyboltzmann.Prelude.Order.{◌==◌}
use pyboltzmann.Prelude.Sets.{contains, union}
use pyboltzmann.Prelude.Dict.{get}
use pyboltzmann.Exceptions.{
  Result, ok, raise, ◌>>=◌, no_common_ancestor, multiple_merge_bases, out_of_fuel,
}
use pyboltzmann.Identity.{OciDigest, oci_order}
use pyboltzmann.Reconcile.Ancestry.{Snapshot, History, digest_reaches}

-- `set.add`
unfoldable pub include : OciDigest → List OciDigest → List OciDigest
include d ds = if contains d ds then ds else union ds (d ∷ [])

-- `candidates`, `seen` and `frontier` of `common_ancestor`, the latest to visit first.
pub record Search : Type 0 where
  pub candidates : List OciDigest
  pub seen : List OciDigest
  pub frontier : List (OciDigest × Snapshot)

-- `hint is not None and parent == hint and hint in contained`
unfoldable pub is_hinted : List OciDigest → Option OciDigest → OciDigest → Bool
is_hinted contained none parent = false
is_hinted contained (some hint) parent = (parent == hint) && contains hint contained

unfoldable pub visit_parent :
    History → List OciDigest → Option OciDigest → OciDigest → Search → Search
visit_parent h contained hint parent search =
    if contains parent search.seen
    then search
    else (let seen = union search.seen (parent ∷ []) in
        if is_hinted contained hint parent || contains parent contained
        then record search { seen = seen; candidates = include parent search.candidates }
        else record search {
          seen = seen;
          frontier = elim (get parent h) [
            | none ↦ search.frontier
            | some s ↦ (parent, s) ∷ search.frontier
          ];
        })

unfoldable pub visit_parents :
    History → List OciDigest → Option OciDigest → List OciDigest → Search → Search
visit_parents h contained hint [] search = search
visit_parents h contained hint (parent ∷ parents) search =
    visit_parents h contained hint parents (visit_parent h contained hint parent search)

unfoldable pub search_loop :
    ℕ
    → History
    → List OciDigest
    → Option OciDigest
    → List OciDigest
    → List OciDigest
    → List (OciDigest × Snapshot)
    → Result (List OciDigest)
search_loop zero h contained hint candidates seen frontier = raise out_of_fuel
search_loop (suc fuel) h contained hint candidates seen [] = ok candidates
search_loop (suc fuel) h contained hint candidates seen ((digest, s) ∷ frontier) =
    elim (contains digest contained) [
      | true ↦ search_loop fuel h contained hint (include digest candidates) seen frontier
      | false ↦
          let next =
            visit_parents h contained hint s.parents
              (record { candidates = candidates; seen = seen; frontier = frontier }) in
          search_loop fuel h contained hint next.candidates next.seen next.frontier
    ]

-- `any(other != candidate and _digest_reaches(...) for other in candidates)`
unfoldable pub is_behind_another :
    History → Snapshot → OciDigest → OciDigest → List OciDigest → Result Bool
is_behind_another h theirs theirs_digest candidate [] = ok false
is_behind_another h theirs theirs_digest candidate (other ∷ others) =
    if other == candidate then is_behind_another h theirs theirs_digest candidate others else do
      reached ← digest_reaches h other candidate theirs theirs_digest
      (if reached then ok true else is_behind_another h theirs theirs_digest candidate others)

unfoldable pub best_of :
    History → Snapshot → OciDigest → List OciDigest → List OciDigest → Result (List OciDigest)
best_of h theirs theirs_digest candidates [] = ok []
best_of h theirs theirs_digest candidates (c ∷ cs) = do
  behind ← is_behind_another h theirs theirs_digest c candidates
  rest ← best_of h theirs theirs_digest candidates cs
  ok (if behind then rest else c ∷ rest)

unfoldable pub only : List OciDigest → Result OciDigest
only [] = raise no_common_ancestor
only (d ∷ []) = ok d
only (d ∷ _) = raise multiple_merge_bases

unfoldable pub common_ancestor :
    History → List OciDigest → Snapshot → OciDigest → Option OciDigest → Result OciDigest
common_ancestor h ours theirs theirs_digest hint = do
  candidates ←
      search_loop (length h + 2) h ours hint [] (theirs_digest ∷ []) ((theirs_digest, theirs) ∷ [])
  best ← best_of h theirs theirs_digest candidates candidates
  only best
