-- ===== src/Reconcile/Ancestor/Distinct.antt =====
-- The candidates of `common_ancestor` of reconcile/ancestry.py stand in their list once.
use pyboltzmann.Prelude.{
  ℕ, zero, suc, Bool, true, false, Option, List, [], ◌∷◌, ◌++◌, ◌≡◌, refl, ap, sym, ◌∙◌, arith, inl,
  inr, Bool-cases, if◌then◌else◌, not, ◌&&◌, ◌||◌,
}
use pyboltzmann.Prelude.Order.{==_comm}
use pyboltzmann.Prelude.Sets.{contains, contains-append}
use pyboltzmann.Exceptions.{ok, bind_ok, ok_eq}
use pyboltzmann.Identity.{OciDigest, oci_order}
use pyboltzmann.Reconcile.Ancestry.{Snapshot, History}
use pyboltzmann.Reconcile.Ancestor.{
  Search, include, is_hinted, visit_parent, visit_parents, search_loop, is_behind_another, best_of,
}

unfoldable pub are_distinct : List OciDigest → Bool
are_distinct [] = true
are_distinct (d ∷ ds) = not (contains d ds) && are_distinct ds

distinct-append :
    (d : OciDigest) (ds : List OciDigest)
    → contains d ds ≡ false
    → are_distinct ds ≡ true
    → are_distinct (ds ++ d ∷ []) ≡ true
unfolding are_distinct contains
distinct-append d [] n u = refl
distinct-append d (x ∷ ds) n u =
    ground (arith, distinct-append d ds, contains-append x ds (d ∷ []), ==_comm x d)

include_distinct :
    (d : OciDigest) (ds : List OciDigest)
    → are_distinct ds ≡ true
    → are_distinct (include d ds) ≡ true
unfolding include
include_distinct d ds u = elim (Bool-cases (contains d ds)) [
  | inl e ↦ rw e u
  | inr n ↦ rw n (distinct-append d ds n u)
]

visit_parent_distinct :
    (h : History) (contained : List OciDigest) (hint : Option OciDigest) (p : OciDigest)
    (search : Search)
    → are_distinct search.candidates ≡ true
    → are_distinct (visit_parent h contained hint p search).candidates ≡ true
unfolding visit_parent
visit_parent_distinct h contained hint p search u = elim (Bool-cases (contains p search.seen)) [
  | inl e ↦ rw e u
  | inr n ↦ elim (Bool-cases (is_hinted contained hint p || contains p contained)) [
    | inl e ↦ rw (n, e) (include_distinct p search.candidates u)
    | inr m ↦ rw (n, m) u
  ]
]

visit_parents_distinct :
    (h : History) (contained : List OciDigest) (hint : Option OciDigest) (ps : List OciDigest)
    (search : Search)
    → are_distinct search.candidates ≡ true
    → are_distinct (visit_parents h contained hint ps search).candidates ≡ true
unfolding visit_parents
visit_parents_distinct h contained hint [] search u = u
visit_parents_distinct h contained hint (p ∷ ps) search u =
    visit_parents_distinct h contained hint ps (visit_parent h contained hint p search)
      (visit_parent_distinct h contained hint p search u)

pub search_loop_distinct :
    (h : History) (contained : List OciDigest) (hint : Option OciDigest) (fuel : ℕ)
    (candidates seen : List OciDigest) (frontier : List (OciDigest × Snapshot)) (r : List OciDigest)
    → are_distinct candidates ≡ true
    → search_loop fuel h contained hint candidates seen frontier ≡ ok r
    → are_distinct r ≡ true
unfolding search_loop
search_loop_distinct h contained hint zero candidates seen frontier r u run = absurd (ground arith)
search_loop_distinct h contained hint (suc fuel) candidates seen [] r u run =
    ap are_distinct (sym (ok_eq candidates r run)) ∙ u
search_loop_distinct h contained hint (suc fuel) candidates seen ((d, s) ∷ frontier) r u run =
    elim (Bool-cases (contains d contained)) [
      | inl e ↦
          search_loop_distinct h contained hint fuel (include d candidates) seen frontier r
            (include_distinct d candidates u) (rw (e, search_loop) at run)
      | inr n ↦
          let from : Search = record {
            candidates = candidates;
            seen = seen;
            frontier = frontier;
          } in
          let to : Search = visit_parents h contained hint s.parents from in
          search_loop_distinct h contained hint fuel to.candidates to.seen to.frontier r
            (visit_parents_distinct h contained hint s.parents from u) (rw (n, search_loop) at run)
    ]

pub best_of_distinct :
    (h : History) (theirs : Snapshot) (theirs_digest : OciDigest)
    (candidates cs best : List OciDigest)
    → best_of h theirs theirs_digest candidates cs ≡ ok best
    → are_distinct cs ≡ true
    → (are_distinct best ≡ true) × ((c : OciDigest) → contains c best ≡ true → contains c cs ≡ true)
unfolding best_of are_distinct contains
best_of_distinct h theirs theirs_digest candidates [] best run u =
    let empty = sym (ok_eq [] best run) in
    (ap are_distinct empty, λ c m. ap (contains c) (sym empty) ∙ m)
best_of_distinct h theirs theirs_digest candidates (c ∷ cs) best run u =
    let (b, _, run1) = bind_ok (is_behind_another h theirs theirs_digest c candidates) _ best run in
    let (rest, below, last) =
      bind_ok (best_of h theirs theirs_digest candidates cs) (λ r. ok (if b then r else c ∷ r)) best
        run1 in
    let (each, inside) =
      best_of_distinct h theirs theirs_digest candidates cs rest below (ground arith) in
    let shape = sym (ok_eq (if b then rest else c ∷ rest) best last) in
    elim (Bool-cases b) [
      | inl t ↦
          let it : best ≡ rest = shape ∙ ap (λ (q : Bool). if q then rest else c ∷ rest) t in
          (ap are_distinct it ∙ each, λ x m. ground (arith, inside x, ap (contains x) it))
      | inr f ↦
          let it : best ≡ c ∷ rest = shape ∙ ap (λ (q : Bool). if q then rest else c ∷ rest) f in
          (
            ap are_distinct it ∙ ground (arith, inside c),
            λ x m. ground (arith, inside x, ap (contains x) it),
          )
    ]
