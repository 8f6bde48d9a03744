-- ===== src/Reconcile/Ancestor/Laws.antt =====
-- The search of reconcile/ancestry.py: the hint never changes its answer.
use pyboltzmann.Prelude.{
  ℕ, zero, suc, ◌+◌, true, ◌||◌, Option, none, some, List, [], ◌∷◌, length, ◌≡◌, refl, ap, ◌∙◌,
  arith, inl, inr, Bool-cases,
}
use pyboltzmann.Prelude.Order.{◌==◌, ==_sound}
use pyboltzmann.Prelude.Sets.{contains}
use pyboltzmann.Identity.{OciDigest, oci_order}
use pyboltzmann.Reconcile.Ancestry.{Snapshot, History}
use pyboltzmann.Reconcile.Ancestor.{
  Search, is_hinted, include, visit_parent, visit_parents, search_loop, common_ancestor,
}

is_hinted_lem :
    (contained : List OciDigest) (hint : Option OciDigest) (parent : OciDigest)
    → (is_hinted contained hint parent || contains parent contained)
      ≡ (is_hinted contained none parent || contains parent contained)
unfolding is_hinted
is_hinted_lem contained none parent = refl
is_hinted_lem contained (some hint) parent =
    let same : (parent == hint) ≡ true → contains parent contained ≡ contains hint contained =
      λ e. ap (λ d. contains d contained) (==_sound parent hint e) in
    ground (arith, same)

module _ (h : History) (contained : List OciDigest) (hint : Option OciDigest) where
  visit_parent_hint :
      (parent : OciDigest) (search : Search)
      → visit_parent h contained hint parent search ≡ visit_parent h contained none parent search
  unfolding visit_parent
  visit_parent_hint parent search = rw (is_hinted_lem contained hint parent) refl

  visit_parents_hint :
      (parents : List OciDigest) (search : Search)
      → visit_parents h contained hint parents search
        ≡ visit_parents h contained none parents search
  unfolding visit_parents
  visit_parents_hint [] search = refl
  visit_parents_hint (p ∷ ps) search =
      ap (visit_parents h contained hint ps) (visit_parent_hint p search)
      ∙ visit_parents_hint ps (visit_parent h contained none p search)

  search_loop_hint :
      (fuel : ℕ) (candidates seen : List OciDigest) (frontier : List (OciDigest × Snapshot))
      → search_loop fuel h contained hint candidates seen frontier
        ≡ search_loop fuel h contained none candidates seen frontier
  unfolding search_loop
  search_loop_hint zero candidates seen frontier = refl
  search_loop_hint (suc fuel) candidates seen [] = refl
  search_loop_hint (suc fuel) candidates seen ((digest, s) ∷ frontier) =
      elim (Bool-cases (contains digest contained)) [
        | inl e ↦
            rw (e, search_loop) (search_loop_hint fuel (include digest candidates) seen frontier)
        | inr n ↦
            let from : Search = record {
              candidates = candidates;
              seen = seen;
              frontier = frontier;
            } in
            let same = visit_parents_hint s.parents from in
            let next : Search = visit_parents h contained hint s.parents from in
            rw (n, search_loop)
              (search_loop_hint fuel next.candidates next.seen next.frontier
                ∙ ap
                    (λ (q : Search).
                      search_loop fuel h contained none q.candidates q.seen q.frontier)
                    same)
      ]

-- The hint only bounds the walk: with any hint, and with none, the answer is the same.
pub common_ancestor_hint :
    (h : History) (ours : List OciDigest) (theirs : Snapshot) (theirs_digest : OciDigest)
    (hint : Option OciDigest)
    → common_ancestor h ours theirs theirs_digest hint
      ≡ common_ancestor h ours theirs theirs_digest none
unfolding common_ancestor
common_ancestor_hint h ours theirs theirs_digest hint =
    rw
      (search_loop_hint h ours hint (length h + 2) [] (theirs_digest ∷ [])
        ((theirs_digest, theirs) ∷ []))
      refl
