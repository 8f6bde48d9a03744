-- ===== src/Merkle/Diff/Laws.antt =====
-- `diff` of merkle/diff.py always answers, with exactly the blocks that changed.
use pyboltzmann.Prelude.{◌≡◌, refl, ap, true, false, not, ◌&&◌, List, [], ◌∷◌, arith}
use mathlib.Core.Path.{subst}
use pyboltzmann.Prelude.{◌↔◌}
use pyboltzmann.Prelude.Order.{==_refl}
use pyboltzmann.Prelude.Sets.{
  contains, union, difference, intersection, SameMembers, set_laws, contains-append,
  contains-difference,
}
use pyboltzmann.Exceptions.{ok}
use pyboltzmann.Identity.{BlockId, MerkleRoot, block_order}
use pyboltzmann.Identity.Hashing.{Sha256}
use pyboltzmann.Merkle.Tree.{sorted_leaves}
use pyboltzmann.Merkle.Positions.{raws}
use pyboltzmann.Merkle.Reference.{reference_root}
use pyboltzmann.Merkle.Positions.{contains-sorted_leaves}
use pyboltzmann.Merkle.Commitment.{root-init}
use pyboltzmann.Merkle.Diff.{CompositionDiff, is_empty, merkle_root, diff}

module _ ⦃sha : Sha256⦄ where
  abbrev pub set_root : List BlockId → MerkleRoot
  set_root block_ids = record { raw = reference_root (raws (sorted_leaves block_ids)) }

  pub merkle_root_lem : (block_ids : List BlockId) → merkle_root block_ids ≡ ok (set_root block_ids)
  unfolding merkle_root
  merkle_root_lem block_ids = let (_, p, _) = root-init block_ids in rw p

  abbrev pub difference_of : List BlockId → List BlockId → CompositionDiff
  difference_of xs ys = record {
    before = set_root (sorted_leaves xs);
    after = set_root (sorted_leaves ys);
    added = sorted_leaves (difference (sorted_leaves ys) (sorted_leaves xs));
    removed = sorted_leaves (difference (sorted_leaves xs) (sorted_leaves ys));
    unchanged = sorted_leaves (intersection (sorted_leaves xs) (sorted_leaves ys));
  }

  pub diff_lem : (xs ys : List BlockId) → diff xs ys ≡ ok (difference_of xs ys)
  unfolding diff
  diff_lem xs ys = rw (merkle_root_lem (sorted_leaves xs), merkle_root_lem (sorted_leaves ys))

  -- What a difference says of one block.
  pub record Separates (d : CompositionDiff) (xs ys : List BlockId) (b : BlockId) : Type 0 where
    pub in_added : contains b d.added ≡ (contains b ys && not (contains b xs))
    pub in_removed : contains b d.removed ≡ (contains b xs && not (contains b ys))
    pub in_unchanged : contains b d.unchanged ≡ (contains b xs && contains b ys)

  -- `diff` never fails, and every block is added, removed or unchanged exactly as the two
  -- compositions say.
  pub diff-Separates :
      (xs ys : List BlockId)
      → (d : CompositionDiff) × (diff xs ys ≡ ok d) × ((b : BlockId) → Separates d xs ys b)
  diff-Separates xs ys = (
    difference_of xs ys,
    diff_lem xs ys,
    λ b. record {
      in_added = simp (contains-sorted_leaves, set_laws);
      in_removed = simp (contains-sorted_leaves, set_laws);
      in_unchanged = simp (contains-sorted_leaves, set_laws);
    },
  )

  -- Removing what was removed and adding what was added turns the one set into the other.
  pub diff_applies :
      (xs ys : List BlockId) (d : CompositionDiff)
      → diff xs ys ≡ ok d
      → SameMembers (union (difference xs d.removed) d.added) ys
  diff_applies xs ys d h b =
      let (d', p, separates) = diff-Separates xs ys in
      let same : d' ≡ d = ground (arith, p) in
      let at : Separates d xs ys b = subst (λ e. Separates e xs ys b) same (separates b) in
      ground (
        arith,
        contains-append b (difference xs d.removed) d.added,
        contains-difference b xs d.removed,
        at.in_added,
        at.in_removed,
      )

  empty_list : (bs : List BlockId) → ((b : BlockId) → contains b bs ≡ false) → bs ≡ []
  unfolding contains
  empty_list [] h = refl
  empty_list (b ∷ bs) h = absurd (ground (arith, h b, ==_refl b))

  -- A difference is empty exactly when the two compositions have the same members.
  pub is_empty-diff :
      (xs ys : List BlockId) (d : CompositionDiff)
      → diff xs ys ≡ ok d
      → (is_empty d ≡ true) ↔ SameMembers xs ys
  unfolding is_empty contains
  is_empty-diff xs ys d h =
      let (d', p, separates) = diff-Separates xs ys in
      let same : d' ≡ d = ground (arith, p) in
      let at : (b : BlockId) → Separates d xs ys b =
        λ b. subst (λ e. Separates e xs ys b) same (separates b) in
      (
        (λ e b.
            let no_added : d.added ≡ [] = ground arith in
            let no_removed : d.removed ≡ [] = ground arith in
            let a = ap (contains b) no_added in
            let r = ap (contains b) no_removed in
            ground (arith, (at b).in_added, (at b).in_removed, a, r)),
        (λ e.
            let a = empty_list d.added (λ b. ground (arith, (at b).in_added, e b)) in
            let r = empty_list d.removed (λ b. ground (arith, (at b).in_removed, e b)) in
            rw (a, r) refl),
      )
