-- ===== src/Authenticity/Chain/Genesis.antt =====
-- `genesis_of` of authenticity/chain.py: the identity of a brain.
use pyboltzmann.Prelude.{
  ℕ, zero, suc, ◌<◌, ◌≡◌, ap, sym, ◌∙◌, true, Option, none, some, List, [], ◌∷◌, length, ltb, arith,
}
use pyboltzmann.Prelude.Sets.{contains}
use pyboltzmann.Prelude.Bytes.{Bytes}
use pyboltzmann.Exceptions.{Result, ok, ◌>>=◌, bind_ok, ok_eq}
use pyboltzmann.Identity.{OciDigest, oci_order}
use pyboltzmann.Identity.Hashing.{Sha256}
use pyboltzmann.Store.Memory.{MemoryBlockStore}
use pyboltzmann.Authenticity.Chain
use pyboltzmann.Authenticity.Chain.{
  Snapshot, Position, onward, add, genesis_in, first_parent, positioned, at_genesis, max_walk,
}
use pyboltzmann.Authenticity.Chain.Walk.{walk_less, round_ok}

-- A walk that goes on has positions.
onward_ok :
    (position : Position) (parent : Option Snapshot) (f : Snapshot → Result (List Position))
    (positions : List Position)
    → onward position parent f ≡ ok positions
    → (rest : List Position) × (positions ≡ position ∷ rest)
unfolding onward
onward_ok position none f positions h = ([], sym (ok_eq (position ∷ []) positions h))
onward_ok position (some p) f positions h =
    let (rest, _, all) = bind_ok (f p) (λ r. ok (position ∷ r)) positions h in
    (rest, sym (ok_eq (position ∷ rest) positions all))

in_none : (x : OciDigest) → contains x [] ≡ true → ⊥
unfolding contains
in_none x m = ground arith

module _ ⦃sha : Sha256⦄ (from_document : Bytes → Result Snapshot) (s : MemoryBlockStore) where
  -- The line of first parents, as far as it is held and readable.
  pub data Line (c : Snapshot) : Snapshot → Type 0 where
    start : Line c c
    back :
        {p q : Snapshot} (d : OciDigest)
        → Line c p
        → first_parent p.parents ≡ some d
        → Chain.load_snapshot from_document s d ≡ ok (some q)
        → Line c q

  walk_ok :
      (fuel limit : ℕ) (seen : List OciDigest) (c : Snapshot) (positions : List Position)
      → Chain.walk from_document s fuel limit seen c ≡ ok positions
      → (position : Position) × (rest : List Position) × (positions ≡ position ∷ rest)
  unfolding Chain.walk
  walk_ok zero limit seen c positions h = absurd (ground arith)
  walk_ok (suc fuel) limit seen c positions h =
      let (position, placed, h1) = bind_ok (Chain.locate from_document s c) _ positions h in
      let next =
        onward position position.parent
          (Chain.walk from_document s fuel limit (add c.digest seen)) in
      let (_, _, run) =
        round_ok (contains c.digest seen) (ltb limit (length (add c.digest seen))) next positions
          h1 in
      let (rest, all) =
        onward_ok position position.parent
          (Chain.walk from_document s fuel limit (add c.digest seen)) positions run in
      (position, rest, all)

  -- The walk of a snapshot goes on as the walk of its first parent.
  parent_walk :
      (fuel limit : ℕ) (c p : Snapshot) (d : OciDigest) (positions : List Position)
      → limit < suc fuel
      → first_parent c.parents ≡ some d
      → Chain.load_snapshot from_document s d ≡ ok (some p)
      → Chain.walk from_document s (suc fuel) limit [] c ≡ ok positions
      → (rest : List Position) × (Chain.walk from_document s (suc fuel) limit [] p ≡ ok rest)
        × (genesis_in positions ≡ genesis_in rest)
  unfolding Chain.walk Chain.locate Chain.locate_by onward positioned genesis_in add contains
  parent_walk fuel limit c p d positions enough named held h =
      let (position, placed, h1) = bind_ok (Chain.locate from_document s c) _ positions h in
      let located : Chain.locate from_document s c ≡ ok (positioned c (some p)) =
        ap (Chain.locate_by from_document s c) named
        ∙ ap (λ r. r >>= λ x. ok (positioned c x)) held in
      let is_next : position ≡ positioned c (some p) =
        ok_eq position (positioned c (some p)) (sym placed ∙ located) in
      let next = λ (x : Position).
        onward x x.parent (Chain.walk from_document s fuel limit (c.digest ∷ [])) in
      let (_, _, run) =
        round_ok (contains c.digest []) (ltb limit 1) (next position) positions h1 in
      let pos = positioned c (some p) in
      let (rest, below, all) =
        bind_ok (Chain.walk from_document s fuel limit (c.digest ∷ []) p) (λ r. ok (pos ∷ r))
          positions (ap next (sym is_next) ∙ run) in
      let (x, xs, shape) = walk_ok fuel limit (c.digest ∷ []) p rest below in
      (
        rest,
        walk_less from_document s limit fuel (suc fuel) (c.digest ∷ []) [] p rest
            (λ x m. absurd (in_none x m)) (omega arith) (omega (arith, enough)) below,
        ap genesis_in (sym (ok_eq (pos ∷ rest) positions all))
            ∙ ap (λ r. genesis_in (pos ∷ r)) shape
            ∙ ap genesis_in (sym shape),
      )

  genesis_of_parent :
      (c p : Snapshot) (d : OciDigest) (r : Option OciDigest)
      → first_parent c.parents ≡ some d
      → Chain.load_snapshot from_document s d ≡ ok (some p)
      → Chain.genesis_of from_document s c ≡ ok r
      → Chain.genesis_of from_document s p ≡ ok r
  unfolding Chain.genesis_of Chain.walk_first_parents
  genesis_of_parent c p d r named held h =
      let (positions, walked, all) =
        bind_ok (Chain.walk_first_parents from_document s c) (λ x. ok (genesis_in x)) r h in
      let (rest, again, same) =
        parent_walk max_walk max_walk c p d positions (omega arith) named held walked in
      ap (λ w. w >>= λ x. ok (genesis_in x)) again
      ∙ ap (λ x. ok x) (sym same ∙ ok_eq (genesis_in positions) r all)

  root_walk :
      (fuel limit : ℕ) (g : Snapshot) (positions : List Position)
      → first_parent g.parents ≡ none
      → Chain.walk from_document s (suc fuel) limit [] g ≡ ok positions
      → positions ≡ at_genesis g ∷ []
  unfolding Chain.walk Chain.locate Chain.locate_by onward at_genesis add contains
  root_walk fuel limit g positions alone h =
      let (position, placed, h1) = bind_ok (Chain.locate from_document s g) _ positions h in
      let is_g : position ≡ at_genesis g =
        ok_eq position (at_genesis g) (sym placed ∙ ap (Chain.locate_by from_document s g) alone) in
      let next = λ (x : Position).
        onward x x.parent (Chain.walk from_document s fuel limit (g.digest ∷ [])) in
      let (_, _, run) =
        round_ok (contains g.digest []) (ltb limit 1) (next position) positions h1 in
      sym (ok_eq (at_genesis g ∷ []) positions (ap next (sym is_g) ∙ run))

  genesis_of_root :
      (g : Snapshot) (r : Option OciDigest)
      → first_parent g.parents ≡ none
      → Chain.genesis_of from_document s g ≡ ok r
      → r ≡ some g.digest
  unfolding Chain.genesis_of Chain.walk_first_parents genesis_in at_genesis
  genesis_of_root g r alone h =
      let (positions, walked, all) =
        bind_ok (Chain.walk_first_parents from_document s g) (λ x. ok (genesis_in x)) r h in
      let only = root_walk max_walk max_walk g positions alone walked in
      sym (ok_eq (genesis_in positions) r all) ∙ ap genesis_in only

  along :
      (c p : Snapshot) (r : Option OciDigest)
      → Chain.genesis_of from_document s c ≡ ok r
      → Line c p
      → Chain.genesis_of from_document s p ≡ ok r
  along c _ r h start = h
  along c q r h (back {p = p} d line named held) =
      genesis_of_parent p q d r named held (along c p r h line)

  -- Where the genesis of a snapshot is decided, be it found or out of reach, it is the same for every
  -- snapshot on its line of first parents; and if that line reaches a snapshot without parents, it is
  -- the digest of that one.
  pub genesis_of-Line :
      (c p : Snapshot) (r : Option OciDigest)
      → Chain.genesis_of from_document s c ≡ ok r
      → Line c p
      → (Chain.genesis_of from_document s p ≡ ok r)
        × (first_parent p.parents ≡ none → r ≡ some p.digest)
  genesis_of-Line c p r h line =
      let same = along c p r h line in (same, λ alone. genesis_of_root p r alone same)
