-- ===== src/Merkle/Climb.antt =====
-- The loop of `InclusionProof.verify`, run on the audit path of a tree, ends with the tree's hash.
use pyboltzmann.Prelude.{
  length, length-append, inl, inr, Bool-cases, ltb, ℕ, zero, suc, ◌+◌, ◌-◌, ◌/◌, ◌≤◌, ◌<◌, ◌≡◌,
  refl, sym, ap, ◌∙◌, false, some, List, [], ◌∷◌, ◌++◌, arith, ltb, lt→ltb,
}
use mathlib.Core.Path.{subst}
use native.Mathlib.Decide.{dec_lt}
use pyboltzmann.Prelude.Bytes.{Bytes}
use pyboltzmann.Identity.Hashing.{Sha256, hash_leaf, hash_node}
use pyboltzmann.Merkle.Tree.{shift_left}
use pyboltzmann.Merkle.Proof.{skip_levels, climb_level, climb}
use pyboltzmann.Merkle.Powers.{
  shift_right, shift_left-pos, shift_left-add, shift_left-zero, shift_left-double,
  shift_left-compose, shift_right-left,
}
use pyboltzmann.Merkle.Shape.{
  Shape, leaf, node, size, leaf_at, tree_hash, tree_path, IsPerfect, IsSplit, single, fork,
  size-pos, size-perfect, size-split,
}

shift_left_odd-pos : (a s : ℕ) → 0 < shift_left (a + a + 1) s
shift_left_odd-pos a s = omega (arith, shift_left-add (a + a) 1 s, shift_left-pos s)

-- Enough fuel for the inner loop: a position has no more low zeros than its value.
shift_left_fuel : (a s : ℕ) → s ≤ shift_left (a + a + 1) s
unfolding shift_left
shift_left_fuel a zero = omega arith
shift_left_fuel a (suc s) = omega (arith, shift_left_fuel a s, shift_left_odd-pos a s)

skip_levels_odd : (fuel a last : ℕ) → skip_levels fuel (a + a + 1) last ≡ (a + a + 1, last)
unfolding skip_levels
skip_levels_odd zero a last = refl
skip_levels_odd (suc fuel) a last = ground arith

skip_levels_even :
    (fuel c : ℕ) → 0 < c → skip_levels (suc fuel) (c + c) (c + c) ≡ skip_levels fuel c c
unfolding skip_levels
skip_levels_even fuel c h =
    let e : (c + c) / 2 ≡ c = omega arith in ground (arith, ap (λ (x : ℕ). skip_levels fuel x x) e)

-- From `(2a + 1) << s`, where both counters agree, the inner loop stops at `2a + 1`.
skip_levels_shifted :
    (fuel s a : ℕ)
    → s ≤ fuel
    → skip_levels fuel (shift_left (a + a + 1) s) (shift_left (a + a + 1) s)
      ≡ (a + a + 1, a + a + 1)
unfolding shift_left
skip_levels_shifted fuel zero a h = skip_levels_odd fuel a (a + a + 1)
skip_levels_shifted zero (suc s) a h = absurd (omega arith)
skip_levels_shifted (suc fuel) (suc s) a h =
    skip_levels_even fuel (shift_left (a + a + 1) s) (shift_left_odd-pos a s)
    ∙ skip_levels_shifted fuel s a (omega arith)

module _ ⦃sha : Sha256⦄ where
  level_left :
      (sibling running : Bytes) (a last : ℕ)
      → a + a < last
      → climb_level sibling (a + a) last running ≡ (a, last / 2, hash_node running sibling)
  unfolding climb_level
  level_left sibling running a last h = ground arith

  level_odd :
      (sibling running : Bytes) (a last : ℕ)
      → climb_level sibling (a + a + 1) last running ≡ (a, last / 2, hash_node sibling running)
  unfolding climb_level
  level_odd sibling running a last = ground (arith, skip_levels_odd (a + a + 1) a last)

  level_edge :
      (sibling running : Bytes) (a s : ℕ)
      → climb_level sibling (shift_left (a + a + 1) s) (shift_left (a + a + 1) s) running
        ≡ (a, a, hash_node sibling running)
  unfolding climb_level
  level_edge sibling running a s =
      ground (arith, skip_levels_shifted (shift_left (a + a + 1) s) s a (shift_left_fuel a s))

  climb-snoc :
      (path : List Bytes) (sibling : Bytes) (p l : ℕ) (r : Bytes) (p' l' : ℕ) (r' : Bytes)
      → climb path p l r ≡ some (p', l', r')
      → 0 < l'
      → climb (path ++ sibling ∷ []) p l r ≡ some (climb_level sibling p' l' r')
  unfolding climb
  climb-snoc [] sibling p l r p' l' r' e h = ground arith
  climb-snoc (s ∷ path) sibling p l r p' l' r' e h =
      let next = climb_level s p l r in
      ground (arith, climb-snoc path sibling next.0 next.1 next.2 p' l' r')

  -- The loop takes the leaf at `i`, from the counters `p` and `last`, to the hash of the tree, and
  -- leaves the counters at `p'` and `last'`.
  abbrev pub Climbs : Shape → ℕ → ℕ → ℕ → ℕ → ℕ → Type 0
  Climbs t i p last p' last' =
      climb (tree_path t i) p last (hash_leaf (leaf_at t i)) ≡ some (p', last', tree_hash t)

  join_left :
      (l r : Shape) (i p last a last' : ℕ)
      → i < size l
      → a + a < last'
      → Climbs l i p last (a + a) last'
      → Climbs (node l r) i p last a (last' / 2)
  unfolding tree_path tree_hash
  join_left l r i p last a last' h q c = rw (lt→ltb i (size l) h) (
      climb-snoc (tree_path l i) (tree_hash r) p last (hash_leaf (leaf_at l i)) (a + a) last'
        (tree_hash l) c (omega arith)
      ∙ ap some (level_left (tree_hash r) (tree_hash l) a last' q))

  join_right :
      (l r : Shape) (i p last a last' p' after : ℕ)
      → size l ≤ i
      → 0 < last'
      → climb_level (tree_hash l) p' last' (tree_hash r)
        ≡ (a, after, hash_node (tree_hash l) (tree_hash r))
      → Climbs r (i - size l) p last p' last'
      → Climbs (node l r) i p last a after
  unfolding tree_path tree_hash
  join_right l r i p last a last' p' after h q level c =
      let right : ltb i (size l) ≡ false = ground arith in
      rw right (
        climb-snoc (tree_path r (i - size l)) (tree_hash l) p last
          (hash_leaf (leaf_at r (i - size l))) p' last' (tree_hash r) c q
        ∙ ap some level)

  -- In a perfect subtree that is not on the right edge, every level is passed once.
  climb-perfect :
      (m : ℕ) (t : Shape) (i a last : ℕ)
      → IsPerfect m t
      → i < size t
      → a < shift_right last m
      → Climbs t i (shift_left a m + i) last a (shift_right last m)
  unfolding shift_right
  climb-perfect zero (leaf x) i a last p h q =
      unfold tree_path tree_hash climb shift_left in ground arith
  climb-perfect zero (node l r) i a last p h q = absurd p
  climb-perfect (suc m) (leaf x) i a last p h q = absurd p
  climb-perfect (suc m) (node l r) i a last p h q = elim (dec_lt i (size l)) [
    | yes left ↦
        let e : shift_left a (suc m) + i ≡ shift_left (a + a) m + i =
          omega (arith, shift_left-double a m) in
        rw e (
          join_left l r i (shift_left (a + a) m + i) last a (shift_right last m) left (omega arith)
            (climb-perfect m l i (a + a) last p.0 left (omega arith)))
    | no right ↦
        let e : shift_left a (suc m) + i ≡ shift_left (a + a + 1) m + (i - size l) =
          omega (arith, shift_left-double a m, shift_left-add (a + a) 1 m, size-perfect m l p.0) in
        rw e (
          join_right l r i (shift_left (a + a + 1) m + (i - size l)) last a (shift_right last m)
            (a + a + 1) (shift_right last m / 2) (omega arith) (omega arith)
            (level_odd (tree_hash l) (tree_hash r) a (shift_right last m))
            (climb-perfect m r (i - size l) (a + a + 1) last p.1
              (omega (arith, size-perfect m l p.0, size-perfect m r p.1)) (omega arith)))
  ]

  edge_left :
      (m : ℕ) (l r : Shape) (i b : ℕ)
      → IsPerfect m l
      → size r ≤ shift_left 1 m
      → i < size l
      → Climbs (node l r) i (shift_left (b + b) m + i) (shift_left (b + b + 1) m + (size r - 1)) b b
  edge_left m l r i b p fits h =
      let last : ℕ = shift_left (b + b + 1) m + (size r - 1) in
      let e : shift_right last m ≡ b + b + 1 =
        shift_right-left m (b + b + 1) (size r - 1) (omega (arith, size-pos r)) in
      let half : b ≡ (b + b + 1) / 2 = omega arith in
      let inner : Climbs l i (shift_left (b + b) m + i) last (b + b) (b + b + 1) =
        subst (λ x. Climbs l i (shift_left (b + b) m + i) last (b + b) x) e
          (climb-perfect m l i (b + b) last p h (omega (arith, e))) in
      subst (λ x. Climbs (node l r) i (shift_left (b + b) m + i) last b x) (sym half)
        (join_left l r i (shift_left (b + b) m + i) last b (b + b + 1) h (omega arith) inner)

  edge_right :
      (l r : Shape) (i p last b s : ℕ)
      → size l ≤ i
      → Climbs r (i - size l) p last (shift_left (b + b + 1) s) (shift_left (b + b + 1) s)
      → Climbs (node l r) i p last b b
  edge_right l r i p last b s h c =
      join_right l r i p last b (shift_left (b + b + 1) s) (shift_left (b + b + 1) s) b h
        (shift_left_odd-pos b s) (level_edge (tree_hash l) (tree_hash r) b s) c

  -- On the right edge the counters stay equal, and the levels above a short subtree are skipped.
  climb-split :
      (h : ℕ) (t : Shape) (i a : ℕ)
      → IsSplit h t
      → i < size t
      → (s : ℕ) × Climbs t i
          (shift_left a h + i)
          (shift_left a h + (size t - 1))
          (shift_left a s)
          (shift_left a s)
  climb-split h _ i a (single {x = x}) q = (h, unfold tree_path tree_hash climb in ground arith)
  climb-split h _ i a (fork {m = m} {l = l} {r = r} lt p e) q =
      let j : ℕ = h - suc m in
      let b : ℕ = shift_left a j in
      let whole : j + suc m ≡ h = omega arith in
      let top : shift_left a h ≡ shift_left (b + b) m =
        ap (shift_left a) (sym whole)
        ∙ sym (shift_left-compose a j (suc m))
        ∙ sym (shift_left-double b m) in
      let split : shift_left (b + b + 1) m ≡ shift_left (b + b) m + size l =
        omega (arith, shift_left-add (b + b) 1 m, size-perfect m l p) in
      let last : shift_left a h + (size l + size r - 1) ≡ shift_left (b + b + 1) m + (size r - 1) =
        omega (arith, top, split, size-pos r) in
      elim (dec_lt i (size l)) [
        | yes left ↦
            let first : shift_left a h + i ≡ shift_left (b + b) m + i = omega (arith, top) in
            (j, rw (first, last) (edge_left m l r i b p (size-split m r e) left))
        | no right ↦
            let first : shift_left a h + i ≡ shift_left (b + b + 1) m + (i - size l) =
              omega (arith, top, split) in
            let inner = climb-split m r (i - size l) (b + b + 1) e (omega arith) in
            (j, rw (first, last) (edge_right l r i _ _ b inner.0 (omega arith) inner.1))
      ]

  -- The whole loop, as `verify` starts it: `last` reaches 0 with the hash of the tree.
  pub climb-whole :
      (h : ℕ) (t : Shape) (i : ℕ)
      → IsSplit h t
      → i < size t
      → climb (tree_path t i) i (size t - 1) (hash_leaf (leaf_at t i)) ≡ some (0, 0, tree_hash t)
  climb-whole h t i e q =
      let (s, done) = climb-split h t i 0 e q in
      let first : i ≡ shift_left 0 h + i = omega (arith, shift_left-zero h) in
      let last : size t - 1 ≡ shift_left 0 h + (size t - 1) = omega (arith, shift_left-zero h) in
      cc (done, first, last, shift_left-zero s)

  length-path-perfect : (m : ℕ) (t : Shape) (i : ℕ) → IsPerfect m t → length (tree_path t i) ≡ m
  unfolding tree_path
  length-path-perfect zero (leaf x) i p = refl
  length-path-perfect zero (node l r) i p = absurd p
  length-path-perfect (suc m) (leaf x) i p = absurd p
  length-path-perfect (suc m) (node l r) i p = elim (Bool-cases (ltb i (size l))) [
    | inl left ↦ rw left (
        omega
          (arith, length-append (tree_path l i) (tree_hash r ∷ []), length-path-perfect m l i p.0))
    | inr right ↦ rw right (
        omega (
          arith,
          length-append (tree_path r (i - size l)) (tree_hash l ∷ []),
          length-path-perfect m r (i - size l) p.1,
        ))
  ]

  -- A path is no longer than the tree is high.
  pub length-path-le : (h : ℕ) (t : Shape) (i : ℕ) → IsSplit h t → length (tree_path t i) ≤ h
  unfolding tree_path
  length-path-le h _ i single = omega arith
  length-path-le h (node l r) i (fork {m = m} lt p e) = elim (Bool-cases (ltb i (size l))) [
    | inl left ↦ rw left (
        omega
          (arith, length-append (tree_path l i) (tree_hash r ∷ []), length-path-perfect m l i p))
    | inr right ↦ rw right (
        omega (
          arith,
          length-append (tree_path r (i - size l)) (tree_hash l ∷ []),
          length-path-le m r (i - size l) e,
        ))
  ]
