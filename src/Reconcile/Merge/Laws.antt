-- ===== src/Reconcile/Merge/Laws.antt =====
-- What `merge_module` of reconcile/merge.py returns where both sides and the ancestor hold the module, and
-- what its merge refuses for modules that only grow.
use pyboltzmann.Prelude.Sorting.{IsAscending, sorted_set-IsAscending, contains-sorted_set}
use pyboltzmann.Prelude.{
  some, ◌≡◌, ◌↔◌, refl, Bool, true, false, not, ◌&&◌, ◌||◌, inl, inr, List, [], ◌∷◌, arith,
  if◌then◌else◌, Bool-cases,
}
use pyboltzmann.Prelude.Order.{==_refl}
use pyboltzmann.Prelude.Sets.{
  contains, union, difference, SameMembers, contains-append, contains-difference,
}
use pyboltzmann.Exceptions.{ok, raise, append_only_violation}
use pyboltzmann.Identity.{BlockId, block_order}
use pyboltzmann.Identity.Hashing.{Sha256}
use pyboltzmann.Blocks.MemoryType.{MemoryType, is_append_only, is_same_self}
use pyboltzmann.Merkle.Tree.{sorted_leaves}
use pyboltzmann.Merkle.Diff.Laws.{set_root, merkle_root_lem}
use pyboltzmann.Module.Composition.{Composition, block_ids, has}
use pyboltzmann.Reconcile.Merge.{
  ModuleReconciliation, is_nil, excluded_blocks, merged_blocks, combine, merge_module, reconcile,
  is_of,
}

-- A block survives a three-way merge exactly when either side has it, and both do if the ancestor
-- had it.
abbrev pub survives : Bool → Bool → Bool → Bool
survives in_base in_ours in_theirs = if in_base then in_ours && in_theirs else in_ours || in_theirs

pub contains-excluded :
    (ancestor mine yours : List BlockId) (b : BlockId)
    → contains b (excluded_blocks ancestor mine yours)
      ≡ (contains b ancestor && not (contains b mine && contains b yours))
unfolding excluded_blocks
contains-excluded ancestor mine yours b = ground (
  arith,
  contains-append b (difference ancestor mine) (difference ancestor yours),
  contains-difference b ancestor mine,
  contains-difference b ancestor yours,
)

pub contains-merged :
    (ancestor mine yours : List BlockId) (b : BlockId)
    → contains b (merged_blocks ancestor mine yours)
      ≡ survives (contains b ancestor) (contains b mine) (contains b yours)
unfolding merged_blocks
contains-merged ancestor mine yours b = ground (
  arith,
  contains-excluded ancestor mine yours b,
  contains-difference b (union (union ancestor mine) yours) (excluded_blocks ancestor mine yours),
  contains-append b (union ancestor mine) yours,
  contains-append b ancestor mine,
)

is_nil_iff : (bs : List BlockId) → (is_nil bs ≡ true) ↔ ((b : BlockId) → contains b bs ≡ false)
unfolding contains
is_nil_iff [] = (λ h b. refl, λ h. refl)
is_nil_iff (x ∷ bs) = (λ h. absurd (ground arith), λ h. absurd (ground (arith, h x, ==_refl x)))

not_nil : (bs : List BlockId) (b : BlockId) → contains b bs ≡ true → is_nil bs ≡ false
unfolding contains
not_nil [] b h = absurd (ground arith)
not_nil (x ∷ bs) b h = refl

pub is_nil_congr : (xs ys : List BlockId) → SameMembers xs ys → is_nil xs ≡ is_nil ys
unfolding contains
is_nil_congr [] [] h = refl
is_nil_congr [] (y ∷ ys) h = absurd (ground (arith, h y, ==_refl y))
is_nil_congr (x ∷ xs) [] h = absurd (ground (arith, h x, ==_refl x))
is_nil_congr (x ∷ xs) (y ∷ ys) h = refl

module _ ⦃sha : Sha256⦄ where
  -- What a merge of two held compositions says of each block, with `base` the ancestor's blocks.
  pub record IsMerge (base : List BlockId) (ours theirs : Composition) (r : ModuleReconciliation)
      : Type 0 where
    pub result :
        (b : BlockId)
        → contains b r.block_ids ≡ survives (contains b base) (has ours b) (has theirs b)
    pub ordered : IsAscending r.block_ids
    pub root : r.root ≡ set_root r.block_ids
    pub ours_added :
        (b : BlockId) → contains b r.added_by_us ≡ (has ours b && not (contains b base))
    pub theirs_added :
        (b : BlockId) → contains b r.added_by_them ≡ (has theirs b && not (contains b base))
    pub dropped :
        (b : BlockId) → contains b r.removed ≡ (contains b base && not (has ours b && has theirs b))
    pub entering :
        (b : BlockId) → contains b r.incoming ≡ (contains b r.block_ids && not (has ours b))
    pub held : r.adopted ≡ false

  abbrev merge_of : MemoryType → List BlockId → Composition → Composition → ModuleReconciliation
  merge_of m base ours theirs =
      let mine = block_ids ours in
      let yours = block_ids theirs in
      let kept = merged_blocks base mine yours in
      record {
        memory_type = m;
        block_ids = sorted_leaves kept;
        root = set_root (sorted_leaves kept);
        added_by_us = sorted_leaves (difference mine base);
        added_by_them = sorted_leaves (difference yours base);
        removed = sorted_leaves (excluded_blocks base mine yours);
        incoming = sorted_leaves (difference kept mine);
        adopted = false;
      }

  merge_of-IsMerge :
      (m : MemoryType) (base : List BlockId) (ours theirs : Composition)
      → IsMerge base ours theirs (merge_of m base ours theirs)
  unfolding has sorted_leaves
  merge_of-IsMerge m base ours theirs = record {
    result = λ b. simp (contains-sorted_set, contains-merged);
    ordered = sorted_set-IsAscending (merged_blocks base (block_ids ours) (block_ids theirs));
    root = refl;
    ours_added = λ b. simp (contains-sorted_set, contains-difference);
    theirs_added = λ b. simp (contains-sorted_set, contains-difference);
    dropped = λ b. simp (contains-sorted_set, contains-excluded);
    entering = λ b. simp (contains-sorted_set, contains-difference);
    held = refl;
  }

  -- The ancestor holds nothing that a side lacks.
  abbrev pub KeepsAll : List BlockId → Composition → Composition → Type 0
  KeepsAll base ours theirs =
      (b : BlockId) → contains b base ≡ true → (has ours b && has theirs b) ≡ true

  pub combine-IsMerge :
      (m : MemoryType) (base : List BlockId) (ours theirs : Composition)
      → (is_append_only m ≡ true → KeepsAll base ours theirs)
      → (r : ModuleReconciliation) × (combine m base ours theirs ≡ ok r)
        × IsMerge base ours theirs r
  unfolding combine has
  combine-IsMerge m base ours theirs keeps =
      let excluded = excluded_blocks base (block_ids ours) (block_ids theirs) in
      let allowed : (is_append_only m && not (is_nil excluded)) ≡ false =
        elim (Bool-cases (is_append_only m)) [
          | inl e ↦
              let none_lost : is_nil excluded ≡ true = (is_nil_iff excluded).1 (λ b.
                ground (
                  arith,
                  keeps e b,
                  contains-excluded base (block_ids ours) (block_ids theirs) b,
                )) in
              ground arith
          | inr e ↦ ground arith
        ] in
      let kept = merged_blocks base (block_ids ours) (block_ids theirs) in
      (
        merge_of m base ours theirs,
        rw (allowed, merkle_root_lem (sorted_leaves kept)),
        merge_of-IsMerge m base ours theirs,
      )

  -- An append-only module that lost a block on either side is refused.
  pub combine-refused :
      (m : MemoryType) (base : List BlockId) (ours theirs : Composition) (b : BlockId)
      → is_append_only m ≡ true
      → contains b base ≡ true
      → (has ours b && has theirs b) ≡ false
      → combine m base ours theirs ≡ raise append_only_violation
  unfolding combine has
  combine-refused m base ours theirs b e h lost =
      let excluded = excluded_blocks base (block_ids ours) (block_ids theirs) in
      let found : is_nil excluded ≡ false =
        not_nil excluded b
          (ground (arith, contains-excluded base (block_ids ours) (block_ids theirs) b)) in
      rw (e, found)

  -- Where the three compositions are of the module that is reconciled, and no side lost a block of
  -- an append-only module, the merge succeeds and holds exactly the surviving blocks.
  pub merge_module-IsMerge :
      (m : MemoryType) (base ours theirs : Composition)
      → base.memory_type ≡ m
      → ours.memory_type ≡ m
      → theirs.memory_type ≡ m
      → (is_append_only m ≡ true → KeepsAll (block_ids base) ours theirs)
      → (r : ModuleReconciliation) × (merge_module m (some base) (some ours) (some theirs)
          ≡ ok (some r))
        × IsMerge (block_ids base) ours theirs r
  unfolding merge_module reconcile is_of
  merge_module-IsMerge m base ours theirs p q s keeps =
      let (r, e, merged) = combine-IsMerge m (block_ids base) ours theirs keeps in
      (
        r,
        rw (
          is_same_self base.memory_type m p,
          is_same_self ours.memory_type m q,
          is_same_self theirs.memory_type m s,
          e,
        ),
        merged,
      )
