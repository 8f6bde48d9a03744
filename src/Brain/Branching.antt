-- ===== src/Brain/Branching.antt =====
-- The branches of brain.py: the ref table, the head pointer with what it retains, and the operations on
-- them. The pointers are decoded, and the documents of snapshots stand in a `History`. A method returns
-- the brain that it leaves behind also when it raises. What is derived from the installed version (its
-- indices and caches) is left out.
pub mod Pinned
pub mod Kept
pub mod Checkout
pub mod Return
pub mod Resume
pub mod Deletion
mod Tests
use pyboltzmann.Prelude.{
  ℕ, Bool, true, false, not, ◌&&◌, ◌||◌, Option, none, some, List, [], ◌∷◌, ◌++◌, map, filter, take,
  if◌then◌else◌,
}
use pyboltzmann.Prelude.Order.{◌==◌}
use pyboltzmann.Prelude.Sets.{contains}
use pyboltzmann.Prelude.Bytes.{bytes_order}
use pyboltzmann.Prelude.Dict.{Dict, get, put, pop, has_key}
use pyboltzmann.Prelude.Texts.{Text, codes, starts_with}
use pyboltzmann.Exceptions.{
  Result, ok, raise, ◌>>=◌, branch_error, branch_exists, branch_not_found, unmerged_branch,
  reconciliation_halted, snapshot_error, block_not_found,
}
use pyboltzmann.Identity.{OciDigest, oci_order}
use pyboltzmann.Identity.Digest.{parse}
use pyboltzmann.Branches.{validate_branch_name, tag_for, default_branch, default_tag}
use pyboltzmann.Reconcile.Ancestry.{Snapshot, History, is_resolvable}
use pyboltzmann.Brain.History.{reachable_from}

pub record Origin : Type 0 where
  pub reference : Text
  pub tag : Text
  pub snapshot : OciDigest
  pub partial : Bool

pub record BrainState : Type 0 where
  pub snapshot : OciDigest
  pub retained : List OciDigest
  pub origin : Option Origin

pub record BranchRef : Type 0 where
  pub snapshot : OciDigest
  pub tag : Text
  pub reference : Option Text
  pub origin : Option Origin

pub record RefTable : Type 0 where
  pub current : Text
  pub branches : Dict Text BranchRef
  pub switching : Option Text

-- The head pointer, the refs pointer, whether a reconciliation is open, the documents that are held, and
-- `policy.retained_roots`.
pub record Brain : Type 0 where
  pub state : Option BrainState
  pub refs : Option RefTable
  pub reconciling : Bool
  pub documents : History
  pub retained_roots : ℕ

-- `_branch_heads`
unfoldable pub heads_of : Dict Text BranchRef → List OciDigest
heads_of [] = []
heads_of ((_, ref) ∷ branches) = ref.snapshot ∷ heads_of branches

unfoldable pub branch_heads : Brain → List OciDigest
branch_heads b = elim b.refs [ none ↦ [] | some table ↦ heads_of table.branches ]

-- The loop over the candidates in `_write_head`.
unfoldable pub bound : OciDigest → List OciDigest → List OciDigest → List OciDigest → List OciDigest
bound digest pinned [] bounded = bounded
bound digest pinned (candidate ∷ candidates) bounded = bound digest pinned candidates (
    if contains candidate bounded || (contains candidate pinned && not (candidate == digest))
    then bounded
    else bounded ++ candidate ∷ [])

-- `[head for head in dict.fromkeys(pinned) if head not in bounded]`, with the heads that were taken.
unfoldable pub others : List OciDigest → List OciDigest → List OciDigest
others bounded [] = []
others bounded (head ∷ pinned) =
    if contains head bounded then others bounded pinned else head ∷ others (head ∷ bounded) pinned

unfoldable pub retained_before : Brain → List OciDigest
retained_before b = elim b.state [ none ↦ [] | some s ↦ s.retained ]

-- The new retained set: recent snapshots up to the bound, then every branch head.
unfoldable pub retained_set : ℕ → OciDigest → List OciDigest → List OciDigest → List OciDigest
retained_set roots digest pinned candidates =
    let bounded = take roots (bound digest pinned candidates []) in bounded ++ others bounded pinned

unfoldable pub write_head : Brain → OciDigest → Option Origin → List OciDigest → Brain
write_head b digest origin retain = record b {
  state = some (record {
    snapshot = digest;
    retained =
        retained_set b.retained_roots digest (branch_heads b)
          (digest ∷ retain ++ retained_before b);
    origin = origin;
  });
}

unfoldable pub write_refs : Brain → RefTable → Brain
write_refs b table = record b { refs = some table }

-- `_advance`, once the document of the new snapshot is stored.
unfoldable pub advance : Brain → OciDigest → Snapshot → Option Origin → List OciDigest → Brain
advance b digest snapshot origin retain =
    write_head (record b { documents = put digest snapshot b.documents }) digest
      (elim origin [ some o ↦ some o | none ↦ elim b.state [ none ↦ none | some s ↦ s.origin ] ])
      retain

-- The head pointer names the snapshot of a ref.
unfoldable pub is_at : Option BrainState → BranchRef → Bool
is_at none target = false
is_at (some s) target = s.snapshot == target.snapshot

-- `_read_refs`: a checkout that was interrupted is finished or undone.
unfoldable pub repaired : Option BrainState → RefTable → Text → RefTable
repaired state table name = elim (get name table.branches) [
  | none ↦ record table { switching = none }
  | some target ↦
      if is_at state target
      then record table { current = name; switching = none }
      else record table { switching = none }
]

unfoldable pub repair : Brain → Brain
repair b = elim b.refs [
  | none ↦ b
  | some table ↦ elim table.switching [
    | none ↦ b
    | some name ↦ write_refs b (repaired b.state table name)
  ]
]

-- `_refs`, on a brain whose table is repaired
unfoldable pub table_of : Brain → Result RefTable
table_of b = elim b.refs [
  | some table ↦ ok table
  | none ↦ elim b.state [
    | none ↦ raise branch_error
    | some s ↦ ok (record {
      current = default_branch;
      branches =
          (
            default_branch,
            record {
              snapshot = s.snapshot;
              tag = elim s.origin [ none ↦ default_tag | some o ↦ o.tag ];
              reference = elim s.origin [ none ↦ none | some o ↦ some o.reference ];
              origin = none;
            },
          )
          ∷ [];
      switching = none;
    })
  ]
]

-- The ref of the current branch, brought up to the head pointer.
unfoldable pub updated : BrainState → BranchRef → BranchRef
updated s ref = record ref {
  snapshot = s.snapshot;
  origin = s.origin;
  reference = elim s.origin [ none ↦ ref.reference | some o ↦ some o.reference ];
}

unfoldable pub current_ref : RefTable → BrainState → Result BranchRef
current_ref table s = elim (get table.current table.branches) [
  | some ref ↦ ok ref
  | none ↦ do
    tag ← tag_for table.current default_tag
    ok (record { snapshot = s.snapshot; tag = tag; reference = none; origin = none })
]

-- `_recorded`
unfoldable pub recorded : Brain → RefTable → Result RefTable
recorded b table = elim b.state [
  | none ↦ ok table
  | some s ↦ do
    ref ← current_ref table s
    ok (record table { branches = put table.current (updated s ref) table.branches })
]

-- `_recorded(self._refs())`, with the head pointer that `_refs` insists on
unfoldable pub recorded_refs : Brain → Result (RefTable × BrainState)
recorded_refs b = do
  table ← table_of b
  up_to_date ← recorded b table
  elim b.state [ none ↦ raise branch_error | some s ↦ ok (up_to_date, s) ]

unfoldable pub current_branch : Brain → Text
current_branch b = elim (repair b).refs [ none ↦ default_branch | some table ↦ table.current ]

-- What a method leaves behind, and its result.
abbrev pub Outcome {ℓ} : Type ℓ → Type ℓ
Outcome A = Brain × Result A

-- Where a new branch starts: the argument `at`.
pub data Start : Type 0 where
  at_head : Start
  named : Text → Start
  at_digest : OciDigest → Start

unfoldable pub held : Brain → OciDigest → Result OciDigest
held b digest = if is_resolvable b.documents digest then ok digest else raise snapshot_error

-- `_start_of`
unfoldable pub start_of : Brain → RefTable → BrainState → Start → Result OciDigest
start_of b table s at_head = ok s.snapshot
start_of b table s (named t) =
    if starts_with t (codes "sha256:")
    then (do raw ← parse t; held b (record { raw = raw }))
    else elim (get t table.branches) [ none ↦ raise branch_not_found | some ref ↦ ok ref.snapshot ]
start_of b table s (at_digest digest) = held b digest

-- The three pointer writes of `checkout`.
unfoldable pub begin_switch : Brain → RefTable → Text → Brain
begin_switch b table name = write_refs b (record table { switching = some name })

unfoldable pub move_head : Brain → BranchRef → Brain
move_head b target = write_head b target.snapshot target.origin []

unfoldable pub end_switch : Brain → RefTable → Text → Brain
end_switch b table name = write_refs b (record table { current = name; switching = none })

unfoldable pub switch : Brain → RefTable → Text → BranchRef → Brain
switch b table name target = end_switch (move_head (begin_switch b table name) target) table name

-- The document of the installed version is read last.
unfoldable pub install : Brain → OciDigest → Outcome OciDigest
install b digest =
    if is_resolvable b.documents digest then (b, ok digest) else (b, raise block_not_found)

unfoldable pub checkout_target : Brain → RefTable → Text → Option BranchRef → Outcome OciDigest
checkout_target b table name none = (b, raise branch_not_found)
checkout_target b table name (some target) = install (switch b table name target) target.snapshot

unfoldable pub checkout_from : Brain → Text → Result (RefTable × BrainState) → Outcome OciDigest
checkout_from b name (raise e) = (b, raise e)
checkout_from b name (ok (table, s)) =
    if name == table.current
    then (b, ok s.snapshot)
    else checkout_target b table name (get name table.branches)

unfoldable pub checkout : Brain → Text → Outcome OciDigest
checkout b name =
    if b.reconciling
    then (b, raise reconciliation_halted)
    else checkout_from (repair b) name (recorded_refs (repair b))

-- The ref of a new branch.
unfoldable pub new_ref : Brain → RefTable → BrainState → Text → Start → Result BranchRef
new_ref b table s name start = if has_key name table.branches then raise branch_exists else do
  digest ← start_of b table s start
  tag ← tag_for name default_tag
  ok (record {
    snapshot = digest;
    tag = tag;
    reference = elim (get table.current table.branches) [ none ↦ none | some ref ↦ ref.reference ];
    origin = none;
  })

unfoldable pub add_ref : Brain → RefTable → BrainState → Text → Result BranchRef → Outcome BranchRef
add_ref b table s name (raise e) = (b, raise e)
add_ref b table s name (ok ref) = (
  write_head (write_refs b (record table { branches = put name ref table.branches })) s.snapshot
      s.origin [],
  ok ref,
)

unfoldable pub create_from :
    Brain → Text → Start → Result (RefTable × BrainState) → Outcome BranchRef
create_from b name start (raise e) = (b, raise e)
create_from b name start (ok (table, s)) = add_ref b table s name (new_ref b table s name start)

unfoldable pub create_named : Brain → Start → Result Text → Outcome BranchRef
create_named b start (raise e) = (b, raise e)
create_named b start (ok name) = create_from (repair b) name start (recorded_refs (repair b))

-- `create_branch` without `checkout`
unfoldable pub create_branch : Brain → Text → Start → Outcome BranchRef
create_branch b name start = create_named b start (validate_branch_name name)

-- `ref.snapshot in self._reachable_from(digest)`
unfoldable pub is_within : Brain → OciDigest → OciDigest → Result Bool
is_within b digest snapshot = do
  found ← reachable_from b.documents digest
  ok (contains snapshot found)

-- `any(...)` over the other branches
unfoldable pub contained : Brain → OciDigest → Text → Dict Text BranchRef → Result Bool
contained b snapshot name [] = ok false
contained b snapshot name ((other, ref) ∷ branches) =
    let rest = contained b snapshot name branches in
    if other == name
    then rest
    else do here ← is_within b ref.snapshot snapshot; if here then ok true else rest

unfoldable pub published : Brain → BranchRef → Result Bool
published b ref = elim ref.origin [ none ↦ ok false | some o ↦ is_within b o.snapshot ref.snapshot ]

unfoldable pub is_deletable : Brain → RefTable → BranchRef → Text → Bool → Result Bool
is_deletable b table ref name force =
    if force
    then ok true
    else do p ← published b ref; c ← contained b ref.snapshot name table.branches; ok (p || c)

unfoldable pub remove_ref : Brain → RefTable → BrainState → Text → Result Bool → Outcome (Unit {0})
remove_ref b table s name (raise e) = (b, raise e)
remove_ref b table s name (ok false) = (b, raise unmerged_branch)
remove_ref b table s name (ok true) = (
  write_head (write_refs b (record table { branches = pop name table.branches })) s.snapshot
      s.origin [],
  ok tt,
)

unfoldable pub delete_ref :
    Brain → RefTable → BrainState → Text → Bool → Option BranchRef → Outcome (Unit {0})
delete_ref b table s name force none = (b, raise branch_not_found)
delete_ref b table s name force (some ref) =
    if name == table.current
    then (b, raise branch_error)
    else remove_ref b table s name (is_deletable b table ref name force)

unfoldable pub delete_from :
    Brain → Text → Bool → Result (RefTable × BrainState) → Outcome (Unit {0})
delete_from b name force (raise e) = (b, raise e)
delete_from b name force (ok (table, s)) = delete_ref b table s name force (get name table.branches)

unfoldable pub delete_branch : Brain → Text → Bool → Outcome (Unit {0})
delete_branch b name force = delete_from (repair b) name force (recorded_refs (repair b))
