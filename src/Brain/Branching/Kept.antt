-- ===== src/Brain/Branching/Kept.antt =====
-- brain.py: each operation on branches keeps the heads retained.
use pyboltzmann.Prelude.{Bool, true, false, Option, none, some, List, [], ◌∷◌, if◌then◌else◌}
use pyboltzmann.Prelude.Order.{◌==◌}
use pyboltzmann.Prelude.Bytes.{bytes_order}
use pyboltzmann.Prelude.Dict.{get, put, pop}
use pyboltzmann.Prelude.Texts.{Text}
use pyboltzmann.Exceptions.{Result, ok, raise, reconciliation_halted, branch_error}
use pyboltzmann.Identity.{OciDigest, oci_order}
use pyboltzmann.Reconcile.Ancestry.{Snapshot}
use pyboltzmann.Branches.{validate_branch_name}
use pyboltzmann.Brain.Branching
use pyboltzmann.Brain.Branching.{Brain, BrainState, BranchRef, RefTable, Origin, Start}
use pyboltzmann.Brain.Branching.Pinned.{
  IsKept, write_head-IsKept, repair-IsKept, end_switch-IsKept, install-IsKept,
}

-- A condition that both sides of a test meet.
if_either {ℓ κ} :
    {A : Type ℓ} (P : A → Type κ) (c : Bool) (x y : A) → P x → P y → P (if c then x else y)
if_either P true x y p q = p
if_either P false x y p q = q

abbrev KeepsAll {ℓ} : {A : Type ℓ} → Branching.Outcome A → Type 0
KeepsAll outcome = IsKept outcome.0

checkout_target-IsKept :
    (b : Brain) (table : RefTable) (name : Text) (found : Option BranchRef)
    → IsKept b
    → KeepsAll (Branching.checkout_target b table name found)
unfolding Branching.checkout_target Branching.switch Branching.move_head
checkout_target-IsKept b table name none k = k
checkout_target-IsKept b table name (some target) k =
    install-IsKept (Branching.switch b table name target) target.snapshot
      (end_switch-IsKept b table name target.snapshot target.origin k.roots)

checkout_from-IsKept :
    (b : Brain) (name : Text) (r : Result (RefTable × BrainState))
    → IsKept b
    → KeepsAll (Branching.checkout_from b name r)
unfolding Branching.checkout_from
checkout_from-IsKept b name (raise e) k = k
checkout_from-IsKept b name (ok (table, s)) k =
    if_either KeepsAll (name == table.current) (b, ok s.snapshot)
      (Branching.checkout_target b table name (get name table.branches)) k
      (checkout_target-IsKept b table name (get name table.branches) k)

checkout-IsKept : (b : Brain) (name : Text) → IsKept b → IsKept (Branching.checkout b name).0
unfolding Branching.checkout
checkout-IsKept b name k =
    if_either KeepsAll b.reconciling (b, raise reconciliation_halted)
      (Branching.checkout_from (Branching.repair b) name
        (Branching.recorded_refs (Branching.repair b)))
      k
      (checkout_from-IsKept (Branching.repair b) name (Branching.recorded_refs (Branching.repair b))
        (repair-IsKept b k))

add_ref-IsKept :
    (b : Brain) (table : RefTable) (s : BrainState) (name : Text) (r : Result BranchRef)
    → IsKept b
    → KeepsAll (Branching.add_ref b table s name r)
unfolding Branching.add_ref Branching.write_refs
add_ref-IsKept b table s name (raise e) k = k
add_ref-IsKept b table s name (ok ref) k =
    write_head-IsKept
      (Branching.write_refs b (record table { branches = put name ref table.branches })) s.snapshot
      s.origin [] k.roots

create_from-IsKept :
    (b : Brain) (name : Text) (start : Start) (r : Result (RefTable × BrainState))
    → IsKept b
    → KeepsAll (Branching.create_from b name start r)
unfolding Branching.create_from
create_from-IsKept b name start (raise e) k = k
create_from-IsKept b name start (ok (table, s)) k =
    add_ref-IsKept b table s name (Branching.new_ref b table s name start) k

create_named-IsKept :
    (b : Brain) (start : Start) (r : Result Text)
    → IsKept b
    → KeepsAll (Branching.create_named b start r)
unfolding Branching.create_named
create_named-IsKept b start (raise e) k = k
create_named-IsKept b start (ok name) k =
    create_from-IsKept (Branching.repair b) name start
      (Branching.recorded_refs (Branching.repair b)) (repair-IsKept b k)

create_branch-IsKept :
    (b : Brain) (name : Text) (start : Start)
    → IsKept b
    → IsKept (Branching.create_branch b name start).0
unfolding Branching.create_branch
create_branch-IsKept b name start k = create_named-IsKept b start (validate_branch_name name) k

remove_ref-IsKept :
    (b : Brain) (table : RefTable) (s : BrainState) (name : Text) (r : Result Bool)
    → IsKept b
    → KeepsAll (Branching.remove_ref b table s name r)
unfolding Branching.remove_ref Branching.write_refs
remove_ref-IsKept b table s name (raise e) k = k
remove_ref-IsKept b table s name (ok false) k = k
remove_ref-IsKept b table s name (ok true) k =
    write_head-IsKept (Branching.write_refs b (record table { branches = pop name table.branches }))
      s.snapshot s.origin [] k.roots

delete_ref-IsKept :
    (b : Brain) (table : RefTable) (s : BrainState) (name : Text) (force : Bool)
    (found : Option BranchRef)
    → IsKept b
    → KeepsAll (Branching.delete_ref b table s name force found)
unfolding Branching.delete_ref
delete_ref-IsKept b table s name force none k = k
delete_ref-IsKept b table s name force (some ref) k =
    if_either KeepsAll (name == table.current) (b, raise branch_error)
      (Branching.remove_ref b table s name (Branching.is_deletable b table ref name force)) k
      (remove_ref-IsKept b table s name (Branching.is_deletable b table ref name force) k)

delete_from-IsKept :
    (b : Brain) (name : Text) (force : Bool) (r : Result (RefTable × BrainState))
    → IsKept b
    → KeepsAll (Branching.delete_from b name force r)
unfolding Branching.delete_from
delete_from-IsKept b name force (raise e) k = k
delete_from-IsKept b name force (ok (table, s)) k =
    delete_ref-IsKept b table s name force (get name table.branches) k

delete_branch-IsKept :
    (b : Brain) (name : Text) (force : Bool)
    → IsKept b
    → IsKept (Branching.delete_branch b name force).0
unfolding Branching.delete_branch
delete_branch-IsKept b name force k =
    delete_from-IsKept (Branching.repair b) name force
      (Branching.recorded_refs (Branching.repair b)) (repair-IsKept b k)

-- What is done to a brain from outside.
pub data Op : Type 0 where
  advance_op : OciDigest → Snapshot → Option Origin → List OciDigest → Op
  create_op : Text → Start → Op
  checkout_op : Text → Op
  delete_op : Text → Bool → Op
  reopen_op : Op

abbrev pub apply : Brain → Op → Brain
apply b (advance_op digest snapshot origin retain) =
    Branching.advance b digest snapshot origin retain
apply b (create_op name start) = (Branching.create_branch b name start).0
apply b (checkout_op name) = (Branching.checkout b name).0
apply b (delete_op name force) = (Branching.delete_branch b name force).0
apply b reopen_op = Branching.repair b

abbrev pub run : Brain → List Op → Brain
run b [] = b
run b (op ∷ ops) = run (apply b op) ops

apply-IsKept : (b : Brain) (op : Op) → IsKept b → IsKept (apply b op)
unfolding Branching.advance
apply-IsKept b (advance_op digest snapshot origin retain) k =
    write_head-IsKept (record b { documents = put digest snapshot b.documents }) digest
      (elim origin [ some o ↦ some o | none ↦ elim b.state [ none ↦ none | some s ↦ s.origin ] ])
      retain k.roots
apply-IsKept b (create_op name start) k = create_branch-IsKept b name start k
apply-IsKept b (checkout_op name) k = checkout-IsKept b name k
apply-IsKept b (delete_op name force) k = delete_branch-IsKept b name force k
apply-IsKept b reopen_op k = repair-IsKept b k

-- If the head and the head of every branch are among the retained snapshots, and the policy retains at least
-- one, they stay so through any sequence of commits, new branches, checkouts, deletions and reopenings,
-- whether these succeed or are refused.
pub run-IsKept : (b : Brain) (ops : List Op) → IsKept b → IsKept (run b ops)
run-IsKept b [] k = k
run-IsKept b (op ∷ ops) k = run-IsKept (apply b op) ops (apply-IsKept b op k)
