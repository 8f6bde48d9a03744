-- ===== src/Brain/Branching/Tests.antt =====
-- A brain with a merge in its history: branches are made, checked out and deleted.
use pyboltzmann.Prelude.{ℕ, ◌≡◌, refl, true, false, Option, none, some, List, [], ◌∷◌, ◌++◌, arith}
use pyboltzmann.Prelude.Order.{◌==◌}
use pyboltzmann.Prelude.Sets.{contains}
use pyboltzmann.Prelude.Bytes.{bytes_lt, bytes_order}
use pyboltzmann.Prelude.Dict.{get, put, pop, has_key}
use pyboltzmann.Prelude.Texts.{Text, codes, starts_with}
use pyboltzmann.Exceptions.{ok, raise, unmerged_branch, branch_error}
use pyboltzmann.Identity.{OciDigest, oci_order}
use pyboltzmann.Branches.{validate_branch_name, tag_for}
use pyboltzmann.Reconcile.Ancestry.{Snapshot, History, is_resolvable}
use pyboltzmann.Brain.History.{add_parents, reachable_loop, all_parents, reachable_from}
use pyboltzmann.Brain.Branching
use pyboltzmann.Brain.Branching.{Brain, BrainState, BranchRef, RefTable, at_head, named, at_digest}
use pyboltzmann.Brain.Branching.Pinned.{IsKept}
use pyboltzmann.Brain.Branching.Kept.{run, run-IsKept, advance_op, create_op, checkout_op}
use pyboltzmann.Brain.Branching.Resume.{begun, checkout_resumed}
use pyboltzmann.Brain.Branching.Return.{IsAt, checkout_back}
use pyboltzmann.Brain.Branching.Deletion.{Deleted, delete_branch-Deleted}

program : Unit {0}
unfolding contains ◌==◌ bytes_lt get put pop has_key starts_with is_resolvable add_parents
    reachable_loop all_parents reachable_from validate_branch_name tag_for Branching.heads_of
    Branching.branch_heads Branching.bound Branching.others Branching.retained_before
    Branching.retained_set Branching.write_head Branching.write_refs Branching.advance
    Branching.is_at Branching.repaired Branching.repair Branching.table_of Branching.updated
    Branching.current_ref Branching.recorded Branching.recorded_refs Branching.current_branch
    Branching.held Branching.start_of Branching.begin_switch Branching.move_head
    Branching.end_switch Branching.switch Branching.install Branching.checkout_target
    Branching.checkout_from Branching.checkout Branching.new_ref Branching.add_ref
    Branching.create_from Branching.create_named Branching.create_branch Branching.is_within
    Branching.contained Branching.published Branching.is_deletable Branching.remove_ref
    Branching.delete_ref Branching.delete_from Branching.delete_branch
program = tt

abbrev at : ℕ → OciDigest
at n = record { raw = n ∷ [] }

abbrev after : List OciDigest → Snapshot
after parents = record { parents = parents }

abbrev merged : History
merged =
    (at 1, after [])
    ∷ (at 2, after (at 1 ∷ []))
    ∷ (at 3, after (at 1 ∷ []))
    ∷ (at 4, after (at 2 ∷ at 3 ∷ []))
    ∷ []

abbrev head : BrainState
head = record { snapshot = at 4; retained = at 4 ∷ at 3 ∷ []; origin = none }

abbrev main : Text
main = codes "main"

abbrev dev : Text
dev = codes "dev"

abbrev ref_at : ℕ → BranchRef
ref_at n = record { snapshot = at n; tag = codes "latest"; reference = none; origin = none }

abbrev dev_ref : BranchRef
dev_ref = record { snapshot = at 2; tag = codes "br.dev"; reference = none; origin = none }

abbrev alone : Brain
alone = record {
  state = some head;
  refs = none;
  reconciling = false;
  documents = merged;
  retained_roots = 2;
}

abbrev table : RefTable
table = record {
  current = main;
  branches = (main, ref_at 4) ∷ (dev, dev_ref) ∷ [];
  switching = none;
}

abbrev two : Brain
two = record {
  state = some head;
  refs = some table;
  reconciling = false;
  documents = merged;
  retained_roots = 2;
}

created : (Branching.create_branch alone dev (at_digest (at 2))).1 ≡ ok dev_ref
unfolding program pyboltzmann.Prelude.Texts.replace
created = refl

-- The work of `dev` goes on, so its ref is its only name.
unmerged :
    (Branching.delete_branch
      (run alone (
        create_op dev (at_digest (at 2))
        ∷ checkout_op dev
        ∷ advance_op (at 5) (after (at 2 ∷ [])) none []
        ∷ checkout_op main
        ∷ []))
      dev
      false).1
    ≡ raise unmerged_branch
unfolding program
unmerged = refl

current : (Branching.delete_branch two main true).1 ≡ raise branch_error
unfolding program
current = refl

alone-IsKept : IsKept alone
unfolding program
alone-IsKept = record {
  heads = λ d m. absurd (ground arith);
  head = λ s e. ground arith;
  roots = omega arith;
}

run-IsKept_example : IsKept (run alone (create_op dev (at_digest (at 2)) ∷ checkout_op dev ∷ []))
run-IsKept_example =
    run-IsKept alone (create_op dev (at_digest (at 2)) ∷ checkout_op dev ∷ []) alone-IsKept

deleted : Branching.delete_branch two dev false ≡ ((Branching.delete_branch two dev false).0, ok tt)
unfolding program
deleted = refl

delete_branch-Deleted_example : Deleted two dev (Branching.delete_branch two dev false).0
delete_branch-Deleted_example =
    delete_branch-Deleted two (Branching.delete_branch two dev false).0 dev deleted

dev_found : get dev table.branches ≡ some dev_ref
unfolding program
dev_found = refl

recorded : Branching.recorded_refs (Branching.repair two) ≡ ok (table, head)
unfolding program
recorded = refl

dev_other : (dev == main) ≡ false
unfolding program
dev_other = refl

both_held :
    (is_resolvable (Branching.repair two).documents (at 2) ≡ true)
    × (is_resolvable (Branching.repair two).documents (at 4) ≡ true)
unfolding program
both_held = (refl, refl)

elsewhere : Branching.is_at (Branching.repair two).state dev_ref ≡ false
unfolding program
elsewhere = refl

checkout_resumed_example :
    Branching.checkout (Branching.begin_switch (Branching.repair two) table dev) dev
    ≡ Branching.checkout two dev
checkout_resumed_example =
    checkout_resumed two table head dev dev_ref
      (Branching.begin_switch (Branching.repair two) table dev) refl recorded dev_other dev_found
      both_held.0 (begun elsewhere)

checkout_back_example :
    (there : Brain) × (Branching.checkout two dev ≡ (there, ok (at 2)))
    × IsAt there dev (at 2) none
    × (back : Brain) × (Branching.checkout there main ≡ (back, ok (at 4)))
    × IsAt back main (at 4) none
checkout_back_example =
    checkout_back two table head dev dev_ref refl recorded dev_other dev_found both_held.0
      both_held.1
