-- ===== src/Brain/Branching/Deletion.antt =====
-- `delete_branch` of brain.py does not lose work.
use pyboltzmann.Prelude.{
  ◌≡◌, refl, ap, sym, ◌∙◌, inl, inr, Bool, true, false, ◌||◌, Option, none, some, [], ◌∷◌, arith,
  Bool-cases, Option-cases, In, here, there, if◌then◌else◌,
}
use pyboltzmann.Prelude.Order.{◌==◌}
use pyboltzmann.Prelude.Sets.{contains}
use pyboltzmann.Prelude.Bytes.{bytes_order}
use pyboltzmann.Prelude.Dict.{Dict, get, pop}
use pyboltzmann.Prelude.Texts.{Text}
use pyboltzmann.Exceptions.{Exception, Result, ok, raise, branch_error, branch_not_found}
use pyboltzmann.Identity.{OciDigest, oci_order}
use pyboltzmann.Brain.History.Laws.{Reaches, reachable_from-Reaches}
use pyboltzmann.Brain.Branching
use pyboltzmann.Brain.Branching.{Brain, BrainState, BranchRef, RefTable, Origin}

-- The work of a ref is named elsewhere: by what was published of it, or by another branch.
pub data IsNamed (b : Brain) (table : RefTable) (name : Text) (ref : BranchRef) : Type 0 where
  by_origin :
      (o : Origin)
      → ref.origin ≡ some o
      → Reaches b.documents o.snapshot ref.snapshot
      → IsNamed b table name ref
  by_branch :
      (other : Text) (its : BranchRef)
      → (other == name) ≡ false
      → In (other, its) table.branches
      → Reaches b.documents its.snapshot ref.snapshot
      → IsNamed b table name ref

is_within-Reaches :
    (b : Brain) (digest snapshot : OciDigest)
    → (answer : Bool) × (Branching.is_within b digest snapshot ≡ ok answer)
      × (answer ≡ true → Reaches b.documents digest snapshot)
unfolding Branching.is_within
is_within-Reaches b digest snapshot =
    let (found, run, exact) = reachable_from-Reaches b.documents digest in
    (contains snapshot found, rw run refl, (exact snapshot).0)

contained-In :
    (b : Brain) (snapshot : OciDigest) (name : Text) (branches : Dict Text BranchRef)
    → (answer : Bool) × (Branching.contained b snapshot name branches ≡ ok answer)
      × (answer ≡ true
          → (other : Text) × (its : BranchRef) × ((other == name) ≡ false)
            × In (other, its) branches
            × Reaches b.documents its.snapshot snapshot)
unfolding Branching.contained
contained-In b snapshot name [] = (false, refl, λ e. absurd (ground arith))
contained-In b snapshot name ((other, its) ∷ branches) =
    let (rest, run, found) = contained-In b snapshot name branches in
    let (here?, walk, within) = is_within-Reaches b its.snapshot snapshot in
    elim (Bool-cases (other == name)) [
      | inl e ↦ (
        rest,
        rw (e, Branching.contained) run,
        λ q. let (o, i, n, m, r) = found q in (o, i, n, there m, r),
      )
      | inr n ↦ elim (Bool-cases here?) [
        | inl is_here ↦ (
          true,
          rw (n, walk, is_here, Branching.contained) refl,
          λ q. (other, its, n, here, within is_here),
        )
        | inr elsewhere ↦ (
          rest,
          rw (n, walk, elsewhere, Branching.contained) run,
          λ q. let (o, i, k, m, r) = found q in (o, i, k, there m, r),
        )
      ]
    ]

published-Reaches :
    (b : Brain) (ref : BranchRef)
    → (answer : Bool) × (Branching.published b ref ≡ ok answer)
      × (answer ≡ true
          → (o : Origin) × (ref.origin ≡ some o) × Reaches b.documents o.snapshot ref.snapshot)
unfolding Branching.published
published-Reaches b ref = elim (Option-cases ref.origin) [
  | inl e ↦ (false, rw (e, Branching.published) refl, λ q. absurd (ground arith))
  | inr (o, e) ↦
      let (answer, run, within) = is_within-Reaches b o.snapshot ref.snapshot in
      (answer, rw (e, Branching.published) run, λ q. (o, e, within q))
]

-- Whether a branch may be deleted is decided, and only for work that is named elsewhere, unless forced.
is_deletable-IsNamed :
    (b : Brain) (table : RefTable) (ref : BranchRef) (name : Text)
    → (answer : Bool) × (Branching.is_deletable b table ref name false ≡ ok answer)
      × (answer ≡ true → IsNamed b table name ref)
unfolding Branching.is_deletable
is_deletable-IsNamed b table ref name =
    let (p, published, from_origin) = published-Reaches b ref in
    let (c, contained, from_branch) = contained-In b ref.snapshot name table.branches in
    (
      p || c,
      rw published (rw contained refl),
      λ q. elim (Bool-cases p) [
        | inl e ↦ let (o, i, r) = from_origin e in by_origin o i r
        | inr n ↦
            let (other, its, k, m, r) = from_branch (ground arith) in by_branch other its k m r
      ],
    )

-- What is left of a brain when a branch was deleted.
pub record Deleted (b : Brain) (name : Text) (c : Brain) : Type 0 where
  pub table : RefTable
  pub state : BrainState
  pub ref : BranchRef
  pub before : Branching.recorded_refs (Branching.repair b) ≡ ok (table, state)
  pub found : get name table.branches ≡ some ref
  pub other : (name == table.current) ≡ false
  pub kept : IsNamed (Branching.repair b) table name ref
  pub refs : c.refs ≡ some (record table { branches = pop name table.branches })

remove_ref_ok :
    (b c : Brain) (table : RefTable) (s : BrainState) (name : Text) (answer : Bool)
    → Branching.remove_ref b table s name (ok answer) ≡ (c, ok tt)
    → (answer ≡ true) × (c.refs ≡ some (record table { branches = pop name table.branches }))
unfolding Branching.remove_ref Branching.write_head Branching.write_refs
remove_ref_ok b c table s name true h = (refl, ap (λ o. o.0.refs) (sym h))
remove_ref_ok b c table s name false h = absurd (ground arith)

raised :
    (b c : Brain) (e : Exception)
    → ◌≡◌ {A = Branching.Outcome (Unit {0})} (b, raise e) (c, ok tt)
    → ⊥
raised b c e h = ground arith

abbrev IsRemoved : Brain → RefTable → Text → Type 0
IsRemoved c table name = c.refs ≡ some (record table { branches = pop name table.branches })

remove_ref-IsNamed :
    (b c : Brain) (table : RefTable) (s : BrainState) (name : Text) (ref : BranchRef)
    → Branching.remove_ref b table s name (Branching.is_deletable b table ref name false)
      ≡ (c, ok tt)
    → IsNamed b table name ref × IsRemoved c table name
remove_ref-IsNamed b c table s name ref h =
    let (answer, decided, named) = is_deletable-IsNamed b table ref name in
    let (deletable, removed) =
      remove_ref_ok b c table s name answer
        (sym (ap (λ r. Branching.remove_ref b table s name r) decided) ∙ h) in
    (named deletable, removed)

delete_ref_ok :
    (b c : Brain) (table : RefTable) (s : BrainState) (name : Text) (found : Option BranchRef)
    → Branching.delete_ref b table s name false found ≡ (c, ok tt)
    → (ref : BranchRef) × (found ≡ some ref)
      × ((name == table.current) ≡ false)
      × IsNamed b table name ref
      × IsRemoved c table name
unfolding Branching.delete_ref
delete_ref_ok b c table s name none h = absurd (raised b c branch_not_found h)
delete_ref_ok b c table s name (some ref) h =
    let deciding =
      Branching.remove_ref b table s name (Branching.is_deletable b table ref name false) in
    elim (Bool-cases (name == table.current)) [
      | inl same ↦ absurd (
          raised b c branch_error
            (sym (ap (λ t. if t then (b, raise branch_error) else deciding) same) ∙ h))
      | inr n ↦
          let (named, removed) =
            remove_ref-IsNamed b c table s name ref
              (sym (ap (λ t. if t then (b, raise branch_error) else deciding) n) ∙ h) in
          (ref, refl, n, named, removed)
    ]

delete_from_ok :
    (b c : Brain) (name : Text) (r : Result (RefTable × BrainState))
    → Branching.delete_from b name false r ≡ (c, ok tt)
    → (table : RefTable) × (s : BrainState) × (r ≡ ok (table, s))
      × (Branching.delete_ref b table s name false (get name table.branches) ≡ (c, ok tt))
unfolding Branching.delete_from
delete_from_ok b c name (raise e) h = absurd (raised b c e h)
delete_from_ok b c name (ok (table, s)) h = (table, s, refl, h)

-- A deletion that was not forced and succeeded removed only the ref of a branch that was not current, whose
-- head is still reachable from the head of another branch or from what was published of it.
pub delete_branch-Deleted :
    (b c : Brain) (name : Text)
    → Branching.delete_branch b name false ≡ (c, ok tt)
    → Deleted b name c
unfolding Branching.delete_branch
delete_branch-Deleted b c name h =
    let d = Branching.repair b in
    let (table, s, before, removing) = delete_from_ok d c name (Branching.recorded_refs d) h in
    let (ref, found, other, named, removed) =
      delete_ref_ok d c table s name (get name table.branches) removing in
    record {
      table = table;
      state = s;
      ref = ref;
      before = before;
      found = found;
      other = other;
      kept = named;
      refs = removed;
    }
