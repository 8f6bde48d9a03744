-- ===== src/Retention/Plan/Laws.antt =====
-- What the plans of retention/cascade.py drop, and that no reference to a dropped block is left.
use mathlib.Core.Path.{subst}
use pyboltzmann.Prelude.{
  true, false, not, ◌&&◌, ◌||◌, Option, some, List, [], ◌∷◌, ◌≡◌, ◌≢◌, ◌↔◌, ◌⊎◌, refl, ap, sym, ◌∙◌,
  arith, inl, inr, Bool-cases, List-cases, false≢true,
}
use pyboltzmann.Prelude.Order.{◌==◌, ==_sound, ==_refl}
use pyboltzmann.Prelude.Sets.{contains, contains-append, difference, contains-difference}
use pyboltzmann.Prelude.Sorting.{sorted_set, contains-sorted_set}
use pyboltzmann.Exceptions.{ok}
use pyboltzmann.Identity.{BlockId, block_order}
use pyboltzmann.Blocks.MemoryType.{MemoryType, is_same}
use pyboltzmann.Module.Ledger.{Ledger}
use pyboltzmann.Retention.Cascade.{
  ByModule, ReferenceIndex, Modules, flatten, update_all, reference_index,
}
use pyboltzmann.Retention.Cascade.Walk.{contains-update_all, pointing_at}
use pyboltzmann.Retention.Cascade.Laws.{Falls, follows, points, dependents_of_drop-Falls}
use pyboltzmann.Retention.Plan.{
  CascadePlan, sort_each, plan_over, plan_cascade, plan_each, merge_dependents, exclude,
  without_empty, first_of, plan_many, rederivable_of, edges_of, merge_rederivable, merge_edges,
}

contains-sort_each :
    (x : BlockId) (d : ByModule) → contains x (flatten (sort_each d)) ≡ contains x (flatten d)
unfolding sort_each flatten
contains-sort_each x [] = refl
contains-sort_each x ((kind, blocks) ∷ d) = ground (
  arith,
  contains-sort_each x d,
  contains-sorted_set x blocks,
  contains-append x blocks (flatten d),
  contains-append x (sorted_set blocks) (flatten (sort_each d)),
)

contains-exclude :
    (x : BlockId) (dropped : List BlockId) (d : ByModule)
    → contains x (flatten (exclude dropped d))
      ≡ (contains x (flatten d) && not (contains x dropped))
unfolding exclude flatten contains
contains-exclude x dropped [] = refl
contains-exclude x dropped ((kind, blocks) ∷ d) = ground (
  arith,
  contains-exclude x dropped d,
  contains-difference x blocks dropped,
  contains-append x blocks (flatten d),
  contains-append x (difference blocks dropped) (flatten (exclude dropped d)),
)

contains-without_empty :
    (x : BlockId) (d : ByModule) → contains x (flatten (without_empty d)) ≡ contains x (flatten d)
unfolding without_empty flatten contains
contains-without_empty x [] = refl
contains-without_empty x ((kind, []) ∷ d) = contains-without_empty x d
contains-without_empty x ((kind, b ∷ bs) ∷ d) = ground (
  arith,
  contains-without_empty x d,
  contains-append x bs (flatten d),
  contains-append x bs (flatten (without_empty d)),
)

first_of-sorted_set :
    (origin : BlockId) (others : List BlockId)
    → (first : BlockId) × (first_of (sorted_set (origin ∷ others)) ≡ ok first)
unfolding first_of contains
first_of-sorted_set origin others = elim (List-cases (sorted_set (origin ∷ others))) [
  | inl e ↦
      let held : contains origin (sorted_set (origin ∷ others)) ≡ true =
        ground (arith, contains-sorted_set origin (origin ∷ others), ==_refl origin) in
      absurd (false≢true (sym (ap (contains origin) e) ∙ held))
  | inr (y, ys, e) ↦ (y, ap first_of e)
]

module _ (memory_type : MemoryType) (modules : Modules) (l : Ledger) (replacement : Option BlockId)
    (structural : ReferenceIndex) where
  -- The plan of one drop is always made, and drops exactly what falls with the block.
  pub plan_cascade-Falls :
      (origin : BlockId)
      → (plan : CascadePlan) × (plan_cascade origin memory_type modules l replacement
            (some structural)
          ≡ ok plan)
        × ((b : BlockId)
            → (contains b (flatten plan.dependents) ≡ true) ↔ Falls modules l structural origin b)
  unfolding plan_cascade plan_over
  plan_cascade-Falls origin =
      let (d, run, falls) = dependents_of_drop-Falls modules l structural origin in
      (
        plan_of d,
        rw run refl,
        λ b.
            let same = contains-sort_each b d in
            ((λ h. (falls b).0 (sym same ∙ h)), (λ f. same ∙ (falls b).1 f)),
      )
    where
      plan_of : ByModule → CascadePlan
      plan_of d = record {
        origin = origin;
        origin_memory_type = memory_type;
        privileged = is_same memory_type MemoryType.canonical;
        dependents = sort_each d;
        rederivable = rederivable_of l origin replacement (flatten d);
        provenance_edges = edges_of l (sorted_set (flatten d));
      }

  -- A block falls with one of several.
  abbrev pub FallsWith : List BlockId → BlockId → Type 0
  FallsWith origins b = (o : BlockId) × (contains o origins ≡ true) × Falls modules l structural o b

  plan_each-Falls :
      (os : List BlockId) (d : ByModule)
      → (plans : List CascadePlan) × (plan_each os memory_type modules l replacement structural
          ≡ ok plans)
        × ((b : BlockId)
            → (contains b (flatten (merge_dependents plans d)) ≡ true)
              ↔ ((contains b (flatten d) ≡ true) ⊎ FallsWith os b))
  unfolding plan_each merge_dependents contains
  plan_each-Falls [] d =
      ([], refl, λ b. (inl, elim [ inl h ↦ h | inr (o, h, f) ↦ absurd (false≢true h) ]))
  plan_each-Falls (o ∷ os) d =
      let (p, run, falls) = plan_cascade-Falls o in
      let grown : ByModule = update_all p.dependents d in
      let (plans, runs, rest) = plan_each-Falls os grown in
      let what : (b : BlockId)
          → contains b (flatten grown)
            ≡ (contains b (flatten d) || contains b (flatten p.dependents)) =
        λ b. contains-update_all b p.dependents d in
      (
        p ∷ plans,
        rw (run, runs) refl,
        λ b. (
          (λ h. elim ((rest b).0 h) [
            | inl k ↦ elim (Bool-cases (contains b (flatten d))) [
              | inl e ↦ inl e
              | inr n ↦ inr (o, ground (arith, ==_refl o), (falls b).0 (ground (arith, what b)))
            ]
            | inr (q, m, f) ↦ inr (q, ground arith, f)
          ]),
          elim [
            | inl h ↦ (rest b).1 (inl (ground (arith, what b)))
            | inr (q, m, f) ↦ elim (Bool-cases (q == o)) [
              | inl e ↦
                  let moved = subst (λ x. Falls modules l structural x b) (==_sound q o e) f in
                  let held = (falls b).1 moved in (rest b).1 (inl (ground (arith, what b, held)))
              | inr n ↦ (rest b).1 (inr (q, ground arith, f))
            ]
          ],
        ),
      )

  -- With the structural edges of the modules, the plan of a commit that drops some blocks is made, and
  -- its dependents are exactly what falls with one of them and is not dropped outright.
  pub plan_many-Falls :
      (origin : BlockId) (others : List BlockId)
      → reference_index modules ≡ ok structural
      → (plan : CascadePlan) × (plan_many (origin ∷ others) memory_type modules l replacement
          ≡ ok plan)
        × ((b : BlockId)
            → (contains b (flatten plan.dependents) ≡ true)
              ↔ ((contains b (origin ∷ others) ≡ false) × FallsWith (origin ∷ others) b))
  unfolding plan_many contains flatten
  plan_many-Falls origin others h =
      let ordered : List BlockId = sorted_set (origin ∷ others) in
      let (plans, runs, rest) = plan_each-Falls ordered [] in
      let (first, firsts) = first_of-sorted_set origin others in
      let merged : ByModule = merge_dependents plans [] in
      let what : (b : BlockId)
          → contains b (flatten (sort_each (without_empty (exclude ordered merged))))
            ≡ (contains b (flatten merged) && not (contains b (origin ∷ others))) =
        λ b.
          contains-sort_each b (without_empty (exclude ordered merged))
          ∙ contains-without_empty b (exclude ordered merged)
          ∙ contains-exclude b ordered merged
          ∙ ap (λ t. contains b (flatten merged) && not t)
              (contains-sorted_set b (origin ∷ others)) in
      (
        record {
          origin = first;
          origin_memory_type = memory_type;
          privileged = is_same memory_type MemoryType.canonical;
          dependents = sort_each (without_empty (exclude ordered merged));
          rederivable = sorted_set (merge_rederivable plans);
          provenance_edges = sorted_set (merge_edges plans);
        },
        rw (h, runs, firsts) refl,
        λ b. (
          (λ k. elim ((rest b).0 (ground (arith, what b))) [
            | inl nil ↦ absurd (false≢true nil)
            | inr (q, m, f) ↦
                (ground (arith, what b), (q, sym (contains-sorted_set q (origin ∷ others)) ∙ m, f))
          ]),
          (λ (n, (q, m, f)).
              let dropped = (rest b).1 (inr (q, contains-sorted_set q (origin ∷ others) ∙ m, f)) in
              ground (arith, what b, dropped)),
        ),
      )

  -- A commit that drops the planned blocks leaves no reference to them: what points at a block that is
  -- dropped, outright or as a dependent, is dropped too.
  pub plan_many_no_dangling :
      (origin : BlockId) (others : List BlockId) (plan : CascadePlan)
      → reference_index modules ≡ ok structural
      → plan_many (origin ∷ others) memory_type modules l replacement ≡ ok plan
      → (b c : BlockId)
      → (contains b (origin ∷ others) || contains b (flatten plan.dependents)) ≡ true
      → contains c (pointing_at structural b) ≡ true
      → (contains c (origin ∷ others) || contains c (flatten plan.dependents)) ≡ true
  plan_many_no_dangling origin others plan h run b c gone p =
      let (made, runs, falls) = plan_many-Falls origin others h in
      let same : made ≡ plan = ground (arith, run, runs) in
      let exact : (x : BlockId)
          → (contains x (flatten plan.dependents) ≡ true)
            ↔ ((contains x (origin ∷ others) ≡ false) × FallsWith (origin ∷ others) x) =
        λ x.
          subst
            (λ q.
              (contains x (flatten q.dependents) ≡ true)
              ↔ ((contains x (origin ∷ others) ≡ false) × FallsWith (origin ∷ others) x))
            same (falls x) in
      elim (Bool-cases (contains c (origin ∷ others))) [
        | inl e ↦ ground arith
        | inr n ↦ elim (Bool-cases (contains b (origin ∷ others))) [
          | inl m ↦ let held = (exact c).1 (n, (b, m, points p)) in ground arith
          | inr m ↦
              let (_, (o, k, f)) = (exact b).0 (ground arith) in
              let other : c ≢ o =
                λ e. false≢true (sym n ∙ ap (λ x. contains x (origin ∷ others)) e ∙ k) in
              let held = (exact c).1 (n, (o, k, follows f p other)) in ground arith
        ]
      ]
