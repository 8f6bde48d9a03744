-- ===== src/Brain/Branching/Pinned.antt =====
-- brain.py: what the head pointer retains, over any sequence of operations on branches.
use pyboltzmann.Prelude.{
  ℕ, zero, suc, ◌≤◌, ◌≡◌, refl, ap, sym, ◌∙◌, inl, inr, true, not, ◌&&◌, ◌||◌, Option, none, some,
  List, [], ◌∷◌, ◌++◌, take, arith, Bool-cases,
}
use pyboltzmann.Prelude.Order.{◌==◌, ==_sound, ==_refl}
use pyboltzmann.Prelude.Sets.{contains, contains-append}
use pyboltzmann.Prelude.Bytes.{bytes_order}
use pyboltzmann.Prelude.Texts.{Text}
use pyboltzmann.Identity.{OciDigest, oci_order}
use pyboltzmann.Reconcile.Ancestry.{is_resolvable}
use pyboltzmann.Brain.Branching
use pyboltzmann.Brain.Branching.{Brain, BrainState, BranchRef, RefTable, Origin, Start}

-- Every branch head is retained, and so is the head.
pub record IsKept (b : Brain) : Type 0 where
  pub heads :
      (d : OciDigest)
      → contains d (Branching.branch_heads b) ≡ true
      → contains d (Branching.retained_before b) ≡ true
  pub head : (s : BrainState) → b.state ≡ some s → contains s.snapshot s.retained ≡ true
  pub roots : 1 ≤ b.retained_roots

others_lem :
    (d : OciDigest) (bounded pinned : List OciDigest)
    → (contains d bounded || contains d (Branching.others bounded pinned))
      ≡ (contains d bounded || contains d pinned)
unfolding Branching.others contains
others_lem d bounded [] = refl
others_lem d bounded (head ∷ pinned) = elim (Bool-cases (contains head bounded)) [
  | inl e ↦ ground (
    arith,
    others_lem d bounded pinned,
    λ (q : (d == head) ≡ true). ap (λ x. contains x bounded) (==_sound d head q),
  )
  | inr n ↦ ground (arith, others_lem d (head ∷ bounded) pinned)
]

-- What is bounded stays, in front.
bound_prefix :
    (digest d : OciDigest) (pinned candidates bounded : List OciDigest)
    → (rest : List OciDigest) × (Branching.bound digest pinned candidates (d ∷ bounded) ≡ d ∷ rest)
unfolding Branching.bound
bound_prefix digest d pinned [] bounded = (bounded, refl)
bound_prefix digest d pinned (c ∷ candidates) bounded =
    elim (Bool-cases (contains c (d ∷ bounded) || (contains c pinned && not (c == digest)))) [
      | inl e ↦
          let (rest, q) = bound_prefix digest d pinned candidates bounded in
          (rest, rw (e, Branching.bound) q)
      | inr n ↦
          let (rest, q) = bound_prefix digest d pinned candidates (bounded ++ c ∷ []) in
          (rest, rw (n, Branching.bound) q)
    ]

bound_first :
    (digest : OciDigest) (pinned candidates : List OciDigest)
    → (rest : List OciDigest) × (Branching.bound digest pinned (digest ∷ candidates) []
        ≡ digest ∷ rest)
unfolding Branching.bound contains
bound_first digest pinned candidates =
    let (rest, q) = bound_prefix digest digest pinned candidates [] in
    (rest, ground (arith, ==_refl digest))

take_first :
    (n : ℕ) (d : OciDigest) (ds : List OciDigest) → 1 ≤ n → contains d (take n (d ∷ ds)) ≡ true
unfolding take contains
take_first zero d ds h = absurd (omega arith)
take_first (suc n) d ds h = ground (arith, ==_refl d)

retained_set-pinned :
    (roots : ℕ) (digest d : OciDigest) (pinned candidates : List OciDigest)
    → contains d pinned ≡ true
    → contains d (Branching.retained_set roots digest pinned candidates) ≡ true
unfolding Branching.retained_set
retained_set-pinned roots digest d pinned candidates m =
    let bounded = take roots (Branching.bound digest pinned candidates []) in
    ground (
      arith,
      contains-append d bounded (Branching.others bounded pinned),
      others_lem d bounded pinned,
    )

retained_set-digest :
    (roots : ℕ) (digest : OciDigest) (pinned candidates : List OciDigest)
    → 1 ≤ roots
    → contains digest (Branching.retained_set roots digest pinned (digest ∷ candidates)) ≡ true
unfolding Branching.retained_set
retained_set-digest roots digest pinned candidates h =
    let (rest, e) = bound_first digest pinned candidates in
    let bounded = take roots (Branching.bound digest pinned (digest ∷ candidates) []) in
    let first : contains digest bounded ≡ true =
      ap (λ xs. contains digest (take roots xs)) e ∙ take_first roots digest rest h in
    contains-append digest bounded (Branching.others bounded pinned)
    ∙ ap (λ x. x || contains digest (Branching.others bounded pinned)) first

-- Moving the head pointer keeps the new head and every branch head, whatever was retained before.
pub write_head-IsKept :
    (b : Brain) (digest : OciDigest) (origin : Option Origin) (retain : List OciDigest)
    → 1 ≤ b.retained_roots
    → IsKept (Branching.write_head b digest origin retain)
unfolding Branching.write_head Branching.branch_heads Branching.retained_before
write_head-IsKept b digest origin retain h = record {
  heads = λ d m.
      retained_set-pinned b.retained_roots digest d (Branching.branch_heads b)
        (digest ∷ retain ++ Branching.retained_before b) m;
  head = λ s e.
      let kept =
        retained_set-digest b.retained_roots digest (Branching.branch_heads b)
          (retain ++ Branching.retained_before b) h in
      ground arith;
  roots = h;
}

-- A brain whose refs name the same heads, with the same head pointer.
refs-IsKept :
    (b c : Brain)
    → Branching.branch_heads c ≡ Branching.branch_heads b
    → c.state ≡ b.state
    → c.retained_roots ≡ b.retained_roots
    → IsKept b
    → IsKept c
unfolding Branching.retained_before
refs-IsKept b c p q r k = record {
  heads = λ d m.
      ap (λ x. contains d (elim x [ none ↦ [] | some s ↦ s.retained ])) q
      ∙ k.heads d (ap (contains d) (sym p) ∙ m);
  head = λ s e. k.head s (sym q ∙ e);
  roots = omega (arith, k.roots, r);
}

pub repair_lem :
    (b : Brain)
    → (Branching.branch_heads (Branching.repair b) ≡ Branching.branch_heads b)
      × ((Branching.repair b).state ≡ b.state)
      × ((Branching.repair b).retained_roots ≡ b.retained_roots)
      × ((Branching.repair b).documents ≡ b.documents)
unfolding Branching.repair Branching.repaired Branching.write_refs Branching.branch_heads
repair_lem b = (ground arith, ground arith, ground arith, ground arith)

pub repair-IsKept : (b : Brain) → IsKept b → IsKept (Branching.repair b)
repair-IsKept b k =
    let (heads, state, roots, _) = repair_lem b in
    refs-IsKept b (Branching.repair b) heads state roots k

-- The end of a switch keeps what its begin had.
pub end_switch-IsKept :
    (b : Brain) (table : RefTable) (name : Text) (digest : OciDigest) (origin : Option Origin)
    → 1 ≤ b.retained_roots
    → IsKept (
        Branching.end_switch
          (Branching.write_head (Branching.begin_switch b table name) digest origin [])
          table
          name)
unfolding Branching.end_switch Branching.begin_switch Branching.write_refs Branching.write_head
    Branching.branch_heads
end_switch-IsKept b table name digest origin h =
    let moved = Branching.write_head (Branching.begin_switch b table name) digest origin [] in
    refs-IsKept moved (Branching.end_switch moved table name) refl refl refl
      (write_head-IsKept (Branching.begin_switch b table name) digest origin [] h)

pub install-IsKept :
    (b : Brain) (digest : OciDigest) → IsKept b → IsKept (Branching.install b digest).0
unfolding Branching.install
install-IsKept b digest k = elim (Bool-cases (is_resolvable b.documents digest)) [
  | inl e ↦ rw (e, Branching.install) k
  | inr n ↦ rw (n, Branching.install) k
]
