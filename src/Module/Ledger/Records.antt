-- ===== src/Module/Ledger/Records.antt =====
-- What the loop of `Ledger.of` in module/ledger.py gathers: a question about the ledger is a question
-- about the provenance records that could be read.
use mathlib.Core.Path.{subst}
use pyboltzmann.Prelude.{
  Bool, false, ◌&&◌, ◌||◌, Option, none, some, List, [], ◌∷◌, ◌≡◌, ap, ◌∙◌, sym, arith, inl, inr,
  Bool-cases,
}
use pyboltzmann.Prelude.Order.{◌==◌}
use pyboltzmann.Prelude.Sets.{contains}
use pyboltzmann.Exceptions.{Result, ok, raise, Result-cases}
use pyboltzmann.Identity.{BlockId, block_order}
use pyboltzmann.Module.Ledger.{
  Ledger, Event, derivation, supersession, demotion, Entry, absorb, of_blocks,
}

-- Whether a record states that `s` replaces `b`; that `d` was derived from `c`; that `b` is demoted.
unfoldable pub supersedes : BlockId → BlockId → Event → Bool
supersedes s b (supersession new old) = (old == b) && (s == new)
supersedes s b _ = false

unfoldable pub cites : BlockId → BlockId → Event → Bool
cites d c (derivation b derived_from _ _) = (d == b) && contains c derived_from
cites d c _ = false

unfoldable pub demotes : BlockId → Event → Bool
demotes b (demotion c) = b == c
demotes b _ = false

module _ (resolvable : BlockId → Bool) (read : BlockId → Result (Option Entry)) where
  -- Whether one of the blocks is resolvable and holds a record that `test` accepts.
  unfoldable pub recorded : List BlockId → (Event → Bool) → Bool
  recorded [] test = false
  recorded (b ∷ bs) test =
      (resolvable b && elim (read b) [
        | ok found ↦ elim found [ none ↦ false | some entry ↦ test entry.event ]
        | raise _ ↦ false
      ])
      || recorded bs test

  -- A question whose answer only grows, one record at a time.
  pub record IsGathered (Inv : Ledger → Type 0) (ask : Ledger → Bool) (test : Event → Bool)
      : Type 0 where
    pub keeps : (l : Ledger) (e : Entry) (i : BlockId) → Inv l → Inv (absorb l e i)
    pub grows :
        (l : Ledger) (e : Entry) (i : BlockId)
        → Inv l
        → ask (absorb l e i) ≡ (ask l || test e.event)

  pub of_blocks-IsGathered :
      {Inv : Ledger → Type 0} (ask : Ledger → Bool) (test : Event → Bool)
      → IsGathered Inv ask test
      → (bs : List BlockId) (l r : Ledger) → Inv l
      → of_blocks resolvable read bs l ≡ ok r
      → Inv r × (ask r ≡ (ask l || recorded bs test))
  unfolding of_blocks recorded
  of_blocks-IsGathered {Inv} ask test g [] l r i run =
      let same : l ≡ r = ground arith in (subst Inv same i, ap ask (sym same) ∙ ground arith)
  of_blocks-IsGathered {Inv} ask test g (b ∷ bs) l r i run = elim (Bool-cases (resolvable b)) [
    | inl e ↦ elim (Result-cases (read b)) [
      | inl (none, f) ↦
          let rest : of_blocks resolvable read bs l ≡ ok r = ground (arith, run, e, f) in
          let (j, q) = of_blocks-IsGathered ask test g bs l r i rest in (j, ground (arith, q, e, f))
      | inl (some entry, f) ↦
          let rest : of_blocks resolvable read bs (absorb l entry b) ≡ ok r =
            ground (arith, run, e, f) in
          let (j, q) =
            of_blocks-IsGathered ask test g bs (absorb l entry b) r (g.keeps l entry b i) rest in
          let now = g.grows l entry b i in (j, ground (arith, q, now, e, f))
      | inr (x, f) ↦ absurd (ground (arith, run, e, f))
    ]
    | inr e ↦
        let rest : of_blocks resolvable read bs l ≡ ok r = ground (arith, run, e) in
        let (j, q) = of_blocks-IsGathered ask test g bs l r i rest in (j, ground (arith, q, e))
  ]
