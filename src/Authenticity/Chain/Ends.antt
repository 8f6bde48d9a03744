-- ===== src/Authenticity/Chain/Ends.antt =====
-- `walk_first_parents` of authenticity/chain.py ends on any documents, honest or not.
use pyboltzmann.Prelude.{
  ℕ, zero, suc, ◌+◌, ◌<◌, ◌≤◌, ◌≡◌, ◌⊎◌, refl, ap, ◌∙◌, inl, inr, Bool, true, false, Option, none,
  some, List, [], ◌∷◌, length, ltb, arith,
}
use pyboltzmann.Prelude.Sets.{contains}
use pyboltzmann.Prelude.Bytes.{Bytes}
use pyboltzmann.Exceptions.{
  Exception, Result, ok, raise, ◌>>=◌, snapshot_error, out_of_fuel, Result-cases,
}
use pyboltzmann.Identity.{OciDigest, oci_order}
use pyboltzmann.Identity.Hashing.{Sha256}
use pyboltzmann.Store.Memory.{MemoryBlockStore}
use pyboltzmann.Authenticity.Chain
use pyboltzmann.Authenticity.Chain.{
  Snapshot, Position, onward, add, positioned, first_parent, at_genesis, max_walk,
}
use pyboltzmann.Authenticity.Chain.Walk.{length-add}

bind_raise {ℓ κ} :
    {A : Type ℓ} {B : Type κ} (r : Result A) (f : A → Result B) (e : Exception)
    → (r >>= f) ≡ raise e
    → (r ≡ raise e) ⊎ ((a : A) × (r ≡ ok a) × (f a ≡ raise e))
bind_raise (ok a) f e h = inr (a, refl, h)
bind_raise (raise d) f e h = inl (ground arith)

round_out :
    (old long : Bool) (next : Result (List Position))
    → (elim old [
      | true ↦ raise snapshot_error
      | false ↦ elim long [ true ↦ raise snapshot_error | false ↦ next ]
    ])
      ≡ raise out_of_fuel
    → (old ≡ false) × (long ≡ false) × (next ≡ raise out_of_fuel)
round_out false false next h = (refl, refl, h)
round_out false true next h = absurd (ground arith)
round_out true long next h = absurd (ground arith)

onward_out :
    (position : Position) (parent : Option Snapshot) (f : Snapshot → Result (List Position))
    → onward position parent f ≡ raise out_of_fuel
    → (p : Snapshot) × (f p ≡ raise out_of_fuel)
unfolding onward
onward_out position none f h = absurd (ground arith)
onward_out position (some p) f h = elim (bind_raise (f p) (λ r. ok (position ∷ r)) out_of_fuel h) [
  | inl out ↦ (p, out)
  | inr (r, _, never) ↦ absurd (ground arith)
]

not_ltb : (a b : ℕ) → ltb a b ≡ false → b ≤ a
not_ltb a b h = ground arith

module _ ⦃sha : Sha256⦄ (from_document : Bytes → Result Snapshot) (s : MemoryBlockStore) where
  -- Reading a document never runs out of fuel.
  abbrev pub LoadsEnd : Type 0
  LoadsEnd = (d : OciDigest) → Chain.load_snapshot from_document s d ≡ raise out_of_fuel → ⊥

  locate_ends :
      LoadsEnd
      → (c : Snapshot) (named : Option OciDigest)
      → Chain.locate_by from_document s c named ≡ raise out_of_fuel
      → ⊥
  unfolding Chain.locate_by
  locate_ends ends c none h = ground arith
  locate_ends ends c (some d) h =
      elim (bind_raise (Chain.load_snapshot from_document s d) (λ x. ok (positioned c x))
        out_of_fuel h) [ inl out ↦ ends d out | inr (x, _, never) ↦ ground arith ]

  walk_ends :
      LoadsEnd
      → (fuel limit : ℕ) (seen : List OciDigest) (c : Snapshot) → limit < fuel + length seen
      → length seen ≤ limit
      → Chain.walk from_document s fuel limit seen c ≡ raise out_of_fuel
      → ⊥
  unfolding Chain.walk Chain.locate
  walk_ends ends zero limit seen c enough within h = omega arith
  walk_ends ends (suc fuel) limit seen c enough within h =
      elim (bind_raise (Chain.locate from_document s c) _ out_of_fuel h) [
        | inl out ↦ locate_ends ends c (first_parent c.parents) out
        | inr (position, _, h1) ↦
            let (fresh, short, out) =
              round_out (contains c.digest seen) (ltb limit (length (add c.digest seen)))
                (onward position position.parent
                  (Chain.walk from_document s fuel limit (add c.digest seen)))
                h1 in
            let (p, deeper) =
              onward_out position position.parent
                (Chain.walk from_document s fuel limit (add c.digest seen)) out in
            let grown = length-add c.digest seen fresh in
            walk_ends ends fuel limit (add c.digest seen) p (omega (arith, enough, grown))
              (omega (arith, not_ltb limit (length (add c.digest seen)) short)) deeper
      ]

  never_out :
      LoadsEnd → (c : Snapshot) → Chain.walk_first_parents from_document s c ≡ raise out_of_fuel → ⊥
  unfolding Chain.walk_first_parents
  never_out ends c h = walk_ends ends (suc max_walk) max_walk [] c (omega arith) (omega arith) h

  -- The walk ends, on documents that form a cycle too: if reading each document ends, the walk has positions
  -- or raises for another reason than a lack of fuel.
  pub walk_first_parents_ends :
      LoadsEnd
      → (c : Snapshot)
      → ((positions : List Position) × (Chain.walk_first_parents from_document s c ≡ ok positions))
        ⊎ ((e : Exception) × (Chain.walk_first_parents from_document s c ≡ raise e)
            × (e ≡ out_of_fuel → ⊥))
  walk_first_parents_ends ends c =
      elim (Result-cases (Chain.walk_first_parents from_document s c)) [
        | inl (positions, h) ↦ inl (positions, h)
        | inr (e, h) ↦ inr (e, h, λ out. never_out ends c (h ∙ ap (λ x. raise x) out))
      ]
