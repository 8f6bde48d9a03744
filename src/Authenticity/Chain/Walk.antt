-- ===== src/Authenticity/Chain/Walk.antt =====
-- The walk along first parents: one round, its end, and what a walk that has seen less does.
use pyboltzmann.Prelude.{
  inl, inr, ◌||◌, Bool-cases, if◌then◌else◌, ℕ, zero, suc, ◌+◌, ◌≤◌, ◌<◌, ◌≡◌, refl, ap, ◌∙◌, Bool,
  true, false, Option, none, some, List, ◌∷◌, length, ltb, arith,
}
use pyboltzmann.Prelude.Order.{◌==◌, ==_sound}
use pyboltzmann.Prelude.Sets.{contains}
use pyboltzmann.Prelude.Bytes.{Bytes, bytes_order}
use pyboltzmann.Exceptions.{Result, ok, raise, ◌>>=◌, snapshot_error, bind_ok}
use pyboltzmann.Identity.{OciDigest, oci_order}
use pyboltzmann.Identity.Hashing.{Sha256}
use pyboltzmann.Store.Memory.{MemoryBlockStore}
use pyboltzmann.Authenticity.Chain
use pyboltzmann.Authenticity.Chain.{Snapshot, Position, onward, add}

-- One round that did not raise.
pub round_ok :
    (old long : Bool) (next : Result (List Position)) (positions : List Position)
    → (elim old [
      | true ↦ raise snapshot_error
      | false ↦ elim long [ true ↦ raise snapshot_error | false ↦ next ]
    ])
      ≡ ok positions
    → (old ≡ false) × (long ≡ false) × (next ≡ ok positions)
round_ok false false next positions h = (refl, refl, h)
round_ok false true next positions h = absurd (ground arith)
round_ok true long next positions h = absurd (ground arith)

rounded :
    (old long : Bool) (next : Result (List Position)) (positions : List Position)
    → old ≡ false
    → long ≡ false
    → next ≡ ok positions
    → (elim old [
      | true ↦ raise snapshot_error
      | false ↦ elim long [ true ↦ raise snapshot_error | false ↦ next ]
    ])
      ≡ ok positions
rounded false false next positions o l h = h
rounded false true next positions o l h = absurd (ground arith)
rounded true long next positions o l h = absurd (ground arith)

-- Where a walk goes on, another that finds the same may take its place.
onward_same :
    (position : Position) (parent : Option Snapshot) (f g : Snapshot → Result (List Position))
    (positions : List Position)
    → ((p : Snapshot) (rest : List Position) → f p ≡ ok rest → g p ≡ ok rest)
    → onward position parent f ≡ ok positions
    → onward position parent g ≡ ok positions
unfolding onward
onward_same position none f g positions same h = h
onward_same position (some p) f g positions same h =
    let (rest, run, all) = bind_ok (f p) (λ r. ok (position ∷ r)) positions h in
    ap (λ r. r >>= λ x. ok (position ∷ x)) (same p rest run) ∙ all

pub length-add :
    (d : OciDigest) (seen : List OciDigest)
    → contains d seen ≡ false
    → length (add d seen) ≡ suc (length seen)
unfolding add
length-add d seen fresh = ap (λ c. length (if c then seen else d ∷ seen)) fresh

contains-add :
    (x d : OciDigest) (seen : List OciDigest)
    → contains x (add d seen) ≡ ((x == d) || contains x seen)
unfolding add contains
contains-add x d seen = elim (Bool-cases (contains d seen)) [
  | inl e ↦ ground (arith, λ (q : (x == d) ≡ true). ap (λ y. contains y seen) (==_sound x d q))
  | inr n ↦ ground arith
]

contains_less :
    (d : OciDigest) (seen seen' : List OciDigest)
    → ((x : OciDigest) → contains x seen' ≡ true → contains x seen ≡ true)
    → (x : OciDigest) → contains x (add d seen') ≡ true
    → contains x (add d seen) ≡ true
contains_less d seen seen' sub x m =
    ground (arith, sub x, contains-add x d seen, contains-add x d seen')

module _ ⦃sha : Sha256⦄ (from_document : Bytes → Result Snapshot) (s : MemoryBlockStore) where
  -- A walk that succeeds also succeeds, with the same positions, where less was seen before, if the fuel
  -- reaches the limit.
  pub walk_less :
      (limit fuel fuel' : ℕ) (seen seen' : List OciDigest) (snapshot : Snapshot)
      (positions : List Position)
      → ((x : OciDigest) → contains x seen' ≡ true → contains x seen ≡ true)
      → length seen' ≤ length seen
      → limit < fuel' + length seen'
      → Chain.walk from_document s fuel limit seen snapshot ≡ ok positions
      → Chain.walk from_document s fuel' limit seen' snapshot ≡ ok positions
  unfolding Chain.walk
  walk_less limit zero fuel' seen seen' snapshot positions sub short enough h =
      absurd (ground arith)
  walk_less limit (suc fuel) zero seen seen' snapshot positions sub short enough h =
      let (position, placed, h1) = bind_ok (Chain.locate from_document s snapshot) _ positions h in
      let (fresh, within, next) =
        round_ok (contains snapshot.digest seen) (ltb limit (length (add snapshot.digest seen)))
          (onward position position.parent
            (Chain.walk from_document s fuel limit (add snapshot.digest seen)))
          positions h1 in
      let grown = length-add snapshot.digest seen fresh in absurd (ground arith)
  walk_less limit (suc fuel) (suc fuel') seen seen' snapshot positions sub short enough h =
      let (position, placed, h1) = bind_ok (Chain.locate from_document s snapshot) _ positions h in
      let (fresh, within, next) =
        round_ok (contains snapshot.digest seen) (ltb limit (length (add snapshot.digest seen)))
          (onward position position.parent
            (Chain.walk from_document s fuel limit (add snapshot.digest seen)))
          positions h1 in
      let grown = length-add snapshot.digest seen fresh in
      let fresh' : contains snapshot.digest seen' ≡ false = ground (arith, sub snapshot.digest) in
      let grown' = length-add snapshot.digest seen' fresh' in
      let again =
        onward_same position position.parent
          (Chain.walk from_document s fuel limit (add snapshot.digest seen))
          (Chain.walk from_document s fuel' limit (add snapshot.digest seen')) positions
          (λ p rest run.
            walk_less limit fuel fuel' (add snapshot.digest seen) (add snapshot.digest seen') p rest
              (contains_less snapshot.digest seen seen' sub) (omega (arith, short, grown, grown'))
              (omega (arith, enough, grown')) run)
          next in
      ap
        (λ r. r >>= λ x. elim (contains snapshot.digest seen') [
          | true ↦ raise snapshot_error
          | false ↦ elim (ltb limit (length (add snapshot.digest seen'))) [
            | true ↦ raise snapshot_error
            | false ↦
                onward x x.parent
                  (Chain.walk from_document s fuel' limit (add snapshot.digest seen'))
          ]
        ])
        placed
      ∙ rounded (contains snapshot.digest seen') (ltb limit (length (add snapshot.digest seen')))
          (onward position position.parent
            (Chain.walk from_document s fuel' limit (add snapshot.digest seen')))
          positions fresh' (ground arith) again
