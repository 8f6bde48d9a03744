-- ===== src/Reconcile/Ancestry/Parents.antt =====
-- What one loop over the parents of a snapshot does to the walk of reconcile/ancestry.py.
use mathlib.Core.Path.{subst}
use pyboltzmann.Prelude.{
  ℕ, suc, ◌+◌, ◌≤◌, ◌⊎◌, true, false, ◌||◌, none, some, List, [], ◌∷◌, length, ◌≡◌, refl, ap, sym,
  ◌∙◌, arith, inl, inr, Bool-cases, Option-cases, In, here, there,
}
use pyboltzmann.Prelude.Order.{◌==◌, ==_sound, ==_refl, ==_comm}
use pyboltzmann.Prelude.Sets.{contains, union, contains-append}
use pyboltzmann.Prelude.Dict.{get}
use pyboltzmann.Prelude.Closure.{missing, missing_le, missing_lt}
use pyboltzmann.Identity.{OciDigest, oci_order}
use pyboltzmann.Reconcile.Ancestry.{Snapshot, History, hit, more, push, scan}

-- The digests of the snapshots that are held.
unfoldable pub keys : History → List OciDigest
keys [] = []
keys ((d, _) ∷ h) = d ∷ keys h

pub length-keys : (h : History) → length (keys h) ≡ length h
unfolding keys
length-keys [] = refl
length-keys ((d, _) ∷ h) = ap (λ n. suc n) (length-keys h)

pub get-keys :
    (h : History) (d : OciDigest) (s : Snapshot) → get d h ≡ some s → contains d (keys h) ≡ true
unfolding get keys contains
get-keys [] d s e = absurd (ground arith)
get-keys ((k, t) ∷ h) d s e = ground (arith, get-keys h d s, ==_sound k d, ==_refl d)

-- The work that is left: what waits, and what is held and not seen.
abbrev pub work : History → List OciDigest → List Snapshot → ℕ
work h seen frontier = length frontier + missing (keys h) seen

work-push :
    (h : History) (parent : OciDigest) (seen : List OciDigest) (frontier : List Snapshot)
    → contains parent seen ≡ false
    → work h (union seen (parent ∷ [])) (push h parent frontier) ≤ work h seen frontier
unfolding push contains
work-push h parent seen frontier new = elim (Option-cases (get parent h)) [
  | inl e ↦ ground (arith, e, missing_le (keys h) seen (parent ∷ []))
  | inr (s, e) ↦
      let less =
        missing_lt (keys h) seen (parent ∷ []) parent (get-keys h parent s e) new
          (ground (arith, ==_refl parent)) in
      ground (arith, e, less)
]

In-push :
    (h : History) (parent : OciDigest) (frontier : List Snapshot) (s : Snapshot)
    → In s (push h parent frontier)
    → In s frontier ⊎ (get parent h ≡ some s)
unfolding push
In-push h parent frontier s i = elim (Option-cases (get parent h)) [
  | inl e ↦ inl (subst (λ o. In s (elim o [ none ↦ frontier | some t ↦ t ∷ frontier ])) e i)
  | inr (t, e) ↦
      first t e (subst (λ o. In s (elim o [ none ↦ frontier | some t ↦ t ∷ frontier ])) e i)
]
  where
    first :
        (t : Snapshot)
        → get parent h ≡ some t
        → In s (t ∷ frontier)
        → In s frontier ⊎ (get parent h ≡ some s)
    first t e here = inr e
    first t e (there j) = inl j

push-kept :
    (h : History) (parent : OciDigest) (frontier : List Snapshot) (s : Snapshot)
    → In s frontier
    → In s (push h parent frontier)
unfolding push
push-kept h parent frontier s i = elim (Option-cases (get parent h)) [
  | inl e ↦ rw (e, push) i
  | inr (t, e) ↦ rw (e, push) (there i)
]

push-pushed :
    (h : History) (parent : OciDigest) (frontier : List Snapshot) (s : Snapshot)
    → get parent h ≡ some s
    → In s (push h parent frontier)
unfolding push
push-pushed h parent frontier s e = rw (e, push) here

-- What scanning the parents of one snapshot leaves, where none is the target.
pub record Scanned (h : History) (target : OciDigest) (ps seen : List OciDigest)
    (frontier : List Snapshot) (seen' : List OciDigest) (frontier' : List Snapshot) : Type 0 where
  pub clear : contains target ps ≡ false
  pub all_seen : (x : OciDigest) → contains x seen' ≡ (contains x seen || contains x ps)
  pub kept : (s : Snapshot) → In s frontier → In s frontier'
  pub pushed :
      (p : OciDigest) (s : Snapshot)
      → contains p ps ≡ true
      → contains p seen ≡ false
      → get p h ≡ some s
      → In s frontier'
  pub origin :
      (s : Snapshot)
      → In s frontier'
      → In s frontier ⊎ ((p : OciDigest) × (contains p ps ≡ true) × (get p h ≡ some s))
  pub smaller : work h seen' frontier' ≤ work h seen frontier

pub scan_lem :
    (h : History) (target : OciDigest) (ps seen : List OciDigest) (frontier : List Snapshot)
    → ((scan h target ps seen frontier ≡ hit) × (contains target ps ≡ true))
      ⊎ ((seen' : List OciDigest) × (frontier' : List Snapshot) × (scan h target ps seen frontier
            ≡ more seen' frontier')
          × Scanned h target ps seen frontier seen' frontier')
unfolding scan contains
scan_lem h target [] seen frontier = inr (
  seen,
  frontier,
  refl,
  record {
    clear = refl;
    all_seen = λ x. ground arith;
    kept = λ s i. i;
    pushed = λ p s m n e. absurd (ground arith);
    origin = λ s i. inl i;
    smaller = omega arith;
  },
)
scan_lem h target (parent ∷ ps) seen frontier = elim (Bool-cases (parent == target)) [
  | inl e ↦ inl (rw e refl, ground (arith, ==_comm parent target))
  | inr n ↦ elim (Bool-cases (contains parent seen)) [
    | inl old ↦ elim (scan_lem h target ps seen frontier) [
      | inl (run, m) ↦ inl (rw (n, old) run, ground arith)
      | inr (seen', frontier', run, w) ↦ inr (
        seen',
        frontier',
        rw (n, old) run,
        record {
          clear = ground (arith, w.clear, ==_comm parent target);
          all_seen = λ x. ground (
            arith,
            w.all_seen x,
            λ (e : (x == parent) ≡ true). ap (λ y. contains y seen) (==_sound x parent e),
          );
          kept = w.kept;
          pushed = λ p s m new e.
              w.pushed p s
                (ground (
                  arith,
                  λ (q : (p == parent) ≡ true). ap (λ y. contains y seen) (==_sound p parent q),
                ))
                new e;
          origin = λ s i. elim (w.origin s i) [
            | inl j ↦ inl j
            | inr (p, m, e) ↦ inr (p, ground arith, e)
          ];
          smaller = w.smaller;
        },
      )
    ]
    | inr new ↦ elim (scan_lem h target ps (union seen (parent ∷ [])) (push h parent frontier)) [
      | inl (run, m) ↦ inl (rw (n, new) run, ground arith)
      | inr (seen', frontier', run, w) ↦ inr (
        seen',
        frontier',
        rw (n, new) run,
        record {
          clear = ground (arith, w.clear, ==_comm parent target);
          all_seen = λ x. ground (arith, w.all_seen x, contains-append x seen (parent ∷ []));
          kept = λ s i. w.kept s (push-kept h parent frontier s i);
          pushed = λ p s m fresh e. elim (Bool-cases (p == parent)) [
            | inl q ↦ w.kept s (
                push-pushed h parent frontier s (ap (λ k. get k h) (sym (==_sound p parent q)) ∙ e))
            | inr q ↦
                w.pushed p s (ground arith) (ground (arith, contains-append p seen (parent ∷ []))) e
          ];
          origin = λ s i. elim (w.origin s i) [
            | inl j ↦ elim (In-push h parent frontier s j) [
              | inl k ↦ inl k
              | inr e ↦ inr (parent, ground (arith, ==_refl parent), e)
            ]
            | inr (p, m, e) ↦ inr (p, ground arith, e)
          ];
          smaller = omega (arith, w.smaller, work-push h parent seen frontier new);
        },
      )
    ]
  ]
]
