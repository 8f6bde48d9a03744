-- ===== src/Reconcile/Ancestry/Laws.antt =====
-- The walk of reconcile/ancestry.py ends, and finds a snapshot exactly when it is in the history.
use mathlib.Core.Path.{subst}
use pyboltzmann.Prelude.{
  ℕ, zero, suc, ◌+◌, ◌<◌, Bool, true, false, some, List, [], ◌∷◌, length, ◌≡◌, ◌↔◌, ◌⊎◌, refl, ap,
  sym, ◌∙◌, arith, inl, inr, Bool-cases, In, here, there, In-cases, In-nil, false≢true,
}
use pyboltzmann.Prelude.Order.{◌==◌, ==_sound, ==_complete, ==_comm}
use pyboltzmann.Prelude.Sets.{contains}
use pyboltzmann.Prelude.Dict.{get}
use pyboltzmann.Prelude.Closure.{missing-le-length}
use pyboltzmann.Exceptions.{ok}
use pyboltzmann.Identity.{OciDigest, oci_order}
use pyboltzmann.Reconcile.Ancestry.{Snapshot, History, reaches_loop, reaches}
use pyboltzmann.Reconcile.Ancestry.Parents.{keys, length-keys, work, Scanned, scan_lem}

-- A parent of the head, or of a snapshot behind it whose document is held.
pub data Behind (h : History) (head : Snapshot) : OciDigest → Type 0 where
  parent : {d : OciDigest} → contains d head.parents ≡ true → Behind h head d
  further :
      {d p : OciDigest} {s : Snapshot}
      → Behind h head d
      → get d h ≡ some s
      → contains p s.parents ≡ true
      → Behind h head p

module _ (h : History) (head : Snapshot) (head_digest target : OciDigest) where
  -- Where a snapshot that waits to be visited comes from.
  abbrev Source : Snapshot → Type 0
  Source s = (s ≡ head) ⊎ ((d : OciDigest) × Behind h head d × (get d h ≡ some s))

  abbrev AllSeen : Snapshot → List OciDigest → Type 0
  AllSeen s seen = (p : OciDigest) → contains p s.parents ≡ true → contains p seen ≡ true

  record IsSearch (seen : List OciDigest) (frontier : List Snapshot) : Type 0 where
    missed : contains target seen ≡ false
    waiting : (s : Snapshot) → In s frontier → Source s
    settled_head : In head frontier ⊎ AllSeen head seen
    settled :
        (d : OciDigest) (s : Snapshot)
        → contains d seen ≡ true
        → get d h ≡ some s
        → In s frontier ⊎ AllSeen s seen

  Source-Behind :
      (s : Snapshot) → Source s → (p : OciDigest) → contains p s.parents ≡ true → Behind h head p
  Source-Behind s (inl e) p m = parent (ap (λ t. contains p t.parents) (sym e) ∙ m)
  Source-Behind s (inr (d, b, e)) p m = further b e m

  Behind-seen :
      (seen : List OciDigest)
      → IsSearch seen []
      → (d : OciDigest) → Behind h head d
      → contains d seen ≡ true
  Behind-seen seen w d (parent m) = elim w.settled_head [ inl i ↦ elim i [ ] | inr f ↦ f d m ]
  Behind-seen seen w p (further {d = d} {s = s} b e m) =
      elim (w.settled d s (Behind-seen seen w d b) e) [ inl i ↦ elim i [ ] | inr f ↦ f p m ]

  -- A snapshot that was waiting or settled is, after the scan of `s`, waiting or settled.
  settle :
      (s t : Snapshot) (seen seen' : List OciDigest) (frontier frontier' : List Snapshot)
      → Scanned h target s.parents seen frontier seen' frontier'
      → In t (s ∷ frontier) ⊎ AllSeen t seen
      → In t frontier' ⊎ AllSeen t seen'
  settle s t seen seen' frontier frontier' w (inl i) = elim (In-cases s t frontier i) [
    | inl e ↦ inr (λ p m. ground (arith, w.all_seen p, ap (λ q. contains p q.parents) e))
    | inr j ↦ inl (w.kept t j)
  ]
  settle s t seen seen' frontier frontier' w (inr f) =
      inr (λ p m. ground (arith, w.all_seen p, f p m))

  Scanned-IsSearch :
      (s : Snapshot) (seen seen' : List OciDigest) (frontier frontier' : List Snapshot)
      → IsSearch seen (s ∷ frontier)
      → Scanned h target s.parents seen frontier seen' frontier'
      → IsSearch seen' frontier'
  Scanned-IsSearch s seen seen' frontier frontier' w c = record {
    missed = ground (arith, c.all_seen target, c.clear, w.missed);
    waiting = λ t i. elim (c.origin t i) [
      | inl j ↦ w.waiting t (there j)
      | inr (p, m, e) ↦ inr (p, Source-Behind s (w.waiting s here) p m, e)
    ];
    settled_head = settle s head seen seen' frontier frontier' c w.settled_head;
    settled = λ d t k e. elim (Bool-cases (contains d seen)) [
      | inl old ↦ settle s t seen seen' frontier frontier' c (w.settled d t old e)
      | inr new ↦ inl (c.pushed d t (ground (arith, c.all_seen d)) new e)
    ];
  }

  reaches_loop_lem :
      (fuel : ℕ) (seen : List OciDigest) (frontier : List Snapshot)
      → IsSearch seen frontier
      → work h seen frontier < fuel
      → (b : Bool) × (reaches_loop fuel h target seen frontier ≡ ok b)
        × ((b ≡ true) ↔ Behind h head target)
  unfolding reaches_loop
  reaches_loop_lem zero seen frontier w f = absurd (omega arith)
  reaches_loop_lem (suc fuel) seen [] w f = (
    false,
    refl,
    ((λ e. absurd (false≢true e)), (λ b. sym w.missed ∙ Behind-seen seen w target b)),
  )
  reaches_loop_lem (suc fuel) seen (s ∷ frontier) w f =
      elim (scan_lem h target s.parents seen frontier) [
        | inl (run, m) ↦ (
          true,
          rw (run, reaches_loop) refl,
          ((λ e. Source-Behind s (w.waiting s here) target m), (λ b. refl)),
        )
        | inr (seen', frontier', run, c) ↦
            let (b, q, r) =
              reaches_loop_lem fuel seen' frontier'
                (Scanned-IsSearch s seen seen' frontier frontier' w c) (omega (arith, c.smaller)) in
            (b, rw (run, reaches_loop) q, r)
      ]

  -- Where the store holds the head's own document under its digest, if it holds one, the walk ends, and
  -- answers whether the target is the head or behind it.
  pub reaches-Behind :
      ((s : Snapshot) → get head_digest h ≡ some s → s ≡ head)
      → (b : Bool) × (reaches h head head_digest target ≡ ok b)
        × ((b ≡ true) ↔ ((head_digest ≡ target) ⊎ Behind h head target))
  unfolding reaches contains
  reaches-Behind held = elim (Bool-cases (head_digest == target)) [
    | inl e ↦
        (true, rw (e, reaches) refl, ((λ k. inl (==_sound head_digest target e)), (λ k. refl)))
    | inr n ↦
        let start : IsSearch (head_digest ∷ []) (head ∷ []) = record {
          missed = ground (arith, ==_comm head_digest target);
          waiting = λ s i. elim (In-cases head s [] i) [
            | inl e ↦ inl (sym e)
            | inr j ↦ absurd (In-nil s j)
          ];
          settled_head = inl here;
          settled = λ d s k e.
              let is_head : d ≡ head_digest = ==_sound d head_digest (ground arith) in
              let same = held s (ap (λ x. get x h) (sym is_head) ∙ e) in
              inl (subst (λ x. In x (head ∷ [])) (sym same) here);
        } in
        let enough = missing-le-length (keys h) (head_digest ∷ []) in
        let (b, run, r) =
          reaches_loop_lem (length h + 2) (head_digest ∷ []) (head ∷ []) start
            (omega (arith, enough, length-keys h)) in
        (
          b,
          rw (n, reaches) run,
          (
            (λ k. inr (r.0 k)),
            elim [
              | inl e ↦ absurd (false≢true (sym n ∙ ==_complete head_digest target e))
              | inr k ↦ r.1 k
            ],
          ),
        )
  ]
