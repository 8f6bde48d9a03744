-- ===== src/Retention/Cascade/Laws.antt =====
-- What retention/cascade.py drops with a block: exactly what falls with it, whatever the edges are.
use pyboltzmann.Prelude.{
  ℕ, zero, suc, ◌+◌, ◌<◌, Bool, true, false, ◌&&◌, ◌||◌, List, [], ◌∷◌, ◌++◌, length, ◌≡◌, ◌≢◌, ◌↔◌,
  refl, ap, sym, ◌∙◌, arith, inl, inr, Bool-cases, List-cases, false≢true,
}
use pyboltzmann.Prelude.Order.{◌==◌, ==_sound, ==_refl, ==_complete}
use pyboltzmann.Prelude.Sets.{contains, contains-append}
use pyboltzmann.Prelude.Closure.{
  flat_map, missing, IsWalk, IsRound, IsRound-IsWalk, IsWalk-IsClosed, IsRound-missing,
  missing-le-length,
}
use pyboltzmann.Exceptions.{ok}
use pyboltzmann.Identity.{BlockId, block_order}
use pyboltzmann.Module.Ledger.{Ledger}
use pyboltzmann.Module.Ledger.Closure.{Cites, closure-Cites}
use pyboltzmann.Retention.Cascade.{
  ByModule, ReferenceIndex, Modules, pointing, flatten, place_all, update_all, Frontier,
  discover_from, walk, referencing, dependents_of_drop,
}
use pyboltzmann.Retention.Cascade.Walk.{
  is_held, contains-place_all, contains-update_all, Extends, discover_from-Extends, pointing_at,
  pointing_at-referencing,
}

-- What falls with `origin`: a block of some module that cites it, directly or through others; a block
-- that points at it; and, once a block falls, what points at that.
pub data Falls (modules : Modules) (l : Ledger) (structural : ReferenceIndex) (origin : BlockId)
    : BlockId → Type 0 where
  cited :
      {b : BlockId}
      → b ≢ origin
      → Cites l origin b
      → is_held modules b ≡ true
      → Falls modules l structural origin b
  points :
      {b : BlockId}
      → contains b (pointing_at structural origin) ≡ true
      → Falls modules l structural origin b
  follows :
      {b c : BlockId}
      → Falls modules l structural origin c
      → contains b (pointing_at structural c) ≡ true
      → b ≢ origin
      → Falls modules l structural origin b

module _ (modules : Modules) (l : Ledger) (structural : ReferenceIndex) (origin : BlockId) where
  abbrev next : BlockId → List BlockId
  next = pointing_at structural

  abbrev is_origin : BlockId → Bool
  is_origin b = b == origin

  abbrev Falling : BlockId → Type 0
  Falling = Falls modules l structural origin

  record IsAnswer (start : List BlockId) (d : ByModule) : Type 0 where
    closed :
        (b c : BlockId)
        → contains b (flatten d) ≡ true
        → contains c (next b) ≡ true
        → (is_origin c || contains c (flatten d)) ≡ true
    justified : (b : BlockId) → contains b (flatten d) ≡ true → Falling b
    started : (b : BlockId) → contains b start ≡ true → contains b (flatten d) ≡ true

  walk_end :
      (fuel : ℕ) (d : ByModule) (seen : List BlockId)
      → 0 < fuel
      → walk fuel origin structural [] d seen ≡ ok d
  unfolding walk
  walk_end zero d seen h = absurd (omega arith)
  walk_end (suc fuel) d seen h = refl

  walk_lem :
      (fuel : ℕ) (start seen frontier : List BlockId) (d : ByModule)
      → IsWalk next is_origin [] Falling seen frontier
      → ((b : BlockId) → contains b (flatten d) ≡ contains b seen)
      → ((b : BlockId) → contains b start ≡ true → contains b seen ≡ true)
      → missing (referencing structural) seen + 1 < fuel
      → (r : ByModule) × (walk fuel origin structural frontier d seen ≡ ok r) × IsAnswer start r
  unfolding walk contains
  walk_lem zero start seen frontier d w same kept h = absurd (omega arith)
  walk_lem (suc fuel) start seen [] d w same kept h = (
    d,
    refl,
    record {
      closed = λ b c p q. ground (arith, w.settled b c (ground (arith, same b)) refl q, same c);
      justified = λ b p. w.reached b (ground (arith, same b));
      started = λ b p. ground (arith, same b, kept b p);
    },
  )
  walk_lem (suc fuel) start seen (f ∷ fs) d w same kept h =
      let from : Frontier = record { dependents = d; seen = seen; discovered = [] } in
      let to : Frontier = discover_from origin structural (f ∷ fs) from in
      let ext : Extends origin (flat_map next (f ∷ fs)) from to =
        discover_from-Extends origin structural (f ∷ fs) from in
      let round : IsRound next is_origin [] Falling seen (f ∷ fs) ext.found = record {
        fresh = ext.fresh;
      } in
      let filed : (b : BlockId)
          → contains b (flatten to.dependents) ≡ contains b (seen ++ ext.found) =
        λ b. ground (arith, ext.filed b, same b, contains-append b seen ext.found) in
      let further : (b c : BlockId)
          → Falling b
          → contains c (next b) ≡ true
          → is_origin c ≡ false
          → Falling c =
        λ b c k m n. follows k m (λ e. false≢true (sym n ∙ ==_complete c origin e)) in
      let grown =
        IsRound-IsWalk next is_origin [] Falling seen (f ∷ fs) ext.found further w round in
      let carried : (b : BlockId)
          → contains b start ≡ true
          → contains b (seen ++ ext.found) ≡ true =
        λ b p. ground (arith, kept b p, contains-append b seen ext.found) in
      elim (List-cases ext.found) [
        | inl e ↦
            let shut =
              IsWalk-IsClosed next is_origin [] Falling seen (f ∷ fs) ext.found w round
                (λ b. ap (contains b) e) in
            (
              to.dependents,
              rw (ext.discovered, e) (walk_end fuel to.dependents to.seen (omega arith)),
              record {
                closed = λ b c p q.
                    let old : contains b seen ≡ true =
                      ground
                        (arith, filed b, contains-append b seen ext.found, ap (contains b) e) in
                    ground
                      (arith, shut b c (ground arith) q, filed c, contains-append c seen ext.found);
                justified = λ b p. grown.reached b (ground (arith, filed b));
                started = λ b p. ground (arith, filed b, carried b p);
              },
            )
        | inr (x, xs, e) ↦
            let new : contains x ext.found ≡ true = ap (contains x) e ∙ ground (arith, ==_refl x) in
            let less =
              IsRound-missing next is_origin [] Falling (referencing structural) seen (f ∷ fs)
                ext.found x (pointing_at-referencing structural) round new in
            let (r, run, a) =
              walk_lem fuel start (seen ++ ext.found) ext.found to.dependents grown filed carried
                (omega (arith, less)) in
            (r, rw (ext.discovered, ext.seen) run, a)
      ]

  Falls-found :
      (start : List BlockId) (d : ByModule)
      → IsAnswer start d
      → ((b : BlockId)
          → b ≢ origin
          → Cites l origin b
          → is_held modules b ≡ true
          → contains b start ≡ true)
      → ((b : BlockId) → contains b (next origin) ≡ true → contains b start ≡ true)
      → (b : BlockId) → Falling b
      → contains b (flatten d) ≡ true
  Falls-found start d a cs ps b (cited n c h) = a.started b (cs b n c h)
  Falls-found start d a cs ps b (points h) = a.started b (ps b h)
  Falls-found start d a cs ps b (follows {c = c} f h n) =
      let here = Falls-found start d a cs ps c f in
      elim (Bool-cases (is_origin b)) [
        | inl e ↦ absurd (n (==_sound b origin e))
        | inr e ↦ ground (arith, a.closed c b here h)
      ]

  -- The walk of a drop ends, and a block is among the dependents, in some module, exactly when it falls
  -- with the origin.
  pub dependents_of_drop-Falls :
      (d : ByModule) × (dependents_of_drop origin modules l structural ≡ ok d)
      × ((b : BlockId) → (contains b (flatten d) ≡ true) ↔ Falling b)
  unfolding dependents_of_drop contains flatten
  dependents_of_drop-Falls =
      let (found, run, sound, complete) = closure-Cites l origin in
      let first : ByModule = update_all (pointing origin structural) (place_all modules found []) in
      let start : List BlockId = flatten first in
      let what : (b : BlockId)
          → contains b start
            ≡ ((contains b found && is_held modules b) || contains b (next origin)) =
        λ b. ground (
          arith,
          contains-update_all b (pointing origin structural) (place_all modules found []),
          contains-place_all b found modules [],
        ) in
      let origins : (b : BlockId) → contains b start ≡ true → Falling b = λ b h.
        elim (Bool-cases (contains b (next origin))) [
          | inl e ↦ points e
          | inr e ↦
              let (n, c) = sound b (ground (arith, what b)) in cited n c (ground (arith, what b))
        ] in
      let w : IsWalk next is_origin [] Falling start start = record {
        inside = λ b h. h;
        reached = λ b h. origins b h;
        settled = λ b c k n m. absurd (false≢true (sym n ∙ k));
      } in
      let enough = missing-le-length (referencing structural) start in
      let (d, ran, a) =
        walk_lem (length (referencing structural) + 2) start start start first w (λ b. refl)
          (λ b h. h) (omega (arith, enough)) in
      (
        d,
        rw run ran,
        λ b. (
          a.justified b,
          Falls-found start d a (λ c n k h. ground (arith, what c, complete c n k))
              (λ c h. ground (arith, what c)) b,
        ),
      )
