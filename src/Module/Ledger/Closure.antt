-- ===== src/Module/Ledger/Closure.antt =====
-- `Ledger.closure` of module/ledger.py: it ends, and what it finds is what cites the origin,
-- directly or through other blocks.
use pyboltzmann.Prelude.{
  ℕ, zero, suc, Bool, true, false, not, ◌&&◌, ◌||◌, List, [], ◌∷◌, length, ◌≡◌, ◌≢◌, false≢true,
  refl, ◌<◌, ◌+◌, arith, inl, inr, ◌⊎◌, sym, ap, ◌∙◌, Bool-cases, List-cases,
}
use pyboltzmann.Prelude.Order.{◌==◌, ==_sound, ==_refl}
use pyboltzmann.Prelude.Sets.{contains, union, contains-append, contains-filter}
use pyboltzmann.Prelude.Dict.{Dict, get, set_at}
use pyboltzmann.Prelude.Closure.{
  flat_map, missing, IsWalk, IsRound, IsClosed, IsRound-IsWalk, IsWalk-IsClosed, IsRound-missing,
  missing-le-length,
}
use pyboltzmann.Exceptions.{ok}
use pyboltzmann.Identity.{BlockId, block_order}
use pyboltzmann.Module.Ledger.{Ledger, dependents_of, discover, closure_loop, citing, closure}

-- A block that cites `origin`, or one that cites such a block.
pub data Cites (l : Ledger) (origin : BlockId) : BlockId → Type 0 where
  directly : {b : BlockId} → contains b (dependents_of l origin) ≡ true → Cites l origin b
  through :
      {b d : BlockId} → Cites l origin b → contains d (dependents_of l b) ≡ true → Cites l origin d

set_at-citing :
    (d : Dict BlockId (List BlockId)) (b c : BlockId)
    → contains c (set_at b d) ≡ true
    → contains c (citing d) ≡ true
unfolding set_at get citing contains
set_at-citing [] b c h = absurd (ground arith)
set_at-citing ((k, cs) ∷ d) b c h = elim (Bool-cases (k == b)) [
  | inl e ↦ ground (arith, contains-append c cs (citing d))
  | inr n ↦
      let later : contains c (set_at b d) ≡ true = ground (arith, n) in
      ground (arith, contains-append c cs (citing d), set_at-citing d b c later)
]

module _ (l : Ledger) (origin : BlockId) where
  abbrev next : BlockId → List BlockId
  next = dependents_of l

  abbrev is_origin : BlockId → Bool
  is_origin d = d == origin

  abbrev Known : BlockId → Type 0
  Known b = (b ≡ origin) ⊎ Cites l origin b

  Known-next : (b d : BlockId) → Known b → contains d (next b) ≡ true → Known d
  Known-next b d (inl e) h = inr (directly (ap (λ o. contains d (next o)) (sym e) ∙ h))
  Known-next b d (inr c) h = inr (through c h)

  discover-IsRound :
      (found frontier : List BlockId)
      → IsRound next is_origin (origin ∷ []) Known found frontier (discover l origin found frontier)
  unfolding discover
  discover-IsRound found frontier = record {
    fresh = λ d.
        contains-filter d (λ c. not (contains c found) && not (c == origin))
          (flat_map next frontier);
  }

  -- What a closed set is: everything in it cites the origin and everything that cites it is there.
  record IsAnswer (found : List BlockId) : Type 0 where
    closed : IsClosed next is_origin (origin ∷ []) Known found
    justified : (b : BlockId) → contains b found ≡ true → Known b
    apart : contains origin found ≡ false

  closure_loop_lem :
      (fuel : ℕ) (found frontier : List BlockId)
      → IsWalk next is_origin (origin ∷ []) Known found frontier
      → contains origin found ≡ false
      → missing (citing l.dependents) found < fuel
      → (r : List BlockId) × (closure_loop fuel l origin found frontier ≡ ok r) × IsAnswer r
  unfolding closure_loop contains
  closure_loop_lem zero found frontier w a h = absurd (omega arith)
  closure_loop_lem (suc fuel) found [] w a h = (
    found,
    refl,
    record {
      closed = λ b d k m. w.settled b d k refl m;
      justified = λ b k. w.reached b (ground arith);
      apart = a;
    },
  )
  closure_loop_lem (suc fuel) found (f ∷ frontier) w a h =
      elim (List-cases (discover l origin found (f ∷ frontier))) [
        | inl e ↦ (
          found,
          rw (e, closure_loop) refl,
          record {
            closed =
                IsWalk-IsClosed next is_origin (origin ∷ []) Known found (f ∷ frontier)
                  (discover l origin found (f ∷ frontier)) w (discover-IsRound found (f ∷ frontier))
                  (λ d. ap (contains d) e);
            justified = λ b k. w.reached b (ground arith);
            apart = a;
          },
        )
        | inr (d, ds, e) ↦
            let round : IsRound next is_origin (origin ∷ []) Known found (f ∷ frontier) (d ∷ ds) =
              record {
                fresh =
                    λ c. ap (contains c) (sym e) ∙ (discover-IsRound found (f ∷ frontier)).fresh c;
              } in
            let walk =
              IsRound-IsWalk next is_origin (origin ∷ []) Known found (f ∷ frontier) (d ∷ ds)
                (λ b c k m _. Known-next b c k m) w round in
            let less =
              IsRound-missing next is_origin (origin ∷ []) Known (citing l.dependents) found
                (f ∷ frontier) (d ∷ ds) d (λ b c. set_at-citing l.dependents b c) round
                (ground (arith, ==_refl d)) in
            let clean : contains origin (union found (d ∷ ds)) ≡ false =
              ground (
                arith,
                round.fresh origin,
                ==_refl origin,
                contains-append origin found (d ∷ ds),
              ) in
            let (r, run, good) =
              closure_loop_lem fuel (union found (d ∷ ds)) (d ∷ ds) walk clean
                (omega (arith, less)) in
            (r, rw (e, closure_loop) run, good)
      ]

  Known-found :
      (found : List BlockId)
      → IsAnswer found
      → (b : BlockId) → Cites l origin b
      → (is_origin b || contains b found) ≡ true
  unfolding contains
  Known-found found g b (directly h) = g.closed origin b (ground (arith, ==_refl origin)) h
  Known-found found g d (through {b} c h) =
      let here = Known-found found g b c in g.closed b d (ground arith) h

  -- The closure of a block ends, and holds exactly the blocks other than it that cite it, directly or
  -- through a chain of citations; the ledger may have cycles.
  pub closure-Cites :
      (found : List BlockId) × (closure l origin ≡ ok found)
      × ((b : BlockId) → contains b found ≡ true → (b ≢ origin) × Cites l origin b)
      × ((b : BlockId) → b ≢ origin → Cites l origin b → contains b found ≡ true)
  unfolding closure contains
  closure-Cites =
      let start : IsWalk next is_origin (origin ∷ []) Known [] (origin ∷ []) = record {
        inside = λ b h. ground arith;
        reached = λ b h. inl (==_sound b origin (ground arith));
        settled = λ b d k n m. absurd (ground arith);
      } in
      let enough = missing-le-length (citing l.dependents) [] in
      let (found, run, g) =
        closure_loop_lem (length (citing l.dependents) + 2) [] (origin ∷ []) start refl
          (omega (arith, enough)) in
      (
        found,
        run,
        (λ b h. elim (g.justified b h) [
          | inl e ↦ absurd (false≢true (sym g.apart ∙ ap (λ o. contains o found) (sym e) ∙ h))
          | inr c ↦ ((λ e. false≢true (sym g.apart ∙ ap (λ o. contains o found) (sym e) ∙ h)), c)
        ]),
        (λ b n c.
            let here = Known-found found g b c in
            elim (Bool-cases (is_origin b)) [
              | inl e ↦ absurd (n (==_sound b origin e))
              | inr e ↦ ground (arith, here)
            ]),
      )
