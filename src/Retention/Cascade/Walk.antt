-- ===== src/Retention/Cascade/Walk.antt =====
-- The maps that retention/cascade.py fills, by their members, and what one round of its walk adds.
use mathlib.Core.List.{append_assoc, append-nil}
use pyboltzmann.Prelude.{
  Bool, true, false, not, ◌&&◌, ◌||◌, List, [], ◌∷◌, ◌++◌, filter, ◌≡◌, refl, ap, sym, ◌∙◌, arith,
  inl, inr, Bool-cases,
}
use pyboltzmann.Prelude.Order.{◌==◌, ==_sound}
use pyboltzmann.Prelude.Sets.{contains, contains-append, contains-filter}
use pyboltzmann.Prelude.Dict.{get, put, set_at}
use pyboltzmann.Prelude.Closure.{flat_map}
use pyboltzmann.Identity.{BlockId, block_order}
use pyboltzmann.Blocks.MemoryType.{MemoryType, memory_order}
use pyboltzmann.Module.Composition.{has}
use pyboltzmann.Retention.Cascade.{
  ByModule, ReferenceIndex, Modules, pointing, update, flatten, place, place_all, update_all,
  Frontier, record_fresh, discover_kinds, discover_from, referencing,
}

pub contains-update :
    (x : BlockId) (kind : MemoryType) (blocks : List BlockId) (d : ByModule)
    → contains x (flatten (update kind blocks d)) ≡ (contains x (flatten d) || contains x blocks)
unfolding update flatten put set_at get contains
contains-update x kind blocks [] = ground (arith, contains-append x blocks [])
contains-update x kind blocks ((k, bs) ∷ d) = ground (
  arith,
  contains-update x kind blocks d,
  contains-append x bs (flatten d),
  contains-append x bs blocks,
  contains-append x (bs ++ blocks) (flatten d),
  contains-append x bs (flatten (update kind blocks d)),
)

-- Whether some module holds the block.
unfoldable pub is_held : Modules → BlockId → Bool
is_held [] b = false
is_held ((_, m) ∷ modules) b = has m.composition b || is_held modules b

contains-place :
    (x b : BlockId) (modules : Modules) (d : ByModule)
    → contains x (flatten (place modules b d))
      ≡ (contains x (flatten d) || ((x == b) && is_held modules b))
unfolding place is_held contains
contains-place x b [] d = ground arith
contains-place x b ((kind, m) ∷ modules) d =
    ground (arith, contains-place x b modules d, contains-update x kind (b ∷ []) d)

pub contains-place_all :
    (x : BlockId) (bs : List BlockId) (modules : Modules) (d : ByModule)
    → contains x (flatten (place_all modules bs d))
      ≡ (contains x (flatten d) || (contains x bs && is_held modules x))
unfolding place_all contains
contains-place_all x [] modules d = ground arith
contains-place_all x (b ∷ bs) modules d = ground (
  arith,
  contains-place_all x bs modules (place modules b d),
  contains-place x b modules d,
  λ (e : (x == b) ≡ true). ap (is_held modules) (==_sound x b e),
)

pub contains-update_all :
    (x : BlockId) (more d : ByModule)
    → contains x (flatten (update_all more d))
      ≡ (contains x (flatten d) || contains x (flatten more))
unfolding update_all flatten contains
contains-update_all x [] d = ground arith
contains-update_all x ((kind, blocks) ∷ more) d = ground (
  arith,
  contains-update_all x more (update kind blocks d),
  contains-update x kind blocks d,
  contains-append x blocks (flatten more),
)

-- What `f` becomes by discovering, among `candidates`, what it has not seen.
pub record Extends (origin : BlockId) (candidates : List BlockId) (f g : Frontier) : Type 0 where
  pub found : List BlockId
  pub seen : g.seen ≡ f.seen ++ found
  pub discovered : g.discovered ≡ f.discovered ++ found
  pub filed :
      (x : BlockId)
      → contains x (flatten g.dependents) ≡ (contains x (flatten f.dependents) || contains x found)
  pub fresh :
      (x : BlockId)
      → contains x found ≡ (contains x candidates && (not (contains x f.seen) && not (x == origin)))

Extends-trans :
    (origin : BlockId) (cs ds : List BlockId) (f g h : Frontier)
    → Extends origin cs f g
    → Extends origin ds g h
    → Extends origin (cs ++ ds) f h
Extends-trans origin cs ds f g h p q = record {
  found = p.found ++ q.found;
  seen = q.seen ∙ ap (λ s. s ++ q.found) p.seen ∙ append_assoc f.seen p.found q.found;
  discovered =
      q.discovered
      ∙ ap (λ s. s ++ q.found) p.discovered
      ∙ append_assoc f.discovered p.found q.found;
  filed = λ x. ground (arith, p.filed x, q.filed x, contains-append x p.found q.found);
  fresh = λ x.
      let grown : contains x g.seen ≡ (contains x f.seen || contains x p.found) =
        ap (contains x) p.seen ∙ contains-append x f.seen p.found in
      ground (
        arith,
        p.fresh x,
        q.fresh x,
        grown,
        contains-append x p.found q.found,
        contains-append x cs ds,
      );
}

Extends-refl : (origin : BlockId) (f : Frontier) → Extends origin [] f f
unfolding contains
Extends-refl origin f = record {
  found = [];
  seen = sym (append-nil f.seen);
  discovered = sym (append-nil f.discovered);
  filed = λ x. ground arith;
  fresh = λ x. ground arith;
}

record_fresh-Extends :
    (origin : BlockId) (kind : MemoryType) (blocks fresh : List BlockId) (f : Frontier)
    → ((x : BlockId)
        → contains x fresh ≡ (contains x blocks && (not (contains x f.seen) && not (x == origin))))
    → Extends origin blocks f (record_fresh kind fresh f)
unfolding record_fresh
record_fresh-Extends origin kind blocks [] f h = record {
  found = [];
  seen = sym (append-nil f.seen);
  discovered = sym (append-nil f.discovered);
  filed = λ x. unfold contains in ground arith;
  fresh = h;
}
record_fresh-Extends origin kind blocks (y ∷ ys) f h = record {
  found = y ∷ ys;
  seen = refl;
  discovered = refl;
  filed = λ x. contains-update x kind (y ∷ ys) f.dependents;
  fresh = h;
}

discover_kinds-Extends :
    (origin : BlockId) (kinds : ByModule) (f : Frontier)
    → Extends origin (flatten kinds) f (discover_kinds origin kinds f)
unfolding discover_kinds flatten
discover_kinds-Extends origin [] f = Extends-refl origin f
discover_kinds-Extends origin ((kind, blocks) ∷ kinds) f =
    let test : BlockId → Bool = λ b. not (contains b f.seen) && not (b == origin) in
    let g = record_fresh kind (filter test blocks) f in
    Extends-trans origin blocks (flatten kinds) f g (discover_kinds origin kinds g)
      (record_fresh-Extends origin kind blocks (filter test blocks) f
        (λ x. contains-filter x test blocks))
      (discover_kinds-Extends origin kinds g)

-- The blocks that point at a block.
abbrev pub pointing_at : ReferenceIndex → BlockId → List BlockId
pointing_at structural b = flatten (pointing b structural)

pub discover_from-Extends :
    (origin : BlockId) (structural : ReferenceIndex) (bs : List BlockId) (f : Frontier)
    → Extends origin (flat_map (pointing_at structural) bs) f (discover_from origin structural bs f)
unfolding discover_from flat_map
discover_from-Extends origin structural [] f = Extends-refl origin f
discover_from-Extends origin structural (b ∷ bs) f =
    let g = discover_kinds origin (pointing b structural) f in
    Extends-trans origin (pointing_at structural b) (flat_map (pointing_at structural) bs) f g
      (discover_from origin structural bs g)
      (discover_kinds-Extends origin (pointing b structural) f)
      (discover_from-Extends origin structural bs g)

pub pointing_at-referencing :
    (index : ReferenceIndex) (b x : BlockId)
    → contains x (pointing_at index b) ≡ true
    → contains x (referencing index) ≡ true
unfolding pointing get referencing contains flatten
pointing_at-referencing [] b x h = absurd (ground arith)
pointing_at-referencing ((k, d) ∷ index) b x h = elim (Bool-cases (k == b)) [
  | inl e ↦
      let here : contains x (flatten d) ≡ true = ground (arith, h, e) in
      ground (arith, here, contains-append x (flatten d) (referencing index))
  | inr n ↦
      let later : contains x (pointing_at index b) ≡ true = ground (arith, h, n) in
      ground (
        arith,
        contains-append x (flatten d) (referencing index),
        pointing_at-referencing index b x later,
      )
]
