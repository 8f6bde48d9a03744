-- ===== src/Module/Composition/Laws.antt =====
-- What the operations of module/composition.py do to the members and the root of a version.
use pyboltzmann.Prelude.{
  ◌≡◌, refl, sym, ◌∙◌, Bool, true, false, not, ◌&&◌, ◌||◌, ◌⊎◌, inl, inr, List, [],
}
use pyboltzmann.Prelude.Sets.{contains, union, difference, contains-append, contains-difference}
use pyboltzmann.Prelude.Sorting.{
  IsAscending, sorted_set-IsAscending, sorted_set_of_ascending, ascending_unique,
}
use pyboltzmann.Exceptions.{ok, raise, append_only_violation}
use pyboltzmann.Identity.{BlockId, block_order}
use pyboltzmann.Blocks.MemoryType.{MemoryType, is_append_only}
use pyboltzmann.Merkle.Tree
use pyboltzmann.Merkle.Tree.{MerkleTree, sorted_leaves}
use pyboltzmann.Merkle.Positions.{contains-sorted_leaves}
use pyboltzmann.Module.Composition.{Composition, make, block_ids, has, add, drop}

-- Every composition comes from `make`, and so has its leaves in order and no cached hash.
pub record IsVersion (c : Composition) : Type 0 where
  pub ascending : IsAscending (block_ids c)
  pub fresh : c.tree.nodes ≡ []

pub make-IsVersion : (m : MemoryType) (bs : List BlockId) → IsVersion (make m bs)
unfolding make Tree.init sorted_leaves
make-IsVersion m bs = record { ascending = sorted_set-IsAscending bs; fresh = refl }

pub has-make :
    (m : MemoryType) (bs : List BlockId) (b : BlockId) → has (make m bs) b ≡ contains b bs
unfolding make has Tree.init
has-make m bs b = contains-sorted_leaves b bs

-- A version is `make` of its own members.
pub make_self : (c : Composition) → IsVersion c → make c.memory_type (block_ids c) ≡ c
unfolding make Tree.init sorted_leaves
make_self c v =
    let leaves = sorted_set_of_ascending (block_ids c) v.ascending in
    λ i. record {
      memory_type = c.memory_type;
      tree = record { leaves = leaves i; nodes = sym v.fresh i };
    }

-- Two versions of one module with the same members are one version.
pub version_unique :
    (c d : Composition)
    → IsVersion c
    → IsVersion d
    → c.memory_type ≡ d.memory_type
    → ((b : BlockId) → has c b ≡ has d b)
    → c ≡ d
unfolding has
version_unique c d v w m same =
    let leaves = ascending_unique (block_ids c) (block_ids d) v.ascending w.ascending same in
    let nodes = v.fresh ∙ sym w.fresh in
    λ i. record { memory_type = m i; tree = record { leaves = leaves i; nodes = nodes i } }

-- Adding keeps every member and adds exactly the blocks named.
pub has-add :
    (c : Composition) (bs : List BlockId) (b : BlockId)
    → has (add c bs) b ≡ (has c b || contains b bs)
unfolding add has
has-add c bs b =
    has-make c.memory_type (union (block_ids c) bs) b ∙ contains-append b (block_ids c) bs

-- Dropping is refused by an append-only module, and otherwise returns a version of the same module
-- without exactly the blocks named.
pub drop_lem :
    (c : Composition) (bs : List BlockId)
    → ((is_append_only c.memory_type ≡ true) × (drop c bs ≡ raise append_only_violation))
      ⊎ ((is_append_only c.memory_type ≡ false)
          × ((d : Composition) × (drop c bs ≡ ok d)
              × IsVersion d
              × (d.memory_type ≡ c.memory_type)
              × ((b : BlockId) → has d b ≡ (has c b && not (contains b bs)))))
unfolding drop
drop_lem c bs = go (is_append_only c.memory_type) refl
  where
    kept : List BlockId
    kept = difference (block_ids c) bs

    go :
        (t : Bool)
        → is_append_only c.memory_type ≡ t
        → ((is_append_only c.memory_type ≡ true) × (drop c bs ≡ raise append_only_violation))
          ⊎ ((is_append_only c.memory_type ≡ false)
              × ((d : Composition) × (drop c bs ≡ ok d)
                  × IsVersion d
                  × (d.memory_type ≡ c.memory_type)
                  × ((b : BlockId) → has d b ≡ (has c b && not (contains b bs)))))
    go true e = inl (e, rw (e, drop))
    go false e = inr (
      e,
      (
        make c.memory_type kept,
        rw (e, drop),
        make-IsVersion c.memory_type kept,
        unfold make in refl,
        λ b. has-make c.memory_type kept b ∙ unfold has in contains-difference b (block_ids c) bs,
      ),
    )
