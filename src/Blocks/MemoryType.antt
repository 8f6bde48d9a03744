-- ===== src/Blocks/MemoryType.antt =====
-- blocks/memory_type.py: the five memory modules.
use pyboltzmann.Prelude.Order.{LinearOrder}
use pyboltzmann.Prelude.{ℕ, ltb, ◌≡◌, Bool, true, false, not, List, [], ◌∷◌, arith}

pub data MemoryType : Type 0 where
  canonical episodic semantic procedural provenance : MemoryType

unfoldable pub is_append_only : MemoryType → Bool
is_append_only episodic = true
is_append_only _ = false

unfoldable pub is_droppable : MemoryType → Bool
unfolding is_append_only
is_droppable memory_type = not (is_append_only memory_type)

unfoldable pub is_derived : MemoryType → Bool
is_derived semantic = true
is_derived procedural = true
is_derived _ = false

pub MemoryType-discrete : Discrete MemoryType
MemoryType-discrete = hlevel

-- `a is b`
unfoldable pub is_same : MemoryType → MemoryType → Bool
is_same canonical canonical = true
is_same episodic episodic = true
is_same semantic semantic = true
is_same procedural procedural = true
is_same provenance provenance = true
is_same _ _ = false

-- `for memory_type in MemoryType`
abbrev pub memory_types : List MemoryType
memory_types = canonical ∷ episodic ∷ semantic ∷ procedural ∷ provenance ∷ []

pub is_same_self : (m n : MemoryType) → m ≡ n → is_same m n ≡ true
unfolding is_same
is_same_self canonical n e = ground arith
is_same_self episodic n e = ground arith
is_same_self semantic n e = ground arith
is_same_self procedural n e = ground arith
is_same_self provenance n e = ground arith

-- The keys of a dictionary of modules.
abbrev pub rank : MemoryType → ℕ
rank canonical = 0
rank episodic = 1
rank semantic = 2
rank procedural = 3
rank provenance = 4

pub rank-injective : (m n : MemoryType) → rank m ≡ rank n → m ≡ n
rank-injective canonical n e = ground arith
rank-injective episodic n e = ground arith
rank-injective semantic n e = ground arith
rank-injective procedural n e = ground arith
rank-injective provenance n e = ground arith

pub rank_irrefl : (m : MemoryType) → ltb (rank m) (rank m) ≡ false
rank_irrefl m = ground arith

pub rank_trans :
    (m n k : MemoryType)
    → ltb (rank m) (rank n) ≡ true
    → ltb (rank n) (rank k) ≡ true
    → ltb (rank m) (rank k) ≡ true
rank_trans m n k p q = ground arith

pub rank_connex :
    (m n : MemoryType) → ltb (rank m) (rank n) ≡ false → ltb (rank n) (rank m) ≡ false → m ≡ n
rank_connex m n p q = rank-injective m n (ground arith)

instance abbrev pub memory_order : LinearOrder MemoryType
memory_order = record {
  lt = λ m n. ltb (rank m) (rank n);
  lt_irrefl = rank_irrefl;
  lt_trans = rank_trans;
  lt_connex = rank_connex;
}
