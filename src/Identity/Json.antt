-- ===== src/Identity/Json.antt =====
-- JSON-shaped values, as Python's `json` module decodes them: the members of an object in the order in
-- which they stand. `constant` is a token `NaN`, `Infinity` or `-Infinity`; a float is its literal.
use pyboltzmann.Prelude.{ℕ, Bool, false, ◌||◌, Option, none, some, if◌then◌else◌}
use pyboltzmann.Prelude.Order.{◌==◌}
use pyboltzmann.Prelude.Bytes.{bytes_order}
use pyboltzmann.Prelude.Texts.{Text}

pub data ℤ : Type 0 where
  pos : ℕ → ℤ
  negsuc : ℕ → ℤ

mutual
  pub data Json : Type 0 where
    null : Json
    boolean : Bool → Json
    integer : ℤ → Json
    float : Text → Json
    constant : Text → Json
    string : Text → Json
    array : Items → Json
    object : Members → Json

  pub data Items : Type 0 where
    nil : Items
    item : Json → Items → Items

  pub data Members : Type 0 where
    end : Members
    member : Text → Json → Members → Members

-- `key in d`
unfoldable pub has_member : Text → Members → Bool
has_member k end = false
has_member k (member j v ms) = (k == j) || has_member k ms

-- `d.get(key)`
unfoldable pub member_at : Text → Members → Option Json
member_at k end = none
member_at k (member j v ms) = if j == k then some v else member_at k ms
