-- ===== src/Authenticity/Wire.antt =====
-- authenticity/wire.py: the framing that SSH structures are built from. Values are never negative
-- here: what is framed is a length or a count.
pub mod Laws
pub mod Canonical
mod Tests
use pyboltzmann.Prelude.{
  ℕ, ◌+◌, ◌-◌, ◌*◌, ◌/◌, ◌%◌, ◌^◌, List, [], ◌∷◌, ◌++◌, length, take, drop, ltb, not, if◌then◌else◌,
  eqb,
}
use pyboltzmann.Prelude.Bytes.{Bytes}
use pyboltzmann.Exceptions.{Result, ok, raise, ◌>>=◌, signature_format, value_error}

abbrev pub max_string_default : ℕ
max_string_default = 2 ^ 16

-- `struct.Struct(">I")`: four bytes, big-endian.
unfoldable pub pack : ℕ → Bytes
pack value = value / 16777216 % 256 ∷ value / 65536 % 256 ∷ value / 256 % 256 ∷ value % 256 ∷ []

unfoldable pub unpack : Bytes → Result ℕ
unpack (a ∷ b ∷ c ∷ d ∷ []) = ok (a * 16777216 + b * 65536 + c * 256 + d)
unpack _ = raise value_error

unfoldable pub put_uint32 : ℕ → Result Bytes
put_uint32 value = if not (ltb value (2 ^ 32)) then raise signature_format else ok (pack value)

unfoldable pub put_string : Bytes → Result Bytes
put_string value = do count ← put_uint32 (length value); ok (count ++ value)

pub record WireReader : Type 0 where
  pub data_bytes : Bytes
  pub offset : ℕ
  pub max_string : ℕ

-- `WireReader(data, max_string)`
unfoldable pub open_reader : Bytes → ℕ → WireReader
open_reader data_bytes max_string = record {
  data_bytes = data_bytes;
  offset = 0;
  max_string = max_string;
}

unfoldable pub remaining : WireReader → ℕ
remaining r = length r.data_bytes - r.offset

unfoldable pub fixed : ℕ → WireReader → Result (Bytes × WireReader)
fixed count r =
    if ltb (remaining r) count
    then raise signature_format
    else ok (take count (drop r.offset r.data_bytes), record r { offset = r.offset + count })

unfoldable pub uint32 : WireReader → Result (ℕ × WireReader)
uint32 r = do (bytes, r₁) ← fixed 4 r; value ← unpack bytes; ok (value, r₁)

unfoldable pub string_within : ℕ → WireReader → Result (Bytes × WireReader)
string_within count r = if ltb r.max_string count then raise signature_format else fixed count r

unfoldable pub string : WireReader → Result (Bytes × WireReader)
string r = do (count, r₁) ← uint32 r; string_within count r₁

unfoldable pub finish : WireReader → Result (Unit {0})
finish r = if not (eqb (remaining r) 0) then raise signature_format else ok tt
