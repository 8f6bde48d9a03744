-- ===== src/Authenticity/Wire/Tests.antt =====
-- A frame of three bytes with two bytes after it: runs of authenticity/wire.py, and the theorems at it.
use pyboltzmann.Prelude.{◌≡◌, ◌⊎◌, ◌<◌, ◌≤◌, refl, [], ◌∷◌, ◌++◌, length, take, drop, arith}
use pyboltzmann.Prelude.Bytes.{Bytes}
use pyboltzmann.Exceptions.{ok, raise, signature_format}
use pyboltzmann.Authenticity.Wire.{
  pack, unpack, put_uint32, put_string, WireReader, remaining, fixed, uint32, string_within, string,
  finish,
}
use pyboltzmann.Authenticity.Wire.Laws.{unread, IsReader, advance, fixed_lem, string-put_string}
use pyboltzmann.Authenticity.Wire.Canonical.{AreBytes, put_string-string, finish_lem}

program : Unit {0}
unfolding pack unpack put_uint32 put_string remaining fixed uint32 string_within string finish take
    drop
program = tt

abbrev value : Bytes
value = 7 ∷ 0 ∷ 255 ∷ []

abbrev frame : Bytes
frame = 0 ∷ 0 ∷ 0 ∷ 3 ∷ 7 ∷ 0 ∷ 255 ∷ []

abbrev rest : Bytes
rest = 9 ∷ 9 ∷ []

abbrev reader : WireReader
reader = record { data_bytes = frame ++ rest; offset = 0; max_string = 65536 }

reader-IsReader : IsReader reader
reader-IsReader = record { within = omega arith }

framed : put_string value ≡ ok frame
unfolding program
framed = refl

whole : unread reader ≡ frame ++ rest
unfolding program
whole = refl

string-put_string_example :
    (s : WireReader) × (string reader ≡ ok (value, s)) × (unread s ≡ rest) × IsReader s
string-put_string_example =
    string-put_string reader value frame rest reader-IsReader (omega arith) (omega arith) framed
      whole

reader_runs : string reader ≡ ok (value, advance reader 7)
unfolding program
reader_runs = refl

capped : string (record reader { max_string = 2 }) ≡ raise signature_format
unfolding program
capped = refl

reader-AreBytes : AreBytes (unread reader)
unfolding program
reader-AreBytes = (
  omega arith,
  (
    omega arith,
    (
      omega arith,
      (omega arith, (omega arith, (omega arith, (omega arith, (omega arith, (omega arith, tt)))))),
    ),
  ),
)

put_string-string_case :
    (f : Bytes) × (put_string value ≡ ok f)
    × (unread reader ≡ f ++ unread (advance reader 7))
    × (length value ≤ 65536)
put_string-string_case =
    put_string-string reader (advance reader 7) value reader-AreBytes reader_runs

fixed_lem_example :
    ((remaining reader < 10) × (fixed 10 reader ≡ raise signature_format))
    ⊎ ((bytes : Bytes) × (fixed 10 reader ≡ ok (bytes, advance reader 10))
        × (unread reader ≡ bytes ++ unread (advance reader 10))
        × (length bytes ≡ 10)
        × (10 ≤ remaining reader))
fixed_lem_example = fixed_lem 10 reader

finish_lem_case :
    ((unread reader ≡ []) × (finish reader ≡ ok tt))
    ⊎ ((0 < length (unread reader)) × (finish reader ≡ raise signature_format))
finish_lem_case = finish_lem reader reader-IsReader
