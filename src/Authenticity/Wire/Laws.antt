-- ===== src/Authenticity/Wire/Laws.antt =====
-- Reading by authenticity/wire.py: what was framed is read back, what is read was framed that way, and
-- no read goes past the end.
use mathlib.Core.List.{append_assoc}
use pyboltzmann.Prelude.{
  ℕ, ◌+◌, ◌-◌, ◌^◌, ◌≤◌, ◌<◌, true, false, ◌++◌, length, take, drop, length-append, take-append,
  drop-append, drop-drop, take-drop, length-drop, length-take, ltb, ◌≡◌, ◌⊎◌, refl, ap, sym, ◌∙◌,
  arith, inl, inr, Bool-cases,
}
use pyboltzmann.Prelude.Bytes.{Bytes}
use pyboltzmann.Exceptions.{ok, raise, signature_format}
use pyboltzmann.Authenticity.Wire.{
  pack, unpack, put_uint32, put_string, WireReader, remaining, fixed, uint32, string_within, string,
}

-- What has not been read yet.
abbrev pub unread : WireReader → Bytes
unread r = drop r.offset r.data_bytes

-- A reader that has not gone past the end.
pub record IsReader (r : WireReader) : Type 0 where
  pub within : r.offset ≤ length r.data_bytes

abbrev pub advance : WireReader → ℕ → WireReader
advance r count = record r { offset = r.offset + count }

-- What reading `xs` off the front leaves.
pub record Leaves (r : WireReader) (xs ys : Bytes) : Type 0 where
  pub taken : fixed (length xs) r ≡ ok (xs, advance r (length xs))
  pub left : unread (advance r (length xs)) ≡ ys
  pub reader : IsReader (advance r (length xs))

pub fixed-Leaves :
    (r : WireReader) (xs ys : Bytes) → IsReader r → unread r ≡ xs ++ ys → Leaves r xs ys
unfolding fixed remaining
fixed-Leaves r xs ys i h =
    let size : length r.data_bytes - r.offset ≡ length xs + length ys =
      sym (length-drop r.offset r.data_bytes) ∙ ap length h ∙ length-append xs ys in
    let enough : ltb (length r.data_bytes - r.offset) (length xs) ≡ false = ground (arith, size) in
    record {
      taken =
          rw enough
            (ap (λ b. ok (b, advance r (length xs))) (ap (take (length xs)) h ∙ take-append xs ys));
      left =
          sym (drop-drop r.offset (length xs) r.data_bytes)
          ∙ ap (drop (length xs)) h
          ∙ drop-append xs ys;
      reader = record { within = omega (arith, size, i.within) };
    }

unpack-pack : (value : ℕ) → value < 2 ^ 32 → unpack (pack value) ≡ ok value
unfolding unpack pack
unpack-pack value h = ap ok (omega arith)

-- A framed string is read back, whatever follows it, where it is no longer than the reader accepts and
-- its length fits in 32 bits; what follows is left.
pub string-put_string :
    (r : WireReader) (value framed rest : Bytes)
    → IsReader r
    → length value < 2 ^ 32
    → length value ≤ r.max_string
    → put_string value ≡ ok framed
    → unread r ≡ framed ++ rest
    → (s : WireReader) × (string r ≡ ok (value, s)) × (unread s ≡ rest) × IsReader s
unfolding string uint32 string_within put_string put_uint32 pack
string-put_string r value framed rest i fits cap put h =
    let n : ℕ = length value in
    let small : ltb n (2 ^ 32) ≡ true = ground arith in
    let short : ltb r.max_string n ≡ false = ground arith in
    let is_framed : pack n ++ value ≡ framed = ground (arith, put, small) in
    let front : unread r ≡ pack n ++ (value ++ rest) =
      h ∙ ap (λ f. f ++ rest) (sym is_framed) ∙ append_assoc (pack n) value rest in
    let first = fixed-Leaves r (pack n) (value ++ rest) i front in
    let second = fixed-Leaves (advance r 4) value rest first.reader first.left in
    let counted : uint32 r ≡ ok (n, advance r 4) = rw (first.taken, unpack-pack n fits) refl in
    (advance (advance r 4) n, rw (counted, short) second.taken, second.left, second.reader)

-- A read of a number of bytes either fails, with fewer left, or takes exactly that many off the front.
pub fixed_lem :
    (count : ℕ) (r : WireReader)
    → ((remaining r < count) × (fixed count r ≡ raise signature_format))
      ⊎ ((bytes : Bytes) × (fixed count r ≡ ok (bytes, advance r count))
          × (unread r ≡ bytes ++ unread (advance r count))
          × (length bytes ≡ count)
          × (count ≤ remaining r))
unfolding fixed remaining
fixed_lem count r = elim (Bool-cases (ltb (length r.data_bytes - r.offset) count)) [
  | inl e ↦ inl (ground arith, rw e refl)
  | inr n ↦
      let enough : count ≤ length (unread r) = ground (arith, length-drop r.offset r.data_bytes) in
      inr (
        take count (unread r),
        rw n refl,
        sym (take-drop count (unread r))
            ∙ ap (λ d. take count (unread r) ++ d) (drop-drop r.offset count r.data_bytes),
        length-take count (unread r) enough,
        ground arith,
      )
]
