-- ===== src/Authenticity/Wire/Canonical.antt =====
-- What authenticity/wire.py reads has one encoding: a string that is read is the one that was framed.
use mathlib.Core.List.{append_assoc}
use pyboltzmann.Prelude.{
  ℕ, ◌+◌, ◌*◌, ◌/◌, ◌%◌, ◌^◌, ◌≤◌, ◌<◌, true, [], ◌∷◌, ◌++◌, length, ltb, ◌≡◌, ◌⊎◌, refl, ap, sym,
  ◌∙◌, arith, inl, inr, List-cases, length-drop,
}
use mathlib.Core.Path.{subst}
use pyboltzmann.Prelude.Bytes.{Bytes}
use pyboltzmann.Exceptions.{ok, raise, signature_format, Result-cases}
use pyboltzmann.Authenticity.Wire.{
  pack, unpack, put_uint32, put_string, WireReader, remaining, fixed, uint32, string_within, string,
  finish,
}
use pyboltzmann.Authenticity.Wire.Laws.{unread, IsReader, advance, fixed_lem}

-- Every element is a byte.
abbrev pub AreBytes : Bytes → Type 0
AreBytes [] = Unit
AreBytes (b ∷ bs) = (b < 256) × AreBytes bs

four :
    (bs : Bytes) → length bs ≡ 4 → (a : ℕ) × (b : ℕ) × (c : ℕ) × (d : ℕ) × (bs ≡ a ∷ b ∷ c ∷ d ∷ [])
four [] h = absurd (omega arith)
four (a ∷ []) h = absurd (omega arith)
four (a ∷ b ∷ []) h = absurd (omega arith)
four (a ∷ b ∷ c ∷ []) h = absurd (omega arith)
four (a ∷ b ∷ c ∷ d ∷ []) h = (a, b, c, d, refl)
four (a ∷ b ∷ c ∷ d ∷ e ∷ bs) h = absurd (omega arith)

four_bytes :
    (a b c d : ℕ)
    → a < 256
    → b < 256
    → c < 256
    → d < 256
    → (pack (a * 16777216 + b * 65536 + c * 256 + d) ≡ a ∷ b ∷ c ∷ d ∷ [])
      × (a * 16777216 + b * 65536 + c * 256 + d < 2 ^ 32)
unfolding pack
four_bytes a b c d pa pb pc pd =
    let n : ℕ = a * 16777216 + b * 65536 + c * 256 + d in
    let ea : n / 16777216 % 256 ≡ a = omega arith in
    let eb : n / 65536 % 256 ≡ b = omega arith in
    let ec : n / 256 % 256 ≡ c = omega arith in
    let ed : n % 256 ≡ d = omega arith in (rw (ea, eb, ec, ed) refl, omega arith)

-- A number that is read from four bytes is packed as those bytes.
uint32-Reads :
    (r s : WireReader) (value : ℕ)
    → AreBytes (unread r)
    → uint32 r ≡ ok (value, s)
    → (unread r ≡ pack value ++ unread s) × (value < 2 ^ 32) × (s ≡ advance r 4)
unfolding uint32 unpack pack
uint32-Reads r s value bytes run = elim (fixed_lem 4 r) [
  | inl (few, e) ↦ absurd (ground (arith, run, e))
  | inr (bs, e, split, size, enough) ↦
      let (a, b, c, d, shape) = four bs size in
      let front : unread r ≡ a ∷ b ∷ c ∷ d ∷ unread (advance r 4) =
        split ∙ ap (λ x. x ++ unread (advance r 4)) shape in
      let (pa, more) = subst AreBytes front bytes in
      let (pb, others) = more in
      let (pc, others') = others in
      let (pd, _) = others' in
      let got : fixed 4 r ≡ ok (a ∷ b ∷ c ∷ d ∷ [], advance r 4) =
        e ∙ ap (λ x. ok (x, advance r 4)) shape in
      let (packed, small) = four_bytes a b c d pa pb pc pd in
      let value_is : a * 16777216 + b * 65536 + c * 256 + d ≡ value = ground (arith, run, got) in
      let next_is : advance r 4 ≡ s = ground (arith, run, got) in
      (
        front
            ∙ ap (λ x. x ++ unread (advance r 4)) (sym packed ∙ ap pack value_is)
            ∙ ap (λ q. pack value ++ unread q) next_is,
        subst (λ x. x < 2 ^ 32) value_is small,
        sym next_is,
      )
]

-- A string that is read is no longer than the reader accepts, framing it gives back exactly the bytes
-- that were consumed, and the rest is left.
pub put_string-string :
    (r s : WireReader) (value : Bytes)
    → AreBytes (unread r)
    → string r ≡ ok (value, s)
    → (framed : Bytes) × (put_string value ≡ ok framed)
      × (unread r ≡ framed ++ unread s)
      × (length value ≤ r.max_string)
unfolding string string_within put_string put_uint32
put_string-string r s value bytes run = elim (Result-cases (uint32 r)) [
  | inr (x, e) ↦ absurd (ground (arith, run, e))
  | inl ((n, mid), e) ↦
      let (front, small, mid_is) = uint32-Reads r mid n bytes e in
      elim (fixed_lem n mid) [
        | inl (few, f) ↦ absurd (ground (arith, run, e, f))
        | inr (bs, f, split, size, enough) ↦
            let bs_is : bs ≡ value = ground (arith, run, e, f) in
            let end_is : advance mid n ≡ s = ground (arith, run, e, f) in
            let cap : n ≤ mid.max_string = ground (arith, run, e) in
            let counted : length value ≡ n = sym (ap length bs_is) ∙ size in
            let fits : ltb (length value) (2 ^ 32) ≡ true = ground (arith, counted, small) in
            (
              pack (length value) ++ value,
              rw fits refl,
              front
                  ∙ ap (λ x. pack n ++ x)
                      (split
                        ∙ ap (λ x. x ++ unread (advance mid n)) bs_is
                        ∙ ap (λ q. value ++ unread q) end_is)
                  ∙ sym (append_assoc (pack n) value (unread s))
                  ∙ ap (λ k. (pack k ++ value) ++ unread s) (sym counted),
              ground (arith, cap, counted, ap (λ q. q.max_string) mid_is),
            )
      ]
]

-- A reader is finished exactly when nothing is unread; otherwise it raises.
pub finish_lem :
    (r : WireReader)
    → IsReader r
    → ((unread r ≡ []) × (finish r ≡ ok tt))
      ⊎ ((0 < length (unread r)) × (finish r ≡ raise signature_format))
unfolding finish remaining
finish_lem r i = elim (List-cases (unread r)) [
  | inl e ↦
      let none_left = sym (length-drop r.offset r.data_bytes) ∙ ap length e in
      inl (e, ground (arith, none_left))
  | inr (x, xs, e) ↦
      let some_left = sym (length-drop r.offset r.data_bytes) ∙ ap length e in
      inr (ground (arith, ap length e), ground (arith, some_left))
]
