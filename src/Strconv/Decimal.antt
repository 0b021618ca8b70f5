-- ===== src/Strconv/Decimal.antt =====
-- Numbers printed in decimal are parsed back.
use mathlib.Core.List.{concat-ne-nil}
use prometheus_zfs_exporter.Base.{
  ℕ, zero, suc, ◌+◌, ◌-◌, ◌*◌, ◌/◌, ◌%◌, ◌^◌, ◌<◌, ◌≡◌, refl, ◌∙◌, ap, inl, inr, arith, [], ◌∷◌,
  ◌++◌, Bytes, ok, lt-or-le, lt→ltb, le→leb, le→not-ltb, append_assoc, append-nil, sym, ◌≢◌, ◌≤◌,
  All, All-append, All-map, ℤ, ne→not-==,
}
use prometheus_zfs_exporter.Strconv.{
  parse_digits, parse_uint, parse_unsigned, parse_int32, to_pos, print_digits, format_decimal,
}

-- A digit is taken if the number stays below the limit.
parse_digits-digit :
    (limit n d : ℕ) (cs : Bytes)
    → d < 10
    → n * 10 + d < limit
    → parse_digits limit n ((b'0' + d) ∷ cs) ≡ parse_digits limit (n * 10 + d) cs
unfolding parse_digits
parse_digits-digit limit n d cs h fits =
    let value : b'0' + d - b'0' ≡ d = omega arith in
    rw (
      le→leb b'0' (b'0' + d) (omega arith),
      le→leb (b'0' + d) b'9' (omega arith),
      value,
      lt→ltb (n * 10 + d) limit fits,
    )

-- What `print_digits` printed of `n` takes the parser to `n`, whatever stands behind.
parse_digits-print :
    (limit fuel n : ℕ) (cs : Bytes)
    → n < fuel
    → n < limit
    → parse_digits limit 0 (print_digits 10 fuel n ++ cs) ≡ parse_digits limit n cs
unfolding print_digits
parse_digits-print limit zero n cs h fits = absurd (omega arith)
parse_digits-print limit (suc fuel) n cs h fits = elim (lt-or-le n 10) [
  | inl small ↦
      let value : 0 * 10 + n ≡ n = omega arith in
      rw (lt→ltb n 10 small) (
        parse_digits-digit limit 0 n cs small (omega arith)
        ∙ ap (λ k. parse_digits limit k cs) value)
  | inr large ↦
      let last : n % 10 < 10 = omega arith in
      let value : n / 10 * 10 + n % 10 ≡ n = omega arith in
      rw (le→not-ltb n 10 large, append_assoc, lt→ltb (n % 10) 10 last)
        (parse_digits-print limit fuel (n / 10) ((b'0' + n % 10) ∷ cs) (omega arith) (omega arith)
          ∙ parse_digits-digit limit (n / 10) (n % 10) cs last (omega arith)
          ∙ ap (λ k. parse_digits limit k cs) value)
]

print_digits-ne_nil : (base fuel n : ℕ) → print_digits base (suc fuel) n ≢ []
unfolding print_digits
print_digits-ne_nil base fuel n = elim (lt-or-le n base) [
  | inl small ↦ rw (lt→ltb n base small) (λ e. cc)
  | inr large ↦ rw (le→not-ltb n base large) (λ e. concat-ne-nil _ _ e)
]

parse_uint-ne_nil : (bs : Bytes) → bs ≢ [] → parse_uint bs ≡ parse_digits (2 ^ 64) 0 bs
unfolding parse_uint
parse_uint-ne_nil [] h = absurd (h refl)
parse_uint-ne_nil (c ∷ cs) h = refl

-- `ParseUint` reads back what `%d` prints of a 64 bit number.
pub parse_uint-format_decimal : (n : ℕ) → n < 2 ^ 64 → parse_uint (format_decimal n) ≡ ok n
unfolding parse_digits
parse_uint-format_decimal n h =
    parse_uint-ne_nil (format_decimal n) (print_digits-ne_nil 10 n n)
    ∙ ap (parse_digits (2 ^ 64) 0) (sym (append-nil (format_decimal n)))
    ∙ parse_digits-print (2 ^ 64) (suc n) n [] (omega arith) h

parse_digits-lt :
    (limit n m : ℕ) (cs : Bytes) → n < limit → parse_digits limit n cs ≡ ok m → m < limit
unfolding parse_digits
parse_digits-lt limit n m [] h e = ground arith
parse_digits-lt limit n m (c ∷ cs) h e =
    ground (arith, parse_digits-lt limit (n * 10 + (c - b'0')) m cs)

-- A number that `ParseUint` accepts fits in 64 bits.
pub parse_uint-lt : (bs : Bytes) (n : ℕ) → parse_uint bs ≡ ok n → n < 2 ^ 64
unfolding parse_uint
parse_uint-lt [] n e = ground arith
parse_uint-lt (c ∷ cs) n e = parse_digits-lt (2 ^ 64) 0 n (c ∷ cs) (omega arith) e

-- The bytes of a printed number are digits.
digits-All : (fuel n : ℕ) → All (λ c. (b'0' ≤ c) × (c ≤ b'9')) (print_digits 10 fuel n)
unfolding print_digits
digits-All zero n = tt
digits-All (suc fuel) n = elim (lt-or-le n 10) [
  | inl small ↦ rw (lt→ltb n 10 small) ((omega arith, omega arith), tt)
  | inr large ↦
      let last : n % 10 < 10 = omega arith in
      rw (le→not-ltb n 10 large, lt→ltb (n % 10) 10 last)
        (All-append _ (print_digits 10 fuel (n / 10)) ((b'0' + n % 10) ∷ [])
          (digits-All fuel (n / 10)) ((omega arith, omega arith), tt))
]

-- None of them is a blank.
pub format_decimal-All : (n : ℕ) → All (λ c. c ≢ b' ') (format_decimal n)
format_decimal-All n = All-map (format_decimal n) (λ c h. omega arith) (digits-All (suc n) n)

parse_int32-digits :
    (bs : Bytes)
    → bs ≢ []
    → All (λ c. (b'0' ≤ c) × (c ≤ b'9')) bs
    → parse_int32 bs ≡ to_pos (parse_digits (2 ^ 31) 0 bs)
unfolding parse_int32 parse_unsigned
parse_int32-digits [] ne h = absurd (ne refl)
parse_int32-digits (c ∷ cs) ne h =
    rw (ne→not-== c b'-' (omega arith), ne→not-== c b'+' (omega arith))

-- `ParseInt` reads back what `%d` prints of a number below 2 ^ 31.
pub parse_int32-format_decimal :
    (n : ℕ) → n < 2 ^ 31 → parse_int32 (format_decimal n) ≡ ok (ℤ.pos n)
unfolding parse_digits
parse_int32-format_decimal n h =
    parse_int32-digits (format_decimal n) (print_digits-ne_nil 10 n n) (digits-All (suc n) n)
    ∙ ap to_pos (
        ap (parse_digits (2 ^ 31) 0) (sym (append-nil (format_decimal n)))
        ∙ parse_digits-print (2 ^ 31) (suc n) n [] (omega arith) h)
