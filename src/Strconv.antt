-- ===== src/Strconv.antt =====
-- Go's `strconv.ParseUint` and `strconv.ParseInt` in base 10, as the program uses them, and the
-- decimal printing of `%d`.
pub mod Decimal
mod Tests
use prometheus_zfs_exporter.Base.{
  ℕ, zero, suc, ◌+◌, ◌*◌, ◌-◌, ◌/◌, ◌%◌, ◌++◌, ◌^◌, Bool, ◌&&◌, [], ◌∷◌, Bytes, ℤ, negsuc, Error,
  message, Result, ok, err, leb, ltb, ◌==◌, if◌then◌else◌,
}

abbrev pub is_digit : ℕ → Bool
is_digit c = leb b'0' c && leb c b'9'

-- `strconv.ErrSyntax` and `strconv.ErrRange`.
abbrev pub err_syntax : Error
err_syntax = message "invalid syntax"

abbrev pub err_range : Error
err_range = message "value out of range"

-- The digits of a number below `limit`, after those that made `n`.
unfoldable pub parse_digits : ℕ → ℕ → Bytes → Result ℕ
parse_digits limit n [] = ok n
parse_digits limit n (c ∷ cs) =
    let more = parse_digits limit (n * 10 + (c - b'0')) cs in
    if is_digit c
    then (if ltb (n * 10 + (c - b'0')) limit then more else err err_range)
    else err err_syntax

-- `ParseUint(s, 10, 64)`
unfoldable pub parse_uint : Bytes → Result ℕ
parse_uint [] = err err_syntax
parse_uint (c ∷ cs) = parse_digits (2 ^ 64) 0 (c ∷ cs)

-- The number behind a sign; the limits are those of a 32 bit integer.
abbrev pub to_pos : Result ℕ → Result ℤ
to_pos (ok n) = ok (ℤ.pos n)
to_pos (err e) = err e
to_pos (Result.panicked p) = Result.panicked p
to_pos Result.out_of_fuel = Result.out_of_fuel

abbrev pub to_neg : Result ℕ → Result ℤ
to_neg (ok zero) = ok (ℤ.pos zero)
to_neg (ok (suc n)) = ok (negsuc n)
to_neg (err e) = err e
to_neg (Result.panicked p) = Result.panicked p
to_neg Result.out_of_fuel = Result.out_of_fuel

unfoldable pub parse_unsigned : ℕ → Bytes → Result ℕ
parse_unsigned limit [] = err err_syntax
parse_unsigned limit (c ∷ cs) = parse_digits limit 0 (c ∷ cs)

-- `ParseInt(s, 10, 32)`
unfoldable pub parse_int32 : Bytes → Result ℤ
parse_int32 [] = err err_syntax
parse_int32 (c ∷ cs) =
    if c == b'-'
    then to_neg (parse_unsigned (2 ^ 31 + 1) cs)
    else if c == b'+'
    then to_pos (parse_unsigned (2 ^ 31) cs)
    else to_pos (parse_unsigned (2 ^ 31) (c ∷ cs))

-- The digit that stands for `d` below 16, in lower case.
abbrev pub digit : ℕ → ℕ
digit d = if ltb d 10 then b'0' + d else b'a' + (d - 10)

-- `%d` for base 10, `%x` for base 16: the last digit is that of the remainder. There are at most
-- as many digits as the number says, and one for zero.
unfoldable pub print_digits : ℕ → ℕ → ℕ → Bytes
print_digits base zero n = []
print_digits base (suc fuel) n =
    let front = print_digits base fuel (n / base) in
    if ltb n base then digit n ∷ [] else front ++ digit (n % base) ∷ []

abbrev pub format_decimal : ℕ → Bytes
format_decimal n = print_digits 10 (suc n) n

abbrev pub format_hex : ℕ → Bytes
format_hex n = print_digits 16 (suc n) n
