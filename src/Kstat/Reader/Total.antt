-- ===== src/Kstat/Reader/Total.antt =====
-- The kstat reader on any file: it never panics, and each row takes it further on.
use prometheus_zfs_exporter.Base.{
  ◌*◌, ◌-◌, ◌^◌, ltb, continue, ℕ, zero, suc, ◌+◌, ◌≤◌, ◌≡◌, refl, arith, Bool, true, false,
  Bool-cases, inl, inr, [], ◌∷◌, Bytes, length, ◌==◌, if◌then◌else◌, ==→eq, Error, Result, ok, err,
  wrap_err, raise_if, Ends, returns, raises, Ends-bind, Ends-raise_if, String,
}
use mathlib.Core.Path.{subst}
use prometheus_zfs_exporter.Strconv.{
  is_digit, parse_digits, parse_unsigned, parse_uint, parse_int32, to_pos, to_neg,
}
use prometheus_zfs_exporter.Kstat.Reader.{
  lift, to_uint8, row_data_as_uint64, read_header, read_column, read_column_headers, KstatReader,
  Read, read_until_exclude, when, next, start,
}
use prometheus_zfs_exporter.Kstat.Reader.Within.{
  Within, Any, read_until_exclude-Within, read_token-Within, Ends-wrap_err, Ends-replace_err,
  read_row-Within,
}

-- A conversion that neither panics nor runs out of fuel.
data Returns {A : Type 0} : Result A → Type 0 where
  is_ok : {a : A} → Returns (ok a)
  is_err : {e : Error} → Returns (err e)

if-Returns :
    {A : Type 0} (b : Bool) (x y : Result A) → Returns x → Returns y → Returns (if b then x else y)
if-Returns true x y p q = p
if-Returns false x y p q = q

parse_digits-Returns : (limit n : ℕ) (cs : Bytes) → Returns (parse_digits limit n cs)
unfolding parse_digits
parse_digits-Returns limit n [] = is_ok
parse_digits-Returns limit n (c ∷ cs) =
    if-Returns (is_digit c) _ _
      (if-Returns (ltb (n * 10 + (c - b'0')) limit) _ _
        (parse_digits-Returns limit (n * 10 + (c - b'0')) cs) is_err)
      is_err

parse_unsigned-Returns : (limit : ℕ) (cs : Bytes) → Returns (parse_unsigned limit cs)
unfolding parse_unsigned
parse_unsigned-Returns limit [] = is_err
parse_unsigned-Returns limit (c ∷ cs) = parse_digits-Returns limit 0 (c ∷ cs)

to_pos-Returns : {x : Result ℕ} → Returns x → Returns (to_pos x)
to_pos-Returns is_ok = is_ok
to_pos-Returns is_err = is_err

to_neg-Returns : {x : Result ℕ} → Returns x → Returns (to_neg x)
to_neg-Returns (is_ok {a = zero}) = is_ok
to_neg-Returns (is_ok {a = suc n}) = is_ok
to_neg-Returns is_err = is_err

parse_int32-Returns : (cs : Bytes) → Returns (parse_int32 cs)
unfolding parse_int32
parse_int32-Returns [] = is_err
parse_int32-Returns (c ∷ cs) =
    if-Returns (c == b'-') _ _ (to_neg-Returns (parse_unsigned-Returns (2 ^ 31 + 1) cs)) (
      if-Returns (c == b'+') _ _ (to_pos-Returns (parse_unsigned-Returns (2 ^ 31) cs))
        (to_pos-Returns (parse_unsigned-Returns (2 ^ 31) (c ∷ cs))))

lift-Within :
    {A : Type 0} {x : Result A} (bs : Bytes) (k : ℕ) (t : KstatReader)
    → Returns x
    → Within bs k t
    → Ends (λ _ u. Within bs k u) Any (lift x t)
lift-Within bs k t is_ok h = returns h
lift-Within bs k t is_err h = raises tt

-- The rest of a method after one field of the header line.
after_field :
    {B : Type 0} {P : B → KstatReader → Type 0} {f : Bytes → Read B} {k : ℕ} {bs : Bytes}
    {t : KstatReader} (text : String) (b : ℕ)
    → Within bs k t
    → ((a : Bytes) (u : KstatReader) → Within bs (suc k) u → Ends P Any (f a u))
    → Ends P Any (
        continue f
          (wrap_err text (read_until_exclude b t)).0
          (wrap_err text (read_until_exclude b t)).1)
after_field {k = k} {bs = bs} {t = t} text b h rest =
    Ends-bind (Ends-wrap_err text (read_until_exclude-Within bs b k t h)) rest (λ e u q. tt)

read_header-Within :
    (bs : Bytes) (t : KstatReader) → Within bs 0 t → Ends (λ _ u. Within bs 0 u) Any (read_header t)
unfolding read_header
read_header-Within bs t h = after_field _ _ h (λ kid t1 h1. after_field _ _ h1 (λ kind t2 h2.
    Ends-bind (Ends-wrap_err _ (lift-Within bs 2 t2 (parse_int32-Returns kind) h2))
      (λ v t3 h3.
        after_field {t = record t3 { header_type = to_uint8 v }} _ _
          (record { same_bytes = h3.same_bytes; at_least = h3.at_least; inside = h3.inside })
          (λ flags t4 h4. after_field _ _ h4 (λ ndata t5 h5. after_field _ _ h5 (λ size t6 h6.
            after_field _ _ h6 (λ cr t7 h7. after_field _ _ h7 (λ snap t8 h8. returns (record {
              same_bytes = h8.same_bytes;
              at_least = omega arith;
              inside = h8.inside;
            })))))))
      (λ e u q. tt)))

raise_if-Within :
    {k : ℕ} (bs : Bytes) (b : Bool) (e : Error) (t : KstatReader)
    → Within bs k t
    → Ends (λ _ u. Within bs k u) Any (raise_if b e t)
unfolding raise_if
raise_if-Within bs true e t h = raises tt
raise_if-Within bs false e t h = returns h

read_column-Within :
    (bs : Bytes) (b : ℕ) (want unexpected : String) (t : KstatReader)
    → Within bs 0 t
    → Ends (λ _ u. Within bs 0 u) Any (read_column b want unexpected t)
unfolding read_column
read_column-Within bs b want unexpected t h =
    Ends-bind (Ends-replace_err _ (read_token-Within bs b b' ' 0 t h))
      (λ c u h1.
        raise_if-Within bs _ _ u
          (record { same_bytes = h1.same_bytes; at_least = omega arith; inside = h1.inside }))
      (λ e u q. tt)

read_column_headers-Within :
    (bs : Bytes) (t : KstatReader)
    → Within bs 0 t
    → Ends (λ _ u. Within bs 0 u) Any (read_column_headers t)
unfolding read_column_headers
read_column_headers-Within bs t h =
    Ends-bind (read_column-Within bs _ _ _ t h)
      (λ a t1 h1.
        Ends-bind (read_column-Within bs _ _ _ t1 h1) (λ c t2 h2. read_column-Within bs _ _ _ t2 h2)
          (λ e u q. tt))
      (λ e u q. tt)

start-Within :
    (bs : Bytes) (t : KstatReader) → Within bs 0 t → Ends (λ _ u. Within bs 0 u) Any (start t)
unfolding start
start-Within bs t h =
    Ends-bind (read_header-Within bs t h)
      (λ a u h1.
        Ends-raise_if _ _ _ _ (λ _. tt) (λ _. Ends-wrap_err _ (read_column_headers-Within bs u h1)))
      (λ e u q. tt)

when-Within :
    (bs : Bytes) (b : Bool) (t : KstatReader)
    → Within bs 0 t
    → (b ≡ false → Within bs t.pos t)
    → Ends (λ _ u. Within bs (if b then 0 else t.pos) u) Any (when b start t)
unfolding when
when-Within bs true t h keep = start-Within bs t h
when-Within bs false t h keep = returns (keep refl)

-- A fresh reader is at position 0.
far_enough :
    (r t : KstatReader)
    → Within r.bytes (if r.pos == 0 then 0 else r.pos) t
    → Within r.bytes r.pos t
far_enough r t h = elim (Bool-cases (r.pos == 0)) [
  | inl fresh ↦ record {
    same_bytes = h.same_bytes;
    at_least = omega (arith, ==→eq r.pos 0 fresh);
    inside = h.inside;
  }
  | inr begun ↦ subst (λ b. Within r.bytes (if b then 0 else r.pos) t) begun h
]

-- `Next` of the kstat reader on any file, well-formed or not, neither panics nor runs out of fuel: it fails with an
-- error, or returns a row's name with the cursor further on and within the file. It starts within
-- the file.
pub next-Within :
    (r : KstatReader)
    → r.pos ≤ length r.bytes
    → Ends (λ _ t. Within r.bytes (suc r.pos) t) Any (next r)
unfolding next
next-Within r h =
    Ends-bind
      (when-Within r.bytes (r.pos == 0) r
        (record { same_bytes = refl; at_least = omega arith; inside = h })
        (λ _. record { same_bytes = refl; at_least = omega arith; inside = h }))
      (λ a t h1.
        Ends-raise_if _ _ _ _ (λ _. tt) (λ _. read_row-Within r.bytes r.pos t (far_enough r t h1)))
      (λ e u q. tt)

parse_uint-Returns : (cs : Bytes) → Returns (parse_uint cs)
unfolding parse_uint
parse_uint-Returns [] = is_err
parse_uint-Returns (c ∷ cs) = parse_digits-Returns (2 ^ 64) 0 (c ∷ cs)

pub row_data_as_uint64-Within :
    (bs : Bytes) (k : ℕ) (t : KstatReader)
    → Within bs k t
    → Ends (λ _ u. Within bs k u) Any (row_data_as_uint64 t)
unfolding row_data_as_uint64
row_data_as_uint64-Within bs k t h =
    Ends-wrap_err _ (lift-Within bs k t (parse_uint-Returns t.row_data) h)
