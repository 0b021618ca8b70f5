-- ===== src/Base/Outcome.antt =====
-- How a Go call ends, and a method on a receiver that it changes.
use Prim.Native.Nat.{ℕ}
use Prim.Native.String.{String}
use mathlib.Core.Path.{◌≡◌, refl, subst}
use mathlib.Core.Logic.{◌≢◌, ◌⊎◌, inl, inr}
use mathlib.Core.Bool.{Bool, true, false}
use mathlib.Core.Option.{Option, none, some}

-- The error values of the program. `message` is `errors.New` or `fmt.Errorf` (its format string),
-- `wrapped` is `fmt.Errorf` with `%w`, `errno` what a system call reports.
pub data Error : Type 0 where
  eof invalid_encoding invalid_endianess invalid_data not_exist : Error
  errno : ℕ → Error
  message : String → Error
  wrapped : String → Error → Error

-- What stops the process: Go's run-time panics, those of its reflection, and a read past a buffer by
-- `unsafe.Slice`.
pub data Panic : Type 0 where
  index_range slice_bounds divide_by_zero nil_dereference unsafe_read not_assignable nil_map : Panic

-- `out_of_fuel` has no counterpart in the program.
pub data Result (A : Type 0) : Type 0 where
  ok : A → Result A
  err : Error → Result A
  panicked : Panic → Result A
  out_of_fuel : Result A

-- A method with a pointer receiver: the receiver keeps its changes when an error is returned.
abbrev pub Method : Type 0 → Type 0 → Type 0
Method S A = S → Result A × S

module _ {S A : Type 0} where
  abbrev pub pure : A → Method S A
  pure a s = (ok a, s)

  abbrev pub raise : Error → Method S A
  raise e s = (err e, s)

  abbrev pub panic : Panic → Method S A
  panic p s = (panicked p, s)

  abbrev pub starve : Method S A
  starve s = (out_of_fuel, s)

  abbrev pub gets : (S → A) → Method S A
  gets f s = (ok (f s), s)

abbrev pub modify : {S : Type 0} → (S → S) → Method S (Unit {0})
modify f s = (ok tt, f s)

-- The rest of a call, after one that ended in `r`.
abbrev pub continue : {S A B : Type 0} → (A → Method S B) → Result A → Method S B
continue f (ok a) s = f a s
continue f (err e) s = (err e, s)
continue f (panicked p) s = (panicked p, s)
continue f out_of_fuel s = (out_of_fuel, s)

infixl 5 ◌>>=◌ ◌>>◌
abbrev pub ◌>>=◌ : {S A B : Type 0} → Method S A → (A → Method S B) → Method S B
◌>>=◌ m f s = let (r, s') = m s in continue f r s'

abbrev pub ◌>>◌ : {S A B : Type 0} → Method S A → Method S B → Method S B
m >> k = m >>= λ _. k

-- `if c { return e }`
unfoldable pub raise_if : {S : Type 0} → Bool → Error → Method S (Unit {0})
raise_if true e = raise e
raise_if false e = pure tt

unfoldable pub panic_if : {S : Type 0} → Bool → Panic → Method S (Unit {0})
panic_if true p = panic p
panic_if false p = pure tt

-- `if err == io.EOF { break }; return err`: the end of the input is no error to the caller.
unfoldable pub eof_as_none : {S A : Type 0} → Result A × S → Result (Option A) × S
eof_as_none (ok a, s) = (ok (some a), s)
eof_as_none (err eof, s) = (ok none, s)
eof_as_none (err e, s) = (err e, s)
eof_as_none (panicked p, s) = (panicked p, s)
eof_as_none (out_of_fuel, s) = (out_of_fuel, s)

abbrev pub until_eof : {S A : Type 0} → Method S A → Method S (Option A)
until_eof m s = eof_as_none (m s)

-- `if err != nil { return fmt.Errorf(text + "%w", err) }`
unfoldable pub wrap_err : {S A : Type 0} → String → Result A × S → Result A × S
wrap_err text (ok a, s) = (ok a, s)
wrap_err text (err e, s) = (err (wrapped text e), s)
wrap_err text (panicked p, s) = (panicked p, s)
wrap_err text (out_of_fuel, s) = (out_of_fuel, s)

-- `if err != nil { return fmt.Errorf(text) }`, which forgets the cause.
unfoldable pub replace_err : {S A : Type 0} → String → Result A × S → Result A × S
replace_err text (ok a, s) = (ok a, s)
replace_err text (err e, s) = (err (message text), s)
replace_err text (panicked p, s) = (panicked p, s)
replace_err text (out_of_fuel, s) = (out_of_fuel, s)

unfoldable pub wrap_result : {A : Type 0} → String → Result A → Result A
wrap_result text (ok a) = ok a
wrap_result text (err e) = err (wrapped text e)
wrap_result text (panicked p) = panicked p
wrap_result text out_of_fuel = out_of_fuel

abbrev pub wrapping : {S A : Type 0} → String → Method S A → Method S A
wrapping text m s = wrap_err text (m s)

abbrev pub replacing : {S A : Type 0} → String → Method S A → Method S A
replacing text m s = replace_err text (m s)

-- How a call ended: `P` holds of a value returned, `Q` of an error, and there was no panic and
-- fuel enough.
pub data Ends {S A : Type 0} (P : A → S → Type 0) (Q : Error → S → Type 0)
    : Result A × S → Type 0 where
  returns : {a : A} {s : S} → P a s → Ends P Q (ok a, s)
  raises : {e : Error} {s : S} → Q e s → Ends P Q (err e, s)

-- What holds after `until_eof`.
abbrev pub AtEof : {S A : Type 0} → (A → S → Type 0) → (Error → S → Type 0) → Option A → S → Type 0
AtEof P Q none t = Q eof t
AtEof P Q (some a) t = P a t

module _ {S A : Type 0} {P : A → S → Type 0} {Q : Error → S → Type 0} where
  -- Sequencing: `Q` must be kept by the whole, and the rest starts where `P` holds.
  pub Ends-bind :
      {B : Type 0} {P' : B → S → Type 0} {Q' : Error → S → Type 0} {f : A → Method S B}
      {x : Result A × S}
      → Ends P Q x
      → ((a : A) (t : S) → P a t → Ends P' Q' (f a t))
      → ((e : Error) (t : S) → Q e t → Q' e t)
      → Ends P' Q' (continue f x.0 x.1)
  Ends-bind (returns {a} {s} p) k q = k a s p
  Ends-bind (raises {e} {s} h) k q = raises (q e s h)

  -- A guard: `raise_if` when the test fails, and the rest when it passes.
  pub Ends-raise_if :
      (f : Unit {0} → Method S A) (b : Bool) (e : Error) (s : S)
      → (b ≡ true → Q e s)
      → (b ≡ false → Ends P Q (f tt s))
      → Ends P Q (continue f (raise_if b e s).0 (raise_if b e s).1)
  unfolding raise_if
  Ends-raise_if f true e s q k = raises (q refl)
  Ends-raise_if f false e s q k = k refl

  pub Ends-panic_if :
      (f : Unit {0} → Method S A) (b : Bool) (c : Panic) (s : S)
      → b ≡ false
      → Ends P Q (f tt s)
      → Ends P Q (continue f (panic_if b c s).0 (panic_if b c s).1)
  unfolding panic_if
  Ends-panic_if f true c s h k = cc
  Ends-panic_if f false c s h k = k

  pub Ends-weaken :
      {P' : A → S → Type 0} {Q' : Error → S → Type 0} {x : Result A × S}
      → Ends P Q x
      → ((a : A) (t : S) → P a t → P' a t)
      → ((e : Error) (t : S) → Q e t → Q' e t)
      → Ends P' Q' x
  Ends-weaken (returns {a} {s} p) k q = returns (k a s p)
  Ends-weaken (raises {e} {s} h) k q = raises (q e s h)

  pub Ends-ok : {x : Result A × S} {a : A} → Ends P Q x → x.0 ≡ ok a → P a x.1
  Ends-ok (returns {a} {s} p) e = subst (λ b. P b s) (cc) p
  Ends-ok (raises h) e = cc

  pub Ends-err : {x : Result A × S} {e : Error} → Ends P Q x → x.0 ≡ err e → Q e x.1
  Ends-err (returns p) e = cc
  Ends-err (raises {e} {s} h) d = subst (λ b. Q b s) (cc) h

  -- A loop's test: the end of the input is a result, and every other error stays one.
  pub Ends-eof_as_none :
      {x : Result A × S} → Ends P Q x → Ends (AtEof P Q) (λ e t. (e ≢ eof) × Q e t) (eof_as_none x)
  unfolding eof_as_none
  Ends-eof_as_none (returns p) = returns p
  Ends-eof_as_none (raises {e = eof} q) = returns q
  Ends-eof_as_none (raises {e = other} q) = raises ((λ d. cc), q)

  -- No panic, and no lack of fuel.
  pub Ends-total :
      {x : Result A × S} → Ends P Q x → ((a : A) × (x.0 ≡ ok a)) ⊎ ((e : Error) × (x.0 ≡ err e))
  Ends-total (returns {a} p) = inl (a, refl)
  Ends-total (raises {e} h) = inr (e, refl)

-- A call that reports no error returns.
pub Ends-returned :
    {S A : Type 0} {P : A → S → Type 0} {x : Result A × S}
    → Ends P (λ _ _. ⊥) x
    → (a : A) × (x.0 ≡ ok a) × P a x.1
Ends-returned (returns {a} p) = (a, refl, p)
Ends-returned (raises h) = absurd h
