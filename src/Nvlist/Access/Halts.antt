-- ===== src/Nvlist/Access/Halts.antt =====
-- Calls that may panic on odd bytes, but come to an end, and the accessors among them.
use prometheus_zfs_exporter.Base.{
  ℕ, zero, suc, signed32, ◌+◌, ◌≡◌, ◌≢◌, refl, sym, Bool, true, false, ℤ, negsuc, inl, inr,
  Option-cases, get_elem?, Error, Panic, Result, ok, err, panicked, out_of_fuel, Method, continue,
  ◌>>=◌, raise_if, panic_if, Ends, returns, raises, ◌==◌, Bool-cases,
}
use mathlib.Core.Path.{subst}
use prometheus_zfs_exporter.Nvlist.Reader.{Read}
use prometheus_zfs_exporter.Nvlist.Access.{
  byte_at, slice_at, data_slice, word, get_uint64, word_array, get_uint64_array, scan_until,
  bytes_until_delimiter, get_string, to_boolean, get_boolean, get_boolean_array, get_string_array,
  repeat_into,
}

-- The call returns with `P`, or with an error, or panics: fuel enough was given.
pub data Halts {S A : Type 0} (P : A → S → Type 0) : Result A × S → Type 0 where
  gives : {a : A} {s : S} → P a s → Halts P (ok a, s)
  fails : {e : Error} {s : S} → Halts P (err e, s)
  crashes : {c : Panic} {s : S} → Halts P (panicked c, s)

module _ {S A : Type 0} {P : A → S → Type 0} where
  pub Ends-Halts : {Q : Error → S → Type 0} {x : Result A × S} → Ends P Q x → Halts P x
  Ends-Halts (returns p) = gives p
  Ends-Halts (raises q) = fails

  pub Halts-fuel : {x : Result A × S} → Halts P x → x.0 ≢ out_of_fuel
  Halts-fuel (gives p) e = cc
  Halts-fuel fails e = cc
  Halts-fuel crashes e = cc

  pub Halts-bind :
      {B : Type 0} {P' : B → S → Type 0} (f : A → Method S B) {x : Result A × S}
      → Halts P x
      → ((a : A) (t : S) → P a t → Halts P' (f a t))
      → Halts P' (continue f x.0 x.1)
  Halts-bind f (gives {a} {s} p) k = k a s p
  Halts-bind f fails k = fails
  Halts-bind f crashes k = crashes

  pub Halts-weaken :
      {P' : A → S → Type 0} {x : Result A × S}
      → Halts P x
      → ((a : A) (t : S) → P a t → P' a t)
      → Halts P' x
  Halts-weaken (gives {a} {s} p) k = gives (k a s p)
  Halts-weaken fails k = fails
  Halts-weaken crashes k = crashes

-- A read that halts and leaves the reader as it is.
abbrev pub Still : {S A : Type 0} → Method S A → Type 0
Still {S} m = (s : S) → Halts (λ _ t. t ≡ s) (m s)

module _ {S A : Type 0} where
  pub Still-bind :
      {B : Type 0} {m : Method S A} {f : A → Method S B}
      → Still m
      → ((a : A) → Still (f a))
      → Still (m >>= f)
  Still-bind {m} {f} h k s =
      Halts-bind f (h s) (λ a t e. subst (λ u. Halts (λ _ t. t ≡ s) (f a u)) (sym e) (k a s))

pub Still-raise_if : {S : Type 0} (b : Bool) (e : Error) → Still {S = S} (raise_if b e)
unfolding raise_if
Still-raise_if true e s = fails
Still-raise_if false e s = gives refl

pub Still-panic_if : {S : Type 0} (b : Bool) (c : Panic) → Still {S = S} (panic_if b c)
unfolding panic_if
Still-panic_if true c s = crashes
Still-panic_if false c s = gives refl

pub byte_at-Still : (i : ℕ) → Still (byte_at i)
unfolding byte_at
byte_at-Still i r = elim (Option-cases (get_elem? r.bytes i)) [
  | inl absent ↦ rw (byte_at, absent) crashes
  | inr (b, present) ↦ rw (byte_at, present) (gives refl)
]

slice_at-Still : (low : ℕ) (n : ℤ) → Still (slice_at low n)
unfolding slice_at
slice_at-Still low (ℤ.pos n) s = Still-bind (Still-panic_if _ _) (λ a t. gives refl) s
slice_at-Still low (negsuc n) s = crashes

pub data_slice-Still : Still data_slice
unfolding data_slice
data_slice-Still s = slice_at-Still s.data_pos s.data_len s

pub word-Still : (n : ℕ) → Still (word n)
unfolding word
word-Still n =
    Still-bind data_slice-Still (λ b. Still-bind (Still-panic_if _ _) (λ a t. gives refl))

pub get_uint64-Still : Still get_uint64
get_uint64-Still = word-Still 8

pub word_array-Still : (w : ℕ) → Still (word_array w)
unfolding word_array
word_array-Still w =
    Still-bind data_slice-Still (λ b s. Still-bind (Still-panic_if _ _) (λ a t. gives refl) s)

pub get_uint64_array-Still : Still get_uint64_array
get_uint64_array-Still = word_array-Still 8

scan_until-Still : (delim low n p : ℕ) → Still (scan_until delim low n p)
unfolding scan_until
scan_until-Still delim low zero p s = fails
scan_until-Still delim low (suc n) p s =
    Still-bind (byte_at-Still p)
      (λ c. elim (Bool-cases (c == delim)) [
        | inl found ↦ rw found (λ t. gives refl)
        | inr other ↦ rw other (scan_until-Still delim low n (p + 1))
      ])
      s

pub get_string-Still : Still get_string
unfolding bytes_until_delimiter
get_string-Still s = scan_until-Still 0 s.data_pos _ s.data_pos s

-- A call, and a function of what it returns.
pub Still-map :
    {S A B : Type 0} {m : Method S A} (g : A → B) → Still m → Still (m >>= λ a s. (ok (g a), s))
Still-map g h = Still-bind h (λ a s. gives refl)

to_boolean-Still : (n : ℤ) → Still (to_boolean n)
unfolding to_boolean
to_boolean-Still (ℤ.pos zero) s = gives refl
to_boolean-Still (ℤ.pos (suc zero)) s = gives refl
to_boolean-Still (ℤ.pos (suc (suc n))) s = fails
to_boolean-Still (negsuc n) s = fails

pub get_boolean-Still : Still get_boolean
get_boolean-Still = Still-bind (Still-map signed32 (word-Still 4)) to_boolean-Still

repeat_into-Still : {A : Type 0} (n : ℕ) (m : Read A) → Still m → Still (repeat_into n m)
unfolding repeat_into
repeat_into-Still zero m h s = gives refl
repeat_into-Still (suc n) m h s =
    Still-bind h (λ a. Still-bind (repeat_into-Still n m h) (λ b t. gives refl)) s

pub get_boolean_array-Still : Still get_boolean_array
unfolding get_boolean_array
get_boolean_array-Still s = repeat_into-Still s.num_elements get_boolean get_boolean-Still s

pub get_string_array-Still : Still get_string_array
unfolding get_string_array
get_string_array-Still s = repeat_into-Still s.num_elements get_string get_string-Still s
