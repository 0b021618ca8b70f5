-- ===== src/Nvlist/Format/Values.antt =====
-- Strings and arrays of 64 bit words, as the accessors read them of a pair.
use prometheus_zfs_exporter.Base.{
  ℕ, zero, suc, ◌+◌, ◌*◌, ◌^◌, ◌<◌, ◌≡◌, ◌≢◌, refl, sym, ap, ◌∙◌, arith, some, List, [], ◌∷◌, ◌++◌,
  append_assoc, Bytes, All, length, length-append, get_elem?, replicate, take, drop, slice,
  take-length_append, drop-length_append, ok, panic_if, le→not-ltb, ne→not-==,
}
use prometheus_zfs_exporter.Nvlist.Reader.{NvListReader}
use prometheus_zfs_exporter.Nvlist.Access.{
  byte_at, words, word_array, get_uint64_array, scan_until, bytes_until_delimiter, get_string,
}
use prometheus_zfs_exporter.Nvlist.Format.{Pair, le_bytes, padding, head_size, encode_pair}
use prometheus_zfs_exporter.Nvlist.Format.Words.{
  At, At-length, At-skip, slice-At, length-le_bytes, le_uint-le_bytes,
}
use prometheus_zfs_exporter.Nvlist.Format.RoundTrip.{after_pair}
use prometheus_zfs_exporter.Nvlist.Format.Data.{data-At, data_slice-payload}

-- A string with its terminator and padding.
abbrev pub string_payload : Bytes → Bytes
string_payload str = str ++ 0 ∷ replicate (padding (length str + 1)) 0

-- Words of eight bytes, one after the other.
unfoldable pub le_words : List ℕ → Bytes
le_words [] = []
le_words (v ∷ vs) = le_bytes 8 v ++ le_words vs

get_elem?-At :
    (bs : Bytes) (p : ℕ) (x : ℕ) (more : Bytes) → At bs p (x ∷ more) → get_elem? bs p ≡ some x
get_elem?-At [] zero x more h = cc
get_elem?-At [] (suc p) x more h = cc
get_elem?-At (b ∷ bs) zero x more h = cc
get_elem?-At (b ∷ bs) (suc p) x more h = get_elem?-At bs p x more h

pub byte_at-At :
    (p x : ℕ) (more : Bytes) (r : NvListReader) → At r.bytes p (x ∷ more) → byte_at p r ≡ (ok x, r)
unfolding byte_at
byte_at-At p x more r h = rw (byte_at, get_elem?-At r.bytes p x more h)

scan_until-At :
    (low n p : ℕ) (xs more : Bytes) (r : NvListReader)
    → All (λ c. c ≢ 0) xs
    → length xs < n
    → At r.bytes p (xs ++ 0 ∷ more)
    → scan_until 0 low n p r ≡ (ok (slice r.bytes low (p + length xs)), r)
unfolding scan_until
scan_until-At low zero p xs more r h lt at = absurd (omega arith)
scan_until-At low (suc n) p [] more r h lt at =
    let place : p + 0 ≡ p = omega arith in rw (byte_at-At p 0 more r at, place)
scan_until-At low (suc n) p (x ∷ xs) more r h lt at =
    let place : p + 1 + length xs ≡ p + suc (length xs) = omega arith in
    rw (byte_at-At p x (xs ++ 0 ∷ more) r at, ne→not-== x 0 h.0)
      (scan_until-At low n (p + 1) xs more r h.1 (omega arith)
          (At-skip r.bytes p (x ∷ []) (xs ++ 0 ∷ more) at)
        ∙ ap (λ k. (ok (slice r.bytes low k), r)) place)

words-le_words :
    (vs : List ℕ) (rest : Bytes)
    → All (λ v. v < 2 ^ 64) vs
    → words 8 (length vs) (le_words vs ++ rest) ≡ vs
unfolding words le_words
words-le_words [] rest h = refl
words-le_words (v ∷ vs) rest h =
    let first : take 8 (le_bytes 8 v ++ (le_words vs ++ rest)) ≡ le_bytes 8 v =
      ap (λ k. take k (le_bytes 8 v ++ (le_words vs ++ rest))) (sym (length-le_bytes 8 v))
      ∙ take-length_append (le_bytes 8 v) (le_words vs ++ rest) in
    let later : drop 8 (le_bytes 8 v ++ (le_words vs ++ rest)) ≡ le_words vs ++ rest =
      ap (λ k. drop k (le_bytes 8 v ++ (le_words vs ++ rest))) (sym (length-le_bytes 8 v))
      ∙ drop-length_append (le_bytes 8 v) (le_words vs ++ rest) in
    rw (append_assoc, first, later, le_uint-le_bytes 8 v (omega (arith, h.0)))
      (ap (◌∷◌ v) (words-le_words vs rest h.1))

pub length-le_words : (vs : List ℕ) → length (le_words vs) ≡ 8 * length vs
unfolding le_words
length-le_words [] = refl
length-le_words (v ∷ vs) =
    omega
      (arith, length-append (le_bytes 8 v) (le_words vs), length-le_bytes 8 v, length-le_words vs)

module _ (s : NvListReader) (p : Pair) (rest : Bytes) (h : At s.bytes s.pos (encode_pair p ++ rest))
    (room : 0 < length rest) where
  -- `String` reads the string that the payload begins with.
  pub get_string-payload :
      (str : Bytes)
      → p.payload ≡ string_payload str
      → All (λ c. c ≢ 0) str
      → get_string (after_pair s p) ≡ (ok str, after_pair s p)
  unfolding bytes_until_delimiter
  get_string-payload str e no_null =
      let tail = replicate (padding (length str + 1)) 0 ++ rest in
      let at : At s.bytes (s.pos + head_size p) (str ++ 0 ∷ tail) =
        data-At s p rest h room ∙ ap (λ b. b ++ rest) e ∙ append_assoc str _ rest in
      scan_until-At (s.pos + head_size p) (length p.payload) (s.pos + head_size p) str tail
        (after_pair s p) no_null
        (omega (arith, ap length e, length-append str (0 ∷ replicate (padding (length str + 1)) 0)))
        at
      ∙ ap (λ b. (ok b, after_pair s p)) (slice-At s.bytes (s.pos + head_size p) str (0 ∷ tail) at)

  -- `UInt64Array` reads the words that the payload is.
  pub get_uint64_array-payload :
      (vs : List ℕ)
      → p.payload ≡ le_words vs
      → p.count ≡ length vs
      → All (λ v. v < 2 ^ 64) vs
      → get_uint64_array (after_pair s p) ≡ (ok vs, after_pair s p)
  unfolding word_array panic_if
  get_uint64_array-payload vs e count small =
      let at = data-At s p rest h room in
      rw (
        data_slice-payload s p rest h room,
        le→not-ltb (length s.bytes) (s.pos + head_size p + p.count * 8) (
            omega (
              arith,
              count,
              ap length e,
              length-le_words vs,
              length-append p.payload rest,
              At-length s.bytes (s.pos + head_size p) (p.payload ++ rest) at
                  (omega (arith, length-append p.payload rest)),
            )),
        ap (words 8 p.count) at
            ∙ ap (λ k. words 8 k (p.payload ++ rest)) count
            ∙ ap (λ b. words 8 (length vs) (b ++ rest)) e
            ∙ words-le_words vs rest small,
      )
