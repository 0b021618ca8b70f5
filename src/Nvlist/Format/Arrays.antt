-- ===== src/Nvlist/Format/Arrays.antt =====
-- Arrays of words of any width and single bytes, as the accessors read them of a pair.
use prometheus_zfs_exporter.Base.{
  ℕ, ◌+◌, ◌*◌, ◌^◌, ◌<◌, ◌≡◌, refl, sym, ap, ◌∙◌, arith, List, [], ◌∷◌, ◌++◌, append_assoc, Bytes,
  All, length, length-append, take, drop, take-length_append, drop-length_append, ok, panic_if,
  le→not-ltb,
}
use prometheus_zfs_exporter.Nvlist.Reader.{NvListReader}
use prometheus_zfs_exporter.Nvlist.Access.{words, word_array, get_uint8}
use prometheus_zfs_exporter.Nvlist.Format.{Pair, le_bytes, head_size, encode_pair}
use prometheus_zfs_exporter.Nvlist.Format.Words.{At, At-length, length-le_bytes, le_uint-le_bytes}
use prometheus_zfs_exporter.Nvlist.Format.RoundTrip.{after_pair}
use prometheus_zfs_exporter.Nvlist.Format.Data.{data-At, data_slice-payload}
use prometheus_zfs_exporter.Nvlist.Format.Values.{byte_at-At}

-- Words of `w` bytes, one after the other.
unfoldable pub le_array : ℕ → List ℕ → Bytes
le_array w [] = []
le_array w (v ∷ vs) = le_bytes w v ++ le_array w vs

words-le_array :
    (w : ℕ) (vs : List ℕ) (rest : Bytes)
    → All (λ v. v < 256 ^ w) vs
    → words w (length vs) (le_array w vs ++ rest) ≡ vs
unfolding words le_array
words-le_array w [] rest h = refl
words-le_array w (v ∷ vs) rest h =
    let first : take w (le_bytes w v ++ (le_array w vs ++ rest)) ≡ le_bytes w v =
      ap (λ k. take k (le_bytes w v ++ (le_array w vs ++ rest))) (sym (length-le_bytes w v))
      ∙ take-length_append (le_bytes w v) (le_array w vs ++ rest) in
    let later : drop w (le_bytes w v ++ (le_array w vs ++ rest)) ≡ le_array w vs ++ rest =
      ap (λ k. drop k (le_bytes w v ++ (le_array w vs ++ rest))) (sym (length-le_bytes w v))
      ∙ drop-length_append (le_bytes w v) (le_array w vs ++ rest) in
    rw (append_assoc, first, later, le_uint-le_bytes w v h.0)
      (ap (◌∷◌ v) (words-le_array w vs rest h.1))

length-le_array : (w : ℕ) (vs : List ℕ) → length (le_array w vs) ≡ length vs * w
unfolding le_array
length-le_array w [] = omega arith
length-le_array w (v ∷ vs) =
    omega (
      arith,
      length-append (le_bytes w v) (le_array w vs),
      length-le_bytes w v,
      length-le_array w vs,
    )

module _ (s : NvListReader) (p : Pair) (rest : Bytes) (h : At s.bytes s.pos (encode_pair p ++ rest))
    (room : 0 < length rest) where
  -- The byte that the payload begins with.
  pub get_uint8-payload :
      (n : ℕ) (pad : Bytes)
      → p.payload ≡ n ∷ pad
      → get_uint8 (after_pair s p) ≡ (ok n, after_pair s p)
  get_uint8-payload n pad e =
      byte_at-At (s.pos + head_size p) n (pad ++ rest) (after_pair s p)
        (data-At s p rest h room ∙ ap (λ b. b ++ rest) e)

  -- The words that the payload begins with.
  pub word_array-payload :
      (w : ℕ) (vs : List ℕ) (pad : Bytes)
      → p.payload ≡ le_array w vs ++ pad
      → p.count ≡ length vs
      → All (λ v. v < 256 ^ w) vs
      → word_array w (after_pair s p) ≡ (ok vs, after_pair s p)
  unfolding word_array panic_if
  word_array-payload w vs pad e count small =
      let at = data-At s p rest h room in
      rw (
        data_slice-payload s p rest h room,
        le→not-ltb (length s.bytes) (s.pos + head_size p + p.count * w) (
            omega (
              arith,
              ap (λ k. k * w) count,
              ap length e,
              length-append (le_array w vs) pad,
              length-le_array w vs,
              length-append p.payload rest,
              At-length s.bytes (s.pos + head_size p) (p.payload ++ rest) at
                  (omega (arith, length-append p.payload rest)),
            )),
        ap (words w p.count) at
            ∙ ap (λ k. words w k (p.payload ++ rest)) count
            ∙ ap (λ b. words w (length vs) (b ++ rest)) e
            ∙ ap (words w (length vs)) (append_assoc (le_array w vs) pad rest)
            ∙ words-le_array w vs (pad ++ rest) small,
      )
