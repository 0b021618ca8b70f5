-- ===== src/Nvlist/Format/Data.antt =====
-- What the accessors read of a pair that `Next` has stepped past.
use prometheus_zfs_exporter.Base.{
  ℕ, suc, [], ◌+◌, ◌^◌, ◌<◌, ◌≡◌, sym, ap, ◌∙◌, arith, ◌++◌, append_assoc, append-nil, Bytes,
  length, length-append, length-replicate, replicate, take, drop, take-length_append, ok, panic_if,
  le→not-ltb,
}
use prometheus_zfs_exporter.Nvlist.Reader.{NvListReader}
use prometheus_zfs_exporter.Nvlist.Access.{slice_at, data_slice, word, get_uint64}
use prometheus_zfs_exporter.Nvlist.Format.{
  Pair, le_bytes, padding, name_end, name_field, head_size, pair_size, encode_pair,
}
use prometheus_zfs_exporter.Nvlist.Format.Words.{
  At, At-length, At-skip, slice-At, length-le_bytes, le_uint-le_bytes,
}
use prometheus_zfs_exporter.Nvlist.Format.RoundTrip.{after_pair}

-- A pair's encoding before its payload.
abbrev head_of : Pair → Bytes
head_of p =
    le_bytes 4 (pair_size p)
    ++ (le_bytes 2 (suc (length p.name))
        ++ (le_bytes 2 0
            ++ (le_bytes 4 p.count
                ++ (le_bytes 4 p.ty ++ (name_field p ++ replicate (padding (name_end p)) 0)))))

encode_pair-head :
    (p : Pair) (rest : Bytes) → encode_pair p ++ rest ≡ head_of p ++ (p.payload ++ rest)
unfolding encode_pair
encode_pair-head p rest = simp append_assoc

length-head_of : (p : Pair) → length (head_of p) ≡ head_size p
length-head_of p = simp (length-append, length-le_bytes, length-replicate) (omega arith)

module _ (s : NvListReader) (p : Pair) (rest : Bytes) (h : At s.bytes s.pos (encode_pair p ++ rest))
    (room : 0 < length rest) where
  pub data-At : At s.bytes (s.pos + head_size p) (p.payload ++ rest)
  data-At =
      ap (λ k. drop (s.pos + k) s.bytes) (sym (length-head_of p))
      ∙ At-skip s.bytes s.pos (head_of p) (p.payload ++ rest) (h ∙ encode_pair-head p rest)

  pub data_slice-payload : data_slice (after_pair s p) ≡ (ok p.payload, after_pair s p)
  unfolding data_slice slice_at panic_if
  data_slice-payload = rw (
    le→not-ltb (length s.bytes) (s.pos + head_size p + length p.payload) (
        omega (
          arith,
          At-length s.bytes (s.pos + head_size p) (p.payload ++ rest) data-At
              (omega (arith, length-append p.payload rest)),
          length-append p.payload rest,
        )),
    slice-At s.bytes (s.pos + head_size p) p.payload rest data-At,
  )

  -- `UInt64` reads the number that the pair's payload is.
  pub get_uint64-payload :
      (v : ℕ)
      → p.payload ≡ le_bytes 8 v
      → v < 2 ^ 64
      → get_uint64 (after_pair s p) ≡ (ok v, after_pair s p)
  unfolding word panic_if
  get_uint64-payload v e small =
      let whole : take 8 (le_bytes 8 v) ≡ le_bytes 8 v =
        ap (λ k. take k (le_bytes 8 v)) (sym (length-le_bytes 8 v))
        ∙ ap (take (length (le_bytes 8 v))) (sym (append-nil (le_bytes 8 v)))
        ∙ take-length_append (le_bytes 8 v) [] in
      rw data_slice-payload (
        rw e (
          rw (
            le→not-ltb (length (le_bytes 8 v)) 8 (omega (arith, length-le_bytes 8 v)),
            whole,
            le_uint-le_bytes 8 v (omega arith),
          )))
