-- ===== src/Nvlist/Format/Words.antt =====
-- Reading a word back, wherever it stands in the buffer.
use native.Mathlib.Nat.{pow-suc}
use prometheus_zfs_exporter.Base.{
  ℕ, zero, suc, ◌+◌, ◌-◌, ◌/◌, ◌^◌, ◌<◌, ◌≡◌, refl, sym, ap, ◌∙◌, arith, ◌++◌, Bytes, length, drop,
  slice, length-append, length-drop, take-length_append, drop-length_append, drop-drop, le_uint, ok,
  ℤ, raise_if, lt→ltb, lt→not-leb,
}
use prometheus_zfs_exporter.Nvlist.Reader.{
  NvListReader, read_word, read_int32, read_int16, read_bytes,
}
use prometheus_zfs_exporter.Nvlist.Reader.Bounds.{read_word_fits}
use prometheus_zfs_exporter.Nvlist.Format.{le_bytes}

pub length-le_bytes : (n v : ℕ) → length (le_bytes n v) ≡ n
unfolding le_bytes
length-le_bytes zero v = refl
length-le_bytes (suc n) v = ap suc (length-le_bytes n (v / 256))

pub le_uint-le_bytes : (n v : ℕ) → v < 256 ^ n → le_uint (le_bytes n v) ≡ v
unfolding le_bytes le_uint
le_uint-le_bytes zero v h = omega arith
le_uint-le_bytes (suc n) v h =
    let front : v / 256 < 256 ^ n = omega (arith, pow-suc 256 n) in
    omega (arith, le_uint-le_bytes n (v / 256) front)

-- The bytes from position `p` on are `xs`.
abbrev pub At : Bytes → ℕ → Bytes → Type 0
At bs p xs = drop p bs ≡ xs

pub At-length :
    (bs : Bytes) (p : ℕ) (xs : Bytes) → At bs p xs → 0 < length xs → length bs ≡ p + length xs
At-length bs p xs h pos = omega (arith, length-drop p bs, ap length h)

pub At-skip :
    (bs : Bytes) (p : ℕ) (w more : Bytes) → At bs p (w ++ more) → At bs (p + length w) more
At-skip bs p w more h =
    sym (drop-drop p (length w) bs) ∙ ap (drop (length w)) h ∙ drop-length_append w more

pub slice-At :
    (bs : Bytes) (p : ℕ) (w more : Bytes) → At bs p (w ++ more) → slice bs p (p + length w) ≡ w
slice-At bs p w more h =
    let width : p + length w - p ≡ length w = omega arith in
    rw (width, h) (take-length_append w more)

pub read_word-At :
    (w more : Bytes) (s : NvListReader)
    → At s.bytes s.pos (w ++ more)
    → 0 < length more
    → read_word (length w) s ≡ (ok (le_uint w), record s { pos = s.pos + length w })
read_word-At w more s h pos =
    read_word_fits (length w) s
      (omega (arith, At-length s.bytes s.pos (w ++ more) h, length-append w more))
    ∙ ap (λ b. (ok (le_uint b), record s { pos = s.pos + length w }))
        (slice-At s.bytes s.pos w more h)

module _ (n v : ℕ) (more : Bytes) (s : NvListReader)
    (h : At s.bytes s.pos (le_bytes n v ++ more)) where
  pub At-le_bytes : At s.bytes (s.pos + n) more
  At-le_bytes =
      ap (λ k. drop (s.pos + k) s.bytes) (sym (length-le_bytes n v))
      ∙ At-skip s.bytes s.pos (le_bytes n v) more h

  pub read_word_le :
      v < 256 ^ n → 0 < length more → read_word n s ≡ (ok v, record s { pos = s.pos + n })
  read_word_le small pos =
      ap (λ k. read_word k s) (sym (length-le_bytes n v))
      ∙ read_word-At (le_bytes n v) more s h pos
      ∙ rw (length-le_bytes n v, le_uint-le_bytes n v small)

pub read_int32_le :
    (v : ℕ) (more : Bytes) (s : NvListReader)
    → At s.bytes s.pos (le_bytes 4 v ++ more)
    → v < 2 ^ 31
    → 0 < length more
    → read_int32 s ≡ (ok (ℤ.pos v), record s { pos = s.pos + 4 })
unfolding read_int32
read_int32_le v more s h small pos =
    rw (read_word_le 4 v more s h (omega arith) pos, lt→ltb v (2 ^ 31) small)

pub read_int16_le :
    (v : ℕ) (more : Bytes) (s : NvListReader)
    → At s.bytes s.pos (le_bytes 2 v ++ more)
    → v < 2 ^ 15
    → 0 < length more
    → read_int16 s ≡ (ok (ℤ.pos v), record s { pos = s.pos + 2 })
unfolding read_int16
read_int16_le v more s h small pos =
    rw (read_word_le 2 v more s h (omega arith) pos, lt→ltb v (2 ^ 15) small)

pub read_bytes-At :
    (w more : Bytes) (s : NvListReader)
    → At s.bytes s.pos (w ++ more)
    → 0 < length more
    → read_bytes (length w) s ≡ (ok w, record s { pos = s.pos + length w })
unfolding read_bytes raise_if
read_bytes-At w more s h pos = rw (
  lt→not-leb (length s.bytes) (s.pos + length w)
      (omega (arith, At-length s.bytes s.pos (w ++ more) h, length-append w more)),
  slice-At s.bytes s.pos w more h,
)
