-- ===== src/Nvlist/Reader/Bounds.antt =====
-- The reads of single items: bounds, and what each leaves of the reader.
use prometheus_zfs_exporter.Base.{
  ℕ, ◌+◌, ◌≤◌, ◌<◌, ◌≡◌, ◌≢◌, refl, inl, inr, arith, length, slice, le_uint, get_elem?, Bool-cases,
  Option-cases, tests, Error, eof, ok, err, invalid_data, panic_if, raise_if, Ends, returns, raises,
  Ends-bind, Ends-raise_if, ◌==◌, lt→not-leb, le→not-ltb, le→leb, lt-or-le,
}
use prometheus_zfs_exporter.Nvlist.Reader.{
  NvListReader, uint_at, read_word, read_int32, read_int16, read_bytes, read_byte, read_nv_header,
  set_encoding, check_endianness,
}

-- A failed read leaves the reader where it was.
abbrev pub Stays : NvListReader → Error → NvListReader → Type 0
Stays s e t = (e ≡ invalid_data) × (t ≡ s)

pub read_word_fits :
    (n : ℕ) (s : NvListReader)
    → s.pos + n < length s.bytes
    → read_word n s ≡ (ok (le_uint (slice s.bytes s.pos (s.pos + n))), record s { pos = s.pos + n })
unfolding read_word uint_at raise_if panic_if
read_word_fits n s h = rw (
  lt→not-leb (length s.bytes) (s.pos + n) h,
  le→not-ltb (length s.bytes) s.pos (omega arith),
  le→not-ltb (length s.bytes) (s.pos + n) (omega arith),
)

pub read_word_short :
    (n : ℕ) (s : NvListReader) → length s.bytes ≤ s.pos + n → read_word n s ≡ (err invalid_data, s)
unfolding read_word uint_at raise_if panic_if
read_word_short n s h = rw (le→leb (length s.bytes) (s.pos + n) h)

pub read_word-Ends :
    (n : ℕ) (s : NvListReader)
    → Ends
        (λ w t. (t ≡ record s { pos = s.pos + n }) × (s.pos + n < length s.bytes))
        (Stays s)
        (read_word n s)
read_word-Ends n s = elim (lt-or-le (s.pos + n) (length s.bytes)) [
  | inl h ↦ rw (read_word_fits n s h) (returns (refl, h))
  | inr h ↦ rw (read_word_short n s h) (raises (refl, refl))
]

pub read_int32-Ends :
    (s : NvListReader)
    → Ends
        (λ _ t. (t ≡ record s { pos = s.pos + 4 }) × (s.pos + 4 < length s.bytes))
        (Stays s)
        (read_int32 s)
unfolding read_int32
read_int32-Ends s = Ends-bind (read_word-Ends 4 s) (λ w t p. returns p) (λ e t q. q)

pub read_int16-Ends :
    (s : NvListReader)
    → Ends
        (λ _ t. (t ≡ record s { pos = s.pos + 2 }) × (s.pos + 2 < length s.bytes))
        (Stays s)
        (read_int16 s)
unfolding read_int16
read_int16-Ends s = Ends-bind (read_word-Ends 2 s) (λ w t p. returns p) (λ e t q. q)

abbrev pub NotEof : Error → NvListReader → Type 0
NotEof e t = e ≢ eof

pub read_bytes-Ends :
    (n : ℕ) (s : NvListReader)
    → Ends
        (λ _ t. (t ≡ record s { pos = s.pos + n }) × (s.pos + n < length s.bytes))
        NotEof
        (read_bytes n s)
unfolding read_bytes
read_bytes-Ends n s = Ends-raise_if _ _ _ _ (λ _ e. cc) (λ fits. returns (refl, omega tests))

abbrev pub HeaderPost : NvListReader → NvListReader → Type 0
HeaderPost s t = (t.bytes ≡ s.bytes) × (t.pos ≡ s.pos + 12) × (0 < t.alignment) × (t.alignment ≤ 8)

pub set_encoding-Ends :
    (b : ℕ) (s : NvListReader)
    → Ends
        (λ _ t. (t.bytes ≡ s.bytes) × (t.pos ≡ s.pos) × (0 < t.alignment) × (t.alignment ≤ 8))
        NotEof
        (set_encoding b s)
unfolding set_encoding
set_encoding-Ends b s = elim (Bool-cases (b == 0)) [
  | inl native ↦ rw native (returns (refl, refl, omega arith, omega arith))
  | inr other ↦ rw other (elim (Bool-cases (b == 1)) [
    | inl xdr ↦ rw xdr (returns (refl, refl, omega arith, omega arith))
    | inr neither ↦ rw neither (raises (λ e. cc))
  ])
]

pub check_endianness-Ends :
    (b : ℕ) (s : NvListReader) → Ends (λ _ t. t ≡ s) NotEof (check_endianness b s)
unfolding check_endianness
check_endianness-Ends b s = elim (Bool-cases (b == 0)) [
  | inl big ↦ rw big (raises (λ e. cc))
  | inr other ↦ rw other (elim (Bool-cases (b == 1)) [
    | inl little ↦ rw little (returns refl)
    | inr neither ↦ rw neither (raises (λ e. cc))
  ])
]

pub read_byte-Ends :
    (s : NvListReader) → Ends (λ _ t. t ≡ record s { pos = s.pos + 1 }) NotEof (read_byte s)
unfolding read_byte
read_byte-Ends s = elim (Option-cases (get_elem? s.bytes s.pos)) [
  | inl missing ↦ rw (missing, read_byte) (raises (λ e. cc))
  | inr (b, found) ↦ rw (found, read_byte) (returns refl)
]

pub read_nv_header-Ends :
    (s : NvListReader) → Ends (λ _ t. HeaderPost s t) NotEof (read_nv_header s)
unfolding read_nv_header
read_nv_header-Ends s =
    Ends-bind (read_byte-Ends s)
      (λ b t p. rw p (
        Ends-bind (set_encoding-Ends b _)
          (λ _ u q.
            Ends-bind (read_byte-Ends u)
              (λ c v r. rw r (
                Ends-bind (check_endianness-Ends c _)
                  (λ _ w k. rw k (
                    Ends-bind (read_int32-Ends _)
                      (λ version x l. rw l.0 (
                        Ends-bind (read_word-Ends 4 _)
                          (λ flags y m. rw m.0 (returns (q.0, omega arith, q.2, q.3)))
                          (λ e y m d. cc)))
                      (λ e x l d. cc)))
                  (λ e w k. k)))
              (λ e v r. r))
          (λ e u q. q)))
      (λ e t q. q)
