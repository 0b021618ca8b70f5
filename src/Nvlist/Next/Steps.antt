-- ===== src/Nvlist/Next/Steps.antt =====
-- The steps of `Next`: what each returns, and how far it moves.
use native.Mathlib.Nat.{mod-lt}
use prometheus_zfs_exporter.Base.{
  ℕ, ◌+◌, ◌-◌, ◌≤◌, ◌<◌, ◌≡◌, refl, arith, length, tests, Error, eof, Ends, returns, Ends-bind,
  Ends-raise_if, Ends-panic_if,
}
use prometheus_zfs_exporter.Nvlist.Reader.{NvListReader}
use prometheus_zfs_exporter.Nvlist.Next.{align, read_size, read_fields, read_name}
use prometheus_zfs_exporter.Nvlist.Reader.Bounds.{
  NotEof, read_word-Ends, read_int32-Ends, read_int16-Ends, read_bytes-Ends,
}

abbrev pub SizePost : NvListReader → ℕ → NvListReader → Type 0
SizePost s size t =
    (t ≡ record s { pos = s.pos + 4 }) × (0 < size) × (s.pos + 4 + size < length s.bytes)

abbrev pub SizeErr : NvListReader → Error → NvListReader → Type 0
SizeErr s e t = (e ≡ eof → (t ≡ record s { pos = s.pos + 4 }) × (s.pos + 4 < length s.bytes))

pub read_size-Ends : (s : NvListReader) → Ends (SizePost s) (SizeErr s) (read_size s)
unfolding read_size
read_size-Ends s =
    Ends-bind (read_int32-Ends s)
      (λ w t p. rw p.0 (
        Ends-raise_if _ _ _ _ (λ _ e. cc)
          (λ _.
            Ends-raise_if _ _ _ _ (λ _ _. (refl, p.1))
              (λ positive.
                Ends-raise_if _ _ _ _ (λ _ e. cc)
                  (λ fits. returns (refl, omega tests, omega tests))))))
      (λ e t q d. cc)

-- From `s` to `t` the reader has moved inside its buffer.
pub record Moved (s t : NvListReader) : Type 0 where
  pub same_bytes : t.bytes ≡ s.bytes
  pub same_alignment : t.alignment ≡ s.alignment
  pub pos_le : s.pos ≤ t.pos
  pub pos_lt : t.pos < length s.bytes

pub read_fields-Ends :
    (s : NvListReader)
    → Ends (λ r t. Moved s t × (t.num_elements ≤ 65535) × (0 < r.0)) NotEof (read_fields s)
unfolding read_fields
read_fields-Ends s =
    Ends-bind (read_int16-Ends s)
      (λ size t p. rw p.0 (
        Ends-raise_if _ _ _ _ (λ _ e. cc)
          (λ positive.
            Ends-bind (read_int16-Ends _)
              (λ reserve u q. rw q.0 (
                Ends-bind (read_int32-Ends _)
                  (λ n v r. rw r.0 (
                    Ends-raise_if _ _ _ _ (λ _ e. cc)
                      (λ few.
                        Ends-bind (read_word-Ends 4 _) (λ ty x k. rw k.0 (returns (ground arith)))
                          (λ e x k d. cc))))
                  (λ e v r d. cc)))
              (λ e u q d. cc))))
      (λ e t q d. cc)

pub align_bounds : (start a p : ℕ) → 0 < a → (p ≤ align start a p) × (align start a p ≤ p + a)
align_bounds start a p h = ground (arith, mod-lt (p - start) h)

pub record Named (s t : NvListReader) : Type 0 where
  pub same_bytes : t.bytes ≡ s.bytes
  pub same_alignment : t.alignment ≡ s.alignment
  pub same_count : t.num_elements ≡ s.num_elements
  pub pos_le : s.pos ≤ t.pos
  pub pos_lt : t.pos < length s.bytes + s.alignment

pub read_name-Ends :
    (start size : ℕ) (s : NvListReader)
    → 0 < s.alignment
    → Ends (λ _ t. Named s t) NotEof (read_name start size s)
unfolding read_name
read_name-Ends start size s h =
    Ends-bind (read_bytes-Ends size s)
      (λ name t p. rw p.0 (
        Ends-panic_if _ _ _ _ (ground arith) (
          returns (record {
            same_bytes = refl;
            same_alignment = refl;
            same_count = refl;
            pos_le = omega (arith, align_bounds start s.alignment (s.pos + size) h);
            pos_lt = omega (arith, align_bounds start s.alignment (s.pos + size) h);
          }))))
      (λ e t q. q)
