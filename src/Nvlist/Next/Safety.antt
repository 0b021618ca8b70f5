-- ===== src/Nvlist/Next/Safety.antt =====
-- `Next` on any bytes: no panic, progress, and positions inside the buffer.
use prometheus_zfs_exporter.Base.{
  ℕ, ◌+◌, ◌≤◌, ◌<◌, ◌≡◌, ◌≢◌, refl, ◌∙◌, ap, Bool, true, false, ◌⊎◌, inl, inr, arith, length,
  Bool-cases, sub_ℕ, Error, eof, Ends, returns, Ends-bind, Ends-weaken, ◌==◌,
}
use prometheus_zfs_exporter.Nvlist.Reader.{NvListReader, skip_n, read_nv_header}
use prometheus_zfs_exporter.Nvlist.Next.{enter_data, when, next}
use prometheus_zfs_exporter.Nvlist.Reader.Bounds.{NotEof, read_nv_header-Ends}
use prometheus_zfs_exporter.Nvlist.Next.Steps.{
  read_size-Ends, Moved, read_fields-Ends, Named, read_name-Ends,
}
use prometheus_zfs_exporter.Nvlist.Types.{NvType, type_string_array}

-- A reader fit for `Next`: fresh, or with its header read.
pub record IsReady (r : NvListReader) : Type 0 where
  pub started : (r.pos ≡ 0) ⊎ (0 < r.alignment)
  pub aligned_le : r.alignment ≤ 8

record Begun (s t : NvListReader) : Type 0 where
  same_bytes : t.bytes ≡ s.bytes
  pos_le : s.pos ≤ t.pos
  alignment_pos : 0 < t.alignment
  alignment_le : t.alignment ≤ 8

begin-Ends :
    (s : NvListReader)
    → IsReady s
    → Ends (λ _ t. Begun s t) NotEof (when (s.pos == 0) read_nv_header s)
unfolding when
begin-Ends s h = elim (Bool-cases (s.pos == 0)) [
  | inl fresh ↦ rw fresh (
      Ends-weaken (read_nv_header-Ends s)
        (λ _ t p. record {
          same_bytes = p.0;
          pos_le = omega arith;
          alignment_pos = p.2;
          alignment_le = p.3;
        })
        (λ e t q. q))
  | inr later ↦ rw later (
      returns (record {
        same_bytes = refl;
        pos_le = omega arith;
        alignment_pos = ground (arith, h.started);
        alignment_le = h.aligned_le;
      }))
]

record Entered (next_pos : ℕ) (ty : NvType) (s t : NvListReader) : Type 0 where
  same_bytes : t.bytes ≡ s.bytes
  same_alignment : t.alignment ≡ s.alignment
  same_count : t.num_elements ≡ s.num_elements
  pos_eq : t.pos ≡ next_pos
  token_eq : t.current_token ≡ ty
  len_eq : t.data_len ≡ sub_ℕ next_pos s.pos
  data_eq : ty ≢ type_string_array → t.data_pos ≡ s.pos

enter_data-Ends :
    (next_pos : ℕ) (ty : NvType) (s : NvListReader)
    → Ends (λ _ t. Entered next_pos ty s t) NotEof (enter_data next_pos ty s)
unfolding enter_data
enter_data-Ends next_pos ty s = returns (ground arith)

-- What a token returned by `Next` tells of the reader.
pub record IsNext (s : NvListReader) (ty : NvType) (t : NvListReader) : Type 0 where
  pub same_bytes : t.bytes ≡ s.bytes
  pub progress : s.pos < t.pos
  pub pos_lt : t.pos + 4 < length s.bytes
  pub alignment_pos : 0 < t.alignment
  pub alignment_le : t.alignment ≤ 8
  pub token_eq : t.current_token ≡ ty
  pub count_le : t.num_elements ≤ 65535
  pub data_lt : ty ≢ type_string_array → t.data_pos < length s.bytes + 8
  pub data_ends : ty ≢ type_string_array → t.data_len ≡ sub_ℕ t.pos t.data_pos

-- What the end of a list tells of it.
pub record IsEnd (s t : NvListReader) : Type 0 where
  pub same_bytes : t.bytes ≡ s.bytes
  pub progress : s.pos < t.pos
  pub pos_lt : t.pos < length s.bytes
  pub alignment_pos : 0 < t.alignment
  pub alignment_le : t.alignment ≤ 8

abbrev pub NextErr : NvListReader → Error → NvListReader → Type 0
NextErr s e t = e ≡ eof → IsEnd s t

skip_xdr-Moved :
    (b : Bool) (s : NvListReader)
    → Ends
        (λ _ t. (t.bytes ≡ s.bytes) × (t.alignment ≡ s.alignment) × (s.pos ≤ t.pos))
        NotEof
        (when b (skip_n 4) s)
unfolding when
skip_xdr-Moved true s = returns (refl, refl, omega arith)
skip_xdr-Moved false s = returns (refl, refl, omega arith)

-- The facts of the steps, put together.
Entered-IsNext :
    {s t v w y z : NvListReader} {size : ℕ} {ty : NvType}
    → Begun s t
    → 0 < size
    → t.pos + 4 + size < length t.bytes
    → v.bytes ≡ t.bytes
    → v.alignment ≡ t.alignment
    → Moved v w
    → Named w y
    → Entered (t.pos + size) ty y z
    → w.num_elements ≤ 65535
    → IsNext s ty z
Entered-IsNext {s} {t} {v} {w} {y} {z} b pos fits vb va m n d few = record {
  same_bytes = whole;
  progress = omega arith;
  pos_lt = omega (arith, ap length b.same_bytes);
  alignment_pos = omega arith;
  alignment_le = omega arith;
  token_eq = d.token_eq;
  count_le = omega arith;
  data_lt = λ plain. omega (
    arith,
    d.data_eq plain,
    ap length (m.same_bytes ∙ vb ∙ b.same_bytes),
    ap length (vb ∙ b.same_bytes),
  );
  data_ends = λ plain. rw (d.pos_eq, d.data_eq plain) d.len_eq;
}
  where
    whole : z.bytes ≡ s.bytes
    whole = d.same_bytes ∙ n.same_bytes ∙ m.same_bytes ∙ vb ∙ b.same_bytes

size_eof :
    {s t u : NvListReader}
    → Begun s t
    → (u ≡ record t { pos = t.pos + 4 }) × (t.pos + 4 < length t.bytes)
    → IsEnd s u
size_eof b (e, fits) = rw e (record {
  same_bytes = b.same_bytes;
  progress = omega arith;
  pos_lt = omega (arith, ap length b.same_bytes);
  alignment_pos = b.alignment_pos;
  alignment_le = b.alignment_le;
})

-- From a reader that is fresh or has its header read, `Next` returns a token or an error on any
-- bytes, and never panics. With a token the reader has moved on and stays inside the buffer, the
-- count is at most 65535, and the data of a pair that is no string array ends at the new position.
pub next-Ends : (s : NvListReader) → IsReady s → Ends (IsNext s) (NextErr s) (next s)
unfolding next
next-Ends s h =
    Ends-bind (begin-Ends s h)
      (λ _ t b.
        Ends-bind (read_size-Ends t)
          (λ size u p. rw p.0 (
            Ends-bind (skip_xdr-Moved _ _)
              (λ _ v x.
                Ends-bind (read_fields-Ends v)
                  (λ f w m.
                    Ends-bind (read_name-Ends t.pos f.0 w (omega arith))
                      (λ _ y n.
                        Ends-bind (enter_data-Ends (t.pos + size) f.1 y)
                          (λ _ z d. returns (Entered-IsNext b p.1 p.2 x.0 x.1 m.0 n d m.1))
                          (λ e z q d. absurd (q d)))
                      (λ e y q d. absurd (q d)))
                  (λ e w q d. absurd (q d)))
              (λ e v q d. absurd (q d))))
          (λ e u q d. size_eof b (q d)))
      (λ e t q d. absurd (q d))
