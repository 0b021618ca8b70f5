-- ===== src/Nvlist/Skip/Total.antt =====
-- `Skip` ends on any bytes, without panic, past the end of the list.
use prometheus_zfs_exporter.Base.{
  ℕ, zero, suc, ◌+◌, ◌<◌, ◌≤◌, ◌≡◌, ◌≢◌, refl, ap, ◌∙◌, inl, inr, none, some, arith, length, ◌==◌,
  Bool-cases, Error, eof, Ends, returns, Ends-bind, Ends-weaken, Ends-eof_as_none,
}
use prometheus_zfs_exporter.Nvlist.Types.{NvType}
use prometheus_zfs_exporter.Nvlist.Reader.{NvListReader, Read}
use prometheus_zfs_exporter.Nvlist.Next.Safety.{IsReady, IsNext, IsEnd, next-Ends}
use prometheus_zfs_exporter.Nvlist.Skip.{repeat, skip_value, skip}

abbrev NotEof : Error → NvListReader → Type 0
NotEof e t = e ≢ eof

-- From `s` the reader has moved on to `t`, inside its buffer and fit for `Next`.
pub record Onward (s t : NvListReader) : Type 0 where
  pub same_bytes : t.bytes ≡ s.bytes
  pub pos_le : s.pos ≤ t.pos
  pub pos_lt : t.pos < length s.bytes
  pub alignment_pos : 0 < t.alignment
  pub alignment_le : t.alignment ≤ 8

pub Onward-IsReady : {s t : NvListReader} → Onward s t → IsReady t
Onward-IsReady o = record { started = inr o.alignment_pos; aligned_le = o.alignment_le }

pub Onward-trans : {s t u : NvListReader} → Onward s t → IsEnd t u → Onward s u
Onward-trans o e = record {
  same_bytes = e.same_bytes ∙ o.same_bytes;
  pos_le = omega arith;
  pos_lt = omega (arith, ap length o.same_bytes);
  alignment_pos = e.alignment_pos;
  alignment_le = e.alignment_le;
}

pub next-Onward : {s t : NvListReader} {ty : NvType} → IsNext s ty t → Onward t t
next-Onward n = record {
  same_bytes = refl;
  pos_le = omega arith;
  pos_lt = omega (arith, ap length n.same_bytes);
  alignment_pos = n.alignment_pos;
  alignment_le = n.alignment_le;
}

module _ {s t u : NvListReader} {ty : NvType} (n : IsNext s ty t) (o : Onward t u) where
  pub onward_room : u.pos ≤ length u.bytes
  onward_room = omega (arith, ap length o.same_bytes)

  pub onward_fuel : (f : ℕ) → length s.bytes < suc f + s.pos → length u.bytes < f + u.pos
  onward_fuel f k = omega (arith, ap length (o.same_bytes ∙ n.same_bytes))

  pub onward-IsEnd : {v : NvListReader} → IsEnd u v → IsEnd s v
  onward-IsEnd e = record {
    same_bytes = e.same_bytes ∙ o.same_bytes ∙ n.same_bytes;
    progress = omega arith;
    pos_lt = omega (arith, ap length (o.same_bytes ∙ n.same_bytes));
    alignment_pos = e.alignment_pos;
    alignment_le = e.alignment_le;
  }

module _ (s : NvListReader) (again : Read (Unit {0}))
    (ends : (u : NvListReader) → Onward s u → Ends (λ _ t. IsEnd u t) NotEof (again u)) where
  repeat-Ends :
      (n : ℕ) (u : NvListReader) → Onward s u → Ends (λ _ t. Onward s t) NotEof (repeat n again u)
  unfolding repeat
  repeat-Ends zero u o = returns o
  repeat-Ends (suc n) u o =
      Ends-bind (ends u o) (λ _ t e. repeat-Ends n t (Onward-trans o e)) (λ e t q. q)

  skip_value-Ends :
      (ty : NvType) (u : NvListReader)
      → Onward s u
      → Ends (λ _ t. Onward s t) NotEof (skip_value again ty u)
  unfolding skip_value
  skip_value-Ends ty u o = elim (Bool-cases (ty == 19)) [
    | inl list ↦ rw list (Ends-weaken (ends u o) (λ _ t e. Onward-trans o e) (λ e t q. q))
    | inr other ↦ rw other (elim (Bool-cases (ty == 20)) [
      | inl array ↦ rw array (repeat-Ends u.num_elements u o)
      | inr plain ↦ rw plain (returns o)
    ])
  ]

-- With more fuel than bytes that are left, `Skip` on a reader fit for `Next` neither panics nor
-- runs out: it returns past the end of its list, still inside the buffer, or reports an error
-- other than `io.EOF`.
pub skip-Ends :
    (f : ℕ) (s : NvListReader)
    → IsReady s
    → s.pos ≤ length s.bytes
    → length s.bytes < f + s.pos
    → Ends (λ _ t. IsEnd s t) NotEof (skip f s)
unfolding skip
skip-Ends zero s h l k = absurd (omega arith)
skip-Ends (suc f) s h l k =
    Ends-bind (Ends-eof_as_none (next-Ends s h))
      (elim [
        | none ↦ λ t e. returns (e refl)
        | some ty ↦ λ t n.
            Ends-bind
              (skip_value-Ends t (skip f)
                (λ u o. skip-Ends f u (Onward-IsReady o) (onward_room n o) (onward_fuel n o f k)) ty
                t (next-Onward n))
              (λ _ u o.
                Ends-weaken
                  (skip-Ends f u (Onward-IsReady o) (onward_room n o) (onward_fuel n o f k))
                  (λ _ v e. onward-IsEnd n o e) (λ e t q. q))
              (λ e u q. q)
      ])
      (λ e t q. q.0)
