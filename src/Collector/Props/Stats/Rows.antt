-- ===== src/Collector/Props/Stats/Rows.antt =====
-- main.go: what `parseKStat` stores of the rows of a kstat file.
use prometheus_zfs_exporter.Base.{
  ℕ, zero, suc, ◌+◌, ◌^◌, ◌<◌, ◌≡◌, ◌≢◌, refl, ap, ◌∙◌, arith, Option, none, some, List, [], ◌∷◌,
  Bytes, All, equal, if◌then◌else◌, length, ok, err, eof, eof_as_none, wrap_err,
}
use prometheus_zfs_exporter.Nvlist.Format.Words.{At}
use prometheus_zfs_exporter.Strconv.{format_decimal}
use prometheus_zfs_exporter.Strconv.Decimal.{parse_uint-format_decimal}
use prometheus_zfs_exporter.Kstat.Reader.{KstatReader, next, row_data_as_uint64}
use prometheus_zfs_exporter.Kstat.Reader.Format.{
  Row, IsRow, row_and, length-row_and, after_row, after_row-At, next-row_and, next-end,
}
use prometheus_zfs_exporter.Collector.Props.{DatasetProps, Parse, on_reader}
use prometheus_zfs_exporter.Collector.Props.Stats.{
  StatKey, stat_key, get_stat, store_row, parse_row, parse_kstat,
}
use prometheus_zfs_exporter.Collector.Props.Stats.Keys.{
  stat_name, apply_stat, get_stat-store, stat_key-unknown,
}

-- A row with a number as its data, or one with other data, whose name is no field's.
pub data Entry : Type 0 where
  number : Row → ℕ → Entry
  text : Row → Entry

abbrev pub entry_row : Entry → Row
entry_row (number w v) = record w { value = format_decimal v }
entry_row (text w) = w

abbrev pub IsEntry : Entry → Type 0
IsEntry (number w v) = IsRow (record w { value = format_decimal v }) × (v < 2 ^ 64)
IsEntry (text w) = IsRow w × ((k : StatKey) → w.name ≢ stat_name k)

-- The rows as the file holds them.
abbrev pub print_rows : List Entry → Bytes
print_rows [] = []
print_rows (x ∷ xs) = row_and (entry_row x) (print_rows xs)

-- The last number in a row of this name, or what there was.
abbrev pub last_number : Bytes → List Entry → ℕ → ℕ
last_number name [] old = old
last_number name (number w v ∷ xs) old = last_number name xs (if equal w.name name then v else old)
last_number name (text w ∷ xs) old = last_number name xs old

abbrev pub apply_entry : Entry → DatasetProps → DatasetProps
apply_entry (number w v) d = apply_stat (stat_key w.name) v d
apply_entry (text w) d = d

abbrev pub apply_entries : List Entry → DatasetProps → DatasetProps
apply_entries [] d = d
apply_entries (x ∷ xs) d = apply_entries xs (apply_entry x d)

abbrev pub parse_at : DatasetProps → KstatReader → Parse KstatReader
parse_at d r = record { props = d; reader = r }

entry_row-IsRow : (x : Entry) → IsEntry x → IsRow (entry_row x)
entry_row-IsRow (number w v) h = h.0
entry_row-IsRow (text w) h = h.0

-- Storing a row's number, when the name is known or not.
parse_row-number :
    (name : Bytes) (known : Option StatKey) (v : ℕ) (d : DatasetProps) (r : KstatReader)
    → stat_key name ≡ known
    → row_data_as_uint64 r ≡ (ok v, r)
    → parse_row name (parse_at d r) ≡ (ok tt, parse_at (apply_stat known v d) r)
unfolding parse_row store_row on_reader
parse_row-number name none v d r known e = rw (parse_row, known)
parse_row-number name (some key) v d r known e = rw (parse_row, known, e)

row_data-number :
    (v : ℕ) (r : KstatReader)
    → r.row_data ≡ format_decimal v
    → v < 2 ^ 64
    → row_data_as_uint64 r ≡ (ok v, r)
unfolding row_data_as_uint64 wrap_err
row_data-number v r e small = rw (e, parse_uint-format_decimal v small)

parse_row-entry :
    (x : Entry) (d : DatasetProps) (r : KstatReader)
    → IsEntry x
    → parse_row (entry_row x).name (parse_at d (after_row r (entry_row x)))
      ≡ (ok tt, parse_at (apply_entry x d) (after_row r (entry_row x)))
unfolding parse_row
parse_row-entry (number w v) d r h =
    parse_row-number w.name (stat_key w.name) v d
      (after_row r (record w { value = format_decimal v })) refl
      (row_data-number v (after_row r (record w { value = format_decimal v })) refl h.1)
parse_row-entry (text w) d r h = rw (parse_row, stat_key-unknown w.name h.1 (stat_key w.name) refl)

parse_kstat-round :
    (f : ℕ) (name : Bytes) (d e : DatasetProps) (r t : KstatReader)
    → next r ≡ (ok name, t)
    → parse_row name (parse_at d t) ≡ (ok tt, parse_at e t)
    → parse_kstat (suc f) (parse_at d r) ≡ parse_kstat f (parse_at e t)
unfolding parse_kstat on_reader eof_as_none
parse_kstat-round f name d e r t step body = rw (step, body)

parse_kstat-end :
    (f : ℕ) (d : DatasetProps) (r : KstatReader)
    → next r ≡ (err eof, r)
    → parse_kstat (suc f) (parse_at d r) ≡ (ok tt, parse_at d r)
unfolding parse_kstat on_reader eof_as_none
parse_kstat-end f d r step = rw step

-- The reader stands at `more`, which the file ends with.
pub record Ahead (more : Bytes) (r : KstatReader) : Type 0 where
  pub started : 0 < r.pos
  pub at : At r.bytes r.pos more
  pub ends : r.pos + length more ≡ length r.bytes

after_row-Ahead :
    (w : Row) (more : Bytes) (r : KstatReader)
    → Ahead (row_and w more) r
    → Ahead more (after_row r w)
after_row-Ahead w more r h = record {
  started = omega arith;
  at = after_row-At w more r h.at;
  ends = omega (arith, h.ends, length-row_and w more);
}

pub parse_kstat-entries :
    (xs : List Entry) (f : ℕ) (d : DatasetProps) (r : KstatReader)
    → All IsEntry xs
    → length (print_rows xs) < f
    → Ahead (print_rows xs) r
    → (t : KstatReader) × (parse_kstat f (parse_at d r) ≡ (ok tt, parse_at (apply_entries xs d) t))
      × (t.pos ≡ length r.bytes)
parse_kstat-entries xs zero d r h fuel at = absurd (omega arith)
parse_kstat-entries [] (suc f) d r h fuel at =
    let ends : r.pos ≡ length r.bytes = omega (arith, at.ends) in
    (r, parse_kstat-end f d r (next-end r at.started ends), ends)
parse_kstat-entries (x ∷ xs) (suc f) d r h fuel at =
    let w = entry_row x in
    let more = print_rows xs in
    let (t, eq, ends) =
      parse_kstat-entries xs f (apply_entry x d) (after_row r w) h.1
        (omega (arith, length-row_and w more)) (after_row-Ahead w more r at) in
    (
      t,
      parse_kstat-round f w.name d (apply_entry x d) r (after_row r w)
            (next-row_and w more r (entry_row-IsRow x h.0) at.started
              (omega (arith, at.ends, length-row_and w more)) at.at)
            (parse_row-entry x d r h.0)
          ∙ eq,
      ends,
    )

pub entries_numbers :
    (k : StatKey) (xs : List Entry) (d : DatasetProps)
    → get_stat k (apply_entries xs d) ≡ last_number (stat_name k) xs (get_stat k d)
entries_numbers k [] d = refl
entries_numbers k (number w v ∷ xs) d =
    entries_numbers k xs (apply_stat (stat_key w.name) v d)
    ∙ ap (last_number (stat_name k) xs) (get_stat-store w.name (stat_key w.name) k v d refl)
entries_numbers k (text w ∷ xs) d = entries_numbers k xs d

-- `parseKStat` on the rows of a file as the kernel prints them, numbers in decimal below 2 ^ 64,
-- past the header lines and with fuel above their length, succeeds and reads to the end of the
-- file. Each field then holds the last number in a row of its name, and what it held before if
-- there is none.
pub parse_kstat-print_rows :
    (xs : List Entry) (f : ℕ) (d : DatasetProps) (r : KstatReader)
    → All IsEntry xs
    → length (print_rows xs) < f
    → Ahead (print_rows xs) r
    → (e : DatasetProps) × (t : KstatReader) × (parse_kstat f (parse_at d r)
        ≡ (ok tt, parse_at e t))
      × (t.pos ≡ length r.bytes)
      × ((k : StatKey) → get_stat k e ≡ last_number (stat_name k) xs (get_stat k d))
parse_kstat-print_rows xs f d r h fuel at =
    let (t, eq, ends) = parse_kstat-entries xs f d r h fuel at in
    (apply_entries xs d, t, eq, ends, λ k. entries_numbers k xs d)
