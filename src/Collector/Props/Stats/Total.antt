-- ===== src/Collector/Props/Stats/Total.antt =====
-- main.go: `parseKStat` on any file.
use prometheus_zfs_exporter.Base.{
  ℕ, zero, suc, ◌+◌, ◌<◌, ◌≤◌, ◌≡◌, ap, arith, Option, none, some, Option-cases, inl, inr, Bytes,
  length, Error, Result, pure, Method, ◌>>◌, Ends, returns, raises, AtEof, Ends-bind,
  Ends-eof_as_none,
}
use prometheus_zfs_exporter.Kstat.Reader.{KstatReader}
use prometheus_zfs_exporter.Kstat.Reader.Within.{Within, Any}
use prometheus_zfs_exporter.Kstat.Reader.Total.{next-Within, row_data_as_uint64-Within}
use prometheus_zfs_exporter.Collector.Props.{DatasetProps, Parse, with_reader, on_reader}
use prometheus_zfs_exporter.Collector.Props.Stats.{
  StatKey, stat_key, store_row, parse_row, parse_kstat,
}

abbrev pub AnyError : Error → Parse KstatReader → Type 0
AnyError e p = Unit

-- The parse's reader is in the file.
abbrev Reads : {A : Type 0} → Bytes → ℕ → A → Parse KstatReader → Type 0
Reads bs k a p = Within bs k p.reader

with_reader-Reads :
    {A : Type 0} {bs : Bytes} {k : ℕ} (d : DatasetProps) {x : Result A × KstatReader}
    → Ends (λ _ t. Within bs k t) Any x
    → Ends (Reads bs k) AnyError (with_reader d x)
with_reader-Reads d (returns h) = returns h
with_reader-Reads d (raises h) = raises tt

store_row-Reads :
    {bs : Bytes} {k : ℕ} (key : StatKey) {x : Result ℕ × Parse KstatReader}
    → Ends (Reads bs k) AnyError x
    → Ends (Reads bs k) AnyError (store_row key x)
unfolding store_row
store_row-Reads key (returns h) = returns h
store_row-Reads key (raises h) = raises tt

parse_row-Reads :
    (bs : Bytes) (k : ℕ) (name : Bytes) (p : Parse KstatReader)
    → Within bs k p.reader
    → Ends (Reads bs k) AnyError (parse_row name p)
unfolding parse_row on_reader
parse_row-Reads bs k name p h = elim (Option-cases (stat_key name)) [
  | inl unknown ↦ rw (parse_row, unknown) (returns h)
  | inr (key, known) ↦
      rw (parse_row, known)
        (store_row-Reads key
          (with_reader-Reads p.props (row_data_as_uint64-Within bs k p.reader h)))
]

after_token :
    (bs : Bytes) (k f : ℕ) (token : Option Bytes) (p : Parse KstatReader)
    → AtEof (Reads bs k) AnyError token p
    → ((q : Parse KstatReader)
        → Within bs k q.reader
        → Ends (λ _ _. Unit) AnyError (parse_kstat f q))
    → Ends
        (λ _ _. Unit)
        AnyError
        ((elim token as (λ _. Method (Parse KstatReader) (Unit {0})) [
          | none ↦ pure tt
          | some name ↦ do parse_row name; parse_kstat f
        ])
          p)
after_token bs k f none p h later = returns tt
after_token bs k f (some name) p h later =
    Ends-bind (parse_row-Reads bs k name p h) (λ _ q r. later q r) (λ e q r. tt)

-- `parseKStat` on any file, well-formed or not, neither panics nor runs out of fuel, if the reader
-- starts within the file and the fuel exceeds the bytes ahead of it: it returns or fails with an
-- error.
pub parse_kstat-Ends :
    (f : ℕ) (p : Parse KstatReader)
    → p.reader.pos ≤ length p.reader.bytes
    → length p.reader.bytes < p.reader.pos + f
    → Ends (λ _ _. Unit) AnyError (parse_kstat f p)
unfolding parse_kstat on_reader
parse_kstat-Ends zero p h fuel = absurd (omega arith)
parse_kstat-Ends (suc f) p h fuel =
    Ends-bind (Ends-eof_as_none (with_reader-Reads p.props (next-Within p.reader h)))
      (λ token q at. after_token p.reader.bytes (suc p.reader.pos) f token q at (λ u w.
        let size : length u.reader.bytes ≡ length p.reader.bytes = ap length w.same_bytes in
        parse_kstat-Ends f u (omega (arith, size, w.inside)) (omega (arith, size, w.at_least))))
      (λ e q at. tt)
