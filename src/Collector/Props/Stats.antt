-- ===== src/Collector/Props/Stats.antt =====
-- main.go: `parseKStat`, which reads a dataset's kernel statistics.
pub mod Keys
pub mod Rows
pub mod File
pub mod Total
use prometheus_zfs_exporter.Base.{
  ℕ, zero, suc, Option, none, some, Bytes, String, codes, equal, if◌then◌else◌, Error, Result, ok,
  out_of_fuel, Method, pure, ◌>>=◌, ◌>>◌, until_eof,
}
use prometheus_zfs_exporter.Kstat.Reader as Kstat
use prometheus_zfs_exporter.Kstat.Reader.{KstatReader, row_data_as_uint64}
use prometheus_zfs_exporter.Collector.Props.{DatasetProps, Parse, on_reader}

-- The names in the switch of `parseKStat`.
pub data StatKey : Type 0 where
  writes nwritten reads nread nunlinks nunlinked : StatKey

unfoldable pub stat_key : Bytes → Option StatKey
stat_key name =
    if equal name (codes "writes")
    then some StatKey.writes
    else if equal name (codes "nwritten")
    then some StatKey.nwritten
    else if equal name (codes "reads")
    then some StatKey.reads
    else if equal name (codes "nread")
    then some StatKey.nread
    else if equal name (codes "nunlinks")
    then some StatKey.nunlinks
    else if equal name (codes "nunlinked")
    then some StatKey.nunlinked
    else none

unfoldable pub set_stat : StatKey → ℕ → DatasetProps → DatasetProps
set_stat StatKey.writes v d = record d { writes = v }
set_stat StatKey.nwritten v d = record d { nwritten = v }
set_stat StatKey.reads v d = record d { reads = v }
set_stat StatKey.nread v d = record d { nread = v }
set_stat StatKey.nunlinks v d = record d { nunlinks = v }
set_stat StatKey.nunlinked v d = record d { nunlinked = v }

abbrev pub get_stat : StatKey → DatasetProps → ℕ
get_stat StatKey.writes d = d.writes
get_stat StatKey.nwritten d = d.nwritten
get_stat StatKey.reads d = d.reads
get_stat StatKey.nread d = d.nread
get_stat StatKey.nunlinks d = d.nunlinks
get_stat StatKey.nunlinked d = d.nunlinked

abbrev pub stat_error : StatKey → String
stat_error StatKey.writes = "error reading \"writes\" row: "
stat_error StatKey.nwritten = "error reading \"nwritten\" row: "
stat_error StatKey.reads = "error reading \"reads\" row: "
stat_error StatKey.nread = "error reading \"nread\" row: "
stat_error StatKey.nunlinks = "error reading \"nunlinks\" row: "
stat_error StatKey.nunlinked = "error reading \"nunlinked\" row: "

-- `d.<name>, err = r.RowDataAsUInt64()`: a failed conversion stores zero before it is reported.
unfoldable pub store_row :
    StatKey → Result ℕ × Parse KstatReader → Result (Unit {0}) × Parse KstatReader
store_row key (ok v, p) = (ok tt, record p { props = set_stat key v p.props })
store_row key (Result.err e, p) =
    (Result.err (Error.wrapped (stat_error key) e), record p { props = set_stat key 0 p.props })
store_row key (Result.panicked c, p) = (Result.panicked c, p)
store_row key (out_of_fuel, p) = (out_of_fuel, p)

unfoldable pub parse_row : Bytes → Method (Parse KstatReader) (Unit {0})
parse_row name p = elim (stat_key name) [
  | none ↦ (ok tt, p)
  | some key ↦ store_row key (on_reader row_data_as_uint64 p)
]

-- `parseKStat`
unfoldable pub parse_kstat : ℕ → Method (Parse KstatReader) (Unit {0})
parse_kstat zero p = (out_of_fuel, p)
parse_kstat (suc f) p =
    (do
      row ← until_eof (on_reader Kstat.next)
      elim row [ none ↦ pure tt | some name ↦ do parse_row name; parse_kstat f ])
      p
