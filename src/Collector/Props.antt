-- ===== src/Collector/Props.antt =====
-- main.go: the properties of a dataset, and the methods that fill them in from a reader.
pub mod Switch
pub mod Values
pub mod Stats
mod Tests
use prometheus_zfs_exporter.Base.{
  ℕ, zero, suc, Option, none, some, Bool, true, false, not, Bytes, String, codes, equal, ◌==◌,
  if◌then◌else◌, Error, message, Result, ok, out_of_fuel, Method, pure, gets, modify, ◌>>=◌, ◌>>◌,
  raise_if, until_eof, wrapping,
}
use prometheus_zfs_exporter.Nvlist.Types.{NvType, type_uint64, type_nvlist}
use prometheus_zfs_exporter.Nvlist.Reader.{NvListReader}
use prometheus_zfs_exporter.Nvlist.Reader as Nvlist
use prometheus_zfs_exporter.Nvlist.Next.{next}
use prometheus_zfs_exporter.Nvlist.Access.{get_uint64}
use prometheus_zfs_exporter.Kstat.Reader.{KstatReader, row_data_as_uint64}
use prometheus_zfs_exporter.Kstat.Reader as Kstat

-- `has_kstats` is never set.
pub record DatasetProps : Type 0 where
  pub objsetid : ℕ
  pub available : ℕ
  pub compressratio : ℕ
  pub used : ℕ
  pub usedbychildren : ℕ
  pub usedbydataset : ℕ
  pub usedbyrefreservation : ℕ
  pub usedbysnapshots : ℕ
  pub referenced : ℕ
  pub refcompressratio : ℕ
  pub logicalreferenced : ℕ
  pub logicalused : ℕ
  pub has_kstats : Bool
  pub writes : ℕ
  pub nwritten : ℕ
  pub reads : ℕ
  pub nread : ℕ
  pub nunlinks : ℕ
  pub nunlinked : ℕ

-- `datasetProps{}`
abbrev pub empty_props : DatasetProps
empty_props = record {
  objsetid = 0;
  available = 0;
  compressratio = 0;
  used = 0;
  usedbychildren = 0;
  usedbydataset = 0;
  usedbyrefreservation = 0;
  usedbysnapshots = 0;
  referenced = 0;
  refcompressratio = 0;
  logicalreferenced = 0;
  logicalused = 0;
  has_kstats = false;
  writes = 0;
  nwritten = 0;
  reads = 0;
  nread = 0;
  nunlinks = 0;
  nunlinked = 0;
}

-- The receiver and the reader that a method is handed.
pub record Parse (R : Type 0) : Type 0 where
  pub props : DatasetProps
  pub reader : R

abbrev pub with_reader : {R A : Type 0} → DatasetProps → Result A × R → Result A × Parse R
with_reader d (r, t) = (r, record { props = d; reader = t })

-- A call of the reader's method.
unfoldable pub on_reader : {R A : Type 0} → Method R A → Method (Parse R) A
on_reader m p = with_reader p.props (m p.reader)
