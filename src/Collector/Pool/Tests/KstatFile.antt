-- ===== src/Collector/Pool/Tests/KstatFile.antt =====
-- A kstat file of a dataset, and one of another type.
use prometheus_zfs_exporter.Base.{
  ◌≡◌, ◌≢◌, arith, refl, [], ◌∷◌, All, codes, ok, err, wrapped, message,
}
use prometheus_zfs_exporter.Strconv.{print_digits}
use prometheus_zfs_exporter.Kstat.Reader.Header.{Header, IsHeader}
use prometheus_zfs_exporter.Collector.Props.{DatasetProps, empty_props}
use prometheus_zfs_exporter.Collector.Props.Values.{PropKey, get_prop}
use prometheus_zfs_exporter.Collector.Props.Stats.{StatKey, get_stat}
use prometheus_zfs_exporter.Collector.Props.Stats.Keys.{stat_name}
use prometheus_zfs_exporter.Collector.Props.Stats.Rows.{number, text, IsEntry, last_number}
use prometheus_zfs_exporter.Collector.Props.Stats.File.{KstatFile, print_file, IsFile}
use prometheus_zfs_exporter.Collector.Pool.Datasets.{add_kstat}
use prometheus_zfs_exporter.Collector.Pool.Datasets.KstatFile.{
  add_kstat-print_file, add_kstat-other_type,
}

abbrev header : Header
header = record {
  kid = codes "182";
  kind = 1;
  flags = codes "0x01";
  ndata = codes "27";
  data_size = codes "7600";
  cr_time = codes "8327482934";
  snap_time = codes "352277655959";
}

-- `writes` is 52239. The name of the dataset is no number.
abbrev pub stat_file : KstatFile
stat_file = record {
  header = header;
  lead = 0;
  gap = 27;
  space = 0;
  entries =
      text (record {
        lead = 0;
        name = codes "dataset_name";
        gap = 19;
        kind = codes "7";
        space = 3;
        value = codes "tank/a";
      })
      ∷ number
          (record {
            lead = 0;
            name = codes "writes";
            gap = 25;
            kind = codes "4";
            space = 3;
            value = [];
          })
          52239
      ∷ [];
}

dataset_name-ne : (k : StatKey) → codes "dataset_name" ≢ stat_name k
dataset_name-ne StatKey.writes e = cc
dataset_name-ne StatKey.nwritten e = cc
dataset_name-ne StatKey.reads e = cc
dataset_name-ne StatKey.nread e = cc
dataset_name-ne StatKey.nunlinks e = cc
dataset_name-ne StatKey.nunlinked e = cc

entries-IsEntry : All IsEntry stat_file.entries
unfolding print_digits
entries-IsEntry = ((omega arith, dataset_name-ne), ((omega arith, omega arith), tt))

header-IsHeader : IsHeader header
header-IsHeader = omega arith

pub stat_file-IsFile : IsFile stat_file
stat_file-IsFile = record { header = header-IsHeader; entries = entries-IsEntry }

add_kstat-print_file_example :
    (e : DatasetProps) × (add_kstat empty_props (ok (print_file stat_file)) ≡ ok e)
    × ((k : StatKey)
        → get_stat k e ≡ last_number (stat_name k) stat_file.entries (get_stat k empty_props))
    × ((k : PropKey) → get_prop k e ≡ get_prop k empty_props)
add_kstat-print_file_example = add_kstat-print_file stat_file empty_props stat_file-IsFile refl

-- The same file with type 2.
abbrev timer_file : KstatFile
timer_file = record stat_file { header = record header { kind = 2 } }

timer_file-IsFile : IsFile timer_file
timer_file-IsFile = record { header = omega arith; entries = entries-IsEntry }

other_type_refused :
    add_kstat empty_props (ok (print_file timer_file))
    ≡ err (
        wrapped "error parsing kstats for %q (objset %v): "
          (message "KStatReader only supports kstat that are of type key-value pair"))
other_type_refused = add_kstat-other_type timer_file empty_props timer_file-IsFile (λ e. cc)
