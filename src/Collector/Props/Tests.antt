-- ===== src/Collector/Props/Tests.antt =====
-- The property list and the statistics of a small dataset.
use prometheus_zfs_exporter.Base.{
  Ends, length, length-append, ok, ◌≡◌, ◌≢◌, refl, arith, [], ◌∷◌, List, Bytes, ◌++◌, codes,
  replicate, All,
}
use prometheus_zfs_exporter.Nvlist.Types.{type_string}
use prometheus_zfs_exporter.Nvlist.Reader.{NvListReader, new_reader}
use prometheus_zfs_exporter.Nvlist.Format.{Pair, stream_header}
use prometheus_zfs_exporter.Collector.Props.{DatasetProps, empty_props}
use prometheus_zfs_exporter.Collector.Props.Values.Encoded.{Field, value, other}
use prometheus_zfs_exporter.Collector.Props.Values.Listed.{Property}
use prometheus_zfs_exporter.Strconv.{print_digits}
use prometheus_zfs_exporter.Kstat.Reader as Kstat
use prometheus_zfs_exporter.Kstat.Reader.Within.{Within, Any}
use prometheus_zfs_exporter.Kstat.Reader.Total.{next-Within}
use prometheus_zfs_exporter.Collector.Props.Stats.Total.{AnyError, parse_kstat-Ends}
use prometheus_zfs_exporter.Kstat.Reader.{KstatReader}
use prometheus_zfs_exporter.Collector.Props.Stats.{StatKey, get_stat, parse_kstat}
use prometheus_zfs_exporter.Collector.Props.Stats.Keys.{stat_name}
use prometheus_zfs_exporter.Collector.Props.Stats.Rows.{
  Entry, number, text, IsEntry, print_rows, last_number, parse_at, Ahead, parse_kstat-print_rows,
}

abbrev source_pair : Pair
source_pair = record {
  name = codes "source";
  ty = type_string;
  count = 1;
  payload = replicate 8 65;
}

abbrev used_fields : List Field
used_fields = value 4096 ∷ other source_pair ∷ []

-- A mount point.
abbrev place_pair : Pair
place_pair = record {
  name = codes "value";
  ty = type_string;
  count = 1;
  payload = codes "/tank/a" ++ replicate 8 0;
}

abbrev properties : List Property
properties =
    record { name = codes "used"; count = 1; payload = replicate 24 0; fields = used_fields }
    ∷ record { name = codes "zoned"; count = 1; payload = replicate 24 0; fields = value 1 ∷ [] }
    ∷ record {
      name = codes "mountpoint";
      count = 1;
      payload = replicate 24 0;
      fields = other place_pair ∷ [];
    }
    ∷ []

abbrev rest : Bytes
rest = replicate 8 0

-- The reader behind the stream's header.
abbrev begun : Bytes → NvListReader
begun bs = record (new_reader (stream_header 0 0 ++ bs)) { pos = 12; alignment = 8 }

-- A kstat file's rows behind a header line.
abbrev kstat_rows : List Entry
kstat_rows =
    text (record {
      lead = 0;
      name = codes "dataset_name";
      gap = 19;
      kind = codes "7";
      space = 3;
      value = codes "tank/a";
    })
    ∷ number
        (record {
          lead = 0;
          name = codes "writes";
          gap = 25;
          kind = codes "4";
          space = 3;
          value = [];
        })
        17
    ∷ []

abbrev kstat_reader : KstatReader
kstat_reader = record (Kstat.new_reader (codes "header\n" ++ print_rows kstat_rows)) { pos = 7 }

dataset_name-other : (k : StatKey) → codes "dataset_name" ≢ stat_name k
dataset_name-other StatKey.writes e = cc
dataset_name-other StatKey.nwritten e = cc
dataset_name-other StatKey.reads e = cc
dataset_name-other StatKey.nread e = cc
dataset_name-other StatKey.nunlinks e = cc
dataset_name-other StatKey.nunlinked e = cc

kstat_rows-IsEntry : All IsEntry kstat_rows
unfolding print_digits
kstat_rows-IsEntry = ((omega arith, dataset_name-other), ((omega arith, omega arith), tt))

kstat_rows-Ahead : Ahead (print_rows kstat_rows) kstat_reader
kstat_rows-Ahead = record {
  started = omega arith;
  at = refl;
  ends = omega (arith, length-append (codes "header\n") (print_rows kstat_rows));
}

parse_kstat-print_rows_example :
    (e : DatasetProps) × (t : KstatReader) × (parse_kstat 200 (parse_at empty_props kstat_reader)
      ≡ (ok tt, parse_at e t))
    × (t.pos ≡ length kstat_reader.bytes)
    × ((k : StatKey) → get_stat k e ≡ last_number (stat_name k) kstat_rows (get_stat k empty_props))
parse_kstat-print_rows_example =
    parse_kstat-print_rows kstat_rows 200 empty_props kstat_reader kstat_rows-IsEntry
      (unfold print_digits in omega arith) kstat_rows-Ahead

next-Within_example :
    Ends (λ _ t. Within (codes "1 2") 1 t) Any (Kstat.next (Kstat.new_reader (codes "1 2")))
next-Within_example = next-Within (Kstat.new_reader (codes "1 2")) (omega arith)

parse_kstat-Ends_example :
    Ends
      (λ _ _. Unit)
      AnyError
      (parse_kstat 4 (parse_at empty_props (Kstat.new_reader (codes "1 2"))))
parse_kstat-Ends_example =
    parse_kstat-Ends 4 (parse_at empty_props (Kstat.new_reader (codes "1 2"))) (omega arith)
      (omega arith)
