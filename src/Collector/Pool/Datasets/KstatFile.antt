-- ===== src/Collector/Pool/Datasets/KstatFile.antt =====
-- main.go: a dataset's properties completed by the kstat file that the kernel prints for it.
use prometheus_zfs_exporter.Base.{◌≡◌, ok, err, wrapped, message, wrap_result}
use prometheus_zfs_exporter.Collector.Props.{DatasetProps}
use prometheus_zfs_exporter.Collector.Props.Values.{PropKey, get_prop}
use prometheus_zfs_exporter.Collector.Props.Stats.{StatKey, get_stat}
use prometheus_zfs_exporter.Collector.Props.Stats.Keys.{stat_name}
use prometheus_zfs_exporter.Collector.Props.Stats.Rows.{last_number, apply_entries, entries_numbers}
use prometheus_zfs_exporter.Collector.Props.Stats.File.{
  KstatFile, print_file, IsFile, IsKeyValue, get_prop-apply_entries, parse_kstat-print_file,
  parse_kstat-other_type,
}
use prometheus_zfs_exporter.Collector.Pool.Datasets.{read_kstat, add_kstat}

-- A whole kstat file as the kernel prints it, of a type whose number is 1 modulo 256, completes a
-- dataset's properties without error: each statistic is the last number in a row of its name, and
-- what it was before if there is none, and the values of the properties stay as they were.
pub add_kstat-print_file :
    (file : KstatFile) (d : DatasetProps)
    → IsFile file
    → IsKeyValue file
    → (e : DatasetProps) × (add_kstat d (ok (print_file file)) ≡ ok e)
      × ((k : StatKey) → get_stat k e ≡ last_number (stat_name k) file.entries (get_stat k d))
      × ((k : PropKey) → get_prop k e ≡ get_prop k d)
unfolding add_kstat read_kstat wrap_result
add_kstat-print_file file d ok_file kv =
    let (t, eq) = parse_kstat-print_file file ok_file d kv in
    (
      apply_entries file.entries d,
      rw eq,
      λ k. entries_numbers k file.entries d,
      λ k. get_prop-apply_entries k file.entries d,
    )

-- A whole kstat file of any other type is an error.
pub add_kstat-other_type :
    (file : KstatFile) (d : DatasetProps)
    → IsFile file
    → (IsKeyValue file → ⊥)
    → add_kstat d (ok (print_file file))
      ≡ err (
          wrapped "error parsing kstats for %q (objset %v): "
            (message "KStatReader only supports kstat that are of type key-value pair"))
unfolding add_kstat read_kstat wrap_result
add_kstat-other_type file d ok_file other =
    let (t, eq) = parse_kstat-other_type file ok_file d other in rw eq
