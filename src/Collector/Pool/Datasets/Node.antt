-- ===== src/Collector/Pool/Datasets/Node.antt =====
-- main.go: a dataset as the kernel describes it, with its properties and its kstat file, and what
-- the exporter reads of it.
use prometheus_zfs_exporter.Base.{
  ℕ, ◌^◌, ◌<◌, ◌≡◌, refl, ap, ◌∙◌, Option, none, some, List, [], ◌++◌, append_assoc, Bytes, All,
  codes, length, Result, ok, err, not_exist, false,
}
use prometheus_zfs_exporter.Ioctl.Cmd.{name_size}
use prometheus_zfs_exporter.Ioctl.Cmd.Names.{NoNull}
use prometheus_zfs_exporter.Collector.Props.{DatasetProps}
use prometheus_zfs_exporter.Collector.Props.Values.{PropKey, get_prop}
use prometheus_zfs_exporter.Collector.Props.Values.Keys.{prop_name}
use prometheus_zfs_exporter.Collector.Props.Values.Listed.{Property, IsProperty, listed}
use prometheus_zfs_exporter.Collector.Props.Stats.{StatKey, get_stat}
use prometheus_zfs_exporter.Collector.Props.Stats.Keys.{stat_name}
use prometheus_zfs_exporter.Collector.Props.Stats.Rows.{Entry, last_number}
use prometheus_zfs_exporter.Collector.Props.Stats.File.{KstatFile, print_file, IsFile, IsKeyValue}
use prometheus_zfs_exporter.Collector.Export.{Desc, ValueType, Sample}
use prometheus_zfs_exporter.Collector.Metrics.Named.{dataset_metrics}
use prometheus_zfs_exporter.Collector.Pool.Datasets.{kstat_path, read_props, add_kstat}
use prometheus_zfs_exporter.Collector.Pool.Datasets.KstatFile.{add_kstat-print_file}
use prometheus_zfs_exporter.Collector.Pool.Datasets.Response.{response, read_props-listed}

-- A dataset's name, the cookie behind it, its list of properties under a stream's version and flags,
-- and its file under /proc, if there is one.
pub record Node : Type 0 where
  pub name : Bytes
  pub later : ℕ
  pub version : ℕ
  pub flags : ℕ
  pub properties : List Property
  pub stats : Option KstatFile

abbrev pub packed : Node → Bytes
packed n = response n.version n.flags n.properties []

abbrev pub file_of : Option KstatFile → Result Bytes
file_of none = err not_exist
file_of (some file) = ok (print_file file)

abbrev entries_of : Option KstatFile → List Entry
entries_of none = []
entries_of (some file) = file.entries

-- What the list and the file say: the last number under each name, and zero if there is none.
abbrev pub props_of : Node → DatasetProps
props_of n = record {
  objsetid = listed (codes "objsetid") n.properties 0;
  available = listed (codes "available") n.properties 0;
  compressratio = listed (codes "compressratio") n.properties 0;
  used = listed (codes "used") n.properties 0;
  usedbychildren = listed (codes "usedbychildren") n.properties 0;
  usedbydataset = listed (codes "usedbydataset") n.properties 0;
  usedbyrefreservation = listed (codes "usedbyrefreservation") n.properties 0;
  usedbysnapshots = listed (codes "usedbysnapshots") n.properties 0;
  referenced = listed (codes "referenced") n.properties 0;
  refcompressratio = listed (codes "refcompressratio") n.properties 0;
  logicalreferenced = listed (codes "logicalreferenced") n.properties 0;
  logicalused = listed (codes "logicalused") n.properties 0;
  has_kstats = false;
  writes = last_number (codes "writes") (entries_of n.stats) 0;
  nwritten = last_number (codes "nwritten") (entries_of n.stats) 0;
  reads = last_number (codes "reads") (entries_of n.stats) 0;
  nread = last_number (codes "nread") (entries_of n.stats) 0;
  nunlinks = last_number (codes "nunlinks") (entries_of n.stats) 0;
  nunlinked = last_number (codes "nunlinked") (entries_of n.stats) 0;
}

abbrev pub IsStats : Option KstatFile → Type 0
IsStats none = Unit
IsStats (some file) = IsFile file × IsKeyValue file

-- The name fits the command block, the list and the file are well-formed, and the file stands where
-- the number in the list says.
pub record IsNode (files : Bytes → Result Bytes) (pool : Bytes) (n : Node) : Type 0 where
  pub no_null : NoNull n.name
  pub name_lt : length n.name < name_size
  pub version_lt : n.version < 2 ^ 31
  pub flags_lt : n.flags < 2 ^ 32
  pub are_properties : All IsProperty n.properties
  pub is_stats : IsStats n.stats
  pub in_files :
      files (kstat_path pool (listed (codes "objsetid") n.properties 0)) ≡ file_of n.stats

packed_append :
    (n : Node) (rest : Bytes) → packed n ++ rest ≡ response n.version n.flags n.properties rest
packed_append n rest = simp append_assoc

-- Properties with the same numbers give the same metrics.
same_metrics :
    {Metric : Type 0} (make : Desc → ValueType → Sample → List Bytes → Metric) (pool name : Bytes)
    (d e : DatasetProps)
    → ((k : PropKey) → get_prop k d ≡ get_prop k e)
    → ((k : StatKey) → get_stat k d ≡ get_stat k e)
    → dataset_metrics make pool name d ≡ dataset_metrics make pool name e
same_metrics make pool name d e props stats = λ i. dataset_metrics make pool name (record e {
  objsetid = props PropKey.objsetid i;
  available = props PropKey.available i;
  compressratio = props PropKey.compressratio i;
  used = props PropKey.used i;
  usedbychildren = props PropKey.usedbychildren i;
  usedbydataset = props PropKey.usedbydataset i;
  usedbyrefreservation = props PropKey.usedbyrefreservation i;
  usedbysnapshots = props PropKey.usedbysnapshots i;
  referenced = props PropKey.referenced i;
  refcompressratio = props PropKey.refcompressratio i;
  logicalreferenced = props PropKey.logicalreferenced i;
  logicalused = props PropKey.logicalused i;
  writes = stats StatKey.writes i;
  nwritten = stats StatKey.nwritten i;
  reads = stats StatKey.reads i;
  nread = stats StatKey.nread i;
  nunlinks = stats StatKey.nunlinks i;
  nunlinked = stats StatKey.nunlinked i;
})

completed :
    (stats : Option KstatFile) (d : DatasetProps)
    → IsStats stats
    → (e : DatasetProps) × (add_kstat d (file_of stats) ≡ ok e)
      × ((k : StatKey) → get_stat k e ≡ last_number (stat_name k) (entries_of stats) (get_stat k d))
      × ((k : PropKey) → get_prop k e ≡ get_prop k d)
unfolding add_kstat
completed none d h = (d, refl, λ k. refl, λ k. refl)
completed (some file) d h = add_kstat-print_file file d h.0 h.1

prop_of : (n : Node) (k : PropKey) → listed (prop_name k) n.properties 0 ≡ get_prop k (props_of n)
prop_of n PropKey.objsetid = refl
prop_of n PropKey.available = refl
prop_of n PropKey.compressratio = refl
prop_of n PropKey.used = refl
prop_of n PropKey.usedbychildren = refl
prop_of n PropKey.usedbydataset = refl
prop_of n PropKey.usedbyrefreservation = refl
prop_of n PropKey.usedbysnapshots = refl
prop_of n PropKey.referenced = refl
prop_of n PropKey.refcompressratio = refl
prop_of n PropKey.logicalreferenced = refl
prop_of n PropKey.logicalused = refl

stat_of :
    (n : Node) (k : StatKey)
    → last_number (stat_name k) (entries_of n.stats) 0 ≡ get_stat k (props_of n)
stat_of n StatKey.writes = refl
stat_of n StatKey.nwritten = refl
stat_of n StatKey.reads = refl
stat_of n StatKey.nread = refl
stat_of n StatKey.nunlinks = refl
stat_of n StatKey.nunlinked = refl

-- The exporter reads the list where it stands in a buffer, and then the file, and shows the numbers.
pub node_read :
    {Metric : Type 0} (make : Desc → ValueType → Sample → List Bytes → Metric)
    (files : Bytes → Result Bytes) (pool : Bytes) (n : Node) (rest : Bytes)
    → IsNode files pool n
    → 0 < length rest
    → (d : DatasetProps) × (e : DatasetProps) × (read_props (packed n ++ rest) ≡ ok d)
      × (add_kstat d (files (kstat_path pool d.objsetid)) ≡ ok e)
      × (dataset_metrics make pool n.name e ≡ dataset_metrics make pool n.name (props_of n))
node_read make files pool n rest h room =
    let (d, reads, props, none_yet) =
      read_props-listed n.version n.flags n.properties rest h.version_lt h.flags_lt h.are_properties
        room in
    let (e, adds, stats, kept) = completed n.stats d h.is_stats in
    (
      d,
      e,
      ap read_props (packed_append n rest) ∙ reads,
      ap (add_kstat d) (ap (λ k. files (kstat_path pool k)) (props PropKey.objsetid) ∙ h.in_files)
          ∙ adds,
      same_metrics make pool n.name e (props_of n) (λ k. kept k ∙ props k ∙ prop_of n k)
          (λ k.
            stats k
            ∙ ap (last_number (stat_name k) (entries_of n.stats)) (none_yet k)
            ∙ stat_of n k),
    )
