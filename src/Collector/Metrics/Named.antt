-- ===== src/Collector/Metrics/Named.antt =====
-- main.go: the metrics of a dataset and of a vdev, by the names and labels that a scrape shows.
use prometheus_zfs_exporter.Base.{List, [], ◌∷◌, ◌++◌, Bytes, String, codes, equal, if◌then◌else◌}
use prometheus_zfs_exporter.Strconv.{format_decimal}
use prometheus_zfs_exporter.Ioctl.State.{vdev_states}
use prometheus_zfs_exporter.Collector.Props.{DatasetProps}
use prometheus_zfs_exporter.Collector.Vdev.{VdevInfo, Vdev, Vdevs, node, nil, cons}
use prometheus_zfs_exporter.Collector.Naming.{base_name}
use prometheus_zfs_exporter.Collector.Export.{
  Desc, ValueType, counter_value, gauge_value, Sample, whole, percent,
}
use prometheus_zfs_exporter.Collector.Export.Sends.{states_of}

-- A description with these labels.
abbrev pub labelled : List Bytes → String → Desc
labelled labels metric = record { fq_name = codes metric; variable_labels = labels }

abbrev of_dataset : String → Desc
of_dataset = labelled (codes "name" ∷ codes "pool" ∷ [])

abbrev of_vdev : String → Desc
of_vdev = labelled (codes "pool" ∷ codes "vdev" ∷ codes "vdev_type" ∷ [])

abbrev vdev_state_desc : Desc
vdev_state_desc =
    labelled (codes "pool" ∷ codes "vdev" ∷ codes "vdev_type" ∷ codes "state" ∷ [])
      "zfs_pool_vdev_state"

-- A vdev's own part of its label: the last element of its path, or else the pool's name for the
-- root, and the type with the number for any other.
abbrev own_label : Bytes → VdevInfo → Bytes
own_label pool v =
    if equal v.path []
    then (if equal v.vdev_type (codes "root")
        then pool
        else v.vdev_type ++ b'-' ∷ format_decimal v.id)
    else base_name v.path

-- With those of the vdevs above it in front.
abbrev pub vdev_label : Bytes → Bytes → VdevInfo → Bytes
vdev_label pool above v = above ++ own_label pool v

module _ {Metric : Type 0} (make : Desc → ValueType → Sample → List Bytes → Metric) where
  abbrev pub dataset_metrics : Bytes → Bytes → DatasetProps → List Metric
  dataset_metrics pool name props =
      make (of_dataset "zfs_dataset_available") gauge_value (whole props.available)
        (name ∷ pool ∷ [])
      ∷ make (of_dataset "zfs_dataset_compress_ratio") gauge_value (percent props.compressratio)
          (name ∷ pool ∷ [])
      ∷ make (of_dataset "zfs_dataset_used") gauge_value (whole props.used) (name ∷ pool ∷ [])
      ∷ make (of_dataset "zfs_dataset_used_by_children") gauge_value (whole props.usedbychildren)
          (name ∷ pool ∷ [])
      ∷ make (of_dataset "zfs_dataset_used_by_dataset") gauge_value (whole props.usedbydataset)
          (name ∷ pool ∷ [])
      ∷ make (of_dataset "zfs_dataset_used_by_ref_reservation") gauge_value
          (whole props.usedbyrefreservation) (name ∷ pool ∷ [])
      ∷ make (of_dataset "zfs_dataset_used_by_snapshots") gauge_value (whole props.usedbysnapshots)
          (name ∷ pool ∷ [])
      ∷ make (of_dataset "zfs_dataset_referenced") gauge_value (whole props.referenced)
          (name ∷ pool ∷ [])
      ∷ make (of_dataset "zfs_dataset_ref_compress_ratio") gauge_value
          (percent props.refcompressratio) (name ∷ pool ∷ [])
      ∷ make (of_dataset "zfs_dataset_logical_referenced") gauge_value
          (whole props.logicalreferenced) (name ∷ pool ∷ [])
      ∷ make (of_dataset "zfs_dataset_logical_used") gauge_value (whole props.logicalused)
          (name ∷ pool ∷ [])
      ∷ make (of_dataset "zfs_dataset_writes") counter_value (whole props.writes) (name ∷ pool ∷ [])
      ∷ make (of_dataset "zfs_dataset_nwritten") counter_value (whole props.nwritten)
          (name ∷ pool ∷ [])
      ∷ make (of_dataset "zfs_dataset_reads") counter_value (whole props.reads) (name ∷ pool ∷ [])
      ∷ make (of_dataset "zfs_dataset_nread") counter_value (whole props.nread) (name ∷ pool ∷ [])
      ∷ make (of_dataset "zfs_dataset_nunlinks") counter_value (whole props.nunlinks)
          (name ∷ pool ∷ [])
      ∷ make (of_dataset "zfs_dataset_nunlinked") counter_value (whole props.nunlinked)
          (name ∷ pool ∷ [])
      ∷ []

  -- Whether the vdev is in each of the states, then its nine numbers.
  abbrev pub own_metrics : Bytes → Bytes → VdevInfo → List Metric
  own_metrics pool label v =
      states_of make vdev_state_desc (pool ∷ label ∷ v.vdev_type ∷ []) v.stats.state vdev_states
      ++ (make (of_vdev "zfs_pool_vdev_alloc_space") gauge_value (whole v.stats.alloc)
            (pool ∷ label ∷ v.vdev_type ∷ [])
          ∷ make (of_vdev "zfs_pool_vdev_total_space") gauge_value (whole v.stats.size)
              (pool ∷ label ∷ v.vdev_type ∷ [])
          ∷ make (of_vdev "zfs_pool_vdev_read_ops") counter_value (whole v.stats.read_operations)
              (pool ∷ label ∷ v.vdev_type ∷ [])
          ∷ make (of_vdev "zfs_pool_vdev_read_bytes") counter_value (whole v.stats.bytes_read)
              (pool ∷ label ∷ v.vdev_type ∷ [])
          ∷ make (of_vdev "zfs_pool_vdev_read_errors") counter_value (whole v.stats.read_errors)
              (pool ∷ label ∷ v.vdev_type ∷ [])
          ∷ make (of_vdev "zfs_pool_vdev_write_ops") counter_value (whole v.stats.write_operations)
              (pool ∷ label ∷ v.vdev_type ∷ [])
          ∷ make (of_vdev "zfs_pool_vdev_write_bytes") counter_value (whole v.stats.bytes_written)
              (pool ∷ label ∷ v.vdev_type ∷ [])
          ∷ make (of_vdev "zfs_pool_vdev_write_errors") counter_value (whole v.stats.write_errors)
              (pool ∷ label ∷ v.vdev_type ∷ [])
          ∷ make (of_vdev "zfs_pool_vdev_checksum_errors") counter_value
              (whole v.stats.checksum_errors) (pool ∷ label ∷ v.vdev_type ∷ [])
          ∷ [])

  -- A vdev's own metrics, then those of its children, each under the vdev's label and a slash.
  unfoldable mutual
    pub vdev_metrics : Vdev → Bytes → Bytes → List Metric
    vdev_metrics (node v children) pool above =
        own_metrics pool (vdev_label pool above v) v
        ++ children_metrics children pool (vdev_label pool above v ++ codes "/")

    pub children_metrics : Vdevs → Bytes → Bytes → List Metric
    children_metrics nil pool above = []
    children_metrics (cons v vs) pool above =
        vdev_metrics v pool above ++ children_metrics vs pool above

-- The labels and types in the tree are valid label values.
module _ (IsLabel : Bytes → Type 0) where
  unfoldable mutual
    pub IsLabelled : Vdev → Bytes → Bytes → Type 0
    IsLabelled (node v children) pool above =
        IsLabel (vdev_label pool above v)
        × IsLabel v.vdev_type
        × AreLabelled children pool (vdev_label pool above v ++ codes "/")

    pub AreLabelled : Vdevs → Bytes → Bytes → Type 0
    AreLabelled nil pool above = Unit
    AreLabelled (cons v vs) pool above = IsLabelled v pool above × AreLabelled vs pool above
