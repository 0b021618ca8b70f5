-- ===== src/Collector/Metrics.antt =====
-- main.go: `handleVdev` and `handleDataset`, which export what was read.
pub mod Named
pub mod Sends
use prometheus_zfs_exporter.Base.{Option, List, [], ◌∷◌, ◌++◌, Bytes, ok, Method, ◌>>◌}
use prometheus_zfs_exporter.Ioctl.State.{vdev_states}
use prometheus_zfs_exporter.Collector.Props.{DatasetProps}
use prometheus_zfs_exporter.Collector.Vdev.{VdevStats, VdevInfo, Vdev, Vdevs, node, nil, cons}
use prometheus_zfs_exporter.Collector.Naming.{slash, vdev_name}
use prometheus_zfs_exporter.Collector.Export.{
  Desc, ZfsCollector, ValueType, counter_value, gauge_value, Sample, whole, percent, Exporter,
  Channel, export_all, export_states,
}

abbrev Fields : Type 0
Fields = ZfsCollector (Unit {0})

-- The `export` calls of `handleDataset`, in order.
abbrev pub dataset_samples : Fields → DatasetProps → List (Option Desc × ValueType × Sample)
dataset_samples c props =
    (c.dataset_available_desc, gauge_value, whole props.available)
    ∷ (c.dataset_compress_ratio_desc, gauge_value, percent props.compressratio)
    ∷ (c.dataset_used_desc, gauge_value, whole props.used)
    ∷ (c.dataset_used_by_children_desc, gauge_value, whole props.usedbychildren)
    ∷ (c.dataset_used_by_dataset_desc, gauge_value, whole props.usedbydataset)
    ∷ (c.dataset_used_by_ref_reservation_desc, gauge_value, whole props.usedbyrefreservation)
    ∷ (c.dataset_used_by_snapshots_desc, gauge_value, whole props.usedbysnapshots)
    ∷ (c.dataset_referenced_desc, gauge_value, whole props.referenced)
    ∷ (c.dataset_ref_compress_ratio_desc, gauge_value, percent props.refcompressratio)
    ∷ (c.dataset_logical_referenced_desc, gauge_value, whole props.logicalreferenced)
    ∷ (c.dataset_logical_used_desc, gauge_value, whole props.logicalused)
    ∷ (c.dataset_writes_desc, counter_value, whole props.writes)
    ∷ (c.dataset_nwritten_desc, counter_value, whole props.nwritten)
    ∷ (c.dataset_reads_desc, counter_value, whole props.reads)
    ∷ (c.dataset_nread_desc, counter_value, whole props.nread)
    ∷ (c.dataset_nunlinks_desc, counter_value, whole props.nunlinks)
    ∷ (c.dataset_nunlinked_desc, counter_value, whole props.nunlinked)
    ∷ []

-- Those of `handleVdev`.
abbrev pub vdev_samples : Fields → VdevStats → List (Option Desc × ValueType × Sample)
vdev_samples c stats =
    (c.pool_vdev_alloc_space_desc, gauge_value, whole stats.alloc)
    ∷ (c.pool_vdev_total_space_desc, gauge_value, whole stats.size)
    ∷ (c.pool_vdev_read_ops_desc, counter_value, whole stats.read_operations)
    ∷ (c.pool_vdev_read_bytes_desc, counter_value, whole stats.bytes_read)
    ∷ (c.pool_vdev_read_errors_desc, counter_value, whole stats.read_errors)
    ∷ (c.pool_vdev_write_ops_desc, counter_value, whole stats.write_operations)
    ∷ (c.pool_vdev_write_bytes_desc, counter_value, whole stats.bytes_written)
    ∷ (c.pool_vdev_write_errors_desc, counter_value, whole stats.write_errors)
    ∷ (c.pool_vdev_checksum_errors_desc, counter_value, whole stats.checksum_errors)
    ∷ []

module _ {Metric : Type 0} (exporter : Exporter Metric) where
  unfoldable pub handle_dataset : Bytes → Bytes → DatasetProps → Method (Channel Metric) (Unit {0})
  handle_dataset pool name props =
      export_all exporter.new_const_metric (dataset_samples exporter.collector props)
        (name ∷ pool ∷ [])

  -- `handleVdev` before its loop over the children.
  unfoldable pub handle_own : Bytes → Bytes → VdevInfo → Method (Channel Metric) (Unit {0})
  handle_own pool name info = do
    export_states exporter.new_const_metric exporter.collector.pool_vdev_state_desc
        (pool ∷ name ∷ info.vdev_type ∷ []) info.stats.state vdev_states
    export_all exporter.new_const_metric (vdev_samples exporter.collector info.stats)
        (pool ∷ name ∷ info.vdev_type ∷ [])

  unfoldable mutual
    pub handle_vdev : Vdev → Bytes → Bytes → Method (Channel Metric) (Unit {0})
    handle_vdev (node info children) pool prefix ch =
        (do
          handle_own pool (vdev_name pool prefix info) info
          handle_children children pool (vdev_name pool prefix info ++ slash ∷ []))
          ch

    pub handle_children : Vdevs → Bytes → Bytes → Method (Channel Metric) (Unit {0})
    handle_children nil pool prefix ch = (ok tt, ch)
    handle_children (cons child children) pool prefix ch =
        (do handle_vdev child pool prefix; handle_children children pool prefix) ch
