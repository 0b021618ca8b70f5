-- ===== src/Collector/Describe/Tests.antt =====
-- `Describe` on a new collector, which has no field set.
use prometheus_zfs_exporter.Base.{◌≡◌, ok, none, true, [], ◌++◌, ℕ}
use prometheus_zfs_exporter.Collector.Descs.{descriptions}
use prometheus_zfs_exporter.Collector.Export.{ZfsCollector}
use prometheus_zfs_exporter.Collector.Describe.{describe_registered, described}
use prometheus_zfs_exporter.Collector.Describe.Sends.{describe_registered-descriptions}

abbrev new_collector : ZfsCollector ℕ
new_collector = record {
  zfs_handle = 3;
  pool_state_desc = none;
  pool_error_count_desc = none;
  pool_vdev_state_desc = none;
  pool_vdev_alloc_space_desc = none;
  pool_vdev_total_space_desc = none;
  pool_vdev_def_space_desc = none;
  pool_vdev_rep_dev_size_desc = none;
  pool_vdev_phys_space_desc = none;
  pool_vdev_read_ops_desc = none;
  pool_vdev_read_bytes_desc = none;
  pool_vdev_read_errors_desc = none;
  pool_vdev_write_ops_desc = none;
  pool_vdev_write_bytes_desc = none;
  pool_vdev_write_errors_desc = none;
  pool_vdev_checksum_errors_desc = none;
  pool_vdev_slow_ios_desc = none;
  dataset_available_desc = none;
  dataset_compress_ratio_desc = none;
  dataset_used_desc = none;
  dataset_used_by_children_desc = none;
  dataset_used_by_dataset_desc = none;
  dataset_used_by_ref_reservation_desc = none;
  dataset_used_by_snapshots_desc = none;
  dataset_referenced_desc = none;
  dataset_ref_compress_ratio_desc = none;
  dataset_logical_referenced_desc = none;
  dataset_logical_used_desc = none;
  dataset_writes_desc = none;
  dataset_nwritten_desc = none;
  dataset_reads_desc = none;
  dataset_nread_desc = none;
  dataset_nunlinks_desc = none;
  dataset_nunlinked_desc = none;
}

describe_registered-descriptions_example : describe_registered new_collector [] ≡ (
  ok tt,
  record {
    collector = described 3;
    channel = record { is_open = true; sent = [] ++ descriptions };
  },
)
describe_registered-descriptions_example = describe_registered-descriptions new_collector []
