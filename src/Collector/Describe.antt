-- ===== src/Collector/Describe.antt =====
-- main.go: the collector's fields, and `describe`, which makes the descriptions, keeps each in its
-- field and sends it. A handle is a file, of which nothing is asked here.
pub mod Sends
mod Tests
use prometheus_zfs_exporter.Base.{
  ℕ, Option, none, some, true, List, [], ◌∷◌, Result, ok, Method, ◌>>◌,
}
use prometheus_zfs_exporter.Collector.Export.{Desc, ZfsCollector, Channel, send}
use prometheus_zfs_exporter.Collector.Descs.{
  pool_state, pool_error_count, pool_vdev_state, pool_vdev_alloc_space, pool_vdev_total_space,
  pool_vdev_def_space, pool_vdev_rep_dev_size, pool_vdev_phys_space, pool_vdev_read_ops,
  pool_vdev_read_bytes, pool_vdev_read_errors, pool_vdev_write_ops, pool_vdev_write_bytes,
  pool_vdev_write_errors, pool_vdev_checksum_errors, pool_vdev_slow_ios, dataset_available,
  dataset_compress_ratio, dataset_used, dataset_used_by_children, dataset_used_by_dataset,
  dataset_used_by_ref_reservation, dataset_used_by_snapshots, dataset_referenced,
  dataset_ref_compress_ratio, dataset_logical_referenced, dataset_logical_used, dataset_writes,
  dataset_nwritten, dataset_reads, dataset_nread, dataset_nunlinks, dataset_nunlinked,
}

-- What a call of `Describe` changes.
pub record Describing (File : Type 0) : Type 0 where
  pub collector : ZfsCollector File
  pub channel : Channel Desc

-- The arguments of a call of `describe`: a field, by its assignment, and the description.
abbrev pub Field : Type 0 → Type 0
Field File = (Desc → ZfsCollector File → ZfsCollector File) × Desc

module _ {File : Type 0} where
  unfoldable pub on_descs :
      Result (Unit {0}) × Channel Desc → ZfsCollector File → Result (Unit {0}) × Describing File
  on_descs (r, ch) c = (r, record { collector = c; channel = ch })

  -- `describe`: `*desc = d; if ch != nil { *ch <- d }`
  unfoldable pub describe : Field File → Method (Describing File) (Unit {0})
  describe (set, d) s = on_descs (send d s.channel) (set d s.collector)

  -- A run of calls of `describe`.
  unfoldable pub describe_each : List (Field File) → Method (Describing File) (Unit {0})
  describe_each [] s = (ok tt, s)
  describe_each (field ∷ fields) s = (do describe field; describe_each fields) s

  -- The fields in the order of the method `describe`, and their descriptions.
  abbrev pub collector_fields : List (Field File)
  collector_fields =
      ((λ d c. record c { pool_state_desc = some d }), pool_state)
      ∷ ((λ d c. record c { pool_error_count_desc = some d }), pool_error_count)
      ∷ ((λ d c. record c { pool_vdev_state_desc = some d }), pool_vdev_state)
      ∷ ((λ d c. record c { pool_vdev_alloc_space_desc = some d }), pool_vdev_alloc_space)
      ∷ ((λ d c. record c { pool_vdev_total_space_desc = some d }), pool_vdev_total_space)
      ∷ ((λ d c. record c { pool_vdev_def_space_desc = some d }), pool_vdev_def_space)
      ∷ ((λ d c. record c { pool_vdev_rep_dev_size_desc = some d }), pool_vdev_rep_dev_size)
      ∷ ((λ d c. record c { pool_vdev_phys_space_desc = some d }), pool_vdev_phys_space)
      ∷ ((λ d c. record c { pool_vdev_read_ops_desc = some d }), pool_vdev_read_ops)
      ∷ ((λ d c. record c { pool_vdev_read_bytes_desc = some d }), pool_vdev_read_bytes)
      ∷ ((λ d c. record c { pool_vdev_read_errors_desc = some d }), pool_vdev_read_errors)
      ∷ ((λ d c. record c { pool_vdev_write_ops_desc = some d }), pool_vdev_write_ops)
      ∷ ((λ d c. record c { pool_vdev_write_bytes_desc = some d }), pool_vdev_write_bytes)
      ∷ ((λ d c. record c { pool_vdev_write_errors_desc = some d }), pool_vdev_write_errors)
      ∷ ((λ d c. record c { pool_vdev_checksum_errors_desc = some d }), pool_vdev_checksum_errors)
      ∷ ((λ d c. record c { pool_vdev_slow_ios_desc = some d }), pool_vdev_slow_ios)
      ∷ ((λ d c. record c { dataset_available_desc = some d }), dataset_available)
      ∷ ((λ d c. record c { dataset_compress_ratio_desc = some d }), dataset_compress_ratio)
      ∷ ((λ d c. record c { dataset_used_desc = some d }), dataset_used)
      ∷ ((λ d c. record c { dataset_used_by_children_desc = some d }), dataset_used_by_children)
      ∷ ((λ d c. record c { dataset_used_by_dataset_desc = some d }), dataset_used_by_dataset)
      ∷ (
        (λ d c. record c { dataset_used_by_ref_reservation_desc = some d }),
        dataset_used_by_ref_reservation,
      )
      ∷ ((λ d c. record c { dataset_used_by_snapshots_desc = some d }), dataset_used_by_snapshots)
      ∷ ((λ d c. record c { dataset_referenced_desc = some d }), dataset_referenced)
      ∷ ((λ d c. record c { dataset_ref_compress_ratio_desc = some d }), dataset_ref_compress_ratio)
      ∷ ((λ d c. record c { dataset_logical_referenced_desc = some d }), dataset_logical_referenced)
      ∷ ((λ d c. record c { dataset_logical_used_desc = some d }), dataset_logical_used)
      ∷ ((λ d c. record c { dataset_writes_desc = some d }), dataset_writes)
      ∷ ((λ d c. record c { dataset_nwritten_desc = some d }), dataset_nwritten)
      ∷ ((λ d c. record c { dataset_reads_desc = some d }), dataset_reads)
      ∷ ((λ d c. record c { dataset_nread_desc = some d }), dataset_nread)
      ∷ ((λ d c. record c { dataset_nunlinks_desc = some d }), dataset_nunlinks)
      ∷ ((λ d c. record c { dataset_nunlinked_desc = some d }), dataset_nunlinked)
      ∷ []

  -- The method `describe`, whose channel may be nil.
  unfoldable pub describe_all : Method (Describing File) (Unit {0})
  describe_all = describe_each collector_fields

  -- `Describe`. The registry's channel is there.
  unfoldable pub describe_registered :
      ZfsCollector File → List Desc → Result (Unit {0}) × Describing File
  describe_registered c sent =
      describe_all (record { collector = c; channel = record { is_open = true; sent = sent } })

  -- A collector with every field set.
  abbrev pub described : File → ZfsCollector File
  described file = record {
    zfs_handle = file;
    pool_state_desc = some pool_state;
    pool_error_count_desc = some pool_error_count;
    pool_vdev_state_desc = some pool_vdev_state;
    pool_vdev_alloc_space_desc = some pool_vdev_alloc_space;
    pool_vdev_total_space_desc = some pool_vdev_total_space;
    pool_vdev_def_space_desc = some pool_vdev_def_space;
    pool_vdev_rep_dev_size_desc = some pool_vdev_rep_dev_size;
    pool_vdev_phys_space_desc = some pool_vdev_phys_space;
    pool_vdev_read_ops_desc = some pool_vdev_read_ops;
    pool_vdev_read_bytes_desc = some pool_vdev_read_bytes;
    pool_vdev_read_errors_desc = some pool_vdev_read_errors;
    pool_vdev_write_ops_desc = some pool_vdev_write_ops;
    pool_vdev_write_bytes_desc = some pool_vdev_write_bytes;
    pool_vdev_write_errors_desc = some pool_vdev_write_errors;
    pool_vdev_checksum_errors_desc = some pool_vdev_checksum_errors;
    pool_vdev_slow_ios_desc = some pool_vdev_slow_ios;
    dataset_available_desc = some dataset_available;
    dataset_compress_ratio_desc = some dataset_compress_ratio;
    dataset_used_desc = some dataset_used;
    dataset_used_by_children_desc = some dataset_used_by_children;
    dataset_used_by_dataset_desc = some dataset_used_by_dataset;
    dataset_used_by_ref_reservation_desc = some dataset_used_by_ref_reservation;
    dataset_used_by_snapshots_desc = some dataset_used_by_snapshots;
    dataset_referenced_desc = some dataset_referenced;
    dataset_ref_compress_ratio_desc = some dataset_ref_compress_ratio;
    dataset_logical_referenced_desc = some dataset_logical_referenced;
    dataset_logical_used_desc = some dataset_logical_used;
    dataset_writes_desc = some dataset_writes;
    dataset_nwritten_desc = some dataset_nwritten;
    dataset_reads_desc = some dataset_reads;
    dataset_nread_desc = some dataset_nread;
    dataset_nunlinks_desc = some dataset_nunlinks;
    dataset_nunlinked_desc = some dataset_nunlinked;
  }
