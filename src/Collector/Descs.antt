-- ===== src/Collector/Descs.antt =====
-- main.go: the descriptions that `describe` makes, in its order.
use prometheus_zfs_exporter.Base.{List, [], ◌∷◌, Bytes, codes}
use prometheus_zfs_exporter.Collector.Export.{Desc}

abbrev pub pool_only_labels : List Bytes
pool_only_labels = codes "pool" ∷ []

abbrev pub pool_state_labels : List Bytes
pool_state_labels = codes "pool" ∷ codes "state" ∷ []

abbrev pub vdev_state_labels : List Bytes
vdev_state_labels = codes "pool" ∷ codes "vdev" ∷ codes "vdev_type" ∷ codes "state" ∷ []

abbrev pub vdev_labels : List Bytes
vdev_labels = codes "pool" ∷ codes "vdev" ∷ codes "vdev_type" ∷ []

abbrev pub dataset_labels : List Bytes
dataset_labels = codes "name" ∷ codes "pool" ∷ []

abbrev pub pool_state : Desc
pool_state = record { fq_name = codes "zfs_pool_state"; variable_labels = pool_state_labels }

abbrev pub pool_error_count : Desc
pool_error_count = record {
  fq_name = codes "zfs_pool_error_count";
  variable_labels = pool_only_labels;
}

abbrev pub pool_vdev_state : Desc
pool_vdev_state = record {
  fq_name = codes "zfs_pool_vdev_state";
  variable_labels = vdev_state_labels;
}

abbrev pub pool_vdev_alloc_space : Desc
pool_vdev_alloc_space = record {
  fq_name = codes "zfs_pool_vdev_alloc_space";
  variable_labels = vdev_labels;
}

abbrev pub pool_vdev_total_space : Desc
pool_vdev_total_space = record {
  fq_name = codes "zfs_pool_vdev_total_space";
  variable_labels = vdev_labels;
}

abbrev pub pool_vdev_def_space : Desc
pool_vdev_def_space = record {
  fq_name = codes "zfs_pool_vdev_def_space";
  variable_labels = vdev_labels;
}

abbrev pub pool_vdev_rep_dev_size : Desc
pool_vdev_rep_dev_size = record {
  fq_name = codes "zfs_pool_vdev_rep_dev_size";
  variable_labels = vdev_labels;
}

abbrev pub pool_vdev_phys_space : Desc
pool_vdev_phys_space = record {
  fq_name = codes "zfs_pool_vdev_phys_space";
  variable_labels = vdev_labels;
}

abbrev pub pool_vdev_read_ops : Desc
pool_vdev_read_ops = record {
  fq_name = codes "zfs_pool_vdev_read_ops";
  variable_labels = vdev_labels;
}

abbrev pub pool_vdev_read_bytes : Desc
pool_vdev_read_bytes = record {
  fq_name = codes "zfs_pool_vdev_read_bytes";
  variable_labels = vdev_labels;
}

abbrev pub pool_vdev_read_errors : Desc
pool_vdev_read_errors = record {
  fq_name = codes "zfs_pool_vdev_read_errors";
  variable_labels = vdev_labels;
}

abbrev pub pool_vdev_write_ops : Desc
pool_vdev_write_ops = record {
  fq_name = codes "zfs_pool_vdev_write_ops";
  variable_labels = vdev_labels;
}

abbrev pub pool_vdev_write_bytes : Desc
pool_vdev_write_bytes = record {
  fq_name = codes "zfs_pool_vdev_write_bytes";
  variable_labels = vdev_labels;
}

abbrev pub pool_vdev_write_errors : Desc
pool_vdev_write_errors = record {
  fq_name = codes "zfs_pool_vdev_write_errors";
  variable_labels = vdev_labels;
}

abbrev pub pool_vdev_checksum_errors : Desc
pool_vdev_checksum_errors = record {
  fq_name = codes "zfs_pool_vdev_checksum_errors";
  variable_labels = vdev_labels;
}

abbrev pub pool_vdev_slow_ios : Desc
pool_vdev_slow_ios = record {
  fq_name = codes "zfs_pool_vdev_slow_ios";
  variable_labels = vdev_labels;
}

abbrev pub dataset_available : Desc
dataset_available = record {
  fq_name = codes "zfs_dataset_available";
  variable_labels = dataset_labels;
}

abbrev pub dataset_compress_ratio : Desc
dataset_compress_ratio = record {
  fq_name = codes "zfs_dataset_compress_ratio";
  variable_labels = dataset_labels;
}

abbrev pub dataset_used : Desc
dataset_used = record { fq_name = codes "zfs_dataset_used"; variable_labels = dataset_labels }

abbrev pub dataset_used_by_children : Desc
dataset_used_by_children = record {
  fq_name = codes "zfs_dataset_used_by_children";
  variable_labels = dataset_labels;
}

abbrev pub dataset_used_by_dataset : Desc
dataset_used_by_dataset = record {
  fq_name = codes "zfs_dataset_used_by_dataset";
  variable_labels = dataset_labels;
}

abbrev pub dataset_used_by_ref_reservation : Desc
dataset_used_by_ref_reservation = record {
  fq_name = codes "zfs_dataset_used_by_ref_reservation";
  variable_labels = dataset_labels;
}

abbrev pub dataset_used_by_snapshots : Desc
dataset_used_by_snapshots = record {
  fq_name = codes "zfs_dataset_used_by_snapshots";
  variable_labels = dataset_labels;
}

abbrev pub dataset_referenced : Desc
dataset_referenced = record {
  fq_name = codes "zfs_dataset_referenced";
  variable_labels = dataset_labels;
}

abbrev pub dataset_ref_compress_ratio : Desc
dataset_ref_compress_ratio = record {
  fq_name = codes "zfs_dataset_ref_compress_ratio";
  variable_labels = dataset_labels;
}

abbrev pub dataset_logical_referenced : Desc
dataset_logical_referenced = record {
  fq_name = codes "zfs_dataset_logical_referenced";
  variable_labels = dataset_labels;
}

abbrev pub dataset_logical_used : Desc
dataset_logical_used = record {
  fq_name = codes "zfs_dataset_logical_used";
  variable_labels = dataset_labels;
}

abbrev pub dataset_writes : Desc
dataset_writes = record { fq_name = codes "zfs_dataset_writes"; variable_labels = dataset_labels }

abbrev pub dataset_nwritten : Desc
dataset_nwritten = record {
  fq_name = codes "zfs_dataset_nwritten";
  variable_labels = dataset_labels;
}

abbrev pub dataset_reads : Desc
dataset_reads = record { fq_name = codes "zfs_dataset_reads"; variable_labels = dataset_labels }

abbrev pub dataset_nread : Desc
dataset_nread = record { fq_name = codes "zfs_dataset_nread"; variable_labels = dataset_labels }

abbrev pub dataset_nunlinks : Desc
dataset_nunlinks = record {
  fq_name = codes "zfs_dataset_nunlinks";
  variable_labels = dataset_labels;
}

abbrev pub dataset_nunlinked : Desc
dataset_nunlinked = record {
  fq_name = codes "zfs_dataset_nunlinked";
  variable_labels = dataset_labels;
}

-- What `Describe` sends.
abbrev pub descriptions : List Desc
descriptions =
    pool_state ∷ pool_error_count ∷ pool_vdev_state ∷ pool_vdev_alloc_space ∷ pool_vdev_total_space
    ∷ pool_vdev_def_space ∷ pool_vdev_rep_dev_size ∷ pool_vdev_phys_space ∷ pool_vdev_read_ops
    ∷ pool_vdev_read_bytes ∷ pool_vdev_read_errors ∷ pool_vdev_write_ops ∷ pool_vdev_write_bytes
    ∷ pool_vdev_write_errors ∷ pool_vdev_checksum_errors ∷ pool_vdev_slow_ios ∷ dataset_available
    ∷ dataset_compress_ratio ∷ dataset_used ∷ dataset_used_by_children ∷ dataset_used_by_dataset
    ∷ dataset_used_by_ref_reservation ∷ dataset_used_by_snapshots ∷ dataset_referenced
    ∷ dataset_ref_compress_ratio ∷ dataset_logical_referenced ∷ dataset_logical_used
    ∷ dataset_writes ∷ dataset_nwritten ∷ dataset_reads ∷ dataset_nread ∷ dataset_nunlinks
    ∷ dataset_nunlinked ∷ []
