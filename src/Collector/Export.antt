-- ===== src/Collector/Export.antt =====
-- main.go: the metrics' descriptions, and the helpers `describe` and `export`. The Prometheus
-- client library is a parameter.
pub mod Sends
use prometheus_zfs_exporter.Base.{
  ℕ, Option, Bool, true, false, List, [], ◌∷◌, ◌++◌, Bytes, Result, ok, err, panicked, out_of_fuel,
  Method, ◌>>◌, equal, if◌then◌else◌, wrapping,
}

-- The arguments of `prometheus.NewDesc` that vary. Help text and constant labels are empty.
pub record Desc : Type 0 where
  pub fq_name : Bytes
  pub variable_labels : List Bytes

pub data ValueType : Type 0 where
  counter_value gauge_value : ValueType

-- A `float64` before rounding: `float64(value)`, or that divided by 100. A sample of value 1 is
-- written `whole 1`.
pub record Sample : Type 0 where
  pub value : ℕ
  pub divisor : ℕ

abbrev pub whole : ℕ → Sample
whole n = record { value = n; divisor = 1 }

abbrev pub percent : ℕ → Sample
percent n = record { value = n; divisor = 100 }

-- `zfsCollector`. A field is `none` until `describe` sets it.
pub record ZfsCollector (File : Type 0) : Type 0 where
  pub zfs_handle : File
  pub pool_state_desc : Option Desc
  pub pool_error_count_desc : Option Desc
  pub pool_vdev_state_desc : Option Desc
  pub pool_vdev_alloc_space_desc : Option Desc
  pub pool_vdev_total_space_desc : Option Desc
  pub pool_vdev_def_space_desc : Option Desc
  pub pool_vdev_rep_dev_size_desc : Option Desc
  pub pool_vdev_phys_space_desc : Option Desc
  pub pool_vdev_read_ops_desc : Option Desc
  pub pool_vdev_read_bytes_desc : Option Desc
  pub pool_vdev_read_errors_desc : Option Desc
  pub pool_vdev_write_ops_desc : Option Desc
  pub pool_vdev_write_bytes_desc : Option Desc
  pub pool_vdev_write_errors_desc : Option Desc
  pub pool_vdev_checksum_errors_desc : Option Desc
  pub pool_vdev_slow_ios_desc : Option Desc
  pub dataset_available_desc : Option Desc
  pub dataset_compress_ratio_desc : Option Desc
  pub dataset_used_desc : Option Desc
  pub dataset_used_by_children_desc : Option Desc
  pub dataset_used_by_dataset_desc : Option Desc
  pub dataset_used_by_ref_reservation_desc : Option Desc
  pub dataset_used_by_snapshots_desc : Option Desc
  pub dataset_referenced_desc : Option Desc
  pub dataset_ref_compress_ratio_desc : Option Desc
  pub dataset_logical_referenced_desc : Option Desc
  pub dataset_logical_used_desc : Option Desc
  pub dataset_writes_desc : Option Desc
  pub dataset_nwritten_desc : Option Desc
  pub dataset_reads_desc : Option Desc
  pub dataset_nread_desc : Option Desc
  pub dataset_nunlinks_desc : Option Desc
  pub dataset_nunlinked_desc : Option Desc

-- `prometheus.NewConstMetric` of a pointer to a description: a metric, or an error for labels that do
-- not suit, or a panic.
abbrev pub NewConstMetric : Type 0 → Type 0
NewConstMetric Metric = Option Desc → ValueType → Sample → List Bytes → Result Metric

-- What the export stands on: the collector with its descriptions, its handle left aside, and the
-- client.
pub record Exporter (Metric : Type 0) : Type 0 where
  pub collector : ZfsCollector (Unit {0})
  pub new_const_metric : NewConstMetric Metric

-- The channel `ch`: absent for a nil pointer, and else what has been sent.
pub record Channel (Metric : Type 0) : Type 0 where
  pub is_open : Bool
  pub sent : List Metric

module _ {Metric : Type 0} where
  abbrev pub send_to : Bool → List Metric → Metric → List Metric
  send_to true sent m = sent ++ m ∷ []
  send_to false sent m = sent

  -- `if ch != nil { *ch <- metric }`
  unfoldable pub send : Metric → Method (Channel Metric) (Unit {0})
  send m ch = (ok tt, record ch { sent = send_to ch.is_open ch.sent m })

  -- A metric that the library has made is sent; its error is the call's.
  unfoldable pub send_result : Result Metric → Method (Channel Metric) (Unit {0})
  send_result (ok m) ch = send m ch
  send_result (err e) ch = (err e, ch)
  send_result (panicked p) ch = (panicked p, ch)
  send_result out_of_fuel ch = (out_of_fuel, ch)

module _ {Metric : Type 0} (new_const_metric : NewConstMetric Metric) where
  unfoldable pub export :
      Option Desc → ValueType → Sample → List Bytes → Method (Channel Metric) (Unit {0})
  export d t v labels =
      wrapping "error exporting metric %v: " (send_result (new_const_metric d t v labels))

  -- A run of `if err := export(...); err != nil { return err }` under the same labels.
  unfoldable pub export_all :
      List (Option Desc × ValueType × Sample) → List Bytes → Method (Channel Metric) (Unit {0})
  export_all [] labels ch = (ok tt, ch)
  export_all ((d, t, v) ∷ more) labels ch = (do export d t v labels; export_all more labels) ch

  -- The loops over `ioctl.VDevStates` and `ioctl.PoolStates`: one sample for each state, which is 1
  -- at the present state and 0 at the others.
  unfoldable pub export_states :
      Option Desc → List Bytes → Bytes → List Bytes → Method (Channel Metric) (Unit {0})
  export_states d labels present [] ch = (ok tt, ch)
  export_states d labels present (name ∷ names) ch =
      (do
        send_result (
            new_const_metric d gauge_value (whole (if equal name present then 1 else 0))
              (labels ++ name ∷ []))
        export_states d labels present names)
        ch
