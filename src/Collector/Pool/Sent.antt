-- ===== src/Collector/Pool/Sent.antt =====
-- main.go: the metrics of a pool itself, as `handlePool` sends them.
use prometheus_zfs_exporter.Base.{
  sym, codes, ℕ, ◌≡◌, refl, ap, ◌∙◌, List, [], ◌∷◌, Bytes, All, Result, ok,
}
use prometheus_zfs_exporter.Ioctl.State.{pool_states}
use mathlib.Core.Path.{subst}
use prometheus_zfs_exporter.Collector.Export.{
  send_result, export_states, Desc, ValueType, counter_value, Sample, whole, Exporter, Channel,
}
use prometheus_zfs_exporter.Collector.Export.Sends.{
  Accepts, Sends, states_of, Sends-ok, Sends-export_states,
}
use prometheus_zfs_exporter.Collector.Descs.{pool_state, pool_error_count}
use prometheus_zfs_exporter.Collector.Metrics.Named.{labelled}
use prometheus_zfs_exporter.Collector.Pool.Datasets.{Scrape, on_channel}
use prometheus_zfs_exporter.Collector.Pool.Datasets.Walk.{sending}

pub on_channel-Sends :
    {World Metric : Type 0} {m : (Channel Metric → Result (Unit {0}) × Channel Metric)}
    {ms : List Metric}
    → Sends m ms
    → (s : Scrape World Metric)
    → on_channel m s ≡ (ok tt, record s { channel = sending s.channel ms })
unfolding on_channel
on_channel-Sends h s = rw (h s.channel)

module _ {Metric : Type 0} (exporter : Exporter Metric) (IsLabel : Bytes → Type 0)
    (make : Desc → ValueType → Sample → List Bytes → Metric)
    (accepts : Accepts exporter IsLabel make) where
  pub state_sent :
      (name present : Bytes)
      → IsLabel name
      → All IsLabel pool_states
      → Sends
          (export_states exporter.new_const_metric exporter.collector.pool_state_desc
            (name ∷ [])
            present
            pool_states)
          (states_of make
            (labelled (codes "pool" ∷ codes "state" ∷ []) "zfs_pool_state")
            (name ∷ [])
            present
            pool_states)
  state_sent name present label states =
      subst
        (λ c.
          Sends
            (export_states exporter.new_const_metric c.pool_state_desc (name ∷ []) present
              pool_states)
            (states_of make (labelled (codes "pool" ∷ codes "state" ∷ []) "zfs_pool_state")
              (name ∷ []) present pool_states))
        (sym accepts.1)
        (Sends-export_states exporter.new_const_metric IsLabel make accepts.0 pool_state (name ∷ [])
          present pool_states refl (label, tt) states)

  pub errors_sent :
      (name : Bytes) (n : ℕ)
      → IsLabel name
      → Sends
          (send_result (
            exporter.new_const_metric exporter.collector.pool_error_count_desc counter_value
              (whole n)
              (name ∷ [])))
          (make
              (labelled (codes "pool" ∷ []) "zfs_pool_error_count")
              counter_value
              (whole n)
              (name ∷ [])
            ∷ [])
  errors_sent name n label =
      Sends-ok _
        (make (labelled (codes "pool" ∷ []) "zfs_pool_error_count") counter_value (whole n)
          (name ∷ []))
        (ap
            (λ c.
              exporter.new_const_metric c.pool_error_count_desc counter_value (whole n) (name ∷ []))
            accepts.1
          ∙ accepts.0 pool_error_count counter_value (whole n) (name ∷ []) refl (label, tt))
