-- ===== src/Collector/Pool/NoVdev.antt =====
-- main.go: `handlePool` of a pool whose statistics name no vdev tree.
use prometheus_zfs_exporter.Collector.Metrics.Named.{labelled}
use prometheus_zfs_exporter.Collector.Pool.Stats.Encoded.{ArePoolFields}
use prometheus_zfs_exporter.Base.{
  ◌^◌, codes, ℕ, ◌<◌, ◌≡◌, ap, ◌∙◌, none, List, [], ◌∷◌, ◌++◌, Bytes, All, length, panicked,
  nil_dereference,
}
use prometheus_zfs_exporter.Ioctl.State.{pool_states}
use prometheus_zfs_exporter.Ioctl.Cmd.{empty_cmd, name_size, set_name}
use prometheus_zfs_exporter.Ioctl.Cmd.Names.{NoNull, get_name-set_name_cleared}
use prometheus_zfs_exporter.Ioctl.Handle.{Syscall}
use prometheus_zfs_exporter.Collector.Export.{
  Desc, ValueType, counter_value, Sample, whole, Exporter,
}
use prometheus_zfs_exporter.Collector.Export.Sends.{Accepts, states_of}
use prometheus_zfs_exporter.Collector.Descs.{pool_state, pool_error_count}
use prometheus_zfs_exporter.Collector.Pool.{
  Env, pool_stats, fresh_call, export_vdevs, export_pool, scrape_pool, handle_pool,
}
use prometheus_zfs_exporter.Collector.Pool.Datasets.{ReadFile, Scrape, response_size, contents}
use prometheus_zfs_exporter.Collector.Pool.Datasets.Walk.{sending, sending_append}
use prometheus_zfs_exporter.Collector.Pool.Sent.{on_channel-Sends, state_sent, errors_sent}
use prometheus_zfs_exporter.Collector.Pool.Whole.{
  packed_read, stats_of, Pool, ServesPool, fresh-IsUsable, stats_reply,
}

-- The metrics that are sent before the vdevs.
abbrev pub first_metrics :
    {Metric : Type 0} → (Desc → ValueType → Sample → List Bytes → Metric) → Pool → List Metric
first_metrics make p =
    states_of make (labelled (codes "pool" ∷ codes "state" ∷ []) "zfs_pool_state") (p.name ∷ [])
      (stats_of p).state pool_states
    ++ make (labelled (codes "pool" ∷ []) "zfs_pool_error_count") counter_value
        (whole (stats_of p).error_count) (p.name ∷ [])
      ∷ []

module _ {World Metric : Type 0} (syscall : Syscall World) (read_file : ReadFile World)
    (exporter : Exporter Metric) (IsLabel : Bytes → Type 0)
    (make : Desc → ValueType → Sample → List Bytes → Metric)
    (accepts : Accepts exporter IsLabel make) (states : All IsLabel pool_states) where
  export_pool-no_vdev :
      (p : Pool) (s : Scrape World Metric)
      → IsLabel p.name
      → (stats_of p).vdev ≡ none
      → export_pool syscall read_file exporter p.name (stats_of p) s ≡ (
        panicked nil_dereference,
        record s { channel = sending s.channel (first_metrics make p) },
      )
  unfolding export_pool export_vdevs
  export_pool-no_vdev p s label missing =
      let first = states_of make pool_state (p.name ∷ []) (stats_of p).state pool_states in
      let second =
        make pool_error_count counter_value (whole (stats_of p).error_count) (p.name ∷ []) in
      let s1 : Scrape World Metric = record s { channel = sending s.channel first } in
      rw
        (
          on_channel-Sends
              (state_sent exporter IsLabel make accepts p.name (stats_of p).state label states) s,
          on_channel-Sends
              (errors_sent exporter IsLabel make accepts p.name (stats_of p).error_count label) s1,
          missing,
        )
        (ap (λ ch. (panicked nil_dereference, record s { channel = ch }))
          (sending_append s.channel first (second ∷ [])))

  -- Over a kernel that serves the pool's statistics, with an answer that fits the response buffer
  -- with room to spare, and a collector that `Describe` has set up and whose client accepts valid
  -- labels, `handlePool` of a pool whose well-formed statistics name no vdev tree sends the pool's
  -- state and error count and then panics on a nil vdev, instead of returning an error. The pool's
  -- name fits the command block and is a valid label, as are the names of the pool states.
  pub handle_pool-no_vdev :
      (size : ℕ) (room : response_size ≡ size) (p : Pool) (fuel : ℕ) (e : Env World Metric)
      → NoNull p.name
      → length p.name < name_size
      → IsLabel p.name
      → p.version < 2 ^ 31
      → p.flags < 2 ^ 32
      → ArePoolFields p.fields
      → (stats_of p).vdev ≡ none
      → ServesPool syscall size p
      → 0 < fuel
      → (w : World) × (handle_pool syscall read_file exporter fuel p.name e ≡ (
        panicked nil_dereference,
        record { world = w; channel = sending e.channel (first_metrics make p) },
      ))
  unfolding handle_pool scrape_pool
  handle_pool-no_vdev size room p fuel e no_null name_lt label v g fields missing serves enough =
      let start : Scrape World Metric = record {
        call = fresh_call (set_name p.name empty_cmd) e.world;
        channel = e.channel;
      } in
      let (t, asked, same, (rest, resp, after), usable) =
        stats_reply syscall size p fuel start serves
          (get_name-set_name_cleared p.name no_null name_lt)
          (fresh-IsUsable size (set_name p.name empty_cmd) e.world room) enough in
      (
        t.call.world,
        rw
            (
              asked,
              ap (λ b. pool_stats (contents b)) resp ∙ packed_read p rest v g fields after,
              export_pool-no_vdev p t label missing,
            )
            (ap
              (λ c. (
                panicked nil_dereference,
                record { world = t.call.world; channel = sending c (first_metrics make p) },
              ))
              same),
      )
