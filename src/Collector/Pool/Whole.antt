-- ===== src/Collector/Pool/Whole.antt =====
-- main.go: `handlePool` over a kernel that serves a pool's statistics and its datasets.
use prometheus_zfs_exporter.Base.{
  ◌^◌, codes, append_assoc, ℕ, ◌<◌, ◌≡◌, refl, ap, ◌∙◌, arith, some, List, [], ◌∷◌, ◌++◌, Bytes,
  All, length, length-replicate, Result, ok,
}
use prometheus_zfs_exporter.Ioctl.State.{pool_states, vdev_states}
use prometheus_zfs_exporter.Ioctl.Cmd.{Cmd, empty_cmd, name_size, set_name, get_name}
use prometheus_zfs_exporter.Ioctl.Cmd.Names.{NoNull, get_name-set_name_cleared}
use prometheus_zfs_exporter.Ioctl.Handle.{Answer, Syscall, after, zfs_ioc_pool_stats}
use prometheus_zfs_exporter.Ioctl.Handle.Retry.{status, zeros-filled}
use prometheus_zfs_exporter.Ioctl.Handle.Serve.{IsUsable, Holds, Serves, ioctl-Serves}
use prometheus_zfs_exporter.Collector.Vdev.{Vdev}
use prometheus_zfs_exporter.Collector.Export.{
  Desc, ValueType, counter_value, Sample, whole, Exporter,
}
use prometheus_zfs_exporter.Collector.Export.Sends.{Accepts, states_of}
use prometheus_zfs_exporter.Collector.Descs.{pool_state, pool_error_count}
use prometheus_zfs_exporter.Collector.Metrics.Named.{labelled, vdev_metrics, IsLabelled}
use prometheus_zfs_exporter.Collector.Metrics.Sends.{handle_vdev-Sends}
use prometheus_zfs_exporter.Nvlist.Format.{stream_header}
use prometheus_zfs_exporter.Collector.Pool.{
  Env, pool_stats, fresh_call, export_vdevs, export_pool, scrape_pool, handle_pool,
}
use prometheus_zfs_exporter.Collector.Pool.Stats.{PoolStats, empty_stats}
use prometheus_zfs_exporter.Collector.Pool.Stats.Encoded.{
  PoolFields, ArePoolFields, encode_pool, apply_all,
}
use prometheus_zfs_exporter.Collector.Pool.Sent.{on_channel-Sends, state_sent, errors_sent}
use prometheus_zfs_exporter.Collector.Pool.Stats.Parse.{pool_stats-apply_all}
use prometheus_zfs_exporter.Collector.Pool.Datasets.Node.{IsNode}
use prometheus_zfs_exporter.Collector.Pool.Datasets.{
  ReadFile, Scrape, response_size, contents, request,
}
use prometheus_zfs_exporter.Collector.Pool.Datasets.Listing.{
  Listing, Datasets, Lists, AllNodes, rounds, tree_metrics, ServesListing,
}
use prometheus_zfs_exporter.Collector.Pool.Datasets.Walk.{
  ServesFiles, sending, sending_append, find_datasets-Walks,
}

-- A pool as the kernel describes it: its name, its list of statistics under a stream's version and
-- flags, its vdevs and its datasets.
pub record Pool : Type 0 where
  pub name : Bytes
  pub version : ℕ
  pub flags : ℕ
  pub fields : PoolFields
  pub vdev : Vdev
  pub datasets : Datasets

-- The response to `ZFS_IOC_POOL_STATS`, and what it says of the pool.
abbrev pub packed : Pool → Bytes
packed p = stream_header p.version p.flags ++ encode_pool p.fields

abbrev pub stats_of : Pool → PoolStats
stats_of p = apply_all p.fields empty_stats

-- The kernel has written its answer into the buffer, and there is room behind it.
abbrev pub IsResponse : {World : Type 0} → Bytes → Answer World → Type 0
IsResponse bs a = (a.number ≡ 0) × Holds bs a.resp

abbrev pub ServesPool : {World : Type 0} → Syscall World → ℕ → Pool → Type 0
ServesPool syscall size p =
    Serves syscall zfs_ioc_pool_stats size (λ c. get_name c.cmd ≡ p.name) (IsResponse (packed p))

-- The name fits and is a label, the statistics are well-formed and have a vdev tree whose names are
-- labels, and the listing has a finite tree of well-formed datasets below the name.
pub record IsPool (IsLabel : Bytes → Type 0) (files : Bytes → Result Bytes) (listing : Listing)
    (p : Pool) : Type 0 where
  pub no_null : NoNull p.name
  pub name_lt : length p.name < name_size
  pub label : IsLabel p.name
  pub version_lt : p.version < 2 ^ 31
  pub flags_lt : p.flags < 2 ^ 32
  pub are_fields : ArePoolFields p.fields
  pub has_vdev : (stats_of p).vdev ≡ some p.vdev
  pub vdev_labels : IsLabelled IsLabel p.vdev p.name []
  pub lists : Lists listing p.name 0 p.datasets
  pub nodes : AllNodes (λ n. IsNode files p.name n × IsLabel n.name) p.datasets

module _ {Metric : Type 0} (make : Desc → ValueType → Sample → List Bytes → Metric) where
  -- The metrics of the pool itself and of its vdevs.
  abbrev pub own_metrics : Pool → List Metric
  own_metrics p =
      states_of make (labelled (codes "pool" ∷ codes "state" ∷ []) "zfs_pool_state") (p.name ∷ [])
        (stats_of p).state pool_states
      ++ (make (labelled (codes "pool" ∷ []) "zfs_pool_error_count") counter_value
            (whole (stats_of p).error_count) (p.name ∷ [])
          ∷ vdev_metrics make p.vdev p.name [])

  -- With those of its datasets behind them.
  abbrev pub pool_metrics : Pool → List Metric
  pool_metrics p = own_metrics p ++ tree_metrics make p.name p.datasets

pub packed_read :
    (p : Pool) (rest : Bytes)
    → p.version < 2 ^ 31
    → p.flags < 2 ^ 32
    → ArePoolFields p.fields
    → 0 < length rest
    → pool_stats (packed p ++ rest) ≡ ok (stats_of p)
packed_read p rest v g h room =
    ap pool_stats (append_assoc (stream_header p.version p.flags) (encode_pool p.fields) rest)
    ∙ pool_stats-apply_all p.version p.flags p.fields rest v g h room

-- The buffer that a scrape begins with.
pub fresh-IsUsable :
    {World : Type 0} (size : ℕ) (cmd : Cmd) (w : World)
    → response_size ≡ size
    → IsUsable size (fresh_call cmd w)
fresh-IsUsable size cmd w same = record {
  filled = zeros-filled response_size (omega arith);
  present = refl;
  sized = length-replicate {A = ℕ} response_size 0 ∙ same;
}

module _ {World Metric : Type 0} (syscall : Syscall World) (size : ℕ) where
  -- The first call of `handlePool`.
  pub stats_reply :
      (p : Pool) (fuel : ℕ) (s : Scrape World Metric)
      → ServesPool syscall size p
      → get_name s.call.cmd ≡ p.name
      → IsUsable size s.call
      → 0 < fuel
      → (t : Scrape World Metric) × (request syscall fuel zfs_ioc_pool_stats s ≡ (ok tt, t))
        × (t.channel ≡ s.channel)
        × Holds (packed p) t.call.resp
        × IsUsable size t.call
  unfolding request
  stats_reply p fuel s serves named usable enough =
      let (a, q, still, eq) =
        ioctl-Serves syscall zfs_ioc_pool_stats size (λ c. get_name c.cmd ≡ p.name)
          (IsResponse (packed p)) fuel s.call serves named usable enough in
      let t : Scrape World Metric = record { call = after syscall a; channel = s.channel } in
      (t, rw eq (ap (λ n. (status n, t)) q.0), refl, q.1, still)

module _ {World Metric : Type 0} (syscall : Syscall World) (read_file : ReadFile World)
    (exporter : Exporter Metric) (IsLabel : Bytes → Type 0)
    (make : Desc → ValueType → Sample → List Bytes → Metric)
    (accepts : Accepts exporter IsLabel make)
    (states : All IsLabel pool_states × All IsLabel vdev_states) (files : Bytes → Result Bytes)
    (serves_files : ServesFiles read_file files) where
  export_pool-Sends :
      {listing : Listing} (p : Pool) (s : Scrape World Metric)
      → IsPool IsLabel files listing p
      → export_pool syscall read_file exporter p.name (stats_of p) s
        ≡ (ok tt, record s { channel = sending s.channel (own_metrics make p) })
  unfolding export_pool export_vdevs
  export_pool-Sends p s h =
      let first = states_of make pool_state (p.name ∷ []) (stats_of p).state pool_states in
      let second =
        make pool_error_count counter_value (whole (stats_of p).error_count) (p.name ∷ []) in
      let third = vdev_metrics make p.vdev p.name [] in
      let s1 : Scrape World Metric = record s { channel = sending s.channel first } in
      let s2 : Scrape World Metric = record s1 { channel = sending s1.channel (second ∷ []) } in
      rw
        (
          on_channel-Sends
              (state_sent exporter IsLabel make accepts p.name (stats_of p).state h.label states.0)
              s,
          on_channel-Sends
              (errors_sent exporter IsLabel make accepts p.name (stats_of p).error_count h.label)
              s1,
          h.has_vdev,
          on_channel-Sends
              (handle_vdev-Sends exporter IsLabel make accepts p.vdev p.name [] h.label states.1
                h.vdev_labels)
              s2,
        )
        (ap (λ ch. (ok tt, record s { channel = ch }))
          (sending_append s1.channel (second ∷ []) third
            ∙ sending_append s.channel first (second ∷ third)))

  module _ (size : ℕ) (room : response_size ≡ size) (listing : Listing)
      (serves_listing : ServesListing syscall size listing) where
    pub handle_pool-Sends :
        (p : Pool) (fuel : ℕ) (e : Env World Metric)
        → IsPool IsLabel files listing p
        → ServesPool syscall size p
        → rounds p.datasets < fuel
        → (w : World) × (handle_pool syscall read_file exporter fuel p.name e
            ≡ (ok tt, record { world = w; channel = sending e.channel (pool_metrics make p) }))
    unfolding handle_pool scrape_pool
    handle_pool-Sends p fuel e h serves enough =
        let start : Scrape World Metric = record {
          call = fresh_call (set_name p.name empty_cmd) e.world;
          channel = e.channel;
        } in
        let (t, asked, same, (rest, resp, after), usable) =
          stats_reply syscall size p fuel start serves
            (get_name-set_name_cleared p.name h.no_null h.name_lt)
            (fresh-IsUsable size (set_name p.name empty_cmd) e.world room) (omega arith) in
        let own = own_metrics make p in
        let s : Scrape World Metric = record t { channel = sending t.channel own } in
        let (u, walked, ch, still) =
          find_datasets-Walks syscall read_file exporter IsLabel make accepts files serves_files
            size listing serves_listing p.name h.label fuel s h.lists h.nodes h.no_null h.name_lt
            (record { filled = usable.filled; present = usable.present; sized = usable.sized })
            (omega arith) in
        (
          u.call.world,
          rw
              (
                asked,
                ap (λ b. pool_stats (contents b)) resp
                    ∙ packed_read p rest h.version_lt h.flags_lt h.are_fields after,
                export_pool-Sends p t h,
                walked,
              )
              (ap (λ c. (ok tt, record { world = u.call.world; channel = c }))
                (ch
                  ∙ sending_append t.channel own (tree_metrics make p.name p.datasets)
                  ∙ ap (λ c. sending c (pool_metrics make p)) same)),
        )
