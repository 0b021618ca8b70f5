-- ===== src/Collector/Pool/Configs/Served.antt =====
-- main.go: `collect` over a kernel that serves a list of pools.
use prometheus_zfs_exporter.Base.{
  append_assoc, ℕ, zero, suc, ◌-◌, ◌^◌, ◌<◌, ◌≤◌, ◌≡◌, sym, ap, ◌∙◌, arith, List, [], ◌∷◌, ◌++◌,
  Bytes, All, length, length-append, Result, ok,
}
use prometheus_zfs_exporter.Nvlist.Reader.{NvListReader}
use prometheus_zfs_exporter.Nvlist.Format.{encode_pair, stream_header}
use prometheus_zfs_exporter.Nvlist.Format.RoundTrip.{after_pair, next_pair, length-encode_pair}
use prometheus_zfs_exporter.Nvlist.Format.Tree.{encode_items}
use prometheus_zfs_exporter.Nvlist.Format.SkipTree.{Stands, after_pair-Stands, skip-Past}
use prometheus_zfs_exporter.Nvlist.Format.Fresh.{begun, begun-Stands}
use prometheus_zfs_exporter.Ioctl.State.{pool_states, vdev_states}
use prometheus_zfs_exporter.Ioctl.Cmd.{empty_cmd}
use prometheus_zfs_exporter.Ioctl.Handle.{Syscall, after, zfs_ioc_pool_configs}
use prometheus_zfs_exporter.Ioctl.Handle.Retry.{status}
use prometheus_zfs_exporter.Ioctl.Handle.Serve.{Serves, ioctl-Serves}
use prometheus_zfs_exporter.Collector.Export.{Desc, ValueType, Sample, Exporter}
use prometheus_zfs_exporter.Collector.Export.Sends.{Accepts, sent_after_nil}
use prometheus_zfs_exporter.Collector.Pool.{
  Env, fresh_call, configs_of, collect_pools, request_configs, collect, drop_reader,
}
use prometheus_zfs_exporter.Collector.Pool.Stats.{reader_fuel}
use prometheus_zfs_exporter.Collector.Pool.Datasets.{ReadFile, response_size, contents}
use prometheus_zfs_exporter.Collector.Pool.Datasets.Listing.{Listing, rounds, ServesListing}
use prometheus_zfs_exporter.Collector.Pool.Datasets.Walk.{ServesFiles, sending, sending_append}
use prometheus_zfs_exporter.Collector.Pool.Whole.{
  IsPool, IsResponse, ServesPool, pool_metrics, handle_pool-Sends, fresh-IsUsable,
}
use prometheus_zfs_exporter.Collector.Pool.Configs.{
  Config, config_pair, configs_and, IsConfig, all_metrics, length-configs_and, configs_and_append,
  collect_pools-round, collect_pools-stream,
}

module _ {World Metric : Type 0} (syscall : Syscall World) (read_file : ReadFile World)
    (exporter : Exporter Metric) (IsLabel : Bytes → Type 0)
    (make : Desc → ValueType → Sample → List Bytes → Metric)
    (accepts : Accepts exporter IsLabel make)
    (states : All IsLabel pool_states × All IsLabel vdev_states) (files : Bytes → Result Bytes)
    (serves_files : ServesFiles read_file files) (size : ℕ) (room : response_size ≡ size)
    (listing : Listing) (serves_listing : ServesListing syscall size listing) where
  -- What a pool asks of the kernel and of the fuel.
  pub record IsServed (fuel : ℕ) (c : Config) : Type 0 where
    pub config : IsConfig c
    pub pool : IsPool IsLabel files listing c.pool
    pub serves : ServesPool syscall size c.pool
    pub enough : rounds c.pool.datasets < fuel

  -- The loop serves the pools of `cs`, and stands before what follows them.
  pub collect_pools-IsServed :
      (cs : List Config) (fuel f : ℕ) (s : NvListReader) (e : Env World Metric) (rest : Bytes)
      → All (IsServed fuel) cs
      → length (configs_and cs rest) < f
      → Stands (configs_and cs rest) s
      → 4 < length rest
      → (g : ℕ) × (t : NvListReader) × (w : World) × (collect_pools syscall read_file exporter fuel
            f
            (record { reader = s; env = e })
          ≡ collect_pools syscall read_file exporter fuel g (record {
            reader = t;
            env = record { world = w; channel = sending e.channel (all_metrics make cs) };
          }))
        × Stands rest t
        × (length rest < g)
  unfolding configs_and
  collect_pools-IsServed cs fuel zero s e rest h lt at after = absurd (omega arith)
  collect_pools-IsServed [] fuel (suc f) s e rest h lt at after = (
    suc f,
    s,
    e.world,
    ap
        (λ b.
          collect_pools syscall read_file exporter fuel (suc f)
            (record { reader = s; env = record e { channel = record e.channel { sent = b } } }))
        (sym (sent_after_nil e.channel.is_open e.channel.sent)),
    at,
    lt,
  )
  collect_pools-IsServed (c ∷ cs) fuel (suc f) s e rest h lt at after =
      let pair = config_pair c in
      let behind = configs_and cs rest in
      let whole = length-append (encode_pair pair) (encode_items c.items ++ behind) in
      let both = length-append (encode_items c.items) behind in
      let first = length-encode_pair pair in
      let end = length-configs_and cs rest in
      let (w, handled) =
        handle_pool-Sends syscall read_file exporter IsLabel make accepts states files serves_files
          size room listing serves_listing c.pool fuel e h.0.pool h.0.serves h.0.enough in
      let (u, skipped, past) =
        skip-Past (suc f) (after_pair s pair) h.0.config.passed (omega arith)
          (after_pair-Stands pair (encode_items c.items ++ behind) at) (omega arith) in
      let own = pool_metrics make c.pool in
      let (g, t, v, eq, stands, less) =
        collect_pools-IsServed cs fuel f u (record { world = w; channel = sending e.channel own })
          rest h.1 (omega arith) past.1 after in
      (
        g,
        t,
        v,
        collect_pools-round syscall read_file exporter fuel f (record { reader = s; env = e })
              (after_pair s pair) u _
              (next_pair s pair (encode_items c.items ++ behind) at.alignment_eq at.native
                at.started h.0.config.fits (omega arith) at.at (omega arith))
              handled skipped
            ∙ eq
            ∙ ap
                (λ ch.
                  collect_pools syscall read_file exporter fuel g
                    (record { reader = t; env = record { world = v; channel = ch } }))
                (sending_append e.channel own (all_metrics make cs)),
        stands,
        less,
      )

  -- The first call of `collect`.
  configs_reply :
      (bs : Bytes) (fuel : ℕ) (e : Env World Metric)
      → Serves syscall zfs_ioc_pool_configs size (λ _. Unit {0}) (IsResponse bs)
      → 0 < fuel
      → (w : World) × (rest : Bytes) × (0 < length rest)
        × (request_configs syscall read_file exporter fuel e
            ≡ (ok (bs ++ rest), record { world = w; channel = e.channel }))
  unfolding request_configs
  configs_reply bs fuel e serves enough =
      let (a, q, still, eq) =
        ioctl-Serves syscall zfs_ioc_pool_configs size (λ _. Unit {0}) (IsResponse bs) fuel
          (fresh_call empty_cmd e.world) serves tt (fresh-IsUsable size empty_cmd e.world room)
          enough in
      (
        a.world,
        q.1.0,
        q.1.2,
        rw eq (
            ap (λ n. configs_of (status n, after syscall a) e.channel) q.0
            ∙ ap (λ b. (ok (contents b), record { world = a.world; channel = e.channel })) q.1.1),
      )

  -- `collect` on such a response, by what the loop does behind the pools of `cs`.
  pub collect-configs :
      (cs : List Config) (version flags fuel : ℕ) (e : Env World Metric) (last : Bytes)
      (ends : Result (Unit {0}))
      → version < 2 ^ 31
      → flags < 2 ^ 32
      → All (IsServed fuel) cs
      → 4 ≤ length last
      → Serves syscall zfs_ioc_pool_configs size
          (λ _. Unit {0})
          (IsResponse (stream_header version flags ++ configs_and cs last))
      → 0 < fuel
      → let sent = sending e.channel (all_metrics make cs) in
        ((n : ℕ) (t : NvListReader) (w : World) (rest : Bytes)
          → 0 < length rest
          → Stands (last ++ rest) t
          → (v : World) × (drop_reader (
                collect_pools syscall read_file exporter fuel
                  (suc n)
                  (record { reader = t; env = record { world = w; channel = sent } }))
              ≡ (ends, record { world = v; channel = sent })))
        → (v : World) × (collect syscall read_file exporter fuel e
            ≡ (ends, record { world = v; channel = sent }))
  unfolding collect
  collect-configs cs version flags fuel e last ends v g h after serves enough then =
      let (w, rest, room, asked) =
        configs_reply (stream_header version flags ++ configs_and cs last) fuel e serves enough in
      let behind = last ++ rest in
      let xs = configs_and cs behind in
      let bs = stream_header version flags ++ xs in
      let whole =
        append_assoc (stream_header version flags) (configs_and cs last) rest
        ∙ ap (λ b. stream_header version flags ++ b) (configs_and_append cs last rest) in
      let end = length-configs_and cs behind in
      let lasts = length-append last rest in
      let (n, t, u, eq, at, less) =
        collect_pools-IsServed cs fuel (reader_fuel bs) (begun version flags xs)
          (record { world = w; channel = e.channel }) behind h
          (omega (arith, length-append (stream_header version flags) xs))
          (begun-Stands version flags xs) (omega arith) in
      let started =
        collect_pools-stream syscall read_file exporter fuel (length bs) version flags
          (record { world = w; channel = e.channel }) xs v g (omega arith) in
      let more : n ≡ suc (n - 1) = omega arith in
      let (left, over) = then (n - 1) t u rest room at in
      (
        left,
        rw (asked ∙ ap (λ b. (ok b, record { world = w; channel = e.channel })) whole) (
            ap drop_reader (
              started
              ∙ eq
              ∙ ap
                  (λ k. collect_pools syscall read_file exporter fuel k (record {
                    reader = t;
                    env = record { world = u; channel = sending e.channel (all_metrics make cs) };
                  }))
                  more)
            ∙ over),
      )
