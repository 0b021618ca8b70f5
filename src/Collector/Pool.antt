-- ===== src/Collector/Pool.antt =====
-- main.go: `handlePool` and `collect`, over the kernel, the files under /proc and the
-- Prometheus library as parameters.
pub mod Stats
pub mod Datasets
pub mod Sent
pub mod Whole
pub mod NoVdev
pub mod Configs
mod Tests
use prometheus_zfs_exporter.Base.{
  ℕ, zero, suc, ◌+◌, ◌*◌, Option, none, some, Bool, true, false, not, List, [], ◌∷◌, ◌++◌, Bytes,
  codes, length, replicate, ◌==◌, if◌then◌else◌, Error, not_exist, errno, eof, message, wrapped,
  Result, ok, err, panicked, out_of_fuel, nil_dereference, Method, pure, raise, panic, gets, modify,
  ◌>>=◌, ◌>>◌, raise_if, until_eof, wrapping, wrap_result,
}
use prometheus_zfs_exporter.Nvlist.Types.{type_nvlist}
use prometheus_zfs_exporter.Nvlist.Reader.{NvListReader, new_reader}
use prometheus_zfs_exporter.Nvlist.Reader as Nvlist
use prometheus_zfs_exporter.Nvlist.Next.{next}
use prometheus_zfs_exporter.Nvlist.Skip.{skip}
use prometheus_zfs_exporter.Kstat.Reader as Kstat
use prometheus_zfs_exporter.Strconv.{format_hex}
use prometheus_zfs_exporter.Ioctl.State.{pool_states}
use prometheus_zfs_exporter.Ioctl.Cmd.{Cmd, empty_cmd, set_name, get_name}
use prometheus_zfs_exporter.Ioctl.Handle.{
  Syscall, Call, ioctl, esrch, zfs_ioc_pool_configs, zfs_ioc_pool_stats, zfs_ioc_dataset_list_next,
}
use prometheus_zfs_exporter.Collector.Props.{DatasetProps, empty_props, Parse}
use prometheus_zfs_exporter.Collector.Props.Values.{parse_props}
use prometheus_zfs_exporter.Collector.Props.Stats.{parse_kstat}
use prometheus_zfs_exporter.Collector.Vdev.{Vdev}
use prometheus_zfs_exporter.Collector.Export.{
  Exporter, Channel, counter_value, whole, export_states, send_result,
}
use prometheus_zfs_exporter.Collector.Metrics.{handle_vdev, handle_dataset}
use prometheus_zfs_exporter.Collector.Pool.Stats.{
  PoolStats, empty_stats, read_pool_stats, reader_fuel,
}
use prometheus_zfs_exporter.Collector.Pool.Datasets.{
  ReadFile, response_size, contents, Scrape, Act, on_channel, lift, request, find_datasets,
}

-- What the pools share: the kernel and the channel.
pub record Env (World Metric : Type 0) : Type 0 where
  pub world : World
  pub channel : Channel Metric

-- The loop of `collect`, with its reader of the pools' configurations.
pub record Collecting (World Metric : Type 0) : Type 0 where
  pub reader : NvListReader
  pub env : Env World Metric

-- The reader's loop over the response to `ZFS_IOC_POOL_STATS`.
unfoldable pub pool_stats : Bytes → Result PoolStats
pool_stats bs = (read_pool_stats (reader_fuel bs) empty_stats (new_reader bs)).0

abbrev pub fresh_call : {World : Type 0} → Cmd → World → Call World
fresh_call c w = record { cmd = c; resp = some (replicate response_size 0); world = w }

module _ {World Metric : Type 0} where
  abbrev pub leave : {A : Type 0} → Result A × Scrape World Metric → Result A × Env World Metric
  leave (r, s) = (r, record { world = s.call.world; channel = s.channel })

  abbrev pub with_env :
      {A : Type 0} → Env World Metric → Result A × NvListReader → Result A × Collecting World Metric
  with_env e (r, t) = (r, record { reader = t; env = e })

  abbrev pub with_configs :
      {A : Type 0} → NvListReader → Result A × Env World Metric → Result A × Collecting World Metric
  with_configs t (r, e) = (r, record { reader = t; env = e })

  unfoldable pub on_configs : {A : Type 0} → Nvlist.Read A → Method (Collecting World Metric) A
  on_configs m c = with_env c.env (m c.reader)

  unfoldable pub on_env :
      {A : Type 0} → Method (Env World Metric) A → Method (Collecting World Metric) A
  on_env m c = with_configs c.reader (m c.env)

  abbrev pub configs_of :
      Result (Unit {0}) × Call World → Channel Metric → Result Bytes × Env World Metric
  configs_of (ok _, c) ch = (ok (contents c.resp), record { world = c.world; channel = ch })
  configs_of (err e, c) ch = (err e, record { world = c.world; channel = ch })
  configs_of (panicked p, c) ch = (panicked p, record { world = c.world; channel = ch })
  configs_of (out_of_fuel, c) ch = (out_of_fuel, record { world = c.world; channel = ch })

  abbrev pub drop_reader :
      {A : Type 0} → Result A × Collecting World Metric → Result A × Env World Metric
  drop_reader (r, c) = (r, c.env)

module _ {World Metric : Type 0} (syscall : Syscall World) (read_file : ReadFile World)
    (exporter : Exporter Metric) where
  -- The part of `handlePool` between the first call and the datasets.
  unfoldable pub export_vdevs : Bytes → Option Vdev → Act World Metric (Unit {0})
  export_vdevs pool none = panic nil_dereference
  export_vdevs pool (some v) = on_channel (handle_vdev exporter v pool [])

  unfoldable pub export_pool : Bytes → PoolStats → Act World Metric (Unit {0})
  export_pool pool stats = do
    on_channel (
        export_states exporter.new_const_metric exporter.collector.pool_state_desc (pool ∷ [])
          stats.state pool_states)
    on_channel (
        send_result (
          exporter.new_const_metric exporter.collector.pool_error_count_desc counter_value
            (whole stats.error_count) (pool ∷ [])))
    export_vdevs pool stats.vdev

  unfoldable pub scrape_pool : ℕ → Bytes → Act World Metric (Unit {0})
  scrape_pool fuel pool = do
    request syscall fuel zfs_ioc_pool_stats
    resp ← gets (λ s. contents s.call.resp)
    stats ← lift (pool_stats resp)
    export_pool pool stats
    find_datasets syscall read_file exporter fuel pool pool 0

  -- `handlePool`, which makes its own command block and response buffer.
  unfoldable pub handle_pool : ℕ → Bytes → Method (Env World Metric) (Unit {0})
  handle_pool fuel pool e = leave (
      scrape_pool fuel pool
        (record { call = fresh_call (set_name pool empty_cmd) e.world; channel = e.channel }))

  unfoldable pub collect_pools : ℕ → ℕ → Method (Collecting World Metric) (Unit {0})
  collect_pools fuel zero c = (out_of_fuel, c)
  collect_pools fuel (suc f) c =
      (do
        token ← until_eof (on_configs next)
        elim token [
          | none ↦ pure tt
          | some t ↦ do
            raise_if (not (t == type_nvlist)) (message "invalid pool configs")
            pool ← gets (λ c. c.reader.name_bytes)
            on_env (handle_pool fuel pool)
            on_configs (skip (suc f))
            collect_pools fuel f
        ])
        c

  unfoldable pub request_configs : ℕ → Method (Env World Metric) Bytes
  request_configs fuel e =
      configs_of (ioctl syscall fuel zfs_ioc_pool_configs none none (fresh_call empty_cmd e.world))
        e.channel

  -- `collect`
  unfoldable pub collect : ℕ → Method (Env World Metric) (Unit {0})
  collect fuel = do
    bs ← request_configs fuel
    (λ e.
        drop_reader
          (collect_pools fuel (reader_fuel bs) (record { reader = new_reader bs; env = e })))
