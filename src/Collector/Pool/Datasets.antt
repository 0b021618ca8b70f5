-- ===== src/Collector/Pool/Datasets.antt =====
-- main.go: `findDatasetsRecursive`, which walks a pool's datasets and exports each.
pub mod Node
pub mod Listing
pub mod Walk
pub mod Response
pub mod Total
pub mod KstatFile
use prometheus_zfs_exporter.Base.{
  ℕ, zero, suc, ◌*◌, Option, none, some, Bool, true, false, [], ◌++◌, Bytes, codes, ◌==◌,
  if◌then◌else◌, not_exist, errno, wrapped, Result, ok, err, panicked, out_of_fuel, Method, pure,
  gets, modify, ◌>>=◌, ◌>>◌, wrap_result,
}
use prometheus_zfs_exporter.Nvlist.Reader.{new_reader}
use prometheus_zfs_exporter.Kstat.Reader as Kstat
use prometheus_zfs_exporter.Strconv.{format_hex}
use prometheus_zfs_exporter.Ioctl.Cmd.{Cmd, empty_cmd, set_name, get_name}
use prometheus_zfs_exporter.Ioctl.Handle.{Syscall, Call, ioctl, esrch, zfs_ioc_dataset_list_next}
use prometheus_zfs_exporter.Collector.Props.{DatasetProps, empty_props, Parse}
use prometheus_zfs_exporter.Collector.Props.Values.{parse_props}
use prometheus_zfs_exporter.Collector.Props.Stats.{parse_kstat}
use prometheus_zfs_exporter.Collector.Export.{Exporter, Channel}
use prometheus_zfs_exporter.Collector.Metrics.{handle_dataset}
use prometheus_zfs_exporter.Collector.Pool.Stats.{reader_fuel}

-- `os.ReadFile`: the contents, or an error; `not_exist` is what `os.IsNotExist` tests for.
abbrev pub ReadFile : Type 0 → Type 0
ReadFile World = Bytes → World → Result Bytes × World

-- `make([]byte, 256*1024)`
abbrev pub response_size : ℕ
response_size = 256 * 1024

-- The contents of a slice; a nil slice has none.
abbrev pub contents : Option Bytes → Bytes
contents none = []
contents (some bs) = bs

-- What a scrape works on: the command block and response buffer of `handlePool`, the kernel, and
-- the channel.
pub record Scrape (World Metric : Type 0) : Type 0 where
  pub call : Call World
  pub channel : Channel Metric

-- `fmt.Sprintf("/proc/spl/kstat/zfs/%s/objset-0x%x", poolName, objsetid)`
unfoldable pub kstat_path : Bytes → ℕ → Bytes
kstat_path pool objsetid =
    codes "/proc/spl/kstat/zfs/" ++ (pool ++ (codes "/objset-0x" ++ format_hex objsetid))

-- The outcome of a parse, with the properties that it filled in.
abbrev pub parsed : {R : Type 0} → Result (Unit {0}) × Parse R → Result DatasetProps
parsed (ok _, p) = ok p.props
parsed (err e, p) = err e
parsed (panicked c, p) = panicked c
parsed (out_of_fuel, p) = out_of_fuel

-- `props.parseProps(&datasetPropsReader)` on a fresh reader of the response.
unfoldable pub read_props : Bytes → Result DatasetProps
read_props bs =
    parsed (parse_props (reader_fuel bs) (record { props = empty_props; reader = new_reader bs }))

-- `props.parseKStat(&r)`
unfoldable pub read_kstat : DatasetProps → Bytes → Result DatasetProps
read_kstat props bs =
    parsed (parse_kstat (reader_fuel bs) (record { props = props; reader = Kstat.new_reader bs }))

-- The properties with the kernel statistics, if their file is there.
unfoldable pub add_kstat : DatasetProps → Result Bytes → Result DatasetProps
add_kstat props (ok bs) =
    wrap_result "error parsing kstats for %q (objset %v): " (read_kstat props bs)
add_kstat props (err not_exist) = ok props
add_kstat props (err e) = err (wrapped "error reading kstats for %q (objset %v): " e)
add_kstat props (panicked c) = panicked c
add_kstat props out_of_fuel = out_of_fuel

-- A step of a scrape.
abbrev pub Act : Type 0 → Type 0 → Type 0 → Type 0
Act World Metric = Method (Scrape World Metric)

module _ {World Metric : Type 0} where
  abbrev pub with_call :
      {A : Type 0} → Channel Metric → Result A × Call World → Result A × Scrape World Metric
  with_call ch (r, c) = (r, record { call = c; channel = ch })

  abbrev pub with_channel :
      {A : Type 0} → Call World → Result A × Channel Metric → Result A × Scrape World Metric
  with_channel c (r, ch) = (r, record { call = c; channel = ch })

  unfoldable pub on_channel : {A : Type 0} → Method (Channel Metric) A → Act World Metric A
  on_channel m s = with_channel s.call (m s.channel)

  abbrev pub set_cmd : (Cmd → Cmd) → Act World Metric (Unit {0})
  set_cmd g = modify (λ s. record s { call = record s.call { cmd = g s.call.cmd } })

  abbrev pub lift : {A : Type 0} → Result A → Act World Metric A
  lift r s = (r, s)

-- `err == unix.ESRCH` ends the listing; any other error is reported.
unfoldable pub listing_end : {S : Type 0} → Result (Unit {0}) × S → Result Bool × S
listing_end (ok _, s) = (ok true, s)
listing_end (err (errno n), s) =
    if n == esrch
    then (ok false, s)
    else (err (wrapped "error calling dataset list next: " (errno n)), s)
listing_end (err e, s) = (err (wrapped "error calling dataset list next: " e), s)
listing_end (panicked c, s) = (panicked c, s)
listing_end (out_of_fuel, s) = (out_of_fuel, s)

-- `c.zfsHandle.Ioctl(number, &cmd, nil, nil, &resp)`
unfoldable pub request :
    {World Metric : Type 0} → Syscall World → ℕ → ℕ → Act World Metric (Unit {0})
request syscall fuel number s = with_call s.channel (ioctl syscall fuel number none none s.call)

module _ {World Metric : Type 0} (syscall : Syscall World) (read_file : ReadFile World)
    (exporter : Exporter Metric) where
  unfoldable pub read_kstat_file : Bytes → Act World Metric (Result Bytes)
  read_kstat_file path s =
      let (r, w) = read_file path s.call.world in
      (ok r, record s { call = record s.call { world = w } })

  -- One dataset: its properties, its statistics and its metrics.
  unfoldable pub export_dataset : Bytes → Bytes → Act World Metric (Unit {0})
  export_dataset pool name = do
    resp ← gets (λ s. contents s.call.resp)
    props ← lift (read_props resp)
    file ← read_kstat_file (kstat_path pool props.objsetid)
    full ← lift (add_kstat props file)
    on_channel (handle_dataset exporter pool name full)

  -- The loop of `findDatasetsRecursive` below `prefix`, from `cookie` on. A unit of fuel for each
  -- call, each round, and each round of `Ioctl`.
  unfoldable pub find_datasets : ℕ → Bytes → Bytes → ℕ → Act World Metric (Unit {0})
  find_datasets zero pool prefix cookie s = (out_of_fuel, s)
  find_datasets (suc fuel) pool prefix cookie s =
      (do
        set_cmd (λ _. record (set_name prefix empty_cmd) { cookie = cookie })
        more ← (λ s. listing_end (request syscall (suc fuel) zfs_ioc_dataset_list_next s))
        let below = do
          name ← gets (λ s. get_name s.call.cmd)
          later ← gets (λ s. s.call.cmd.cookie)
          export_dataset pool name
          find_datasets fuel pool name 0
          find_datasets fuel pool prefix later
        elim more [ false ↦ pure tt | true ↦ below ])
        s
