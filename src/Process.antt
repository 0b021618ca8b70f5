-- ===== src/Process.antt =====
-- main.go: `Collect`, `setup` and `main`. The registry, the collectors that come with the Prometheus
-- client and the HTTP server are parameters.
pub mod Refused
use prometheus_zfs_exporter.Base.{
  ℕ, none, List, [], ◌∷◌, ◌++◌, Error, Result, ok, err, panicked, out_of_fuel, Method, ◌>>=◌, ◌>>◌,
  wrapping,
}
use prometheus_zfs_exporter.Ioctl.Handle.{Syscall}
use prometheus_zfs_exporter.Ioctl.Device.{Os, ZfsHandle, new_zfs_handle}
use prometheus_zfs_exporter.Collector.Export.{Exporter}
use prometheus_zfs_exporter.Collector.Pool.{Env, collect}
use prometheus_zfs_exporter.Collector.Pool.Datasets.{ReadFile}

-- What a call of `Collect` changes. The log has the errors under "error collecting and exporting
-- zfs metrics".
pub record Logged (World Metric : Type 0) : Type 0 where
  pub env : Env World Metric
  pub log : List Error

module _ {World Metric : Type 0} where
  -- `if err != nil { slog.Error("...", "error", err) }`
  unfoldable pub log_error :
      List Error → Result (Unit {0}) × Env World Metric → Result (Unit {0}) × Logged World Metric
  log_error log (ok _, e) = (ok tt, record { env = e; log = log })
  log_error log (err x, e) = (ok tt, record { env = e; log = log ++ x ∷ [] })
  log_error log (panicked c, e) = (panicked c, record { env = e; log = log })
  log_error log (out_of_fuel, e) = (out_of_fuel, record { env = e; log = log })

  -- `Collect`
  unfoldable pub collect_logged :
      Syscall World → ReadFile World → Exporter Metric → ℕ → Method (Logged World Metric) (Unit {0})
  collect_logged syscall read_file exporter fuel l =
      log_error l.log (collect syscall read_file exporter fuel l.env)

-- The collectors that `setup` registers: the program's own, with its handle, and the two that
-- `NewProcessCollector` and `NewGoCollector` make.
pub data Registrant (File : Type 0) : Type 0 where
  zfs_collector : ZfsHandle File → Registrant File
  process_collector go_collector : Registrant File

-- What `setup` changes: the operating system, and the registry.
pub record Starting (World Registry : Type 0) : Type 0 where
  pub world : World
  pub registry : Registry

-- `reg.Register(c)`
abbrev pub Register : Type 0 → Type 0 → Type 0
Register File Registry = Registrant File → Method Registry (Unit {0})

module _ {World File Registry : Type 0} (os : Os World File)
    (register : Register File Registry) where
  abbrev pub with_registry :
      {A : Type 0} → Registry → Result A × World → Result A × Starting World Registry
  with_registry reg (r, w) = (r, record { world = w; registry = reg })

  abbrev pub with_world :
      {A : Type 0} → World → Result A × Registry → Result A × Starting World Registry
  with_world w (r, reg) = (r, record { world = w; registry = reg })

  unfoldable pub open_handle : Method (Starting World Registry) (ZfsHandle File)
  open_handle s = with_registry s.registry (new_zfs_handle os s.world)

  unfoldable pub add_collector : Registrant File → Method (Starting World Registry) (Unit {0})
  add_collector c s = with_world s.world (register c s.registry)

  unfoldable pub setup : Method (Starting World Registry) (Unit {0})
  setup = do
    handle ← wrapping "error creating zfs handle: " open_handle
    wrapping "error registering zfs collector: " (add_collector (zfs_collector handle))
    wrapping "error registering process collector: " (add_collector process_collector)
    wrapping "error registering go collector: " (add_collector go_collector)

  -- `http.ListenAndServe` with the registry under "/metrics": it returns with an error only.
  abbrev pub Serve : Type 0
  Serve = Registry → World → Error × World

  -- How `main` goes on after `setup`: `log.Fatal` of the error, or of the one that ends serving.
  unfoldable pub serve_or_fail :
      Serve → Result (Unit {0}) × Starting World Registry → Result Error × World
  serve_or_fail serve (ok _, s) = let (e, w) = serve s.registry s.world in (ok e, w)
  serve_or_fail serve (err e, s) = (ok e, s.world)
  serve_or_fail serve (panicked c, s) = (panicked c, s.world)
  serve_or_fail serve (out_of_fuel, s) = (out_of_fuel, s.world)

  -- `main` with an empty registry: the error that it dies with.
  unfoldable pub main : Serve → Registry → World → Result Error × World
  main serve empty w = serve_or_fail serve (setup (record { world = w; registry = empty }))
