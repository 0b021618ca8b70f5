-- ===== src/Collector/Pool/Configs.antt =====
-- main.go: the list of pools that `collect` reads, and a round of its loop.
pub mod Served
use prometheus_zfs_exporter.Base.{
  ℕ, zero, suc, ◌+◌, ◌-◌, ◌^◌, refl, ◌<◌, ◌≤◌, ◌≡◌, sym, ap, ◌∙◌, arith, List, [], ◌∷◌, ◌++◌,
  append_assoc, Bytes, All, length, length-append, Result, ok, err, eof, eof_as_none, raise_if,
}
use mathlib.Core.Path.{subst}
use prometheus_zfs_exporter.Nvlist.Types.{type_nvlist}
use prometheus_zfs_exporter.Nvlist.Reader.{NvListReader, new_reader}
use prometheus_zfs_exporter.Nvlist.Next.{next}
use prometheus_zfs_exporter.Nvlist.Skip.{skip}
use prometheus_zfs_exporter.Nvlist.Format.{Pair, IsPair, encode_pair, terminator, stream_header}
use prometheus_zfs_exporter.Nvlist.Format.Words.{length-le_bytes}
use prometheus_zfs_exporter.Nvlist.Format.RoundTrip.{
  after_pair, next_pair, next-terminator, length-encode_pair,
}
use prometheus_zfs_exporter.Nvlist.Format.Tree.{Items, IsItems, encode_items}
use prometheus_zfs_exporter.Nvlist.Format.SkipTree.{Stands, after_pair-Stands, skip-Past}
use prometheus_zfs_exporter.Nvlist.Format.Fresh.{begun, begun-Stands, next-stream}
use prometheus_zfs_exporter.Ioctl.State.{pool_states, vdev_states}
use prometheus_zfs_exporter.Ioctl.Cmd.{empty_cmd}
use prometheus_zfs_exporter.Ioctl.Handle.{Syscall, after, zfs_ioc_pool_configs}
use prometheus_zfs_exporter.Ioctl.Handle.Retry.{status}
use prometheus_zfs_exporter.Ioctl.Handle.Serve.{Serves, ioctl-Serves}
use prometheus_zfs_exporter.Collector.Export.{Desc, ValueType, Sample, Exporter}
use prometheus_zfs_exporter.Collector.Export.Sends.{Accepts, sent_after_nil}
use prometheus_zfs_exporter.Collector.Pool.{
  Env, Collecting, fresh_call, on_configs, on_env, configs_of, handle_pool, collect_pools,
  request_configs, collect, drop_reader,
}
use prometheus_zfs_exporter.Collector.Pool.Stats.{reader_fuel}
use prometheus_zfs_exporter.Collector.Pool.Datasets.{ReadFile, response_size, contents}
use prometheus_zfs_exporter.Collector.Pool.Datasets.Listing.{Listing, rounds, ServesListing}
use prometheus_zfs_exporter.Collector.Pool.Datasets.Walk.{ServesFiles, sending, sending_append}
use prometheus_zfs_exporter.Collector.Pool.Whole.{
  Pool, IsPool, IsResponse, ServesPool, pool_metrics, handle_pool-Sends, fresh-IsUsable,
}

-- A pool's entry in the list of configurations: a pair under its name, and the configuration, which
-- the exporter passes.
pub record Config : Type 0 where
  pub pool : Pool
  pub count : ℕ
  pub header : Bytes
  pub items : Items

abbrev pub config_pair : Config → Pair
config_pair c = record { name = c.pool.name; ty = type_nvlist; count = c.count; payload = c.header }

-- The entries, with `xs` behind them.
unfoldable pub configs_and : List Config → Bytes → Bytes
configs_and [] xs = xs
configs_and (c ∷ cs) xs = encode_pair (config_pair c) ++ (encode_items c.items ++ configs_and cs xs)

abbrev pub encode_configs : List Config → Bytes
encode_configs cs = configs_and cs terminator

pub record IsConfig (c : Config) : Type 0 where
  pub fits : IsPair (config_pair c)
  pub passed : IsItems c.items

-- The metrics of the pools, one pool after the other.
abbrev pub all_metrics :
    {Metric : Type 0}
    → (Desc → ValueType → Sample → List Bytes → Metric)
    → List Config
    → List Metric
all_metrics make [] = []
all_metrics make (c ∷ cs) = pool_metrics make c.pool ++ all_metrics make cs

pub length-configs_and : (cs : List Config) (xs : Bytes) → length xs ≤ length (configs_and cs xs)
unfolding configs_and
length-configs_and [] xs = omega arith
length-configs_and (c ∷ cs) xs = omega (
  arith,
  length-append (encode_pair (config_pair c)) (encode_items c.items ++ configs_and cs xs),
  length-append (encode_items c.items) (configs_and cs xs),
  length-configs_and cs xs,
)

pub configs_and_append :
    (cs : List Config) (xs ys : Bytes) → configs_and cs xs ++ ys ≡ configs_and cs (xs ++ ys)
unfolding configs_and
configs_and_append [] xs ys = refl
configs_and_append (c ∷ cs) xs ys =
    append_assoc (encode_pair (config_pair c)) (encode_items c.items ++ configs_and cs xs) ys
    ∙ ap (λ b. encode_pair (config_pair c) ++ b)
        (append_assoc (encode_items c.items) (configs_and cs xs) ys
          ∙ ap (λ b. encode_items c.items ++ b) (configs_and_append cs xs ys))

module _ {World Metric : Type 0} (syscall : Syscall World) (read_file : ReadFile World)
    (exporter : Exporter Metric) where
  pub collect_pools-round :
      (fuel f : ℕ) (c : Collecting World Metric) (r u : NvListReader) (e : Env World Metric)
      → next c.reader ≡ (ok type_nvlist, r)
      → handle_pool syscall read_file exporter fuel r.name_bytes c.env ≡ (ok tt, e)
      → skip (suc f) r ≡ (ok tt, u)
      → collect_pools syscall read_file exporter fuel (suc f) c
        ≡ collect_pools syscall read_file exporter fuel f (record { reader = u; env = e })
  unfolding collect_pools on_configs on_env eof_as_none raise_if
  collect_pools-round fuel f c r u e step handled skipped = rw (step, handled, skipped)

  pub collect_pools-end :
      (fuel f : ℕ) (c : Collecting World Metric) (r : NvListReader)
      → next c.reader ≡ (err eof, r)
      → collect_pools syscall read_file exporter fuel (suc f) c
        ≡ (ok tt, record { reader = r; env = c.env })
  unfolding collect_pools on_configs eof_as_none
  collect_pools-end fuel f c r step = rw step

  pub collect_pools-stream :
      (fuel f version flags : ℕ) (e : Env World Metric) (xs : Bytes)
      → version < 2 ^ 31
      → flags < 2 ^ 32
      → 0 < length xs
      → collect_pools syscall read_file exporter fuel
          (suc f)
          (record { reader = new_reader (stream_header version flags ++ xs); env = e })
        ≡ collect_pools syscall read_file exporter fuel
            (suc f)
            (record { reader = begun version flags xs; env = e })
  unfolding collect_pools on_configs
  collect_pools-stream fuel f version flags e xs v g room =
      rw (next-stream version flags xs v g room)
