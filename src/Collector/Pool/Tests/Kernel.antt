-- ===== src/Collector/Pool/Tests/Kernel.antt =====
-- A kernel that serves the small pool.
use prometheus_zfs_exporter.Collector.Props.Stats.File.{print_file}
use prometheus_zfs_exporter.Collector.Pool.Tests.KstatFile.{stat_file, stat_file-IsFile}
use prometheus_zfs_exporter.Nvlist.Format.Values.{le_words}
use prometheus_zfs_exporter.Collector.Props.Values.Encoded as Props
use prometheus_zfs_exporter.Collector.Pool.Datasets.Node as Node
use prometheus_zfs_exporter.Collector.Pool.Datasets.Node.{Node, IsNode}
use prometheus_zfs_exporter.Base.{
  ◌≤◌, ℕ, ◌<◌, ◌≢◌, refl, ap, arith, Option, none, some, [], ◌∷◌, ◌++◌, Bytes, All, codes, equal,
  length, replicate, Result, ◌&&◌, ◌==◌, if◌then◌else◌, Bool, true, false, sym, ◌∙◌, ok,
}
use prometheus_zfs_exporter.Nvlist.Format.{le_bytes, encode_pair, stream_header}
use prometheus_zfs_exporter.Nvlist.Format.Tree.{done, encode_items}
use prometheus_zfs_exporter.Collector.Vdev.Encoded as Vdev
use prometheus_zfs_exporter.Collector.Vdev.Encoded.{
  Fields, encode_fields, encode_forest, encode_value, vdev_of, IsFields, is_done, is_more, is_kind,
  is_ident, is_place, is_numbers, is_children, is_other, is_bare, is_tree, single_leaf,
}
use prometheus_zfs_exporter.Ioctl.Cmd.{Cmd, empty_cmd, set_name, get_name}
use prometheus_zfs_exporter.Ioctl.Handle.{
  Syscall, esrch, zfs_ioc_dataset_list_next, zfs_ioc_pool_stats, zfs_ioc_pool_configs, enomem,
  with_sizes, round, size_or, written,
}
use prometheus_zfs_exporter.Collector.Props.Values.Listed.{encode_properties}
use prometheus_zfs_exporter.Collector.Pool.Stats.Encoded.{encode_pool}
use prometheus_zfs_exporter.Collector.Pool.Datasets.{ReadFile, response_size}
use prometheus_zfs_exporter.Collector.Pool.Datasets.Listing.{
  Reply, end, entry, Listing, IsReply, ServesListing, Lists, found, ends, nil, cons,
}
use mathlib.Core.Path.{subst}
use prometheus_zfs_exporter.Ioctl.Cmd.Names.{get_name-set_name_cleared}
use prometheus_zfs_exporter.Ioctl.Handle.Serve.{written-Holds, Serves}
use prometheus_zfs_exporter.Ioctl.State.{pool_states, vdev_states}
use prometheus_zfs_exporter.Collector.Tests.{AnyLabel}
use prometheus_zfs_exporter.Collector.Vdev.{append_children}
use prometheus_zfs_exporter.Collector.Metrics.Named.{IsLabelled}
use prometheus_zfs_exporter.Collector.Pool.Whole.{packed, Pool, IsPool, IsResponse, ServesPool}
use prometheus_zfs_exporter.Collector.Pool.Configs.{Config, configs_and, encode_configs}
use prometheus_zfs_exporter.Collector.Pool.Tests.Packed.{
  root, pool_list, pool_list-ArePoolFields, properties, properties-IsProperty,
}

-- Every dataset has the same statistics.
abbrev pub files : Bytes → Result Bytes
files path = ok (print_file stat_file)

abbrev pub read_file : ReadFile (Unit {0})
read_file path w = (ok (print_file stat_file), w)

abbrev pub dataset : Node
dataset = record {
  name = codes "tank/a";
  later = 1;
  version = 0;
  flags = 0;
  properties = properties;
  stats = some stat_file;
}

-- The pool has one dataset below its own.
abbrev pub listing : Listing
listing prefix cookie =
    if equal prefix (codes "tank") && cookie == 0
    then entry (codes "tank/a") 1 (Node.packed dataset)
    else end

abbrev found_name : Reply → Cmd → Cmd
found_name end cmd = cmd
found_name (entry name later bs) cmd = record (set_name name empty_cmd) { cookie = later }

abbrev found_number : Reply → ℕ
found_number end = esrch
found_number (entry name later bs) = 0

-- What the kernel writes into the buffer.
abbrev found_resp : Reply → Option Bytes
found_resp end = none
found_resp (entry name later bs) = some bs

abbrev pub tank : Pool
tank = record {
  name = codes "tank";
  version = 0;
  flags = 0;
  fields = pool_list;
  vdev = vdev_of root;
  datasets = cons dataset nil nil;
}

-- The kernel answers by the number of the call.
abbrev pub kernel : Bytes → Syscall (Unit {0})
kernel configs number cmd request config resp w =
    if number == zfs_ioc_dataset_list_next
    then record {
      number = found_number (listing (get_name cmd) cmd.cookie);
      cmd = found_name (listing (get_name cmd) cmd.cookie) cmd;
      resp = found_resp (listing (get_name cmd) cmd.cookie);
      world = w;
    }
    else if number == zfs_ioc_pool_stats
    then record { number = 0; cmd = cmd; resp = some (packed tank); world = w }
    else record { number = 0; cmd = cmd; resp = some configs; world = w }

pub dataset-IsNode : IsNode files (codes "tank") dataset
dataset-IsNode = record {
  no_null = omega arith;
  name_lt = omega arith;
  version_lt = omega arith;
  flags_lt = omega arith;
  are_properties = properties-IsProperty;
  is_stats = (stat_file-IsFile, refl);
  in_files = refl;
}

length-dataset : length (Node.packed dataset) < 2000
unfolding stream_header encode_properties Props.encode_fields encode_pair le_bytes
length-dataset = omega arith

pub length-tank : length (packed tank) < 2000
unfolding stream_header encode_pool encode_fields encode_pair le_bytes le_words
length-tank = omega arith

-- The answer that the kernel makes of a reply.
found-IsReply :
    (b : Bool) (cmd : Cmd) (resp : Option Bytes) (w : Unit {0})
    → 2000 ≤ size_or resp 0
    → let r = if b then entry (codes "tank/a") 1 (Node.packed dataset) else end in
      (found_number r ≢ enomem)
      × IsReply r (record {
        number = found_number r;
        cmd = found_name r cmd;
        resp = written (found_resp r) resp;
        world = w;
      })
unfolding get_name
found-IsReply true cmd resp w room = (
  omega arith,
  (
    refl,
    get_name-set_name_cleared (codes "tank/a") (omega arith) (omega arith),
    refl,
    written-Holds (Node.packed dataset) resp (omega (arith, length-dataset)),
  ),
)
found-IsReply false cmd resp w room = (omega arith, refl)

pub kernel-ServesListing : (configs : Bytes) → ServesListing (kernel configs) response_size listing
unfolding round get_name
kernel-ServesListing configs prefix cookie c asked usable =
    subst
      (λ r.
        (found_number r ≢ enomem)
        × IsReply (listing prefix cookie) (record {
          number = found_number r;
          cmd = found_name r (with_sizes none none c.resp c.cmd);
          resp = written (found_resp r) c.resp;
          world = c.world;
        }))
      (sym (ap (λ n. listing n c.cmd.cookie) asked.0 ∙ ap (listing prefix) asked.1))
      (found-IsReply (equal prefix (codes "tank") && cookie == 0)
        (with_sizes none none c.resp c.cmd) c.resp c.world (omega (arith, usable.sized)))

pub tank-Lists : Lists listing (codes "tank") 0 (cons dataset nil nil)
unfolding equal
tank-Lists = found refl (ends refl) (ends refl)

root-IsLabelled : IsLabelled AnyLabel (vdev_of root) (codes "tank") []
unfolding IsLabelled Vdev.apply_all append_children
root-IsLabelled = (tt, tt, ((tt, tt, tt), tt))

pub tank-IsPool : IsPool AnyLabel files listing tank
tank-IsPool = record {
  no_null = omega arith;
  name_lt = omega arith;
  label = tt;
  version_lt = omega arith;
  flags_lt = omega arith;
  are_fields = pool_list-ArePoolFields;
  has_vdev = refl;
  vdev_labels = root-IsLabelled;
  lists = tank-Lists;
  nodes = ((dataset-IsNode, tt), tt, tt);
}

pub kernel-ServesPool : (configs : Bytes) → ServesPool (kernel configs) response_size tank
unfolding round
kernel-ServesPool configs c asked usable = (
  omega arith,
  (refl, written-Holds (packed tank) c.resp (omega (arith, length-tank, usable.sized))),
)

abbrev pub tank_config : Config
tank_config = record { pool = tank; count = 1; header = replicate 24 0; items = done }

abbrev pub configs : Bytes
configs = stream_header 0 0 ++ encode_configs (tank_config ∷ [])

length-configs : length configs < 2000
unfolding stream_header configs_and encode_items encode_pair le_bytes
length-configs = omega arith

pub kernel-ServesConfigs :
    Serves (kernel configs) zfs_ioc_pool_configs response_size (λ _. Unit {0}) (IsResponse configs)
unfolding round
kernel-ServesConfigs c asked usable = (
  omega arith,
  (refl, written-Holds configs c.resp (omega (arith, length-configs, usable.sized))),
)

pub labels : All AnyLabel pool_states × All AnyLabel vdev_states
labels = (omega arith, omega arith)
