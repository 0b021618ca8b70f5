-- ===== src/Collector/Pool/Tests/NoVdev.antt =====
-- A pool whose statistics name no vdev tree, and a kernel that serves it.
use prometheus_zfs_exporter.Base.{
  ◌<◌, ◌≡◌, refl, arith, some, codes, length, panicked, nil_dereference,
}
use prometheus_zfs_exporter.Nvlist.Format.{le_bytes, encode_pair, stream_header}
use prometheus_zfs_exporter.Ioctl.Handle.{Syscall, round}
use prometheus_zfs_exporter.Collector.Tests.{
  Metric, make, client, AnyLabel, client-Accepts, open_channel,
}
use prometheus_zfs_exporter.Collector.Vdev.{node, nil, empty_info}
use prometheus_zfs_exporter.Collector.Pool.{Env, handle_pool}
use prometheus_zfs_exporter.Collector.Pool.Stats.Encoded as Encoded
use prometheus_zfs_exporter.Collector.Pool.Stats.Encoded.{
  PoolFields, encode_pool, apply_all, ArePoolFields,
}
use prometheus_zfs_exporter.Collector.Pool.Datasets.{response_size}
use prometheus_zfs_exporter.Collector.Pool.Datasets.Listing as Listing
use prometheus_zfs_exporter.Collector.Pool.Datasets.Listing.{Listing, ServesListing, end}
use prometheus_zfs_exporter.Collector.Pool.Datasets.Walk.{sending}
use prometheus_zfs_exporter.Ioctl.Handle.Serve.{written-Holds}
use prometheus_zfs_exporter.Collector.Pool.Whole.{Pool, packed, ServesPool}
use prometheus_zfs_exporter.Collector.Pool.NoVdev.{first_metrics, handle_pool-no_vdev}
use prometheus_zfs_exporter.Collector.Pool.Tests.Kernel.{read_file, labels}

abbrev bare_list : PoolFields
bare_list = Encoded.more (Encoded.state 1) (Encoded.more (Encoded.error_count 3) Encoded.done)

bare_list-ArePoolFields : ArePoolFields bare_list
unfolding le_bytes
bare_list-ArePoolFields = (omega arith, (omega arith, tt))

-- The vdev and the datasets of this pool are never asked for.
abbrev bare_pool : Pool
bare_pool = record {
  name = codes "tank";
  version = 0;
  flags = 0;
  fields = bare_list;
  vdev = node empty_info nil;
  datasets = Listing.nil;
}

length-bare_pool : length (packed bare_pool) < 2000
unfolding stream_header encode_pool encode_pair le_bytes
length-bare_pool = omega arith

abbrev bare_kernel : Syscall (Unit {0})
bare_kernel number cmd request config resp w = record {
  number = 0;
  cmd = cmd;
  resp = some (packed bare_pool);
  world = w;
}

bare_kernel-ServesPool : ServesPool bare_kernel response_size bare_pool
unfolding round
bare_kernel-ServesPool c asked usable = (
  omega arith,
  (refl, written-Holds (packed bare_pool) c.resp (omega (arith, length-bare_pool, usable.sized))),
)

abbrev start : Env (Unit {0}) Metric
start = record { world = tt; channel = open_channel }

handle_pool-no_vdev_example :
    (w : Unit {0}) × (handle_pool bare_kernel read_file client 300000 (codes "tank") start ≡ (
      panicked nil_dereference,
      record { world = w; channel = sending open_channel (first_metrics make bare_pool) },
    ))
handle_pool-no_vdev_example =
    handle_pool-no_vdev bare_kernel read_file client AnyLabel make client-Accepts labels.0
      response_size refl bare_pool 300000 start (omega arith) (omega arith) tt (omega arith)
      (omega arith) bare_list-ArePoolFields refl bare_kernel-ServesPool (omega arith)
