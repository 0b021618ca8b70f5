-- ===== src/Collector/Pool/Tests/Refused.antt =====
-- A scrape of two pools, of which the kernel refuses the second.
use prometheus_zfs_exporter.Base.{
  none, [], ◌∷◌, ◌++◌, Bytes, codes, equal, replicate, ◌&&◌, ◌==◌, if◌then◌else◌,
}
use prometheus_zfs_exporter.Nvlist.Format.{stream_header, encode_pair}
use prometheus_zfs_exporter.Nvlist.Format.Tree.{done}
use prometheus_zfs_exporter.Nvlist.Format.Tree as Tree
use prometheus_zfs_exporter.Ioctl.Cmd.{get_name}
use prometheus_zfs_exporter.Ioctl.Handle.{Syscall, zfs_ioc_pool_stats}
use prometheus_zfs_exporter.Collector.Tests.{Metric, open_channel}
use prometheus_zfs_exporter.Collector.Pool.Configs.{Config, config_pair, configs_and}
use prometheus_zfs_exporter.Process.{Logged}
use prometheus_zfs_exporter.Collector.Pool.Tests.Kernel.{kernel, tank, tank_config}

abbrev lost : Config
lost = record tank_config { pool = record tank { name = codes "lost" } }

abbrev later : Bytes
later = replicate 8 0

abbrev pools : Bytes
pools =
    stream_header 0 0 ++ configs_and (tank_config ∷ []) (encode_pair (config_pair lost) ++ later)

-- The kernel of one pool, which answers with EIO for the other.
abbrev refusing : Syscall (Unit {0})
refusing number cmd request config resp w =
    if number == zfs_ioc_pool_stats && equal (get_name cmd) (codes "lost")
    then record { number = 5; cmd = cmd; resp = none; world = w }
    else kernel pools number cmd request config resp w

abbrev before : Logged (Unit {0}) Metric
before = record { env = record { world = tt; channel = open_channel }; log = [] }
