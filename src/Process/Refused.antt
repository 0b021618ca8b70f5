-- ===== src/Process/Refused.antt =====
-- main.go: `Collect` when the kernel refuses one pool's statistics.
use prometheus_zfs_exporter.Base.{ℕ, ◌≡◌, Bytes}
use prometheus_zfs_exporter.Ioctl.Cmd.{get_name}
use prometheus_zfs_exporter.Ioctl.Handle.{Syscall, zfs_ioc_pool_stats}
use prometheus_zfs_exporter.Ioctl.Handle.Serve.{Serves}
use prometheus_zfs_exporter.Collector.Pool.Datasets.Listing.{Listing}

-- The kernel answers the question for the pool's statistics with an error.
abbrev pub Refuses : {World : Type 0} → Syscall World → ℕ → Bytes → ℕ → Type 0
Refuses syscall size name n =
    Serves syscall zfs_ioc_pool_stats size (λ c. get_name c.cmd ≡ name) (λ a. a.number ≡ n)
