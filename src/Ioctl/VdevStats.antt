-- ===== src/Ioctl/VdevStats.antt =====
-- zfs/ioctl/util.go: the offsets into the kernel's `vdev_stats` array that the exporter reads, as
-- the `iota` block numbers them.
use prometheus_zfs_exporter.Base.{ℕ}

abbrev pub state : ℕ
state = 1

abbrev pub aux : ℕ
aux = 2

abbrev pub alloc : ℕ
alloc = 3

abbrev pub space : ℕ
space = 4

abbrev pub ops_read : ℕ
ops_read = 9

abbrev pub ops_write : ℕ
ops_write = 10

abbrev pub bytes_read : ℕ
bytes_read = 15

abbrev pub bytes_write : ℕ
bytes_write = 16

abbrev pub read_errors : ℕ
read_errors = 21

abbrev pub write_errors : ℕ
write_errors = 22

abbrev pub checksum_errors : ℕ
checksum_errors = 23

abbrev pub fragmentation : ℕ
fragmentation = 28
