-- ===== src/Kstat.antt =====
-- zfs/kstat: the reader of the kernel's statistics tables under /proc/spl/kstat.
pub mod Reader
