-- ===== src/Ioctl.antt =====
-- zfs/ioctl: the calls into the ZFS kernel module, and the names of the states that it reports.
pub mod VdevStats
pub mod State
pub mod Cmd
pub mod Handle
pub mod Device
mod Tests
