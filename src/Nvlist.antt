-- ===== src/Nvlist.antt =====
-- zfs/nvlist: the pull reader of ZFS name-value lists.
pub mod Types
pub mod Reader
pub mod Next
pub mod Access
pub mod Skip
pub mod Unmarshal
pub mod Format
mod Tests
