-- ===== src/Collector/Pool/Stats.antt =====
-- main.go: the first half of `handlePool`, which reads the pool's state, error count and vdevs.
pub mod Encoded
pub mod Parse
pub mod Total
use prometheus_zfs_exporter.Base.{
  ℕ, zero, suc, Option, none, some, not, ◌||◌, [], Bytes, codes, equal, length, ◌==◌, if◌then◌else◌,
  message, out_of_fuel, pure, gets, ◌>>=◌, ◌>>◌, raise_if, until_eof,
}
use prometheus_zfs_exporter.Nvlist.Types.{NvType, type_uint64, type_nvlist, type_nvlist_array}
use prometheus_zfs_exporter.Nvlist.Reader.{Read}
use prometheus_zfs_exporter.Nvlist.Next.{next}
use prometheus_zfs_exporter.Nvlist.Access.{get_uint64}
use prometheus_zfs_exporter.Nvlist.Skip.{skip}
use prometheus_zfs_exporter.Ioctl.State.{pool_state_string}
use prometheus_zfs_exporter.Collector.Vdev.{Vdev, parse_vdevs}

-- Fuel for the loops over a reader: more than the bytes that it holds.
abbrev pub reader_fuel : Bytes → ℕ
reader_fuel bs = suc (length bs)

-- The local variables `state`, `errorCount` and `vdev`.
pub record PoolStats : Type 0 where
  pub state : Bytes
  pub error_count : ℕ
  pub vdev : Option Vdev

abbrev pub empty_stats : PoolStats
empty_stats = record { state = []; error_count = 0; vdev = none }

unfoldable pub read_state : PoolStats → NvType → Read PoolStats
read_state s token = do
  raise_if (not (token == type_uint64)) (message "invalid state")
  n ← get_uint64
  pure (record s { state = pool_state_string n })

unfoldable pub read_error_count : PoolStats → NvType → Read PoolStats
read_error_count s token = do
  raise_if (not (token == type_uint64)) (message "invalid error_count")
  n ← get_uint64
  pure (record s { error_count = n })

unfoldable pub read_vdev_tree : ℕ → PoolStats → NvType → Read PoolStats
read_vdev_tree f s token = do
  raise_if (not (token == type_nvlist)) (message "invalid vdev_tree")
  v ← parse_vdevs f
  pure (record s { vdev = some v })

unfoldable pub skip_pair : ℕ → PoolStats → NvType → Read PoolStats
skip_pair f s token =
    if token == type_nvlist || token == type_nvlist_array then (do skip f; pure s) else pure s

-- The body of the loop, at a pair of this name. (The source tests for "error_count" twice.)
unfoldable pub read_pool_pair : ℕ → PoolStats → NvType → Bytes → Read PoolStats
read_pool_pair f s token name =
    if equal name (codes "state")
    then read_state s token
    else if equal name (codes "error_count")
    then read_error_count s token
    else if equal name (codes "vdev_tree")
    then read_vdev_tree f s token
    else skip_pair f s token

unfoldable pub read_pool_stats : ℕ → PoolStats → Read PoolStats
read_pool_stats zero s r = (out_of_fuel, r)
read_pool_stats (suc f) s r =
    (do
      token ← until_eof next
      elim token [
        | none ↦ pure s
        | some t ↦ do
          name ← gets (λ r. r.name_bytes)
          later ← read_pool_pair f s t name
          read_pool_stats f later
      ])
      r
