-- ===== src/Collector/Pool/Stats/Encoded.antt =====
-- main.go: what `handlePool` reads of the response to `ZFS_IOC_POOL_STATS`.
use prometheus_zfs_exporter.Base.{ℕ, ◌^◌, ◌<◌, ◌≢◌, some, [], ◌++◌, Bytes, codes}
use prometheus_zfs_exporter.Nvlist.Types.{type_uint64, type_nvlist}
use prometheus_zfs_exporter.Nvlist.Format.{Pair, IsPair, le_bytes, encode_pair, terminator}
use prometheus_zfs_exporter.Nvlist.Format.Tree.{Item, pair_of, value_of, IsItem}
use prometheus_zfs_exporter.Ioctl.State.{pool_state_string}
use prometheus_zfs_exporter.Collector.Vdev.Encoded.{
  Fields, encode_fields, vdev_of, IsFields, IsSingle,
}
use prometheus_zfs_exporter.Collector.Pool.Stats.{PoolStats}

-- A pair of the pool's list.
pub data PoolField : Type 0 where
  state : ℕ → PoolField
  error_count : ℕ → PoolField
  vdev_tree : Bytes → Fields → PoolField
  other : Item → PoolField

pub data PoolFields : Type 0 where
  done : PoolFields
  more : PoolField → PoolFields → PoolFields

abbrev pub field_pair : PoolField → Pair
field_pair (state n) = record {
  name = codes "state";
  ty = type_uint64;
  count = 1;
  payload = le_bytes 8 n;
}
field_pair (error_count n) = record {
  name = codes "error_count";
  ty = type_uint64;
  count = 1;
  payload = le_bytes 8 n;
}
field_pair (vdev_tree header xs) = record {
  name = codes "vdev_tree";
  ty = type_nvlist;
  count = 1;
  payload = header;
}
field_pair (other i) = pair_of i

abbrev pub encode_value : PoolField → Bytes
encode_value (state n) = []
encode_value (error_count n) = []
encode_value (vdev_tree header xs) = encode_fields xs
encode_value (other i) = value_of i

unfoldable pub encode_pool : PoolFields → Bytes
encode_pool done = terminator
encode_pool (more x xs) = encode_pair (field_pair x) ++ (encode_value x ++ encode_pool xs)

-- What the list says of the pool: a later pair of a name replaces an earlier one.
abbrev pub apply : PoolField → PoolStats → PoolStats
apply (state n) s = record s { state = pool_state_string n }
apply (error_count n) s = record s { error_count = n }
apply (vdev_tree header xs) s = record s { vdev = some (vdev_of xs) }
apply (other i) s = s

abbrev pub apply_all : PoolFields → PoolStats → PoolStats
apply_all done s = s
apply_all (more x xs) s = apply_all xs (apply x s)

abbrev pub IsPoolField : PoolField → Type 0
IsPoolField (state n) = n < 2 ^ 64
IsPoolField (error_count n) = n < 2 ^ 64
IsPoolField (vdev_tree header xs) = IsPair (field_pair (vdev_tree header xs)) × IsFields xs
IsPoolField (other i) =
    IsItem i
    × IsSingle i
    × ((pair_of i).name ≢ codes "state")
    × ((pair_of i).name ≢ codes "error_count")
    × ((pair_of i).name ≢ codes "vdev_tree")

abbrev pub ArePoolFields : PoolFields → Type 0
ArePoolFields done = Unit
ArePoolFields (more x xs) = IsPoolField x × ArePoolFields xs
