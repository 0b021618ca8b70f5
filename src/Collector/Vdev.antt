-- ===== src/Collector/Vdev.antt =====
-- main.go: the tree of a pool's virtual devices, and how it is read.
pub mod Stats
pub mod Total
pub mod Encoded
pub mod Rounds
pub mod Parse
pub mod FirstList
use prometheus_zfs_exporter.Base.{
  ℕ, zero, suc, ◌+◌, ◌-◌, ◌%◌, ◌^◌, none, some, not, ◌||◌, List, [], ◌∷◌, Bytes, codes, equal,
  get_elem?, ◌==◌, if◌then◌else◌, message, ok, panicked, out_of_fuel, index_range, pure, gets,
  ◌>>=◌, ◌>>◌, raise_if, until_eof,
}
use prometheus_zfs_exporter.Nvlist.Types.{
  NvType, type_uint64, type_uint64_array, type_string, type_nvlist, type_nvlist_array,
}
use prometheus_zfs_exporter.Nvlist.Reader.{Read}
use prometheus_zfs_exporter.Nvlist.Next.{next}
use prometheus_zfs_exporter.Nvlist.Access.{get_uint64, get_string, get_uint64_array, repeat_into}
use prometheus_zfs_exporter.Nvlist.Skip.{skip}
use prometheus_zfs_exporter.Ioctl.VdevStats as Offset
use prometheus_zfs_exporter.Ioctl.State.{vdev_state_string}

pub record VdevStats : Type 0 where
  pub alloc : ℕ
  pub free : ℕ
  pub size : ℕ
  pub read_operations : ℕ
  pub bytes_read : ℕ
  pub read_errors : ℕ
  pub write_operations : ℕ
  pub bytes_written : ℕ
  pub write_errors : ℕ
  pub checksum_errors : ℕ
  pub fragmentation : ℕ
  pub state : Bytes

-- The fields of `vdev` but its children.
pub record VdevInfo : Type 0 where
  pub vdev_type : Bytes
  pub id : ℕ
  pub path : Bytes
  pub stats : VdevStats

-- A `vdev`, and the slice of its children.
mutual
  pub data Vdev : Type 0 where
    node : VdevInfo → Vdevs → Vdev

  pub data Vdevs : Type 0 where
    nil : Vdevs
    cons : Vdev → Vdevs → Vdevs

abbrev pub empty_info : VdevInfo
empty_info = record {
  vdev_type = [];
  id = 0;
  path = [];
  stats = record {
    alloc = 0;
    free = 0;
    size = 0;
    read_operations = 0;
    bytes_read = 0;
    read_errors = 0;
    write_operations = 0;
    bytes_written = 0;
    write_errors = 0;
    checksum_errors = 0;
    fragmentation = 0;
    state = [];
  };
}

-- `vdevStats[i]`, which panics out of range.
unfoldable pub stat_at : List ℕ → ℕ → Read ℕ
stat_at stats i r = elim (get_elem? stats i) [
  | some v ↦ (ok v, r)
  | none ↦ (panicked index_range, r)
]

-- `uint64` subtraction.
abbrev pub sub64 : ℕ → ℕ → ℕ
sub64 a b = (a + 2 ^ 64 - b) % 2 ^ 64

-- `parseVdevStats`
unfoldable pub parse_vdev_stats : List ℕ → Read VdevStats
parse_vdev_stats stats = do
  alloc ← stat_at stats Offset.alloc
  space ← stat_at stats Offset.space
  read_operations ← stat_at stats Offset.ops_read
  bytes_read ← stat_at stats Offset.bytes_read
  read_errors ← stat_at stats Offset.read_errors
  write_operations ← stat_at stats Offset.ops_write
  bytes_written ← stat_at stats Offset.bytes_write
  write_errors ← stat_at stats Offset.write_errors
  checksum_errors ← stat_at stats Offset.checksum_errors
  fragmentation ← stat_at stats Offset.fragmentation
  state ← stat_at stats Offset.state
  aux ← stat_at stats Offset.aux
  pure (record {
    alloc = alloc;
    free = sub64 space alloc;
    size = space;
    read_operations = read_operations;
    bytes_read = bytes_read;
    read_errors = read_errors;
    write_operations = write_operations;
    bytes_written = bytes_written;
    write_errors = write_errors;
    checksum_errors = checksum_errors;
    fragmentation = fragmentation;
    state = vdev_state_string state aux;
  })

-- `append(vdev.children, child)` for each child that was read.
unfoldable pub append_children : Vdevs → List Vdev → Vdevs
append_children nil [] = nil
append_children nil (v ∷ vs) = cons v (append_children nil vs)
append_children (cons w ws) vs = cons w (append_children ws vs)

-- What the loop has read so far.
abbrev pub Partial : Type 0
Partial = VdevInfo × Vdevs

-- The branches of the chain in `parseVdevs`, each with its check of the token.
unfoldable pub read_children : Read Vdev → Partial → NvType → Read Partial
read_children child (info, vs) token = do
  raise_if (not (token == type_nvlist_array)) (message "invalid children")
  n ← gets (λ r. r.num_elements)
  new ← repeat_into n child
  pure (info, append_children vs new)

unfoldable pub read_type : Partial → NvType → Read Partial
read_type (info, vs) token = do
  raise_if (not (token == type_string)) (message "invalid type")
  s ← get_string
  pure (record info { vdev_type = s }, vs)

unfoldable pub read_id : Partial → NvType → Read Partial
read_id (info, vs) token = do
  raise_if (not (token == type_uint64)) (message "invalid type")
  n ← get_uint64
  pure (record info { id = n }, vs)

unfoldable pub read_path : Partial → NvType → Read Partial
read_path (info, vs) token = do
  raise_if (not (token == type_string)) (message "invalid type")
  s ← get_string
  pure (record info { path = s }, vs)

unfoldable pub read_stats : Partial → NvType → Read Partial
read_stats (info, vs) token = do
  raise_if (not (token == type_uint64_array)) (message "invalid vdev_stats")
  array ← get_uint64_array
  stats ← parse_vdev_stats array
  pure (record info { stats = stats }, vs)

unfoldable pub skip_other : Read (Unit {0}) → Partial → NvType → Read Partial
skip_other skip_list so_far token =
    if token == type_nvlist || token == type_nvlist_array
    then (do skip_list; pure so_far)
    else pure so_far

-- The body of the loop, at a pair of this name; `child` is the recursive call.
unfoldable pub read_vdev_pair :
    Read Vdev → Read (Unit {0}) → Partial → NvType → Bytes → Read Partial
read_vdev_pair child skip_list so_far token name =
    if equal name (codes "children")
    then read_children child so_far token
    else if equal name (codes "type")
    then read_type so_far token
    else if equal name (codes "id")
    then read_id so_far token
    else if equal name (codes "path")
    then read_path so_far token
    else if equal name (codes "vdev_stats")
    then read_stats so_far token
    else skip_other skip_list so_far token

-- The loop of `parseVdevs`. A unit of fuel for each call and each round.
unfoldable pub parse_vdevs_from : ℕ → Partial → Read Vdev
parse_vdevs_from zero so_far r = (out_of_fuel, r)
parse_vdevs_from (suc f) so_far r =
    (do
      token ← until_eof next
      elim token [
        | none ↦ pure (node so_far.0 so_far.1)
        | some t ↦ do
          name ← gets (λ r. r.name_bytes)
          later ← read_vdev_pair (parse_vdevs_from f (empty_info, nil)) (skip f) so_far t name
          parse_vdevs_from f later
      ])
      r

abbrev pub parse_vdevs : ℕ → Read Vdev
parse_vdevs f = parse_vdevs_from f (empty_info, nil)
