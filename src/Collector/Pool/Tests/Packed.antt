-- ===== src/Collector/Pool/Tests/Packed.antt =====
-- The lists of a small pool, packed, and the theorems about reading them.
use prometheus_zfs_exporter.Base.{
  ◌<◌, ◌≡◌, refl, arith, List, [], ◌∷◌, ◌++◌, Bytes, All, codes, equal, not-equal→ne, length,
  replicate, ok, ◌≢◌, out_of_fuel, inl, inr,
}
use prometheus_zfs_exporter.Nvlist.Reader.{NvListReader, new_reader}
use prometheus_zfs_exporter.Collector.Vdev.Total.{parse_vdevs-fuel}
use prometheus_zfs_exporter.Collector.Pool.Stats.Total.{pool_stats-fuel}
use prometheus_zfs_exporter.Collector.Pool.Datasets.Total.{read_props-fuel}
use prometheus_zfs_exporter.Collector.Props.Values.Keys.{mountpoint-IsUnknown}
use prometheus_zfs_exporter.Nvlist.Types.{type_string, type_uint64, type_nvlist_array}
use prometheus_zfs_exporter.Nvlist.Format.{Pair, le_bytes, encode_pair, stream_header}
use prometheus_zfs_exporter.Nvlist.Format.Values.{le_words}
use prometheus_zfs_exporter.Nvlist.Format.Fresh.{begun, begun-Stands}
use prometheus_zfs_exporter.Nvlist.Format.Tree.{
  Items, leaf, done, more, is_leaf, encode_items, encode_lists, list, empty,
}
use prometheus_zfs_exporter.Collector.Vdev.{
  parse_vdevs_from, parse_vdevs, empty_info, nil as no_children,
}
use prometheus_zfs_exporter.Collector.Vdev.Encoded as Vdev
use prometheus_zfs_exporter.Collector.Vdev.Encoded.{
  Fields, encode_fields, encode_forest, encode_value, vdev_of, IsFields, is_done, is_more, is_kind,
  is_ident, is_place, is_numbers, is_children, is_other, is_bare, is_tree, single_leaf,
}
use prometheus_zfs_exporter.Collector.Vdev.Rounds.{Gives}
use prometheus_zfs_exporter.Collector.Vdev.Parse.{parse_vdevs-vdev_of}
use prometheus_zfs_exporter.Collector.Vdev.FirstList.{IsOther, parse_vdevs_from-first_list}
use prometheus_zfs_exporter.Nvlist.Format.SkipTree.{Stands}
use prometheus_zfs_exporter.Collector.Props.Values.Encoded as Props
use prometheus_zfs_exporter.Collector.Props.Values.Encoded.{value, other}
use prometheus_zfs_exporter.Collector.Props.Values.Listed.{Property, IsProperty, encode_properties}
use prometheus_zfs_exporter.Collector.Pool.{pool_stats}
use prometheus_zfs_exporter.Collector.Pool.Stats.{empty_stats}
use prometheus_zfs_exporter.Collector.Pool.Stats.Encoded as Encoded
use prometheus_zfs_exporter.Collector.Pool.Stats.Encoded.{
  PoolFields, encode_pool, apply_all, ArePoolFields,
}
use prometheus_zfs_exporter.Collector.Pool.Stats.Parse.{pool_stats-apply_all}
use prometheus_zfs_exporter.Collector.Pool.Datasets.{read_props}
use prometheus_zfs_exporter.Collector.Pool.Datasets.Response.{response}
use prometheus_zfs_exporter.Nvlist.Format.Tree as Tree

-- A pair that the exporter has no use for.
abbrev guid : Pair
guid = record { name = codes "guid"; ty = type_uint64; count = 1; payload = replicate 8 5 }

guid-IsField : Vdev.IsField (Vdev.other (leaf guid))
unfolding equal
guid-IsField =
    is_other (is_leaf (omega arith) (omega arith) (omega arith) (omega arith)) single_leaf (
      not-equal→ne (codes "guid") (codes "children") refl,
      not-equal→ne (codes "guid") (codes "type") refl,
      not-equal→ne (codes "guid") (codes "id") refl,
      not-equal→ne (codes "guid") (codes "path") refl,
      not-equal→ne (codes "guid") (codes "vdev_stats") refl,
    )

-- A disk, and the root with the disk below it.
abbrev disk : Fields
disk = Vdev.more (Vdev.kind (codes "disk")) (
    Vdev.more (Vdev.place (codes "/dev/sda")) (Vdev.more (Vdev.numbers (replicate 30 2)) Vdev.done))

abbrev pub root : Fields
root = Vdev.more (Vdev.kind (codes "root")) (
    Vdev.more (Vdev.ident 0) (
      Vdev.more (Vdev.other (leaf guid))
        (Vdev.more (Vdev.children (replicate 32 0) (Vdev.tree disk Vdev.bare)) Vdev.done)))

disk-IsFields : IsFields disk
unfolding le_bytes le_words
disk-IsFields = is_more (is_kind (omega arith) (omega arith)) (
    is_more (is_place (omega arith) (omega arith))
      (is_more (is_numbers (omega arith) (omega arith) (omega arith)) is_done))

root-IsFields : IsFields root
unfolding le_bytes
root-IsFields = is_more (is_kind (omega arith) (omega arith)) (
    is_more (is_ident (omega arith)) (
      is_more guid-IsField
        (is_more (is_children (omega arith) (is_tree disk-IsFields is_bare)) is_done)))

length-root : length (encode_fields root) < 900
unfolding encode_fields encode_pair le_bytes le_words
length-root = omega arith

abbrev pub rest : Bytes
rest = replicate 8 0

parse_vdevs-vdev_of_example :
    Gives
      (begun 0 0 (encode_fields root ++ rest))
      rest
      (vdev_of root)
      (parse_vdevs 900 (begun 0 0 (encode_fields root ++ rest)))
parse_vdevs-vdev_of_example =
    parse_vdevs-vdev_of root 900 (begun 0 0 (encode_fields root ++ rest)) rest root-IsFields
      length-root (begun-Stands 0 0 (encode_fields root ++ rest)) (omega arith)

-- The pool's statistics: its state, the error count and the vdevs.
abbrev pub pool_list : PoolFields
pool_list = Encoded.more (Encoded.state 0) (
    Encoded.more (Encoded.error_count 3)
      (Encoded.more (Encoded.vdev_tree (replicate 24 0) root) Encoded.done))

pub pool_list-ArePoolFields : ArePoolFields pool_list
unfolding le_bytes
pool_list-ArePoolFields = (omega arith, (omega arith, ((omega arith, root-IsFields), tt)))

abbrev pub stats_resp : Bytes
stats_resp = stream_header 0 0 ++ (encode_pool pool_list ++ rest)

pool_stats-apply_all_example : pool_stats stats_resp ≡ ok (apply_all pool_list empty_stats)
pool_stats-apply_all_example =
    pool_stats-apply_all 0 0 pool_list rest (omega arith) (omega arith) pool_list-ArePoolFields
      (omega arith)

pub length-stats_resp : length stats_resp < 2000
unfolding stream_header encode_pool encode_fields encode_pair le_bytes le_words
length-stats_resp = omega arith

-- A mount point, which is a string.
abbrev place : Pair
place = record {
  name = codes "value";
  ty = type_string;
  count = 1;
  payload = codes "/tank/a" ++ replicate 8 0;
}

-- A dataset that uses 4096 bytes.
abbrev pub properties : List Property
properties =
    record { name = codes "used"; count = 1; payload = replicate 24 0; fields = value 4096 ∷ [] }
    ∷ record {
      name = codes "mountpoint";
      count = 1;
      payload = replicate 24 0;
      fields = other place ∷ [];
    }
    ∷ []

pub properties-IsProperty : All IsProperty properties
properties-IsProperty = (
  (omega arith, (omega arith, tt)),
  ((omega arith, ((omega arith, omega arith, inr mountpoint-IsUnknown), tt)), tt),
)

abbrev pub props_resp : Bytes
props_resp = response 0 0 properties rest

pub length-props_resp : length props_resp < 2000
unfolding stream_header encode_properties Props.encode_fields encode_pair le_bytes
length-props_resp = omega arith

-- An array of two empty lists, say of spare disks.
abbrev spares : Pair
spares = record {
  name = codes "spares";
  ty = type_nvlist_array;
  count = 2;
  payload = replicate 64 0;
}

spares-IsOther : IsOther spares
unfolding equal
spares-IsOther = (
  not-equal→ne (codes "spares") (codes "children") refl,
  not-equal→ne (codes "spares") (codes "type") refl,
  not-equal→ne (codes "spares") (codes "id") refl,
  not-equal→ne (codes "spares") (codes "path") refl,
  not-equal→ne (codes "spares") (codes "vdev_stats") refl,
)

abbrev two_spares : Bytes
two_spares = encode_pair spares ++ (encode_lists (list done (list done empty)) ++ rest)

parse_vdevs_from-first_list_example :
    (t : NvListReader) × (parse_vdevs_from 10 (empty_info, no_children) (begun 0 0 two_spares)
      ≡ parse_vdevs_from 9 (empty_info, no_children) t)
    × Stands (encode_items done ++ (encode_lists empty ++ rest)) t
parse_vdevs_from-first_list_example =
    parse_vdevs_from-first_list spares done done empty 9 (empty_info, no_children)
      (begun 0 0 two_spares) rest (omega arith) refl spares-IsOther Tree.is_done
      (unfold encode_items le_bytes in omega arith) (begun-Stands 0 0 two_spares) (omega arith)

pool_stats-fuel_example : pool_stats stats_resp ≢ out_of_fuel
pool_stats-fuel_example = pool_stats-fuel stats_resp

-- A fresh reader on the response.
parse_vdevs_enough : (parse_vdevs 2000 (new_reader stats_resp)).0 ≢ out_of_fuel
parse_vdevs_enough =
    parse_vdevs-fuel 2000 (new_reader stats_resp)
      (record { started = inl refl; aligned_le = omega arith }) (omega arith)
      (omega (arith, length-stats_resp))

read_props-fuel_example : read_props props_resp ≢ out_of_fuel
read_props-fuel_example = read_props-fuel props_resp
