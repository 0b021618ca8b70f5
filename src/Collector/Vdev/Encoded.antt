-- ===== src/Collector/Vdev/Encoded.antt =====
-- The kernel's description of a vdev as a list in native encoding, and the tree that it stands for.
use prometheus_zfs_exporter.Base.{
  ℕ, suc, ◌^◌, ◌<◌, ◌≢◌, List, [], ◌∷◌, ◌++◌, Bytes, All, codes, length,
}
use prometheus_zfs_exporter.Nvlist.Types.{
  type_uint64, type_uint64_array, type_string, type_nvlist_array,
}
use prometheus_zfs_exporter.Nvlist.Format.{Pair, IsPair, le_bytes, encode_pair, terminator}
use prometheus_zfs_exporter.Nvlist.Format.Values.{string_payload, le_words}
use prometheus_zfs_exporter.Nvlist.Format.Tree.{
  Item, pair_of, value_of, IsItem, leaf, nested, array, Items, list, empty,
}
use prometheus_zfs_exporter.Ioctl.Cmd.Names.{NoNull}
use prometheus_zfs_exporter.Collector.Vdev.{Vdev, node, nil, empty_info, append_children, Partial}
use prometheus_zfs_exporter.Collector.Vdev.Stats.{stats_of}

-- A pair of the list: those that the exporter reads, and any other. A pair of children has a payload
-- of its own, the kernel's headers of the lists behind it.
mutual
  pub data Field : Type 0 where
    kind : Bytes → Field
    ident : ℕ → Field
    place : Bytes → Field
    numbers : List ℕ → Field
    children : Bytes → Forest → Field
    other : Item → Field

  pub data Fields : Type 0 where
    done : Fields
    more : Field → Fields → Fields

  pub data Forest : Type 0 where
    bare : Forest
    tree : Fields → Forest → Forest

abbrev pub count_trees : Forest → ℕ
count_trees bare = 0
count_trees (tree _ ts) = suc (count_trees ts)

abbrev pub field_pair : Field → Pair
field_pair (kind s) = record {
  name = codes "type";
  ty = type_string;
  count = 1;
  payload = string_payload s;
}
field_pair (ident n) = record {
  name = codes "id";
  ty = type_uint64;
  count = 1;
  payload = le_bytes 8 n;
}
field_pair (place s) = record {
  name = codes "path";
  ty = type_string;
  count = 1;
  payload = string_payload s;
}
field_pair (numbers vs) = record {
  name = codes "vdev_stats";
  ty = type_uint64_array;
  count = length vs;
  payload = le_words vs;
}
field_pair (children headers ts) = record {
  name = codes "children";
  ty = type_nvlist_array;
  count = count_trees ts;
  payload = headers;
}
field_pair (other i) = pair_of i

unfoldable mutual
  pub encode_value : Field → Bytes
  encode_value (kind s) = []
  encode_value (ident n) = []
  encode_value (place s) = []
  encode_value (numbers vs) = []
  encode_value (children headers ts) = encode_forest ts
  encode_value (other i) = value_of i

  pub encode_fields : Fields → Bytes
  encode_fields done = terminator
  encode_fields (more x xs) = encode_pair (field_pair x) ++ (encode_value x ++ encode_fields xs)

  pub encode_forest : Forest → Bytes
  encode_forest bare = []
  encode_forest (tree xs ts) = encode_fields xs ++ encode_forest ts

-- What a pair says of the vdev, after the pairs before it; and the vdev that a list stands for.
unfoldable mutual
  pub apply : Field → Partial → Partial
  apply (kind s) (info, vs) = (record info { vdev_type = s }, vs)
  apply (ident n) (info, vs) = (record info { id = n }, vs)
  apply (place s) (info, vs) = (record info { path = s }, vs)
  apply (numbers ns) (info, vs) = (record info { stats = stats_of ns }, vs)
  apply (children headers ts) (info, vs) = (info, append_children vs (vdevs_of ts))
  apply (other i) so_far = so_far

  pub apply_all : Fields → Partial → Partial
  apply_all done so_far = so_far
  apply_all (more x xs) so_far = apply_all xs (apply x so_far)

  pub vdevs_of : Forest → List Vdev
  vdevs_of bare = []
  vdevs_of (tree xs ts) =
      node (apply_all xs (empty_info, nil)).0 (apply_all xs (empty_info, nil)).1 ∷ vdevs_of ts

abbrev pub vdev_of : Fields → Vdev
vdev_of xs = node (apply_all xs (empty_info, nil)).0 (apply_all xs (empty_info, nil)).1

-- A name that `parseVdevs` has no use for.
abbrev pub IsOtherName : Bytes → Type 0
IsOtherName name =
    (name ≢ codes "children")
    × (name ≢ codes "type")
    × (name ≢ codes "id")
    × (name ≢ codes "path")
    × (name ≢ codes "vdev_stats")

-- No array, or one of a single list: `parseVdevs` passes one list of an array.
pub data IsSingle : Item → Type 0 where
  single_leaf : {p : Pair} → IsSingle (leaf p)
  single_nested : {p : Pair} {items : Items} → IsSingle (nested p items)
  single_array : {p : Pair} {items : Items} → IsSingle (array p (list items empty))

mutual
  pub data IsField : Field → Type 0 where
    is_kind : {s : Bytes} → IsPair (field_pair (kind s)) → NoNull s → IsField (kind s)
    is_ident : {n : ℕ} → n < 2 ^ 64 → IsField (ident n)
    is_place : {s : Bytes} → IsPair (field_pair (place s)) → NoNull s → IsField (place s)
    is_numbers :
        {vs : List ℕ}
        → IsPair (field_pair (numbers vs))
        → All (λ v. v < 2 ^ 64) vs
        → 28 < length vs
        → IsField (numbers vs)
    is_children :
        {headers : Bytes} {ts : Forest}
        → IsPair (field_pair (children headers ts))
        → IsForest ts
        → IsField (children headers ts)
    is_other : {i : Item} → IsItem i → IsSingle i → IsOtherName (pair_of i).name → IsField (other i)

  pub data IsFields : Fields → Type 0 where
    is_done : IsFields done
    is_more : {x : Field} {xs : Fields} → IsField x → IsFields xs → IsFields (more x xs)

  pub data IsForest : Forest → Type 0 where
    is_bare : IsForest bare
    is_tree : {xs : Fields} {ts : Forest} → IsFields xs → IsForest ts → IsForest (tree xs ts)
