-- ===== src/Nvlist/Unmarshal/Encoded.antt =====
-- Which list of pairs in native encoding stands for which `map[string]any`.
use prometheus_zfs_exporter.Base.{
  ℤ, map, ◌∷◌, ℕ, ◌^◌, ◌<◌, List, ◌≡◌, ◌≢◌, ◌⊎◌, Bool, true, false, ◌++◌, Bytes, All, length, arith,
}
use prometheus_zfs_exporter.Nvlist.Types.{
  type_unknown, type_boolean, type_uint16, type_uint32, type_uint64, type_string, type_hrtime,
  type_nvlist, type_nvlist_array, type_boolean_value, type_uint64_array, type_double, type_byte,
  type_uint8, type_int8, type_int16, type_int32, type_int64, type_byte_array, type_uint8_array,
  type_uint16_array, type_uint32_array, type_int8_array, type_int16_array, type_int32_array,
  type_int64_array,
}
use prometheus_zfs_exporter.Nvlist.Format.{Pair, IsPair, le_bytes}
use prometheus_zfs_exporter.Nvlist.Format.Values.{string_payload}
use prometheus_zfs_exporter.Nvlist.Format.Signed.{twos, InHalf}
use prometheus_zfs_exporter.Nvlist.Format.Arrays.{le_array}
use prometheus_zfs_exporter.Nvlist.Format.Tree.{
  Item, Items, Lists, leaf, nested, array, done, more, empty, list, count_lists, pair_of,
}
use prometheus_zfs_exporter.Nvlist.Unmarshal.{
  Value, boolean, uint8, int8, int16, int32, int64, uint16, uint32, uint64, string, uint8s, int8s,
  uint16s, int16s, uint32s, int32s, int64s, uint64s, submap, submaps, Entries, no_entries, entry,
  Maps, no_maps, one_map, set_map_index,
}

abbrev pub bit : Bool → ℕ
bit true = 1
bit false = 0

-- The second map's entries set in the first, one by one.
unfoldable pub set_all : Entries → Entries → Entries
set_all into no_entries = into
set_all into (entry k v es) = set_all (set_map_index k v into) es

-- A pair without lists, and its value: numbers and arrays may be followed by padding, and that of a
-- byte array counts as bytes of it. Arrays of strings and of booleans are left out.
pub data IsLeaf : Pair → Value → Type 0 where
  is_flag : {p : Pair} → p.ty ≡ type_boolean → IsLeaf p (boolean true)
  is_boolean :
      {p : Pair} {b : Bool} (pad : Bytes)
      → p.ty ≡ type_boolean_value
      → p.payload ≡ le_bytes 4 (bit b) ++ pad
      → IsLeaf p (boolean b)
  is_byte :
      {p : Pair} {n : ℕ} (pad : Bytes) → p.ty ≡ type_byte → p.payload ≡ n ∷ pad → IsLeaf p (uint8 n)
  is_uint8 :
      {p : Pair} {n : ℕ} (pad : Bytes)
      → p.ty ≡ type_uint8
      → p.payload ≡ n ∷ pad
      → IsLeaf p (uint8 n)
  is_int8 :
      {p : Pair} {z : ℤ} (pad : Bytes)
      → p.ty ≡ type_int8
      → p.payload ≡ twos (2 ^ 8) z ∷ pad
      → InHalf (2 ^ 7) z
      → IsLeaf p (int8 z)
  is_uint16 :
      {p : Pair} {n : ℕ} (pad : Bytes)
      → p.ty ≡ type_uint16
      → p.payload ≡ le_bytes 2 n ++ pad
      → n < 2 ^ 16
      → IsLeaf p (uint16 n)
  is_int16 :
      {p : Pair} {z : ℤ} (pad : Bytes)
      → p.ty ≡ type_int16
      → p.payload ≡ le_bytes 2 (twos (2 ^ 16) z) ++ pad
      → InHalf (2 ^ 15) z
      → IsLeaf p (int16 z)
  is_uint32 :
      {p : Pair} {n : ℕ} (pad : Bytes)
      → p.ty ≡ type_uint32
      → p.payload ≡ le_bytes 4 n ++ pad
      → n < 2 ^ 32
      → IsLeaf p (uint32 n)
  is_int32 :
      {p : Pair} {z : ℤ} (pad : Bytes)
      → p.ty ≡ type_int32
      → p.payload ≡ le_bytes 4 (twos (2 ^ 32) z) ++ pad
      → InHalf (2 ^ 31) z
      → IsLeaf p (int32 z)
  is_uint64 :
      {p : Pair} {n : ℕ} (pad : Bytes)
      → p.ty ≡ type_uint64
      → p.payload ≡ le_bytes 8 n ++ pad
      → n < 2 ^ 64
      → IsLeaf p (uint64 n)
  is_int64 :
      {p : Pair} {z : ℤ} (pad : Bytes)
      → p.ty ≡ type_int64
      → p.payload ≡ le_bytes 8 (twos (2 ^ 64) z) ++ pad
      → InHalf (2 ^ 63) z
      → IsLeaf p (int64 z)
  is_string :
      {p : Pair} {str : Bytes}
      → p.ty ≡ type_string
      → p.payload ≡ string_payload str
      → All (λ c. c ≢ 0) str
      → IsLeaf p (string str)
  is_bytes : {p : Pair} → p.ty ≡ type_byte_array → IsLeaf p (uint8s p.payload)
  is_uint8s :
      {p : Pair} {ns : List ℕ} (pad : Bytes)
      → p.ty ≡ type_uint8_array
      → p.payload ≡ le_array 1 ns ++ pad
      → p.count ≡ length ns
      → All (λ n. n < 2 ^ 8) ns
      → IsLeaf p (uint8s ns)
  is_int8s :
      {p : Pair} {zs : List ℤ} (pad : Bytes)
      → p.ty ≡ type_int8_array
      → p.payload ≡ le_array 1 (map (twos (2 ^ 8)) zs) ++ pad
      → p.count ≡ length zs
      → All (InHalf (2 ^ 7)) zs
      → IsLeaf p (int8s zs)
  is_uint16s :
      {p : Pair} {ns : List ℕ} (pad : Bytes)
      → p.ty ≡ type_uint16_array
      → p.payload ≡ le_array 2 ns ++ pad
      → p.count ≡ length ns
      → All (λ n. n < 2 ^ 16) ns
      → IsLeaf p (uint16s ns)
  is_int16s :
      {p : Pair} {zs : List ℤ} (pad : Bytes)
      → p.ty ≡ type_int16_array
      → p.payload ≡ le_array 2 (map (twos (2 ^ 16)) zs) ++ pad
      → p.count ≡ length zs
      → All (InHalf (2 ^ 15)) zs
      → IsLeaf p (int16s zs)
  is_uint32s :
      {p : Pair} {ns : List ℕ} (pad : Bytes)
      → p.ty ≡ type_uint32_array
      → p.payload ≡ le_array 4 ns ++ pad
      → p.count ≡ length ns
      → All (λ n. n < 2 ^ 32) ns
      → IsLeaf p (uint32s ns)
  is_int32s :
      {p : Pair} {zs : List ℤ} (pad : Bytes)
      → p.ty ≡ type_int32_array
      → p.payload ≡ le_array 4 (map (twos (2 ^ 32)) zs) ++ pad
      → p.count ≡ length zs
      → All (InHalf (2 ^ 31)) zs
      → IsLeaf p (int32s zs)
  is_uint64s :
      {p : Pair} {ns : List ℕ} (pad : Bytes)
      → p.ty ≡ type_uint64_array
      → p.payload ≡ le_array 8 ns ++ pad
      → p.count ≡ length ns
      → All (λ n. n < 2 ^ 64) ns
      → IsLeaf p (uint64s ns)
  is_int64s :
      {p : Pair} {zs : List ℤ} (pad : Bytes)
      → p.ty ≡ type_int64_array
      → p.payload ≡ le_array 8 (map (twos (2 ^ 64)) zs) ++ pad
      → p.count ≡ length zs
      → All (InHalf (2 ^ 63)) zs
      → IsLeaf p (int64s zs)

-- An item and the value it stands for; the entries of a list, in its order; the maps of an array.
-- In a map that a list stands for, the last of several pairs of one name counts.
mutual
  pub data Encodes : Item → Value → Type 0 where
    as_leaf : {p : Pair} {v : Value} → IsPair p → IsLeaf p v → Encodes (leaf p) v
    as_map :
        {p : Pair} {items : Items} {es : Entries}
        → IsPair p
        → p.ty ≡ type_nvlist
        → EncodesAll items es
        → Encodes (nested p items) (submap (set_all no_entries es))
    as_maps :
        {p : Pair} {lists : Lists} {ms : Maps}
        → IsPair p
        → p.ty ≡ type_nvlist_array
        → p.count ≡ count_lists lists
        → EncodesLists lists ms
        → Encodes (array p lists) (submaps ms)

  pub data EncodesAll : Items → Entries → Type 0 where
    as_done : EncodesAll done no_entries
    as_more :
        {item : Item} {v : Value} {items : Items} {es : Entries}
        → Encodes item v
        → EncodesAll items es
        → EncodesAll (more item items) (entry (pair_of item).name v es)
    as_ignored :
        {p : Pair} {items : Items} {es : Entries}
        → IsPair p
        → (p.ty ≡ type_hrtime) ⊎ (p.ty ≡ type_double)
        → EncodesAll items es
        → EncodesAll (more (leaf p) items) es

  pub data EncodesLists : Lists → Maps → Type 0 where
    as_empty : EncodesLists empty no_maps
    as_list :
        {items : Items} {es : Entries} {lists : Lists} {ms : Maps}
        → EncodesAll items es
        → EncodesLists lists ms
        → EncodesLists (list items lists) (one_map (set_all no_entries es) ms)

-- The tests before the switch's other cases fail for it, and `Next` has no extra step.
pub IsLeaf-other :
    {p : Pair} {v : Value}
    → IsLeaf p v
    → ((p.ty ≢ type_unknown) × (p.ty ≢ type_nvlist)) × ((p.ty ≢ type_nvlist_array) × (p.ty ≢ 17))
IsLeaf-other (is_flag e) = ((omega arith, omega arith), (omega arith, omega arith))
IsLeaf-other (is_boolean _ e h) = ((omega arith, omega arith), (omega arith, omega arith))
IsLeaf-other (is_byte _ e h) = ((omega arith, omega arith), (omega arith, omega arith))
IsLeaf-other (is_uint8 _ e h) = ((omega arith, omega arith), (omega arith, omega arith))
IsLeaf-other (is_int8 _ e h l) = ((omega arith, omega arith), (omega arith, omega arith))
IsLeaf-other (is_uint16 _ e h l) = ((omega arith, omega arith), (omega arith, omega arith))
IsLeaf-other (is_int16 _ e h l) = ((omega arith, omega arith), (omega arith, omega arith))
IsLeaf-other (is_uint32 _ e h l) = ((omega arith, omega arith), (omega arith, omega arith))
IsLeaf-other (is_int32 _ e h l) = ((omega arith, omega arith), (omega arith, omega arith))
IsLeaf-other (is_uint64 _ e h l) = ((omega arith, omega arith), (omega arith, omega arith))
IsLeaf-other (is_int64 _ e h l) = ((omega arith, omega arith), (omega arith, omega arith))
IsLeaf-other (is_string e h l) = ((omega arith, omega arith), (omega arith, omega arith))
IsLeaf-other (is_bytes e) = ((omega arith, omega arith), (omega arith, omega arith))
IsLeaf-other (is_uint8s _ e h c l) = ((omega arith, omega arith), (omega arith, omega arith))
IsLeaf-other (is_int8s _ e h c l) = ((omega arith, omega arith), (omega arith, omega arith))
IsLeaf-other (is_uint16s _ e h c l) = ((omega arith, omega arith), (omega arith, omega arith))
IsLeaf-other (is_int16s _ e h c l) = ((omega arith, omega arith), (omega arith, omega arith))
IsLeaf-other (is_uint32s _ e h c l) = ((omega arith, omega arith), (omega arith, omega arith))
IsLeaf-other (is_int32s _ e h c l) = ((omega arith, omega arith), (omega arith, omega arith))
IsLeaf-other (is_uint64s _ e h c l) = ((omega arith, omega arith), (omega arith, omega arith))
IsLeaf-other (is_int64s _ e h c l) = ((omega arith, omega arith), (omega arith, omega arith))

pub Encodes-IsPair : {i : Item} {v : Value} → Encodes i v → IsPair (pair_of i)
Encodes-IsPair (as_leaf h l) = h
Encodes-IsPair (as_map h e l) = h
Encodes-IsPair (as_maps h e c l) = h

pub Encodes-plain : {i : Item} {v : Value} → Encodes i v → (pair_of i).ty ≢ 17
Encodes-plain (as_leaf h l) = (IsLeaf-other l).1.1
Encodes-plain (as_map h e l) = omega arith
Encodes-plain (as_maps h e c l) = omega arith
