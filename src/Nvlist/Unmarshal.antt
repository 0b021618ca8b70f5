-- ===== src/Nvlist/Unmarshal.antt =====
-- zfs/nvlist/decode.go: `Unmarshal`, into a `map[string]any`. (Other variables are in Reflect.)
pub mod Encoded
pub mod Leaves
pub mod Fill
pub mod RoundTrip
pub mod Target
pub mod Total
pub mod Reflect
mod Tests
use prometheus_zfs_exporter.Base.{
  ℕ, zero, suc, Bool, true, false, ℤ, Option, none, some, List, Bytes, ◌==◌, equal, if◌then◌else◌,
  invalid_data, out_of_fuel, ok, Result, Method, continue, pure, raise, gets, modify, map, ◌>>=◌,
  ◌>>◌, until_eof,
}
use prometheus_zfs_exporter.Nvlist.Types.{
  NvType, type_unknown, type_boolean, type_byte, type_int16, type_uint16, type_int32, type_uint32,
  type_int64, type_uint64, type_string, type_byte_array, type_int16_array, type_uint16_array,
  type_int32_array, type_uint32_array, type_int64_array, type_uint64_array, type_string_array,
  type_nvlist, type_nvlist_array, type_boolean_value, type_int8, type_uint8, type_boolean_array,
  type_int8_array, type_uint8_array,
}
use prometheus_zfs_exporter.Nvlist.Reader.{NvListReader, Read, new_reader}
use prometheus_zfs_exporter.Nvlist.Next.{next}
use prometheus_zfs_exporter.Nvlist.Access.{
  get_name_bytes, get_num_elements, get_uint8, get_byte, get_int8, get_uint16, get_int16,
  get_uint32, get_int32, get_uint64, get_int64, get_uint8_array, get_uint16_array, get_uint32_array,
  get_uint64_array, get_int8_array, get_int16_array, get_int32_array, get_int64_array,
  get_byte_array, get_boolean, get_boolean_array, get_string, get_string_array,
}

-- The values that a `map[string]any` may get, by their Go types. A `byte` is a `uint8`.
mutual
  pub data Value : Type 0 where
    boolean : Bool → Value
    uint8 uint16 uint32 uint64 : ℕ → Value
    int8 int16 int32 int64 : ℤ → Value
    string : Bytes → Value
    booleans : List Bool → Value
    uint8s uint16s uint32s uint64s : List ℕ → Value
    int8s int16s int32s int64s : List ℤ → Value
    strings : List Bytes → Value
    submap : Entries → Value
    submaps : Maps → Value

  -- A map, as its entries.
  pub data Entries : Type 0 where
    no_entries : Entries
    entry : Bytes → Value → Entries → Entries

  -- A slice of maps.
  pub data Maps : Type 0 where
    no_maps : Maps
    one_map : Entries → Maps → Maps

-- `SetMapIndex`: the key's entry is replaced, or a new one made.
unfoldable pub set_map_index : Bytes → Value → Entries → Entries
set_map_index k v no_entries = entry k v no_entries
set_map_index k v (entry k' v' es) =
    if equal k k' then entry k v es else entry k' v' (set_map_index k v es)

-- `m[k]`
unfoldable pub map_index : Bytes → Entries → Option Value
map_index k no_entries = none
map_index k (entry k' v es) = if equal k k' then some v else map_index k es

-- `Unmarshal` changes the reader and the map that `v` refers to. Both keep their changes when an
-- error is returned.
pub record Filling : Type 0 where
  pub reader : NvListReader
  pub entries : Entries

abbrev pub Fill : Type 0 → Type 0
Fill = Method Filling

unfoldable pub on_reader : {A : Type 0} → Result A × NvListReader → Entries → Result A × Filling
on_reader (a, r) es = (a, record { reader = r; entries = es })

abbrev pub reading : {A : Type 0} → Read A → Fill A
reading m s = on_reader (m s.reader) s.entries

abbrev pub set_index : Bytes → Value → Fill (Unit {0})
set_index k v = modify (λ s. record s { entries = set_map_index k v s.entries })

-- The cases of the switch that give `setPrimitive` what an accessor returns.
unfoldable pub primitive : NvType → Option (Read Value)
primitive t =
    if t == type_boolean
    then some (pure (boolean true))
    else if t == type_int16
    then some (do pure (int16 (← get_int16)))
    else if t == type_uint16
    then some (do pure (uint16 (← get_uint16)))
    else if t == type_int32
    then some (do pure (int32 (← get_int32)))
    else if t == type_uint32
    then some (do pure (uint32 (← get_uint32)))
    else if t == type_int64
    then some (do pure (int64 (← get_int64)))
    else if t == type_uint64
    then some (do pure (uint64 (← get_uint64)))
    else if t == type_int8
    then some (do pure (int8 (← get_int8)))
    else if t == type_uint8
    then some (do pure (uint8 (← get_uint8)))
    else if t == type_byte
    then some (do pure (uint8 (← get_byte)))
    else if t == type_string
    then some (do pure (string (← get_string)))
    else if t == type_boolean_value
    then some (do pure (boolean (← get_boolean)))
    else if t == type_int8_array
    then some (do pure (int8s (← get_int8_array)))
    else if t == type_uint8_array
    then some (do pure (uint8s (← get_uint8_array)))
    else if t == type_int16_array
    then some (do pure (int16s (← get_int16_array)))
    else if t == type_uint16_array
    then some (do pure (uint16s (← get_uint16_array)))
    else if t == type_int32_array
    then some (do pure (int32s (← get_int32_array)))
    else if t == type_uint32_array
    then some (do pure (uint32s (← get_uint32_array)))
    else if t == type_int64_array
    then some (do pure (int64s (← get_int64_array)))
    else if t == type_uint64_array
    then some (do pure (uint64s (← get_uint64_array)))
    else if t == type_byte_array
    then some (do pure (uint8s (← get_byte_array)))
    else if t == type_string_array
    then some (do pure (strings (← get_string_array)))
    else if t == type_boolean_array
    then some (do pure (booleans (← get_boolean_array)))
    else none

-- `val := make(map[string]any); r.Unmarshal(val)`, `again` being the recursive call: the new map is
-- filled from the same reader.
unfoldable pub into_new_map : Fill (Unit {0}) → Fill Entries
into_new_map again s =
    let (r, t) = again (record { reader = s.reader; entries = no_entries }) in
    continue (λ _ u. (ok t.entries, u)) r (record s { reader = t.reader })

-- `for i := range n { val.Index(i).Set(make(map[string]any)); r.Unmarshal(val.Index(i)) }`
unfoldable pub into_new_maps : Fill (Unit {0}) → ℕ → Fill Maps
into_new_maps again zero s = (ok no_maps, s)
into_new_maps again (suc n) s =
    (do es ← into_new_map again; rest ← into_new_maps again n; pure (one_map es rest)) s

-- `setPrimitive`, of what an accessor returns. A type without a case of its own is passed over.
unfoldable pub set_primitive : Bytes → Option (Read Value) → Fill (Unit {0})
set_primitive name none s = (ok tt, s)
set_primitive name (some m) s = (do v ← reading m; set_index name v) s

-- What the loop's body does for a token, `again` being the recursive call.
unfoldable pub unmarshal_value : Fill (Unit {0}) → NvType → Bytes → Fill (Unit {0})
unmarshal_value again t name =
    if t == type_unknown
    then raise invalid_data
    else if t == type_nvlist
    then (do es ← into_new_map again; set_index name (submap es))
    else if t == type_nvlist_array
    then (do n ← reading get_num_elements; ms ← into_new_maps again n; set_index name (submaps ms))
    else set_primitive name (primitive t)

-- A unit of fuel for each call and each round of the loop.
unfoldable pub unmarshal : ℕ → Fill (Unit {0})
unmarshal zero s = (out_of_fuel, s)
unmarshal (suc f) s =
    (do
      token ← until_eof (reading next)
      elim token [
        | none ↦ pure tt
        | some t ↦ do unmarshal_value (unmarshal f) t (← reading get_name_bytes); unmarshal f
      ])
      s

-- The function `Unmarshal` of the package, on an empty map.
abbrev pub unmarshal_bytes : ℕ → Bytes → Result (Unit {0}) × Filling
unmarshal_bytes f bs = unmarshal f (record { reader = new_reader bs; entries = no_entries })
