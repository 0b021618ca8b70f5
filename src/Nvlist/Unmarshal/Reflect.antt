-- ===== src/Nvlist/Unmarshal/Reflect.antt =====
-- zfs/nvlist/decode.go: `Unmarshal` into any variable, struct or map, through reflection.
pub mod Stores
pub mod Struct
pub mod Stream
pub mod Reaches
pub mod Enters
pub mod Total
mod Tests
use prometheus_zfs_exporter.Base.{
  ℕ, zero, suc, Bool, true, false, Option, none, some, Bytes, ◌==◌, if◌then◌else◌, invalid_data,
  message, Result, ok, err, panicked, out_of_fuel, not_assignable, Method, continue, pure, raise,
  ◌>>=◌, ◌>>◌, until_eof,
}
use prometheus_zfs_exporter.Nvlist.Types.{NvType, type_unknown, type_nvlist, type_nvlist_array}
use prometheus_zfs_exporter.Nvlist.Reader.{NvListReader, Read, new_reader}
use prometheus_zfs_exporter.Nvlist.Next.{next}
use prometheus_zfs_exporter.Nvlist.Access.{get_name_bytes, get_num_elements}
use prometheus_zfs_exporter.Nvlist.Unmarshal.{
  Value, submap, submaps, Entries, no_entries, Maps, Filling, Fill, primitive, into_new_maps,
  unmarshal,
}
use prometheus_zfs_exporter.Nvlist.Unmarshal.Target.{
  GoType, any_type, any_map_type, other_type, basic_type, struct_type, map_type, pointer_type,
  Target, any_at, any_map_at, other_at, basic_at, struct_at, map_at, pointer_to, nil_pointer,
  Fields, Cells, no_cells, zero_of, zero_fields, field_at, put_field, assign, put_index,
  set_index_of,
}

-- `Unmarshal` changes the reader and the variable that `v` refers to. Both keep their changes when
-- an error is returned.
pub record Storing : Type 0 where
  pub reader : NvListReader
  pub target : Target

abbrev pub Store : Type 0 → Type 0
Store = Method Storing

unfoldable pub on_source : {A : Type 0} → Target → Result A × NvListReader → Result A × Storing
on_source t (a, r) = (a, record { reader = r; target = t })

abbrev pub sourcing : {A : Type 0} → Read A → Store A
sourcing m s = on_source s.target (m s.reader)

-- The outcome of a call on a part of the variable, put back into the whole.
abbrev pub within : {A : Type 0} → (Target → Target) → Result A × Storing → Result A × Storing
within put (a, s) = (a, record { reader = s.reader; target = put s.target })

-- The outcome of a call on a `map[string]any`.
abbrev pub within_map : {A : Type 0} → (Entries → Target) → Result A × Filling → Result A × Storing
within_map put (a, s) = (a, record { reader = s.reader; target = put s.entries })

-- A store that may panic.
abbrev pub stored : NvListReader → Target → Result Target → Result (Unit {0}) × Storing
stored r old (ok t) = (ok tt, record { reader = r; target = t })
stored r old (err e) = (err e, record { reader = r; target = old })
stored r old (panicked c) = (panicked c, record { reader = r; target = old })
stored r old out_of_fuel = (out_of_fuel, record { reader = r; target = old })

-- A value into a field that can be set, and nowhere if there is none.
abbrev pub field_set :
    NvListReader → Bytes → Value → Fields → Option Target → Result (Unit {0}) × Storing
field_set r name v fs none = (ok tt, record { reader = r; target = struct_at fs })
field_set r name v fs (some t) =
    within (λ t'. struct_at (put_field name t' fs)) (stored r t (assign v t))

-- `setPrimitive`: into the field of the name if it can be set, or under the key.
unfoldable pub set_value : Bool → Bytes → Value → Store (Unit {0})
set_value settable name v s = elim s.target [
  | struct_at fs ↦ field_set s.reader name v fs (field_at settable name fs)
  | map_at t made cs ↦ stored s.reader (map_at t made cs) (set_index_of t made cs name v)
  | other ↦ (ok tt, s)
]

unfoldable pub store_primitive : Bool → Bytes → Option (Read Value) → Store (Unit {0})
store_primitive settable name none s = (ok tt, s)
store_primitive settable name (some m) s = (do v ← sourcing m; set_value settable name v) s

-- The new variable for an element of a map: an `any` gets a `map[string]any`, which is made anew,
-- a struct is made by `reflect.New`, a map by `MakeMap`.
unfoldable pub new_element : GoType → Option Target
new_element any_type = some (any_map_at no_entries)
new_element (struct_type ts) = some (pointer_to (struct_at (zero_fields ts)))
new_element any_map_type = some (any_map_at no_entries)
new_element (map_type t) = some (map_at t true no_cells)
new_element other = none

-- What is put under the key: `val`, or `val.Elem()` of a pointer, and a map in an `any`.
abbrev pub element_of : GoType → Target → Target
element_of any_type (any_map_at es) = any_at (some (submap es))
element_of t (pointer_to u) = u
element_of t u = u

-- After the recursive call that fills the element `val`.
abbrev pub element_stored :
    GoType → Bool → Cells → Bytes → Result (Unit {0}) × Storing → Result (Unit {0}) × Storing
element_stored t made cs name (ok _, s) =
    stored s.reader (map_at t made cs) (put_index t made cs name (element_of t s.target))
element_stored t made cs name (err e, s) =
    (err e, record { reader = s.reader; target = map_at t made cs })
element_stored t made cs name (panicked c, s) =
    (panicked c, record { reader = s.reader; target = map_at t made cs })
element_stored t made cs name (out_of_fuel, s) =
    (out_of_fuel, record { reader = s.reader; target = map_at t made cs })

module _ (again : Store (Unit {0})) (fill : Fill (Unit {0})) where
  abbrev pub into_field :
      NvListReader → Bytes → Fields → Option Target → Result (Unit {0}) × Storing
  into_field r name fs none = (ok tt, record { reader = r; target = struct_at fs })
  into_field r name fs (some t) =
      within (λ t'. struct_at (put_field name t' fs)) (again (record { reader = r; target = t }))

  abbrev pub into_element :
      NvListReader → GoType → Bool → Cells → Bytes → Option Target → Result (Unit {0}) × Storing
  into_element r t made cs name none = (
    err (message "complex hybrid types not supported"),
    record { reader = r; target = map_at t made cs },
  )
  into_element r t made cs name (some val) =
      element_stored t made cs name (again (record { reader = r; target = val }))

  -- The case `TypeNvlist`, `again` being the recursive call.
  unfoldable pub store_list : Bool → Bytes → Store (Unit {0})
  store_list settable name s = elim s.target [
    | struct_at fs ↦ into_field s.reader name fs (field_at settable name fs)
    | map_at t made cs ↦ into_element s.reader t made cs name (new_element t)
    | other ↦ (err (message "invalid pair type (not map or struct)"), s)
  ]

  abbrev pub maps_stored :
      GoType → Bool → Cells → Bytes → Result Maps × Filling → Result (Unit {0}) × Storing
  maps_stored t made cs name (ok ms, s) =
      stored s.reader (map_at t made cs) (set_index_of t made cs name (submaps ms))
  maps_stored t made cs name (err e, s) =
      (err e, record { reader = s.reader; target = map_at t made cs })
  maps_stored t made cs name (panicked c, s) =
      (panicked c, record { reader = s.reader; target = map_at t made cs })
  maps_stored t made cs name (out_of_fuel, s) =
      (out_of_fuel, record { reader = s.reader; target = map_at t made cs })

  -- The case `TypeNvlistArray`, `fill` being the recursive call on a `map[string]any`.
  unfoldable pub store_lists : Bool → Bytes → Store (Unit {0})
  store_lists settable name s = elim s.target [
    | struct_at fs ↦
        (err (message "deserializing NVListArrays into structs currently unsupported"), s)
    | map_at t made cs ↦ maps_stored t made cs name (
        into_new_maps fill s.reader.num_elements
          (record { reader = s.reader; entries = no_entries }))
    | other ↦ (err (message "invalid pair type (not map or struct)"), s)
  ]

  -- What the loop's body does for a token.
  unfoldable pub store_token : Bool → NvType → Bytes → Store (Unit {0})
  store_token settable t name =
      if t == type_unknown
      then raise invalid_data
      else if t == type_nvlist
      then store_list settable name
      else if t == type_nvlist_array
      then store_lists settable name
      else store_primitive settable name (primitive t)

-- The beginning of `Unmarshal`, behind the pointer: an `any` gets a new map, which is filled by
-- `fill`; a struct and a map are filled by `loop`; any other variable is refused.
unfoldable pub enter_target : (Bool → Store (Unit {0})) → Fill (Unit {0}) → Bool → Store (Unit {0})
enter_target loop fill settable s = elim s.target [
  | any_at old ↦
      if settable
      then within_map (λ es. any_at (some (submap es)))
          (fill (record { reader = s.reader; entries = no_entries }))
      else (panicked not_assignable, s)
  | any_map_at es ↦ within_map any_map_at (fill (record { reader = s.reader; entries = es }))
  | struct_at fs ↦ loop settable s
  | map_at t made cs ↦ loop settable s
  | other ↦ (err invalid_data, s)
]

-- `if v.Kind() == reflect.Ptr { v = v.Elem() }`: what a pointer refers to can be set.
unfoldable pub enter : (Bool → Store (Unit {0})) → Fill (Unit {0}) → Bool → Store (Unit {0})
enter loop fill settable s = elim s.target [
  | pointer_to t ↦
      within pointer_to (enter_target loop fill true (record { reader = s.reader; target = t }))
  | other ↦ enter_target loop fill settable s
]

-- The loop of `Unmarshal` on a struct, or on a map that is no `map[string]any`. A unit of fuel for
-- each call and each round.
unfoldable pub store_pairs : ℕ → Bool → Store (Unit {0})
store_pairs zero settable s = (out_of_fuel, s)
store_pairs (suc f) settable s =
    (do
      token ← until_eof (sourcing next)
      elim token [
        | none ↦ pure tt
        | some t ↦ do
          name ← sourcing get_name_bytes
          store_token (enter (store_pairs f) (unmarshal f) true) (unmarshal f) settable t name
          store_pairs f settable
      ])
      s

-- The package's `Unmarshal`: what `val` itself holds cannot be set, what it points to can.
unfoldable pub unmarshal_to : ℕ → Bytes → Target → Result (Unit {0}) × Storing
unmarshal_to f bs t =
    enter (store_pairs f) (unmarshal f) false (record { reader = new_reader bs; target = t })
