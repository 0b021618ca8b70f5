-- ===== src/Nvlist/Unmarshal/Target.antt =====
-- Go's reflection as far as `Unmarshal` uses it: the variables that it may fill, their types, and
-- what `Set` and `SetMapIndex` store.
pub mod Settable
use prometheus_zfs_exporter.Base.{
  Option, none, some, Bool, true, false, [], ◌∷◌, Bytes, equal, if◌then◌else◌, ◌==◌, ◌&&◌, Panic,
  Result, ok, panicked, not_assignable, nil_map,
}
use prometheus_zfs_exporter.Nvlist.Unmarshal.{
  Value, boolean, uint8, uint16, uint32, uint64, int8, int16, int32, int64, string, booleans,
  uint8s, uint16s, uint32s, uint64s, int8s, int16s, int32s, int64s, strings, submap, submaps,
  Entries, no_entries,
}

-- The predeclared types of the values, and the slices of them. `of_maps` is `[]map[string]any`.
pub data Kind : Type 0 where
  of_boolean of_uint8 of_uint16 of_uint32 of_uint64 of_int8 of_int16 of_int32 of_int64 : Kind
  of_string of_booleans of_uint8s of_uint16s of_uint32s of_uint64s of_int8s of_int16s : Kind
  of_int32s of_int64s of_strings of_maps : Kind

-- The type of a value, unless it is a `map[string]any`.
unfoldable pub kind_of : Value → Option Kind
kind_of (boolean _) = some of_boolean
kind_of (uint8 _) = some of_uint8
kind_of (uint16 _) = some of_uint16
kind_of (uint32 _) = some of_uint32
kind_of (uint64 _) = some of_uint64
kind_of (int8 _) = some of_int8
kind_of (int16 _) = some of_int16
kind_of (int32 _) = some of_int32
kind_of (int64 _) = some of_int64
kind_of (string _) = some of_string
kind_of (booleans _) = some of_booleans
kind_of (uint8s _) = some of_uint8s
kind_of (uint16s _) = some of_uint16s
kind_of (uint32s _) = some of_uint32s
kind_of (uint64s _) = some of_uint64s
kind_of (int8s _) = some of_int8s
kind_of (int16s _) = some of_int16s
kind_of (int32s _) = some of_int32s
kind_of (int64s _) = some of_int64s
kind_of (strings _) = some of_strings
kind_of (submap _) = none
kind_of (submaps _) = some of_maps

-- A field as a struct declares it: its name, the `nvlist` part of its tag, and whether it is
-- exported.
pub record Label : Type 0 where
  pub name : Bytes
  pub tag : Bytes
  pub exported : Bool

-- Types. A map has keys of type `string`; a `map[string]any` is `any_map_type`. `other_type` is any
-- type that no value is assignable to and that `Unmarshal` does not go into.
mutual
  pub data GoType : Type 0 where
    any_type any_map_type other_type : GoType
    basic_type : Kind → GoType
    struct_type : FieldTypes → GoType
    map_type pointer_type : GoType → GoType

  pub data FieldTypes : Type 0 where
    no_types : FieldTypes
    field_type : Label → GoType → FieldTypes → FieldTypes

-- Variables, with their types and what they hold: an `any` is `none` when it is nil, and so is a
-- pointer; a basic variable is `none` while it has its zero value. A map is nil, or has cells.
mutual
  pub data Target : Type 0 where
    any_at : Option Value → Target
    any_map_at : Entries → Target
    other_at : Target
    basic_at : Kind → Option Value → Target
    struct_at : Fields → Target
    map_at : GoType → Bool → Cells → Target
    pointer_to : Target → Target
    nil_pointer : GoType → Target

  pub data Fields : Type 0 where
    no_fields : Fields
    field : Label → Target → Fields → Fields

  pub data Cells : Type 0 where
    no_cells : Cells
    cell : Bytes → Target → Cells → Cells

-- `reflect.New(t).Elem()`. A nil `map[string]any` is a nil map with elements of type `any`.
unfoldable mutual
  pub zero_of : GoType → Target
  zero_of any_type = any_at none
  zero_of any_map_type = map_at any_type false no_cells
  zero_of other_type = other_at
  zero_of (basic_type k) = basic_at k none
  zero_of (struct_type ts) = struct_at (zero_fields ts)
  zero_of (map_type t) = map_at t false no_cells
  zero_of (pointer_type t) = nil_pointer t

  pub zero_fields : FieldTypes → Fields
  zero_fields no_types = no_fields
  zero_fields (field_type l t ts) = field l (zero_of t) (zero_fields ts)

-- `strings.Split(tag, ",")[0]`
unfoldable pub before_comma : Bytes → Bytes
before_comma [] = []
before_comma (c ∷ cs) = if c == b',' then [] else c ∷ before_comma cs

abbrev pub non_empty_or : Bytes → Bytes → Bytes
non_empty_or [] other = other
non_empty_or (c ∷ cs) other = c ∷ cs

-- The key of a field in `structFieldByName`.
unfoldable pub field_key : Label → Bytes
field_key l = non_empty_or (before_comma l.tag) l.name

abbrev pub or_target : Option (Bool × Target) → Option (Bool × Target) → Option (Bool × Target)
or_target (some x) y = some x
or_target none y = y

-- `structFieldByName[name]`, where a later field of the same key takes the place of an earlier one.
unfoldable pub find_field : Bytes → Fields → Option (Bool × Target)
find_field name no_fields = none
find_field name (field l t fs) =
    or_target (find_field name fs) (if equal name (field_key l) then some (l.exported, t) else none)

abbrev pub replace :
    Option (Bool × Target) → Target → Bool → Target → Fields → Fields → Label → Fields
replace (some _) t' b t fs fs' l = field l t fs'
replace none t' true t fs fs' l = field l t' fs
replace none t' false t fs fs' l = field l t fs

-- The struct with the field that `structFieldByName` has for the name set.
unfoldable pub put_field : Bytes → Target → Fields → Fields
put_field name t' no_fields = no_fields
put_field name t' (field l t fs) =
    replace (find_field name fs) t' (equal name (field_key l)) t fs (put_field name t' fs) l

abbrev pub if_settable : Bool → Option (Bool × Target) → Option Target
if_settable settable none = none
if_settable settable (some (exported, t)) = if settable && exported then some t else none

-- The field of the name, if there is one and `CanSet` says yes: the struct can be set as a whole,
-- and the field is exported.
unfoldable pub field_at : Bool → Bytes → Fields → Option Target
field_at settable name fs = if_settable settable (find_field name fs)

pub Kind-discrete : Discrete Kind
Kind-discrete = hlevel

abbrev pub set_if : (k : Kind) {P : Type 0} → Dec P → Value → Result Target
set_if k (yes _) v = ok (basic_at k (some v))
set_if k (no _) v = panicked not_assignable

abbrev pub set_basic : Kind → Option Kind → Value → Result Target
set_basic k none v = panicked not_assignable
set_basic k (some k') v = set_if k (Kind-discrete k' k) v

-- `t.Set(v)`, of a value that is no map: a value of another type than the variable's panics.
unfoldable pub assign : Value → Target → Result Target
assign v (any_at _) = ok (any_at (some v))
assign v (basic_at k _) = set_basic k (kind_of v) v
assign v _ = panicked not_assignable

unfoldable pub put_cell : Bytes → Target → Cells → Cells
put_cell k t no_cells = cell k t no_cells
put_cell k t (cell k' t' cs) = if equal k k' then cell k t cs else cell k' t' (put_cell k t cs)

-- `SetMapIndex` with an element of the map's own element type.
unfoldable pub put_index : GoType → Bool → Cells → Bytes → Target → Result Target
put_index t true cs k v = ok (map_at t true (put_cell k v cs))
put_index t false cs k v = panicked nil_map

abbrev pub put_assigned : GoType → Bool → Cells → Bytes → Result Target → Result Target
put_assigned t made cs k (ok v) = put_index t made cs k v
put_assigned t made cs k other = other

-- `SetMapIndex` with a value, which the element type must take.
unfoldable pub set_index_of : GoType → Bool → Cells → Bytes → Value → Result Target
set_index_of t made cs k v = put_assigned t made cs k (assign v (zero_of t))
