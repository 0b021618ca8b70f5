-- ===== src/Nvlist/Unmarshal/Reflect/Reaches.antt =====
-- zfs/nvlist/decode.go: what `Unmarshal` stores by reflection is stored, or is a panic.
use prometheus_zfs_exporter.Base.{
  Panic, none, some, Option, Bool, true, false, Bytes, Result, ok, panicked,
}
use prometheus_zfs_exporter.Nvlist.Reader.{NvListReader}
use prometheus_zfs_exporter.Nvlist.Access.Halts.{Halts, gives, fails, crashes}
use prometheus_zfs_exporter.Nvlist.Unmarshal.{Value, submaps, Entries, Maps, Filling, Fill}
use prometheus_zfs_exporter.Nvlist.Unmarshal.Target.{
  Kind, kind_of, Kind-discrete, set_if, GoType, Target, any_at, any_map_at, other_at, basic_at,
  struct_at, map_at, pointer_to, nil_pointer, Fields, Cells, zero_of, field_at, put_field,
  set_basic, assign, put_index, put_assigned, set_index_of,
}
use prometheus_zfs_exporter.Nvlist.Unmarshal.Reflect.{
  Storing, Store, within, within_map, stored, field_set, set_value, element_of, element_stored,
  maps_stored,
}

-- A store by reflection takes no fuel: it is done or it panics.
data Settles : Result Target → Type 0 where
  done : {t : Target} → Settles (ok t)
  refused : {c : Panic} → Settles (panicked c)

set_if-Settles : (k : Kind) {P : Type 0} (d : Dec P) (v : Value) → Settles (set_if k d v)
set_if-Settles k (yes h) v = done
set_if-Settles k (no h) v = refused

set_basic-Settles : (k : Kind) (o : Option Kind) (v : Value) → Settles (set_basic k o v)
set_basic-Settles k none v = refused
set_basic-Settles k (some k') v = set_if-Settles k (Kind-discrete k' k) v

assign-Settles : (v : Value) (t : Target) → Settles (assign v t)
unfolding assign
assign-Settles v (any_at _) = done
assign-Settles v (any_map_at _) = refused
assign-Settles v other_at = refused
assign-Settles v (basic_at k _) = set_basic-Settles k (kind_of v) v
assign-Settles v (struct_at _) = refused
assign-Settles v (map_at _ _ _) = refused
assign-Settles v (pointer_to _) = refused
assign-Settles v (nil_pointer _) = refused

put_index-Settles :
    (t : GoType) (made : Bool) (cs : Cells) (k : Bytes) (v : Target)
    → Settles (put_index t made cs k v)
unfolding put_index
put_index-Settles t true cs k v = done
put_index-Settles t false cs k v = refused

put_assigned-Settles :
    (t : GoType) (made : Bool) (cs : Cells) (k : Bytes) {x : Result Target}
    → Settles x
    → Settles (put_assigned t made cs k x)
put_assigned-Settles t made cs k (done {t = v}) = put_index-Settles t made cs k v
put_assigned-Settles t made cs k refused = refused

-- A call that ends with the reader in `P`, whatever has been stored.
abbrev pub Reaches : (NvListReader → Type 0) → Result (Unit {0}) × Storing → Type 0
Reaches P x = Halts (λ _ t. P t.reader) x

module _ (P : NvListReader → Type 0) where
  stored-Reaches :
      {r : NvListReader} (old : Target) {x : Result Target}
      → P r
      → Settles x
      → Reaches P (stored r old x)
  stored-Reaches old p done = gives p
  stored-Reaches old p refused = crashes

  pub within-Reaches :
      (put : Target → Target) {x : Result (Unit {0}) × Storing}
      → Reaches P x
      → Reaches P (within put x)
  within-Reaches put (gives p) = gives p
  within-Reaches put fails = fails
  within-Reaches put crashes = crashes

  pub within_map-Reaches :
      (put : Entries → Target) {x : Result (Unit {0}) × Filling}
      → Halts (λ _ t. P t.reader) x
      → Reaches P (within_map put x)
  within_map-Reaches put (gives p) = gives p
  within_map-Reaches put fails = fails
  within_map-Reaches put crashes = crashes

  field_set-Reaches :
      {r : NvListReader} (name : Bytes) (v : Value) (fs : Fields) (o : Option Target)
      → P r
      → Reaches P (field_set r name v fs o)
  field_set-Reaches name v fs none p = gives p
  field_set-Reaches name v fs (some t) p =
      within-Reaches (λ t'. struct_at (put_field name t' fs))
        (stored-Reaches t p (assign-Settles v t))

  pub set_value-Reaches :
      (b : Bool) (name : Bytes) (v : Value) (r : NvListReader) (t : Target)
      → P r
      → Reaches P (set_value b name v (record { reader = r; target = t }))
  unfolding set_value set_index_of
  set_value-Reaches b name v r (struct_at fs) p = field_set-Reaches name v fs (field_at b name fs) p
  set_value-Reaches b name v r (map_at t made cs) p =
      stored-Reaches (map_at t made cs) p
        (put_assigned-Settles t made cs name (assign-Settles v (zero_of t)))
  set_value-Reaches b name v r (any_at _) p = gives p
  set_value-Reaches b name v r (any_map_at _) p = gives p
  set_value-Reaches b name v r other_at p = gives p
  set_value-Reaches b name v r (basic_at _ _) p = gives p
  set_value-Reaches b name v r (pointer_to _) p = gives p
  set_value-Reaches b name v r (nil_pointer _) p = gives p

  pub element_stored-Reaches :
      (t : GoType) (made : Bool) (cs : Cells) (name : Bytes) {x : Result (Unit {0}) × Storing}
      → Reaches P x
      → Reaches P (element_stored t made cs name x)
  element_stored-Reaches t made cs name (gives {s = u} p) =
      stored-Reaches (map_at t made cs) p (put_index-Settles t made cs name (element_of t u.target))
  element_stored-Reaches t made cs name fails = fails
  element_stored-Reaches t made cs name crashes = crashes

  pub maps_stored-Reaches :
      (again : Store (Unit {0})) (fill : Fill (Unit {0})) (t : GoType) (made : Bool) (cs : Cells)
      (name : Bytes) {x : Result Maps × Filling}
      → Halts (λ _ t. P t.reader) x
      → Reaches P (maps_stored again fill t made cs name x)
  unfolding set_index_of
  maps_stored-Reaches again fill t made cs name (gives {a = ms} p) =
      stored-Reaches (map_at t made cs) p
        (put_assigned-Settles t made cs name (assign-Settles (submaps ms) (zero_of t)))
  maps_stored-Reaches again fill t made cs name fails = fails
  maps_stored-Reaches again fill t made cs name crashes = crashes
