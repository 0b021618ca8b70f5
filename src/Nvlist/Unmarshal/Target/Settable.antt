-- ===== src/Nvlist/Unmarshal/Target/Settable.antt =====
-- A struct's fields, as `Unmarshal` finds and sets them.
use prometheus_zfs_exporter.Base.{
  ◌≡◌, refl, sym, ap, ◌∙◌, inl, inr, Bool, true, false, Bool-cases, Option, none, some,
  Option-cases, ◌&&◌, Bytes, equal, equal→eq, ok,
}
use prometheus_zfs_exporter.Nvlist.Unmarshal.{Value, submap, submaps, Entries, no_entries, entry}
use prometheus_zfs_exporter.Nvlist.Unmarshal.RoundTrip.{last_value, or_else}
use prometheus_zfs_exporter.Nvlist.Unmarshal.Target.{
  kind_of, Kind, Kind-discrete, set_if, Target, any_at, basic_at, Fields, no_fields, field,
  find_field, put_field, field_at, if_settable, assign, field_key,
}

-- The variable takes the value: it is an `any`, or of the value's type.
pub data Fits (v : Value) : Target → Type 0 where
  into_any : {old : Option Value} → Fits v (any_at old)
  into_basic : {k : Kind} {old : Option Value} → kind_of v ≡ some k → Fits v (basic_at k old)

abbrev pub stored_in : Value → Target → Target
stored_in v (any_at _) = any_at (some v)
stored_in v (basic_at k _) = basic_at k (some v)
stored_in v t = t

set_if_same : (k : Kind) (v : Value) (d : Dec (k ≡ k)) → set_if k d v ≡ ok (basic_at k (some v))
set_if_same k v (yes e) = refl
set_if_same k v (no n) = absurd (n refl)

pub assign-Fits : {v : Value} {t : Target} → Fits v t → assign v t ≡ ok (stored_in v t)
unfolding assign
assign-Fits into_any = refl
assign-Fits {v} (into_basic {k} h) = rw h (set_if_same k v (Kind-discrete k k))

Fits-stored_in : {w : Value} (v : Value) {t : Target} → Fits w t → Fits w (stored_in v t)
Fits-stored_in v into_any = into_any
Fits-stored_in v (into_basic h) = into_basic h

stored_in_twice : (w v : Value) (t : Target) → stored_in w (stored_in v t) ≡ stored_in w t
stored_in_twice w v t = elim t as (λ t. stored_in w (stored_in v t) ≡ stored_in w t) [
  | any_at _ ↦ refl
  | _ ↦ refl
]

abbrev retarget : Target → Option (Bool × Target) → Option (Bool × Target)
retarget t' none = none
retarget t' (some (b, t)) = some (b, t')

abbrev pub map_target : (Target → Target) → Option Target → Option Target
map_target f none = none
map_target f (some t) = some (f t)

-- The field that was put is found under its name.
find_field-put_field :
    (k : Bytes) (t' : Target) (fs : Fields)
    → find_field k (put_field k t' fs) ≡ retarget t' (find_field k fs)
unfolding find_field put_field
find_field-put_field k t' no_fields = refl
find_field-put_field k t' (field l t fs) = elim (Option-cases (find_field k fs)) [
  | inl missing ↦ elim (Bool-cases (equal k (field_key l))) [
    | inl same ↦ rw (missing, same) (rw (missing, same))
    | inr other ↦ rw (missing, other) (rw (missing, other))
  ]
  | inr (x, found) ↦ rw (found, find_field-put_field k t' fs, found) (refl)
]

-- Other names find what they found.
find_field-put_other :
    (k k' : Bytes) (t' : Target) (fs : Fields)
    → equal k k' ≡ false
    → find_field k (put_field k' t' fs) ≡ find_field k fs
unfolding find_field put_field
find_field-put_other k k' t' no_fields h = refl
find_field-put_other k k' t' (field l t fs) h = elim (Option-cases (find_field k' fs)) [
  | inl missing ↦ elim (Bool-cases (equal k' (field_key l))) [
    | inl same ↦ rw (missing, same, sym (equal→eq k' (field_key l) same), h)
    | inr other ↦ rw (missing, other)
  ]
  | inr (x, found) ↦ rw (found, find_field-put_other k k' t' fs h)
]

if_settable-retarget :
    (b : Bool) (t' : Target) (o : Option (Bool × Target))
    → if_settable b (retarget t' o) ≡ map_target (λ _. t') (if_settable b o)
if_settable-retarget b t' none = refl
if_settable-retarget b t' (some (x, t)) = elim (Bool-cases (b && x)) [
  | inl set ↦ rw set
  | inr unset ↦ rw unset
]

abbrev store_found : Bytes → Value → Fields → Option Target → Fields
store_found k v fs none = fs
store_found k v fs (some t) = put_field k (stored_in v t) fs

-- `setPrimitive` on a struct: the field keeps its type.
unfoldable pub store_field : Bool → Bytes → Value → Fields → Fields
store_field b k v fs = store_found k v fs (field_at b k fs)

field_at-store_field :
    (b : Bool) (k : Bytes) (v : Value) (fs : Fields)
    → field_at b k (store_field b k v fs) ≡ map_target (stored_in v) (field_at b k fs)
unfolding field_at store_field
field_at-store_field b k v fs = elim (Option-cases (field_at b k fs)) [
  | inl missing ↦ rw missing (missing)
  | inr (t, found) ↦ rw found (
      ap (if_settable b) (find_field-put_field k (stored_in v t) fs)
      ∙ if_settable-retarget b (stored_in v t) (find_field k fs)
      ∙ ap (map_target (λ _. stored_in v t)) found)
]

field_at-store_other :
    (b : Bool) (k k' : Bytes) (v : Value) (fs : Fields)
    → equal k k' ≡ false
    → field_at b k (store_field b k' v fs) ≡ field_at b k fs
unfolding field_at store_field
field_at-store_other b k k' v fs h = elim (Option-cases (field_at b k' fs)) [
  | inl missing ↦ rw missing
  | inr (t, found) ↦ rw found (ap (if_settable b) (find_field-put_other k k' (stored_in v t) fs h))
]

-- The entries of a map stored in a struct, one by one.
unfoldable pub store_all : Bool → Fields → Entries → Fields
store_all b fs no_entries = fs
store_all b fs (entry k v es) = store_all b (store_field b k v fs) es

-- What a field holds after the last value under its name, if there is one.
abbrev pub updated : Option Value → Option Target → Option Target
updated none o = o
updated (some v) o = map_target (stored_in v) o

map_target_twice :
    (w v : Value) (o : Option Target)
    → map_target (stored_in w) (map_target (stored_in v) o) ≡ map_target (stored_in w) o
map_target_twice w v none = refl
map_target_twice w v (some t) = ap some (stored_in_twice w v t)

updated-or_else :
    (v : Value) (last : Option Value) (o : Option Target)
    → updated last (map_target (stored_in v) o) ≡ updated (or_else last (some v)) o
updated-or_else v none o = refl
updated-or_else v (some w) o = map_target_twice w v o

or_else-none : (a : Option Value) → or_else a none ≡ a
or_else-none none = refl
or_else-none (some v) = refl

pub field_at-store_all :
    (b : Bool) (k : Bytes) (fs : Fields) (es : Entries)
    → field_at b k (store_all b fs es) ≡ updated (last_value k es) (field_at b k fs)
unfolding store_all last_value
field_at-store_all b k fs no_entries = refl
field_at-store_all b k fs (entry k' v es) =
    field_at-store_all b k (store_field b k' v fs) es ∙ elim (Bool-cases (equal k k')) [
      | inl same ↦
          ap (λ n. updated (last_value k es) (field_at b k (store_field b n v fs)))
            (sym (equal→eq k k' same))
          ∙ rw (same, field_at-store_field b k v fs)
              (updated-or_else v (last_value k es) (field_at b k fs))
      | inr other ↦
          rw (other, field_at-store_other b k k' v fs other, or_else-none (last_value k es))
    ]

-- The value is an array of lists, or a list.
abbrev is_lists : Value → Bool
is_lists (submaps _) = true
is_lists _ = false

abbrev is_list : Value → Bool
is_list (submap _) = true
is_list _ = false

-- `Unmarshal` can store the value in a struct whose settable field of that name is the second: it
-- is no array of lists, a list has a field to go to, and the field takes the value.
pub data Suits : Value → Option Target → Type 0 where
  dropped : {v : Value} → is_lists v ≡ false → is_list v ≡ false → Suits v none
  taken : {v : Value} {t : Target} → is_lists v ≡ false → Fits v t → Suits v (some t)

Suits-map_target :
    (w v : Value) (o : Option Target) → Suits w o → Suits w (map_target (stored_in v) o)
Suits-map_target w v none (dropped a b) = dropped a b
Suits-map_target w v (some t) (taken a h) = taken a (Fits-stored_in v h)

unfoldable pub SuitsAll : Bool → Fields → Entries → Type 0
SuitsAll b fs no_entries = Unit
SuitsAll b fs (entry k v es) = Suits v (field_at b k fs) × SuitsAll b fs es

-- The fields keep their types.
pub SuitsAll-store_field :
    (b : Bool) (k : Bytes) (v : Value) (fs : Fields) (es : Entries)
    → SuitsAll b fs es
    → SuitsAll b (store_field b k v fs) es
unfolding SuitsAll
SuitsAll-store_field b k v fs no_entries h = tt
SuitsAll-store_field b k v fs (entry k' w es) h = (
  elim (Bool-cases (equal k' k)) [
    | inl same ↦
        let suits : Suits w (field_at b k (store_field b k v fs)) =
          rw (field_at-store_field b k v fs)
            (Suits-map_target w v (field_at b k fs) (rw (equal→eq k' k same) at h.0)) in
        rw (equal→eq k' k same) suits
    | inr other ↦ rw (field_at-store_other b k' k v fs other) h.0
  ],
  SuitsAll-store_field b k v fs es h.1,
)
