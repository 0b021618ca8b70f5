-- ===== src/Nvlist/Unmarshal/Reflect/Enters.antt =====
-- zfs/nvlist/decode.go: the beginning of `Unmarshal`, and what it stores, when the calls inside come
-- to an end.
use prometheus_zfs_exporter.Base.{
  none, some, Option, Bool, true, false, Bytes, Error, Result, Ends, returns, raises,
}
use prometheus_zfs_exporter.Nvlist.Reader.{NvListReader, Read}
use prometheus_zfs_exporter.Nvlist.Next.Safety.{IsEnd}
use prometheus_zfs_exporter.Nvlist.Skip.Total.{Onward}
use prometheus_zfs_exporter.Nvlist.Skip.Goes.{Still-Goes}
use prometheus_zfs_exporter.Nvlist.Access.Halts.{Halts, gives, fails, crashes, Halts-bind}
use prometheus_zfs_exporter.Nvlist.Unmarshal.{Value, submap, no_entries, Filling, Fill}
use prometheus_zfs_exporter.Nvlist.Unmarshal.Total.{StillCase}
use prometheus_zfs_exporter.Nvlist.Unmarshal.Target.{
  Target, any_at, any_map_at, other_at, basic_at, struct_at, map_at, pointer_to, nil_pointer,
}
use prometheus_zfs_exporter.Nvlist.Unmarshal.Reflect.{
  Storing, Store, on_source, store_primitive, enter_target, enter,
}
use prometheus_zfs_exporter.Nvlist.Unmarshal.Reflect.Reaches.{
  Reaches, within-Reaches, within_map-Reaches, set_value-Reaches,
}

-- From `s` the reader has moved on; or it has passed the end of a list.
abbrev pub StoresOn : NvListReader → Store (Unit {0}) → Type 0
StoresOn s m = (u : Storing) → Onward s u.reader → Reaches (Onward s) (m u)

-- At a reader for which `I` holds.
abbrev pub StoresPast : (NvListReader → Type 0) → Store (Unit {0}) → Type 0
StoresPast I m = (u : Storing) → I u.reader → Reaches (IsEnd u.reader) (m u)

abbrev pub FillsPast : (NvListReader → Type 0) → Fill (Unit {0}) → Type 0
FillsPast I m = (u : Filling) → I u.reader → Halts (λ _ t. IsEnd u.reader t.reader) (m u)

on_source-Halts :
    {A : Type 0} {P : A → NvListReader → Type 0} {x : Result A × NvListReader} (t : Target)
    → Halts P x
    → Halts (λ a u. P a u.reader) (on_source t x)
unfolding on_source
on_source-Halts t (gives p) = gives p
on_source-Halts t fails = fails
on_source-Halts t crashes = crashes

pub on_source-Ends :
    {A : Type 0} {P : A → NvListReader → Type 0} {Q : Error → NvListReader → Type 0}
    {x : Result A × NvListReader} (t : Target)
    → Ends P Q x
    → Ends (λ a u. P a u.reader) (λ e u. Q e u.reader) (on_source t x)
unfolding on_source
on_source-Ends t (returns p) = returns p
on_source-Ends t (raises q) = raises q

pub store_primitive-StoresOn :
    (s : NvListReader) (b : Bool) (name : Bytes) (o : Option (Read Value))
    → StillCase o
    → StoresOn s (store_primitive b name o)
unfolding store_primitive
store_primitive-StoresOn s b name none h u o = gives o
store_primitive-StoresOn s b name (some m) h u o =
    Halts-bind _ (on_source-Halts u.target (Still-Goes s h u.reader o))
      (λ v t o'. set_value-Reaches (Onward s) b name v t.reader t.target o')

-- The recursive calls end behind the list that they are called at.
module _ (I : NvListReader → Type 0) (loop : Bool → Store (Unit {0})) (fill : Fill (Unit {0}))
    (loop_ends : (b : Bool) → StoresPast I (loop b)) (fill_ends : FillsPast I fill) where
  enter_target-StoresPast : (b : Bool) → StoresPast I (enter_target loop fill b)
  unfolding enter_target
  enter_target-StoresPast true u o =
      elim u.target
        as (λ t.
          Reaches (IsEnd u.reader)
            (enter_target loop fill true (record { reader = u.reader; target = t }))) [
              | any_at old ↦
                  within_map-Reaches (IsEnd u.reader) (λ es. any_at (some (submap es)))
                    (fill_ends (record { reader = u.reader; entries = no_entries }) o)
              | any_map_at es ↦
                  within_map-Reaches (IsEnd u.reader) any_map_at
                    (fill_ends (record { reader = u.reader; entries = es }) o)
              | struct_at fs ↦
                  loop_ends true (record { reader = u.reader; target = struct_at fs }) o
              | map_at t made cs ↦
                  loop_ends true (record { reader = u.reader; target = map_at t made cs }) o
              | other ↦ fails
            ]
  enter_target-StoresPast false u o =
      elim u.target
        as (λ t.
          Reaches (IsEnd u.reader)
            (enter_target loop fill false (record { reader = u.reader; target = t }))) [
              | any_at old ↦ crashes
              | any_map_at es ↦
                  within_map-Reaches (IsEnd u.reader) any_map_at
                    (fill_ends (record { reader = u.reader; entries = es }) o)
              | struct_at fs ↦
                  loop_ends false (record { reader = u.reader; target = struct_at fs }) o
              | map_at t made cs ↦
                  loop_ends false (record { reader = u.reader; target = map_at t made cs }) o
              | other ↦ fails
            ]

  pub enter-StoresPast : (b : Bool) → StoresPast I (enter loop fill b)
  unfolding enter
  enter-StoresPast b u o =
      elim u.target
        as (λ t.
          Reaches (IsEnd u.reader) (enter loop fill b (record { reader = u.reader; target = t }))) [
            | pointer_to t ↦
                within-Reaches (IsEnd u.reader) pointer_to
                  (enter_target-StoresPast true (record { reader = u.reader; target = t }) o)
            | any_at v ↦
                enter_target-StoresPast b (record { reader = u.reader; target = any_at v }) o
            | any_map_at es ↦
                enter_target-StoresPast b (record { reader = u.reader; target = any_map_at es }) o
            | other_at ↦
                enter_target-StoresPast b (record { reader = u.reader; target = other_at }) o
            | basic_at k v ↦
                enter_target-StoresPast b (record { reader = u.reader; target = basic_at k v }) o
            | struct_at fs ↦
                enter_target-StoresPast b (record { reader = u.reader; target = struct_at fs }) o
            | map_at t made cs ↦
                enter_target-StoresPast b (record { reader = u.reader; target = map_at t made cs })
                  o
            | nil_pointer t ↦
                enter_target-StoresPast b (record { reader = u.reader; target = nil_pointer t }) o
          ]
