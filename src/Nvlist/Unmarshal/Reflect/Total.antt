-- ===== src/Nvlist/Unmarshal/Reflect/Total.antt =====
-- zfs/nvlist/decode.go: `Unmarshal` into any variable, on any bytes, comes to an end.
use prometheus_zfs_exporter.Base.{
  ℕ, zero, suc, ◌+◌, ◌<◌, ◌≤◌, ◌≡◌, ◌≢◌, refl, sym, ap, inl, inr, none, some, arith, Option, Bool,
  true, false, Bytes, length, ◌==◌, Bool-cases, out_of_fuel, Ends-eof_as_none,
}
use mathlib.Core.Path.{subst}
use prometheus_zfs_exporter.Nvlist.Types.{NvType}
use prometheus_zfs_exporter.Nvlist.Reader.{NvListReader, new_reader}
use prometheus_zfs_exporter.Nvlist.Next.Safety.{IsReady, IsEnd, next-Ends}
use prometheus_zfs_exporter.Nvlist.Skip.Total.{
  Onward, Onward-IsReady, Onward-trans, next-Onward, onward_room, onward_fuel, onward-IsEnd,
}
use prometheus_zfs_exporter.Nvlist.Access.Halts.{
  gives, fails, Ends-Halts, Halts-fuel, Halts-bind, Halts-weaken,
}
use prometheus_zfs_exporter.Nvlist.Unmarshal.{no_entries, Fill, primitive, unmarshal}
use prometheus_zfs_exporter.Nvlist.Unmarshal.Total.{
  primitive-StillCase, into_new_maps-GoesOn, unmarshal-Halts,
}
use prometheus_zfs_exporter.Nvlist.Unmarshal.Target.{
  GoType, Target, struct_at, map_at, Fields, Cells, field_at, put_field,
}
use prometheus_zfs_exporter.Nvlist.Unmarshal.Reflect.{
  Storing, Store, on_source, new_element, into_field, into_element, store_list, store_lists,
  store_token, enter, store_pairs, unmarshal_to,
}
use prometheus_zfs_exporter.Nvlist.Unmarshal.Reflect.Reaches.{
  Reaches, within-Reaches, element_stored-Reaches, maps_stored-Reaches,
}
use prometheus_zfs_exporter.Nvlist.Unmarshal.Reflect.Enters.{
  StoresOn, StoresPast, FillsPast, on_source-Ends, store_primitive-StoresOn, enter-StoresPast,
}

past-on : (s : NvListReader) {m : Store (Unit {0})} → StoresPast (Onward s) m → StoresOn s m
past-on s h u o = Halts-weaken (h u o) (λ a t e. Onward-trans o e)

module _ (s : NvListReader) (again : Store (Unit {0})) (fill : Fill (Unit {0}))
    (again_ends : StoresOn s again) (fill_ends : FillsPast (Onward s) fill) where
  into_field-Reaches :
      (r : NvListReader) (name : Bytes) (fs : Fields) (t : Option Target)
      → Onward s r
      → Reaches (Onward s) (into_field again fill r name fs t)
  into_field-Reaches r name fs none o = gives o
  into_field-Reaches r name fs (some t) o =
      within-Reaches (Onward s) (λ t'. struct_at (put_field name t' fs))
        (again_ends (record { reader = r; target = t }) o)

  into_element-Reaches :
      (r : NvListReader) (t : GoType) (made : Bool) (cs : Cells) (name : Bytes) (v : Option Target)
      → Onward s r
      → Reaches (Onward s) (into_element again fill r t made cs name v)
  into_element-Reaches r t made cs name none o = fails
  into_element-Reaches r t made cs name (some v) o =
      element_stored-Reaches (Onward s) t made cs name
        (again_ends (record { reader = r; target = v }) o)

  store_list-StoresOn : (b : Bool) (name : Bytes) → StoresOn s (store_list again fill b name)
  unfolding store_list
  store_list-StoresOn b name u o =
      elim u.target
        as (λ t.
          Reaches (Onward s)
            (store_list again fill b name (record { reader = u.reader; target = t }))) [
              | struct_at fs ↦ into_field-Reaches u.reader name fs (field_at b name fs) o
              | map_at t made cs ↦ into_element-Reaches u.reader t made cs name (new_element t) o
              | other ↦ fails
            ]

  store_lists-StoresOn : (b : Bool) (name : Bytes) → StoresOn s (store_lists again fill b name)
  unfolding store_lists
  store_lists-StoresOn b name u o =
      elim u.target
        as (λ t.
          Reaches (Onward s)
            (store_lists again fill b name (record { reader = u.reader; target = t }))) [
              | struct_at fs ↦ fails
              | map_at t made cs ↦ maps_stored-Reaches (Onward s) again fill t made cs name (
                  into_new_maps-GoesOn s fill fill_ends u.reader.num_elements
                    (record { reader = u.reader; entries = no_entries }) o)
              | other ↦ fails
            ]

  store_token-StoresOn :
      (b : Bool) (t : NvType) (name : Bytes) → StoresOn s (store_token again fill b t name)
  unfolding store_token
  store_token-StoresOn b t name u o = elim (Bool-cases (t == 0)) [
    | inl unknown ↦ rw unknown fails
    | inr known ↦ rw known (elim (Bool-cases (t == 19)) [
      | inl list ↦ rw list (store_list-StoresOn b name u o)
      | inr other ↦ rw other (elim (Bool-cases (t == 20)) [
        | inl array ↦ rw array (store_lists-StoresOn b name u o)
        | inr plain ↦
            rw plain (store_primitive-StoresOn s b name (primitive t) (primitive-StillCase t) u o)
      ])
    ])
  ]

store_pairs-Halts :
    (f : ℕ) (b : Bool) (s : Storing)
    → IsReady s.reader
    → s.reader.pos ≤ length s.reader.bytes
    → length s.reader.bytes < f + s.reader.pos
    → Reaches (IsEnd s.reader) (store_pairs f b s)
unfolding store_pairs on_source
store_pairs-Halts zero b s h l k = absurd (omega arith)
store_pairs-Halts (suc f) b s h l k =
    Halts-bind _ (Ends-Halts (Ends-eof_as_none (on_source-Ends s.target (next-Ends s.reader h))))
      (elim [
        | none ↦ λ t e. gives (e refl)
        | some ty ↦ λ t n.
            let fill_ends : FillsPast (Onward t.reader) (unmarshal f) = λ u o.
              unmarshal-Halts f u (Onward-IsReady o) (onward_room n o) (onward_fuel n o f k) in
            Halts-bind _
              (store_token-StoresOn t.reader (enter (store_pairs f) (unmarshal f) true)
                (unmarshal f)
                (past-on t.reader (
                  enter-StoresPast (Onward t.reader) (store_pairs f) (unmarshal f)
                    (λ b' u o.
                      store_pairs-Halts f b' u (Onward-IsReady o) (onward_room n o)
                        (onward_fuel n o f k))
                    fill_ends true))
                fill_ends b ty t.reader.name_bytes t (next-Onward n))
              (λ a u o.
                Halts-weaken
                  (store_pairs-Halts f b u (Onward-IsReady o) (onward_room n o)
                    (onward_fuel n o f k))
                  (λ c v e. onward-IsEnd n o e))
      ])

new_reader-IsReady : (bs : Bytes) → IsReady (new_reader bs)
new_reader-IsReady bs = record { started = inl refl; aligned_le = omega arith }

-- `Unmarshal` ends on any bytes whatever, into any variable: a unit of fuel for each byte and one
-- more are enough for it and for the calls inside. It returns, fails or panics.
pub unmarshal_to-fuel :
    (f : ℕ) (bs : Bytes) (t : Target) → length bs < f → (unmarshal_to f bs t).0 ≢ out_of_fuel
unfolding unmarshal_to
unmarshal_to-fuel f bs t lt = Halts-fuel (
    enter-StoresPast (λ r. r ≡ new_reader bs) (store_pairs f) (unmarshal f)
      (λ b u e.
        store_pairs-Halts f b u (subst IsReady (sym e) (new_reader-IsReady bs))
          (omega (arith, ap (λ r. r.pos) e))
          (omega (arith, ap (λ r. r.pos) e, ap (λ r. length r.bytes) e)))
      (λ u e.
        unmarshal-Halts f u (subst IsReady (sym e) (new_reader-IsReady bs))
          (omega (arith, ap (λ r. r.pos) e))
          (omega (arith, ap (λ r. r.pos) e, ap (λ r. length r.bytes) e)))
      false (record { reader = new_reader bs; target = t }) refl)
