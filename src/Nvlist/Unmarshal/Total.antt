-- ===== src/Nvlist/Unmarshal/Total.antt =====
-- zfs/nvlist/decode.go: `Unmarshal` on any bytes comes to an end.
use prometheus_zfs_exporter.Base.{
  ℕ, zero, suc, ◌+◌, ◌<◌, ◌≤◌, ◌≢◌, refl, inl, inr, none, some, arith, Option, Bool, true, false,
  Bytes, length, ◌==◌, if◌then◌else◌, Bool-cases, Result, ok, out_of_fuel, continue,
  Ends-eof_as_none, Error, Ends, returns, raises,
}
use prometheus_zfs_exporter.Nvlist.Types.{
  NvType, type_boolean, type_int16, type_uint16, type_int32, type_uint32, type_int64, type_uint64,
  type_int8, type_uint8, type_byte, type_string, type_boolean_value, type_int8_array,
  type_uint8_array, type_int16_array, type_uint16_array, type_int32_array, type_uint32_array,
  type_int64_array, type_uint64_array, type_byte_array, type_string_array, type_boolean_array,
}
use prometheus_zfs_exporter.Nvlist.Reader.{NvListReader, Read, new_reader}
use prometheus_zfs_exporter.Nvlist.Next.Safety.{IsReady, IsEnd, next-Ends}
use prometheus_zfs_exporter.Nvlist.Skip.Total.{
  Onward, Onward-IsReady, Onward-trans, next-Onward, onward_room, onward_fuel, onward-IsEnd,
}
use prometheus_zfs_exporter.Nvlist.Skip.Goes.{Still-Goes}
use prometheus_zfs_exporter.Nvlist.Access.Halts.{
  Halts, gives, fails, crashes, Ends-Halts, Halts-fuel, Halts-bind, Halts-weaken, Still, Still-map,
  byte_at-Still, word-Still, word_array-Still, data_slice-Still, get_string-Still,
  get_boolean-Still, get_boolean_array-Still, get_string_array-Still,
}
use prometheus_zfs_exporter.Nvlist.Access.{get_uint8}
use prometheus_zfs_exporter.Nvlist.Unmarshal.{
  Value, Entries, no_entries, Filling, Fill, on_reader, primitive, set_primitive, into_new_map,
  into_new_maps, unmarshal_value, unmarshal, unmarshal_bytes,
}

-- A case that reads nothing, or one that leaves the reader where it is.
abbrev pub StillCase : {A : Type 0} → Option (Read A) → Type 0
StillCase none = Unit
StillCase (some m) = Still m

StillCase-if :
    {A : Type 0} {m : Read A} (b : Bool) (o : Option (Read A))
    → Still m
    → StillCase o
    → StillCase (if b then some m else o)
StillCase-if true o h k = h
StillCase-if false o h k = k

byte-Still : Still get_uint8
byte-Still s = byte_at-Still s.data_pos s

-- No accessor that the switch calls moves the reader.
pub primitive-StillCase : (t : NvType) → StillCase (primitive t)
unfolding primitive
primitive-StillCase t =
    StillCase-if (t == type_boolean) _ (λ s. gives refl)
      (StillCase-if (t == type_int16) _ (Still-map _ (Still-map _ (word-Still 2))) (
        StillCase-if (t == type_uint16) _ (Still-map _ (word-Still 2)) (
          StillCase-if (t == type_int32) _ (Still-map _ (Still-map _ (word-Still 4))) (
            StillCase-if (t == type_uint32) _ (Still-map _ (word-Still 4)) (
              StillCase-if (t == type_int64) _ (Still-map _ (Still-map _ (word-Still 8))) (
                StillCase-if (t == type_uint64) _ (Still-map _ (word-Still 8)) (
                  StillCase-if (t == type_int8) _ (Still-map _ (Still-map _ byte-Still)) (
                    StillCase-if (t == type_uint8) _ (Still-map _ byte-Still) (
                      StillCase-if (t == type_byte) _ (Still-map _ byte-Still) (
                        StillCase-if (t == type_string) _ (Still-map _ get_string-Still) (
                          StillCase-if (t == type_boolean_value) _ (Still-map _ get_boolean-Still) (
                            StillCase-if (t == type_int8_array) _
                              (Still-map _ (Still-map _ (word_array-Still 1)))
                              (StillCase-if (t == type_uint8_array) _
                                (Still-map _ (word_array-Still 1))
                                (StillCase-if (t == type_int16_array) _
                                  (Still-map _ (Still-map _ (word_array-Still 2)))
                                  (StillCase-if (t == type_uint16_array) _
                                    (Still-map _ (word_array-Still 2))
                                    (StillCase-if (t == type_int32_array) _
                                      (Still-map _ (Still-map _ (word_array-Still 4)))
                                      (StillCase-if (t == type_uint32_array) _
                                        (Still-map _ (word_array-Still 4))
                                        (StillCase-if (t == type_int64_array) _
                                          (Still-map _ (Still-map _ (word_array-Still 8)))
                                          (StillCase-if (t == type_uint64_array) _
                                            (Still-map _ (word_array-Still 8))
                                            (StillCase-if (t == type_byte_array) _
                                              (Still-map _ data_slice-Still)
                                              (StillCase-if (t == type_string_array) _
                                                (Still-map _ get_string_array-Still)
                                                (StillCase-if (t == type_boolean_array) _
                                                  (Still-map _ get_boolean_array-Still)
                                                  tt))))))))))))))))))))))

-- From `s` the reader has moved on; the map may have changed.
abbrev pub GoesOn : {A : Type 0} → NvListReader → Fill A → Type 0
GoesOn s m = (u : Filling) → Onward s u.reader → Halts (λ _ t. Onward s t.reader) (m u)

on_reader-Halts :
    {A : Type 0} {P : A → NvListReader → Type 0} {x : Result A × NvListReader} (es : Entries)
    → Halts P x
    → Halts (λ a t. P a t.reader) (on_reader x es)
unfolding on_reader
on_reader-Halts es (gives p) = gives p
on_reader-Halts es fails = fails
on_reader-Halts es crashes = crashes

on_reader-Ends :
    {A : Type 0} {P : A → NvListReader → Type 0} {Q : Error → NvListReader → Type 0}
    {x : Result A × NvListReader} (es : Entries)
    → Ends P Q x
    → Ends (λ a t. P a t.reader) (λ e t. Q e t.reader) (on_reader x es)
unfolding on_reader
on_reader-Ends es (returns p) = returns p
on_reader-Ends es (raises q) = raises q

set_primitive-GoesOn :
    (s : NvListReader) (name : Bytes) (o : Option (Read Value))
    → StillCase o
    → GoesOn s (set_primitive name o)
unfolding set_primitive
set_primitive-GoesOn s name none h u o = gives o
set_primitive-GoesOn s name (some m) h u o =
    Halts-bind _ (on_reader-Halts u.entries (Still-Goes s h u.reader o)) (λ v t o'. gives o')

-- `again`, the recursive call, ends behind the list that it is called at.
module _ (s : NvListReader) (again : Fill (Unit {0}))
    (ends : (u : Filling)
      → Onward s u.reader
      → Halts (λ _ t. IsEnd u.reader t.reader) (again u)) where
  new_map-Halts :
      {r : NvListReader} {x : Result (Unit {0}) × Filling} (u : Filling)
      → Onward s r
      → Halts (λ _ t. IsEnd r t.reader) x
      → Halts
          (λ _ t. Onward s t.reader)
          (continue {B = Entries}
            (λ _ u. (ok x.1.entries, u))
            x.0
            (record u { reader = x.1.reader }))
  new_map-Halts u o (gives e) = gives (Onward-trans o e)
  new_map-Halts u o fails = fails
  new_map-Halts u o crashes = crashes

  into_new_map-GoesOn : GoesOn s (into_new_map again)
  unfolding into_new_map
  into_new_map-GoesOn u o =
      new_map-Halts u o (ends (record { reader = u.reader; entries = no_entries }) o)

  pub into_new_maps-GoesOn : (n : ℕ) → GoesOn s (into_new_maps again n)
  unfolding into_new_maps
  into_new_maps-GoesOn zero u o = gives o
  into_new_maps-GoesOn (suc n) u o =
      Halts-bind _ (into_new_map-GoesOn u o)
        (λ es t o'. Halts-bind _ (into_new_maps-GoesOn n t o') (λ ms v o''. gives o''))

  unmarshal_value-GoesOn : (t : NvType) (name : Bytes) → GoesOn s (unmarshal_value again t name)
  unfolding unmarshal_value on_reader
  unmarshal_value-GoesOn t name u o = elim (Bool-cases (t == 0)) [
    | inl unknown ↦ rw unknown fails
    | inr known ↦ rw known (elim (Bool-cases (t == 19)) [
      | inl list ↦ rw list (Halts-bind _ (into_new_map-GoesOn u o) (λ es v o'. gives o'))
      | inr other ↦ rw other (elim (Bool-cases (t == 20)) [
        | inl array ↦
            rw array
              (Halts-bind _ (into_new_maps-GoesOn u.reader.num_elements u o) (λ ms v o'. gives o'))
        | inr plain ↦
            rw plain (set_primitive-GoesOn s name (primitive t) (primitive-StillCase t) u o)
      ])
    ])
  ]

pub unmarshal-Halts :
    (f : ℕ) (s : Filling)
    → IsReady s.reader
    → s.reader.pos ≤ length s.reader.bytes
    → length s.reader.bytes < f + s.reader.pos
    → Halts (λ _ t. IsEnd s.reader t.reader) (unmarshal f s)
unfolding unmarshal on_reader
unmarshal-Halts zero s h l k = absurd (omega arith)
unmarshal-Halts (suc f) s h l k =
    Halts-bind _ (Ends-Halts (Ends-eof_as_none (on_reader-Ends s.entries (next-Ends s.reader h))))
      (elim [
        | none ↦ λ t e. gives (e refl)
        | some ty ↦ λ t n.
            Halts-bind _
              (unmarshal_value-GoesOn t.reader (unmarshal f)
                (λ u o.
                  unmarshal-Halts f u (Onward-IsReady o) (onward_room n o) (onward_fuel n o f k))
                ty t.reader.name_bytes t (next-Onward n))
              (λ a u o.
                Halts-weaken
                  (unmarshal-Halts f u (Onward-IsReady o) (onward_room n o) (onward_fuel n o f k))
                  (λ b v e. onward-IsEnd n o e))
      ])

-- `Unmarshal` into a `map[string]any` ends on any bytes whatever: a unit of fuel for each byte and
-- one more are enough for it and for the calls inside. It returns, fails or panics.
pub unmarshal_bytes-fuel :
    (f : ℕ) (bs : Bytes) → length bs < f → (unmarshal_bytes f bs).0 ≢ out_of_fuel
unmarshal_bytes-fuel f bs lt = Halts-fuel (
    unmarshal-Halts f (record { reader = new_reader bs; entries = no_entries })
      (record { started = inl refl; aligned_le = omega arith }) (omega arith) (omega arith))
