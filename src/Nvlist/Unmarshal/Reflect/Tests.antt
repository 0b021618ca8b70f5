-- ===== src/Nvlist/Unmarshal/Reflect/Tests.antt =====
-- The theorems about `Unmarshal` at a struct of three fields.
use prometheus_zfs_exporter.Base.{
  ◌<◌, ◌≢◌, take, out_of_fuel, ◌≡◌, refl, arith, ◌++◌, [], true, false, none, Bytes, codes, length,
  replicate, equal, ok,
}
use prometheus_zfs_exporter.Nvlist.Reader.{NvListReader}
use prometheus_zfs_exporter.Nvlist.Format.{le_bytes, encode_pair, stream_header}
use prometheus_zfs_exporter.Nvlist.Format.Tree.{Items, leaf, nested, done, more, encode_items}
use prometheus_zfs_exporter.Nvlist.Format.SkipTree.{Stands}
use prometheus_zfs_exporter.Nvlist.Tests.{id_pair, sub_pair, one_item, id_pair-IsPair}
use prometheus_zfs_exporter.Nvlist.Unmarshal.{Entries, no_entries, entry, uint64, submap}
use prometheus_zfs_exporter.Nvlist.Unmarshal.Encoded.{
  EncodesAll, is_uint64, as_leaf, as_done, as_more,
}
use prometheus_zfs_exporter.Nvlist.Unmarshal.RoundTrip.{stream_of}
use prometheus_zfs_exporter.Nvlist.Unmarshal.Target.{
  kind_of, of_uint64, Label, any_at, basic_at, pointer_to, struct_at, Fields, no_fields, field,
  field_at, find_field, field_key, before_comma,
}
use prometheus_zfs_exporter.Nvlist.Unmarshal.Target.Settable.{
  into_basic, store_all, taken, SuitsAll,
}
use prometheus_zfs_exporter.Nvlist.Unmarshal.Reflect.{unmarshal_to}
use prometheus_zfs_exporter.Nvlist.Unmarshal.Reflect.Total.{unmarshal_to-fuel}
use prometheus_zfs_exporter.Nvlist.Unmarshal.Reflect.Stream.{unmarshal_to-unknown_list}

abbrev id_label : Label
id_label = record { name = codes "ID"; tag = codes "id,omitempty"; exported = true }

abbrev sub_label : Label
sub_label = record { name = codes "sub"; tag = []; exported = true }

abbrev note_label : Label
note_label = record { name = codes "note"; tag = []; exported = false }

-- The second field cannot be set in `closed`.
abbrev target : Fields
target =
    field id_label (basic_at of_uint64 none)
      (field sub_label (any_at none) (field note_label (any_at none) no_fields))

abbrev closed : Fields
closed =
    field id_label (basic_at of_uint64 none)
      (field (record sub_label { exported = false }) (any_at none) no_fields)

abbrev pairs : Items
pairs = more (leaf id_pair) (more (nested sub_pair one_item) done)

abbrev one_entry : Entries
one_entry = entry (codes "id") (uint64 7) no_entries

abbrev entries : Entries
entries = entry (codes "id") (uint64 7) (entry (codes "sub") (submap one_entry) no_entries)

one_entry-EncodesAll : EncodesAll one_item one_entry
unfolding le_bytes
one_entry-EncodesAll =
    as_more (as_leaf id_pair-IsPair (is_uint64 [] refl refl (omega arith))) as_done

closed-SuitsAll : SuitsAll true closed one_entry
unfolding SuitsAll field_at find_field field_key before_comma equal kind_of
closed-SuitsAll = (taken refl (into_basic refl), tt)

closed-sub : field_at true (codes "sub") closed ≡ none
unfolding field_at find_field field_key before_comma equal
closed-sub = refl

length-sub : length (encode_pair sub_pair ++ encode_items one_item) < 400
unfolding encode_items encode_pair le_bytes
length-sub = omega arith

length-rest : 0 < length (encode_items one_item ++ replicate 8 0)
unfolding encode_items encode_pair le_bytes
length-rest = omega arith

abbrev stream : Bytes
stream = stream_of 0 0 pairs (replicate 8 0)

unmarshal_to-unknown_list_example :
    (t : NvListReader) × (unmarshal_to 400
        (stream_header 0 0
          ++ ((encode_pair sub_pair ++ encode_items one_item)
              ++ (encode_items one_item ++ replicate 8 0)))
        (pointer_to (struct_at closed))
      ≡ (
        ok tt,
        record { reader = t; target = pointer_to (struct_at (store_all true closed one_entry)) },
      ))
    × Stands (encode_items one_item ++ replicate 8 0) t
unmarshal_to-unknown_list_example =
    unmarshal_to-unknown_list 400 0 0 (encode_items one_item ++ replicate 8 0) (omega arith)
      (omega arith) one_entry-EncodesAll length-rest sub_pair closed (omega arith) refl closed-sub
      closed-SuitsAll length-sub

length-cut : length (take 60 stream) < 61
unfolding stream_header encode_items encode_pair le_bytes
length-cut = omega arith

-- The stream cut off inside its second pair.
unmarshal_to-fuel_example :
    (unmarshal_to 61 (take 60 stream) (pointer_to (struct_at target))).0 ≢ out_of_fuel
unmarshal_to-fuel_example =
    unmarshal_to-fuel 61 (take 60 stream) (pointer_to (struct_at target)) length-cut
