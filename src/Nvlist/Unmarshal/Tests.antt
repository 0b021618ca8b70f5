-- ===== src/Nvlist/Unmarshal/Tests.antt =====
-- The theorems about `Unmarshal` at a small stream.
use prometheus_zfs_exporter.Base.{◌≡◌, refl, arith, [], Bytes, codes, replicate, ok, equal}
use prometheus_zfs_exporter.Nvlist.Format.{le_bytes}
use prometheus_zfs_exporter.Nvlist.Tests.{one_item, items, length-items, id_pair-IsPair}
use prometheus_zfs_exporter.Nvlist.Unmarshal.{
  Entries, no_entries, entry, no_maps, one_map, uint64, submap, submaps, map_index, unmarshal_bytes,
  set_map_index,
}
use prometheus_zfs_exporter.Nvlist.Unmarshal.Encoded.{
  set_all, EncodesAll, is_uint64, as_leaf, as_map, as_maps, as_done, as_more, as_empty, as_list,
}
use prometheus_zfs_exporter.Nvlist.Unmarshal.RoundTrip.{
  last_value, stream_of, AreNew, unmarshal_bytes-map_index, unmarshal_bytes-entries,
}

abbrev one_entry : Entries
one_entry = entry (codes "id") (uint64 7) no_entries

abbrev entries : Entries
entries = entry (codes "id") (uint64 7) (
    entry (codes "sub") (submap one_entry)
      (entry (codes "kids") (submaps (one_map one_entry (one_map no_entries no_maps))) no_entries))

one_entry-EncodesAll : EncodesAll one_item one_entry
unfolding le_bytes
one_entry-EncodesAll =
    as_more (as_leaf id_pair-IsPair (is_uint64 [] refl refl (omega arith))) as_done

entries-EncodesAll : EncodesAll items entries
unfolding le_bytes set_all set_map_index
entries-EncodesAll = as_more (as_leaf id_pair-IsPair (is_uint64 [] refl refl (omega arith))) (
    as_more (as_map (omega arith) refl one_entry-EncodesAll) (
      as_more
        (as_maps (omega arith) refl refl (as_list one_entry-EncodesAll (as_list as_done as_empty)))
        as_done))

abbrev stream : Bytes
stream = stream_of 0 0 items (replicate 8 0)

unmarshal_bytes-map_index_example :
    ((unmarshal_bytes 400 stream).0 ≡ ok tt)
    × ((k : Bytes) → map_index k (unmarshal_bytes 400 stream).1.entries ≡ last_value k entries)
unmarshal_bytes-map_index_example =
    unmarshal_bytes-map_index 400 0 0 (replicate 8 0) (omega arith) (omega arith) entries-EncodesAll
      (omega arith) length-items

entries-AreNew : AreNew no_entries entries
unfolding map_index set_map_index equal
entries-AreNew = (refl, (refl, (refl, tt)))

entries_in_order : (unmarshal_bytes 400 stream).1.entries ≡ entries
entries_in_order =
    unmarshal_bytes-entries 400 0 0 (replicate 8 0) (omega arith) (omega arith) entries-EncodesAll
      (omega arith) length-items entries-AreNew
