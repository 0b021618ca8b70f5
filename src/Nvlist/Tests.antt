-- ===== src/Nvlist/Tests.antt =====
-- A small list in native encoding, and the theorems about `Next` and `Skip` at it.
use prometheus_zfs_exporter.Base.{
  ◌+◌, ◌<◌, ◌≡◌, ◌≢◌, refl, inl, arith, [], ◌∷◌, ◌++◌, Bytes, codes, length, replicate, ok, eof,
  Ends, ℤ, err, invalid_data,
}
use prometheus_zfs_exporter.Nvlist.Access.{
  byte_at, scan_until, bytes_until_delimiter, get_string, get_string_array,
}
use prometheus_zfs_exporter.Nvlist.Access.Arrays.{get_string_array-repeats}
use prometheus_zfs_exporter.Nvlist.Format.Exact.{next-last_terminator}
use prometheus_zfs_exporter.Nvlist.Format.{
  terminator, Pair, IsPair, le_bytes, encode_pair, stream_header,
}
use prometheus_zfs_exporter.Nvlist.Types.{type_string, type_uint64, type_nvlist, type_nvlist_array}
use prometheus_zfs_exporter.Nvlist.Types.Names.{type_name-injective}
use prometheus_zfs_exporter.Nvlist.Reader.{NvListReader, new_reader}
use prometheus_zfs_exporter.Nvlist.Next.{next}
use prometheus_zfs_exporter.Nvlist.Next.Safety.{IsNext, IsEnd, NextErr, next-Ends}
use prometheus_zfs_exporter.Nvlist.Skip.{skip}
use prometheus_zfs_exporter.Nvlist.Skip.Total.{skip-Ends}
use prometheus_zfs_exporter.Nvlist.Format.Words.{At}
use prometheus_zfs_exporter.Nvlist.Format.RoundTrip.{after_pair, next_pair}
use prometheus_zfs_exporter.Nvlist.Format.Tree.{
  Items, leaf, nested, array, done, more, empty, list, encode_items, IsItems, is_leaf, is_nested,
  is_array, is_done, is_more, is_empty, is_list,
}
use prometheus_zfs_exporter.Nvlist.Format.SkipTree.{Stands, skip_items}

-- id = 7
abbrev pub id_pair : Pair
id_pair = record {
  name = codes "id";
  ty = type_uint64;
  count = 1;
  payload = 7 ∷ 0 ∷ 0 ∷ 0 ∷ 0 ∷ 0 ∷ 0 ∷ 0 ∷ [];
}

abbrev pub sub_pair : Pair
sub_pair = record { name = codes "sub"; ty = type_nvlist; count = 1; payload = replicate 24 0 }

abbrev pub kids_pair : Pair
kids_pair = record {
  name = codes "kids";
  ty = type_nvlist_array;
  count = 2;
  payload = replicate 64 0;
}

abbrev pub one_item : Items
one_item = more (leaf id_pair) done

abbrev pub items : Items
items = more (leaf id_pair) (
    more (nested sub_pair one_item) (more (array kids_pair (list one_item (list done empty))) done))

abbrev buffer : Bytes
buffer = stream_header 0 0 ++ (encode_items items ++ replicate 8 0)

-- The reader behind the stream's header.
abbrev begun : NvListReader
begun = record (new_reader buffer) { pos = 12; alignment = 8 }

begun-Stands : Stands (encode_items items ++ replicate 8 0) begun
unfolding stream_header le_bytes
begun-Stands = record { alignment_eq = refl; native = refl; started = omega arith; at = refl }

pub id_pair-IsPair : IsPair id_pair
id_pair-IsPair = omega arith

one_item-IsItems : IsItems one_item
one_item-IsItems =
    is_more (is_leaf id_pair-IsPair (omega arith) (omega arith) (omega arith)) is_done

items-IsItems : IsItems items
items-IsItems = is_more (is_leaf id_pair-IsPair (omega arith) (omega arith) (omega arith)) (
    is_more (is_nested (omega arith) refl one_item-IsItems) (
      is_more
        (is_array (omega arith) refl refl (is_list one_item-IsItems (is_list is_done is_empty)))
        is_done))

pub length-items : length (encode_items items) < 400
unfolding encode_items encode_pair le_bytes
length-items = omega arith

length-buffer : length buffer < 420
unfolding stream_header encode_items encode_pair le_bytes
length-buffer = omega arith

next-Ends_example :
    Ends (IsNext (new_reader buffer)) (NextErr (new_reader buffer)) (next (new_reader buffer))
next-Ends_example =
    next-Ends (new_reader buffer) (record { started = inl refl; aligned_le = omega arith })

skip-Ends_example :
    Ends (λ _ t. IsEnd (new_reader buffer) t) (λ e _. e ≢ eof) (skip 500 (new_reader buffer))
skip-Ends_example =
    skip-Ends 500 (new_reader buffer) (record { started = inl refl; aligned_le = omega arith })
      (omega arith) (omega (arith, length-buffer))

begun-At : At buffer 12 (
    encode_pair id_pair
    ++ (encode_items (
          more
            (nested sub_pair one_item)
            (more (array kids_pair (list one_item (list done empty))) done))
        ++ replicate 8 0))
unfolding stream_header encode_items encode_pair le_bytes
begun-At = refl

next_pair_example : next begun ≡ (ok type_uint64, after_pair begun id_pair)
next_pair_example =
    next_pair begun id_pair _ refl refl (omega arith) id_pair-IsPair (omega arith) begun-At
      (unfold encode_items encode_pair le_bytes in omega arith)

skip_items_example :
    ((skip 400 begun).0 ≡ ok tt)
    × ((skip 400 begun).1.bytes ≡ buffer)
    × ((skip 400 begun).1.pos ≡ 12 + length (encode_items items))
skip_items_example =
    skip_items items (replicate 8 0) begun 400 items-IsItems begun-Stands (omega arith) length-items

-- A string array of "a" and "b".
abbrev two_strings : NvListReader
two_strings = record (new_reader (codes "a" ++ 0 ∷ (codes "b" ++ 0 ∷ []))) {
  num_elements = 2;
  data_len = ℤ.pos 4;
}

two_strings-first : get_string two_strings ≡ (ok (codes "a"), two_strings)
unfolding bytes_until_delimiter scan_until byte_at
two_strings-first = refl

get_string_array-repeats_example :
    get_string_array two_strings ≡ (ok (replicate 2 (codes "a")), two_strings)
get_string_array-repeats_example =
    get_string_array-repeats two_strings (codes "a") two_strings-first

-- An empty list behind its header, which ends with its terminator.
abbrev complete : NvListReader
complete = record (new_reader (stream_header 0 0 ++ terminator)) { pos = 12; alignment = 8 }

complete-At : At complete.bytes 12 terminator
unfolding stream_header le_bytes
complete-At = refl

next-last_terminator_example : next complete ≡ (err invalid_data, complete)
next-last_terminator_example = next-last_terminator complete (omega arith) complete-At

string_named_alone : 9 ≡ type_string
string_named_alone = type_name-injective 9 type_string (omega arith) refl
