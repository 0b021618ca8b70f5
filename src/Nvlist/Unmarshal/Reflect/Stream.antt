-- ===== src/Nvlist/Unmarshal/Reflect/Stream.antt =====
-- zfs/nvlist/decode.go: the package's `Unmarshal` on a whole stream, into a struct.
use prometheus_zfs_exporter.Base.{
  ℕ, zero, suc, ◌^◌, ◌<◌, ◌≡◌, refl, ap, ◌∙◌, arith, [], ◌++◌, true, none, Bytes, length,
  length-append, ok,
}
use prometheus_zfs_exporter.Nvlist.Types.{type_nvlist}
use prometheus_zfs_exporter.Nvlist.Reader.{NvListReader, new_reader}
use prometheus_zfs_exporter.Nvlist.Format.{Pair, IsPair, encode_pair, stream_header}
use prometheus_zfs_exporter.Nvlist.Format.RoundTrip.{after_pair}
use prometheus_zfs_exporter.Nvlist.Format.Tree.{Items, encode_items}
use prometheus_zfs_exporter.Nvlist.Format.Fresh.{begun, begun-Stands, next-stream}
use prometheus_zfs_exporter.Nvlist.Format.SkipTree.{Stands, after_pair-Stands, length-items}
use prometheus_zfs_exporter.Nvlist.Unmarshal.{Entries}
use prometheus_zfs_exporter.Nvlist.Unmarshal.Encoded.{EncodesAll}
use prometheus_zfs_exporter.Nvlist.Unmarshal.Target.{pointer_to, struct_at, Fields, field_at}
use prometheus_zfs_exporter.Nvlist.Unmarshal.Target.Settable.{store_all, SuitsAll}
use prometheus_zfs_exporter.Nvlist.Unmarshal.Reflect.{
  on_source, store_list, store_token, enter_target, enter, store_pairs, unmarshal_to,
}
use prometheus_zfs_exporter.Nvlist.Unmarshal.Reflect.Stores.{at_struct, store_body}
use prometheus_zfs_exporter.Nvlist.Unmarshal.Reflect.Struct.{
  StoresFrom, stores-more, items-StoresFrom,
}

store_pairs-stream :
    (f version flags : ℕ) (xs : Bytes) (fs : Fields)
    → version < 2 ^ 31
    → flags < 2 ^ 32
    → 0 < length xs
    → store_pairs (suc f) true (at_struct (new_reader (stream_header version flags ++ xs)) fs)
      ≡ store_pairs (suc f) true (at_struct (begun version flags xs) fs)
unfolding store_pairs on_source
store_pairs-stream f version flags xs fs v g room = rw (next-stream version flags xs v g room)

-- The call on a stream whose first pairs the loop stores.
unmarshal_to-StoresFrom :
    (f version flags : ℕ) (xs rest : Bytes) (fs fs' : Fields)
    → version < 2 ^ 31
    → flags < 2 ^ 32
    → StoresFrom true xs fs fs'
    → 0 < length rest
    → length xs < f
    → (t : NvListReader) × (unmarshal_to f
          (stream_header version flags ++ (xs ++ rest))
          (pointer_to (struct_at fs))
        ≡ (ok tt, record { reader = t; target = pointer_to (struct_at fs') }))
      × Stands rest t
unfolding unmarshal_to enter enter_target
unmarshal_to-StoresFrom zero version flags xs rest fs fs' v g stores room lt = absurd (omega arith)
unmarshal_to-StoresFrom (suc f) version flags xs rest fs fs' v g stores room lt =
    let ys = xs ++ rest in
    let (t, filled, past) =
      stores (suc f) (begun version flags ys) rest lt (begun-Stands version flags ys) room in
    (
      t,
      rw (
          store_pairs-stream f version flags ys fs v g (omega (arith, length-append xs rest))
          ∙ filled),
      past.1,
    )

-- A list under no field that can be set: nothing is called.
unknown_list :
    (f : ℕ) (name : Bytes) (s : NvListReader) (fs : Fields)
    → field_at true name fs ≡ none
    → store_body f true type_nvlist name (at_struct s fs) ≡ (ok tt, at_struct s fs)
unfolding store_token store_list
unknown_list f name s fs missing = rw missing

module _ (f version flags : ℕ) {items : Items} {es : Entries} (rest : Bytes)
    (is_version : version < 2 ^ 31) (is_flags : flags < 2 ^ 32) (all : EncodesAll items es)
    (room : 0 < length rest) where
  -- On a stream in native encoding whose first pair holds a list that no field of the struct which
  -- can be set is there for, `Unmarshal` into the struct does not pass over the list. If the list
  -- holds no arrays of strings or of booleans and no arrays of lists, and each of its pairs stands
  -- under no field that can be set, or one that takes the value, with the lists under fields of
  -- type `any`, then `Unmarshal` stores its pairs in the struct's own fields, and returns without
  -- error where the list ends, before the rest of the list round it.
  pub unmarshal_to-unknown_list :
      (p : Pair) (fs : Fields)
      → IsPair p
      → p.ty ≡ type_nvlist
      → field_at true p.name fs ≡ none
      → SuitsAll true fs es
      → length (encode_pair p ++ encode_items items) < f
      → (t : NvListReader) × (unmarshal_to f
            (stream_header version flags ++ ((encode_pair p ++ encode_items items) ++ rest))
            (pointer_to (struct_at fs))
          ≡ (ok tt, record { reader = t; target = pointer_to (struct_at (store_all true fs es)) }))
        × Stands rest t
  unmarshal_to-unknown_list p fs fits e missing suits fuel =
      unmarshal_to-StoresFrom f version flags (encode_pair p ++ encode_items items) rest fs
        (store_all true fs es) is_version is_flags
        (stores-more true fs fs _ p [] (encode_items items) fits (omega arith) (length-items items)
          (λ f s rest room at after. (
            after_pair s p,
            ap (λ ty. store_body f true ty p.name (at_struct (after_pair s p) fs)) e
                ∙ unknown_list f p.name (after_pair s p) fs missing,
            (refl, after_pair-Stands p rest at),
          ))
          (items-StoresFrom true fs all suits))
        room fuel
