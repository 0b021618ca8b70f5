-- ===== src/Collector/Pool/Datasets/Response.antt =====
-- main.go: the properties that are read of a whole response to `ZFS_IOC_DATASET_LIST_NEXT`.
use prometheus_zfs_exporter.Base.{
  ℕ, suc, ◌^◌, ◌<◌, ◌≡◌, ap, ◌∙◌, arith, List, ◌++◌, Bytes, All, length, length-append, ok,
}
use prometheus_zfs_exporter.Nvlist.Reader.{new_reader}
use prometheus_zfs_exporter.Nvlist.Format.{stream_header, terminator}
use prometheus_zfs_exporter.Nvlist.Format.Fresh.{begun, begun-Stands, next-stream}
use prometheus_zfs_exporter.Collector.Props.{DatasetProps, empty_props, on_reader}
use prometheus_zfs_exporter.Collector.Props.Values.{PropKey, get_prop, parse_props}
use prometheus_zfs_exporter.Collector.Props.Values.Keys.{prop_name}
use prometheus_zfs_exporter.Collector.Props.Values.Encoded.{at_reader}
use prometheus_zfs_exporter.Collector.Props.Values.Listed.{
  Property, IsProperty, encode_properties, listed, parse_props-listed,
}
use prometheus_zfs_exporter.Collector.Props.Stats.{StatKey, get_stat}
use prometheus_zfs_exporter.Collector.Pool.Stats.{reader_fuel}
use prometheus_zfs_exporter.Collector.Pool.Datasets.{parsed, read_props}

-- The response: the stream's header, the list, and what else the buffer holds.
abbrev pub response : ℕ → ℕ → List Property → Bytes → Bytes
response version flags es rest =
    stream_header version flags ++ (encode_properties es ++ (terminator ++ rest))

parse_props-stream :
    (f version flags : ℕ) (d : DatasetProps) (xs : Bytes)
    → version < 2 ^ 31
    → flags < 2 ^ 32
    → 0 < length xs
    → parse_props (suc f) (at_reader d (new_reader (stream_header version flags ++ xs)))
      ≡ parse_props (suc f) (at_reader d (begun version flags xs))
unfolding parse_props on_reader
parse_props-stream f version flags d xs v g room = rw (next-stream version flags xs v g room)

zero_before : (k : PropKey) → get_prop k empty_props ≡ 0
zero_before k = ground arith

no_stats : (k : StatKey) → get_stat k empty_props ≡ 0
no_stats k = ground arith

-- Of a response that holds a well-formed property list, with more bytes behind it, `parseProps`
-- makes properties whose fields hold the last value listed under their names, and zero if there is
-- none. The kernel's statistics are zero.
pub read_props-listed :
    (version flags : ℕ) (es : List Property) (rest : Bytes)
    → version < 2 ^ 31
    → flags < 2 ^ 32
    → All IsProperty es
    → 0 < length rest
    → (e : DatasetProps) × (read_props (response version flags es rest) ≡ ok e)
      × ((k : PropKey) → get_prop k e ≡ listed (prop_name k) es 0)
      × ((k : StatKey) → get_stat k e ≡ 0)
unfolding read_props
read_props-listed version flags es rest v g h room =
    let xs = encode_properties es ++ (terminator ++ rest) in
    let bs = response version flags es rest in
    let (e, (t, eq, past), fields, stats) =
      parse_props-listed es (reader_fuel bs) empty_props (begun version flags xs) rest h
        (omega (
          arith,
          length-append (stream_header version flags) xs,
          length-append (encode_properties es) (terminator ++ rest),
        ))
        (begun-Stands version flags xs) room in
    (
      e,
      ap parsed (
          parse_props-stream (length bs) version flags empty_props xs v g (
            omega (
              arith,
              length-append (encode_properties es) (terminator ++ rest),
              length-append terminator rest,
            ))
          ∙ eq),
      λ k. fields k ∙ ap (listed (prop_name k) es) (zero_before k),
      λ k. stats k ∙ no_stats k,
    )
