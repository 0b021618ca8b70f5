-- ===== src/Collector/Pool/Stats/Parse.antt =====
-- main.go: the loop of `handlePool` over the response to `ZFS_IOC_POOL_STATS`.
use prometheus_zfs_exporter.Base.{
  ℕ, zero, suc, ◌+◌, ◌^◌, ◌<◌, ◌≡◌, ◌≢◌, refl, ap, ◌∙◌, arith, ◌++◌, append_assoc, Bytes, codes,
  equal, ne→not-equal, length, length-append, ok, err, eof, raise_if, eof_as_none,
}
use mathlib.Core.Path.{subst}
use prometheus_zfs_exporter.Nvlist.Types.{NvType, type_string_array}
use prometheus_zfs_exporter.Nvlist.Reader.{NvListReader, new_reader}
use prometheus_zfs_exporter.Nvlist.Next.{next}
use prometheus_zfs_exporter.Nvlist.Format.{IsPair, encode_pair, stream_header}
use prometheus_zfs_exporter.Nvlist.Format.Words.{At, At-le_bytes, length-le_bytes}
use prometheus_zfs_exporter.Nvlist.Format.RoundTrip.{
  after_pair, next_pair, next-terminator, length-encode_pair,
}
use prometheus_zfs_exporter.Nvlist.Format.Data.{get_uint64-payload}
use prometheus_zfs_exporter.Nvlist.Format.Tree.{pair_of, IsItem-IsPair, IsItem-plain}
use prometheus_zfs_exporter.Nvlist.Format.SkipTree.{Stands, after_pair-Stands}
use prometheus_zfs_exporter.Nvlist.Format.Fresh.{begun, begun-Stands, next-stream}
use prometheus_zfs_exporter.Collector.Vdev.Rounds.{Gives, still, skip-single}
use prometheus_zfs_exporter.Collector.Vdev.Parse.{parse_vdevs-vdev_of}
use prometheus_zfs_exporter.Collector.Pool.{pool_stats}
use prometheus_zfs_exporter.Collector.Pool.Stats.{
  reader_fuel, PoolStats, empty_stats, read_state, read_error_count, read_vdev_tree, skip_pair,
  read_pool_pair, read_pool_stats,
}
use prometheus_zfs_exporter.Collector.Pool.Stats.Encoded.{
  PoolField, state, error_count, vdev_tree, other, PoolFields, done, more, field_pair, encode_value,
  encode_pool, apply, apply_all, IsPoolField, ArePoolFields,
}

field_pair-IsPair : (x : PoolField) → IsPoolField x → IsPair (field_pair x)
field_pair-IsPair (state n) h = omega (arith, length-le_bytes 8 n)
field_pair-IsPair (error_count n) h = omega (arith, length-le_bytes 8 n)
field_pair-IsPair (vdev_tree header xs) h = h.0
field_pair-IsPair (other i) h = IsItem-IsPair h.0

field_pair-plain : (x : PoolField) → IsPoolField x → (field_pair x).ty ≢ type_string_array
field_pair-plain (state n) h = omega arith
field_pair-plain (error_count n) h = omega arith
field_pair-plain (vdev_tree header xs) h = omega arith
field_pair-plain (other i) h = IsItem-plain h.0

-- The chain at a pair.
field_given :
    (x : PoolField) (f : ℕ) (p : PoolStats) (s : NvListReader) (rest : Bytes)
    → IsPoolField x
    → length (encode_value x) < f
    → At s.bytes s.pos (encode_pair (field_pair x) ++ (encode_value x ++ rest))
    → Stands (encode_value x ++ rest) (after_pair s (field_pair x))
    → 0 < length rest
    → Gives
        (after_pair s (field_pair x))
        rest
        (apply x p)
        (read_pool_pair f p (field_pair x).ty (field_pair x).name (after_pair s (field_pair x)))
unfolding read_pool_pair read_state read_error_count read_vdev_tree skip_pair raise_if equal
field_given (state n) f p s rest h fuel at here room =
    still (after_pair s (field_pair (state n))) rest
      (rw (get_uint64-payload s (field_pair (state n)) rest at room n refl h)) here
field_given (error_count n) f p s rest h fuel at here room =
    still (after_pair s (field_pair (error_count n))) rest
      (rw (get_uint64-payload s (field_pair (error_count n)) rest at room n refl h)) here
field_given (vdev_tree header xs) f p s rest h fuel at here room =
    let (t, eq, past) =
      parse_vdevs-vdev_of xs f (after_pair s (field_pair (vdev_tree header xs))) rest h.1 fuel here
        room in
    (t, rw eq, past)
field_given (other i) f p s rest h fuel at here room =
    let (t, eq, past) = skip-single p f (after_pair s (pair_of i)) rest h.0 h.1 fuel here room in
    (
      t,
      rw
          (
            ne→not-equal (pair_of i).name (codes "state") h.2,
            ne→not-equal (pair_of i).name (codes "error_count") h.3,
            ne→not-equal (pair_of i).name (codes "vdev_tree") h.4,
          )
          eq,
      past,
    )

read_pool_stats-round :
    (f : ℕ) (p q : PoolStats) (s t u : NvListReader) (token : NvType)
    → next s ≡ (ok token, t)
    → read_pool_pair f p token t.name_bytes t ≡ (ok q, u)
    → read_pool_stats (suc f) p s ≡ read_pool_stats f q u
unfolding read_pool_stats eof_as_none
read_pool_stats-round f p q s t u token step body = rw (step, body)

read_pool_stats-end :
    (f : ℕ) (p : PoolStats) (s t : NvListReader)
    → next s ≡ (err eof, t)
    → read_pool_stats (suc f) p s ≡ (ok p, t)
unfolding read_pool_stats eof_as_none
read_pool_stats-end f p s t step = rw step

length-encode_pool : (xs : PoolFields) → 3 < length (encode_pool xs)
unfolding encode_pool
length-encode_pool done = omega (arith, length-le_bytes 4 0)
length-encode_pool (more x xs) = omega (
  arith,
  length-append (encode_pair (field_pair x)) (encode_value x ++ encode_pool xs),
  length-append (encode_value x) (encode_pool xs),
  length-encode_pool xs,
)

read_pool_stats-Gives :
    (xs : PoolFields) (f : ℕ) (p : PoolStats) (s : NvListReader) (rest : Bytes)
    → ArePoolFields xs
    → length (encode_pool xs) < f
    → Stands (encode_pool xs ++ rest) s
    → 0 < length rest
    → Gives s rest (apply_all xs p) (read_pool_stats f p s)
unfolding encode_pool
read_pool_stats-Gives xs zero p s rest h fuel at room = absurd (omega arith)
read_pool_stats-Gives done (suc f) p s rest h fuel at room = (
  record s { pos = s.pos + 4 },
  read_pool_stats-end f p s _ (next-terminator s rest at.started at.at room),
  (
    refl,
    record {
      alignment_eq = at.alignment_eq;
      native = at.native;
      started = omega (arith, at.started);
      at = At-le_bytes 4 0 rest s at.at;
    },
  ),
)
read_pool_stats-Gives (more x xs) (suc f) p s rest h fuel at room =
    let pair = field_pair x in
    let behind = encode_pool xs ++ rest in
    let here : Stands (encode_pair pair ++ (encode_value x ++ behind)) s =
      subst (λ b. Stands b s) (simp append_assoc) at in
    let whole = length-append (encode_pair pair) (encode_value x ++ encode_pool xs) in
    let parts = length-append (encode_value x) (encode_pool xs) in
    let first = length-encode_pair pair in
    let after = length-append (encode_pool xs) rest in
    let all = length-append (encode_value x) behind in
    let end = length-encode_pool xs in
    let (t, eq, past) =
      field_given x f p s behind h.0 (omega arith) here.at
        (after_pair-Stands pair (encode_value x ++ behind) here) (omega arith) in
    let (u, eq_u, past_u) =
      read_pool_stats-Gives xs f (apply x p) t rest h.1 (omega arith) past.1 room in
    (
      u,
      read_pool_stats-round f p (apply x p) s (after_pair s pair) t pair.ty
            (next_pair s pair (encode_value x ++ behind) here.alignment_eq here.native here.started
              (field_pair-IsPair x h.0) (field_pair-plain x h.0) here.at (omega arith))
            eq
          ∙ eq_u,
      (past_u.0 ∙ past.0, past_u.1),
    )

read_pool_stats-stream :
    (f version flags : ℕ) (p : PoolStats) (xs : Bytes)
    → version < 2 ^ 31
    → flags < 2 ^ 32
    → 0 < length xs
    → read_pool_stats (suc f) p (new_reader (stream_header version flags ++ xs))
      ≡ read_pool_stats (suc f) p (begun version flags xs)
unfolding read_pool_stats
read_pool_stats-stream f version flags p xs v g room = rw (next-stream version flags xs v g room)

-- Of a response that holds a well-formed pool list, whose other arrays hold one list each, with more
-- bytes behind it, the loop of `handlePool` makes the state, the error count and the vdev tree that
-- the list says, with the last pair of each name.
pub pool_stats-apply_all :
    (version flags : ℕ) (xs : PoolFields) (rest : Bytes)
    → version < 2 ^ 31
    → flags < 2 ^ 32
    → ArePoolFields xs
    → 0 < length rest
    → pool_stats (stream_header version flags ++ (encode_pool xs ++ rest))
      ≡ ok (apply_all xs empty_stats)
unfolding pool_stats
pool_stats-apply_all version flags xs rest v g h room =
    let bytes = encode_pool xs ++ rest in
    let (t, eq, past) =
      read_pool_stats-Gives xs (reader_fuel (stream_header version flags ++ bytes)) empty_stats
        (begun version flags bytes) rest h
        (omega (
          arith,
          length-append (stream_header version flags) bytes,
          length-append (encode_pool xs) rest,
        ))
        (begun-Stands version flags bytes) room in
    ap (λ r. r.0)
      (read_pool_stats-stream (length (stream_header version flags ++ bytes)) version flags
          empty_stats bytes v g (omega (arith, length-append (encode_pool xs) rest))
        ∙ eq)
