-- ===== src/Collector/Pool/Stats/Total.antt =====
-- main.go: the loop of `handlePool` over any response comes to an end.
use prometheus_zfs_exporter.Base.{
  ℕ, zero, suc, ◌+◌, ◌<◌, ◌≤◌, ◌≢◌, refl, arith, inl, none, some, Bytes, length, ◌==◌, ◌||◌,
  out_of_fuel, Ends-eof_as_none,
}
use prometheus_zfs_exporter.Nvlist.Types.{NvType, type_nvlist, type_nvlist_array}
use prometheus_zfs_exporter.Nvlist.Reader.{NvListReader, new_reader}
use prometheus_zfs_exporter.Nvlist.Next.Safety.{IsReady, IsNext, IsEnd, next-Ends}
use prometheus_zfs_exporter.Nvlist.Skip.{skip}
use prometheus_zfs_exporter.Nvlist.Skip.Total.{
  Onward-IsReady, Onward-trans, next-Onward, onward_room, onward_fuel, onward-IsEnd, skip-Ends,
}
use prometheus_zfs_exporter.Nvlist.Access.Halts.{
  Halts, gives, Ends-Halts, Halts-fuel, Halts-bind, Halts-weaken, Still, Still-bind, Still-raise_if,
  get_uint64-Still,
}
use prometheus_zfs_exporter.Collector.Vdev.{empty_info, nil}
use prometheus_zfs_exporter.Nvlist.Skip.Goes.{Goes, Still-Goes, Goes-if}
use prometheus_zfs_exporter.Collector.Vdev.Total.{skip_or_stay, parse_vdevs_from-Halts}
use prometheus_zfs_exporter.Collector.Pool.{pool_stats}
use prometheus_zfs_exporter.Collector.Pool.Stats.{
  PoolStats, empty_stats, read_state, read_error_count, read_vdev_tree, skip_pair, read_pool_pair,
  read_pool_stats, reader_fuel,
}

read_state-Still : (p : PoolStats) (ty : NvType) → Still (read_state p ty)
unfolding read_state
read_state-Still p ty =
    Still-bind (Still-raise_if _ _) (λ a. Still-bind get_uint64-Still (λ b t. gives refl))

read_error_count-Still : (p : PoolStats) (ty : NvType) → Still (read_error_count p ty)
unfolding read_error_count
read_error_count-Still p ty =
    Still-bind (Still-raise_if _ _) (λ a. Still-bind get_uint64-Still (λ b t. gives refl))

module _ {s t : NvListReader} {token : NvType} (n : IsNext s token t) (f : ℕ)
    (k : length s.bytes < suc f + s.pos) where
  read_vdev_tree-Goes : (p : PoolStats) (ty : NvType) → Goes t (read_vdev_tree f p ty)
  unfolding read_vdev_tree
  read_vdev_tree-Goes p ty u o = Halts-bind _ (Still-Goes t (Still-raise_if _ _) u o) (λ a v q.
      Halts-bind _
        (parse_vdevs_from-Halts f (empty_info, nil) v (Onward-IsReady q) (onward_room n q)
          (onward_fuel n q f k))
        (λ b w e. gives (Onward-trans q e)))

  skip_pair-Goes : (p : PoolStats) (ty : NvType) → Goes t (skip_pair f p ty)
  unfolding skip_pair
  skip_pair-Goes p ty =
      skip_or_stay t (skip f)
        (λ u o.
          Halts-weaken
            (Ends-Halts (skip-Ends f u (Onward-IsReady o) (onward_room n o) (onward_fuel n o f k)))
            (λ a v e. e))
        (ty == type_nvlist || ty == type_nvlist_array) p

  read_pool_pair-Goes :
      (p : PoolStats) (ty : NvType) (name : Bytes) → Goes t (read_pool_pair f p ty name)
  unfolding read_pool_pair
  read_pool_pair-Goes p ty name = Goes-if t _ (Still-Goes t (read_state-Still p ty)) (
      Goes-if t _ (Still-Goes t (read_error_count-Still p ty))
        (Goes-if t _ (read_vdev_tree-Goes p ty) (skip_pair-Goes p ty)))

read_pool_stats-Halts :
    (f : ℕ) (p : PoolStats) (s : NvListReader)
    → IsReady s
    → s.pos ≤ length s.bytes
    → length s.bytes < f + s.pos
    → Halts (λ _ t. IsEnd s t) (read_pool_stats f p s)
unfolding read_pool_stats
read_pool_stats-Halts zero p s h l k = absurd (omega arith)
read_pool_stats-Halts (suc f) p s h l k =
    Halts-bind _ (Ends-Halts (Ends-eof_as_none (next-Ends s h))) (elim [
      | none ↦ λ t e. gives (e refl)
      | some ty ↦ λ t n.
          Halts-bind _ (read_pool_pair-Goes n f k p ty t.name_bytes t (next-Onward n)) (λ later u o.
            Halts-weaken
              (read_pool_stats-Halts f later u (Onward-IsReady o) (onward_room n o)
                (onward_fuel n o f k))
              (λ a v e. onward-IsEnd n o e))
    ])

-- The loop of `handlePool` over the response ends on any bytes whatever: a unit of fuel for each
-- byte and one more are enough for it, for `parseVdevs` and for `Skip` inside. It returns, fails or
-- panics.
pub pool_stats-fuel : (bs : Bytes) → pool_stats bs ≢ out_of_fuel
unfolding pool_stats
pool_stats-fuel bs = Halts-fuel (
    read_pool_stats-Halts (reader_fuel bs) empty_stats (new_reader bs)
      (record { started = inl refl; aligned_le = omega arith }) (omega arith) (omega arith))
