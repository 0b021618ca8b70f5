-- ===== src/Collector/Vdev/Total.antt =====
-- main.go: `parseVdevs` on any bytes comes to an end.
use prometheus_zfs_exporter.Base.{
  ℕ, zero, suc, ◌+◌, ◌<◌, ◌≤◌, ◌≡◌, ◌≢◌, refl, arith, none, some, List, Bool, true, false, Bytes,
  length, ltb, ◌==◌, ◌||◌, if◌then◌else◌, ok, panicked, out_of_fuel, index_range, pure, ◌>>◌,
  Ends-eof_as_none,
}
use prometheus_zfs_exporter.Nvlist.Types.{NvType, type_nvlist, type_nvlist_array}
use prometheus_zfs_exporter.Nvlist.Reader.{NvListReader, Read}
use prometheus_zfs_exporter.Nvlist.Next.Safety.{IsReady, IsEnd, next-Ends}
use prometheus_zfs_exporter.Nvlist.Skip.{skip}
use prometheus_zfs_exporter.Nvlist.Skip.Total.{
  Onward, Onward-IsReady, Onward-trans, next-Onward, onward_room, onward_fuel, onward-IsEnd,
  skip-Ends,
}
use prometheus_zfs_exporter.Nvlist.Access.Halts.{
  Halts, gives, crashes, Ends-Halts, Halts-fuel, Halts-bind, Halts-weaken, Still, Still-bind,
  Still-raise_if, get_uint64-Still, get_uint64_array-Still, get_string-Still,
}
use prometheus_zfs_exporter.Nvlist.Skip.Goes.{Goes, Still-Goes, Goes-if, repeat_into-Goes}
use prometheus_zfs_exporter.Collector.Vdev.{
  Vdev, Partial, nil, empty_info, parse_vdev_stats, read_children, read_type, read_id, read_path,
  read_stats, skip_other, read_vdev_pair, parse_vdevs_from, parse_vdevs,
}
use prometheus_zfs_exporter.Collector.Vdev.Stats.{stats_of, parse_vdev_stats-bounds}

by_length :
    (b : Bool) (vs : List ℕ) (s : NvListReader)
    → Halts (λ _ t. t ≡ s) (if b then ok (stats_of vs) else panicked index_range, s)
by_length true vs s = gives refl
by_length false vs s = crashes

parse_vdev_stats-Still : (vs : List ℕ) → Still (parse_vdev_stats vs)
parse_vdev_stats-Still vs s =
    rw (parse_vdev_stats-bounds vs s) (by_length (ltb 28 (length vs)) vs s)

read_type-Still : (so_far : Partial) (ty : NvType) → Still (read_type so_far ty)
unfolding read_type
read_type-Still so_far ty =
    Still-bind (Still-raise_if _ _) (λ a. Still-bind get_string-Still (λ b t. gives refl))

read_id-Still : (so_far : Partial) (ty : NvType) → Still (read_id so_far ty)
unfolding read_id
read_id-Still so_far ty =
    Still-bind (Still-raise_if _ _) (λ a. Still-bind get_uint64-Still (λ b t. gives refl))

read_path-Still : (so_far : Partial) (ty : NvType) → Still (read_path so_far ty)
unfolding read_path
read_path-Still so_far ty =
    Still-bind (Still-raise_if _ _) (λ a. Still-bind get_string-Still (λ b t. gives refl))

read_stats-Still : (so_far : Partial) (ty : NvType) → Still (read_stats so_far ty)
unfolding read_stats
read_stats-Still so_far ty = Still-bind (Still-raise_if _ _) (λ a.
    Still-bind get_uint64_array-Still
      (λ vs. Still-bind (parse_vdev_stats-Still vs) (λ b t. gives refl)))

-- `if b { skip_list() }`, as for a pair of no use.
pub skip_or_stay :
    {A : Type 0} (s : NvListReader) (skip_list : Read (Unit {0}))
    → ((u : NvListReader) → Onward s u → Halts (λ _ t. IsEnd u t) (skip_list u))
    → (b : Bool) (a : A) → Goes s (if b then (do skip_list; pure a) else pure a)
skip_or_stay s skip_list ends true a u o =
    Halts-bind (λ _. pure a) (ends u o) (λ b t e. gives (Onward-trans o e))
skip_or_stay s skip_list ends false a u o = gives o

-- `child` and `skip_list`, the recursive calls, end behind the list that they are called at.
module _ (s : NvListReader) (child : Read Vdev) (skip_list : Read (Unit {0}))
    (child_ends : (u : NvListReader) → Onward s u → Halts (λ _ t. IsEnd u t) (child u))
    (skip_ends : (u : NvListReader) → Onward s u → Halts (λ _ t. IsEnd u t) (skip_list u)) where
  read_children-Goes : (so_far : Partial) (ty : NvType) → Goes s (read_children child so_far ty)
  unfolding read_children
  read_children-Goes so_far ty u o = Halts-bind _ (Still-Goes s (Still-raise_if _ _) u o) (λ a t o'.
      Halts-bind _
        (repeat_into-Goes s t.num_elements child
          (λ v q. Halts-weaken (child_ends v q) (λ b w e. Onward-trans q e)) t o')
        (λ b v o''. gives o''))

  skip_other-Goes : (so_far : Partial) (ty : NvType) → Goes s (skip_other skip_list so_far ty)
  unfolding skip_other
  skip_other-Goes so_far ty =
      skip_or_stay s skip_list skip_ends (ty == type_nvlist || ty == type_nvlist_array) so_far

  read_vdev_pair-Goes :
      (so_far : Partial) (ty : NvType) (name : Bytes)
      → Goes s (read_vdev_pair child skip_list so_far ty name)
  unfolding read_vdev_pair
  read_vdev_pair-Goes so_far ty name = Goes-if s _ (read_children-Goes so_far ty) (
      Goes-if s _ (Still-Goes s (read_type-Still so_far ty)) (
        Goes-if s _ (Still-Goes s (read_id-Still so_far ty)) (
          Goes-if s _ (Still-Goes s (read_path-Still so_far ty))
            (Goes-if s _ (Still-Goes s (read_stats-Still so_far ty)) (skip_other-Goes so_far ty)))))

pub parse_vdevs_from-Halts :
    (f : ℕ) (so_far : Partial) (s : NvListReader)
    → IsReady s
    → s.pos ≤ length s.bytes
    → length s.bytes < f + s.pos
    → Halts (λ _ t. IsEnd s t) (parse_vdevs_from f so_far s)
unfolding parse_vdevs_from
parse_vdevs_from-Halts zero so_far s h l k = absurd (omega arith)
parse_vdevs_from-Halts (suc f) so_far s h l k =
    Halts-bind _ (Ends-Halts (Ends-eof_as_none (next-Ends s h))) (elim [
      | none ↦ λ t e. gives (e refl)
      | some ty ↦ λ t n.
          Halts-bind _
            (read_vdev_pair-Goes t (parse_vdevs_from f (empty_info, nil)) (skip f)
              (λ u o.
                parse_vdevs_from-Halts f (empty_info, nil) u (Onward-IsReady o) (onward_room n o)
                  (onward_fuel n o f k))
              (λ u o.
                Halts-weaken
                  (Ends-Halts
                    (skip-Ends f u (Onward-IsReady o) (onward_room n o) (onward_fuel n o f k)))
                  (λ a v e. e))
              so_far ty t.name_bytes t (next-Onward n))
            (λ later u o.
              Halts-weaken
                (parse_vdevs_from-Halts f later u (Onward-IsReady o) (onward_room n o)
                  (onward_fuel n o f k))
                (λ a v e. onward-IsEnd n o e))
    ])

-- On any bytes, well-formed or not, `parseVdevs` with more fuel than bytes that are left does not
-- run out of it, from a reader fit for `Next`: it returns, fails or panics.
pub parse_vdevs-fuel :
    (f : ℕ) (s : NvListReader)
    → IsReady s
    → s.pos ≤ length s.bytes
    → length s.bytes < f + s.pos
    → (parse_vdevs f s).0 ≢ out_of_fuel
parse_vdevs-fuel f s h l k = Halts-fuel (parse_vdevs_from-Halts f (empty_info, nil) s h l k)
