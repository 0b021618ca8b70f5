-- ===== src/Collector/Vdev/FirstList.antt =====
-- main.go: what `parseVdevs` does of an array of lists that it has no use for.
use prometheus_zfs_exporter.Base.{
  ℕ, suc, ◌<◌, ◌≡◌, ◌≢◌, ap, ◌∙◌, arith, ◌++◌, append_assoc, Bytes, codes, ne→not-equal, length,
  length-append,
}
use mathlib.Core.Path.{subst}
use prometheus_zfs_exporter.Nvlist.Types.{type_nvlist_array}
use prometheus_zfs_exporter.Nvlist.Reader.{NvListReader, Read}
use prometheus_zfs_exporter.Nvlist.Skip.{skip}
use prometheus_zfs_exporter.Nvlist.Format.{Pair, IsPair, encode_pair}
use prometheus_zfs_exporter.Nvlist.Format.RoundTrip.{after_pair, next_pair}
use prometheus_zfs_exporter.Nvlist.Format.Tree.{
  Items, Lists, list, IsItems, encode_items, encode_lists,
}
use prometheus_zfs_exporter.Nvlist.Format.SkipTree.{
  Stands, after_pair-Stands, skip-Past, length-items,
}
use prometheus_zfs_exporter.Collector.Vdev.{
  Vdev, nil, empty_info, Partial, skip_other, read_vdev_pair, parse_vdevs_from,
}
use prometheus_zfs_exporter.Collector.Vdev.Rounds.{Gives, parse_vdevs_from-round}

skip_other-first_list :
    (p : Pair) (first second : Items) (lists : Lists) (f : ℕ) (so_far : Partial) (s : NvListReader)
    (rest : Bytes)
    → p.ty ≡ type_nvlist_array
    → IsItems first
    → length (encode_items first) < f
    → Stands (encode_lists (list first (list second lists)) ++ rest) s
    → 0 < length rest
    → Gives s
        (encode_items second ++ (encode_lists lists ++ rest))
        so_far
        (skip_other (skip f) so_far p.ty s)
unfolding skip_other encode_lists
skip_other-first_list p first second lists f so_far s rest e h fuel at room =
    let behind = encode_items second ++ (encode_lists lists ++ rest) in
    let here : Stands (encode_items first ++ behind) s =
      subst (λ b. Stands b s) (simp append_assoc) at in
    let (t, eq, past) = skip-Past f s h fuel here (
      omega (
        arith,
        length-append (encode_items second) (encode_lists lists ++ rest),
        length-append (encode_lists lists) rest,
      )) in
    (t, rw (e, eq), past)

-- The pair has none of the names that `parseVdevs` knows.
abbrev pub IsOther : Pair → Type 0
IsOther p =
    (p.name ≢ codes "children")
    × (p.name ≢ codes "type")
    × (p.name ≢ codes "id")
    × (p.name ≢ codes "path")
    × (p.name ≢ codes "vdev_stats")

read_vdev_pair-other :
    (p : Pair) (child : Read Vdev) (skip_list : Read (Unit {0})) (so_far : Partial)
    → IsOther p
    → read_vdev_pair child skip_list so_far p.ty p.name ≡ skip_other skip_list so_far p.ty
unfolding read_vdev_pair
read_vdev_pair-other p child skip_list so_far names = rw (
  ne→not-equal p.name (codes "children") names.0,
  ne→not-equal p.name (codes "type") names.1,
  ne→not-equal p.name (codes "id") names.2,
  ne→not-equal p.name (codes "path") names.3,
  ne→not-equal p.name (codes "vdev_stats") names.4,
)

length-two_lists :
    (first second : Items) (lists : Lists)
    → 3 < length (encode_lists (list first (list second lists)))
unfolding encode_lists
length-two_lists first second lists = omega (
  arith,
  length-append (encode_items first) (encode_lists (list second lists)),
  length-items first,
)

-- At a pair in native encoding, under a name of no use to it, that holds an array of two lists or
-- more, the loop of `parseVdevs`, with fuel for the first list, passes that list only. It goes on
-- with what it had read, in front of the second list, whose pairs it takes for the vdev's own.
pub parse_vdevs_from-first_list :
    (p : Pair) (first second : Items) (lists : Lists) (f : ℕ) (so_far : Partial) (s : NvListReader)
    (rest : Bytes)
    → IsPair p
    → p.ty ≡ type_nvlist_array
    → IsOther p
    → IsItems first
    → length (encode_items first) < f
    → Stands (encode_pair p ++ (encode_lists (list first (list second lists)) ++ rest)) s
    → 0 < length rest
    → (t : NvListReader) × (parse_vdevs_from (suc f) so_far s ≡ parse_vdevs_from f so_far t)
      × Stands (encode_items second ++ (encode_lists lists ++ rest)) t
parse_vdevs_from-first_list p first second lists f so_far s rest fits e names h fuel at room =
    let arrays = encode_lists (list first (list second lists)) in
    let (t, eq, past) =
      skip_other-first_list p first second lists f so_far (after_pair s p) rest e h fuel
        (after_pair-Stands p (arrays ++ rest) at) room in
    (
      t,
      parse_vdevs_from-round f so_far so_far s (after_pair s p) t p.ty
          (next_pair s p (arrays ++ rest) at.alignment_eq at.native at.started fits
            (omega (arith, e)) at.at
            (omega (arith, length-append arrays rest, length-two_lists first second lists)))
          (ap (λ m. m (after_pair s p))
              (read_vdev_pair-other p (parse_vdevs_from f (empty_info, nil)) (skip f) so_far names)
            ∙ eq),
      past.1,
    )
