-- ===== src/Collector/Vdev/Parse.antt =====
-- main.go: `parseVdevs` builds the tree that the kernel's list stands for.
use prometheus_zfs_exporter.Base.{
  ℕ, zero, suc, ◌+◌, ◌<◌, refl, ◌∙◌, arith, ◌++◌, append_assoc, Bytes, codes, equal, ne→not-equal,
  length, length-append, raise_if,
}
use mathlib.Core.Path.{subst}
use prometheus_zfs_exporter.Nvlist.Reader.{NvListReader}
use prometheus_zfs_exporter.Nvlist.Access.{repeat_into}
use prometheus_zfs_exporter.Nvlist.Skip.{skip}
use prometheus_zfs_exporter.Nvlist.Format.{encode_pair}
use prometheus_zfs_exporter.Nvlist.Format.Words.{At, At-le_bytes}
use prometheus_zfs_exporter.Nvlist.Format.RoundTrip.{after_pair, next_pair, next-terminator}
use prometheus_zfs_exporter.Nvlist.Format.Data.{get_uint64-payload}
use prometheus_zfs_exporter.Nvlist.Format.Values.{get_string-payload, get_uint64_array-payload}
use prometheus_zfs_exporter.Nvlist.Format.Tree.{pair_of}
use prometheus_zfs_exporter.Nvlist.Format.SkipTree.{Stands, after_pair-Stands}
use prometheus_zfs_exporter.Collector.Vdev.{
  node, nil, empty_info, Partial, read_children, read_type, read_id, read_path, read_stats,
  skip_other, read_vdev_pair, parse_vdevs_from, parse_vdevs,
}
use prometheus_zfs_exporter.Collector.Vdev.Stats.{parse_vdev_stats-stats_of}
use prometheus_zfs_exporter.Collector.Vdev.Encoded.{
  Field, Fields, Forest, count_trees, field_pair, encode_value, encode_fields, encode_forest, apply,
  apply_all, vdev_of, vdevs_of, IsField, is_kind, is_ident, is_place, is_numbers, is_children,
  is_other, IsFields, is_done, is_more, IsForest, is_bare, is_tree,
}
use prometheus_zfs_exporter.Collector.Vdev.Rounds.{
  Gives, field_pair-IsPair, field_pair-plain, skip-single, parse_vdevs_from-round,
  parse_vdevs_from-end, field_space, still,
}

mutual
  unfolding read_vdev_pair skip_other read_children read_type read_id read_path read_stats raise_if
      equal apply encode_value encode_fields encode_forest vdevs_of repeat_into

  field_given :
      {x : Field} (f : ℕ) (so_far : Partial) (s : NvListReader) (rest : Bytes)
      → IsField x
      → length (encode_value x) < f
      → At s.bytes s.pos (encode_pair (field_pair x) ++ (encode_value x ++ rest))
      → Stands (encode_value x ++ rest) (after_pair s (field_pair x))
      → 0 < length rest
      → Gives (after_pair s (field_pair x)) rest (apply x so_far) (
          read_vdev_pair
            (parse_vdevs_from f (empty_info, nil))
            (skip f)
            so_far
            (field_pair x).ty
            (field_pair x).name
            (after_pair s (field_pair x)))
  field_given {x} f so_far s rest (is_kind {s = str} h n) fuel at here room =
      still (after_pair s (field_pair x)) rest
        (rw (get_string-payload s (field_pair x) rest at room str refl n)) here
  field_given {x} f so_far s rest (is_ident {n} h) fuel at here room =
      still (after_pair s (field_pair x)) rest
        (rw (get_uint64-payload s (field_pair x) rest at room n refl h)) here
  field_given {x} f so_far s rest (is_place {s = str} h n) fuel at here room =
      still (after_pair s (field_pair x)) rest
        (rw (get_string-payload s (field_pair x) rest at room str refl n)) here
  field_given {x} f so_far s rest (is_numbers {vs} h small long) fuel at here room =
      still (after_pair s (field_pair x)) rest
        (rw (
          get_uint64_array-payload s (field_pair x) rest at room vs refl refl small,
          parse_vdev_stats-stats_of vs (after_pair s (field_pair x)) long,
        ))
        here
  field_given {x} f so_far s rest (is_children {headers} {ts} h ok_trees) fuel at here room =
      let (t, eq, past) =
        forest_given f (after_pair s (field_pair x)) rest ok_trees fuel here room in
      (t, rw eq, past)
  field_given {x} f so_far s rest (is_other {i} ok_item one names) fuel at here room =
      let (t, eq, past) =
        skip-single so_far f (after_pair s (pair_of i)) rest ok_item one fuel here room in
      (
        t,
        rw
            (
              ne→not-equal (pair_of i).name (codes "children") names.0,
              ne→not-equal (pair_of i).name (codes "type") names.1,
              ne→not-equal (pair_of i).name (codes "id") names.2,
              ne→not-equal (pair_of i).name (codes "path") names.3,
              ne→not-equal (pair_of i).name (codes "vdev_stats") names.4,
            )
            eq,
        past,
      )

  fields_given :
      {xs : Fields} (f : ℕ) (so_far : Partial) (s : NvListReader) (rest : Bytes)
      → IsFields xs
      → length (encode_fields xs) < f
      → Stands (encode_fields xs ++ rest) s
      → 0 < length rest
      → Gives s rest
          (node (apply_all xs so_far).0 (apply_all xs so_far).1)
          (parse_vdevs_from f so_far s)
  fields_given zero so_far s rest h fuel at room = absurd (omega arith)
  fields_given (suc f) so_far s rest is_done fuel at room = (
    record s { pos = s.pos + 4 },
    parse_vdevs_from-end f so_far s _ (next-terminator s rest at.started at.at room),
    (
      refl,
      record {
        alignment_eq = at.alignment_eq;
        native = at.native;
        started = omega (arith, at.started);
        at = At-le_bytes 4 0 rest s at.at;
      },
    ),
  )
  fields_given (suc f) so_far s rest (is_more {x} {xs} ok_field ok_fields) fuel at room =
      let p = field_pair x in
      let behind = encode_fields xs ++ rest in
      let here : Stands (encode_pair p ++ (encode_value x ++ behind)) s =
        subst (λ b. Stands b s) (simp append_assoc) at in
      let space = field_space x xs rest in
      let (t, eq, past) =
        field_given f so_far s behind ok_field (omega arith) here.at
          (after_pair-Stands p (encode_value x ++ behind) here) (omega arith) in
      let (u, eq_u, past_u) =
        fields_given f (apply x so_far) t rest ok_fields (omega arith) past.1 room in
      (
        u,
        parse_vdevs_from-round f so_far (apply x so_far) s (after_pair s p) t p.ty
              (next_pair s p (encode_value x ++ behind) here.alignment_eq here.native here.started
                (field_pair-IsPair ok_field) (field_pair-plain ok_field) here.at (omega arith))
              eq
            ∙ eq_u,
        (past_u.0 ∙ past.0, past_u.1),
      )

  forest_given :
      {ts : Forest} (f : ℕ) (s : NvListReader) (rest : Bytes)
      → IsForest ts
      → length (encode_forest ts) < f
      → Stands (encode_forest ts ++ rest) s
      → 0 < length rest
      → Gives s rest
          (vdevs_of ts)
          (repeat_into (count_trees ts) (parse_vdevs_from f (empty_info, nil)) s)
  forest_given f s rest is_bare fuel at room = (s, refl, (refl, at))
  forest_given f s rest (is_tree {xs} {ts} ok_fields ok_trees) fuel at room =
      let here : Stands (encode_fields xs ++ (encode_forest ts ++ rest)) s =
        subst (λ b. Stands b s) (append_assoc (encode_fields xs) (encode_forest ts) rest) at in
      let both = length-append (encode_fields xs) (encode_forest ts) in
      let (t, eq, past) =
        fields_given f (empty_info, nil) s (encode_forest ts ++ rest) ok_fields (omega arith) here
          (omega (arith, length-append (encode_forest ts) rest)) in
      let (u, eq_u, past_u) = forest_given f t rest ok_trees (omega arith) past.1 room in
      (u, rw (eq, eq_u), (past_u.0 ∙ past.0, past_u.1))

-- `parseVdevs` on a well-formed vdev list in native encoding, whose other arrays hold one list each,
-- with more bytes behind it and fuel above its length, returns the tree that the list stands for and
-- leaves the reader behind the list.
pub parse_vdevs-vdev_of :
    (xs : Fields) (f : ℕ) (s : NvListReader) (rest : Bytes)
    → IsFields xs
    → length (encode_fields xs) < f
    → Stands (encode_fields xs ++ rest) s
    → 0 < length rest
    → Gives s rest (vdev_of xs) (parse_vdevs f s)
parse_vdevs-vdev_of xs f s rest h fuel at room =
    fields_given f (empty_info, nil) s rest h fuel at room
