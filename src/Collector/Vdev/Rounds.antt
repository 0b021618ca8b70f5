-- ===== src/Collector/Vdev/Rounds.antt =====
-- main.go: the rounds of `parseVdevs`, one by one.
use prometheus_zfs_exporter.Base.{
  ℕ, suc, ◌+◌, ◌<◌, ◌≤◌, ◌≡◌, ◌≢◌, refl, arith, [], ◌++◌, append-nil, Bytes, ne→not-==, ◌==◌, ◌||◌,
  if◌then◌else◌, pure, ◌>>◌, length, length-append, Result, ok, err, eof, eof_as_none,
}
use mathlib.Core.Path.{subst}
use prometheus_zfs_exporter.Nvlist.Types.{NvType, type_nvlist, type_nvlist_array, type_string_array}
use prometheus_zfs_exporter.Nvlist.Reader.{NvListReader}
use prometheus_zfs_exporter.Nvlist.Next.{next}
use prometheus_zfs_exporter.Nvlist.Skip.{skip}
use prometheus_zfs_exporter.Nvlist.Format.{IsPair, encode_pair}
use prometheus_zfs_exporter.Nvlist.Format.Words.{length-le_bytes}
use prometheus_zfs_exporter.Nvlist.Format.RoundTrip.{length-encode_pair}
use prometheus_zfs_exporter.Nvlist.Format.Tree.{
  Item, pair_of, value_of, IsItem, is_leaf, is_nested, is_array, is_list, is_empty, IsItem-IsPair,
  IsItem-plain, encode_items,
}
use prometheus_zfs_exporter.Nvlist.Format.SkipTree.{Stands, Past, skip-Past}
use prometheus_zfs_exporter.Collector.Vdev.{
  node, nil, empty_info, Partial, read_vdev_pair, parse_vdevs_from,
}
use prometheus_zfs_exporter.Collector.Vdev.Encoded.{
  Field, Fields, done, more, field_pair, encode_value, encode_fields, IsSingle, IsField, is_kind,
  is_ident, is_place, is_numbers, is_children, is_other,
}

-- A call that returns `a` and leaves the reader before `rest` in the same buffer.
abbrev pub Gives : {A : Type 0} → NvListReader → Bytes → A → Result A × NvListReader → Type 0
Gives s rest a x = (t : NvListReader) × (x ≡ (ok a, t)) × Past s rest t

pub field_pair-IsPair : {x : Field} → IsField x → IsPair (field_pair x)
field_pair-IsPair (is_kind h n) = h
field_pair-IsPair (is_ident {n} h) = omega (arith, length-le_bytes 8 n)
field_pair-IsPair (is_place h n) = h
field_pair-IsPair (is_numbers h n l) = h
field_pair-IsPair (is_children h n) = h
field_pair-IsPair (is_other h n l) = IsItem-IsPair h

pub field_pair-plain : {x : Field} → IsField x → (field_pair x).ty ≢ type_string_array
field_pair-plain (is_kind h n) = omega arith
field_pair-plain (is_ident h) = omega arith
field_pair-plain (is_place h n) = omega arith
field_pair-plain (is_numbers h n l) = omega arith
field_pair-plain (is_children h n) = omega arith
field_pair-plain (is_other h n l) = IsItem-plain h

-- `if token == TypeNvlist || token == TypeNvlistArray { Skip() }`: a pair of no use is passed, with
-- the one list that it may hold.
pub skip-single :
    {A : Type 0} {i : Item} (a : A) (f : ℕ) (s : NvListReader) (rest : Bytes)
    → IsItem i
    → IsSingle i
    → length (value_of i) < f
    → Stands (value_of i ++ rest) s
    → 0 < length rest
    → Gives s rest a (
        (if (pair_of i).ty == type_nvlist || (pair_of i).ty == type_nvlist_array
            then (do skip f; pure a)
            else pure a)
          s)
unfolding encode_items
skip-single a f s rest (is_leaf {p} h x y c) one fuel at room =
    (s, rw (ne→not-== p.ty 19 x, ne→not-== p.ty 20 y), (refl, at))
skip-single a f s rest (is_nested {p} h e ok_items) one fuel at room =
    let (t, eq, past) = skip-Past f s ok_items fuel at room in (t, rw (e, eq), past)
skip-single a f s rest (is_array {p} h e n (is_list {items} ok_items is_empty)) one fuel at room =
    let (t, eq, past) =
      skip-Past f s ok_items (omega (arith, length-append (encode_items items) []))
        (subst (λ b. Stands (b ++ rest) s) (append-nil (encode_items items)) at) room in
    (t, rw (e, eq), past)
skip-single a f s rest (is_array h e n is_empty) one fuel at room = elim one [ ]
skip-single a f s rest (is_array h e n (is_list ok_items (is_list _ _))) one fuel at room =
    elim one [ ]

pub parse_vdevs_from-round :
    (f : ℕ) (so_far later : Partial) (s t u : NvListReader) (token : NvType)
    → next s ≡ (ok token, t)
    → read_vdev_pair (parse_vdevs_from f (empty_info, nil)) (skip f) so_far token t.name_bytes t
      ≡ (ok later, u)
    → parse_vdevs_from (suc f) so_far s ≡ parse_vdevs_from f later u
unfolding parse_vdevs_from eof_as_none
parse_vdevs_from-round f so_far later s t u token step body = rw (step, body)

pub parse_vdevs_from-end :
    (f : ℕ) (so_far : Partial) (s t : NvListReader)
    → next s ≡ (err eof, t)
    → parse_vdevs_from (suc f) so_far s ≡ (ok (node so_far.0 so_far.1), t)
unfolding parse_vdevs_from eof_as_none
parse_vdevs_from-end f so_far s t step = rw step

-- Every list ends with its terminator.
length-encode_fields : (xs : Fields) → 3 < length (encode_fields xs)
unfolding encode_fields
length-encode_fields done = omega (arith, length-le_bytes 4 0)
length-encode_fields (more x xs) = omega (
  arith,
  length-append (encode_pair (field_pair x)) (encode_value x ++ encode_fields xs),
  length-append (encode_value x) (encode_fields xs),
  length-encode_fields xs,
)

-- The parts of a list behind its first pair.
pub field_space :
    (x : Field) (xs : Fields) (rest : Bytes)
    → (17 + length (encode_value x) + length (encode_fields xs)
        ≤ length (encode_fields (more x xs)))
      × (length (encode_value x ++ (encode_fields xs ++ rest))
          ≡ length (encode_value x) + (length (encode_fields xs) + length rest))
      × (length (encode_fields xs ++ rest) ≡ length (encode_fields xs) + length rest)
      × (3 < length (encode_fields xs))
unfolding encode_fields
field_space x xs rest =
    let whole = length-append (encode_pair (field_pair x)) (encode_value x ++ encode_fields xs) in
    let parts = length-append (encode_value x) (encode_fields xs) in
    let first = length-encode_pair (field_pair x) in
    let behind = length-append (encode_fields xs) rest in
    let all = length-append (encode_value x) (encode_fields xs ++ rest) in
    (omega arith, omega arith, behind, length-encode_fields xs)

-- The branch of the chain for a pair with data of its own only.
pub still :
    {A : Type 0} {x : Result A × NvListReader} {a : A} (s : NvListReader) (rest : Bytes)
    → x ≡ (ok a, s)
    → Stands rest s
    → Gives s rest a x
still s rest e h = (s, e, (refl, h))
