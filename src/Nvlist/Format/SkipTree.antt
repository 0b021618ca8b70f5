-- ===== src/Nvlist/Format/SkipTree.antt =====
-- `Skip` steps over exactly the list that the reader stands in, whatever lists it holds.
use prometheus_zfs_exporter.Base.{
  ℕ, zero, suc, ◌+◌, ◌<◌, ◌≤◌, ◌≡◌, ◌≢◌, refl, sym, ap, ◌∙◌, Bytes, ◌++◌, length, length-append,
  append_assoc, drop, arith, ne→not-==, ok, Error, Ends, returns, Ends-bind, Ends-weaken,
  Ends-returned, eof_as_none,
}
use mathlib.Core.Path.{subst}
use prometheus_zfs_exporter.Nvlist.Types.{type_string_array}
use prometheus_zfs_exporter.Nvlist.Reader.{NvListReader, Read, encoding_native}
use prometheus_zfs_exporter.Nvlist.Skip.{repeat, skip_value, skip}
use prometheus_zfs_exporter.Nvlist.Format.{Pair, IsPair, encode_pair, terminator}
use prometheus_zfs_exporter.Nvlist.Format.Words.{
  At, At-length, At-skip, At-le_bytes, length-le_bytes,
}
use prometheus_zfs_exporter.Nvlist.Format.RoundTrip.{
  after_pair, next_pair, next-terminator, length-encode_pair,
}
use prometheus_zfs_exporter.Nvlist.Format.Tree.{
  Item, pair_of, value_of, encode_item-split, IsItem-IsPair, IsItem-plain, Items, Lists, done, more,
  encode_item, encode_items, encode_lists, count_lists, IsItem, IsItems, IsLists, is_leaf,
  is_nested, is_array, is_done, is_more, is_empty, is_list,
}

-- The reader is past the header of a native stream, and the bytes from its position on are `xs`.
pub record Stands (xs : Bytes) (s : NvListReader) : Type 0 where
  pub alignment_eq : s.alignment ≡ 8
  pub native : s.encoding ≡ encoding_native
  pub started : 0 < s.pos
  pub at : At s.bytes s.pos xs

abbrev pub Past : NvListReader → Bytes → NvListReader → Type 0
Past s xs t = (t.bytes ≡ s.bytes) × Stands xs t

abbrev Never : Error → NvListReader → Type 0
Never e t = ⊥

pub after_pair-Stands :
    (p : Pair) (rest : Bytes) {s : NvListReader}
    → Stands (encode_pair p ++ rest) s
    → Stands rest (after_pair s p)
after_pair-Stands p rest {s} h = record {
  alignment_eq = h.alignment_eq;
  native = h.native;
  started = omega arith;
  at =
      ap (λ k. drop (s.pos + k) s.bytes) (sym (length-encode_pair p))
      ∙ At-skip s.bytes s.pos (encode_pair p) rest h.at;
}

-- With fuel above the length of `xs`, `m` steps from `xs` to what follows.
abbrev Skips : Bytes → (ℕ → Read (Unit {0})) → Type 0
Skips xs m =
    (f : ℕ) (s : NvListReader) (rest : Bytes)
    → length xs < f
    → Stands (xs ++ rest) s
    → 0 < length rest
    → Ends (λ _ t. Past s rest t) Never (m f s)

-- A list's terminator is passed.
pub terminator-Past :
    (s : NvListReader) (rest : Bytes)
    → Stands (terminator ++ rest) s
    → Past s rest (record s { pos = s.pos + 4 })
terminator-Past s rest h = (
  refl,
  record {
    alignment_eq = h.alignment_eq;
    native = h.native;
    started = omega arith;
    at = At-le_bytes 4 0 rest s h.at;
  },
)

skip_at_terminator : Skips terminator skip
unfolding skip eof_as_none
skip_at_terminator zero s rest room h after = absurd (omega arith)
skip_at_terminator (suc f) s rest room h after =
    rw (next-terminator s rest h.started h.at after) (returns (terminator-Past s rest h))

pub room_at :
    (p : Pair) (value later : Bytes)
    → 17 + length value + length later ≤ length (encode_pair p ++ (value ++ later))
room_at p value later = omega (
  arith,
  length-append (encode_pair p) (value ++ later),
  length-append value later,
  length-encode_pair p,
)

pub long_enough :
    (value later rest : Bytes)
    → 4 < length later + length rest
    → 4 < length (value ++ (later ++ rest))
long_enough value later rest h =
    omega (arith, length-append value (later ++ rest), length-append later rest)

pub behind_room : (later rest : Bytes) → 0 < length rest → 0 < length (later ++ rest)
behind_room later rest h = omega (arith, length-append later rest)

-- A list whose first pair is `p`, with `value` behind it and then `later`.
skip_at_pair :
    (p : Pair) (value later : Bytes)
    → IsPair p
    → p.ty ≢ type_string_array
    → ((f : ℕ) (s : NvListReader) (rest : Bytes)
        → length value < f
        → Stands (value ++ rest) s
        → s.num_elements ≡ p.count
        → 0 < length rest
        → Ends (λ _ t. Past s rest t) Never (skip_value (skip f) p.ty s))
    → 3 < length later
    → Skips later skip
    → Skips (encode_pair p ++ (value ++ later)) skip
unfolding skip eof_as_none
skip_at_pair p value later fits plain value_at long skips_later zero s rest room h after =
    absurd (omega arith)
skip_at_pair p value later fits plain value_at long skips_later (suc f) s rest room h after =
    let behind = value ++ (later ++ rest) in
    let start : Stands (encode_pair p ++ behind) s =
      subst (λ xs. Stands xs s) (simp append_assoc) h in
    let after_p = after_pair-Stands p behind start in
    rw
      (next_pair s p behind h.alignment_eq h.native h.started fits plain start.at
        (long_enough value later rest (omega arith)))
      (Ends-bind
        (value_at f (after_pair s p) (later ++ rest) (omega (arith, room_at p value later)) after_p
          refl (behind_room later rest after))
        (λ _ t past.
          Ends-weaken (skips_later f t rest (omega (arith, room_at p value later)) past.1 after)
            (λ _ u q. (q.0 ∙ past.0, q.1)) (λ e u q. q))
        (λ e t q. q))

pub length-items : (items : Items) → 3 < length (encode_items items)
unfolding encode_items
length-items done = omega (arith, length-le_bytes 4 0)
length-items (more i items) =
    omega (arith, length-append (encode_item i) (encode_items items), length-items items)

pub two_lists :
    (items : Items) (lists : Lists)
    → length (encode_items items ++ encode_lists lists)
      ≡ length (encode_items items) + length (encode_lists lists)
two_lists items lists = length-append (encode_items items) (encode_lists lists)

-- The value of an item, with any token that its pair may have.
abbrev SkipsValue : Item → Type 0
SkipsValue i =
    (f : ℕ) (s : NvListReader) (rest : Bytes)
    → length (value_of i) < f
    → Stands (value_of i ++ rest) s
    → s.num_elements ≡ (pair_of i).count
    → 0 < length rest
    → Ends (λ _ t. Past s rest t) Never (skip_value (skip f) (pair_of i).ty s)

mutual
  unfolding skip_value repeat encode_items

  value_at : {i : Item} → IsItem i → SkipsValue i
  value_at (is_leaf {p} fits a b c) f s rest room h n after =
      rw (ne→not-== p.ty 19 a, ne→not-== p.ty 20 b) (returns (refl, h))
  value_at (is_nested {p} {items} fits e ok_items) f s rest room h n after =
      rw e (items_at ok_items f s rest room h after)
  value_at (is_array {p} {lists} fits e c ok_lists) f s rest room h n after = rw e (
      subst (λ k. Ends (λ _ t. Past s rest t) Never (repeat k (skip f) s)) (sym (n ∙ c))
        (lists_at ok_lists f s rest room h after))

  items_at : {items : Items} → IsItems items → Skips (encode_items items) skip
  items_at is_done = skip_at_terminator
  items_at (is_more {item} {items} ok_item ok_items) =
      rw (encode_item-split item, append_assoc)
        (skip_at_pair (pair_of item) (value_of item) (encode_items items) (IsItem-IsPair ok_item)
          (IsItem-plain ok_item) (value_at ok_item) (length-items items) (items_at ok_items))

  lists_at :
      {lists : Lists}
      → IsLists lists
      → Skips (encode_lists lists) (λ f. repeat (count_lists lists) (skip f))
  lists_at is_empty f s rest room h after = returns (refl, h)
  lists_at (is_list {items} {lists} ok_items ok_lists) f s rest room h after =
      Ends-bind
        (items_at ok_items f s (encode_lists lists ++ rest) (omega (arith, two_lists items lists))
          (rw append_assoc at h) (behind_room (encode_lists lists) rest after))
        (λ _ t past.
          Ends-weaken
            (lists_at ok_lists f t rest (omega (arith, two_lists items lists)) past.1 after)
            (λ _ u q. (q.0 ∙ past.0, q.1)) (λ e u q. q))
        (λ e t q. q)

-- `Skip` on a list leaves the reader where it stands behind the list.
pub skip-Past :
    {items : Items} {rest : Bytes} (f : ℕ) (s : NvListReader)
    → IsItems items
    → length (encode_items items) < f
    → Stands (encode_items items ++ rest) s
    → 0 < length rest
    → (t : NvListReader) × (skip f s ≡ (ok tt, t)) × Past s rest t
skip-Past {items} {rest} f s ok_items room h after =
    let (_, ended, past) = Ends-returned (items_at ok_items f s rest room h after) in
    ((skip f s).1, ap (λ r. (r, (skip f s).1)) ended, past)

past_pos :
    (xs rest : Bytes) {s t : NvListReader}
    → Stands (xs ++ rest) s
    → t.bytes ≡ s.bytes
    → Stands rest t
    → 0 < length rest
    → t.pos ≡ s.pos + length xs
past_pos xs rest {s} {t} h same h' room = omega (
  arith,
  At-length s.bytes s.pos (xs ++ rest) h.at (omega (arith, length-append xs rest)),
  At-length t.bytes t.pos rest h'.at room,
  length-append xs rest,
  ap length same,
)

-- `Skip` on a reader that stands before a well-formed list in native encoding, with more bytes
-- behind it and more fuel than the list has bytes, returns without error, and the reader then
-- stands before exactly what follows the list's terminator: lists and arrays of lists inside are
-- passed whole. The buffer is as it was.
pub skip_items :
    (items : Items) (rest : Bytes) (s : NvListReader) (f : ℕ)
    → IsItems items
    → Stands (encode_items items ++ rest) s
    → 0 < length rest
    → length (encode_items items) < f
    → ((skip f s).0 ≡ ok tt)
      × ((skip f s).1.bytes ≡ s.bytes)
      × ((skip f s).1.pos ≡ s.pos + length (encode_items items))
skip_items items rest s f ok_items h after room =
    let (_, ended, past) = Ends-returned (items_at ok_items f s rest room h after) in
    (ended, past.0, past_pos (encode_items items) rest h past.0 past.1 after)
