-- ===== src/Nvlist/Unmarshal/Fill.antt =====
-- zfs/nvlist/decode.go: `Unmarshal` fills a map with what the list stands for.
use prometheus_zfs_exporter.Base.{
  ℕ, zero, suc, ◌+◌, ◌<◌, ◌≡◌, ◌≢◌, ◌⊎◌, ne→not-==, refl, ap, ◌∙◌, arith, inl, inr, [], ◌++◌,
  append_assoc, Bytes, length, Result, ok, err, eof, eof_as_none,
}
use mathlib.Core.Path.{subst}
use prometheus_zfs_exporter.Nvlist.Types.{NvType, type_nvlist_array, type_hrtime, type_double}
use prometheus_zfs_exporter.Nvlist.Reader.{NvListReader}
use prometheus_zfs_exporter.Nvlist.Next.{next}
use prometheus_zfs_exporter.Nvlist.Format.{Pair, IsPair, encode_pair, terminator}
use prometheus_zfs_exporter.Nvlist.Format.RoundTrip.{after_pair, next_pair, next-terminator}
use prometheus_zfs_exporter.Nvlist.Format.Tree.{
  Item, Items, Lists, pair_of, value_of, encode_item-split, encode_items, encode_lists, count_lists,
}
use prometheus_zfs_exporter.Nvlist.Format.SkipTree.{
  Stands, Past, after_pair-Stands, terminator-Past, length-items, room_at, long_enough, behind_room,
  two_lists,
}
use prometheus_zfs_exporter.Nvlist.Unmarshal.{
  Value, submaps, Entries, no_entries, Maps, Filling, Fill, set_map_index, on_reader, primitive,
  set_primitive, into_new_map, into_new_maps, unmarshal_value, unmarshal,
}
use prometheus_zfs_exporter.Nvlist.Unmarshal.Encoded.{
  set_all, IsLeaf, IsLeaf-other, Encodes, as_leaf, as_map, as_maps, EncodesAll, as_done, as_more,
  as_ignored, EncodesLists, as_empty, as_list, Encodes-IsPair, Encodes-plain,
}
use prometheus_zfs_exporter.Nvlist.Unmarshal.Leaves.{set_primitive-Reads, primitive-IsLeaf}

abbrev at : NvListReader → Entries → Filling
at s es = record { reader = s; entries = es }

-- The call returns `a` with the map `es`, and leaves the reader before `rest` in the same buffer.
abbrev Fills : {A : Type 0} → NvListReader → Bytes → A → Entries → Result A × Filling → Type 0
Fills s rest a es x = (t : NvListReader) × (x ≡ (ok a, at t es)) × Past s rest t

unmarshal-round :
    (f : ℕ) (s t u : NvListReader) (es later : Entries) (ty : NvType)
    → next s ≡ (ok ty, t)
    → unmarshal_value (unmarshal f) ty t.name_bytes (at t es) ≡ (ok tt, at u later)
    → unmarshal (suc f) (at s es) ≡ unmarshal f (at u later)
unfolding unmarshal on_reader eof_as_none
unmarshal-round f s t u es later ty step body = rw (step, body)

unmarshal-end :
    (f : ℕ) (s t : NvListReader) (es : Entries)
    → next s ≡ (err eof, t)
    → unmarshal (suc f) (at s es) ≡ (ok tt, at t es)
unfolding unmarshal on_reader eof_as_none
unmarshal-end f s t es step = rw step

-- With fuel above the length of `xs`, the loop sets the entries `es` and steps past `xs`.
abbrev FillsAll : Bytes → Entries → Type 0
FillsAll xs es =
    (f : ℕ) (s : NvListReader) (into : Entries) (rest : Bytes)
    → length xs < f
    → Stands (xs ++ rest) s
    → 0 < length rest
    → Fills s rest tt (set_all into es) (unmarshal f (at s into))

-- What the loop's body does behind the pair of an item.
abbrev FillsValue : Pair → Bytes → (Entries → Entries) → Type 0
FillsValue p value set =
    (f : ℕ) (s : NvListReader) (into : Entries) (rest : Bytes)
    → length value < f
    → Stands (encode_pair p ++ (value ++ rest)) s
    → 0 < length rest
    → Fills (after_pair s p) rest tt (set into)
        (unmarshal_value (unmarshal f) p.ty p.name (at (after_pair s p) into))

-- A list whose first item is pair `p` with `value` behind it.
fill-more :
    (p : Pair) (value later : Bytes) (set : Entries → Entries) (es : Entries)
    → IsPair p
    → p.ty ≢ 17
    → 3 < length later
    → FillsValue p value set
    → FillsAll later es
    → (f : ℕ) (s : NvListReader) (into : Entries) (rest : Bytes)
    → length (encode_pair p ++ (value ++ later)) < f
    → Stands ((encode_pair p ++ (value ++ later)) ++ rest) s
    → 0 < length rest
    → Fills s rest tt (set_all (set into) es) (unmarshal f (at s into))
fill-more p value later set es fits plain long body loop zero s into rest room h after =
    absurd (omega arith)
fill-more p value later set es fits plain long body loop (suc f) s into rest room h after =
    let start : Stands (encode_pair p ++ (value ++ (later ++ rest))) s =
      subst (λ xs. Stands xs s) (simp append_assoc) h in
    let step =
      next_pair s p (value ++ (later ++ rest)) start.alignment_eq start.native start.started fits
        plain start.at (long_enough value later rest (omega arith)) in
    let (t, read, past) =
      body f s into (later ++ rest) (omega (arith, room_at p value later)) start
        (behind_room later rest after) in
    let (u, filled, behind) =
      loop f t (set into) rest (omega (arith, room_at p value later)) past.1 after in
    (
      u,
      unmarshal-round f s (after_pair s p) t into (set into) p.ty step read ∙ filled,
      (behind.0 ∙ past.0, behind.1),
    )

leaf-FillsValue : {p : Pair} {v : Value} → IsLeaf p v → FillsValue p [] (set_map_index p.name v)
unfolding unmarshal_value
leaf-FillsValue {p} l f s into rest room h after =
    let other = IsLeaf-other l in
    (
      after_pair s p,
      rw (ne→not-== p.ty 0 other.0.0, ne→not-== p.ty 19 other.0.1, ne→not-== p.ty 20 other.1.0)
          (set_primitive-Reads p.ty p.name into (primitive-IsLeaf s p rest h.at after l)),
      (refl, after_pair-Stands p rest h),
    )

ignored-FillsValue :
    (p : Pair) → (p.ty ≡ type_hrtime) ⊎ (p.ty ≡ type_double) → FillsValue p [] (λ es. es)
unfolding unmarshal_value primitive set_primitive
ignored-FillsValue p (inl e) f s into rest room h after = (
  after_pair s p,
  ap (λ t. unmarshal_value (unmarshal f) t p.name (at (after_pair s p) into)) e,
  (refl, after_pair-Stands p rest h),
)
ignored-FillsValue p (inr e) f s into rest room h after = (
  after_pair s p,
  ap (λ t. unmarshal_value (unmarshal f) t p.name (at (after_pair s p) into)) e,
  (refl, after_pair-Stands p rest h),
)

-- The recursive call on a list inside, into a map of its own.
into_new_map-FillsAll :
    (xs : Bytes) (es : Entries)
    → FillsAll xs es
    → (f : ℕ) (s : NvListReader) (into : Entries) (rest : Bytes) → length xs < f
    → Stands (xs ++ rest) s
    → 0 < length rest
    → Fills s rest (set_all no_entries es) into (into_new_map (unmarshal f) (at s into))
unfolding into_new_map
into_new_map-FillsAll xs es fills f s into rest room h after =
    let (t, filled, past) = fills f s no_entries rest room h after in (t, rw filled, past)

done-FillsAll : FillsAll terminator no_entries
unfolding set_all
done-FillsAll zero s into rest room h after = absurd (omega arith)
done-FillsAll (suc f) s into rest room h after = (
  record s { pos = s.pos + 4 },
  unmarshal-end f s (record s { pos = s.pos + 4 }) into
      (next-terminator s rest h.started h.at after),
  terminator-Past s rest h,
)

-- The case of an array of lists.
array-body :
    {n : ℕ} (again : Fill (Unit {0})) (name : Bytes) (s t : NvListReader) (into : Entries)
    (ms : Maps)
    → s.num_elements ≡ n
    → into_new_maps again n (at s into) ≡ (ok ms, at t into)
    → unmarshal_value again type_nvlist_array name (at s into)
      ≡ (ok tt, at t (set_map_index name (submaps ms) into))
unfolding unmarshal_value on_reader
array-body again name s t into ms count filled =
    let counted = ap (λ k. into_new_maps again k (at s into)) count ∙ filled in rw counted

mutual
  unfolding unmarshal_value into_new_maps encode_items set_all

  value-FillsValue :
      {i : Item} {v : Value}
      → Encodes i v
      → FillsValue (pair_of i) (value_of i) (set_map_index (pair_of i).name v)
  value-FillsValue (as_leaf fits l) f s into rest room h after =
      leaf-FillsValue l f s into rest room h after
  value-FillsValue (as_map {p} {items} {es} fits e all) f s into rest room h after =
      let (t, filled, past) =
        into_new_map-FillsAll (encode_items items) es (items-FillsAll all) f (after_pair s p) into
          rest room (after_pair-Stands p (encode_items items ++ rest) h) after in
      (
        t,
        ap (λ ty. unmarshal_value (unmarshal f) ty p.name (at (after_pair s p) into)) e ∙ rw filled,
        past,
      )
  value-FillsValue (as_maps {p} {lists} {ms} fits e c all) f s into rest room h after =
      let (t, filled, past) =
        lists-FillsAll all f (after_pair s p) into rest room
          (after_pair-Stands p (encode_lists lists ++ rest) h) after in
      (
        t,
        ap (λ ty. unmarshal_value (unmarshal f) ty p.name (at (after_pair s p) into)) e
            ∙ array-body (unmarshal f) p.name (after_pair s p) t into ms c filled,
        past,
      )

  pub items-FillsAll :
      {items : Items} {es : Entries} → EncodesAll items es → FillsAll (encode_items items) es
  items-FillsAll as_done = done-FillsAll
  items-FillsAll (as_more {item} {v} {items} {es} one all) =
      rw (encode_item-split item, append_assoc)
        (fill-more (pair_of item) (value_of item) (encode_items items)
          (set_map_index (pair_of item).name v) es (Encodes-IsPair one) (Encodes-plain one)
          (length-items items) (value-FillsValue one) (items-FillsAll all))
  items-FillsAll (as_ignored {p} {items} {es} fits e all) =
      fill-more p [] (encode_items items) (λ es. es) es fits
        (elim e [ inl hr ↦ omega arith | inr dbl ↦ omega arith ]) (length-items items)
        (ignored-FillsValue p e) (items-FillsAll all)

  lists-FillsAll :
      {lists : Lists} {ms : Maps}
      → EncodesLists lists ms
      → (f : ℕ) (s : NvListReader) (into : Entries) (rest : Bytes) → length (encode_lists lists) < f
      → Stands (encode_lists lists ++ rest) s
      → 0 < length rest
      → Fills s rest ms into (into_new_maps (unmarshal f) (count_lists lists) (at s into))
  lists-FillsAll as_empty f s into rest room h after = (s, refl, (refl, h))
  lists-FillsAll (as_list {items} {es} {lists} {ms} all others) f s into rest room h after =
      let (t, first, past) =
        into_new_map-FillsAll (encode_items items) es (items-FillsAll all) f s into
          (encode_lists lists ++ rest) (omega (arith, two_lists items lists)) (rw append_assoc at h)
          (behind_room (encode_lists lists) rest after) in
      let (u, later, behind) =
        lists-FillsAll others f t into rest (omega (arith, two_lists items lists)) past.1 after in
      (u, rw (first, later), (behind.0 ∙ past.0, behind.1))
