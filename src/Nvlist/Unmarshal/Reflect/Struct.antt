-- ===== src/Nvlist/Unmarshal/Reflect/Struct.antt =====
-- zfs/nvlist/decode.go: what `Unmarshal` makes of a struct.
use prometheus_zfs_exporter.Base.{
  ℕ, zero, suc, ◌+◌, ◌<◌, ◌≡◌, ◌≢◌, refl, ap, ◌∙◌, inl, inr, arith, [], ◌++◌, append_assoc, Bool,
  Option, some, Option-cases, Bytes, length, ok,
}
use mathlib.Core.Path.{subst}
use prometheus_zfs_exporter.Nvlist.Types.{type_nvlist}
use prometheus_zfs_exporter.Nvlist.Reader.{NvListReader}
use prometheus_zfs_exporter.Nvlist.Format.{Pair, IsPair, encode_pair, terminator}
use prometheus_zfs_exporter.Nvlist.Format.RoundTrip.{after_pair, next_pair, next-terminator}
use prometheus_zfs_exporter.Nvlist.Format.Tree.{
  Item, Items, pair_of, value_of, encode_item-split, encode_items,
}
use prometheus_zfs_exporter.Nvlist.Format.SkipTree.{
  Stands, after_pair-Stands, terminator-Past, length-items, room_at, long_enough, behind_room,
}
use prometheus_zfs_exporter.Nvlist.Unmarshal.{
  Value, submap, submaps, Maps, Entries, no_entries, unmarshal,
}
use prometheus_zfs_exporter.Nvlist.Unmarshal.Encoded.{
  set_all, IsLeaf, Encodes, as_leaf, as_map, as_maps, EncodesAll, as_done, as_more, as_ignored,
  Encodes-IsPair, Encodes-plain,
}
use prometheus_zfs_exporter.Nvlist.Unmarshal.Leaves.{primitive-IsLeaf}
use prometheus_zfs_exporter.Nvlist.Unmarshal.Fill.{items-FillsAll}
use prometheus_zfs_exporter.Nvlist.Unmarshal.Target.{Target, kind_of, Fields, field_at}
use prometheus_zfs_exporter.Nvlist.Unmarshal.Target.Settable.{
  Fits, into_any, into_basic, store_field, store_all, Suits, dropped, taken, SuitsAll,
  SuitsAll-store_field,
}
use prometheus_zfs_exporter.Nvlist.Unmarshal.Reflect.{
  store_list, store_token, enter_target, enter, store_pairs,
}
use prometheus_zfs_exporter.Nvlist.Unmarshal.Reflect.Stores.{
  at_struct, store_body, store_pairs-round, store_pairs-end, Stores, leaf-Stores, ignored-Stores,
}

-- With fuel above the length of `xs`, the loop makes `fs'` of the fields and steps past `xs`.
abbrev pub StoresFrom : Bool → Bytes → Fields → Fields → Type 0
StoresFrom b xs fs fs' =
    (f : ℕ) (s : NvListReader) (rest : Bytes)
    → length xs < f
    → Stands (xs ++ rest) s
    → 0 < length rest
    → Stores s rest fs' (store_pairs f b (at_struct s fs))

-- What the loop's body does behind the pair of an item.
abbrev StoresValue : Bool → Pair → Bytes → Fields → Fields → Type 0
StoresValue b p value fs fs' =
    (f : ℕ) (s : NvListReader) (rest : Bytes)
    → length value < f
    → Stands (encode_pair p ++ (value ++ rest)) s
    → 0 < length rest
    → Stores (after_pair s p) rest fs' (store_body f b p.ty p.name (at_struct (after_pair s p) fs))

-- A list whose first item is pair `p` with `value` behind it.
pub stores-more :
    (b : Bool) (fs fs' fs'' : Fields) (p : Pair) (value later : Bytes)
    → IsPair p
    → p.ty ≢ 17
    → 3 < length later
    → StoresValue b p value fs fs'
    → StoresFrom b later fs' fs''
    → StoresFrom b (encode_pair p ++ (value ++ later)) fs fs''
stores-more b fs fs' fs'' p value later fits plain long body loop zero s rest room h after =
    absurd (omega arith)
stores-more b fs fs' fs'' p value later fits plain long body loop (suc f) s rest room h after =
    let start : Stands (encode_pair p ++ (value ++ (later ++ rest))) s =
      subst (λ xs. Stands xs s) (simp append_assoc) h in
    let step =
      next_pair s p (value ++ (later ++ rest)) start.alignment_eq start.native start.started fits
        plain start.at (long_enough value later rest (omega arith)) in
    let (t, read, past) =
      body f s (later ++ rest) (omega (arith, room_at p value later)) start
        (behind_room later rest after) in
    let (u, filled, behind) = loop f t rest (omega (arith, room_at p value later)) past.1 after in
    (
      u,
      store_pairs-round f b s (after_pair s p) t fs fs' p.ty step read ∙ filled,
      (behind.0 ∙ past.0, behind.1),
    )

-- A list goes to a field of type `any`, as a map of its own.
list-into :
    (name : Bytes) {m : Entries} (fs : Fields) {old : Target} (f : ℕ) (b : Bool)
    (s t : NvListReader)
    → Fits (submap m) old
    → field_at b name fs ≡ some old
    → unmarshal f (record { reader = s; entries = no_entries })
      ≡ (ok tt, record { reader = t; entries = m })
    → store_body f b type_nvlist name (at_struct s fs)
      ≡ (ok tt, at_struct t (store_field b name (submap m) fs))
unfolding store_token store_list enter enter_target store_field kind_of
list-into name fs f b s t into_any found filled = rw (found, filled)
list-into name fs f b s t (into_basic e) found filled = cc

list-StoresValue :
    {items : Items} {es : Entries} (b : Bool) (p : Pair) (fs : Fields)
    → EncodesAll items es
    → p.ty ≡ type_nvlist
    → Suits (submap (set_all no_entries es)) (field_at b p.name fs)
    → StoresValue b p
        (encode_items items)
        fs
        (store_field b p.name (submap (set_all no_entries es)) fs)
list-StoresValue {items} {es} b p fs all e suits f s rest room h after =
    let (t, filled, past) =
      items-FillsAll all f (after_pair s p) no_entries rest room
        (after_pair-Stands p (encode_items items ++ rest) h) after in
    (
      t,
      ap (λ ty. store_body f b ty p.name (at_struct (after_pair s p) fs)) e
          ∙ elim (Option-cases (field_at b p.name fs)) [
            | inl missing ↦ elim (rw missing at suits) [ dropped no_lists no_list ↦ cc ]
            | inr (old, found) ↦ elim (rw found at suits) [
              | taken no_lists fits ↦ list-into p.name fs f b (after_pair s p) t fits found filled
            ]
          ],
      past,
    )

leaf-StoresValue :
    {p : Pair} {v : Value} (b : Bool) (fs : Fields)
    → IsLeaf p v
    → Suits v (field_at b p.name fs)
    → StoresValue b p [] fs (store_field b p.name v fs)
leaf-StoresValue {p} b fs l suits f s rest room h after = (
  after_pair s p,
  leaf-Stores f b p.name (after_pair s p) fs l (primitive-IsLeaf s p rest h.at after l) suits,
  (refl, after_pair-Stands p rest h),
)

lists-not-Suits : {ms : Maps} {o : Option Target} → Suits (submaps ms) o → ⊥
lists-not-Suits (dropped no_lists no_list) = cc
lists-not-Suits (taken no_lists fits) = cc

value-StoresValue :
    {i : Item} {v : Value} (b : Bool) (fs : Fields)
    → Encodes i v
    → Suits v (field_at b (pair_of i).name fs)
    → StoresValue b (pair_of i) (value_of i) fs (store_field b (pair_of i).name v fs)
value-StoresValue b fs (as_leaf {p} fits l) suits = leaf-StoresValue b fs l suits
value-StoresValue b fs (as_map {p} fits e all) suits = list-StoresValue b p fs all e suits
value-StoresValue b fs (as_maps {p} fits e c all) suits = absurd (lists-not-Suits suits)

done-StoresFrom : (b : Bool) (fs : Fields) → StoresFrom b terminator fs fs
done-StoresFrom b fs zero s rest room at after = absurd (omega arith)
done-StoresFrom b fs (suc f) s rest room at after = (
  record s { pos = s.pos + 4 },
  store_pairs-end f b s (record s { pos = s.pos + 4 }) fs
      (next-terminator s rest at.started at.at after),
  terminator-Past s rest at,
)

pub items-StoresFrom :
    {items : Items} {es : Entries} (b : Bool) (fs : Fields)
    → EncodesAll items es
    → SuitsAll b fs es
    → StoresFrom b (encode_items items) fs (store_all b fs es)
unfolding encode_items store_all SuitsAll
items-StoresFrom b fs as_done h = done-StoresFrom b fs
items-StoresFrom b fs (as_more {item} {v} {items} {es} one all) h =
    rw (encode_item-split item, append_assoc)
      (stores-more b fs _ _ (pair_of item) (value_of item) (encode_items items) (Encodes-IsPair one)
        (Encodes-plain one) (length-items items) (value-StoresValue b fs one h.0)
        (items-StoresFrom b (store_field b (pair_of item).name v fs) all
          (SuitsAll-store_field b (pair_of item).name v fs es h.1)))
items-StoresFrom b fs (as_ignored {p} {items} {es} fits e all) h =
    stores-more b fs fs _ p [] (encode_items items) fits
      (elim e [ inl hr ↦ omega arith | inr dbl ↦ omega arith ]) (length-items items)
      (λ f s rest room at after. (
        after_pair s p,
        ignored-Stores f b p.name p.ty (after_pair s p) fs e,
        (refl, after_pair-Stands p rest at),
      ))
      (items-StoresFrom b fs all h)
