-- ===== src/Nvlist/Format/Tree.antt =====
-- Lists with lists inside, in native encoding: the inner lists stand behind the pair that holds
-- them, each with its own terminator and no header.
use prometheus_zfs_exporter.Base.{ℕ, suc, ◌≡◌, ◌≢◌, refl, sym, append-nil, arith, ◌++◌, Bytes, []}
use prometheus_zfs_exporter.Nvlist.Types.{NvType, type_nvlist, type_nvlist_array, type_string_array}
use prometheus_zfs_exporter.Nvlist.Format.{Pair, IsPair, encode_pair, terminator}

mutual
  pub data Item : Type 0 where
    leaf : Pair → Item
    nested : Pair → Items → Item
    array : Pair → Lists → Item

  pub data Items : Type 0 where
    done : Items
    more : Item → Items → Items

  pub data Lists : Type 0 where
    empty : Lists
    list : Items → Lists → Lists

unfoldable mutual
  pub encode_item : Item → Bytes
  encode_item (leaf p) = encode_pair p
  encode_item (nested p items) = encode_pair p ++ encode_items items
  encode_item (array p lists) = encode_pair p ++ encode_lists lists

  pub encode_items : Items → Bytes
  encode_items done = terminator
  encode_items (more item items) = encode_item item ++ encode_items items

  pub encode_lists : Lists → Bytes
  encode_lists empty = []
  encode_lists (list items lists) = encode_items items ++ encode_lists lists

abbrev pub count_lists : Lists → ℕ
count_lists empty = 0
count_lists (list _ lists) = suc (count_lists lists)

-- The pair that opens an item, and what stands behind it.
abbrev pub pair_of : Item → Pair
pair_of (leaf p) = p
pair_of (nested p _) = p
pair_of (array p _) = p

abbrev pub value_of : Item → Bytes
value_of (leaf _) = []
value_of (nested _ items) = encode_items items
value_of (array _ lists) = encode_lists lists

pub encode_item-split : (i : Item) → encode_item i ≡ encode_pair (pair_of i) ++ value_of i
unfolding encode_item
encode_item-split (leaf p) = sym (append-nil (encode_pair p))
encode_item-split (nested p items) = refl
encode_item-split (array p lists) = refl

-- Every pair fits, its type says what follows it, and the count of an array is that of its lists.
mutual
  pub data IsItem : Item → Type 0 where
    is_leaf :
        {p : Pair}
        → IsPair p
        → p.ty ≢ type_nvlist
        → p.ty ≢ type_nvlist_array
        → p.ty ≢ type_string_array
        → IsItem (leaf p)
    is_nested :
        {p : Pair} {items : Items}
        → IsPair p
        → p.ty ≡ type_nvlist
        → IsItems items
        → IsItem (nested p items)
    is_array :
        {p : Pair} {lists : Lists}
        → IsPair p
        → p.ty ≡ type_nvlist_array
        → p.count ≡ count_lists lists
        → IsLists lists
        → IsItem (array p lists)

  pub data IsItems : Items → Type 0 where
    is_done : IsItems done
    is_more :
        {item : Item} {items : Items} → IsItem item → IsItems items → IsItems (more item items)

  pub data IsLists : Lists → Type 0 where
    is_empty : IsLists empty
    is_list :
        {items : Items} {lists : Lists} → IsItems items → IsLists lists → IsLists (list items lists)

nested_plain : (t : NvType) → t ≡ type_nvlist → t ≢ type_string_array
nested_plain t e = omega arith

array_plain : (t : NvType) → t ≡ type_nvlist_array → t ≢ type_string_array
array_plain t e = omega arith

pub IsItem-IsPair : {i : Item} → IsItem i → IsPair (pair_of i)
IsItem-IsPair (is_leaf h a b c) = h
IsItem-IsPair (is_nested h e l) = h
IsItem-IsPair (is_array h e n l) = h

pub IsItem-plain : {i : Item} → IsItem i → (pair_of i).ty ≢ type_string_array
IsItem-plain (is_leaf h a b c) = c
IsItem-plain (is_nested {p} h e l) = nested_plain p.ty e
IsItem-plain (is_array {p} h e n l) = array_plain p.ty e
