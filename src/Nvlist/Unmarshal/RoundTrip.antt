-- ===== src/Nvlist/Unmarshal/RoundTrip.antt =====
-- zfs/nvlist/decode.go: the package's `Unmarshal` on a whole stream.
use prometheus_zfs_exporter.Base.{
  ℕ, zero, suc, ◌^◌, ◌<◌, ◌≡◌, refl, sym, ap, ◌∙◌, arith, inl, inr, Bool, true, false, Option, none,
  some, ◌++◌, Bytes, length, length-append, equal, equal→eq, not-equal→ne, ne→not-equal,
  if◌then◌else◌, ok, Bool-cases,
}
use prometheus_zfs_exporter.Nvlist.Reader.{NvListReader}
use prometheus_zfs_exporter.Nvlist.Format.{stream_header}
use prometheus_zfs_exporter.Nvlist.Format.Tree.{Items, encode_items}
use prometheus_zfs_exporter.Nvlist.Format.Fresh.{begun, begun-Stands, next-stream}
use prometheus_zfs_exporter.Nvlist.Unmarshal.{
  Value, Entries, no_entries, entry, set_map_index, map_index, on_reader, unmarshal,
  unmarshal_bytes,
}
use prometheus_zfs_exporter.Nvlist.Unmarshal.Encoded.{set_all, EncodesAll}
use prometheus_zfs_exporter.Nvlist.Unmarshal.Fill.{items-FillsAll}

-- The first, unless there is none.
abbrev pub or_else : Option Value → Option Value → Option Value
or_else (some v) w = some v
or_else none w = w

-- The value of the last entry of key `k`.
unfoldable pub last_value : Bytes → Entries → Option Value
last_value k no_entries = none
last_value k (entry k' v es) = or_else (last_value k es) (if equal k k' then some v else none)

abbrev append_entries : Entries → Entries → Entries
append_entries no_entries fs = fs
append_entries (entry k v es) fs = entry k v (append_entries es fs)

-- No entry's key is one of `into` or of an entry before it.
abbrev pub AreNew : Entries → Entries → Type 0
AreNew into no_entries = Unit
AreNew into (entry k v es) = (map_index k into ≡ none) × AreNew (set_map_index k v into) es

or_else-if :
    (a : Option Value) (b : Bool) (v : Value) (w : Option Value)
    → or_else a (if b then some v else w) ≡ or_else (or_else a (if b then some v else none)) w
or_else-if (some u) b v w = refl
or_else-if none true v w = refl
or_else-if none false v w = refl

or_else-none : (a : Option Value) → or_else a none ≡ a
or_else-none none = refl
or_else-none (some v) = refl

not-shared : (k k' k'' : Bytes) → equal k' k'' ≡ false → equal k k'' ≡ true → equal k k' ≡ false
not-shared k k' k'' other hit =
    ne→not-equal k k' (λ e. not-equal→ne k' k'' other (sym e ∙ equal→eq k k'' hit))

map_index-set_map_index :
    (k k' : Bytes) (v : Value) (es : Entries)
    → map_index k (set_map_index k' v es) ≡ (if equal k k' then some v else map_index k es)
unfolding map_index set_map_index
map_index-set_map_index k k' v no_entries = refl
map_index-set_map_index k k' v (entry k'' w es) = elim (Bool-cases (equal k' k'')) [
  | inl same ↦
      rw (same, sym (equal→eq k' k'' same))
        (elim (Bool-cases (equal k k')) [ inl hit ↦ rw hit refl | inr miss ↦ rw miss refl ])
  | inr other ↦ rw other (elim (Bool-cases (equal k k'')) [
    | inl hit ↦ rw (not-shared k k' k'' other hit, hit) refl
    | inr miss ↦ rw miss (map_index-set_map_index k k' v es)
  ])
]

map_index-set_all :
    (k : Bytes) (into es : Entries)
    → map_index k (set_all into es) ≡ or_else (last_value k es) (map_index k into)
unfolding set_all last_value
map_index-set_all k into no_entries = refl
map_index-set_all k into (entry k' v es) =
    map_index-set_all k (set_map_index k' v into) es
    ∙ rw (map_index-set_map_index k k' v into)
        (or_else-if (last_value k es) (equal k k') v (map_index k into))

set_map_index-new :
    (k : Bytes) (v : Value) (es : Entries)
    → map_index k es ≡ none
    → set_map_index k v es ≡ append_entries es (entry k v no_entries)
unfolding map_index set_map_index
set_map_index-new k v no_entries h = refl
set_map_index-new k v (entry k' w es) h = elim (Bool-cases (equal k k')) [
  | inl same ↦ let hit = rw same at h in cc
  | inr other ↦ rw other (ap (entry k' w) (set_map_index-new k v es (rw other at h)))
]

append_entries_assoc :
    (es fs gs : Entries)
    → append_entries (append_entries es fs) gs ≡ append_entries es (append_entries fs gs)
append_entries_assoc no_entries fs gs = refl
append_entries_assoc (entry k v es) fs gs = ap (entry k v) (append_entries_assoc es fs gs)

set_all-AreNew : (into es : Entries) → AreNew into es → set_all into es ≡ append_entries into es
unfolding set_all
set_all-AreNew no_entries no_entries h = refl
set_all-AreNew (entry k v into) no_entries h = ap (entry k v) (set_all-AreNew into no_entries tt)
set_all-AreNew into (entry k v es) h =
    set_all-AreNew (set_map_index k v into) es h.1
    ∙ ap (λ m. append_entries m es) (set_map_index-new k v into h.0)
    ∙ append_entries_assoc into (entry k v no_entries) es

unmarshal-stream :
    (f version flags : ℕ) (xs : Bytes)
    → version < 2 ^ 31
    → flags < 2 ^ 32
    → 0 < length xs
    → unmarshal_bytes (suc f) (stream_header version flags ++ xs)
      ≡ unmarshal (suc f) (record { reader = begun version flags xs; entries = no_entries })
unfolding unmarshal on_reader
unmarshal-stream f version flags xs v g room = rw (next-stream version flags xs v g room)

-- The call of `Unmarshal` on a stream that holds `items`, with `rest` behind.
abbrev pub stream_of : ℕ → ℕ → Items → Bytes → Bytes
stream_of version flags items rest = stream_header version flags ++ (encode_items items ++ rest)

module _ (f version flags : ℕ) {items : Items} {es : Entries} (rest : Bytes)
    (is_version : version < 2 ^ 31) (is_flags : flags < 2 ^ 32) (all : EncodesAll items es)
    (room : 0 < length rest) (fuel : length (encode_items items) < f) where
  unmarshal_bytes-set_all :
      (t : NvListReader) × (unmarshal_bytes f (stream_of version flags items rest)
        ≡ (ok tt, record { reader = t; entries = set_all no_entries es }))
  unmarshal_bytes-set_all =
      elim f
          as (λ n.
            length (encode_items items) < n
            → (t : NvListReader) × (unmarshal_bytes n (stream_of version flags items rest)
                ≡ (ok tt, record { reader = t; entries = set_all no_entries es }))) [
                  | zero ↦ λ lt. absurd (omega arith)
                  | suc n ↦ λ lt.
                      let xs = encode_items items ++ rest in
                      let (t, filled, past) =
                        items-FillsAll all (suc n) (begun version flags xs) no_entries rest lt
                          (begun-Stands version flags xs) room in
                      (
                        t,
                        unmarshal-stream n version flags xs is_version is_flags
                              (omega (arith, length-append (encode_items items) rest))
                            ∙ filled,
                      )
                ]
        fuel

  -- `Unmarshal` into an empty `map[string]any` on a stream in native encoding, without arrays of
  -- strings or of booleans, with at least one byte behind its list and with more fuel than the list
  -- has bytes returns without error. For each key the map then holds the value of the last pair of
  -- that name, numbers and arrays of every other type as they were encoded, lists and arrays of
  -- lists inside as maps and slices of maps of their own; pairs of type hrtime and double are left
  -- out, and a byte array takes its padding along.
  pub unmarshal_bytes-map_index :
      ((unmarshal_bytes f (stream_of version flags items rest)).0 ≡ ok tt)
      × ((k : Bytes)
          → map_index k (unmarshal_bytes f (stream_of version flags items rest)).1.entries
            ≡ last_value k es)
  unfolding map_index
  unmarshal_bytes-map_index =
      let (t, filled) = unmarshal_bytes-set_all in
      (
        ap (λ x. x.0) filled,
        λ k.
            ap (λ x. map_index k x.1.entries) filled
            ∙ map_index-set_all k no_entries es
            ∙ or_else-none (last_value k es),
      )

  -- Where no two pairs of such a stream's list have one name, the map is exactly the list's
  -- entries, in their order.
  pub unmarshal_bytes-entries :
      AreNew no_entries es → (unmarshal_bytes f (stream_of version flags items rest)).1.entries ≡ es
  unmarshal_bytes-entries new =
      let (t, filled) = unmarshal_bytes-set_all in
      ap (λ x. x.1.entries) filled ∙ set_all-AreNew no_entries es new
