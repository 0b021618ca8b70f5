-- ===== src/Nvlist/Access.antt =====
-- zfs/nvlist/decode.go: what a caller reads of the current pair. The accessors leave the reader
-- as it is.
pub mod Arrays
pub mod Halts
use prometheus_zfs_exporter.Base.{
  ℕ, zero, suc, ◌+◌, ◌*◌, ℤ, negsuc, none, some, List, [], ◌∷◌, Bool, true, false, Bytes, length,
  get_elem?, take, drop, slice, le_uint, signed16, signed32, signed64, signed8, pos_part, ltb, ◌==◌,
  if◌then◌else◌, Result, ok, err, panicked, invalid_data, index_range, slice_bounds, unsafe_read,
  pure, map, raise, panic, gets, ◌>>=◌, ◌>>◌, panic_if,
}
use prometheus_zfs_exporter.Nvlist.Types.{NvType}
use prometheus_zfs_exporter.Nvlist.Reader.{Read}

-- `Token`, `NameBytes` (and `Name`, the same bytes as a string) and `NumElements`.
abbrev pub get_token : Read NvType
get_token = gets (λ r. r.current_token)

abbrev pub get_name_bytes : Read Bytes
get_name_bytes = gets (λ r. r.name_bytes)

abbrev pub get_num_elements : Read ℕ
get_num_elements = gets (λ r. r.num_elements)

-- `Data[i]`, which panics out of range.
unfoldable pub byte_at : ℕ → Read ℕ
byte_at i r = elim (get_elem? r.bytes i) [ some b ↦ (ok b, r) | none ↦ (panicked index_range, r) ]

-- `Data[low:low+n]`. (A Go slice may also reach into spare capacity, which the buffers here lack.)
unfoldable pub slice_at : ℕ → ℤ → Read Bytes
slice_at low (ℤ.pos n) = do
  len ← gets (λ r. length r.bytes)
  panic_if (ltb len (low + n)) slice_bounds
  gets (λ r. slice r.bytes low (low + n))
slice_at low (negsuc _) = panic slice_bounds

-- `r.Data[r.dataPos : r.dataPos+r.dataLen]`
unfoldable pub data_slice : Read Bytes
data_slice = do low ← gets (λ r. r.data_pos); n ← gets (λ r. r.data_len); slice_at low n

-- `binary.NativeEndian.UintN` of that slice, for a word of `n` bytes.
unfoldable pub word : ℕ → Read ℕ
word n = do b ← data_slice; panic_if (ltb (length b) n) index_range; pure (le_uint (take n b))

abbrev pub get_uint8 : Read ℕ
get_uint8 = do byte_at (← gets (λ r. r.data_pos))

abbrev pub get_byte : Read ℕ
get_byte = get_uint8

abbrev pub get_int8 : Read ℤ
get_int8 = do pure (signed8 (← get_uint8))

abbrev pub get_uint16 : Read ℕ
get_uint16 = word 2

abbrev pub get_int16 : Read ℤ
get_int16 = do pure (signed16 (← word 2))

abbrev pub get_uint32 : Read ℕ
get_uint32 = word 4

abbrev pub get_int32 : Read ℤ
get_int32 = do pure (signed32 (← word 4))

abbrev pub get_uint64 : Read ℕ
get_uint64 = word 8

abbrev pub get_int64 : Read ℤ
get_int64 = do pure (signed64 (← word 8))

-- `n` consecutive words of `w` bytes each, as memory holds them.
unfoldable pub words : ℕ → ℕ → Bytes → List ℕ
words w zero bs = []
words w (suc n) bs = le_uint (take w bs) ∷ words w n (drop w bs)

-- `unsafe.Slice` over the data, with the pair's count of elements of `w` bytes. Nothing compares
-- the count with the data's length: past the end of the buffer this reads foreign memory.
unfoldable pub word_array : ℕ → Read (List ℕ)
word_array w = do
  checked ← data_slice
  n ← get_num_elements
  low ← gets (λ r. r.data_pos)
  len ← gets (λ r. length r.bytes)
  panic_if (ltb len (low + n * w)) unsafe_read
  gets (λ r. words w n (drop low r.bytes))

abbrev pub get_uint8_array : Read (List ℕ)
get_uint8_array = word_array 1

abbrev pub get_uint16_array : Read (List ℕ)
get_uint16_array = word_array 2

abbrev pub get_uint32_array : Read (List ℕ)
get_uint32_array = word_array 4

abbrev pub get_uint64_array : Read (List ℕ)
get_uint64_array = word_array 8

abbrev pub get_int8_array : Read (List ℤ)
get_int8_array = do pure (map signed8 (← word_array 1))

abbrev pub get_int16_array : Read (List ℤ)
get_int16_array = do pure (map signed16 (← word_array 2))

abbrev pub get_int32_array : Read (List ℤ)
get_int32_array = do pure (map signed32 (← word_array 4))

abbrev pub get_int64_array : Read (List ℤ)
get_int64_array = do pure (map signed64 (← word_array 8))

abbrev pub get_byte_array : Read Bytes
get_byte_array = data_slice

-- The switch of `Boolean`.
unfoldable pub to_boolean : ℤ → Read Bool
to_boolean (ℤ.pos zero) = pure false
to_boolean (ℤ.pos (suc zero)) = pure true
to_boolean _ = raise invalid_data

abbrev pub get_boolean : Read Bool
get_boolean = do to_boolean (← get_int32)

-- `for range n { s, err := m(); ...; dst = append(dst, s) }`
unfoldable pub repeat_into : {A : Type 0} → ℕ → Read A → Read (List A)
repeat_into zero m r = (ok [], r)
repeat_into (suc n) m r = (do a ← m; rest ← repeat_into n m; pure (a ∷ rest)) r

-- `BooleanArray`
unfoldable pub get_boolean_array : Read (List Bool)
get_boolean_array = do repeat_into (← get_num_elements) get_boolean

-- The loop of `BytesUntilDelimiter` over the `n` offsets left, from offset `p`; `low` is `dataPos`.
unfoldable pub scan_until : ℕ → ℕ → ℕ → ℕ → Read Bytes
scan_until delim low zero p r = (err invalid_data, r)
scan_until delim low (suc n) p r =
    (do
      c ← byte_at p
      if c == delim then gets (λ r. slice r.bytes low p) else scan_until delim low n (p + 1))
      r

unfoldable pub bytes_until_delimiter : ℕ → Read Bytes
bytes_until_delimiter delim = do
  low ← gets (λ r. r.data_pos)
  n ← gets (λ r. r.data_len)
  scan_until delim low (pos_part n) low

-- `String`
abbrev pub get_string : Read Bytes
get_string = bytes_until_delimiter 0

-- `StringArray`, and `StringArraySafe`, which differs by a copy of each string.
unfoldable pub get_string_array : Read (List Bytes)
get_string_array = do repeat_into (← get_num_elements) get_string

-- `Value`, `decode` being `binary.Decode` in the machine's byte order into a variable of type `A`.
unfoldable pub get_value : {A : Type 0} → (Bytes → Result A) → Read A
get_value decode = do bs ← data_slice; (λ r. (decode bs, r))
