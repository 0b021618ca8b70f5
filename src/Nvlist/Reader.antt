-- ===== src/Nvlist/Reader.antt =====
-- zfs/nvlist/decode.go: the reader's state and the reads of single items.
-- Offsets are Go `int`s of 64 bits. A buffer is far shorter than 2^62 bytes and every offset is
-- below its length plus 2^33, so none wraps and they are plain numbers here. `dataLen` may be
-- negative.
pub mod Bounds
use prometheus_zfs_exporter.Base.{
  ℕ, ◌+◌, none, some, [], ℤ, Bytes, length, get_elem?, slice, le_uint, signed16, signed32, leb, ltb,
  ◌==◌, if◌then◌else◌, ok, err, invalid_data, invalid_encoding, invalid_endianess, message,
  index_range, slice_bounds, Method, pure, raise, gets, modify, ◌>>=◌, ◌>>◌, raise_if, panic_if,
}
use prometheus_zfs_exporter.Nvlist.Types.{NvType}

abbrev pub encoding_native : ℕ
encoding_native = 0

abbrev pub encoding_xdr : ℕ
encoding_xdr = 1

abbrev pub big_endian : ℕ
big_endian = 0

abbrev pub little_endian : ℕ
little_endian = 1

-- The field `bytes` is `Data`.
pub record NvListReader : Type 0 where
  pub bytes : Bytes
  pub pos : ℕ
  pub encoding : ℕ
  pub alignment : ℕ
  pub flags : ℕ
  pub version : ℤ
  pub name_bytes : Bytes
  pub num_elements : ℕ
  pub data_pos : ℕ
  pub data_len : ℤ
  pub current_token : NvType

-- `NVListReader{Data: data}`
abbrev pub new_reader : Bytes → NvListReader
new_reader bs = record {
  bytes = bs;
  pos = 0;
  encoding = 0;
  alignment = 0;
  flags = 0;
  version = ℤ.pos 0;
  name_bytes = [];
  num_elements = 0;
  data_pos = 0;
  data_len = ℤ.pos 0;
  current_token = 0;
}

abbrev pub Read : Type 0 → Type 0
Read = Method NvListReader

-- `binary.NativeEndian.UintN(Data[p:])` for a word of `n` bytes: the slice panics beyond the end,
-- and the read where fewer bytes follow.
unfoldable pub uint_at : ℕ → ℕ → Read ℕ
uint_at n p = do
  len ← gets (λ r. length r.bytes)
  panic_if (ltb len p) slice_bounds
  panic_if (ltb len (p + n)) index_range
  gets (λ r. le_uint (slice r.bytes p (p + n)))

abbrev pub set_pos : ℕ → Read (Unit {0})
set_pos p = modify (λ r. record r { pos = p })

-- `skipN`
abbrev pub skip_n : ℕ → Read (Unit {0})
skip_n n = modify (λ r. record r { pos = r.pos + n })

-- `readByte`: the one read whose guard lets the last byte through.
unfoldable pub read_byte : Read ℕ
read_byte r = elim (get_elem? r.bytes r.pos) [
  | some b ↦ (ok b, record r { pos = r.pos + 1 })
  | none ↦ (err invalid_data, r)
]

-- The shared body of `readInt32`, `readInt16` and `readUint32`, at a word of `n` bytes.
unfoldable pub read_word : ℕ → Read ℕ
read_word n = do
  p ← gets (λ r. r.pos)
  len ← gets (λ r. length r.bytes)
  raise_if (leb len (p + n)) invalid_data
  w ← uint_at n p
  set_pos (p + n)
  pure w

unfoldable pub read_int32 : Read ℤ
read_int32 = do pure (signed32 (← read_word 4))

unfoldable pub read_int16 : Read ℤ
read_int16 = do pure (signed16 (← read_word 2))

abbrev pub read_uint32 : Read ℕ
read_uint32 = read_word 4

-- `readBytes`
unfoldable pub read_bytes : ℕ → Read Bytes
read_bytes n = do
  p ← gets (λ r. r.pos)
  len ← gets (λ r. length r.bytes)
  raise_if (leb len (p + n)) invalid_data
  set_pos (p + n)
  gets (λ r. slice r.bytes p (p + n))

-- The switch on the encoding byte.
unfoldable pub set_encoding : ℕ → Read (Unit {0})
set_encoding e =
    if e == encoding_native
    then modify (λ r. record r { encoding = encoding_native; alignment = 8 })
    else if e == encoding_xdr
    then modify (λ r. record r { encoding = encoding_xdr; alignment = 4 })
    else raise invalid_encoding

-- The switch on the byte order, and the refusal of the one that is not supported.
unfoldable pub check_endianness : ℕ → Read (Unit {0})
check_endianness e =
    if e == big_endian
    then raise (message "conversion from big endian not yet supported")
    else if e == little_endian
    then pure tt
    else raise invalid_endianess

-- `readNvHeader`
unfoldable pub read_nv_header : Read (Unit {0})
read_nv_header = do
  encoding ← read_byte
  set_encoding encoding
  endianness ← read_byte
  check_endianness endianness
  skip_n 2
  version ← read_int32
  modify (λ r. record r { version = version })
  flags ← read_uint32
  modify (λ r. record r { flags = flags })
