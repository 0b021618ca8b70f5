-- ===== src/Nvlist/Next.antt =====
-- zfs/nvlist/decode.go: `Next`, which reads the header of the next pair and steps past its data.
pub mod Steps
pub mod Safety
use prometheus_zfs_exporter.Base.{
  ℕ, ◌+◌, ◌-◌, ◌*◌, ◌%◌, ◌||◌, Bool, true, false, ℤ, negsuc, pos_part, sub_ℕ, length, take, leb,
  ltb, ◌==◌, if◌then◌else◌, eof, invalid_data, divide_by_zero, pure, gets, modify, ◌>>=◌, ◌>>◌,
  raise_if, panic_if,
}
use prometheus_zfs_exporter.Nvlist.Types.{NvType, type_string_array}
use prometheus_zfs_exporter.Nvlist.Reader.{
  Read, encoding_xdr, set_pos, skip_n, read_int32, read_int16, read_uint32, read_bytes,
  read_nv_header,
}

abbrev pub is_neg : ℤ → Bool
is_neg (ℤ.pos _) = false
is_neg (negsuc _) = true

-- `r.pos += r.alignment - ((r.pos - startPos) % r.alignment)`, unless the pair so far is aligned.
abbrev pub align : ℕ → ℕ → ℕ → ℕ
align start alignment p =
    let over = (p - start) % alignment in if over == 0 then p else p + (alignment - over)

-- The size field, from which the position of the next pair follows. Size zero ends the list.
unfoldable pub read_size : Read ℕ
read_size = do
  size ← read_int32
  raise_if (is_neg size) invalid_data
  raise_if (pos_part size == 0) eof
  p ← gets (λ r. r.pos)
  len ← gets (λ r. length r.bytes)
  raise_if (leb len (p + pos_part size)) invalid_data
  pure (pos_part size)

-- The fixed fields behind the size: the name's length, 'reserve', the count and the type.
unfoldable pub read_fields : Read (ℕ × NvType)
read_fields = do
  name_size ← read_int16
  raise_if (is_neg name_size || pos_part name_size == 0) invalid_data
  reserve ← read_int16
  num_elements ← read_int32
  raise_if (is_neg num_elements || ltb 65535 (pos_part num_elements)) invalid_data
  modify (λ r. record r { num_elements = pos_part num_elements })
  nv_type ← read_uint32
  pure (pos_part name_size, nv_type)

-- The name without its terminator, then the padding.
unfoldable pub read_name : ℕ → ℕ → Read (Unit {0})
read_name start name_size = do
  name ← read_bytes name_size
  modify (λ r. record r { name_bytes = take (length name - 1) name })
  alignment ← gets (λ r. r.alignment)
  panic_if (alignment == 0) divide_by_zero
  modify (λ r. record r { pos = align start r.alignment r.pos })

-- Where the pair's data lies, and the step to the next pair.
unfoldable pub enter_data : ℕ → NvType → Read (Unit {0})
enter_data next_pos nv_type = do
  modify (λ r. record r { data_pos = r.pos; data_len = sub_ℕ next_pos r.pos })
  set_pos next_pos
  modify (λ r. record r { current_token = nv_type })
  modify (λ r.
      if nv_type == type_string_array
      then record r { data_pos = r.data_pos + 8 * r.num_elements }
      else r)

-- `if b { m }`
unfoldable pub when : Bool → Read (Unit {0}) → Read (Unit {0})
when true m = m
when false m = pure tt

unfoldable pub next : Read NvType
next = do
  at_start ← gets (λ r. r.pos == 0)
  when at_start read_nv_header
  start ← gets (λ r. r.pos)
  size ← read_size
  xdr ← gets (λ r. r.encoding == encoding_xdr)
  when xdr (skip_n 4)
  (name_size, nv_type) ← read_fields
  read_name start name_size
  enter_data (start + size) nv_type
  pure nv_type
