-- ===== src/Kstat/Reader.antt =====
-- zfs/kstat/decode.go: a header line, a line of column names, and a row for each statistic.
pub mod Format
pub mod Within
pub mod Total
pub mod Header
use prometheus_zfs_exporter.Base.{
  ℕ, suc, ◌+◌, ◌%◌, ◌-◌, Option, none, some, Bool, true, false, not, [], ◌∷◌, Bytes, String, codes,
  equal, length, drop, slice, ◌==◌, if◌then◌else◌, ℤ, negsuc, eof, message, Result, ok, err, Method,
  pure, gets, modify, ◌>>=◌, ◌>>◌, raise_if, wrapping, replacing,
}
use prometheus_zfs_exporter.Strconv.{parse_uint, parse_int32}

-- The field `bytes` is `Data`, `header_type` is `Header.Type`.
pub record KstatReader : Type 0 where
  pub bytes : Bytes
  pub pos : ℕ
  pub header_type : ℕ
  pub row_name : Bytes
  pub row_type : Bytes
  pub row_data : Bytes

-- `KStatReader{Data: data}`
abbrev pub new_reader : Bytes → KstatReader
new_reader bs = record {
  bytes = bs;
  pos = 0;
  header_type = 0;
  row_name = [];
  row_type = [];
  row_data = [];
}

abbrev pub Read : Type 0 → Type 0
Read = Method KstatReader

-- The loop of `readUntilExclude` over the bytes from `pos` on: how many stand before the first `b`.
unfoldable pub index_of : ℕ → Bytes → Option ℕ
index_of b [] = none
index_of b (c ∷ cs) =
    if c == b then some 0 else elim (index_of b cs) [ none ↦ none | some n ↦ some (suc n) ]

-- The loop of `readUntilExcludeIgnoringPrefix`: how many bytes are `b` before the first that is not.
unfoldable pub run_length : ℕ → Bytes → Option ℕ
run_length b [] = none
run_length b (c ∷ cs) =
    if not (c == b) then some 0 else elim (run_length b cs) [ none ↦ none | some n ↦ some (suc n) ]

unfoldable pub read_until_exclude : ℕ → Read Bytes
read_until_exclude b r = elim (index_of b (drop r.pos r.bytes)) [
  | none ↦ (err eof, r)
  | some n ↦ (ok (slice r.bytes r.pos (r.pos + n)), record r { pos = r.pos + n + 1 })
]

unfoldable pub read_until_exclude_ignoring_prefix : ℕ → ℕ → Read Bytes
read_until_exclude_ignoring_prefix b prefix r = elim (run_length prefix (drop r.pos r.bytes)) [
  | none ↦ (err eof, r)
  | some n ↦ read_until_exclude b (record r { pos = r.pos + n })
]

-- Go's conversion of an `int32` value to `uint8`.
abbrev pub to_uint8 : ℤ → ℕ
to_uint8 (ℤ.pos n) = n % 256
to_uint8 (negsuc n) = 255 - n % 256

-- A pure result as a method that leaves the receiver alone.
abbrev pub lift : {A : Type 0} → Result A → Read A
lift x r = (x, r)

unfoldable pub read_header : Read (Unit {0})
read_header = do
  kid ← wrapping "error reading kid from header: " (read_until_exclude b' ')
  kind ← wrapping "error reading type from header: " (read_until_exclude b' ')
  t ← wrapping "error parsing type from header: " (lift (parse_int32 kind))
  modify (λ r. record r { header_type = to_uint8 t })
  flags ← wrapping "error reading flags from header: " (read_until_exclude b' ')
  ndata ← wrapping "error reading kid from header: " (read_until_exclude b' ')
  data_size ← wrapping "error reading kid from header: " (read_until_exclude b' ')
  cr_time ← wrapping "error reading kid from header: " (read_until_exclude b' ')
  snap_time ← wrapping "error reading kid from header: " (read_until_exclude b'\n')
  pure tt

-- One column's name, read up to `b` and compared with what is wanted.
unfoldable pub read_column : ℕ → String → String → Read (Unit {0})
read_column b want unexpected = do
  c ← replacing "error reading column header" (read_until_exclude_ignoring_prefix b b' ')
  raise_if (not (equal c (codes want))) (message unexpected)

unfoldable pub read_column_headers : Read (Unit {0})
read_column_headers = do
  read_column b' ' "name" "unexpected column header: want \"name\", got %q"
  read_column b' ' "type" "unexpected column header: want \"type\", got %q"
  read_column b'\n' "data" "unexpected column header: want \"data\", got %q"

-- What `Next` does first on a fresh reader.
unfoldable pub start : Read (Unit {0})
start = do
  read_header
  t ← gets (λ r. r.header_type)
  raise_if (not (t == 1))
      (message "KStatReader only supports kstat that are of type key-value pair")
  wrapping "error reading column headers: " read_column_headers

unfoldable pub read_row : Read Bytes
read_row = do
  name ←
      replacing "error reading value of column name" (read_until_exclude_ignoring_prefix b' ' b' ')
  modify (λ r. record r { row_name = name })
  kind ←
      replacing "error reading value of column type" (read_until_exclude_ignoring_prefix b' ' b' ')
  modify (λ r. record r { row_type = kind })
  value ←
      replacing "error reading value of column data" (read_until_exclude_ignoring_prefix b'\n' b' ')
  modify (λ r. record r { row_data = value })
  gets (λ r. r.row_name)

-- `if b { m }`
unfoldable pub when : Bool → Read (Unit {0}) → Read (Unit {0})
when true m = m
when false m = pure tt

unfoldable pub next : Read Bytes
next = do
  fresh ← gets (λ r. r.pos == 0)
  when fresh start
  at_end ← gets (λ r. r.pos == length r.bytes)
  raise_if at_end eof
  read_row

-- `RowData`
abbrev pub get_row_data : Read Bytes
get_row_data = gets (λ r. r.row_data)

-- `RowDataAsUInt64`
unfoldable pub row_data_as_uint64 : Read ℕ
row_data_as_uint64 = do
  value ← get_row_data
  wrapping "error parsing row data as uint64: " (lift (parse_uint value))
