-- ===== src/Ioctl/Cmd.antt =====
-- zfs/ioctl/ioctl.go and types.go: the command block, and text in its fixed buffers.
pub mod Names
use prometheus_zfs_exporter.Base.{
  ℕ, ◌+◌, [], ◌∷◌, Bytes, length, replicate, ltb, ◌==◌, if◌then◌else◌, message, Result, ok, err,
  panicked, index_range,
}

-- The fields of `Cmd` that the program sets or reads. The addresses of the three buffers are left
-- out: `Ioctl` sets each just before the call, to a buffer that it hands to the kernel with the
-- block.
pub record Cmd : Type 0 where
  pub name : Bytes
  pub nvlist_src_size : ℕ
  pub nvlist_dst_size : ℕ
  pub nvlist_conf_size : ℕ
  pub cookie : ℕ

-- `len(Cmd.Name)`
abbrev pub name_size : ℕ
name_size = 4096

-- `Cmd{}`, and what `Clear` leaves.
unfoldable pub empty_cmd : Cmd
empty_cmd = record {
  name = replicate name_size 0;
  nvlist_src_size = 0;
  nvlist_dst_size = 0;
  nvlist_conf_size = 0;
  cookie = 0;
}

-- `delimitedBufToString`: the bytes before the first null, or all of them.
unfoldable pub delimited_buf_to_string : Bytes → Bytes
delimited_buf_to_string [] = []
delimited_buf_to_string (b ∷ bs) = if b == 0 then [] else b ∷ delimited_buf_to_string bs

-- The copying loop of `stringToDelimitedBuf`. What it has written stays when it meets a null byte.
unfoldable pub copy_string : Bytes → Bytes → Result (Unit {0}) × Bytes
copy_string [] buf = (ok tt, buf)
copy_string (c ∷ cs) [] = (panicked index_range, [])
copy_string (c ∷ cs) (b ∷ buf) =
    if c == 0
    then (err (message "String contains null byte, this is unsupported by ZFS"), b ∷ buf)
    else let (r, buf') = copy_string cs buf in (r, c ∷ buf')

-- `stringToDelimitedBuf`; the test is `len(str) > len(buf)-1`.
unfoldable pub string_to_delimited_buf : Bytes → Bytes → Result (Unit {0}) × Bytes
string_to_delimited_buf str buf =
    if ltb (length buf) (length str + 1)
    then (err (message "String longer than target buffer (%v > %v)"), buf)
    else copy_string str buf

-- `SetName`, which drops the error.
unfoldable pub set_name : Bytes → Cmd → Cmd
set_name name c = record c { name = (string_to_delimited_buf name c.name).1 }

-- `GetName`
unfoldable pub get_name : Cmd → Bytes
get_name c = delimited_buf_to_string c.name
