-- ===== src/Nvlist/Format/Exact.antt =====
-- What the reader's strict bounds make of a list that ends with its buffer.
use prometheus_zfs_exporter.Base.{
  ◌<◌, ◌≡◌, ap, arith, length, length-drop, ne→not-==, err, invalid_data,
}
use prometheus_zfs_exporter.Nvlist.Reader.{NvListReader, read_int32}
use prometheus_zfs_exporter.Nvlist.Reader.Bounds.{read_word_short}
use prometheus_zfs_exporter.Nvlist.Next.{next, read_size, when}
use prometheus_zfs_exporter.Nvlist.Format.{terminator}
use prometheus_zfs_exporter.Nvlist.Format.Words.{At, length-le_bytes}

-- If the terminator of a list is the end of the buffer, `Next` does not see the list's end there but
-- refuses it as invalid data, and stays where it is.
pub next-last_terminator :
    (s : NvListReader) → 0 < s.pos → At s.bytes s.pos terminator → next s ≡ (err invalid_data, s)
unfolding next when read_size read_int32
next-last_terminator s started at = rw (
  ne→not-== s.pos 0 (omega arith),
  read_word_short 4 s (omega (arith, length-drop s.pos s.bytes, ap length at, length-le_bytes 4 0)),
)
