-- ===== src/Nvlist/Format/Fresh.antt =====
-- A fresh reader on a stream: the header is read by the first call of `Next`.
use prometheus_zfs_exporter.Base.{
  ℕ, ◌^◌, ◌<◌, ◌≡◌, refl, arith, ◌++◌, append_assoc, Bytes, ℤ, length, length-append, ok,
}
use prometheus_zfs_exporter.Nvlist.Reader.{
  NvListReader, new_reader, read_byte, set_encoding, check_endianness, read_nv_header,
}
use prometheus_zfs_exporter.Nvlist.Next.{next, when}
use prometheus_zfs_exporter.Nvlist.Format.{le_bytes, stream_header}
use prometheus_zfs_exporter.Nvlist.Format.Words.{At, At-le_bytes, read_int32_le, read_word_le}
use prometheus_zfs_exporter.Nvlist.Format.SkipTree.{Stands}

-- The reader behind the header of a stream that holds `xs`.
abbrev pub begun : ℕ → ℕ → Bytes → NvListReader
begun version flags xs = record (new_reader (stream_header version flags ++ xs)) {
  pos = 12;
  alignment = 8;
  version = ℤ.pos version;
  flags = flags;
}

module _ (version flags : ℕ) (xs : Bytes) where
  header_At :
      At (stream_header version flags ++ xs) 4 (le_bytes 4 version ++ (le_bytes 4 flags ++ xs))
  unfolding stream_header
  header_At = append_assoc (le_bytes 4 version) (le_bytes 4 flags) xs

  pub begun-Stands : Stands xs (begun version flags xs)
  begun-Stands =
      let s4 = record (begun version flags xs) { pos = 4 } in
      let s8 = record (begun version flags xs) { pos = 8 } in
      record {
        alignment_eq = refl;
        native = refl;
        started = omega arith;
        at =
            At-le_bytes 4 flags xs s8 (At-le_bytes 4 version (le_bytes 4 flags ++ xs) s4 header_At);
      }

  read_nv_header-stream :
      version < 2 ^ 31
      → flags < 2 ^ 32
      → 0 < length xs
      → read_nv_header (new_reader (stream_header version flags ++ xs))
        ≡ (ok tt, begun version flags xs)
  unfolding read_nv_header read_byte set_encoding check_endianness stream_header
  read_nv_header-stream v f room =
      let s4 = record (begun version flags xs) { pos = 4; version = ℤ.pos 0; flags = 0 } in
      let s8 = record (begun version flags xs) { pos = 8; flags = 0 } in
      let h4 = header_At in
      let h8 = At-le_bytes 4 version (le_bytes 4 flags ++ xs) s4 h4 in
      rw (
        read_int32_le version (le_bytes 4 flags ++ xs) s4 h4 v
            (omega (arith, length-append (le_bytes 4 flags) xs)),
        read_word_le 4 flags xs s8 h8 (omega arith) room,
      )

  -- The first call of `Next` on a stream is that of the reader behind the header.
  pub next-stream :
      version < 2 ^ 31
      → flags < 2 ^ 32
      → 0 < length xs
      → next (new_reader (stream_header version flags ++ xs)) ≡ next (begun version flags xs)
  unfolding next when
  next-stream v f room = rw (read_nv_header-stream v f room)
