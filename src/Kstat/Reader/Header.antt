-- ===== src/Kstat/Reader/Header.antt =====
-- zfs/kstat/decode.go: the two lines before the rows, as the kernel prints them.
use prometheus_zfs_exporter.Base.{
  ℕ, ◌+◌, ◌%◌, ◌^◌, ◌<◌, ◌≡◌, ◌≢◌, refl, sym, ap, ◌∙◌, arith, [], ◌∷◌, ◌++◌, append_assoc, Bytes,
  All, codes, length, length-append, drop, equal, ok, err, message, ne→not-==, ==_iff, raise_if,
  replace_err, wrap_err,
}
use prometheus_zfs_exporter.Nvlist.Format.Words.{At, At-length, At-skip}
use prometheus_zfs_exporter.Strconv.{format_decimal}
use prometheus_zfs_exporter.Strconv.Decimal.{parse_int32-format_decimal, format_decimal-All}
use prometheus_zfs_exporter.Kstat.Reader.{
  KstatReader, new_reader, read_header, read_column, read_column_headers, start, when, next,
}
use prometheus_zfs_exporter.Kstat.Reader.Format.{
  Row, row_and, row_size, length-row_and, kind_part, value_part, read_until_exclude-At,
  read_token-At, behind_token, after_row-At,
}

-- The first line: seven words, of which the reader uses the second, the number of the type.
pub record Header : Type 0 where
  pub kid : Bytes
  pub kind : ℕ
  pub flags : Bytes
  pub ndata : Bytes
  pub data_size : Bytes
  pub cr_time : Bytes
  pub snap_time : Bytes

-- The line, and what follows it.
abbrev pub header_and : Header → Bytes → Bytes
header_and h more =
    h.kid
    ++ b' '
      ∷ (format_decimal h.kind
          ++ b' '
            ∷ (h.flags
                ++ b' '
                  ∷ (h.ndata
                      ++ b' '
                        ∷ (h.data_size
                            ++ b' ' ∷ (h.cr_time ++ b' ' ∷ (h.snap_time ++ b'\n' ∷ more))))))

abbrev pub IsWord : Bytes → Type 0
IsWord = All (λ c. c ≢ b' ')

pub record IsHeader (h : Header) : Type 0 where
  pub kid_word : IsWord h.kid
  pub kind_lt : h.kind < 2 ^ 31
  pub flags_word : IsWord h.flags
  pub ndata_word : IsWord h.ndata
  pub data_size_word : IsWord h.data_size
  pub cr_time_word : IsWord h.cr_time
  pub snap_time_line : All (λ c. c ≢ b'\n') h.snap_time

-- The second line, a row whose words are the columns' names, with the blanks before each.
abbrev pub columns : ℕ → ℕ → ℕ → Row
columns lead gap space = record {
  lead = lead;
  name = codes "name";
  gap = gap;
  kind = codes "type";
  space = space;
  value = codes "data";
}

-- The reader behind a word and the byte that ends it.
abbrev past : KstatReader → Bytes → KstatReader
past r xs = record r { pos = r.pos + length xs + 1 }

past-At :
    (r : KstatReader) (xs : Bytes) (b : ℕ) (more : Bytes)
    → At r.bytes r.pos (xs ++ b ∷ more)
    → At r.bytes (past r xs).pos more
past-At r xs b more at =
    let place : r.pos + length xs + 1 ≡ r.pos + length (xs ++ b ∷ []) =
      omega (arith, length-append xs (b ∷ [])) in
    ap (λ k. drop k r.bytes) place
    ∙ At-skip r.bytes r.pos (xs ++ b ∷ []) more (at ∙ sym (append_assoc xs (b ∷ []) more))

-- The reader behind the first line.
abbrev pub behind_header : KstatReader → Header → KstatReader
behind_header r h =
    past
      (past
        (past
          (past
            (past
              (record (past (past r h.kid) (format_decimal h.kind)) { header_type = h.kind % 256 })
              h.flags)
            h.ndata)
          h.data_size)
        h.cr_time)
      h.snap_time

module _ (h : Header) (more : Bytes) (r : KstatReader) (ok_h : IsHeader h)
    (at : At r.bytes r.pos (header_and h more)) where
  pub read_header-At :
      (read_header r ≡ (ok tt, behind_header r h)) × At r.bytes (behind_header r h).pos more
  unfolding read_header wrap_err
  read_header-At =
      let word = format_decimal h.kind in
      let r1 = past r h.kid in
      let at1 = past-At r h.kid b' ' _ at in
      let r2 = past r1 word in
      let at2 = past-At r1 word b' ' _ at1 in
      let r3 = record r2 { header_type = h.kind % 256 } in
      let r4 = past r3 h.flags in
      let at4 = past-At r3 h.flags b' ' _ at2 in
      let r5 = past r4 h.ndata in
      let at5 = past-At r4 h.ndata b' ' _ at4 in
      let r6 = past r5 h.data_size in
      let at6 = past-At r5 h.data_size b' ' _ at5 in
      let r7 = past r6 h.cr_time in
      let at7 = past-At r6 h.cr_time b' ' _ at6 in
      (
        rw (
          read_until_exclude-At b' ' h.kid _ r ok_h.kid_word at,
          read_until_exclude-At b' ' word _ r1 (format_decimal-All h.kind) at1,
          parse_int32-format_decimal h.kind ok_h.kind_lt,
          read_until_exclude-At b' ' h.flags _ r3 ok_h.flags_word at2,
          read_until_exclude-At b' ' h.ndata _ r4 ok_h.ndata_word at4,
          read_until_exclude-At b' ' h.data_size _ r5 ok_h.data_size_word at5,
          read_until_exclude-At b' ' h.cr_time _ r6 ok_h.cr_time_word at6,
          read_until_exclude-At b'\n' h.snap_time more r7 ok_h.snap_time_line at7,
        ),
        past-At r7 h.snap_time b'\n' more at7,
      )

-- The reader behind both lines.
abbrev pub behind_columns : KstatReader → Row → KstatReader
behind_columns r w = record r {
  pos =
      r.pos + w.lead + length w.name + 1 + w.gap + length w.kind + 1 + w.space + length w.value + 1;
}

module _ (lead gap space : ℕ) (more : Bytes) (r : KstatReader)
    (at : At r.bytes r.pos (row_and (columns lead gap space) more)) where
  read_column_headers-At :
      read_column_headers r ≡ (ok tt, behind_columns r (columns lead gap space))
  unfolding read_column_headers read_column replace_err raise_if equal
  read_column_headers-At =
      let w = columns lead gap space in
      let at1 = behind_token b' ' b' ' lead r.pos w.name (kind_part w more) r.bytes at in
      let at2 =
        behind_token b' ' b' ' gap (r.pos + lead + 4 + 1) w.kind (value_part w more) r.bytes at1 in
      let r1 = record r { pos = r.pos + lead + 4 + 1 } in
      let r2 = record r1 { pos = r1.pos + gap + 4 + 1 } in
      rw (
        read_token-At b' ' b' ' lead w.name (kind_part w more) r (omega arith) at,
        read_token-At b' ' b' ' gap w.kind (value_part w more) r1 (omega arith) at1,
        read_token-At b'\n' b' ' space w.value more r2 (omega arith) at2,
      )

  -- The file ends with what follows.
  pub columns_end : r.pos + row_size (columns lead gap space) + length more ≡ length r.bytes
  columns_end = omega (
    arith,
    At-length r.bytes r.pos (row_and (columns lead gap space) more) at
        (omega (arith, length-row_and (columns lead gap space) more)),
    length-row_and (columns lead gap space) more,
  )

-- A file: the two lines and what follows them.
abbrev pub file_and : Header → ℕ → ℕ → ℕ → Bytes → Bytes
file_and h lead gap space more = header_and h (row_and (columns lead gap space) more)

module _ (h : Header) (lead gap space : ℕ) (more : Bytes) where
  abbrev pub fresh : KstatReader
  fresh = new_reader (file_and h lead gap space more)

  abbrev pub begun : KstatReader
  begun = behind_columns (behind_header fresh h) (columns lead gap space)

  module _ (ok_h : IsHeader h) where
    -- Behind the first line stand the columns' names.
    columns-At : At fresh.bytes (behind_header fresh h).pos (row_and (columns lead gap space) more)
    columns-At = (read_header-At h (row_and (columns lead gap space) more) fresh ok_h refl).1

    header_read : read_header fresh ≡ (ok tt, behind_header fresh h)
    header_read = (read_header-At h (row_and (columns lead gap space) more) fresh ok_h refl).0

    pub begun-At : At fresh.bytes begun.pos more
    begun-At = after_row-At (columns lead gap space) more (behind_header fresh h) columns-At

    pub begun_end : begun.pos + length more ≡ length fresh.bytes
    begun_end = omega (arith, columns_end lead gap space more (behind_header fresh h) columns-At)

    start-file : h.kind % 256 ≡ 1 → start fresh ≡ (ok tt, begun)
    unfolding start raise_if wrap_err
    start-file key_value = rw (
      header_read,
      (==_iff (h.kind % 256) 1).1 key_value,
      read_column_headers-At lead gap space more (behind_header fresh h) columns-At,
    )

    -- The first call of `Next` on a file is that of the reader behind its two lines.
    pub next-file : h.kind % 256 ≡ 1 → next fresh ≡ next begun
    unfolding next when
    next-file key_value = rw (start-file key_value, ne→not-== begun.pos 0 (omega arith))

    -- On a file of another type it fails, having read the first line.
    pub next-other_type :
        h.kind % 256 ≢ 1
        → next fresh ≡ (
          err (message "KStatReader only supports kstat that are of type key-value pair"),
          behind_header fresh h,
        )
    unfolding next when start raise_if
    next-other_type other = rw (header_read, ne→not-== (h.kind % 256) 1 other)
