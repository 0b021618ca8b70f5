-- ===== src/Collector/Props/Stats/File.antt =====
-- main.go: `parseKStat` on a whole kstat file.
use prometheus_zfs_exporter.Base.{
  ℕ, suc, ◌%◌, ◌≡◌, refl, ◌∙◌, arith, List, [], ◌∷◌, Bytes, All, length, ok, err, message,
  eof_as_none, Option, none, some,
}
use prometheus_zfs_exporter.Kstat.Reader.{KstatReader, new_reader}
use prometheus_zfs_exporter.Kstat.Reader.Header.{
  Header, IsHeader, file_and, fresh, begun, begun-At, begun_end, behind_header, next-file,
  next-other_type,
}
use prometheus_zfs_exporter.Collector.Props.{DatasetProps, on_reader}
use prometheus_zfs_exporter.Collector.Props.Values.{PropKey, get_prop}
use prometheus_zfs_exporter.Collector.Props.Stats.{StatKey, stat_key, set_stat, parse_kstat}
use prometheus_zfs_exporter.Collector.Props.Stats.Keys.{apply_stat}
use prometheus_zfs_exporter.Collector.Props.Stats.Rows.{
  Entry, number, text, IsEntry, print_rows, apply_entries, parse_at, Ahead, parse_kstat-entries,
}

-- A file as the kernel prints it, with the blanks before the columns' names.
pub record KstatFile : Type 0 where
  pub header : Header
  pub lead : ℕ
  pub gap : ℕ
  pub space : ℕ
  pub entries : List Entry

abbrev pub print_file : KstatFile → Bytes
print_file f = file_and f.header f.lead f.gap f.space (print_rows f.entries)

pub record IsFile (f : KstatFile) : Type 0 where
  pub header : IsHeader f.header
  pub entries : All IsEntry f.entries

-- A file of rows with a name and data each.
abbrev pub IsKeyValue : KstatFile → Type 0
IsKeyValue f = f.header.kind % 256 ≡ 1

get_prop-set_stat :
    (k : PropKey) (j : StatKey) (v : ℕ) (d : DatasetProps)
    → get_prop k (set_stat j v d) ≡ get_prop k d
unfolding set_stat
get_prop-set_stat k j v d = ground arith

get_prop-apply_stat :
    (k : PropKey) (known : Option StatKey) (v : ℕ) (d : DatasetProps)
    → get_prop k (apply_stat known v d) ≡ get_prop k d
get_prop-apply_stat k none v d = refl
get_prop-apply_stat k (some j) v d = get_prop-set_stat k j v d

pub get_prop-apply_entries :
    (k : PropKey) (xs : List Entry) (d : DatasetProps)
    → get_prop k (apply_entries xs d) ≡ get_prop k d
get_prop-apply_entries k [] d = refl
get_prop-apply_entries k (number w v ∷ xs) d =
    get_prop-apply_entries k xs (apply_stat (stat_key w.name) v d)
    ∙ get_prop-apply_stat k (stat_key w.name) v d
get_prop-apply_entries k (text w ∷ xs) d = get_prop-apply_entries k xs d

module _ (file : KstatFile) (ok_file : IsFile file) where
  abbrev reader : KstatReader
  reader = fresh file.header file.lead file.gap file.space (print_rows file.entries)

  abbrev later : KstatReader
  later = begun file.header file.lead file.gap file.space (print_rows file.entries)

  later-Ahead : Ahead (print_rows file.entries) later
  later-Ahead = record {
    started = omega arith;
    at =
        begun-At file.header file.lead file.gap file.space (print_rows file.entries) ok_file.header;
    ends =
        begun_end file.header file.lead file.gap file.space (print_rows file.entries)
          ok_file.header;
  }

  parse_kstat-later :
      (f : ℕ) (d : DatasetProps)
      → IsKeyValue file
      → parse_kstat (suc f) (parse_at d reader) ≡ parse_kstat (suc f) (parse_at d later)
  unfolding parse_kstat on_reader
  parse_kstat-later f d kv = rw (
      next-file file.header file.lead file.gap file.space (print_rows file.entries) ok_file.header
        kv)

  -- The fields behind `parseKStat` are those that the rows say, the others as they were.
  pub parse_kstat-print_file :
      (d : DatasetProps)
      → IsKeyValue file
      → (t : KstatReader) × (parse_kstat
            (suc (length (print_file file)))
            (parse_at d (new_reader (print_file file)))
          ≡ (ok tt, parse_at (apply_entries file.entries d) t))
  parse_kstat-print_file d kv =
      let (t, eq, ends) =
        parse_kstat-entries file.entries (suc (length (print_file file))) d later ok_file.entries
          (omega (arith, later-Ahead.ends)) later-Ahead in
      (t, parse_kstat-later (length (print_file file)) d kv ∙ eq)

  pub parse_kstat-other_type :
      (d : DatasetProps)
      → (IsKeyValue file → ⊥)
      → (t : KstatReader) × (parse_kstat
            (suc (length (print_file file)))
            (parse_at d (new_reader (print_file file)))
          ≡ (
            err (message "KStatReader only supports kstat that are of type key-value pair"),
            parse_at d t,
          ))
  unfolding parse_kstat on_reader eof_as_none
  parse_kstat-other_type d other = (
    behind_header reader file.header,
    rw (
        next-other_type file.header file.lead file.gap file.space (print_rows file.entries)
          ok_file.header other),
  )
