-- ===== src/Kstat/Reader/Format.antt =====
-- The lines of a kstat file as the kernel prints them, and how the reader takes a row apart.
use prometheus_zfs_exporter.Base.{
  ℕ, zero, suc, ◌+◌, ◌<◌, ◌≡◌, ◌≢◌, refl, sym, ap, ◌∙◌, arith, some, [], ◌∷◌, ◌++◌, append_assoc,
  Bytes, All, length, length-append, length-replicate, replicate, drop, ok, err, eof, ne→not-==,
  ==_iff, replace_err, raise_if,
}
use prometheus_zfs_exporter.Nvlist.Format.Words.{At, At-skip, slice-At}
use prometheus_zfs_exporter.Kstat.Reader.{
  KstatReader, index_of, run_length, read_until_exclude, read_until_exclude_ignoring_prefix, when,
  read_row, next,
}

-- A row: the name, the type and the data, with as many blanks before each as the columns take.
-- One blank ends the name and the type besides.
pub record Row : Type 0 where
  pub lead : ℕ
  pub name : Bytes
  pub gap : ℕ
  pub kind : Bytes
  pub space : ℕ
  pub value : Bytes

abbrev pub value_part : Row → Bytes → Bytes
value_part w more = replicate w.space b' ' ++ (w.value ++ b'\n' ∷ more)

abbrev pub kind_part : Row → Bytes → Bytes
kind_part w more = replicate w.gap b' ' ++ (w.kind ++ b' ' ∷ value_part w more)

-- The row, and what follows it.
abbrev pub row_and : Row → Bytes → Bytes
row_and w more = replicate w.lead b' ' ++ (w.name ++ b' ' ∷ kind_part w more)

-- A word that is not empty, does not begin with `skip`, and has no `stop` in it.
abbrev pub IsToken : ℕ → ℕ → Bytes → Type 0
IsToken stop skip [] = ⊥
IsToken stop skip (x ∷ xs) = (x ≢ skip) × All (λ c. c ≢ stop) (x ∷ xs)

pub record IsRow (w : Row) : Type 0 where
  pub name_token : IsToken b' ' b' ' w.name
  pub kind_token : IsToken b' ' b' ' w.kind
  pub value_token : IsToken b'\n' b' ' w.value

index_of-append :
    (b : ℕ) (xs more : Bytes) → All (λ c. c ≢ b) xs → index_of b (xs ++ b ∷ more) ≡ some (length xs)
unfolding index_of
index_of-append b [] more h = rw ((==_iff b b).1 refl)
index_of-append b (x ∷ xs) more h = rw (ne→not-== x b h.0, index_of-append b xs more h.1)

run_length-replicate :
    (p n : ℕ) (x : ℕ) (more : Bytes) → x ≢ p → run_length p (replicate n p ++ x ∷ more) ≡ some n
unfolding run_length
run_length-replicate p zero x more h = rw (ne→not-== x p h)
run_length-replicate p (suc n) x more h =
    rw ((==_iff p p).1 refl, run_length-replicate p n x more h)

pub read_until_exclude-At :
    (b : ℕ) (xs more : Bytes) (r : KstatReader)
    → All (λ c. c ≢ b) xs
    → At r.bytes r.pos (xs ++ b ∷ more)
    → read_until_exclude b r ≡ (ok xs, record r { pos = r.pos + length xs + 1 })
unfolding read_until_exclude
read_until_exclude-At b xs more r h at = rw (
  read_until_exclude,
  ap (index_of b) at ∙ index_of-append b xs more h,
  slice-At r.bytes r.pos xs (b ∷ more) at,
)

pub read_token-At :
    (stop skip n : ℕ) (xs more : Bytes) (r : KstatReader)
    → IsToken stop skip xs
    → At r.bytes r.pos (replicate n skip ++ (xs ++ stop ∷ more))
    → read_until_exclude_ignoring_prefix stop skip r
      ≡ (ok xs, record r { pos = r.pos + n + length xs + 1 })
unfolding read_until_exclude_ignoring_prefix
read_token-At stop skip n [] more r h at = absurd h
read_token-At stop skip n (x ∷ xs) more r h at =
    let skipped : At r.bytes (r.pos + n) (x ∷ xs ++ stop ∷ more) =
      ap (λ k. drop (r.pos + k) r.bytes) (sym (length-replicate n skip))
      ∙ At-skip r.bytes r.pos (replicate n skip) (x ∷ xs ++ stop ∷ more) at in
    rw
      (
        read_until_exclude_ignoring_prefix,
        ap (run_length skip) at ∙ run_length-replicate skip n x (xs ++ stop ∷ more) h.0,
      )
      (read_until_exclude-At stop (x ∷ xs) more (record r { pos = r.pos + n }) h.1 skipped)

-- What stands behind a token.
pub behind_token :
    (stop skip n p : ℕ) (xs more bs : Bytes)
    → At bs p (replicate n skip ++ (xs ++ stop ∷ more))
    → At bs (p + n + length xs + 1) more
behind_token stop skip n p xs more bs at =
    let width : length (replicate n skip ++ (xs ++ stop ∷ [])) ≡ n + length xs + 1 = omega (
      arith,
      length-append (replicate n skip) (xs ++ stop ∷ []),
      length-append xs (stop ∷ []),
      length-replicate n skip,
    ) in
    let place : p + n + length xs + 1 ≡ p + length (replicate n skip ++ (xs ++ stop ∷ [])) =
      omega (arith, width) in
    ap (λ k. drop k bs) place
    ∙ At-skip bs p (replicate n skip ++ (xs ++ stop ∷ [])) more (at ∙ (simp append_assoc))

-- The length of a row with its blanks and its newline.
abbrev pub row_size : Row → ℕ
row_size w =
    w.lead + length w.name + 1 + (w.gap + length w.kind + 1) + (w.space + length w.value + 1)

pub length-row_and : (w : Row) (more : Bytes) → length (row_and w more) ≡ row_size w + length more
length-row_and w more = simp (length-append, length-replicate) (omega arith)

-- The reader behind a row.
abbrev pub after_row : KstatReader → Row → KstatReader
after_row r w = record r {
  pos =
      r.pos + w.lead + length w.name + 1 + w.gap + length w.kind + 1 + w.space + length w.value + 1;
  row_name = w.name;
  row_type = w.kind;
  row_data = w.value;
}

pub after_row-At :
    (w : Row) (more : Bytes) (r : KstatReader)
    → At r.bytes r.pos (row_and w more)
    → At r.bytes (after_row r w).pos more
after_row-At w more r at = behind_token b'\n' b' ' w.space _ w.value more r.bytes (
    behind_token b' ' b' ' w.gap _ w.kind (value_part w more) r.bytes
      (behind_token b' ' b' ' w.lead r.pos w.name (kind_part w more) r.bytes at))

read_row-At :
    (w : Row) (more : Bytes) (r : KstatReader)
    → IsRow w
    → At r.bytes r.pos (row_and w more)
    → read_row r ≡ (ok w.name, after_row r w)
unfolding read_row replace_err
read_row-At w more r h at =
    let at1 = behind_token b' ' b' ' w.lead r.pos w.name (kind_part w more) r.bytes at in
    let at2 = behind_token b' ' b' ' w.gap _ w.kind (value_part w more) r.bytes at1 in
    let r1 = record r { pos = r.pos + w.lead + length w.name + 1; row_name = w.name } in
    let r2 = record r1 { pos = r1.pos + w.gap + length w.kind + 1; row_type = w.kind } in
    rw (
      read_token-At b' ' b' ' w.lead w.name (kind_part w more) r h.name_token at,
      read_token-At b' ' b' ' w.gap w.kind (value_part w more) r1 h.kind_token at1,
      read_token-At b'\n' b' ' w.space w.value more r2 h.value_token at2,
    )

-- `Next` at a row, past the header lines, returns the row's name and leaves the reader with its
-- type and data, behind its newline.
pub next-row_and :
    (w : Row) (more : Bytes) (r : KstatReader)
    → IsRow w
    → 0 < r.pos
    → r.pos < length r.bytes
    → At r.bytes r.pos (row_and w more)
    → next r ≡ (ok w.name, after_row r w)
unfolding next when raise_if
next-row_and w more r h started inside at = rw (
  ne→not-== r.pos 0 (omega arith),
  ne→not-== r.pos (length r.bytes) (omega arith),
  read_row-At w more r h at,
)

-- At the end of the file `Next` returns `io.EOF`.
pub next-end : (r : KstatReader) → 0 < r.pos → r.pos ≡ length r.bytes → next r ≡ (err eof, r)
unfolding next when raise_if
next-end r started ends =
    rw (ne→not-== r.pos 0 (omega arith), (==_iff r.pos (length r.bytes)).1 ends)
