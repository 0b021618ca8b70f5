-- ===== src/Ioctl/Cmd/Names.antt =====
-- zfs/ioctl/ioctl.go: what `GetName` reads after `SetName`.
use prometheus_zfs_exporter.Base.{
  ℕ, zero, suc, ◌+◌, ◌<◌, ◌≤◌, ◌≡◌, ◌≢◌, refl, ap, ◌∙◌, arith, [], ◌∷◌, ◌++◌, append-nil, Bytes,
  All, length, length-replicate, drop, replicate, ok, lt→ltb, le→not-ltb, ne→not-==,
}
use prometheus_zfs_exporter.Ioctl.Cmd.{
  Cmd, name_size, empty_cmd, delimited_buf_to_string, copy_string, string_to_delimited_buf,
  set_name, get_name,
}

-- Text that ZFS supports has no null byte.
abbrev pub NoNull : Bytes → Type 0
NoNull = All (λ c. c ≢ 0)

copy_string-fits :
    (str buf : Bytes)
    → NoNull str
    → length str ≤ length buf
    → copy_string str buf ≡ (ok tt, str ++ drop (length str) buf)
unfolding copy_string
copy_string-fits [] buf h fits = refl
copy_string-fits (c ∷ cs) [] h fits = absurd (omega arith)
copy_string-fits (c ∷ cs) (b ∷ buf) h fits =
    rw (ne→not-== c 0 h.0, copy_string-fits cs buf h.1 (omega arith))

delimited-append :
    (str rest : Bytes)
    → NoNull str
    → delimited_buf_to_string (str ++ rest) ≡ str ++ delimited_buf_to_string rest
unfolding delimited_buf_to_string
delimited-append [] rest h = refl
delimited-append (c ∷ cs) rest h =
    rw (ne→not-== c 0 h.0) (ap (◌∷◌ c) (delimited-append cs rest h.1))

-- After `SetName` with a name that fits and has no null byte, `GetName` reads the name and behind
-- it what the block held from there to the next null byte.
pub get_name-set_name :
    (name : Bytes) (c : Cmd)
    → NoNull name
    → length name < length c.name
    → get_name (set_name name c) ≡ name ++ delimited_buf_to_string (drop (length name) c.name)
unfolding get_name set_name string_to_delimited_buf
get_name-set_name name c h fits =
    rw
      (
        le→not-ltb (length c.name) (length name + 1) (omega arith),
        copy_string-fits name c.name h (omega arith),
      )
      (delimited-append name (drop (length name) c.name) h)

drop-zeros : (n m : ℕ) → delimited_buf_to_string (drop n (replicate m 0)) ≡ []
unfolding delimited_buf_to_string
drop-zeros zero zero = refl
drop-zeros (suc n) zero = refl
drop-zeros zero (suc m) = refl
drop-zeros (suc n) (suc m) = drop-zeros n m

-- On a cleared block `GetName` reads back the name that `SetName` stored, if it has no null byte
-- and is shorter than the block's field.
pub get_name-set_name_cleared :
    (name : Bytes)
    → NoNull name
    → length name < name_size
    → get_name (set_name name empty_cmd) ≡ name
unfolding empty_cmd
get_name-set_name_cleared name h fits =
    get_name-set_name name empty_cmd h (omega (arith, length-replicate {A = ℕ} name_size 0))
    ∙ ap (◌++◌ name) (drop-zeros (length name) name_size)
    ∙ append-nil name

-- A name that is as long as the field or longer is dropped without a word: the block is as it was.
pub set_name-too_long : (name : Bytes) (c : Cmd) → length c.name ≤ length name → set_name name c ≡ c
unfolding set_name string_to_delimited_buf
set_name-too_long name c h = rw (lt→ltb (length c.name) (length name + 1) (omega arith))
