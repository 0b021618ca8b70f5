-- ===== src/Nvlist/Access/Arrays.antt =====
-- zfs/nvlist/decode.go: the arrays that are read element by element. No element moves the reader.
use prometheus_zfs_exporter.Base.{ℕ, zero, suc, ◌≡◌, refl, Bytes, Bool, replicate, ok}
use prometheus_zfs_exporter.Nvlist.Reader.{NvListReader, Read}
use prometheus_zfs_exporter.Nvlist.Access.{
  repeat_into, get_string, get_string_array, get_boolean, get_boolean_array,
}

repeat_into-still :
    {A : Type 0} (n : ℕ) (m : Read A) (r : NvListReader) (a : A)
    → m r ≡ (ok a, r)
    → repeat_into n m r ≡ (ok (replicate n a), r)
unfolding repeat_into
repeat_into-still zero m r a e = refl
repeat_into-still (suc n) m r a e = rw (e, repeat_into-still n m r a e)

-- Where `String` reads a string, `StringArray` returns that one string as often as the pair counts
-- elements, whatever strings stand behind it.
pub get_string_array-repeats :
    (r : NvListReader) (s : Bytes)
    → get_string r ≡ (ok s, r)
    → get_string_array r ≡ (ok (replicate r.num_elements s), r)
unfolding get_string_array
get_string_array-repeats r s e = repeat_into-still r.num_elements get_string r s e

-- Where `Boolean` reads a value, `BooleanArray` returns that one value as often as the pair counts
-- elements.
pub get_boolean_array-repeats :
    (r : NvListReader) (b : Bool)
    → get_boolean r ≡ (ok b, r)
    → get_boolean_array r ≡ (ok (replicate r.num_elements b), r)
unfolding get_boolean_array
get_boolean_array-repeats r b e = repeat_into-still r.num_elements get_boolean r b e
