-- ===== src/Nvlist/Format/RoundTrip.antt =====
-- `Next` reads back what the format describes.
use prometheus_zfs_exporter.Base.{
  ℕ, suc, ◌+◌, ◌-◌, ◌^◌, ◌≤◌, ◌<◌, ◌≡◌, ◌≢◌, ◌∙◌, arith, [], ◌∷◌, ◌++◌, ℤ, Bytes, length, take,
  replicate, length-append, take-length_append, ok, err, eof, append_assoc, lt→not-leb, le→not-ltb,
  ne→not-==, raise_if, panic_if, sub_ℕ, length-replicate,
}
use prometheus_zfs_exporter.Nvlist.Types.{type_string_array}
use prometheus_zfs_exporter.Nvlist.Reader.{NvListReader, encoding_native}
use prometheus_zfs_exporter.Nvlist.Next.{
  read_size, read_fields, read_name, align, enter_data, when, next,
}
use prometheus_zfs_exporter.Nvlist.Format.{
  le_bytes, padding, Pair, name_end, head_size, pair_size, name_field, encode_pair, IsPair,
  terminator,
}
use prometheus_zfs_exporter.Nvlist.Format.Words.{
  At, At-length, At-le_bytes, read_word_le, read_int32_le, read_int16_le, read_bytes-At,
  length-le_bytes,
}

read_size-At :
    (v : ℕ) (more : Bytes) (s : NvListReader)
    → At s.bytes s.pos (le_bytes 4 v ++ more)
    → 0 < v
    → v < 2 ^ 31
    → v < length more
    → read_size s ≡ (ok v, record s { pos = s.pos + 4 })
unfolding read_size raise_if
read_size-At v more s h pos small fits = rw (
  read_int32_le v more s h small (omega arith),
  ne→not-== v 0 (omega arith),
  lt→not-leb (length s.bytes) (s.pos + 4 + v) (
      omega (
        arith,
        At-length s.bytes s.pos (le_bytes 4 v ++ more) h,
        length-append (le_bytes 4 v) more,
        length-le_bytes 4 v,
      )),
)

read_fields-At :
    (m c t : ℕ) (more : Bytes) (s : NvListReader)
    → At s.bytes s.pos (le_bytes 2 m ++ (le_bytes 2 0 ++ (le_bytes 4 c ++ (le_bytes 4 t ++ more))))
    → 0 < m
    → m < 2 ^ 15
    → c ≤ 65535
    → t < 2 ^ 32
    → 0 < length more
    → read_fields s ≡ (ok (m, t), record s { pos = s.pos + 2 + 2 + 4 + 4; num_elements = c })
unfolding read_fields raise_if
read_fields-At m c t more s h pos m_lt c_le t_lt room =
    let tail3 = le_bytes 4 t ++ more in
    let tail2 = le_bytes 4 c ++ tail3 in
    let tail1 = le_bytes 2 0 ++ tail2 in
    let s1 = record s { pos = s.pos + 2 } in
    let s2 = record s { pos = s.pos + 2 + 2 } in
    let s3 = record s { pos = s.pos + 2 + 2 + 4; num_elements = c } in
    let h1 = At-le_bytes 2 m tail1 s h in
    let h2 = At-le_bytes 2 0 tail2 s1 h1 in
    let h3 = At-le_bytes 4 c tail3 s2 h2 in
    let room3 : 0 < length tail3 = omega (arith, length-append (le_bytes 4 t) more) in
    let room2 : 0 < length tail2 = omega (arith, length-append (le_bytes 4 c) tail3) in
    let room1 : 0 < length tail1 = omega (arith, length-append (le_bytes 2 0) tail2) in
    rw (
      read_int16_le m tail1 s h m_lt room1,
      ne→not-== m 0 (omega arith),
      read_int16_le 0 tail2 s1 h1 (omega arith) room2,
      read_int32_le c tail3 s2 h2 (omega arith) room3,
      le→not-ltb 65535 c c_le,
      read_word_le 4 t more s3 h3 t_lt room,
    )

At-fields :
    (m c t : ℕ) (more : Bytes) (s : NvListReader)
    → At s.bytes s.pos (le_bytes 2 m ++ (le_bytes 2 0 ++ (le_bytes 4 c ++ (le_bytes 4 t ++ more))))
    → At s.bytes (s.pos + 2 + 2 + 4 + 4) more
At-fields m c t more s h =
    let h1 = At-le_bytes 2 m _ s h in
    let h2 = At-le_bytes 2 0 _ (record s { pos = s.pos + 2 }) h1 in
    let h3 = At-le_bytes 4 c _ (record s { pos = s.pos + 2 + 2 }) h2 in
    At-le_bytes 4 t more (record s { pos = s.pos + 2 + 2 + 4 }) h3

take_name : (name : Bytes) → take (length (name ++ 0 ∷ []) - 1) (name ++ 0 ∷ []) ≡ name
take_name name =
    let width : length (name ++ 0 ∷ []) - 1 ≡ length name =
      omega (arith, length-append name (0 ∷ [])) in
    rw width (take-length_append name (0 ∷ []))

-- The steps of `Next` on the name: the terminator goes, and the position is aligned.
read_name-At :
    (start : ℕ) (name more : Bytes) (s : NvListReader)
    → At s.bytes s.pos ((name ++ 0 ∷ []) ++ more)
    → 0 < length more
    → s.alignment ≡ 8
    → read_name start (suc (length name)) s
      ≡ (ok tt, record s { name_bytes = name; pos = align start 8 (s.pos + suc (length name)) })
unfolding read_name panic_if
read_name-At start name more s h room eight =
    let width : suc (length name) ≡ length (name ++ 0 ∷ []) =
      omega (arith, length-append name (0 ∷ [])) in
    rw (width, read_bytes-At (name ++ 0 ∷ []) more s h room) (rw (eight, take_name name))

-- The reader behind pair `p`, when it stood before it as `s`.
abbrev pub after_pair : NvListReader → Pair → NvListReader
after_pair s p = record s {
  pos = s.pos + pair_size p;
  name_bytes = p.name;
  num_elements = p.count;
  data_pos = s.pos + head_size p;
  data_len = ℤ.pos (length p.payload);
  current_token = p.ty;
}

align-padding :
    (start n : ℕ)
    → align start 8 (start + 4 + 2 + 2 + 4 + 4 + suc n) ≡ start + (17 + n + padding (17 + n))
align-padding start n =
    let gap : start + 4 + 2 + 2 + 4 + 4 + suc n - start ≡ 17 + n = omega arith in
    rw gap (ground arith)

data_len-payload :
    (start : ℕ) (p : Pair)
    → sub_ℕ (start + pair_size p) (start + head_size p) ≡ ℤ.pos (length p.payload)
data_len-payload start p = ground arith

-- The parts of a pair's encoding and what follows, from the last on.
abbrev data_and : Pair → Bytes → Bytes
data_and p rest = replicate (padding (name_end p)) 0 ++ (p.payload ++ rest)

abbrev fields_and : Pair → Bytes → Bytes
fields_and p rest =
    le_bytes 2 (suc (length p.name))
    ++ (le_bytes 2 0
        ++ (le_bytes 4 p.count ++ (le_bytes 4 p.ty ++ (name_field p ++ data_and p rest))))

encode_pair-append :
    (p : Pair) (rest : Bytes)
    → encode_pair p ++ rest ≡ le_bytes 4 (pair_size p) ++ fields_and p rest
unfolding encode_pair
encode_pair-append p rest = simp append_assoc

length-fields_and :
    (p : Pair) (rest : Bytes) → length (fields_and p rest) + 4 ≡ pair_size p + length rest
length-fields_and p rest = simp (length-append, length-le_bytes, length-replicate) (omega arith)

pub length-encode_pair : (p : Pair) → length (encode_pair p) ≡ pair_size p
unfolding encode_pair
length-encode_pair p = simp (length-append, length-le_bytes, length-replicate) (omega arith)

data_and_room : (p : Pair) (rest : Bytes) → 0 < length rest → 0 < length (data_and p rest)
data_and_room p rest h = omega (
  arith,
  length-append (replicate (padding (name_end p)) 0) (p.payload ++ rest),
  length-append p.payload rest,
)

name_room : (p : Pair) (rest : Bytes) → 0 < length (name_field p ++ data_and p rest)
name_room p rest =
    omega (arith, length-append (name_field p) (data_and p rest), length-append p.name (0 ∷ []))

-- `Next` at a pair in native encoding returns the pair's type. The reader then holds its name and
-- count, its data's bounds, and stands at what follows it. This is for readers past the header,
-- pairs whose fields fit and are no string array, and a buffer with more than four bytes behind.
pub next_pair :
    (s : NvListReader) (p : Pair) (rest : Bytes)
    → s.alignment ≡ 8
    → s.encoding ≡ encoding_native
    → 0 < s.pos
    → IsPair p
    → p.ty ≢ type_string_array
    → At s.bytes s.pos (encode_pair p ++ rest)
    → 4 < length rest
    → next s ≡ (ok p.ty, after_pair s p)
unfolding next when enter_data
next_pair s p rest eight native started ok_pair plain h room =
    let more = fields_and p rest in
    let h0 : At s.bytes s.pos (le_bytes 4 (pair_size p) ++ more) = h ∙ encode_pair-append p rest in
    let s1 = record s { pos = s.pos + 4 } in
    let h1 = At-le_bytes 4 (pair_size p) more s h0 in
    let s2 = record s { pos = s.pos + 4 + 2 + 2 + 4 + 4; num_elements = p.count } in
    let h2 = At-fields (suc (length p.name)) p.count p.ty (name_field p ++ data_and p rest) s1 h1 in
    rw (
      ne→not-== s.pos 0 (omega arith),
      read_size-At (pair_size p) more s h0 (omega arith) ok_pair.size_lt
          (omega (arith, length-fields_and p rest)),
      ne→not-== s.encoding 1 (omega arith),
      read_fields-At (suc (length p.name)) p.count p.ty (name_field p ++ data_and p rest) s1 h1
          (omega arith) ok_pair.name_lt ok_pair.count_le ok_pair.ty_lt (name_room p rest),
      read_name-At s.pos p.name (data_and p rest) s2 h2 (data_and_room p rest (omega arith)) eight,
      ne→not-== p.ty 17 plain,
      align-padding s.pos (length p.name),
      data_len-payload s.pos p,
    )

-- At the end of a list `Next` returns `io.EOF`, and the reader stands behind the terminator.
pub next-terminator :
    (s : NvListReader) (rest : Bytes)
    → 0 < s.pos
    → At s.bytes s.pos (terminator ++ rest)
    → 0 < length rest
    → next s ≡ (err eof, record s { pos = s.pos + 4 })
unfolding next when read_size raise_if
next-terminator s rest started h room =
    rw (ne→not-== s.pos 0 (omega arith), read_int32_le 0 rest s h (omega arith) room)
