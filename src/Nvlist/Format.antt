-- ===== src/Nvlist/Format.antt =====
-- The native encoding of name-value pairs, as the kernel packs them: the format that the reader is
-- written for, described from the writer's side.
pub mod Words
pub mod RoundTrip
pub mod Data
pub mod Values
pub mod Signed
pub mod Arrays
pub mod Exact
pub mod Tree
pub mod SkipTree
pub mod Fresh
use prometheus_zfs_exporter.Base.{
  ℕ, zero, suc, ◌+◌, ◌-◌, ◌*◌, ◌/◌, ◌%◌, ◌^◌, ◌≤◌, ◌<◌, [], ◌∷◌, ◌++◌, Bytes, length, replicate,
  ◌==◌, if◌then◌else◌,
}
use prometheus_zfs_exporter.Nvlist.Types.{NvType}

-- A number in `n` bytes, the least first.
unfoldable pub le_bytes : ℕ → ℕ → Bytes
le_bytes zero v = []
le_bytes (suc n) v = (v % 256) ∷ le_bytes n (v / 256)

-- How many bytes are missing to a multiple of eight.
abbrev pub padding : ℕ → ℕ
padding n = let over = n % 8 in if over == 0 then 0 else 8 - over

-- A pair, with its data as the bytes that follow the name's padding.
pub record Pair : Type 0 where
  pub name : Bytes
  pub ty : NvType
  pub count : ℕ
  pub payload : Bytes

-- Size, name's length, reserve, count and type take 16 bytes; the name has a terminator.
abbrev pub name_end : Pair → ℕ
name_end p = 17 + length p.name

abbrev pub head_size : Pair → ℕ
head_size p = name_end p + padding (name_end p)

abbrev pub pair_size : Pair → ℕ
pair_size p = head_size p + length p.payload

abbrev pub name_field : Pair → Bytes
name_field p = p.name ++ 0 ∷ []

unfoldable pub encode_pair : Pair → Bytes
encode_pair p =
    le_bytes 4 (pair_size p)
    ++ (le_bytes 2 (suc (length p.name))
        ++ (le_bytes 2 0
            ++ (le_bytes 4 p.count
                ++ (le_bytes 4 p.ty
                    ++ (name_field p ++ (replicate (padding (name_end p)) 0 ++ p.payload))))))

-- The fields are within the ranges that the reader accepts.
pub record IsPair (p : Pair) : Type 0 where
  pub name_lt : suc (length p.name) < 2 ^ 15
  pub count_le : p.count ≤ 65535
  pub ty_lt : p.ty < 2 ^ 32
  pub size_lt : pair_size p < 2 ^ 31

-- What opens a stream: native encoding, little endian, two reserved bytes, version and flags.
unfoldable pub stream_header : ℕ → ℕ → Bytes
stream_header version flags = 0 ∷ 1 ∷ 0 ∷ 0 ∷ le_bytes 4 version ++ le_bytes 4 flags

-- A size of zero ends a list.
abbrev pub terminator : Bytes
terminator = le_bytes 4 0
