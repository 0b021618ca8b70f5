-- ===== src/Nvlist/Unmarshal/Leaves.antt =====
-- zfs/nvlist/decode.go: what the switch of `Unmarshal` gives `setPrimitive` for a pair without
-- lists.
use prometheus_zfs_exporter.Base.{
  Result, map, signed8, signed16, signed32, signed64, ℕ, ◌^◌, ◌<◌, ◌≡◌, refl, sym, ap, ◌∙◌, arith,
  true, false, some, ◌++◌, Bytes, length, length-append, take, take-length_append, ok, panic_if,
  le→not-ltb,
}
use prometheus_zfs_exporter.Nvlist.Types.{NvType}
use prometheus_zfs_exporter.Nvlist.Reader.{NvListReader, Read}
use prometheus_zfs_exporter.Nvlist.Access.{word, to_boolean}
use prometheus_zfs_exporter.Nvlist.Format.{Pair, le_bytes, encode_pair}
use prometheus_zfs_exporter.Nvlist.Format.Words.{At, length-le_bytes, le_uint-le_bytes}
use prometheus_zfs_exporter.Nvlist.Format.RoundTrip.{after_pair}
use prometheus_zfs_exporter.Nvlist.Format.Data.{data_slice-payload}
use prometheus_zfs_exporter.Nvlist.Format.Values.{get_string-payload}
use prometheus_zfs_exporter.Nvlist.Format.Arrays.{get_uint8-payload, word_array-payload}
use prometheus_zfs_exporter.Nvlist.Format.Signed.{
  twos, signed-twos, twos_lt, map-twos, All-twos, length-twos,
}
use prometheus_zfs_exporter.Nvlist.Unmarshal.{
  Value, int8, int16, int32, int64, int8s, int16s, int32s, int64s, Entries, set_map_index,
  on_reader, primitive, set_primitive,
}
use prometheus_zfs_exporter.Nvlist.Unmarshal.Encoded.{
  IsLeaf, is_flag, is_boolean, is_byte, is_uint8, is_int8, is_uint16, is_int16, is_uint32, is_int32,
  is_uint64, is_int64, is_string, is_bytes, is_uint8s, is_int8s, is_uint16s, is_int16s, is_uint32s,
  is_int32s, is_uint64s, is_int64s,
}

-- The case of type `t` reads `v` with `m`, and leaves the reader as it is.
abbrev pub Reads : NvType → NvListReader → Value → Type 0
Reads t r v = (m : Read Value) × (primitive t ≡ some m) × (m r ≡ (ok v, r))

Reads-by :
    {t u : NvType} (m : Read Value) {v : Value} (r : NvListReader)
    → t ≡ u
    → primitive u ≡ some m
    → m r ≡ (ok v, r)
    → Reads t r v
Reads-by m r e case_of reads = (m, ap primitive e ∙ case_of, reads)

pub set_primitive-Reads :
    (t : NvType) {r : NvListReader} {v : Value} (name : Bytes) (es : Entries)
    → Reads t r v
    → set_primitive name (primitive t) (record { reader = r; entries = es })
      ≡ (ok tt, record { reader = r; entries = set_map_index name v es })
unfolding set_primitive on_reader
set_primitive-Reads t name es (m, case_of, reads) = rw (case_of, reads)

module _ (s : NvListReader) (p : Pair) (rest : Bytes) (h : At s.bytes s.pos (encode_pair p ++ rest))
    (room : 0 < length rest) where
  -- The word that the payload begins with.
  word-payload :
      (n v : ℕ) (pad : Bytes)
      → p.payload ≡ le_bytes n v ++ pad
      → v < 256 ^ n
      → word n (after_pair s p) ≡ (ok v, after_pair s p)
  unfolding word panic_if
  word-payload n v pad e small =
      let front : take n (le_bytes n v ++ pad) ≡ le_bytes n v =
        ap (λ k. take k (le_bytes n v ++ pad)) (sym (length-le_bytes n v))
        ∙ take-length_append (le_bytes n v) pad in
      rw (data_slice-payload s p rest h room) (
        rw e (
          rw (
            le→not-ltb (length (le_bytes n v ++ pad)) n
                (omega (arith, length-append (le_bytes n v) pad, length-le_bytes n v)),
            front,
            le_uint-le_bytes n v small,
          )))

  int_read :
      {A : Type 0} (make : A → Value) {x y : A}
      → x ≡ y
      → ◌≡◌ {A = Result Value × NvListReader}
          (ok (make x), after_pair s p)
          (ok (make y), after_pair s p)
  int_read make e = ap (λ z. (ok (make z), after_pair s p)) e

  pub primitive-IsLeaf : {v : Value} → IsLeaf p v → Reads p.ty (after_pair s p) v
  unfolding primitive to_boolean
  primitive-IsLeaf (is_flag e) = Reads-by _ (after_pair s p) e refl refl
  primitive-IsLeaf (is_boolean {b = true} pad e payload) =
      Reads-by _ (after_pair s p) e refl (rw (word-payload 4 1 pad payload (omega arith)))
  primitive-IsLeaf (is_boolean {b = false} pad e payload) =
      Reads-by _ (after_pair s p) e refl (rw (word-payload 4 0 pad payload (omega arith)))
  primitive-IsLeaf (is_byte {n} pad e payload) =
      Reads-by _ (after_pair s p) e refl (rw (get_uint8-payload s p rest h room n pad payload))
  primitive-IsLeaf (is_uint8 {n} pad e payload) =
      Reads-by _ (after_pair s p) e refl (rw (get_uint8-payload s p rest h room n pad payload))
  primitive-IsLeaf (is_int8 {z} pad e payload half) = Reads-by _ (after_pair s p) e refl (
      rw (get_uint8-payload s p rest h room (twos (2 ^ 8) z) pad payload)
        (int_read int8 (signed-twos (2 ^ 7) (2 ^ 8) z refl half)))
  primitive-IsLeaf (is_uint16 {n} pad e payload small) =
      Reads-by _ (after_pair s p) e refl (rw (word-payload 2 n pad payload (omega arith)))
  primitive-IsLeaf (is_int16 {z} pad e payload half) = Reads-by _ (after_pair s p) e refl (
      rw (word-payload 2 (twos (2 ^ 16) z) pad payload (twos_lt (2 ^ 15) (2 ^ 16) z refl half))
        (int_read int16 (signed-twos (2 ^ 15) (2 ^ 16) z refl half)))
  primitive-IsLeaf (is_uint32 {n} pad e payload small) =
      Reads-by _ (after_pair s p) e refl (rw (word-payload 4 n pad payload (omega arith)))
  primitive-IsLeaf (is_int32 {z} pad e payload half) = Reads-by _ (after_pair s p) e refl (
      rw (word-payload 4 (twos (2 ^ 32) z) pad payload (twos_lt (2 ^ 31) (2 ^ 32) z refl half))
        (int_read int32 (signed-twos (2 ^ 31) (2 ^ 32) z refl half)))
  primitive-IsLeaf (is_uint64 {n} pad e payload small) =
      Reads-by _ (after_pair s p) e refl (rw (word-payload 8 n pad payload (omega arith)))
  primitive-IsLeaf (is_int64 {z} pad e payload half) = Reads-by _ (after_pair s p) e refl (
      rw (word-payload 8 (twos (2 ^ 64) z) pad payload (twos_lt (2 ^ 63) (2 ^ 64) z refl half))
        (int_read int64 (signed-twos (2 ^ 63) (2 ^ 64) z refl half)))
  primitive-IsLeaf (is_string {str} e payload no_null) =
      Reads-by _ (after_pair s p) e refl
        (rw (get_string-payload s p rest h room str payload no_null))
  primitive-IsLeaf (is_bytes e) =
      Reads-by _ (after_pair s p) e refl (rw (data_slice-payload s p rest h room))
  primitive-IsLeaf (is_uint8s {ns} pad e payload count small) =
      Reads-by _ (after_pair s p) e refl
        (rw (word_array-payload s p rest h room 1 ns pad payload count small))
  primitive-IsLeaf (is_int8s {zs} pad e payload count half) = Reads-by _ (after_pair s p) e refl (
      rw
        (word_array-payload s p rest h room 1 (map (twos (2 ^ 8)) zs) pad payload
          (count ∙ sym (length-twos (2 ^ 8) zs)) (All-twos (2 ^ 7) (2 ^ 8) zs refl half))
        (int_read int8s (
          map-twos (2 ^ 7) (2 ^ 8) signed8 zs (λ z small. signed-twos (2 ^ 7) (2 ^ 8) z refl small)
            half)))
  primitive-IsLeaf (is_uint16s {ns} pad e payload count small) =
      Reads-by _ (after_pair s p) e refl
        (rw (word_array-payload s p rest h room 2 ns pad payload count small))
  primitive-IsLeaf (is_int16s {zs} pad e payload count half) = Reads-by _ (after_pair s p) e refl (
      rw
        (word_array-payload s p rest h room 2 (map (twos (2 ^ 16)) zs) pad payload
          (count ∙ sym (length-twos (2 ^ 16) zs)) (All-twos (2 ^ 15) (2 ^ 16) zs refl half))
        (int_read int16s (
          map-twos (2 ^ 15) (2 ^ 16) signed16 zs
            (λ z small. signed-twos (2 ^ 15) (2 ^ 16) z refl small) half)))
  primitive-IsLeaf (is_uint32s {ns} pad e payload count small) =
      Reads-by _ (after_pair s p) e refl
        (rw (word_array-payload s p rest h room 4 ns pad payload count small))
  primitive-IsLeaf (is_int32s {zs} pad e payload count half) = Reads-by _ (after_pair s p) e refl (
      rw
        (word_array-payload s p rest h room 4 (map (twos (2 ^ 32)) zs) pad payload
          (count ∙ sym (length-twos (2 ^ 32) zs)) (All-twos (2 ^ 31) (2 ^ 32) zs refl half))
        (int_read int32s (
          map-twos (2 ^ 31) (2 ^ 32) signed32 zs
            (λ z small. signed-twos (2 ^ 31) (2 ^ 32) z refl small) half)))
  primitive-IsLeaf (is_uint64s {ns} pad e payload count small) =
      Reads-by _ (after_pair s p) e refl
        (rw (word_array-payload s p rest h room 8 ns pad payload count small))
  primitive-IsLeaf (is_int64s {zs} pad e payload count half) = Reads-by _ (after_pair s p) e refl (
      rw
        (word_array-payload s p rest h room 8 (map (twos (2 ^ 64)) zs) pad payload
          (count ∙ sym (length-twos (2 ^ 64) zs)) (All-twos (2 ^ 63) (2 ^ 64) zs refl half))
        (int_read int64s (
          map-twos (2 ^ 63) (2 ^ 64) signed64 zs
            (λ z small. signed-twos (2 ^ 63) (2 ^ 64) z refl small) half)))
