-- ===== src/Collector/Props/Values/Encoded.antt =====
-- main.go: what `parseValue` and `parseProps` store of a list of properties in native encoding.
use prometheus_zfs_exporter.Base.{
  ◌⊎◌, inl, inr, Bool, true, false, pure, if◌then◌else◌, ℕ, zero, suc, ◌+◌, ◌^◌, ◌<◌, ◌≤◌, Result,
  ◌≡◌, ◌≢◌, refl, ◌∙◌, arith, Option, none, some, List, [], ◌∷◌, ◌++◌, append_assoc, Bytes, All,
  codes, equal, ne→not-equal, length, length-append, ok, err, eof, raise_if, eof_as_none,
}
use mathlib.Core.Path.{subst}
use prometheus_zfs_exporter.Nvlist.Types.{NvType, type_uint64, type_string_array}
use prometheus_zfs_exporter.Nvlist.Reader.{NvListReader}
use prometheus_zfs_exporter.Nvlist.Next.{next}
use prometheus_zfs_exporter.Nvlist.Format.{Pair, IsPair, le_bytes, encode_pair, terminator}
use prometheus_zfs_exporter.Nvlist.Format.Words.{At, At-le_bytes, length-le_bytes}
use prometheus_zfs_exporter.Nvlist.Format.RoundTrip.{
  after_pair, next_pair, next-terminator, length-encode_pair,
}
use prometheus_zfs_exporter.Nvlist.Access.{get_uint64}
use prometheus_zfs_exporter.Nvlist.Format.Data.{get_uint64-payload}
use prometheus_zfs_exporter.Nvlist.Format.SkipTree.{Stands, Past, after_pair-Stands}
use prometheus_zfs_exporter.Collector.Props.{DatasetProps, Parse, on_reader}
use prometheus_zfs_exporter.Collector.Props.Values.Keys.{apply_known, IsUnknown, prop_key-IsUnknown}
use prometheus_zfs_exporter.Collector.Props.Values.{
  PropKey, prop_key, store, store_known, parse_pair, parse_value,
}

-- A pair in the list of one property: its value, or one that the exporter has no use for.
pub data Field : Type 0 where
  value : ℕ → Field
  other : Pair → Field

abbrev pub value_pair : ℕ → Pair
value_pair v = record { name = codes "value"; ty = type_uint64; count = 1; payload = le_bytes 8 v }

abbrev pub field_pair : Field → Pair
field_pair (value v) = value_pair v
field_pair (other p) = p

-- A value of another type, such as a string, stands under names that the exporter has no field for.
abbrev pub IsField : Bytes → Field → Type 0
IsField name (value v) = v < 2 ^ 64
IsField name (other p) =
    IsPair p × (p.ty ≢ type_string_array) × ((p.name ≢ codes "value") ⊎ IsUnknown name)

unfoldable pub encode_fields : List Field → Bytes
encode_fields [] = []
encode_fields (x ∷ xs) = encode_pair (field_pair x) ++ encode_fields xs

-- What a property's list says of the dataset: a later value replaces an earlier one.
abbrev pub apply_field : Bytes → Field → DatasetProps → DatasetProps
apply_field name (value v) d = apply_known (prop_key name) v d
apply_field name (other p) d = d

abbrev pub apply_fields : Bytes → List Field → DatasetProps → DatasetProps
apply_fields name [] d = d
apply_fields name (x ∷ xs) d = apply_fields name xs (apply_field name x d)

-- The parse with the reader at `s`.
abbrev pub at_reader : DatasetProps → NvListReader → Parse NvListReader
at_reader d s = record { props = d; reader = s }

field_pair-IsPair : (name : Bytes) (x : Field) → IsField name x → IsPair (field_pair x)
field_pair-IsPair name (value v) h = omega (arith, length-le_bytes 8 v)
field_pair-IsPair name (other p) h = h.0

field_pair-plain :
    (name : Bytes) (x : Field) → IsField name x → (field_pair x).ty ≢ type_string_array
field_pair-plain name (value v) h = omega arith
field_pair-plain name (other p) h = h.1

store_known-value :
    (known : Option PropKey) (v : ℕ) (d : DatasetProps) (s : NvListReader)
    → get_uint64 s ≡ (ok v, s)
    → store_known known type_uint64 (at_reader d s) ≡ (ok tt, at_reader (apply_known known v d) s)
unfolding store_known store on_reader raise_if
store_known-value none v d s e = refl
store_known-value (some key) v d s e = rw e

-- Under a name without a field the pair is passed by, whatever it is called.
passed_by :
    (b : Bool) (token : NvType) (p : Parse NvListReader)
    → (if b then store_known none token else pure tt) p ≡ (ok tt, p)
unfolding store_known
passed_by true token p = refl
passed_by false token p = refl

-- The loop's body at a pair.
parse_pair-field :
    (name : Bytes) (x : Field) (d : DatasetProps) (s : NvListReader) (rest : Bytes)
    → IsField name x
    → At s.bytes s.pos (encode_pair (field_pair x) ++ rest)
    → 0 < length rest
    → parse_pair name (field_pair x).ty (at_reader d (after_pair s (field_pair x)))
      ≡ (ok tt, at_reader (apply_field name x d) (after_pair s (field_pair x)))
unfolding parse_pair equal
parse_pair-field name (value v) d s rest h at room =
    store_known-value (prop_key name) v d (after_pair s (value_pair v))
      (get_uint64-payload s (value_pair v) rest at room v refl h)
parse_pair-field name (other p) d s rest h at room = elim h.2 [
  | inl plain ↦ rw (ne→not-equal p.name (codes "value") plain)
  | inr unknown ↦
      rw (prop_key-IsUnknown name unknown)
        (passed_by (equal p.name (codes "value")) p.ty (at_reader d (after_pair s p)))
]

parse_value-round :
    (f : ℕ) (name : Bytes) (d e : DatasetProps) (s t : NvListReader) (token : NvType)
    → next s ≡ (ok token, t)
    → parse_pair name token (at_reader d t) ≡ (ok tt, at_reader e t)
    → parse_value (suc f) name (at_reader d s) ≡ parse_value f name (at_reader e t)
unfolding parse_value on_reader eof_as_none
parse_value-round f name d e s t token step body = rw (step, body)

parse_value-end :
    (f : ℕ) (name : Bytes) (d : DatasetProps) (s t : NvListReader)
    → next s ≡ (err eof, t)
    → parse_value (suc f) name (at_reader d s) ≡ (ok tt, at_reader d t)
unfolding parse_value on_reader eof_as_none
parse_value-end f name d s t step = rw step

-- The reader behind the terminator.
pub past_terminator :
    (rest : Bytes) (s : NvListReader)
    → Stands (terminator ++ rest) s
    → Stands rest (record s { pos = s.pos + 4 })
past_terminator rest s h = record {
  alignment_eq = h.alignment_eq;
  native = h.native;
  started = omega arith;
  at = At-le_bytes 4 0 rest s h.at;
}

-- A parse that returns: what it has stored, and that the reader stands at `rest` of its buffer.
abbrev pub Parsed :
    (Parse NvListReader → Result (Unit {0}) × Parse NvListReader)
    → Parse NvListReader
    → DatasetProps
    → Bytes
    → Type 0
Parsed m p d rest = (t : NvListReader) × (m p ≡ (ok tt, at_reader d t)) × Past p.reader rest t

length-field :
    (x : Field) (more : Bytes) → 17 + length more ≤ length (encode_pair (field_pair x) ++ more)
length-field x more =
    omega
      (arith, length-append (encode_pair (field_pair x)) more, length-encode_pair (field_pair x))

-- `parseValue` on the list of one property, well-formed and in native encoding, with fuel above its
-- length, stores each value in turn under the property's name if the exporter knows the name,
-- changes nothing else, and leaves the reader behind the list.
pub parse_value-Parsed :
    (xs : List Field) (f : ℕ) (name : Bytes) (d : DatasetProps) (s : NvListReader) (rest : Bytes)
    → All (IsField name) xs
    → length (encode_fields xs) < f
    → Stands (encode_fields xs ++ (terminator ++ rest)) s
    → 0 < length rest
    → Parsed (parse_value f name) (at_reader d s) (apply_fields name xs d) rest
unfolding encode_fields
parse_value-Parsed xs zero name d s rest h fuel at room = absurd (omega arith)
parse_value-Parsed [] (suc f) name d s rest h fuel at room = (
  record s { pos = s.pos + 4 },
  parse_value-end f name d s _ (next-terminator s rest at.started at.at room),
  (refl, past_terminator rest s at),
)
parse_value-Parsed (x ∷ xs) (suc f) name d s rest h fuel at room =
    let more = encode_fields xs ++ (terminator ++ rest) in
    let here : Stands (encode_pair (field_pair x) ++ more) s =
      subst (λ bs. Stands bs s)
        (append_assoc (encode_pair (field_pair x)) (encode_fields xs) (terminator ++ rest)) at in
    let later : 4 < length more = omega (
      arith,
      length-append (encode_fields xs) (terminator ++ rest),
      length-append terminator rest,
      length-le_bytes 4 0,
    ) in
    let (t, eq, past) =
      parse_value-Parsed xs f name (apply_field name x d) (after_pair s (field_pair x)) rest h.1
        (omega (arith, length-field x (encode_fields xs)))
        (after_pair-Stands (field_pair x) more here) room in
    (
      t,
      parse_value-round f name d (apply_field name x d) s _ _
            (next_pair s (field_pair x) more here.alignment_eq here.native here.started
              (field_pair-IsPair name x h.0) (field_pair-plain name x h.0) here.at later)
            (parse_pair-field name x d s more h.0 here.at (omega arith))
          ∙ eq,
      past,
    )
