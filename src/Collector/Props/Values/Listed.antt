-- ===== src/Collector/Props/Values/Listed.antt =====
-- main.go: what `parseProps` stores of a whole property list.
use prometheus_zfs_exporter.Base.{
  Option, none, some, ℕ, zero, suc, ◌+◌, ◌<◌, ◌≤◌, ◌≡◌, refl, ap, ◌∙◌, arith, List, [], ◌∷◌, ◌++◌,
  append_assoc, Bytes, All, length, length-append, ok, err, eof, Bool, true, false, equal,
  if◌then◌else◌, raise_if, eof_as_none,
}
use mathlib.Core.Path.{subst}
use prometheus_zfs_exporter.Nvlist.Types.{type_nvlist}
use prometheus_zfs_exporter.Nvlist.Reader.{NvListReader}
use prometheus_zfs_exporter.Nvlist.Next.{next}
use prometheus_zfs_exporter.Nvlist.Format.{Pair, IsPair, encode_pair, terminator}
use prometheus_zfs_exporter.Nvlist.Format.Words.{length-le_bytes}
use prometheus_zfs_exporter.Nvlist.Format.RoundTrip.{
  after_pair, next_pair, next-terminator, length-encode_pair,
}
use prometheus_zfs_exporter.Nvlist.Format.SkipTree.{Stands, after_pair-Stands}
use prometheus_zfs_exporter.Collector.Props.{DatasetProps, on_reader}
use prometheus_zfs_exporter.Collector.Props.Stats.{StatKey, get_stat}
use prometheus_zfs_exporter.Collector.Props.Values.{
  set_prop, PropKey, prop_key, get_prop, parse_value, parse_props,
}
use prometheus_zfs_exporter.Collector.Props.Values.Keys.{prop_name, apply_known, get_prop-store}
use prometheus_zfs_exporter.Collector.Props.Values.Encoded.{
  Field, IsField, encode_fields, apply_fields, at_reader, Parsed, parse_value-Parsed,
  past_terminator,
}

-- A property as the kernel lists it: a pair that holds a list, in which its value stands. The
-- pair's own payload is the kernel's header of the list.
pub record Property : Type 0 where
  pub name : Bytes
  pub count : ℕ
  pub payload : Bytes
  pub fields : List Field

abbrev pub property_pair : Property → Pair
property_pair e = record { name = e.name; ty = type_nvlist; count = e.count; payload = e.payload }

abbrev pub IsProperty : Property → Type 0
IsProperty e = IsPair (property_pair e) × All (IsField e.name) e.fields

unfoldable pub encode_properties : List Property → Bytes
encode_properties [] = []
encode_properties (e ∷ es) =
    encode_pair (property_pair e)
    ++ (encode_fields e.fields ++ (terminator ++ encode_properties es))

abbrev pub apply_properties : List Property → DatasetProps → DatasetProps
apply_properties [] d = d
apply_properties (e ∷ es) d = apply_properties es (apply_fields e.name e.fields d)

same_either : (b : Bool) (n : ℕ) → n ≡ (if b then n else n)
same_either true n = refl
same_either false n = refl

nested_choice :
    (b : Bool) (f : ℕ → ℕ) (m v old : ℕ)
    → m ≡ (if b then v else old)
    → (if b then f m else m) ≡ (if b then f v else old)
nested_choice true f m v old e = ap f e
nested_choice false f m v old e = e

parse_props-round :
    (f : ℕ) (d e : DatasetProps) (s t u : NvListReader)
    → next s ≡ (ok type_nvlist, t)
    → parse_value f t.name_bytes (at_reader d t) ≡ (ok tt, at_reader e u)
    → parse_props (suc f) (at_reader d s) ≡ parse_props f (at_reader e u)
unfolding parse_props on_reader eof_as_none raise_if
parse_props-round f d e s t u step body = rw (step, body)

parse_props-end :
    (f : ℕ) (d : DatasetProps) (s t : NvListReader)
    → next s ≡ (err eof, t)
    → parse_props (suc f) (at_reader d s) ≡ (ok tt, at_reader d t)
unfolding parse_props on_reader eof_as_none
parse_props-end f d s t step = rw step

-- The encoding of the first property and what stands behind it.
encode_properties-append :
    (e : Property) (es : List Property) (rest : Bytes)
    → encode_properties (e ∷ es) ++ rest
      ≡ encode_pair (property_pair e)
        ++ (encode_fields e.fields ++ (terminator ++ (encode_properties es ++ rest)))
unfolding encode_properties
encode_properties-append e es rest = simp append_assoc

length-encode_properties :
    (e : Property) (es : List Property)
    → 17 + length (encode_fields e.fields) + length (encode_properties es)
      ≤ length (encode_properties (e ∷ es))
unfolding encode_properties
length-encode_properties e es = omega (
  arith,
  length-append (encode_pair (property_pair e))
      (encode_fields e.fields ++ (terminator ++ encode_properties es)),
  length-append (encode_fields e.fields) (terminator ++ encode_properties es),
  length-append terminator (encode_properties es),
  length-encode_pair (property_pair e),
)

-- `parseProps` on a well-formed list stores what the list says, and ends behind it.
parse_props-Parsed :
    (es : List Property) (f : ℕ) (d : DatasetProps) (s : NvListReader) (rest : Bytes)
    → All IsProperty es
    → length (encode_properties es) < f
    → Stands (encode_properties es ++ (terminator ++ rest)) s
    → 0 < length rest
    → Parsed (parse_props f) (at_reader d s) (apply_properties es d) rest
parse_props-Parsed es zero d s rest h fuel at room = absurd (omega arith)
parse_props-Parsed [] (suc f) d s rest h fuel at room =
    let here : Stands (terminator ++ rest) s = unfold encode_properties in at in
    (
      record s { pos = s.pos + 4 },
      parse_props-end f d s _ (next-terminator s rest here.started here.at room),
      (refl, past_terminator rest s here),
    )
parse_props-Parsed (e ∷ es) (suc f) d s rest h fuel at room =
    let behind = encode_properties es ++ (terminator ++ rest) in
    let more = encode_fields e.fields ++ (terminator ++ behind) in
    let here : Stands (encode_pair (property_pair e) ++ more) s =
      subst (λ bs. Stands bs s) (encode_properties-append e es (terminator ++ rest)) at in
    let ends : 4 < length (terminator ++ behind) = omega (
      arith,
      length-append terminator behind,
      length-append (encode_properties es) (terminator ++ rest),
      length-append terminator rest,
      length-le_bytes 4 0,
    ) in
    let (u, stored, past) =
      parse_value-Parsed e.fields f e.name d (after_pair s (property_pair e)) behind h.0.1
        (omega (arith, length-encode_properties e es))
        (after_pair-Stands (property_pair e) more here)
        (omega (arith, length-append terminator behind, length-le_bytes 4 0)) in
    let (t, eq, done) =
      parse_props-Parsed es f (apply_fields e.name e.fields d) u rest h.1
        (omega (arith, length-encode_properties e es)) past.1 room in
    (
      t,
      parse_props-round f d (apply_fields e.name e.fields d) s _ u
            (next_pair s (property_pair e) more here.alignment_eq here.native here.started h.0.0
              (omega arith) here.at
              (omega (arith, length-append (encode_fields e.fields) (terminator ++ behind))))
            stored
          ∙ eq,
      (done.0 ∙ past.0, done.1),
    )

-- The last value in the list of one property, or what there was.
abbrev pub value_in : List Field → ℕ → ℕ
value_in [] old = old
value_in (Field.value v ∷ xs) old = value_in xs v
value_in (Field.other p ∷ xs) old = value_in xs old

-- The last value listed under a name, or what there was.
abbrev pub listed : Bytes → List Property → ℕ → ℕ
listed name [] old = old
listed name (e ∷ es) old = listed name es (if equal e.name name then value_in e.fields old else old)

fields_listed :
    (k : PropKey) (name : Bytes) (xs : List Field) (d : DatasetProps)
    → get_prop k (apply_fields name xs d)
      ≡ (if equal name (prop_name k) then value_in xs (get_prop k d) else get_prop k d)
fields_listed k name [] d = same_either (equal name (prop_name k)) (get_prop k d)
fields_listed k name (Field.value v ∷ xs) d =
    fields_listed k name xs (apply_known (prop_key name) v d)
    ∙ nested_choice (equal name (prop_name k)) (value_in xs) _ v (get_prop k d)
        (get_prop-store name (prop_key name) k v d refl)
fields_listed k name (Field.other p ∷ xs) d = fields_listed k name xs d

properties_listed :
    (k : PropKey) (es : List Property) (d : DatasetProps)
    → get_prop k (apply_properties es d) ≡ listed (prop_name k) es (get_prop k d)
properties_listed k [] d = refl
properties_listed k (e ∷ es) d =
    properties_listed k es (apply_fields e.name e.fields d)
    ∙ ap (listed (prop_name k) es) (fields_listed k e.name e.fields d)

stat_kept :
    (k : StatKey) (known : Option PropKey) (v : ℕ) (d : DatasetProps)
    → get_stat k (apply_known known v d) ≡ get_stat k d
unfolding set_prop
stat_kept k none v d = refl
stat_kept k (some key) v d = ground arith

fields_stats :
    (k : StatKey) (name : Bytes) (xs : List Field) (d : DatasetProps)
    → get_stat k (apply_fields name xs d) ≡ get_stat k d
fields_stats k name [] d = refl
fields_stats k name (Field.value v ∷ xs) d =
    fields_stats k name xs (apply_known (prop_key name) v d) ∙ stat_kept k (prop_key name) v d
fields_stats k name (Field.other p ∷ xs) d = fields_stats k name xs d

properties_stats :
    (k : StatKey) (es : List Property) (d : DatasetProps)
    → get_stat k (apply_properties es d) ≡ get_stat k d
properties_stats k [] d = refl
properties_stats k (e ∷ es) d =
    properties_stats k es (apply_fields e.name e.fields d) ∙ fields_stats k e.name e.fields d

pub parse_props-listed :
    (es : List Property) (f : ℕ) (d : DatasetProps) (s : NvListReader) (rest : Bytes)
    → All IsProperty es
    → length (encode_properties es) < f
    → Stands (encode_properties es ++ (terminator ++ rest)) s
    → 0 < length rest
    → (e : DatasetProps) × Parsed (parse_props f) (at_reader d s) e rest
      × ((k : PropKey) → get_prop k e ≡ listed (prop_name k) es (get_prop k d))
      × ((k : StatKey) → get_stat k e ≡ get_stat k d)
parse_props-listed es f d s rest h fuel at room = (
  apply_properties es d,
  parse_props-Parsed es f d s rest h fuel at room,
  λ k. properties_listed k es d,
  λ k. properties_stats k es d,
)
