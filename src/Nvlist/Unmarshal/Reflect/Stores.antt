-- ===== src/Nvlist/Unmarshal/Reflect/Stores.antt =====
-- zfs/nvlist/decode.go: `Unmarshal` stores the pairs of a list in the fields of a struct.
use prometheus_zfs_exporter.Base.{
  ℕ, suc, ◌≡◌, ◌⊎◌, inl, inr, ne→not-==, ap, Bool, true, Option-cases, Bytes, Result, ok, err, eof,
  eof_as_none,
}
use prometheus_zfs_exporter.Nvlist.Types.{NvType, type_hrtime, type_double}
use prometheus_zfs_exporter.Nvlist.Reader.{NvListReader}
use prometheus_zfs_exporter.Nvlist.Next.{next}
use prometheus_zfs_exporter.Nvlist.Format.{Pair}
use prometheus_zfs_exporter.Nvlist.Format.SkipTree.{Past}
use prometheus_zfs_exporter.Nvlist.Unmarshal.{Value, primitive, unmarshal}
use prometheus_zfs_exporter.Nvlist.Unmarshal.Encoded.{IsLeaf, IsLeaf-other}
use prometheus_zfs_exporter.Nvlist.Unmarshal.Leaves.{Reads}
use prometheus_zfs_exporter.Nvlist.Unmarshal.Target.{struct_at, Fields, field_at}
use prometheus_zfs_exporter.Nvlist.Unmarshal.Target.Settable.{
  assign-Fits, store_field, Suits, taken,
}
use prometheus_zfs_exporter.Nvlist.Unmarshal.Reflect.{
  Storing, on_source, set_value, store_primitive, store_token, enter, store_pairs,
}

-- `Unmarshal` on a struct, between its calls.
abbrev pub at_struct : NvListReader → Fields → Storing
at_struct s fs = record { reader = s; target = struct_at fs }

-- The loop's body, with `f` units of fuel for the calls inside.
abbrev pub store_body : ℕ → Bool → NvType → Bytes → Storing → Result (Unit {0}) × Storing
store_body f b ty name =
    store_token (enter (store_pairs f) (unmarshal f) true) (unmarshal f) b ty name

pub store_pairs-round :
    (f : ℕ) (b : Bool) (s t u : NvListReader) (fs later : Fields) (ty : NvType)
    → next s ≡ (ok ty, t)
    → store_body f b ty t.name_bytes (at_struct t fs) ≡ (ok tt, at_struct u later)
    → store_pairs (suc f) b (at_struct s fs) ≡ store_pairs f b (at_struct u later)
unfolding store_pairs on_source eof_as_none
store_pairs-round f b s t u fs later ty step body = rw (step, body)

pub store_pairs-end :
    (f : ℕ) (b : Bool) (s t : NvListReader) (fs : Fields)
    → next s ≡ (err eof, t)
    → store_pairs (suc f) b (at_struct s fs) ≡ (ok tt, at_struct t fs)
unfolding store_pairs on_source eof_as_none
store_pairs-end f b s t fs step = rw step

-- The call returns with the fields `fs`, and leaves the reader before `rest` in the same buffer.
abbrev pub Stores : NvListReader → Bytes → Fields → Result (Unit {0}) × Storing → Type 0
Stores s rest fs x = (t : NvListReader) × (x ≡ (ok tt, at_struct t fs)) × Past s rest t

-- The value of the pair's type goes to the field of the name, if there is one that can be set.
set_value-Suits :
    (b : Bool) (name : Bytes) (v : Value) (s : NvListReader) (fs : Fields)
    → Suits v (field_at b name fs)
    → set_value b name v (at_struct s fs) ≡ (ok tt, at_struct s (store_field b name v fs))
unfolding set_value store_field
set_value-Suits b name v s fs h = elim (Option-cases (field_at b name fs)) [
  | inl missing ↦ rw missing
  | inr (t, found) ↦ elim (rw found at h) [ taken e fits ↦ rw (found, assign-Fits fits) ]
]

pub leaf-Stores :
    (f : ℕ) (b : Bool) (name : Bytes) {p : Pair} {v : Value} (s : NvListReader) (fs : Fields)
    → IsLeaf p v
    → Reads p.ty s v
    → Suits v (field_at b name fs)
    → store_body f b p.ty name (at_struct s fs) ≡ (ok tt, at_struct s (store_field b name v fs))
unfolding store_token store_primitive on_source
leaf-Stores f b name {p} {v} s fs l (m, case_of, reads) suits =
    let other = IsLeaf-other l in
    rw
      (
        ne→not-== p.ty 0 other.0.0,
        ne→not-== p.ty 19 other.0.1,
        ne→not-== p.ty 20 other.1.0,
        case_of,
        reads,
      )
      (set_value-Suits b name v s fs suits)

pub ignored-Stores :
    (f : ℕ) (b : Bool) (name : Bytes) (t : NvType) (s : NvListReader) (fs : Fields)
    → (t ≡ type_hrtime) ⊎ (t ≡ type_double)
    → store_body f b t name (at_struct s fs) ≡ (ok tt, at_struct s fs)
unfolding store_token primitive store_primitive
ignored-Stores f b name t s fs (inl e) = ap (λ t. store_body f b t name (at_struct s fs)) e
ignored-Stores f b name t s fs (inr e) = ap (λ t. store_body f b t name (at_struct s fs)) e
