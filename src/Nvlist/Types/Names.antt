-- ===== src/Nvlist/Types/Names.antt =====
-- zfs/nvlist/consts.go: `NVType.String`.
use prometheus_zfs_exporter.Base.{
  ℕ, zero, suc, ◌≤◌, ◌<◌, ◌≡◌, refl, sym, ap, ◌∙◌, arith, inl, inr, ◌⊎◌, Option, none, some, List,
  [], ◌∷◌, Bytes, All, codes, equal, ◌==◌, if◌then◌else◌, ne→not-==, Bool-cases, lt-or-le, ==→eq,
  not-==→ne,
}
use mathlib.Core.Path.{subst}
use prometheus_zfs_exporter.Nvlist.Types.{
  NvType, type_boolean, type_byte, type_int16, type_uint16, type_int32, type_uint32, type_int64,
  type_uint64, type_string, type_byte_array, type_int16_array, type_uint16_array, type_int32_array,
  type_uint32_array, type_int64_array, type_uint64_array, type_string_array, type_hrtime,
  type_nvlist, type_nvlist_array, type_boolean_value, type_int8, type_uint8, type_boolean_array,
  type_int8_array, type_uint8_array, type_double,
}

-- The cases of the switch, in its order. `TypeUnknown` falls through to the default.
abbrev pub named_types : List (NvType × Bytes)
named_types =
    (type_boolean, codes "boolean")
    ∷ (type_byte, codes "byte")
    ∷ (type_int16, codes "int16")
    ∷ (type_uint16, codes "uint16")
    ∷ (type_int32, codes "int32")
    ∷ (type_uint32, codes "uint32")
    ∷ (type_int64, codes "int64")
    ∷ (type_uint64, codes "uint64")
    ∷ (type_string, codes "string")
    ∷ (type_byte_array, codes "bytearray")
    ∷ (type_int16_array, codes "int16array")
    ∷ (type_uint16_array, codes "uint16array")
    ∷ (type_int32_array, codes "int32array")
    ∷ (type_uint32_array, codes "uint32array")
    ∷ (type_int64_array, codes "int64array")
    ∷ (type_uint64_array, codes "uint64array")
    ∷ (type_string_array, codes "stringarray")
    ∷ (type_hrtime, codes "hrtime")
    ∷ (type_nvlist, codes "nvlist")
    ∷ (type_nvlist_array, codes "nvlistarray")
    ∷ (type_boolean_value, codes "booleanvalue")
    ∷ (type_int8, codes "int8")
    ∷ (type_uint8, codes "uint8")
    ∷ (type_boolean_array, codes "booleanarray")
    ∷ (type_int8_array, codes "int8array")
    ∷ (type_uint8_array, codes "uint8array")
    ∷ (type_double, codes "double")
    ∷ []

-- `switch t { case ...: return ... }`, with the default's value.
abbrev pub switch : List (NvType × Bytes) → Bytes → NvType → Bytes
switch [] default t = default
switch ((c, name) ∷ cases) default t = if t == c then name else switch cases default t

-- `String`
unfoldable pub type_name : NvType → Bytes
type_name = switch named_types (codes "unknown")

-- The type of a name.
type_named : List (NvType × Bytes) → Bytes → Option NvType
type_named [] name = none
type_named ((c, n) ∷ cases) name = if equal name n then some c else type_named cases name

abbrev pub IsKnown : NvType → Type 0
IsKnown t = (0 < t) × (t ≤ 27)

abbrev IsNamed : NvType → Type 0
IsNamed t = type_named named_types (type_name t) ≡ some t

-- What holds of each number below a bound.
abbrev Below : (ℕ → Type 0) → ℕ → Type 0
Below P zero = Unit
Below P (suc n) = P n × Below P n

Below-at : (P : ℕ → Type 0) (n t : ℕ) → Below P n → t < n → P t
Below-at P zero t h lt = absurd (omega arith)
Below-at P (suc n) t h lt = elim (Bool-cases (t == n)) [
  | inl same ↦ subst P (sym (==→eq t n same)) h.0
  | inr other ↦ Below-at P n t h.1 (omega (arith, not-==→ne t n other))
]

named : Below (λ t. IsNamed (suc t)) 27
unfolding type_name type_named equal
named = (
  refl,
  (
    refl,
    (
      refl,
      (
        refl,
        (
          refl,
          (
            refl,
            (
              refl,
              (
                refl,
                (
                  refl,
                  (
                    refl,
                    (
                      refl,
                      (
                        refl,
                        (
                          refl,
                          (
                            refl,
                            (
                              refl,
                              (
                                refl,
                                (
                                  refl,
                                  (
                                    refl,
                                    (
                                      refl,
                                      (
                                        refl,
                                        (refl, (refl, (refl, (refl, (refl, (refl, (refl, tt))))))),
                                      ),
                                    ),
                                  ),
                                ),
                              ),
                            ),
                          ),
                        ),
                      ),
                    ),
                  ),
                ),
              ),
            ),
          ),
        ),
      ),
    ),
  ),
)

known-IsNamed : (t : ℕ) → IsKnown t → IsNamed t
known-IsNamed zero h = absurd (omega arith)
known-IsNamed (suc t) h = Below-at (λ t. IsNamed (suc t)) 27 t named (omega arith)

switch-default :
    (cases : List (NvType × Bytes)) (d : Bytes) (t : NvType)
    → All (λ c. IsKnown c.0) cases
    → (IsKnown t → ⊥)
    → switch cases d t ≡ d
switch-default [] d t k h = refl
switch-default ((c, name) ∷ cases) d t k h =
    rw (ne→not-== t c (λ e. h (subst IsKnown (sym e) k.0))) (switch-default cases d t k.1 h)

named_types-IsKnown : All (λ c. IsKnown c.0) named_types
named_types-IsKnown = omega arith

unknown_name : (t : NvType) → (IsKnown t → ⊥) → type_name t ≡ codes "unknown"
unfolding type_name
unknown_name t h = switch-default named_types (codes "unknown") t named_types-IsKnown h

known-or-not : (t : NvType) → IsKnown t ⊎ (IsKnown t → ⊥)
known-or-not t = elim (lt-or-le 0 t) [
  | inl pos ↦ elim (lt-or-le 27 t) [
    | inl above ↦ inr (λ k. omega arith)
    | inr below ↦ inl (pos, below)
  ]
  | inr none_left ↦ inr (λ k. omega arith)
]

unknown-not_named : type_named named_types (codes "unknown") ≡ none
unfolding type_named equal
unknown-not_named = refl

-- A known type, with code 1 to 27, shares its name with no other code.
pub type_name-injective : (t u : NvType) → IsKnown t → type_name t ≡ type_name u → t ≡ u
type_name-injective t u known same =
    let by_name : type_named named_types (type_name u) ≡ some t =
      ap (type_named named_types) (sym same) ∙ known-IsNamed t known in
    elim (known-or-not u) [
      | inl other ↦ let own = known-IsNamed u other in cc
      | inr not_known ↦
          let no_name = ap (type_named named_types) (unknown_name u not_known) in
          let none_named = unknown-not_named in cc
    ]
