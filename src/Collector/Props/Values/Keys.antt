-- ===== src/Collector/Props/Values/Keys.antt =====
-- main.go: the names in the switch of `parseValue`, and the fields that it stores into.
use prometheus_zfs_exporter.Base.{
  not-equal→ne, ℕ, ◌≡◌, ◌≢◌, refl, sym, ap, ◌∙◌, arith, Option, none, some, Bool, true, false,
  Bytes, codes, equal, equal→eq, equal_refl, if◌then◌else◌, Bool-cases, inl, inr,
}
use prometheus_zfs_exporter.Collector.Props.{DatasetProps}
use prometheus_zfs_exporter.Collector.Props.Switch.{hit-or}
use prometheus_zfs_exporter.Collector.Props.Values.{PropKey, prop_key, set_prop, get_prop}

-- The name of the ZFS property that a field holds.
abbrev pub prop_name : PropKey → Bytes
prop_name PropKey.objsetid = codes "objsetid"
prop_name PropKey.available = codes "available"
prop_name PropKey.compressratio = codes "compressratio"
prop_name PropKey.used = codes "used"
prop_name PropKey.usedbychildren = codes "usedbychildren"
prop_name PropKey.usedbydataset = codes "usedbydataset"
prop_name PropKey.usedbyrefreservation = codes "usedbyrefreservation"
prop_name PropKey.usedbysnapshots = codes "usedbysnapshots"
prop_name PropKey.referenced = codes "referenced"
prop_name PropKey.refcompressratio = codes "refcompressratio"
prop_name PropKey.logicalreferenced = codes "logicalreferenced"
prop_name PropKey.logicalused = codes "logicalused"

get_prop-set_prop : (k : PropKey) (v : ℕ) (d : DatasetProps) → get_prop k (set_prop k v d) ≡ v
unfolding set_prop
get_prop-set_prop k v d = ground arith

get_prop-set_other :
    (j k : PropKey) (v : ℕ) (d : DatasetProps) → j ≢ k → get_prop k (set_prop j v d) ≡ get_prop k d
unfolding set_prop
get_prop-set_other j k v d h = ground arith

prop_key-prop_name : (k : PropKey) → prop_key (prop_name k) ≡ some k
unfolding prop_key equal
prop_key-prop_name PropKey.objsetid = refl
prop_key-prop_name PropKey.available = refl
prop_key-prop_name PropKey.compressratio = refl
prop_key-prop_name PropKey.used = refl
prop_key-prop_name PropKey.usedbychildren = refl
prop_key-prop_name PropKey.usedbydataset = refl
prop_key-prop_name PropKey.usedbyrefreservation = refl
prop_key-prop_name PropKey.usedbysnapshots = refl
prop_key-prop_name PropKey.referenced = refl
prop_key-prop_name PropKey.refcompressratio = refl
prop_key-prop_name PropKey.logicalreferenced = refl
prop_key-prop_name PropKey.logicalused = refl

prop_name-prop_key : (name : Bytes) (k : PropKey) → prop_key name ≡ some k → name ≡ prop_name k
unfolding prop_key
prop_name-prop_key name k = hit-or prop_name PropKey.objsetid refl (
    hit-or prop_name PropKey.available refl (
      hit-or prop_name PropKey.compressratio refl (
        hit-or prop_name PropKey.used refl (
          hit-or prop_name PropKey.usedbychildren refl (
            hit-or prop_name PropKey.usedbydataset refl (
              hit-or prop_name PropKey.usedbyrefreservation refl (
                hit-or prop_name PropKey.usedbysnapshots refl (
                  hit-or prop_name PropKey.referenced refl (
                    hit-or prop_name PropKey.refcompressratio refl (
                      hit-or prop_name PropKey.logicalreferenced refl
                        (hit-or prop_name PropKey.logicalused refl (λ h. cc))))))))))))

-- The exporter has no field for a property of this name.
abbrev pub IsUnknown : Bytes → Type 0
IsUnknown name = (k : PropKey) → name ≢ prop_name k

-- The mount point, whose value is a string.
pub mountpoint-IsUnknown : IsUnknown (codes "mountpoint")
unfolding equal
mountpoint-IsUnknown PropKey.objsetid = not-equal→ne (codes "mountpoint") (codes "objsetid") refl
mountpoint-IsUnknown PropKey.available = not-equal→ne (codes "mountpoint") (codes "available") refl
mountpoint-IsUnknown PropKey.compressratio =
    not-equal→ne (codes "mountpoint") (codes "compressratio") refl
mountpoint-IsUnknown PropKey.used = not-equal→ne (codes "mountpoint") (codes "used") refl
mountpoint-IsUnknown PropKey.usedbychildren =
    not-equal→ne (codes "mountpoint") (codes "usedbychildren") refl
mountpoint-IsUnknown PropKey.usedbydataset =
    not-equal→ne (codes "mountpoint") (codes "usedbydataset") refl
mountpoint-IsUnknown PropKey.usedbyrefreservation =
    not-equal→ne (codes "mountpoint") (codes "usedbyrefreservation") refl
mountpoint-IsUnknown PropKey.usedbysnapshots =
    not-equal→ne (codes "mountpoint") (codes "usedbysnapshots") refl
mountpoint-IsUnknown PropKey.referenced =
    not-equal→ne (codes "mountpoint") (codes "referenced") refl
mountpoint-IsUnknown PropKey.refcompressratio =
    not-equal→ne (codes "mountpoint") (codes "refcompressratio") refl
mountpoint-IsUnknown PropKey.logicalreferenced =
    not-equal→ne (codes "mountpoint") (codes "logicalreferenced") refl
mountpoint-IsUnknown PropKey.logicalused =
    not-equal→ne (codes "mountpoint") (codes "logicalused") refl

unknown_none :
    (name : Bytes) (known : Option PropKey) → prop_key name ≡ known → IsUnknown name → known ≡ none
unknown_none name none e h = refl
unknown_none name (some k) e h = absurd (h k (prop_name-prop_key name k e))

pub prop_key-IsUnknown : (name : Bytes) → IsUnknown name → prop_key name ≡ none
prop_key-IsUnknown name h = unknown_none name (prop_key name) refl h

-- What a value under a name, known or not, does to the fields.
abbrev pub apply_known : Option PropKey → ℕ → DatasetProps → DatasetProps
apply_known none v d = d
apply_known (some key) v d = set_prop key v d

missed :
    (known : Option PropKey) (k : PropKey) (v : ℕ) (d : DatasetProps)
    → known ≢ some k
    → get_prop k (apply_known known v d) ≡ get_prop k d
missed none k v d h = refl
missed (some j) k v d h = get_prop-set_other j k v d (λ e. h (ap some e))

not_both : {b : Bool} → b ≡ false → b ≡ true → ⊥
not_both h k = cc

-- A stored value is read back from the field of its name, and from no other.
pub get_prop-store :
    (name : Bytes) (known : Option PropKey) (k : PropKey) (v : ℕ) (d : DatasetProps)
    → prop_key name ≡ known
    → get_prop k (apply_known known v d) ≡ (if equal name (prop_name k) then v else get_prop k d)
get_prop-store name known k v d e = elim (Bool-cases (equal name (prop_name k))) [
  | inl same ↦
      let hit : known ≡ some k =
        sym e ∙ ap prop_key (equal→eq name (prop_name k) same) ∙ prop_key-prop_name k in
      rw (same, hit) (get_prop-set_prop k v d)
  | inr different ↦ rw different (
      missed known k v d (λ h.
        not_both different (rw (prop_name-prop_key name k (e ∙ h)) (equal_refl (prop_name k)))))
]
