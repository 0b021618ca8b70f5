-- ===== src/Collector/Props/Stats/Keys.antt =====
-- main.go: the names in the switch of `parseKStat`, and the fields that it stores into.
use prometheus_zfs_exporter.Base.{
  ℕ, ◌≡◌, ◌≢◌, refl, sym, ap, ◌∙◌, arith, Option, none, some, Bool, true, false, Bytes, codes,
  equal, equal→eq, equal_refl, if◌then◌else◌, Bool-cases, inl, inr,
}
use prometheus_zfs_exporter.Collector.Props.{DatasetProps}
use prometheus_zfs_exporter.Collector.Props.Switch.{hit-or}
use prometheus_zfs_exporter.Collector.Props.Stats.{StatKey, stat_key, set_stat, get_stat}

-- The name of the row that a field holds the number of.
abbrev pub stat_name : StatKey → Bytes
stat_name StatKey.writes = codes "writes"
stat_name StatKey.nwritten = codes "nwritten"
stat_name StatKey.reads = codes "reads"
stat_name StatKey.nread = codes "nread"
stat_name StatKey.nunlinks = codes "nunlinks"
stat_name StatKey.nunlinked = codes "nunlinked"

get_stat-set_stat : (k : StatKey) (v : ℕ) (d : DatasetProps) → get_stat k (set_stat k v d) ≡ v
unfolding set_stat
get_stat-set_stat k v d = ground arith

get_stat-set_other :
    (j k : StatKey) (v : ℕ) (d : DatasetProps) → j ≢ k → get_stat k (set_stat j v d) ≡ get_stat k d
unfolding set_stat
get_stat-set_other j k v d h = ground arith

stat_key-stat_name : (k : StatKey) → stat_key (stat_name k) ≡ some k
unfolding stat_key equal
stat_key-stat_name StatKey.writes = refl
stat_key-stat_name StatKey.nwritten = refl
stat_key-stat_name StatKey.reads = refl
stat_key-stat_name StatKey.nread = refl
stat_key-stat_name StatKey.nunlinks = refl
stat_key-stat_name StatKey.nunlinked = refl

stat_name-stat_key : (name : Bytes) (k : StatKey) → stat_key name ≡ some k → name ≡ stat_name k
unfolding stat_key
stat_name-stat_key name k = hit-or stat_name StatKey.writes refl (
    hit-or stat_name StatKey.nwritten refl (
      hit-or stat_name StatKey.reads refl (
        hit-or stat_name StatKey.nread refl (
          hit-or stat_name StatKey.nunlinks refl
            (hit-or stat_name StatKey.nunlinked refl (λ h. cc))))))

-- What a number in a row of this name, known or not, does to the fields.
abbrev pub apply_stat : Option StatKey → ℕ → DatasetProps → DatasetProps
apply_stat none v d = d
apply_stat (some key) v d = set_stat key v d

missed :
    (known : Option StatKey) (k : StatKey) (v : ℕ) (d : DatasetProps)
    → known ≢ some k
    → get_stat k (apply_stat known v d) ≡ get_stat k d
missed none k v d h = refl
missed (some j) k v d h = get_stat-set_other j k v d (λ e. h (ap some e))

not_both : {b : Bool} → b ≡ false → b ≡ true → ⊥
not_both h k = cc

-- A stored number is read back from the field of its row, and from no other.
pub get_stat-store :
    (name : Bytes) (known : Option StatKey) (k : StatKey) (v : ℕ) (d : DatasetProps)
    → stat_key name ≡ known
    → get_stat k (apply_stat known v d) ≡ (if equal name (stat_name k) then v else get_stat k d)
get_stat-store name known k v d e = elim (Bool-cases (equal name (stat_name k))) [
  | inl same ↦
      let hit : known ≡ some k =
        sym e ∙ ap stat_key (equal→eq name (stat_name k) same) ∙ stat_key-stat_name k in
      rw (same, hit) (get_stat-set_stat k v d)
  | inr different ↦ rw different (
      missed known k v d (λ h.
        not_both different (rw (stat_name-stat_key name k (e ∙ h)) (equal_refl (stat_name k)))))
]

-- A row whose name is no field's is passed over.
pub stat_key-unknown :
    (name : Bytes)
    → ((k : StatKey) → name ≢ stat_name k)
    → (known : Option StatKey) → stat_key name ≡ known
    → known ≡ none
stat_key-unknown name h none e = refl
stat_key-unknown name h (some k) e = absurd (h k (stat_name-stat_key name k e))
