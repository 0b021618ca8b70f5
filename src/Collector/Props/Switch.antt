-- ===== src/Collector/Props/Switch.antt =====
-- A switch on a string: what holds of a hit and of the later rounds.
use prometheus_zfs_exporter.Base.{
  ◌≡◌, sym, ap, ◌∙◌, Option, some, Bytes, equal, equal→eq, if◌then◌else◌, Bool-cases, inl, inr,
}

pub hit-or :
    {K : Type 0} (name_of : K → Bytes) {name word : Bytes} {k : K} {later : Option K} (j : K)
    → name_of j ≡ word
    → (later ≡ some k → name ≡ name_of k)
    → (if equal name word then some j else later) ≡ some k
    → name ≡ name_of k
hit-or {K} name_of {name} {word} {k} {later} j e next = elim (Bool-cases (equal name word)) [
  | inl same ↦ rw same (λ h. equal→eq name word same ∙ sym e ∙ ap name_of (cc))
  | inr different ↦ rw different next
]
