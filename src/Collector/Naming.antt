-- ===== src/Collector/Naming.antt =====
-- main.go: the label that names a vdev, with Go's `path.Base`.
use prometheus_zfs_exporter.Base.{ℕ, not, [], ◌∷◌, ◌++◌, Bytes, codes, equal, ◌==◌, if◌then◌else◌}
use prometheus_zfs_exporter.Strconv.{format_decimal}
use prometheus_zfs_exporter.Collector.Vdev.{VdevInfo}

abbrev pub slash : ℕ
slash = b'/'

-- A path without the slashes at its end.
unfoldable pub trim_slashes : Bytes → Bytes
trim_slashes [] = []
trim_slashes (c ∷ cs) =
    let rest = trim_slashes cs in
    elim rest [ [] ↦ (if c == slash then [] else c ∷ []) | d ∷ ds ↦ c ∷ d ∷ ds ]

-- What follows the last slash; `seen` is what follows the last one so far.
unfoldable pub last_element : Bytes → Bytes → Bytes
last_element seen [] = seen
last_element seen (c ∷ cs) = last_element (if c == slash then [] else seen ++ c ∷ []) cs

-- `path.Base`: "." for the empty path, and "/" for one of slashes alone.
unfoldable pub base_name : Bytes → Bytes
base_name [] = codes "."
base_name (c ∷ cs) = elim (last_element [] (trim_slashes (c ∷ cs))) [
  | [] ↦ codes "/"
  | d ∷ ds ↦ d ∷ ds
]

-- The first lines of `handleVdev`.
unfoldable pub vdev_name : Bytes → Bytes → VdevInfo → Bytes
vdev_name pool prefix v =
    if not (equal v.path [])
    then prefix ++ base_name v.path
    else if equal v.vdev_type (codes "root")
    then prefix ++ pool
    else prefix ++ (v.vdev_type ++ b'-' ∷ format_decimal v.id)
