-- ===== src/Ioctl/State.antt =====
-- zfs/ioctl/util.go: the names of the states that the kernel reports by number.
pub mod Labels
use prometheus_zfs_exporter.Base.{ℕ, List, [], ◌∷◌, Bytes, codes, ◌||◌, ◌==◌, if◌then◌else◌}

-- `PoolStates` and `VDevStates`: every label value that the state metrics are exported with.
abbrev pub pool_states : List Bytes
pool_states =
    codes "ACTIVE"
    ∷ codes "EXPORTED"
    ∷ codes "DESTROYED"
    ∷ codes "SPARE"
    ∷ codes "L2CACHE"
    ∷ codes "UNINITIALIZED"
    ∷ codes "UNAVAIL"
    ∷ codes "POTENTIALLY_ACTIVE"
    ∷ codes "UNKNOWN"
    ∷ []

abbrev pub vdev_states : List Bytes
vdev_states =
    codes "OFFLINE"
    ∷ codes "REMOVED"
    ∷ codes "FAULTED"
    ∷ codes "SPLIT"
    ∷ codes "UNAVAIL"
    ∷ codes "DEGRADED"
    ∷ codes "ONLINE"
    ∷ codes "UNKNOWN"
    ∷ []

abbrev pub vdev_closed : ℕ
vdev_closed = 1

abbrev pub vdev_offline : ℕ
vdev_offline = 2

abbrev pub vdev_removed : ℕ
vdev_removed = 3

abbrev pub vdev_cant_open : ℕ
vdev_cant_open = 4

abbrev pub vdev_faulted : ℕ
vdev_faulted = 5

abbrev pub vdev_degraded : ℕ
vdev_degraded = 6

abbrev pub vdev_healthy : ℕ
vdev_healthy = 7

abbrev pub aux_corrupt_data : ℕ
aux_corrupt_data = 2

abbrev pub aux_bad_log : ℕ
aux_bad_log = 13

abbrev pub aux_split_pool : ℕ
aux_split_pool = 15

-- `PoolStateString`
unfoldable pub pool_state_string : ℕ → Bytes
pool_state_string state =
    if state == 0
    then codes "ACTIVE"
    else if state == 1
    then codes "EXPORTED"
    else if state == 2
    then codes "DESTROYED"
    else if state == 3
    then codes "SPARE"
    else if state == 4
    then codes "L2CACHE"
    else if state == 5
    then codes "UNINITIALIZED"
    else if state == 6
    then codes "UNAVAIL"
    else if state == 7
    then codes "POTENTIALLY_ACTIVE"
    else codes "UNKNOWN"

-- The case `vdevState_CANT_OPEN`.
unfoldable pub cant_open_string : ℕ → Bytes
cant_open_string aux =
    if aux == aux_corrupt_data || aux == aux_bad_log
    then codes "FAULTED"
    else if aux == aux_split_pool
    then codes "SPLIT"
    else codes "UNAVAIL"

-- `VDevStateString`. The case `vdevState_CLOSED` is empty: Go leaves the switch there.
unfoldable pub vdev_state_string : ℕ → ℕ → Bytes
vdev_state_string state aux =
    if state == vdev_closed
    then codes "UNKNOWN"
    else if state == vdev_offline
    then codes "OFFLINE"
    else if state == vdev_removed
    then codes "REMOVED"
    else if state == vdev_cant_open
    then cant_open_string aux
    else if state == vdev_faulted
    then codes "FAULTED"
    else if state == vdev_degraded
    then codes "DEGRADED"
    else if state == vdev_healthy
    then codes "ONLINE"
    else codes "UNKNOWN"
