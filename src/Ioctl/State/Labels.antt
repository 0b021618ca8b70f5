-- ===== src/Ioctl/State/Labels.antt =====
-- zfs/ioctl/util.go: the name of a state is one of those that the state metrics are labelled with.
use prometheus_zfs_exporter.Base.{
  ℕ, zero, suc, ◌<◌, arith, codes, ne→not-==, ◌||◌, ◌==◌, Bool-cases, inl, inr, ◌≡◌, refl, List, [],
  ◌∷◌, Bytes, equal, if◌then◌else◌,
}
use prometheus_zfs_exporter.Ioctl.State.{
  pool_states, vdev_states, pool_state_string, cant_open_string, vdev_state_string,
  aux_corrupt_data, aux_bad_log, aux_split_pool,
}

-- How often a label stands in a list.
unfoldable pub occurrences : Bytes → List Bytes → ℕ
occurrences name [] = 0
occurrences name (l ∷ ls) =
    let more = occurrences name ls in if equal l name then suc more else more

pool_state_string-large : (state : ℕ) → 7 < state → pool_state_string state ≡ codes "UNKNOWN"
unfolding pool_state_string
pool_state_string-large state h = rw (
  ne→not-== state 0 (omega arith),
  ne→not-== state 1 (omega arith),
  ne→not-== state 2 (omega arith),
  ne→not-== state 3 (omega arith),
  ne→not-== state 4 (omega arith),
  ne→not-== state 5 (omega arith),
  ne→not-== state 6 (omega arith),
  ne→not-== state 7 (omega arith),
)

-- Whatever number the kernel reports for a pool's state, exactly one of the labels in `PoolStates`
-- is its name.
pub occurrences-pool_state_string :
    (state : ℕ) → occurrences (pool_state_string state) pool_states ≡ 1
unfolding pool_state_string occurrences equal
occurrences-pool_state_string zero = refl
occurrences-pool_state_string (suc zero) = refl
occurrences-pool_state_string (suc (suc zero)) = refl
occurrences-pool_state_string (suc (suc (suc zero))) = refl
occurrences-pool_state_string (suc (suc (suc (suc zero)))) = refl
occurrences-pool_state_string (suc (suc (suc (suc (suc zero))))) = refl
occurrences-pool_state_string (suc (suc (suc (suc (suc (suc zero)))))) = refl
occurrences-pool_state_string (suc (suc (suc (suc (suc (suc (suc zero))))))) = refl
occurrences-pool_state_string (suc (suc (suc (suc (suc (suc (suc (suc n)))))))) =
    rw (pool_state_string-large (suc (suc (suc (suc (suc (suc (suc (suc n)))))))) (omega arith))

occurrences-cant_open_string : (aux : ℕ) → occurrences (cant_open_string aux) vdev_states ≡ 1
unfolding cant_open_string occurrences equal
occurrences-cant_open_string aux =
    elim (Bool-cases (aux == aux_corrupt_data || aux == aux_bad_log)) [
      | inl faulted ↦ rw faulted
      | inr other ↦ elim (Bool-cases (aux == aux_split_pool)) [
        | inl split ↦ rw (other, split)
        | inr neither ↦ rw (other, neither)
      ]
    ]

vdev_state_string-large :
    (state aux : ℕ) → 7 < state → vdev_state_string state aux ≡ codes "UNKNOWN"
unfolding vdev_state_string
vdev_state_string-large state aux h = rw (
  ne→not-== state 1 (omega arith),
  ne→not-== state 2 (omega arith),
  ne→not-== state 3 (omega arith),
  ne→not-== state 4 (omega arith),
  ne→not-== state 5 (omega arith),
  ne→not-== state 6 (omega arith),
  ne→not-== state 7 (omega arith),
)

-- Whatever numbers the kernel reports for a vdev's state and the reason for it, exactly one of the
-- labels in `VDevStates` is its name.
pub occurrences-vdev_state_string :
    (state aux : ℕ) → occurrences (vdev_state_string state aux) vdev_states ≡ 1
unfolding vdev_state_string occurrences equal
occurrences-vdev_state_string zero aux = refl
occurrences-vdev_state_string (suc zero) aux = refl
occurrences-vdev_state_string (suc (suc zero)) aux = refl
occurrences-vdev_state_string (suc (suc (suc zero))) aux = refl
occurrences-vdev_state_string (suc (suc (suc (suc zero)))) aux = occurrences-cant_open_string aux
occurrences-vdev_state_string (suc (suc (suc (suc (suc zero))))) aux = refl
occurrences-vdev_state_string (suc (suc (suc (suc (suc (suc zero)))))) aux = refl
occurrences-vdev_state_string (suc (suc (suc (suc (suc (suc (suc zero))))))) aux = refl
occurrences-vdev_state_string (suc (suc (suc (suc (suc (suc (suc (suc n)))))))) aux =
    rw (vdev_state_string-large (suc (suc (suc (suc (suc (suc (suc (suc n)))))))) aux (omega arith))
