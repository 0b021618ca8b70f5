-- ===== src/Collector/Vdev/Stats.antt =====
-- main.go: `parseVdevStats` on an array of the kernel's `vdev_stat_t`.
use prometheus_zfs_exporter.Base.{
  ℕ, zero, suc, ◌<◌, ◌≤◌, ◌≡◌, refl, arith, none, some, List, [], ◌∷◌, length, get_elem?, ok,
  panicked, index_range, inl, inr, ltb, lt-or-le, lt→ltb, le→not-ltb, if◌then◌else◌, ◌>>=◌,
}
use prometheus_zfs_exporter.Nvlist.Reader.{NvListReader, Read}
use prometheus_zfs_exporter.Ioctl.State.{vdev_state_string}
use prometheus_zfs_exporter.Collector.Vdev.{VdevStats, stat_at, sub64, parse_vdev_stats}

-- The word at an index, or zero.
abbrev pub word_at : List ℕ → ℕ → ℕ
word_at [] i = 0
word_at (v ∷ vs) zero = v
word_at (v ∷ vs) (suc i) = word_at vs i

-- The numbers by their places in `vdev_stat_t`; the free space is that of 64 bit words.
abbrev pub stats_of : List ℕ → VdevStats
stats_of vs = record {
  alloc = word_at vs 3;
  free = sub64 (word_at vs 4) (word_at vs 3);
  size = word_at vs 4;
  read_operations = word_at vs 9;
  bytes_read = word_at vs 15;
  read_errors = word_at vs 21;
  write_operations = word_at vs 10;
  bytes_written = word_at vs 16;
  write_errors = word_at vs 22;
  checksum_errors = word_at vs 23;
  fragmentation = word_at vs 28;
  state = vdev_state_string (word_at vs 1) (word_at vs 2);
}

get_elem?-word_at : (vs : List ℕ) (i : ℕ) → i < length vs → get_elem? vs i ≡ some (word_at vs i)
get_elem?-word_at [] i h = absurd (omega arith)
get_elem?-word_at (v ∷ vs) zero h = refl
get_elem?-word_at (v ∷ vs) (suc i) h = get_elem?-word_at vs i (omega arith)

get_elem?-out : (vs : List ℕ) (i : ℕ) → length vs ≤ i → get_elem? vs i ≡ none
get_elem?-out [] i h = refl
get_elem?-out (v ∷ vs) zero h = absurd (omega arith)
get_elem?-out (v ∷ vs) (suc i) h = get_elem?-out vs i (omega arith)

stat_at-word_at :
    (vs : List ℕ) (i : ℕ) (r : NvListReader)
    → i < length vs
    → stat_at vs i r ≡ (ok (word_at vs i), r)
unfolding stat_at
stat_at-word_at vs i r h = rw (stat_at, get_elem?-word_at vs i h)

-- `parseVdevStats` takes each number from its place, if the array has more than 28 words.
pub parse_vdev_stats-stats_of :
    (vs : List ℕ) (r : NvListReader)
    → 28 < length vs
    → parse_vdev_stats vs r ≡ (ok (stats_of vs), r)
unfolding parse_vdev_stats
parse_vdev_stats-stats_of vs r h = rw (
  stat_at-word_at vs 3 r (omega arith),
  stat_at-word_at vs 4 r (omega arith),
  stat_at-word_at vs 9 r (omega arith),
  stat_at-word_at vs 15 r (omega arith),
  stat_at-word_at vs 21 r (omega arith),
  stat_at-word_at vs 10 r (omega arith),
  stat_at-word_at vs 16 r (omega arith),
  stat_at-word_at vs 22 r (omega arith),
  stat_at-word_at vs 23 r (omega arith),
  stat_at-word_at vs 28 r (omega arith),
  stat_at-word_at vs 1 r (omega arith),
  stat_at-word_at vs 2 r (omega arith),
)

-- What lies behind the end panics.
stat_at-out :
    (vs : List ℕ) (i : ℕ) (r : NvListReader)
    → length vs ≤ i
    → stat_at vs i r ≡ (panicked index_range, r)
unfolding stat_at
stat_at-out vs i r h = rw (stat_at, get_elem?-out vs i h)

-- A read, and a rest that panics whatever was read.
stat_then :
    {A : Type 0} (f : ℕ → Read A) (vs : List ℕ) (i : ℕ) (r : NvListReader)
    → ((w : ℕ) → f w r ≡ (panicked index_range, r))
    → (stat_at vs i >>= f) r ≡ (panicked index_range, r)
stat_then f vs i r rest = elim (lt-or-le i (length vs)) [
  | inl inside ↦ rw (stat_at-word_at vs i r inside) (rest (word_at vs i))
  | inr outside ↦ rw (stat_at-out vs i r outside)
]

parse_vdev_stats_short :
    (vs : List ℕ) (r : NvListReader)
    → length vs ≤ 28
    → parse_vdev_stats vs r ≡ (panicked index_range, r)
unfolding parse_vdev_stats
parse_vdev_stats_short vs r short = stat_then _ vs 3 r λ alloc. stat_then _ vs 4 r λ space.
    stat_then _ vs 9 r λ read_operations. stat_then _ vs 15 r λ bytes_read.
      stat_then _ vs 21 r λ read_errors. stat_then _ vs 10 r λ write_operations.
        stat_then _ vs 16 r λ bytes_written.
          stat_then _ vs 22 r
            λ write_errors. stat_then _ vs 23 r λ checksum_errors. rw (stat_at-out vs 28 r short)

-- `parseVdevStats` takes each number from its place if the array has at least 29 words, and panics
-- on every shorter array.
pub parse_vdev_stats-bounds :
    (vs : List ℕ) (r : NvListReader)
    → parse_vdev_stats vs r
      ≡ (if ltb 28 (length vs) then ok (stats_of vs) else panicked index_range, r)
parse_vdev_stats-bounds vs r = elim (lt-or-le 28 (length vs)) [
  | inl long ↦
      rw (lt→ltb 28 (length vs) (omega arith)) (parse_vdev_stats-stats_of vs r (omega arith))
  | inr short ↦
      rw (le→not-ltb 28 (length vs) (omega arith)) (parse_vdev_stats_short vs r (omega arith))
]
