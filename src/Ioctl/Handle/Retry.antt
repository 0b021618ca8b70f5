-- ===== src/Ioctl/Handle/Retry.antt =====
-- zfs/ioctl/ioctl.go: the loop of `Ioctl` ends with the kernel's first answer that is not ENOMEM.
use prometheus_zfs_exporter.Base.{
  ℕ, zero, suc, ◌+◌, ◌<◌, ◌≤◌, ◌≡◌, ◌≢◌, refl, inl, inr, arith, Option, some, Bytes, true, false,
  Bool-cases, replicate, length-replicate, ◌==◌, if◌then◌else◌, ==→eq, not-==→ne, Result, ok, err,
  errno,
}
use prometheus_zfs_exporter.Ioctl.Handle.{
  Answer, Syscall, Call, enomem, is_empty, is_some, size_or, round, after, retry, ioctl,
}

-- `if errno != 0 { return errno }; return nil`
abbrev pub status : ℕ → Result (Unit {0})
status n = if n == 0 then ok tt else err (errno n)

module _ {World : Type 0} (syscall : Syscall World) (number : ℕ)
    (request config : Option Bytes) where
  -- The answer that ends a run of calls, each with a fresh buffer of the size asked for before.
  pub data Rounds (a : Answer World) : Call World → Type 0 where
    last :
        {c : Call World}
        → (a ≡ round syscall number request config c)
        → a.number ≢ enomem
        → Rounds a c
    again :
        {c : Call World}
        → (round syscall number request config c).number ≡ enomem
        → Rounds a (retry syscall (round syscall number request config c))
        → Rounds a c

  -- What the kernel does when the response does not fit: it asks for a larger buffer, of a size
  -- that stays within `limit`.
  abbrev pub AsksForMore : ℕ → Type 0
  AsksForMore limit =
      (c : Call World)
      → (round syscall number request config c).number ≡ enomem
      → (size_or c.resp 0 < (round syscall number request config c).cmd.nvlist_dst_size)
        × ((round syscall number request config c).cmd.nvlist_dst_size ≤ limit)

pub if-status :
    {A : Type 0} (n : ℕ) (x : A)
    → ◌≡◌ {A = Result (Unit {0}) × A}
        (if n == 0 then (ok tt, x) else (err (errno n), x))
        (status n, x)
if-status n x = elim (Bool-cases (n == 0)) [ inl zero_ ↦ rw zero_ | inr other ↦ rw other ]

pub zeros-filled : (n : ℕ) → 0 < n → is_empty (some (replicate n 0)) ≡ false
zeros-filled zero h = absurd (omega arith)
zeros-filled (suc n) h = refl

-- If the kernel asks for more within a limit, the caller's response buffer is there, not empty and
-- within it, the other buffers are absent or not empty, and the fuel exceeds what is missing to the
-- limit, then `Ioctl` returns the status of the first answer that is not ENOMEM, with the block,
-- the response and the kernel as that answer left them.
pub ioctl-Rounds :
    {World : Type 0} (syscall : Syscall World) (number : ℕ) (request config : Option Bytes)
    (limit fuel : ℕ) (c : Call World)
    → AsksForMore syscall number request config limit
    → is_empty request ≡ false
    → is_empty config ≡ false
    → is_empty c.resp ≡ false
    → is_some c.resp ≡ true
    → size_or c.resp 0 ≤ limit
    → limit < fuel + size_or c.resp 0
    → (a : Answer World) × Rounds syscall number request config a c
      × (ioctl syscall fuel number request config c ≡ (status a.number, after syscall a))
unfolding ioctl
ioctl-Rounds syscall number request config limit zero c asks q f r s le lt = absurd (omega arith)
ioctl-Rounds syscall number request config limit (suc fuel) c asks q f r s le lt =
    let a = round syscall number request config c in
    elim (Bool-cases (a.number == enomem)) [
      | inl full ↦
          let more = asks c (==→eq a.number enomem full) in
          let (b, rounds, eq) =
            ioctl-Rounds syscall number request config limit fuel (retry syscall a) asks q f
              (zeros-filled a.cmd.nvlist_dst_size (omega (arith, more))) refl
              (omega (arith, more, length-replicate {A = ℕ} a.cmd.nvlist_dst_size 0))
              (omega (arith, more, length-replicate {A = ℕ} a.cmd.nvlist_dst_size 0)) in
          (b, again (==→eq a.number enomem full) rounds, rw (r, q, f, full, s) eq)
      | inr done ↦ (
        a,
        last refl (not-==→ne a.number enomem done),
        rw (r, q, f, done) (if-status a.number (after syscall a)),
      )
    ]
