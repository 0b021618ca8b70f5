-- ===== src/Ioctl/Handle/Starved.antt =====
-- zfs/ioctl/ioctl.go: the loop of `Ioctl` on a kernel that has no memory left.
use prometheus_zfs_exporter.Base.{
  ℕ, zero, suc, ◌<◌, ◌≡◌, refl, ◌∙◌, arith, Option, none, some, [], ◌∷◌, Bytes, true, false,
  length-replicate, ==_iff, out_of_fuel,
}
use prometheus_zfs_exporter.Ioctl.Handle.{
  Syscall, Call, enomem, is_empty, is_some, size_or, round, retry, ioctl,
}
use prometheus_zfs_exporter.Ioctl.Handle.Retry.{zeros-filled}

-- Every answer to a call with a response buffer is ENOMEM, and asks for no other size than it was
-- given.
abbrev pub IsOutOfMemory :
    {World : Type 0} → Syscall World → ℕ → Option Bytes → Option Bytes → Type 0
IsOutOfMemory {World} syscall number request config =
    (c : Call World)
    → is_some c.resp ≡ true
    → ((round syscall number request config c).number ≡ enomem)
      × ((round syscall number request config c).cmd.nvlist_dst_size ≡ size_or c.resp 0)

filled_size : (o : Option Bytes) → is_empty o ≡ false → is_some o ≡ true → 0 < size_or o 0
filled_size none e s = cc
filled_size (some []) e s = cc
filled_size (some (b ∷ bs)) e s = omega arith

-- On a kernel that answers ENOMEM to every call and asks for no other size, `Ioctl` with a response
-- buffer that is not empty does not return, whatever fuel it is given: it makes the call again and
-- again, with a buffer of the same size.
pub ioctl-IsOutOfMemory :
    {World : Type 0} (syscall : Syscall World) (number : ℕ) (request config : Option Bytes)
    (fuel : ℕ) (c : Call World)
    → IsOutOfMemory syscall number request config
    → is_empty request ≡ false
    → is_empty config ≡ false
    → is_empty c.resp ≡ false
    → is_some c.resp ≡ true
    → (t : Call World) × (ioctl syscall fuel number request config c ≡ (out_of_fuel, t))
      × (size_or t.resp 0 ≡ size_or c.resp 0)
unfolding ioctl
ioctl-IsOutOfMemory syscall number request config zero c full q f r s = (c, refl, refl)
ioctl-IsOutOfMemory syscall number request config (suc fuel) c full q f r s =
    let a = round syscall number request config c in
    let (again, size) = full c s in
    let (t, eq, same) =
      ioctl-IsOutOfMemory syscall number request config fuel (retry syscall a) full q f
        (zeros-filled a.cmd.nvlist_dst_size (omega (arith, size, filled_size c.resp r s))) refl in
    (
      t,
      rw (r, q, f, (==_iff a.number enomem).1 again, s) eq,
      same ∙ length-replicate a.cmd.nvlist_dst_size 0 ∙ size,
    )
