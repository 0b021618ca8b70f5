-- ===== src/Ioctl/Handle.antt =====
-- zfs/ioctl/ioctl.go: `Ioctl`, the loop round the system call. The kernel is a parameter: a state
-- of its own, and what it answers to a request.
pub mod Retry
pub mod Serve
pub mod Starved
use prometheus_zfs_exporter.Base.{
  ℕ, zero, suc, ◌+◌, Option, none, some, [], ◌∷◌, Bool, true, false, ◌&&◌, Bytes, length, replicate,
  ◌==◌, if◌then◌else◌, errno, Result, ok, err, panicked, out_of_fuel, index_range,
}
use prometheus_zfs_exporter.Ioctl.Cmd.{Cmd}

-- `unix.ENOMEM` and `unix.ESRCH`.
abbrev pub enomem : ℕ
enomem = 12

abbrev pub esrch : ℕ
esrch = 3

-- The three calls that the exporter makes, by their numbers.
abbrev pub zfs_ioc_first : ℕ
zfs_ioc_first = 0x5a00

abbrev pub zfs_ioc_pool_configs : ℕ
zfs_ioc_pool_configs = zfs_ioc_first + 4

abbrev pub zfs_ioc_pool_stats : ℕ
zfs_ioc_pool_stats = zfs_ioc_first + 5

abbrev pub zfs_ioc_dataset_list_next : ℕ
zfs_ioc_dataset_list_next = zfs_ioc_first + 20

-- What a call leaves: the error number, the command block, the response, and the kernel. Of the
-- system call the response is what it writes into the buffer, from its start on, or `none`.
pub record Answer (World : Type 0) : Type 0 where
  pub number : ℕ
  pub cmd : Cmd
  pub resp : Option Bytes
  pub world : World

-- The system call, as the kernel implements it: the request's number, the command block, and the
-- three buffers. A buffer that is nil in Go is `none`.
abbrev pub Syscall : Type 0 → Type 0
Syscall World = ℕ → Cmd → Option Bytes → Option Bytes → Option Bytes → World → Answer World

-- What `Ioctl` shares with its caller: the block, the response buffer and the kernel.
pub record Call (World : Type 0) : Type 0 where
  pub cmd : Cmd
  pub resp : Option Bytes
  pub world : World

-- `&b[0]` panics for a buffer that is there and empty.
abbrev pub is_empty : Option Bytes → Bool
is_empty none = false
is_empty (some []) = true
is_empty (some (_ ∷ _)) = false

abbrev pub is_some : Option Bytes → Bool
is_some none = false
is_some (some _) = true

-- A size field is set if the buffer is there, and else keeps its value.
abbrev pub size_or : Option Bytes → ℕ → ℕ
size_or none old = old
size_or (some b) old = length b

abbrev pub with_sizes : Option Bytes → Option Bytes → Option Bytes → Cmd → Cmd
with_sizes request config resp c = record c {
  nvlist_dst_size = size_or resp c.nvlist_dst_size;
  nvlist_src_size = size_or request c.nvlist_src_size;
  nvlist_conf_size = size_or config c.nvlist_conf_size;
}

-- A write into a buffer. The kernel cannot change the length of the slice.
unfoldable pub overwrite : Bytes → Bytes → Bytes
overwrite [] buffer = buffer
overwrite (b ∷ bs) [] = []
overwrite (b ∷ bs) (_ ∷ buffer) = b ∷ overwrite bs buffer

abbrev pub written : Option Bytes → Option Bytes → Option Bytes
written none resp = resp
written (some bs) none = none
written (some bs) (some buffer) = some (overwrite bs buffer)

module _ {World : Type 0} (syscall : Syscall World) where
  -- One round: the call, with the sizes filled in, and its write into the response buffer.
  unfoldable pub round : ℕ → Option Bytes → Option Bytes → Call World → Answer World
  round number request config c =
      let a =
        syscall number (with_sizes request config c.resp c.cmd) request config c.resp c.world in
      record a { resp = written a.resp c.resp }

  abbrev pub after : Answer World → Call World
  after a = record { cmd = a.cmd; resp = a.resp; world = a.world }

  -- After `ENOMEM` the response is a new buffer of the length that the kernel asked for.
  abbrev pub retry : Answer World → Call World
  retry a = record { cmd = a.cmd; resp = some (replicate a.cmd.nvlist_dst_size 0); world = a.world }

  -- A unit of fuel for each round.
  unfoldable pub ioctl :
      ℕ → ℕ → Option Bytes → Option Bytes → Call World → Result (Unit {0}) × Call World
  ioctl zero number request config c = (out_of_fuel, c)
  ioctl (suc fuel) number request config c =
      let a = round number request config c in
      let again = ioctl fuel number request config (retry a) in
      if is_empty c.resp
      then (panicked index_range, c)
      else if is_empty request
      then (panicked index_range, c)
      else if is_empty config
      then (panicked index_range, c)
      else if a.number == enomem && is_some c.resp
      then again
      else if a.number == 0
      then (ok tt, after a)
      else (err (errno a.number), after a)
