-- ===== src/Ioctl/Tests.antt =====
-- The command block and the retry loop at small inputs.
use prometheus_zfs_exporter.Base.{
  ℕ, Option, Bytes, true, out_of_fuel, ◌≡◌, refl, arith, none, some, ◌++◌, codes, drop, replicate,
  ltb, if◌then◌else◌, Bool-cases, inl, inr, ltb→lt,
}
use prometheus_zfs_exporter.Ioctl.Cmd.{Cmd, empty_cmd, delimited_buf_to_string, set_name, get_name}
use prometheus_zfs_exporter.Ioctl.Cmd.Names.{
  get_name-set_name, get_name-set_name_cleared, set_name-too_long,
}
use prometheus_zfs_exporter.Ioctl.State.{
  pool_states, vdev_states, pool_state_string, vdev_state_string,
}
use prometheus_zfs_exporter.Ioctl.State.Labels.{
  occurrences, occurrences-pool_state_string, occurrences-vdev_state_string,
}
use prometheus_zfs_exporter.Ioctl.Handle.{
  Answer, Syscall, Call, is_some, enomem, size_or, round, after, ioctl,
}
use prometheus_zfs_exporter.Ioctl.Handle.Starved.{IsOutOfMemory, ioctl-IsOutOfMemory}
use prometheus_zfs_exporter.Ioctl.Handle.Retry.{AsksForMore, Rounds, status, ioctl-Rounds}

-- A block whose name is "tank/old" and one with a name field of two bytes.
abbrev used_cmd : Cmd
used_cmd = record {
  name = codes "tank/old" ++ replicate 8 0;
  nvlist_src_size = 0;
  nvlist_dst_size = 0;
  nvlist_conf_size = 0;
  cookie = 0;
}

get_name-set_name_example :
    get_name (set_name (codes "rust") used_cmd)
    ≡ codes "rust" ++ delimited_buf_to_string (drop 4 used_cmd.name)
get_name-set_name_example = get_name-set_name (codes "rust") used_cmd (omega arith) (omega arith)

get_name-set_name_cleared_example : get_name (set_name (codes "rust") empty_cmd) ≡ codes "rust"
get_name-set_name_cleared_example =
    get_name-set_name_cleared (codes "rust") (omega arith) (omega arith)

long_name_dropped : set_name (replicate 20 65) used_cmd ≡ used_cmd
long_name_dropped = set_name-too_long (replicate 20 65) used_cmd (omega arith)

occurrences-pool_state_string_example : occurrences (pool_state_string 6) pool_states ≡ 1
occurrences-pool_state_string_example = occurrences-pool_state_string 6

occurrences-vdev_state_string_example : occurrences (vdev_state_string 4 13) vdev_states ≡ 1
occurrences-vdev_state_string_example = occurrences-vdev_state_string 4 13

-- A kernel whose answer takes 100 bytes.
abbrev kernel : Syscall (Unit {0})
kernel number cmd request config resp w =
    if ltb (size_or resp 0) 100
    then record {
      number = enomem;
      cmd = record cmd { nvlist_dst_size = 100 };
      resp = resp;
      world = w;
    }
    else record { number = 0; cmd = cmd; resp = some (replicate 100 7); world = w }

abbrev first_call : Call (Unit {0})
first_call = record { cmd = empty_cmd; resp = some (replicate 16 0); world = tt }

kernel-AsksForMore : AsksForMore kernel 3 none none 100
unfolding round
kernel-AsksForMore c = elim (Bool-cases (ltb (size_or c.resp 0) 100)) [
  | inl short ↦ rw short (λ _. omega (arith, ltb→lt (size_or c.resp 0) 100 short))
  | inr fits ↦ rw fits (λ e. omega (arith, e))
]

ioctl-Rounds_example :
    (a : Answer (Unit {0})) × Rounds kernel 3 none none a first_call
    × (ioctl kernel 90 3 none none first_call ≡ (status a.number, after kernel a))
ioctl-Rounds_example =
    ioctl-Rounds kernel 3 none none 100 90 first_call kernel-AsksForMore refl refl refl refl
      (omega arith) (omega arith)

-- A kernel without memory leaves the block as it is.
abbrev starved : Syscall (Unit {0})
starved number cmd request config resp w = record {
  number = enomem;
  cmd = cmd;
  resp = resp;
  world = w;
}

same_size : (o : Option Bytes) (n : ℕ) → is_some o ≡ true → size_or o n ≡ size_or o 0
same_size none n s = cc
same_size (some b) n s = refl

starved-IsOutOfMemory : IsOutOfMemory starved 3 none none
unfolding round
starved-IsOutOfMemory c s = (refl, same_size c.resp c.cmd.nvlist_dst_size s)

ioctl-IsOutOfMemory_example :
    (t : Call (Unit {0})) × (ioctl starved 1000 3 none none first_call ≡ (out_of_fuel, t))
    × (size_or t.resp 0 ≡ 16)
ioctl-IsOutOfMemory_example =
    ioctl-IsOutOfMemory starved 3 none none 1000 first_call starved-IsOutOfMemory refl refl refl
      refl
