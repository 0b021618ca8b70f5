-- ===== src/Ioctl/Device.antt =====
-- zfs/ioctl/ioctl.go: opening the device. The operating system's calls are parameters.
use prometheus_zfs_exporter.Base.{
  ℕ, Bool, true, false, Bytes, codes, Error, Result, ok, err, panicked, out_of_fuel, message,
}

-- `os.Open`, `os.IsNotExist`, `unix.Mknod`, whose result nothing looks at, and `unix.Mkdev`.
pub record Os (World File : Type 0) : Type 0 where
  pub open_file : Bytes → World → Result File × World
  pub is_not_exist : Error → Bool
  pub mknod : Bytes → ℕ → ℕ → World → World
  pub mkdev : ℕ → ℕ → ℕ

-- `ZFSHandle`
pub record ZfsHandle (File : Type 0) : Type 0 where
  pub zfs_handle : File

module _ {World File : Type 0} (os : Os World File) where
  -- The error of the first `os.Open`, as `os.IsNotExist` judges it. No error is none of that kind.
  unfoldable pub is_missing : Result File → Bool
  is_missing (err e) = os.is_not_exist e
  is_missing _ = false

  -- `if os.IsNotExist(err) { unix.Mknod(path, 666, int(unix.Mkdev(10, 54))) }`
  unfoldable pub make_node : Bool → Bytes → World → World
  make_node true path w = os.mknod path 666 (os.mkdev 10 54) w
  make_node false path w = w

  unfoldable pub to_handle : Result File → Result (ZfsHandle File)
  to_handle (ok f) = ok (record { zfs_handle = f })
  to_handle (err e) = err (message "Failed to open or create ZFS device node: %v")
  to_handle (panicked p) = panicked p
  to_handle out_of_fuel = out_of_fuel

  unfoldable pub new_zfs_handle_with_path : Bytes → World → Result (ZfsHandle File) × World
  new_zfs_handle_with_path path w =
      let (first, w1) = os.open_file path w in
      let (second, w2) = os.open_file path (make_node (is_missing first) path w1) in
      (to_handle second, w2)

  abbrev pub new_zfs_handle : World → Result (ZfsHandle File) × World
  new_zfs_handle = new_zfs_handle_with_path (codes "/dev/zfs")
