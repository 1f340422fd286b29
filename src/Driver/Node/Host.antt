-- ===== src/Driver/Node/Host.antt =====
-- What the node service calls and this repository does not implement: the operating system, behind
-- the packages `os`, `unix` and `exec`, the package `mount`, and the statistics of a file system.
use osc_bsu_csi_driver.Prelude.{ℕ, String, Bool, List, Option}
use osc_bsu_csi_driver.Go.Int.{ℤ}
use osc_bsu_csi_driver.Go.Error.{GoError}
use osc_bsu_csi_driver.Go.Act.{Act}

-- A command, with what it reads from the standard input.
pub record Command : Type 0 where
  pub name : String
  pub args : List String
  pub stdin : Option String

-- The numbers of `volume.Metrics` that are read.
pub record Metrics : Type 0 where
  pub available : ℤ
  pub capacity : ℤ
  pub used : ℤ
  pub inodes_free : ℤ
  pub inodes : ℤ
  pub inodes_used : ℤ

-- `H` is all that the calls can see and change: files, mounts, devices, other processes.
pub record Host (H : Type 0) : Type 0 where
  -- os.Stat, and os.Lstat with whether the file is a symbolic link
  pub stat : String → Act H (Unit {0})
  pub lstat : String → Act H Bool
  pub eval_symlinks : String → Act H String
  pub mkdir_all : String → Act H (Unit {0})
  pub open_file : String → Act H (Unit {0})
  pub remove : String → Act H (Unit {0})
  pub is_not_exist : GoError → Bool
  pub is_exist : GoError → Bool
  -- the mode that unix.Stat gives
  pub unix_stat : String → Act H ℕ
  -- `Run`, and the output of `Output` or `CombinedOutput`
  pub run : Command → Act H String
  pub is_likely_not_mount_point : String → Act H Bool
  pub is_corrupted_mnt : GoError → Bool
  -- source, target, type of the file system, options
  pub do_mount : String → String → String → List String → Act H (Unit {0})
  pub unmount : String → Act H (Unit {0})
  -- the device at a mount point, and the number of references to it
  pub get_device_name_from_mount : String → Act H (String × ℤ)
  pub format_and_mount : String → String → String → List String → Act H (Unit {0})
  -- the empty text where the disk has no format
  pub get_disk_format : String → Act H String
  pub resize_fs : String → String → Act H Bool
  pub get_metrics : String → Act H Metrics
