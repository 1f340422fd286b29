-- ===== src/Driver/Node/Stage/Formats.antt =====
-- Which calls of the node service write a format onto a disk.
use osc_bsu_csi_driver.Prelude.{
  String, ◌≡◌, ◌≢◌, refl, Bool, true, false, not, Option, none, some, List, [], ◌∷◌, ◌==◌, ◌&&◌,
  arith, if◌then◌else◌,
}
use osc_bsu_csi_driver.Go.Strings.{has_prefix}
use osc_bsu_csi_driver.Go.Error.{GoError}
use osc_bsu_csi_driver.Go.Act.{Result, ok, err, panic, pure, handle}
use osc_bsu_csi_driver.Go.Act.Keeps.{
  Keeps, Keeps-pure, Keeps-raise, Keeps-lift, Keeps->>=, Keeps->>, Keeps-attempt, Keeps-or_fail,
  Keeps-ignoring, Keeps-if,
}
use osc_bsu_csi_driver.Driver.Node.Host.{Host, Command}
use osc_bsu_csi_driver.Driver.Node.Mounter.{make_dir, exists_path}
use osc_bsu_csi_driver.Driver.Node.Luks.{
  cryptsetup, mapper_path, LuksContext, luks_format_args, luks_format, is_luks,
  check_luks_passphrase, luks_open, open_device, luks_close,
}
use osc_bsu_csi_driver.Driver.Node.Devices.{find_scsi_name, find_scsi_volume, find_device_path}
use osc_bsu_csi_driver.Driver.Node.Stage.{close_mapping, mkfs_xfs}

-- The first argument that is not an option.
action : List String → String
action [] = ""
action (a ∷ rest) = if has_prefix a "-" then action rest else a

-- Whether a command writes a new format onto a disk.
unfoldable pub formats : Command → Bool
unfolding action
formats c =
    if c.name == "mkfs.xfs"
    then true
    else if c.name == "cryptsetup"
    then action c.args == "luksFormat"
    else false

-- A property of the host that outlasts every call of a staging but the commands that write a format.
pub record IsKept {H : Type 0} (host : Host H) (P : H → Type 0) : Type 0 where
  pub stat : (path : String) → Keeps P (host.stat path)
  pub lstat : (path : String) → Keeps P (host.lstat path)
  pub eval_symlinks : (path : String) → Keeps P (host.eval_symlinks path)
  pub mkdir_all : (path : String) → Keeps P (host.mkdir_all path)
  pub run : (c : Command) → formats c ≡ false → Keeps P (host.run c)
  pub get_device_name : (path : String) → Keeps P (host.get_device_name_from_mount path)
  pub format_and_mount :
      (source target fs_type : String) (options : List String)
      → Keeps P (host.format_and_mount source target fs_type options)
  pub get_disk_format : (disk : String) → Keeps P (host.get_disk_format disk)

-- The last argument of a command, which names the disk that it formats.
unfoldable pub last_of : List String → String
last_of [] = ""
last_of (a ∷ []) = a
last_of (a ∷ b ∷ rest) = last_of (b ∷ rest)

-- Whether a command writes a new format onto a disk, which is given by all the paths that lead to it.
abbrev pub formats_on : (String → Bool) → Command → Bool
formats_on disk c = formats c && disk (last_of c.args)

-- A property of the host that says that a disk has a format, be it a file system's or that of LUKS:
-- it outlasts every call of a staging, commands that format other disks included, but the commands
-- that format this one; and while it holds, the disk is not found to be blank. `FormatAndMount` is
-- documented to format no disk that has a format. Nothing is said of other disks.
pub record IsFormatted {H : Type 0} (host : Host H) (disk : String → Bool) (P : H → Type 0)
    : Type 0 where
  pub calls : IsKept host P
  pub elsewhere : (c : Command) → formats_on disk c ≡ false → Keeps P (host.run c)
  pub has_format :
      (path : String) (s : H) → disk path ≡ true → P s → (host.get_disk_format path s).0 ≢ ok ""

succeeded :
    {S A : Type 0} (r : Result A) (s : S) (b : Bool)
    → ((e : GoError) → r ≢ err e)
    → (handle r (λ _. pure true) (λ _. pure false) s).0 ≡ ok b
    → b ≡ true
succeeded (ok a) s b never h = cc
succeeded (err e) s b never h = absurd (never e refl)
succeeded panic s b never h = cc

module _ {H : Type 0} (host : Host H) (P : H → Type 0) (laws : IsKept host P) where
  pub exists_path-Keeps : (path : String) → Keeps P (exists_path host path)
  unfolding exists_path
  exists_path-Keeps path =
      Keeps-attempt P (laws.stat path) (λ _. Keeps-pure P true)
        (λ e. Keeps-if P (host.is_not_exist e) (Keeps-pure P false) (Keeps-raise P e))

  pub make_dir-Keeps : (path : String) → Keeps P (make_dir host path)
  unfolding make_dir
  make_dir-Keeps path =
      Keeps-attempt P (laws.mkdir_all path) (Keeps-pure P)
        (λ e. Keeps-if P (host.is_exist e) (Keeps-pure P tt) (Keeps-raise P e))

  pub find_scsi_volume-Keeps : (name : String) → Keeps P (find_scsi_volume host name)
  unfolding find_scsi_volume
  find_scsi_volume-Keeps name =
      Keeps-attempt P (laws.lstat _)
        (λ symlink. Keeps-if P (not symlink) (Keeps-raise P _) (
          Keeps->>= P (Keeps-or_fail P _ (laws.eval_symlinks _)) (λ resolved.
            Keeps-if P (not (has_prefix resolved "/dev")) (Keeps-raise P _)
              (Keeps-pure P resolved))))
        (λ e. Keeps-if P (host.is_not_exist e) (Keeps-raise P _) (Keeps-raise P _))

  pub find_device_path-Keeps : (path : String) → Keeps P (find_device_path host path)
  unfolding find_device_path
  find_device_path-Keeps path = Keeps->>= P (exists_path-Keeps path) (λ exists.
      Keeps-if P exists (Keeps-pure P path)
        (Keeps->>= P (Keeps-lift P (find_scsi_name path)) find_scsi_volume-Keeps))

  pub is_luks-Keeps : (device : String) → Keeps P (is_luks host device)
  unfolding is_luks formats
  is_luks-Keeps device =
      Keeps-attempt P (laws.run _ refl) (λ _. Keeps-pure P true) (λ _. Keeps-pure P false)

  pub check_luks_passphrase-Keeps :
      (device passphrase : String) → Keeps P (check_luks_passphrase host device passphrase)
  unfolding check_luks_passphrase formats
  check_luks_passphrase-Keeps device passphrase =
      Keeps-attempt P (laws.run _ refl) (λ _. Keeps-pure P true) (λ _. Keeps-pure P false)

  pub open_device-Keeps :
      (device name passphrase : String) → Keeps P (open_device host device name passphrase)
  unfolding open_device formats
  open_device-Keeps device name passphrase =
      Keeps->> P (Keeps-or_fail P _ (laws.run _ refl)) (Keeps-pure P true)

  pub luks_open-Keeps :
      (device name passphrase : String) → Keeps P (luks_open host device name passphrase)
  unfolding luks_open
  luks_open-Keeps device name passphrase =
      Keeps-attempt P (exists_path-Keeps (mapper_path name))
        (λ there. Keeps-if P there (Keeps-pure P true) (open_device-Keeps device name passphrase))
        (λ _. open_device-Keeps device name passphrase)

  pub luks_close-Keeps : (name : String) → Keeps P (luks_close host name)
  unfolding luks_close formats
  luks_close-Keeps name = Keeps->>= P (exists_path-Keeps (mapper_path name)) (λ exists.
      Keeps-if P (not exists) (Keeps-pure P tt) (Keeps->> P (laws.run _ refl) (Keeps-pure P tt)))

  pub close_mapping-Keeps : (mapping : Option String) → Keeps P (close_mapping host mapping)
  close_mapping-Keeps none = Keeps-pure P tt
  close_mapping-Keeps (some name) = Keeps-ignoring P (luks_close-Keeps name)

-- While a property holds, `cryptsetup isLuks` knows a disk.
abbrev pub IsSealed : {H : Type 0} → Host H → (String → Bool) → (H → Type 0) → Type 0
IsSealed {H} host disk P =
    (path : String) (s : H) (e : GoError)
    → disk path ≡ true
    → P s
    → (host.run (cryptsetup ("isLuks" ∷ path ∷ [])) s).0 ≢ err e

module _ {H : Type 0} (host : Host H) (P : H → Type 0) (disk : String → Bool) where
  pub is_luks-true :
      (path : String) (s : H) (b : Bool)
      → IsSealed host disk P
      → P s
      → (is_luks host path s).0 ≡ ok b
      → disk path ≡ true
      → b ≡ true
  unfolding is_luks
  is_luks-true path s b sealed h r on =
      succeeded (host.run (cryptsetup ("isLuks" ∷ path ∷ [])) s).0 _ b (λ e. sealed path s e on h) r

module _ {H : Type 0} (host : Host H) (P : H → Type 0) (disk : String → Bool)
    (laws : IsFormatted host disk P) where
  mkfs_xfs_elsewhere :
      (source : String) → disk source ≡ false → formats_on disk (mkfs_xfs source) ≡ false
  unfolding last_of formats
  mkfs_xfs_elsewhere source other = other

  last_of-luks_format_args :
      (context : LuksContext) (source : String) → last_of (luks_format_args context source) ≡ source
  unfolding last_of
  last_of-luks_format_args context source = ground arith

  pub mkfs_xfs-Keeps :
      (source : String) → disk source ≡ false → Keeps P (host.run (mkfs_xfs source))
  mkfs_xfs-Keeps source other = laws.elsewhere _ (mkfs_xfs_elsewhere source other)

  pub luks_format-Keeps :
      (source passphrase : String) (context : LuksContext)
      → disk source ≡ false
      → Keeps P (luks_format host source passphrase context)
  unfolding luks_format
  luks_format-Keeps source passphrase context other =
      Keeps->> P
        (Keeps-or_fail P _
          (laws.elsewhere _ (ground (arith, last_of-luks_format_args context source, other))))
        (Keeps-pure P tt)
