-- ===== src/Driver/Node/Devices/Steady.antt =====
-- Looking for a device again.
use osc_bsu_csi_driver.Prelude.{
  String, ◌≡◌, ◌≢◌, refl, ap, ◌∙◌, sym, Bool, true, false, not, ◌||◌, List, arith,
}
use Prim.Native.String.{◌++◌ as concat}
use text.Mathlib.TextPositions.{starts_with-append}
use osc_bsu_csi_driver.Go.Strings.{has_prefix}
use osc_bsu_csi_driver.Go.Int.{ℤ}
use osc_bsu_csi_driver.Go.Act.{ok, lift, or_fail}
use osc_bsu_csi_driver.Go.Act.Agrees.{
  Agrees, agreeing, Agrees-pure, Agrees-raise, Agrees-if, Agrees-attempt, Agrees->>=,
}
use osc_bsu_csi_driver.Go.Act.Keeps.{Keeps}
use osc_bsu_csi_driver.Driver.Node.Host.{Host, Command}
use osc_bsu_csi_driver.Driver.Node.Mounter.{exists_path}
use osc_bsu_csi_driver.Driver.Node.Devices.{find_scsi_name, find_scsi_volume, find_device_path}

-- The paths under which the driver looks for the device of a volume.
abbrev pub is_device : String → Bool
is_device path = has_prefix path "/dev/xvd" || has_prefix path "/dev/disk/by-id/"

-- In two states of a host, the files of devices are the same.
pub record SameDevices {H : Type 0} (host : Host H) (s s' : H) : Type 0 where
  pub stat : (p : String) → is_device p ≡ true → (host.stat p s').0 ≡ (host.stat p s).0
  pub lstat : (p : String) → is_device p ≡ true → (host.lstat p s').0 ≡ (host.lstat p s).0
  pub eval_symlinks :
      (p : String) → is_device p ≡ true → (host.eval_symlinks p s').0 ≡ (host.eval_symlinks p s).0

-- Looking at files changes nothing, no other call changes the files of devices, a file system is
-- found where `FormatAndMount` has mounted it, and where one is mounted there is a file.
pub record IsSteady {H : Type 0} (host : Host H) : Type 0 where
  pub stat : (p : String) (s : H) → (host.stat p s).1 ≡ s
  pub lstat : (p : String) (s : H) → (host.lstat p s).1 ≡ s
  pub eval_symlinks : (p : String) (s : H) → (host.eval_symlinks p s).1 ≡ s
  pub get_device_name : (p : String) (s : H) → (host.get_device_name_from_mount p s).1 ≡ s
  pub mkdir_all : (s₀ : H) (p : String) → Keeps (SameDevices host s₀) (host.mkdir_all p)
  pub run : (s₀ : H) (c : Command) → Keeps (SameDevices host s₀) (host.run c)
  pub get_disk_format :
      (s₀ : H) (disk : String) → Keeps (SameDevices host s₀) (host.get_disk_format disk)
  pub format_and_mount :
      (s₀ : H) (source target fs_type : String) (options : List String)
      → Keeps (SameDevices host s₀) (host.format_and_mount source target fs_type options)
  pub mounted :
      (source target fs_type : String) (options : List String) (s s' : H)
      → host.format_and_mount source target fs_type options s ≡ (ok tt, s')
      → (n : ℤ) × ((host.get_device_name_from_mount target s').0 ≡ ok (source, n))
  pub there :
      (target device : String) (n : ℤ) (s : H)
      → (host.get_device_name_from_mount target s).0 ≡ ok (device, n)
      → device ≢ ""
      → (host.stat target s).0 ≡ ok tt

prefixed_dev : (s : String) → has_prefix s "/dev" ≡ true → s ≢ ""
prefixed_dev s h e = let empty : has_prefix "" "/dev" ≡ true = rw e at h in cc

prefixed_device : (s : String) → has_prefix s "/dev/xvd" ≡ true → s ≢ ""
prefixed_device s h e = let empty : has_prefix "" "/dev/xvd" ≡ true = rw e at h in cc

module _ {H : Type 0} (host : Host H) (laws : IsSteady host) where
  pub SameDevices-refl : (s : H) → SameDevices host s s
  SameDevices-refl s = record {
    stat = λ p d. refl;
    lstat = λ p d. refl;
    eval_symlinks = λ p d. refl;
  }

  module _ (s s' : H) (same : SameDevices host s s') where
    stat-Agrees : (p : String) → is_device p ≡ true → Agrees s s' (λ _. Unit) (host.stat p)
    stat-Agrees p d =
        agreeing (host.stat p s).0 (λ i. ((host.stat p s).0, laws.stat p s i))
          (λ i. (same.stat p d i, laws.stat p s' i)) (λ a h. tt)

    lstat-Agrees : (p : String) → is_device p ≡ true → Agrees s s' (λ _. Unit) (host.lstat p)
    lstat-Agrees p d =
        agreeing (host.lstat p s).0 (λ i. ((host.lstat p s).0, laws.lstat p s i))
          (λ i. (same.lstat p d i, laws.lstat p s' i)) (λ a h. tt)

    eval_symlinks-Agrees :
        (p : String) → is_device p ≡ true → Agrees s s' (λ _. Unit) (host.eval_symlinks p)
    eval_symlinks-Agrees p d =
        agreeing (host.eval_symlinks p s).0
          (λ i. ((host.eval_symlinks p s).0, laws.eval_symlinks p s i))
          (λ i. (same.eval_symlinks p d i, laws.eval_symlinks p s' i)) (λ a h. tt)

    exists_path-Agrees :
        (p : String) → is_device p ≡ true → Agrees s s' (λ _. Unit) (exists_path host p)
    unfolding exists_path
    exists_path-Agrees p d =
        Agrees-attempt s s' (λ _. Unit) (λ _. Unit) (host.stat p) _ _ (stat-Agrees p d)
          (λ a u. Agrees-pure s s' true tt)
          (λ e.
            Agrees-if s s' (host.is_not_exist e) (λ _. Agrees-pure s s' false tt)
              (λ _. Agrees-raise s s' e))

    find_scsi_volume-Agrees :
        (name : String) → Agrees s s' (λ r. r ≢ "") (find_scsi_volume host name)
    unfolding find_scsi_volume
    find_scsi_volume-Agrees name =
        let device : is_device (concat "/dev/disk/by-id/" name) ≡ true =
          ground (arith, starts_with-append "/dev/disk/by-id/" name) in
        Agrees-attempt s s' (λ _. Unit) (λ r. r ≢ "") (host.lstat _) _ _ (lstat-Agrees _ device)
          (λ symlink u.
            Agrees-if s s' (not symlink) (λ _. Agrees-raise s s' _)
              (λ _.
                Agrees->>= s s' (λ _. Unit) (λ r. r ≢ "") (or_fail (host.eval_symlinks _) _) _
                  (Agrees-attempt s s' (λ _. Unit) (λ _. Unit) (host.eval_symlinks _) _ _
                    (eval_symlinks-Agrees _ device) (λ a u. Agrees-pure s s' a tt)
                    (λ e. Agrees-raise s s' _))
                  (λ resolved u.
                    Agrees-if s s' (not (has_prefix resolved "/dev")) (λ _. Agrees-raise s s' _)
                      (λ dev.
                        Agrees-pure s s' resolved (prefixed_dev resolved (ground (arith, dev)))))))
          (λ e.
            Agrees-if s s' (host.is_not_exist e) (λ _. Agrees-raise s s' _)
              (λ _. Agrees-raise s s' _))

    find_device_path-Agrees :
        (path : String)
        → has_prefix path "/dev/xvd" ≡ true
        → Agrees s s' (λ r. r ≢ "") (find_device_path host path)
    unfolding find_device_path
    find_device_path-Agrees path device =
        Agrees->>= s s' (λ _. Unit) (λ r. r ≢ "") (exists_path host path) _
          (exists_path-Agrees path (ground (arith, device)))
          (λ exists u.
            Agrees-if s s' exists (λ _. Agrees-pure s s' path (prefixed_device path device))
              (λ _.
                Agrees->>= s s' (λ _. Unit) (λ r. r ≢ "") (lift (find_scsi_name path)) _
                  (agreeing (find_scsi_name path) refl refl (λ a h. tt))
                  (λ name u. find_scsi_volume-Agrees name)))

  -- Where the look-up of a device succeeds, it changes nothing and succeeds again while the files of
  -- devices stay the same.
  pub find_device_path-same :
      (path source : String) (s t s' : H)
      → has_prefix path "/dev/xvd" ≡ true
      → SameDevices host s s'
      → find_device_path host path s ≡ (ok source, t)
      → (t ≡ s) × (find_device_path host path s' ≡ (ok source, s')) × (source ≢ "")
  find_device_path-same path source s t s' device same found =
      elim (find_device_path-Agrees s s' same path device) [
        | agreeing r here there known ↦
            let both = sym here ∙ found in
            let is_ok : r ≡ ok source = ap (λ t. t.0) both in
            (sym (ap (λ t. t.1) both), there ∙ ap (λ r. (r, s')) is_ok, known source is_ok)
      ]
