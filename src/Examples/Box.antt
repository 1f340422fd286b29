-- ===== src/Examples/Box.antt =====
-- A host with one disk, that keeps the disk's format and what is mounted where.
use osc_bsu_csi_driver.Prelude.{
  String, ◌≡◌, ◌≢◌, refl, ap, sym, ◌∙◌, Bool, true, false, none, some, arith, eq_iff, ◌==◌,
  if◌then◌else◌, Bool-cases, Option-cases, inl, inr,
}
use osc_bsu_csi_driver.Go.Dict.{Dict, lookup, insert, or_zero, lookup-insert}
use osc_bsu_csi_driver.Go.Int.{pos}
use osc_bsu_csi_driver.Go.Error.{errorf}
use osc_bsu_csi_driver.Go.Act.{ok, err}
use osc_bsu_csi_driver.Go.Act.Keeps.{keeping}
use osc_bsu_csi_driver.Driver.Node.Host.{Host}
use osc_bsu_csi_driver.Driver.Node.Devices.Steady.{is_device, SameDevices, IsSteady}
use osc_bsu_csi_driver.Driver.Node.Stage.Formats.{formats_on, IsFormatted}

pub record Box : Type 0 where
  pub mounts : Dict String
  pub format : String

-- The path of the disk.
abbrev pub is_disk : String → Bool
is_disk path = path == "/dev/xvdb"

abbrev pub host : Host Box
host = record {
  stat = λ p s. (
    (elim (lookup p s.mounts) [
      | some _ ↦ ok tt
      | none ↦ if p == "/dev/xvdb" then ok tt else err (errorf "no such file")
    ]),
    s,
  );
  lstat = λ p s. (ok false, s);
  eval_symlinks = λ p s. (ok p, s);
  mkdir_all = λ p s. (ok tt, s);
  open_file = λ p s. (ok tt, s);
  remove = λ p s. (ok tt, s);
  is_not_exist = λ e. true;
  is_exist = λ e. false;
  unix_stat = λ p s. (ok 0x6000, s);
  run = λ c s. (ok "", record s { format = if formats_on is_disk c then "new" else s.format });
  is_likely_not_mount_point = λ p s. (ok true, s);
  is_corrupted_mnt = λ e. false;
  do_mount = λ source target fs_type options s. (ok tt, s);
  unmount = λ target s. (ok tt, s);
  get_device_name_from_mount = λ p s. (ok (or_zero "" (lookup p s.mounts), pos 1), s);
  format_and_mount = λ source target fs_type options s.
      if is_device target then (err (errorf "not a folder"), s) else (
        ok tt,
        record {
          mounts = insert target source s.mounts;
          format = if s.format == "" then fs_type else s.format;
        },
      );
  get_disk_format = λ disk s. (ok s.format, s);
  resize_fs = λ device path s. (ok true, s);
  get_metrics = λ path s. (err (errorf "no metrics"), s);
}

pub mounting :
    (p target source : String) (m : Dict String)
    → is_device p ≡ true
    → is_device target ≡ false
    → lookup p (insert target source m) ≡ lookup p m
mounting p target source m device other =
    rw lookup-insert (ground (arith, eq_iff target p, device, other))

pub mounted_lem :
    (target source : String) (m : Dict String)
    → lookup target (insert target source m) ≡ some source
mounted_lem target source m = rw lookup-insert (ground (arith, eq_iff target target))

not_blank : (format : String) → format ≡ "ext4" → format ≢ ""
not_blank format is_ext4 blank =
    let no : ("ext4" == "") ≡ true = (eq_iff "ext4" "").1 (sym is_ext4 ∙ blank) in cc

SameDevices-mounts :
    (s₀ s : Box) (target source format : String)
    → is_device target ≡ false
    → SameDevices host s₀ s
    → SameDevices host s₀ (record { mounts = insert target source s.mounts; format = format })
SameDevices-mounts s₀ s target source format other same = record {
  stat = λ p d. rw (mounting p target source s.mounts d other, host) (same.stat p d);
  lstat = λ p d. refl;
  eval_symlinks = λ p d. refl;
}

pub host-IsSteady : IsSteady host
host-IsSteady = record {
  stat = λ p s. refl;
  lstat = λ p s. refl;
  eval_symlinks = λ p s. refl;
  get_device_name = λ p s. refl;
  mkdir_all = λ s₀ p. keeping (λ s h. h);
  run = λ s₀ c.
      keeping (λ s h. record { stat = h.stat; lstat = h.lstat; eval_symlinks = h.eval_symlinks });
  get_disk_format = λ s₀ disk. keeping (λ s h. h);
  format_and_mount = λ s₀ source target fs_type options. keeping (λ s h.
      elim (Bool-cases (is_device target)) [
        | inl device ↦ rw device h
        | inr other ↦ rw other (SameDevices-mounts s₀ s target source _ other h)
      ]);
  mounted = λ source target fs_type options s s' h. elim (Bool-cases (is_device target)) [
    | inl device ↦ ground (arith, device, h)
    | inr other ↦ (
      pos 1,
      ap (λ r. ok (or_zero "" (lookup target r.1.mounts), pos 1)) (sym (rw other at h))
          ∙ ap (λ o. ok (or_zero "" o, pos 1)) (mounted_lem target source s.mounts),
    )
  ];
  there = λ target device n s found full. elim (Option-cases (lookup target s.mounts)) [
    | inl nothing ↦ absurd (full (ground (arith, found, nothing)))
    | inr (v, is_v) ↦ rw (is_v, host) refl
  ];
}

pub host-IsFormatted : IsFormatted host is_disk (λ s. s.format ≡ "ext4")
host-IsFormatted = record {
  calls = record {
    stat = λ p. keeping (λ s h. h);
    lstat = λ p. keeping (λ s h. h);
    eval_symlinks = λ p. keeping (λ s h. h);
    mkdir_all = λ p. keeping (λ s h. h);
    run = λ c f. keeping (λ s h. rw f h);
    get_device_name = λ p. keeping (λ s h. h);
    format_and_mount = λ source target fs_type options. keeping (λ s h.
        elim (Bool-cases (is_device target)) [
          | inl device ↦ rw device h
          | inr other ↦ rw (other, h) refl
        ]);
    get_disk_format = λ disk. keeping (λ s h. h);
  };
  elsewhere = λ c other. keeping (λ s h. rw other h);
  has_format = λ name s on h e. not_blank s.format h (ground (arith, e));
}
