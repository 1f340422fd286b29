-- ===== src/Examples/Republishing.antt =====
-- A host on which `Mount` notes what is mounted where.
use mathlib.Core.Path.{subst}
use osc_bsu_csi_driver.Prelude.{
  String, ◌≡◌, refl, ap, sym, ◌∙◌, true, false, none, some, List, [], ◌∷◌, arith, ◌==◌, ◌||◌,
  if◌then◌else◌, Bool-cases, Option-cases, inl, inr,
}
use osc_bsu_csi_driver.Go.Strings.{has_prefix}
use osc_bsu_csi_driver.Go.Dict.{lookup, insert, or_zero}
use osc_bsu_csi_driver.Go.Int.{pos}
use osc_bsu_csi_driver.Go.Error.{errorf}
use osc_bsu_csi_driver.Go.Act.{ok, err}
use osc_bsu_csi_driver.Go.Act.Keeps.{keeping}
use osc_bsu_csi_driver.Driver.Requests.{single_node_writer, block, device_path_key}
use osc_bsu_csi_driver.Driver.Controller.Requirements.{
  has_support, all_supported, is_valid_volume_capabilities,
}
use osc_bsu_csi_driver.Driver.Node.Host.{Host}
use osc_bsu_csi_driver.Driver.Node.Mounter.{make_file, make_dir, exists_path}
use osc_bsu_csi_driver.Driver.Node.Mounts.{is_mounted}
use osc_bsu_csi_driver.Driver.Node.Devices.{find_device_path}
use osc_bsu_csi_driver.Driver.Node.Devices.Steady.{is_device, SameDevices, IsSteady}
use osc_bsu_csi_driver.Driver.Node.Publish.{
  NodePublishVolumeRequest, mount_unless_mounted, publish_device, publish_access,
  publish_capability, node_publish_volume,
}
use osc_bsu_csi_driver.Driver.Node.Publish.ReadOnly.{IsBound}
use osc_bsu_csi_driver.Driver.Node.Publish.Mounted.{MountedAt, IsBindable}
use osc_bsu_csi_driver.Driver.Node.Publish.Again.{node_publish_volume-again}
use osc_bsu_csi_driver.Examples.Box.{Box, host, mounting, mounted_lem}

-- There is a file at "/", at "/pod", at the device, and at each mount.
abbrev shared : Host Box
shared = record host {
  stat = λ p s. ((if p == "/" || p == "/pod" then ok tt else (host.stat p s).0), s);
  is_likely_not_mount_point =
      λ p s. (ok (elim (lookup p s.mounts) [ some _ ↦ false | none ↦ true ]), s);
  do_mount = λ source target fs_type options s.
      if is_device target
      then (err (errorf "not a folder"), s)
      else (ok tt, record s { mounts = insert target source s.mounts });
}

-- filepath.Dir, of a file in "/".
abbrev dir : String → String
dir p = "/"

SameDevices-mounts :
    (s₀ s : Box) (target source format : String)
    → is_device target ≡ false
    → SameDevices shared s₀ s
    → SameDevices shared s₀ (record { mounts = insert target source s.mounts; format = format })
SameDevices-mounts s₀ s target source format other same = record {
  stat = λ p d. rw (mounting p target source s.mounts d other, host) (same.stat p d);
  lstat = λ p d. refl;
  eval_symlinks = λ p d. refl;
}

shared-IsSteady : IsSteady shared
shared-IsSteady = record {
  stat = λ p s. refl;
  lstat = λ p s. refl;
  eval_symlinks = λ p s. refl;
  get_device_name = λ p s. refl;
  mkdir_all = λ s₀ p. keeping (λ s h. h);
  run = λ s₀ c.
      keeping (λ s h. record { stat = h.stat; lstat = h.lstat; eval_symlinks = h.eval_symlinks });
  get_disk_format = λ s₀ disk. keeping (λ s h. h);
  format_and_mount = λ s₀ source target fs_type options. keeping (λ s h.
      elim (Bool-cases (is_device target)) [
        | inl device ↦ rw device h
        | inr other ↦ rw other (SameDevices-mounts s₀ s target source _ other h)
      ]);
  mounted = λ source target fs_type options s s' h. elim (Bool-cases (is_device target)) [
    | inl device ↦ ground (arith, device, h)
    | inr other ↦ (
      pos 1,
      ap (λ r. ok (or_zero "" (lookup target r.1.mounts), pos 1)) (sym (rw other at h))
          ∙ ap (λ o. ok (or_zero "" o, pos 1)) (mounted_lem target source s.mounts),
    )
  ];
  there = λ target device n s found full. elim (Option-cases (lookup target s.mounts)) [
    | inl nothing ↦ absurd (full (ground (arith, found, nothing)))
    | inr (v, is_v) ↦ ground (arith, is_v)
  ];
}

shared-IsBound : (s₀ : Box) → IsBound shared false (SameDevices shared s₀)
shared-IsBound s₀ = record {
  calls = record {
    stat = λ p. keeping (λ s h. h);
    lstat = λ p. keeping (λ s h. h);
    eval_symlinks = λ p. keeping (λ s h. h);
    mkdir_all = λ p. keeping (λ s h. h);
    run = λ c f. shared-IsSteady.run s₀ c;
    get_device_name = λ p. keeping (λ s h. h);
    format_and_mount = shared-IsSteady.format_and_mount s₀;
    get_disk_format = λ disk. keeping (λ s h. h);
  };
  open_file = λ p. keeping (λ s h. h);
  remove = λ p. keeping (λ s h. h);
  unmount = λ p. keeping (λ s h. h);
  is_likely_not_mount_point = λ p. keeping (λ s h. h);
  do_mount = λ source target fs_type options bound. keeping (λ s h.
      elim (Bool-cases (is_device target)) [
        | inl device ↦ rw device h
        | inr other ↦ rw other (SameDevices-mounts s₀ s target source s.format other h)
      ]);
}

shared-detected :
    (source target fs_type : String) (options : List String) (s s' : Box)
    → shared.do_mount source target fs_type options s ≡ (ok tt, s')
    → MountedAt shared target s'
shared-detected source target fs_type options s s' h = elim (Bool-cases (is_device target)) [
  | inl device ↦ ground (arith, device, h)
  | inr other ↦ ground (arith, other, h, mounted_lem target source s.mounts)
]

abbrev request : NodePublishVolumeRequest
request = record {
  volume_id = "vol-1";
  staging_target_path = "/mnt";
  target_path = "/pod";
  volume_capability = some (record { access_mode = some single_node_writer; access_type = block });
  readonly = false;
  publish_context = (device_path_key, "/dev/xvdb") ∷ [];
}

shared-IsBindable : IsBindable shared dir request.staging_target_path request.target_path
shared-IsBindable = record {
  looked = λ p s. refl;
  detected = λ source fs_type options s s' h. shared-detected source "/pod" fs_type options s s' h;
  made_again = λ p s s' h. refl;
  made_anew = λ p e s failed. cc;
  folder_mount = λ fs_type options s s' h. refl;
  opened_again = λ p s s' h. refl;
  opened_new = λ p e s failed. refl;
  opened_there = λ s s' h. (refl, refl);
  file_mount = λ source options s s' opens h. refl;
}

abbrev start : Box
start = record { mounts = []; format = "ext4" }

abbrev published : Box
published = record { mounts = ("/pod", "/dev/xvdb") ∷ []; format = "ext4" }

published_lem : node_publish_volume shared dir request start ≡ (ok tt, published)
unfolding node_publish_volume publish_capability publish_access publish_device mount_unless_mounted
    is_mounted find_device_path exists_path make_file make_dir is_valid_volume_capabilities
    all_supported has_support lookup insert
published_lem = refl

given :
    (path : String)
    → lookup device_path_key request.publish_context ≡ some path
    → has_prefix path "/dev/xvd" ≡ true
unfolding lookup
given path found =
    let same : ◌≡◌ {A = String} "/dev/xvdb" path = cc in
    subst (λ p. has_prefix p "/dev/xvd" ≡ true) same refl

node_publish_volume-again_example :
    node_publish_volume shared dir request published ≡ (ok tt, published)
node_publish_volume-again_example =
    node_publish_volume-again shared dir request shared-IsBindable shared-IsSteady shared-IsBound
      start published given published_lem
