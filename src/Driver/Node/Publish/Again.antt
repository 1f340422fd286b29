-- ===== src/Driver/Node/Publish/Again.antt =====
-- Publishing a volume again.
use osc_bsu_csi_driver.Prelude.{
  String, ◌≡◌, refl, true, arith, Option-cases, inl, inr, Option, none, some, List, [], ◌∷◌, not,
  ◌==◌,
}
use osc_bsu_csi_driver.Go.Strings.{has_prefix}
use osc_bsu_csi_driver.Go.Dict.{lookup}
use osc_bsu_csi_driver.Go.Act.{ok}
use osc_bsu_csi_driver.Go.Act.Success.{
  Runs, or_fail-Runs, attempt-Runs, unless-Runs, if-raise-Runs, Keeps-Runs,
}
use osc_bsu_csi_driver.Driver.Requests.{
  VolumeCapability, AccessType, not_set, block, mount, MountVolume, device_path_key,
}
use osc_bsu_csi_driver.Driver.Controller.Requirements.{is_valid_volume_capabilities}
use osc_bsu_csi_driver.Driver.Node.Host.{Host}
use osc_bsu_csi_driver.Driver.Node.Mounter.{make_file, make_dir, exists_path}
use osc_bsu_csi_driver.Driver.Node.Devices.{find_device_path}
use osc_bsu_csi_driver.Driver.Node.Devices.Steady.{
  IsSteady, SameDevices, SameDevices-refl, find_device_path-same,
}
use osc_bsu_csi_driver.Driver.Node.Publish.{
  NodePublishVolumeRequest, bind_options, publish_device, node_publish_volume_for_file_system,
  publish_access, publish_capability, node_publish_volume,
}
use osc_bsu_csi_driver.Driver.Node.Publish.ReadOnly.{
  IsBound, publish_device-Keeps, bind_options-is_bind,
}
use osc_bsu_csi_driver.Driver.Node.Publish.Mounted.{
  IsBindable, remove_target-never, mount_unless_mounted-again, mount_staged, file_made,
  mount_at_file,
}

module _ {H : Type 0} (host : Host H) (dir : String → String) (req : NodePublishVolumeRequest)
    (laws : IsBindable host dir req.staging_target_path req.target_path) (steady : IsSteady host)
    (bound : (s₀ : H) → IsBound host req.readonly (SameDevices host s₀)) where
  file_system-again :
      (options : List String) (m : Option MountVolume) (s s' : H)
      → Runs (node_publish_volume_for_file_system host req options m) s tt s'
      → Runs (node_publish_volume_for_file_system host req options m) s' tt s'
  unfolding node_publish_volume_for_file_system
  file_system-again options m s s' h =
      let (_, t, made, h₁) = or_fail-Runs (make_dir host req.target_path) _ _ s tt s' h in
      let (there, again) =
        mount_staged host dir req.staging_target_path req.target_path laws _ _ s t s' made h₁ in
      rw (
        again,
        mount_unless_mounted-again host dir req.staging_target_path req.target_path laws _ _ _ s'
            there,
      )

  device-again :
      (path : String) (s s' : H)
      → has_prefix path "/dev/xvd" ≡ true
      → Runs
          (publish_device host (dir req.target_path) req (bind_options req.readonly) (some path))
          s
          tt
          s'
      → Runs
          (publish_device host (dir req.target_path) req (bind_options req.readonly) (some path))
          s'
          tt
          s'
  unfolding publish_device
  device-again path s s' device h =
      let same =
        Keeps-Runs (SameDevices host s)
          (publish_device host (dir req.target_path) req (bind_options req.readonly) (some path)) s
          tt s'
          (publish_device-Keeps host (SameDevices host s) req.readonly (bound s)
            (dir req.target_path) req (bind_options req.readonly) (some path)
            (bind_options-is_bind req.readonly))
          (SameDevices-refl host steady s) h in
      let (source, t₁, looked, h₁) = or_fail-Runs (find_device_path host path) _ _ s tt s' h in
      let (exists, t₂, _, h₂) =
        or_fail-Runs (exists_path host (dir req.target_path)) _ _ t₁ tt s' h₁ in
      let (t₃, _, h₃) = unless-Runs exists _ _ t₂ tt s' h₂ in
      let (_, t₄, made, h₄) =
        attempt-Runs (make_file host req.target_path) _ _ t₃ tt s'
          (λ e. remove_target-never host dir req.staging_target_path req.target_path laws _ _) h₃ in
      let opens = file_made host dir req.staging_target_path req.target_path laws t₃ t₄ made in
      let (there, file, folder) =
        mount_at_file host dir req.staging_target_path req.target_path laws source _ t₄ s' opens
          h₄ in
      let (_, again, _) =
        find_device_path-same host steady path source s t₁ s' device same looked in
      rw (
        again,
        folder,
        file,
        mount_unless_mounted-again host dir req.staging_target_path req.target_path laws source _ _
            s' there,
      )

  -- The device path of the request, where it has one, is one of those that the controller gives.
  abbrev DeviceGiven : Type 0
  DeviceGiven =
      (path : String)
      → lookup device_path_key req.publish_context ≡ some path
      → has_prefix path "/dev/xvd" ≡ true

  publish_access-again :
      (access : AccessType) (s s' : H)
      → DeviceGiven
      → Runs (publish_access host dir req access) s tt s'
      → Runs (publish_access host dir req access) s' tt s'
  unfolding publish_access publish_device
  publish_access-again not_set s s' given h = refl
  publish_access-again (mount m) s s' given h =
      file_system-again (bind_options req.readonly) m s s' h
  publish_access-again block s s' given h =
      elim (Option-cases (lookup device_path_key req.publish_context)) [
        | inl absent ↦ ground (arith, absent, h)
        | inr (path, found) ↦ rw found (device-again path s s' (given path found) (rw found at h))
      ]

  publish_capability-again :
      (capability : Option VolumeCapability) (s s' : H)
      → DeviceGiven
      → Runs (publish_capability host dir req capability) s tt s'
      → Runs (publish_capability host dir req capability) s' tt s'
  unfolding publish_capability
  publish_capability-again none s s' given h = cc
  publish_capability-again (some cap) s s' given h =
      let (valid, h₁) =
        if-raise-Runs (not (is_valid_volume_capabilities (cap ∷ []))) _ _ s tt s' h in
      rw valid (publish_access-again cap.access_type s s' given h₁)

  -- On a host where looking at files changes nothing, the files of devices stay, files and folders
  -- that were made are there when they are made again, and a look for a mount sees what was mounted at
  -- the target (it misses bind mounts within one device): where `NodePublishVolume` has succeeded, as a
  -- file system or as a block device, and the device path of the request, if it has one, is one of
  -- `/dev/xvd`, the same request succeeds again and changes nothing, so that nothing is mounted twice.
  pub node_publish_volume-again :
      (s s' : H)
      → ((path : String)
          → lookup device_path_key req.publish_context ≡ some path
          → has_prefix path "/dev/xvd" ≡ true)
      → node_publish_volume host dir req s ≡ (ok tt, s')
      → node_publish_volume host dir req s' ≡ (ok tt, s')
  unfolding node_publish_volume
  node_publish_volume-again s s' given h =
      let (named, h₁) = if-raise-Runs (req.volume_id == "") _ _ s tt s' h in
      let (staged, h₂) = if-raise-Runs (req.staging_target_path == "") _ _ s tt s' h₁ in
      let (aimed, h₃) = if-raise-Runs (req.target_path == "") _ _ s tt s' h₂ in
      rw (named, staged, aimed) (publish_capability-again req.volume_capability s s' given h₃)
