-- ===== src/Examples/Publishing.antt =====
-- A host that notes a mount which is not read-only.
use osc_bsu_csi_driver.Prelude.{◌≡◌, refl, true, some, [], ◌∷◌, if◌then◌else◌}
use osc_bsu_csi_driver.Go.Act.{ok}
use osc_bsu_csi_driver.Driver.Requests.{single_node_writer, mount}
use osc_bsu_csi_driver.Driver.Node.Host.{Host}
use osc_bsu_csi_driver.Go.Strings.{contains}
use osc_bsu_csi_driver.Driver.Controller.Requirements.{
  has_support, all_supported, is_valid_volume_capabilities,
}
use osc_bsu_csi_driver.Driver.Node.Mounter.{make_dir}
use osc_bsu_csi_driver.Driver.Node.Mounts.{is_mounted, add_mount_flags, has_mount_option}
use osc_bsu_csi_driver.Driver.Node.Publish.{
  NodePublishVolumeRequest, node_publish_volume, publish_capability, publish_access,
  node_publish_volume_for_file_system, mount_unless_mounted,
}
use osc_bsu_csi_driver.Driver.Node.Publish.ReadOnly.{stays_readonly, is_bind}
use osc_bsu_csi_driver.Examples.Box.{Box, host}

abbrev strict : Host Box
strict = record host {
  do_mount = λ source target fs_type options s.
      (ok tt, record s { format = if is_bind true options then s.format else "writable" });
}

abbrev request : NodePublishVolumeRequest
request = record {
  volume_id = "vol-1";
  staging_target_path = "/mnt";
  target_path = "/pod";
  volume_capability = some (record {
    access_mode = some single_node_writer;
    access_type = mount (some (record { fs_type = "ext4"; mount_flags = "noatime" ∷ [] }));
  });
  readonly = true;
  publish_context = [];
}

abbrev start : Box
start = record { mounts = []; format = "ext4" }

-- A flag "rw" comes after "ro", and the volume of a read-only request is mounted writable.
writable_test :
    (node_publish_volume strict
      (λ p. p)
      (record request {
        volume_capability = some (record {
          access_mode = some single_node_writer;
          access_type = mount (some (record { fs_type = "ext4"; mount_flags = "rw" ∷ [] }));
        });
      })
      start).1.format
    ≡ "writable"
unfolding stays_readonly contains node_publish_volume publish_capability publish_access
    node_publish_volume_for_file_system mount_unless_mounted is_mounted make_dir add_mount_flags
    has_mount_option is_valid_volume_capabilities all_supported has_support
writable_test = refl
