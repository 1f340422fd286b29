-- ===== src/Examples/Staging.antt =====
-- The node service on the host of `Box`.
use osc_bsu_csi_driver.Prelude.{String, ◌≡◌, refl, some, [], ◌∷◌}
use osc_bsu_csi_driver.Go.Dict.{lookup, insert, delete}
use osc_bsu_csi_driver.Go.Act.{ok}
use osc_bsu_csi_driver.Driver.Requests.{
  single_node_writer, mount, device_path_key, encrypted_key, luks_passphrase_key,
}
use osc_bsu_csi_driver.Driver.InFlight.{insert_request, delete_request}
use osc_bsu_csi_driver.Driver.Controller.Requirements.{
  has_support, all_supported, is_valid_volume_capabilities,
}
use osc_bsu_csi_driver.Driver.Node.Mounter.{make_dir, exists_path}
use osc_bsu_csi_driver.Driver.Node.Devices.{find_device_path}
use osc_bsu_csi_driver.Driver.Node.Mounts.{has_mount_option, add_mount_flags}
use osc_bsu_csi_driver.Driver.Node.Stage.{
  NodeStageVolumeRequest, NodeState, chosen_fs_type, make_xfs, mount_chosen, mount_source,
  stage_source, stage_device, stage_in_flight, stage_access, stage_capability, node_stage_volume,
}
use osc_bsu_csi_driver.Driver.Node.Stage.Formats.{formats, last_of}
use osc_bsu_csi_driver.Driver.Node.Stage.Safety.{node_stage_volume-formatless}
use osc_bsu_csi_driver.Driver.Node.Stage.Exclusion.{node_stage_volume-in_flight}
use osc_bsu_csi_driver.Driver.Node.Stage.Again.{node_stage_volume-again}
use osc_bsu_csi_driver.Examples.Box.{Box, is_disk, host, host-IsSteady, host-IsFormatted}

abbrev request : NodeStageVolumeRequest
request = record {
  volume_id = "vol-1";
  staging_target_path = "/mnt";
  volume_capability = some (record {
    access_mode = some single_node_writer;
    access_type = mount (some (record { fs_type = ""; mount_flags = "noatime" ∷ "noatime" ∷ [] }));
  });
  publish_context = (device_path_key, "/dev/xvdb") ∷ [];
  secrets = [];
}

abbrev text : NodeStageVolumeRequest → String
text req = req.volume_id

-- A disk without a format, and what staging makes of it.
abbrev blank : NodeState Box
blank = record { in_flight = []; host = record { mounts = []; format = "" } }

abbrev staged : NodeState Box
staged = record {
  in_flight = [];
  host = record { mounts = ("/mnt", "/dev/xvdb") ∷ []; format = "new" };
}

staged_lem : node_stage_volume host text request blank ≡ (ok tt, staged)
unfolding node_stage_volume stage_capability stage_access stage_in_flight stage_device stage_source
    mount_source mount_chosen make_xfs chosen_fs_type find_device_path exists_path make_dir
    insert_request delete_request lookup insert delete is_valid_volume_capabilities all_supported
    has_support formats last_of add_mount_flags has_mount_option
staged_lem = refl

given : lookup device_path_key request.publish_context ≡ some "/dev/xvdb"
unfolding lookup
given = refl

node_stage_volume-again_example :
    ((node_stage_volume host text request staged).0 ≡ ok tt)
    × ((node_stage_volume host text request staged).1.host ≡ staged.host)
node_stage_volume-again_example =
    node_stage_volume-again host host-IsSteady text request "/dev/xvdb" blank staged given refl
      staged_lem

-- A disk with a format.
abbrev formatted : NodeState Box
formatted = record { in_flight = []; host = record { mounts = []; format = "ext4" } }

node_stage_volume-in_flight_example :
    lookup "vol-1" (node_stage_volume host text request blank).1.in_flight
    ≡ lookup "vol-1" blank.in_flight
node_stage_volume-in_flight_example = node_stage_volume-in_flight host text request "vol-1" blank

-- The same for an encrypted volume, on a disk that `isLuks` knows.
abbrev encrypted_request : NodeStageVolumeRequest
encrypted_request = record request {
  publish_context = (device_path_key, "/dev/xvdb") ∷ (encrypted_key, "true") ∷ [];
  secrets = (luks_passphrase_key, "secret") ∷ [];
}

sealed_test : (node_stage_volume host text encrypted_request formatted).1.host.format ≡ "ext4"
sealed_test =
    node_stage_volume-formatless host is_disk (λ s. s.format ≡ "ext4") host-IsFormatted text
      encrypted_request formatted (λ encrypted path s e on h failed. cc) refl
