-- ===== src/Examples/Controllers.antt =====
-- The controller over a cloud that has one disk, and whose state counts the calls.
use osc_bsu_csi_driver.Prelude.{
  String, ℕ, suc, ◌+◌, ◌*◌, ◌^◌, ◌≡◌, ◌≢◌, refl, true, none, some, [], ◌∷◌, arith, eq_iff, inr,
}
use mathlib.Core.Bool.{false≢true}
use osc_bsu_csi_driver.Go.Dict.{Dict, lookup, insert}
use osc_bsu_csi_driver.Go.Int.{pos}
use osc_bsu_csi_driver.Go.Error.{status, invalid_argument}
use osc_bsu_csi_driver.Go.Act.{ok, err}
use osc_bsu_csi_driver.Util.Size.{gib}
use osc_bsu_csi_driver.Cloud.Types.{Disk, nil_snapshot}
use osc_bsu_csi_driver.Cloud.Interface.{Cloud}
use osc_bsu_csi_driver.Driver.Requests.{
  encrypted_key, luks_hash_key, luks_cipher_key, luks_key_size_key, CreateVolumeRequest,
  VolumeCapability, from_snapshot, single_node_writer, block, PublishRequest, device_path_key,
}
use osc_bsu_csi_driver.Driver.Node.Stage.{is_encrypted, luks_context}
use osc_bsu_csi_driver.Driver.Node.Stage.Context.{luks_of, controller_publish_volume-luks_context}
use osc_bsu_csi_driver.Driver.Controller.Parameters.{Parameters, no_parameters, context_extra}
use osc_bsu_csi_driver.Driver.Controller.Requirements.{
  has_support, all_supported, is_valid_volume_capabilities,
}
use osc_bsu_csi_driver.Driver.Controller.Requirements.Laws.{IsSingleWriter}
use osc_bsu_csi_driver.Driver.Controller.Volumes.{controller_expand_volume}
use osc_bsu_csi_driver.Driver.Controller.Volumes.Expand.{
  expand_limit_ignored, expand_refuses_below_limit,
}
use osc_bsu_csi_driver.Driver.Controller.Publish.{attach, publish, controller_publish_volume}
use osc_bsu_csi_driver.Driver.Controller.Publish.Success.{
  Published, controller_publish_volume-Published,
}

abbrev disk : Disk
disk = record {
  volume_id = "vol-1";
  capacity_gib = pos 100;
  availability_zone = "eu-west-2a";
  snapshot_id = "snap-1";
}

abbrev cloud : Cloud ℕ
cloud = record {
  create_disk = λ name o s. (ok disk, suc s);
  delete_disk = λ id s. (ok true, suc s);
  attach_disk = λ id node s. (ok "/dev/xvdb", suc s);
  detach_disk = λ id node s. (ok tt, suc s);
  resize_disk = λ id size s. (ok (pos 100), suc s);
  get_disk_by_name = λ name size s. (ok disk, suc s);
  get_disk_by_id = λ id s. (ok disk, suc s);
  is_exist_instance = λ node s. (ok true, suc s);
  create_snapshot = λ id tags s. (ok nil_snapshot, suc s);
  delete_snapshot = λ id s. (ok true, suc s);
  get_snapshot_by_name = λ name s. (ok nil_snapshot, suc s);
  get_snapshot_by_id = λ id s. (ok nil_snapshot, suc s);
  list_snapshots = λ id n token s. (ok (record { snapshots = []; next_token = "" }), suc s);
}

abbrev writer : VolumeCapability
writer = record { access_mode = some single_node_writer; access_type = block }

abbrev request : CreateVolumeRequest
request = record {
  name = "pvc-1";
  capacity_range = none;
  volume_capabilities = writer ∷ [];
  parameters = ("type", "gp2") ∷ [];
  volume_content_source = none;
  accessibility_requirements = none;
}

abbrev gp2 : Parameters
gp2 = record no_parameters { volume_type = "gp2" }

writer_supported : is_valid_volume_capabilities (writer ∷ []) ≡ true
unfolding is_valid_volume_capabilities all_supported has_support
writer_supported = refl

-- The disk of the cloud was made from this snapshot.
abbrev restored : CreateVolumeRequest
restored = record request { volume_content_source = some (from_snapshot (some "snap-1")) }

-- A limit of 3 GiB for 5 GiB is ignored.
expand_limit_ignored_example :
    controller_expand_volume cloud "vol-1"
      (some (record { required_bytes = pos (5 * gib); limit_bytes = pos (0 * 2 ^ 32 + 3 * gib) }))
      0
    ≡ controller_expand_volume cloud "vol-1"
        (some (record { required_bytes = pos (5 * gib); limit_bytes = pos 0 }))
        0
expand_limit_ignored_example =
    expand_limit_ignored cloud "vol-1" (pos (5 * gib)) 0 (3 * gib) 0 (inr (omega arith))
      (omega arith)

-- 5 GiB under a limit of 400 GiB and one byte are refused.
expand_refuses_below_limit_example :
    controller_expand_volume cloud "vol-1"
      (some
        (record { required_bytes = pos ((4 * 1 + 1) * gib); limit_bytes = pos (100 * 2 ^ 32 + 1) }))
      0
    ≡ (err (status invalid_argument "After round-up, volume size exceeds the limit specified"), 0)
expand_refuses_below_limit_example =
    expand_refuses_below_limit cloud "vol-1" 1 100 1 0 (λ e. false≢true ((eq_iff "vol-1" "").1 e))
      (omega arith) (omega arith) (omega arith)

abbrev to_publish : PublishRequest
to_publish = record {
  volume_id = "vol-1";
  node_id = "i-1";
  volume_capability = some writer;
  volume_context = [];
}

published :
    controller_publish_volume cloud to_publish 0 ≡ (ok ((device_path_key, "/dev/xvdb") ∷ []), 3)
unfolding controller_publish_volume publish attach insert
published = rw writer_supported refl

controller_publish_volume-Published_example :
    (to_publish.volume_id ≢ "")
    × (to_publish.node_id ≢ "")
    × ((cap : VolumeCapability) × (to_publish.volume_capability ≡ some cap) × IsSingleWriter cap)
    × Published cloud to_publish ((device_path_key, "/dev/xvdb") ∷ []) 3
controller_publish_volume-Published_example =
    controller_publish_volume-Published cloud to_publish ((device_path_key, "/dev/xvdb") ∷ []) 3 0
      published

-- A volume that is encrypted.
abbrev sealed : Parameters
sealed = record no_parameters { is_encrypted = true; luks_cipher = "aes"; luks_hash = "sha256" }

abbrev sealed_request : PublishRequest
sealed_request = record to_publish { volume_context = context_extra sealed }

abbrev sealed_context : Dict String
sealed_context =
    (encrypted_key, "true")
    ∷ (luks_hash_key, "sha256")
    ∷ (luks_cipher_key, "aes")
    ∷ (luks_key_size_key, "")
    ∷ (device_path_key, "/dev/xvdb")
    ∷ []

sealed_published : controller_publish_volume cloud sealed_request 0 ≡ (ok sealed_context, 3)
unfolding controller_publish_volume publish attach insert context_extra
sealed_published = rw writer_supported refl

controller_publish_volume-luks_context_example :
    (is_encrypted sealed_context ≡ true)
    × (true ≡ true → luks_context sealed_context ≡ luks_of sealed)
    × ((path : String) × (before : ℕ) × (cloud.attach_disk "vol-1" "i-1" before ≡ (ok path, 3))
        × (lookup device_path_key sealed_context ≡ some path))
controller_publish_volume-luks_context_example =
    controller_publish_volume-luks_context cloud sealed_request sealed_context 3 sealed 0 refl
      sealed_published
