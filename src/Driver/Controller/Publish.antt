-- ===== src/Driver/Controller/Publish.antt =====
-- pkg/driver/controller.go: publishing a volume to a node, and taking it back.
pub mod Success
pub mod Detached
use osc_bsu_csi_driver.Prelude.{
  String, Bool, true, false, not, Option, none, some, [], ◌∷◌, ◌==◌, if◌then◌else◌,
}
use osc_bsu_csi_driver.Go.Dict.{Dict, insert}
use osc_bsu_csi_driver.Go.Error.{
  GoError, status, invalid_argument, internal, not_found_code, already_exists_code, is_not_found,
  is_already_exists,
}
use osc_bsu_csi_driver.Go.Act.{Act, pure, raise, attempt, ◌>>=◌, ◌>>◌}
use osc_bsu_csi_driver.Cloud.Interface.{Cloud}
use osc_bsu_csi_driver.Driver.Requests.{PublishRequest, VolumeCapability, device_path_key}
use osc_bsu_csi_driver.Driver.Controller.Requirements.{is_valid_volume_capabilities}

-- What `ControllerPublishVolume` answers where the disk cannot be read.
unfoldable pub read_failed : GoError → GoError
read_failed e =
    if is_not_found e
    then status not_found_code "Volume not found"
    else status internal "Could not get volume with ID %q: %v"

-- What it answers where the disk cannot be attached.
unfoldable pub attach_failed : GoError → GoError
attach_failed e =
    if is_already_exists e
    then status already_exists_code "Resource already exists"
    else status internal "Could not attach volume %q to node %q: %v"

module _ {S : Type 0} (cloud : Cloud S) where
  unfoldable pub attach : PublishRequest → Act S (Dict String)
  attach req =
      attempt (cloud.attach_disk req.volume_id req.node_id)
        (λ path. pure (insert device_path_key path req.volume_context))
        (λ e. raise (attach_failed e))

  -- `ControllerPublishVolume` after its checks of the request. The result is the publish context.
  unfoldable pub publish : PublishRequest → Act S (Dict String)
  publish req = do
    exists ← cloud.is_exist_instance req.node_id
    if not exists
        then raise (status not_found_code "Instance %q not found")
        else attempt (cloud.get_disk_by_id req.volume_id) (λ _. attach req)
            (λ e. raise (read_failed e))

  unfoldable pub controller_publish_volume : PublishRequest → Act S (Dict String)
  controller_publish_volume req =
      if req.volume_id == ""
      then raise (status invalid_argument "Volume ID not provided")
      else if req.node_id == ""
      then raise (status invalid_argument "Node ID not provided")
      else elim req.volume_capability [
        | none ↦ raise (status invalid_argument "Volume capability not provided")
        | some cap ↦
            if not (is_valid_volume_capabilities (cap ∷ []))
            then raise (status invalid_argument "Volume capability not supported")
            else publish req
      ]

  unfoldable pub controller_unpublish_volume : String → String → Act S (Unit {0})
  controller_unpublish_volume volume_id node_id =
      if volume_id == ""
      then raise (status invalid_argument "Volume ID not provided")
      else if node_id == ""
      then raise (status invalid_argument "Node ID not provided")
      else attempt (cloud.detach_disk volume_id node_id) (λ _. pure tt)
          (λ e.
            if is_not_found e
            then pure tt
            else raise (status internal "Could not detach volume %q from node %q: %v"))
