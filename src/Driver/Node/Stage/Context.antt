-- ===== src/Driver/Node/Stage/Context.antt =====
-- What the controller says of the encryption of a volume is what the node service reads.
use osc_bsu_csi_driver.Prelude.{String, ◌≡◌, true, some, ◌==◌, if◌then◌else◌, Bool-cases, inl, inr}
use osc_bsu_csi_driver.Go.Dict.{Dict, lookup}
use osc_bsu_csi_driver.Go.Act.{ok}
use osc_bsu_csi_driver.Cloud.Interface.{Cloud}
use osc_bsu_csi_driver.Driver.Requests.{
  PublishRequest, device_path_key, encrypted_key, luks_cipher_key, luks_hash_key, luks_key_size_key,
}
use osc_bsu_csi_driver.Driver.Controller.Parameters.{Parameters, context_extra}
use osc_bsu_csi_driver.Driver.Controller.Publish.{controller_publish_volume}
use osc_bsu_csi_driver.Driver.Controller.Publish.Success.{
  Published, controller_publish_volume-Published,
}
use osc_bsu_csi_driver.Driver.Node.Luks.{LuksContext}
use osc_bsu_csi_driver.Driver.Node.Stage.{is_encrypted, luks_context}

-- The settings of LUKS that the parameters give.
abbrev pub luks_of : Parameters → LuksContext
luks_of q = record { cipher = q.luks_cipher; hash = q.luks_hash; key_size = q.luks_key_size }

module _ {S : Type 0} (cloud : Cloud S) (req : PublishRequest) (ctx : Dict String) (s' : S) where
  Published-context :
      (p : Published cloud req ctx s') (q : Parameters) (k : String)
      → req.volume_context ≡ context_extra q
      → lookup k ctx ≡ (if device_path_key == k then some p.path else lookup k (context_extra q))
  Published-context p q k created = rw (← created) (p.context k)

  -- Where the volume context of a request is the one that `CreateVolume` makes of its parameters, and
  -- `ControllerPublishVolume` succeeds, the node service reads from the publish context that the
  -- volume is encrypted exactly if the parameters say so, then with their cipher, hash and key
  -- size, and the path that `AttachDisk` gave as the device path.
  pub controller_publish_volume-luks_context :
      (q : Parameters) (s : S)
      → req.volume_context ≡ context_extra q
      → controller_publish_volume cloud req s ≡ (ok ctx, s')
      → (is_encrypted ctx ≡ q.is_encrypted)
        × (q.is_encrypted ≡ true → luks_context ctx ≡ luks_of q)
        × ((path : String) × (before : S) × (cloud.attach_disk req.volume_id req.node_id before
              ≡ (ok path, s'))
            × (lookup device_path_key ctx ≡ some path))
  unfolding context_extra lookup
  controller_publish_volume-luks_context q s created published =
      let p = (controller_publish_volume-Published cloud req ctx s' s published).3 in
      (
        elim (Bool-cases q.is_encrypted) [
          | inl on ↦ rw (is_encrypted, Published-context p q encrypted_key created, on)
          | inr off ↦ rw (is_encrypted, Published-context p q encrypted_key created, off)
        ],
        (λ on. rw (
          Published-context p q luks_cipher_key created,
          Published-context p q luks_hash_key created,
          Published-context p q luks_key_size_key created,
          on,
        )),
        (p.path, p.before, p.attached, Published-context p q device_path_key created),
      )
