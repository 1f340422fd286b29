-- ===== src/Driver/Controller/Publish/Success.antt =====
-- What a published volume means.
use osc_bsu_csi_driver.Prelude.{
  String, ◌≡◌, ◌≢◌, ap, not, some, [], ◌∷◌, arith, eq_iff, ◌==◌, if◌then◌else◌, Bool-cases,
  Option-cases, inl, inr,
}
use osc_bsu_csi_driver.Go.Dict.{Dict, lookup, insert, lookup-insert}
use osc_bsu_csi_driver.Go.Act.{ok, pure, raise, attempt, >>=-ok, attempt-ok}
use osc_bsu_csi_driver.Go.Error.{status, not_found_code}
use osc_bsu_csi_driver.Cloud.Interface.{Cloud}
use osc_bsu_csi_driver.Driver.Requests.{PublishRequest, VolumeCapability, device_path_key}
use osc_bsu_csi_driver.Driver.Controller.Requirements.{is_valid_volume_capabilities}
use osc_bsu_csi_driver.Driver.Controller.Requirements.Laws.{IsSingleWriter, is_valid_iff}
use osc_bsu_csi_driver.Driver.Controller.Publish.{
  read_failed, attach_failed, attach, publish, controller_publish_volume,
}

-- A publish context: that of the request, with the path under which the volume was attached.
pub record Published {S : Type 0} (cloud : Cloud S) (req : PublishRequest) (ctx : Dict String)
    (s' : S) : Type 0 where
  pub path : String
  pub before : S
  pub attached : cloud.attach_disk req.volume_id req.node_id before ≡ (ok path, s')
  pub context :
      (k : String)
      → lookup k ctx ≡ (if device_path_key == k then some path else lookup k req.volume_context)

module _ {S : Type 0} (cloud : Cloud S) (req : PublishRequest) (ctx : Dict String) (s' : S) where
  attach-Published : (s : S) → attach cloud req s ≡ (ok ctx, s') → Published cloud req ctx s'
  unfolding attach
  attach-Published s h =
      let (path, ran, last) =
        attempt-ok (cloud.attach_disk req.volume_id req.node_id)
          (λ path. pure (insert device_path_key path req.volume_context))
          (λ e. raise (attach_failed e)) s ctx s' (λ e h. cc) h in
      let context : insert device_path_key path req.volume_context ≡ ctx = ground arith in
      let state : (cloud.attach_disk req.volume_id req.node_id s).1 ≡ s' = ap (λ t. t.1) last in
      record {
        path = path;
        before = s;
        attached = λ i. (ran i, state i);
        context = λ k. rw (← context) (lookup-insert device_path_key k path req.volume_context);
      }

  publish-Published : (s : S) → publish cloud req s ≡ (ok ctx, s') → Published cloud req ctx s'
  unfolding publish
  publish-Published s h =
      let (exists, _, rest) =
        >>=-ok (cloud.is_exist_instance req.node_id)
          (λ exists.
            if not exists
            then raise (status not_found_code "Instance %q not found")
            else attempt (cloud.get_disk_by_id req.volume_id) (λ _. attach cloud req)
                (λ e. raise (read_failed e)))
          s ctx s' h in
      elim (Bool-cases exists) [
        | inr absent ↦ ground arith
        | inl there ↦
            let (_, _, found) =
              attempt-ok (cloud.get_disk_by_id req.volume_id) (λ _. attach cloud req)
                (λ e. raise (read_failed e)) (cloud.is_exist_instance req.node_id s).1 ctx s'
                (λ e h. cc) (rw there at rest) in
            attach-Published
              (cloud.get_disk_by_id req.volume_id (cloud.is_exist_instance req.node_id s).1).1 found
      ]

  -- Where `ControllerPublishVolume` succeeds, the request names a volume and a node and asks for
  -- the mode SINGLE_NODE_WRITER, its last step was the attachment of that volume to that node, and
  -- the publish context is that of the request with the path of the attachment as the device path.
  pub controller_publish_volume-Published :
      (s : S)
      → controller_publish_volume cloud req s ≡ (ok ctx, s')
      → (req.volume_id ≢ "")
        × (req.node_id ≢ "")
        × ((cap : VolumeCapability) × (req.volume_capability ≡ some cap) × IsSingleWriter cap)
        × Published cloud req ctx s'
  unfolding controller_publish_volume
  controller_publish_volume-Published s h = elim (Bool-cases (req.volume_id == "")) [
    | inl no_volume ↦ ground arith
    | inr volume ↦ elim (Bool-cases (req.node_id == "")) [
      | inl no_node ↦ ground arith
      | inr node ↦ elim (Option-cases req.volume_capability) [
        | inl no_cap ↦ ground arith
        | inr (cap, given) ↦ elim (Bool-cases (is_valid_volume_capabilities (cap ∷ []))) [
          | inr bad ↦ ground arith
          | inl fine ↦ (
            (λ e. cc (volume, (eq_iff req.volume_id "").1 e)),
            (λ e. cc (node, (eq_iff req.node_id "").1 e)),
            (cap, given, ((is_valid_iff (cap ∷ [])).0 fine).0),
            publish-Published s (ground arith),
          )
        ]
      ]
    ]
  ]
