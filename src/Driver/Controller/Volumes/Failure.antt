-- ===== src/Driver/Controller/Volumes/Failure.antt =====
-- How `CreateVolume` fails over the Outscale API, where there is no volume of the name.
use osc_bsu_csi_driver.Prelude.{
  String, ◌≡◌, refl, ap, sym, ◌∙◌, true, false, arith, eq_iff, ◌==◌, inl, inr,
}
use osc_bsu_csi_driver.Go.Dict.{Dict}
use osc_bsu_csi_driver.Go.Int.{ℤ}
use osc_bsu_csi_driver.Go.Error.{GoError, status, internal, is_not_found}
use osc_bsu_csi_driver.Go.Act.{
  Result, Result-cases, ok, err, panic, Act, pure, raise, handle, attempt,
}
use osc_bsu_csi_driver.Cloud.Types.{Disk, is_nil_disk, nil_disk}
use osc_bsu_csi_driver.Cloud.Platform.{Platform, BacksOff}
use osc_bsu_csi_driver.Cloud.Retry.{State}
use osc_bsu_csi_driver.Cloud.Volumes.{create_disk, get_disk_by_name}
use osc_bsu_csi_driver.Cloud.Volumes.Errors.{missing, create_disk_never_missing}
use osc_bsu_csi_driver.Cloud.Interface.{Cloud, osc_cloud}
use osc_bsu_csi_driver.Driver.Requests.{CreateVolumeRequest, CreateVolumeResponse}
use osc_bsu_csi_driver.Driver.Controller.Parameters.{Parameters, context_extra}
use osc_bsu_csi_driver.Driver.Controller.Volumes.{
  create_volume, create_or_reuse, creation_failed, disk_options, new_create_volume_response,
}
use osc_bsu_csi_driver.Driver.Controller.Volumes.Create.{WellFormed}
use osc_bsu_csi_driver.Driver.Controller.Volumes.Answer.{absent}

module _ {S : Type 0} (to_lower : String → String) (cloud : Cloud S) (extra_tags : Dict String)
    (req : CreateVolumeRequest) (size : ℤ) (q : Parameters) (snapshot_id : String)
    (w : WellFormed to_lower req size q snapshot_id) where
  -- The creation of the disk, and what `CreateVolume` makes of it.
  abbrev pub creating : Act S CreateVolumeResponse
  creating =
      attempt (cloud.create_disk req.name (disk_options extra_tags req size q snapshot_id))
        (λ made. pure (new_create_volume_response made (context_extra q)))
        (λ e. raise (creation_failed e))

  create_or_reuse-creating :
      (found : Disk) (s : S)
      → is_nil_disk found ≡ true
      → create_or_reuse to_lower cloud extra_tags req size found s ≡ creating s
  unfolding create_or_reuse
  create_or_reuse-creating found s nil = rw (w.parsed, w.sourced, nil) refl

  -- A well-formed request for which no disk is found comes to the creation of one.
  pub create_volume-creating :
      (s : S)
      → absent (cloud.get_disk_by_name req.name size s).0 ≡ true
      → create_volume to_lower cloud extra_tags req s
        ≡ creating (cloud.get_disk_by_name req.name size s).1
  unfolding create_volume disk_options
  create_volume-creating s none_found =
      let name : (req.name == "") ≡ false = ground (arith, eq_iff req.name "", w.named) in
      elim (Result-cases (cloud.get_disk_by_name req.name size s).0) [
        | inl (found, is_found) ↦
            rw (name, w.sized, w.capable, w.supported, is_found)
              (create_or_reuse-creating found _ (sym (ap absent is_found) ∙ none_found))
        | inr (inl (e, failed)) ↦
            let is_missing : is_not_found e ≡ true = sym (ap absent failed) ∙ none_found in
            rw (name, w.sized, w.capable, w.supported, failed, is_missing)
              (create_or_reuse-creating nil_disk _ refl)
        | inr (inr panicked) ↦ cc (panicked, none_found)
      ]

creation_error :
    {S A B : Type 0} (r : Result A) (f : A → B) (s : S) (e : GoError)
    → missing r ≡ false
    → (handle r (λ a. pure (f a)) (λ e. raise (creation_failed e)) s).0 ≡ err e
    → e ≡ status internal "Could not create volume %q: %v"
unfolding creation_failed
creation_error (ok a) f s e h k = cc
creation_error (err e') f s e h k = ground (arith, h, k)
creation_error panic f s e h k = cc

module _ {World : Type 0} (visit : Dict String → Dict String) (p : Platform World)
    (laws : BacksOff p) (region : String) (to_lower : String → String)
    (extra_tags : Dict String) where
  -- With a backoff as documented: where no disk is found for a well-formed request, an error of
  -- `CreateVolume` is Internal, whatever the API says of the creation, and never NotFound.
  pub create_volume_fails :
      (req : CreateVolumeRequest) (size : ℤ) (q : Parameters) (snapshot_id : String)
      (s : State World) (e : GoError)
      → WellFormed to_lower req size q snapshot_id
      → absent (get_disk_by_name p req.name size s).0 ≡ true
      → (create_volume to_lower (osc_cloud visit p region) extra_tags req s).0 ≡ err e
      → e ≡ status internal "Could not create volume %q: %v"
  create_volume_fails req size q snapshot_id s e w none_found failed =
      let options = disk_options extra_tags req size q snapshot_id in
      let s₁ = (get_disk_by_name p req.name size s).1 in
      creation_error (create_disk p region req.name options s₁).0
        (λ made. new_create_volume_response made (context_extra q))
        (create_disk p region req.name options s₁).1 e
        (create_disk_never_missing p laws region req.name options s₁)
        (sym (
            ap (λ t. t.0)
              (create_volume-creating to_lower (osc_cloud visit p region) extra_tags req size q
                snapshot_id w s none_found))
          ∙ failed)
