-- ===== src/Driver/Controller/Volumes/Built.antt =====
-- `CreateVolume` over the Outscale API, where there is no volume of the name.
use mathlib.Core.Path.{subst}
use osc_bsu_csi_driver.Prelude.{String, ◌≡◌, ap, sym, ◌∙◌, true, none, some, arith, eq_iff}
use osc_bsu_csi_driver.Go.Dict.{Dict, lookup}
use osc_bsu_csi_driver.Go.Int.{ℤ}
use osc_bsu_csi_driver.Go.Act.{ok}
use osc_bsu_csi_driver.Go.Act.Success.{Runs}
use osc_bsu_csi_driver.Cloud.Types.{Disk, volume_name_tag_key}
use osc_bsu_csi_driver.Cloud.Platform.{Platform}
use osc_bsu_csi_driver.Cloud.Retry.{State}
use osc_bsu_csi_driver.Cloud.Volumes.{get_disk_by_name}
use osc_bsu_csi_driver.Cloud.Volumes.Creation.{PollsUntil, Created, create_disk-Created}
use osc_bsu_csi_driver.Cloud.Interface.{osc_cloud}
use osc_bsu_csi_driver.Driver.Options.{DriverOptions, validate_driver_options}
use osc_bsu_csi_driver.Driver.Requests.{CreateVolumeRequest, CreateVolumeResponse}
use osc_bsu_csi_driver.Driver.Controller.Parameters.{Parameters, context_extra}
use osc_bsu_csi_driver.Driver.Controller.Requirements.{get_vol_size_bytes}
use osc_bsu_csi_driver.Driver.Controller.Volumes.{
  create_volume, disk_options, new_create_volume_response,
}
use osc_bsu_csi_driver.Driver.Controller.Volumes.Create.{WellFormed, disk_options_name_tag}
use osc_bsu_csi_driver.Driver.Controller.Volumes.Answer.{
  Origin, reused, fresh, absent, create_volume-Provisioned,
}

-- An answer that shows a disk which was created for it, from the state `s₁` to `s'`.
pub record Built {World : Type 0} (p : Platform World) (region : String)
    (to_lower : String → String) (o : DriverOptions) (req : CreateVolumeRequest) (size : ℤ)
    (r : CreateVolumeResponse) (s₁ s' : State World) : Type 0 where
  pub q : Parameters
  pub snapshot_id : String
  pub well_formed : WellFormed to_lower req size q snapshot_id
  pub disk : Disk
  pub answer : r ≡ new_create_volume_response disk (context_extra q)
  pub created :
      Created p region (disk_options o.extra_volume_tags req size q snapshot_id) disk s₁ s'
  pub name_tag :
      lookup volume_name_tag_key (disk_options o.extra_volume_tags req size q snapshot_id).tags
      ≡ some req.name

module _ {World : Type 0} (visit : Dict String → Dict String) (p : Platform World)
    (laws : PollsUntil p) (region : String) (to_lower : String → String) (o : DriverOptions)
    (req : CreateVolumeRequest) where
  created_of :
      (size : ℤ) (q : Parameters) (snapshot_id : String) (disk : Disk) (s s' : State World)
      → absent (get_disk_by_name p req.name size s).0 ≡ true
      → Origin to_lower
          (osc_cloud visit p region)
          o.extra_volume_tags
          req
          size
          q
          snapshot_id
          disk
          s
          s'
      → Created p region
          (disk_options o.extra_volume_tags req size q snapshot_id)
          disk
          (get_disk_by_name p req.name size s).1
          s'
  created_of size q snapshot_id disk s s' missing (reused found id of_snapshot) =
      absurd (id ((eq_iff disk.volume_id "").0 (sym (ap (λ t. absent t.0) found) ∙ missing)))
  created_of size q snapshot_id disk s s' missing (fresh _ ran) =
      create_disk-Created p laws region req.name
        (disk_options o.extra_volume_tags req size q snapshot_id) disk
        (get_disk_by_name p req.name size s).1 s' ran

  -- With a poll as documented and options that pass the validation: where the look for a volume of
  -- the request's name finds none, and `CreateVolume` answers, the request is well formed, and the
  -- answer shows a disk that was created with the options of the request, of which the tags hold the
  -- name; it has an id and a size from the reply of the API, and the last read says it is available.
  pub create_volume-Built :
      (size : ℤ) (r : CreateVolumeResponse) (s s' : State World)
      → validate_driver_options o ≡ none
      → get_vol_size_bytes req.capacity_range ≡ ok size
      → absent (get_disk_by_name p req.name size s).0 ≡ true
      → Runs (create_volume to_lower (osc_cloud visit p region) o.extra_volume_tags req) s r s'
      → Built p region to_lower o req size r (get_disk_by_name p req.name size s).1 s'
  create_volume-Built size r s s' valid sized missing h =
      let v =
        create_volume-Provisioned to_lower (osc_cloud visit p region) o.extra_volume_tags req r s s'
          h in
      let same : v.size ≡ size = ground (arith, v.well_formed.sized, sized) in
      subst (λ n. Built p region to_lower o req n r (get_disk_by_name p req.name n s).1 s') same
        (record {
          q = v.q;
          snapshot_id = v.snapshot_id;
          well_formed = v.well_formed;
          disk = v.disk;
          answer = v.answer;
          created =
              created_of v.size v.q v.snapshot_id v.disk s s'
                (ap (λ n. absent (get_disk_by_name p req.name n s).0) same ∙ missing) v.origin;
          name_tag = disk_options_name_tag o req v.size v.q v.snapshot_id valid;
        })
