-- ===== src/Driver/Controller/Volumes/Again.antt =====
-- `CreateVolume` once more, over the Outscale API.
use osc_bsu_csi_driver.Prelude.{
  String, ◌≡◌, ◌≢◌, refl, ap, sym, ◌∙◌, true, Option, none, some, [], ◌∷◌, eq_iff, ◌==◌,
  if◌then◌else◌, Bool-cases, inl, inr,
}
use osc_bsu_csi_driver.Go.Dict.{Dict, or_zero}
use osc_bsu_csi_driver.Go.Int.{ℤ, pos, eqb_ℤ}
use osc_bsu_csi_driver.Go.Act.{ok}
use osc_bsu_csi_driver.Go.Act.Success.{Runs}
use osc_bsu_csi_driver.Util.Size.{bytes_to_gib, gib_to_bytes}
use osc_bsu_csi_driver.Cloud.Types.{Disk, volume_name_tag_key}
use osc_bsu_csi_driver.Cloud.Platform.{Platform, Volume, by_tag}
use osc_bsu_csi_driver.Cloud.Retry.{State}
use osc_bsu_csi_driver.Cloud.Read.{get_volume}
use osc_bsu_csi_driver.Cloud.Volumes.{get_disk_by_name, disk_of}
use osc_bsu_csi_driver.Cloud.Volumes.Creation.{PollsUntil, create_disk-Created}
use osc_bsu_csi_driver.Cloud.Interface.{osc_cloud}
use osc_bsu_csi_driver.Driver.Requests.{CreateVolumeRequest, CreateVolumeResponse, topology_key}
use osc_bsu_csi_driver.Driver.Controller.Parameters.{Parameters, context_extra}
use osc_bsu_csi_driver.Driver.Controller.Requirements.{get_vol_size_bytes}
use osc_bsu_csi_driver.Driver.Controller.Volumes.{
  create_volume, disk_options, new_create_volume_response,
}
use osc_bsu_csi_driver.Driver.Controller.Volumes.Create.{create_volume_reuses}
use osc_bsu_csi_driver.Driver.Controller.Volumes.Answer.{
  Origin, reused, fresh, create_volume-Provisioned,
}

-- A look for the name that gives the one volume of an answer, with the size that was asked for.
pub record ReadsBack {World : Type 0} (p : Platform World) (req : CreateVolumeRequest)
    (r : CreateVolumeResponse) (s s' : State World) : Type 0 where
  pub v : Volume
  pub read : Runs (get_volume p (by_tag volume_name_tag_key req.name)) s v s'
  pub id : or_zero "" v.volume_id ≡ r.volume_id
  pub asked :
      (size : ℤ)
      → get_vol_size_bytes req.capacity_range ≡ ok size
      → eqb_ℤ (or_zero (pos 0) v.size) (bytes_to_gib size) ≡ true
  pub capacity : gib_to_bytes (or_zero (pos 0) v.size) ≡ r.capacity_bytes
  pub zone : ((topology_key, or_zero "" v.subregion_name) ∷ []) ∷ [] ≡ r.accessible_topology
  pub snapshot : or_zero "" v.snapshot_id ≡ or_zero "" r.content_source

abbrev source_id : String → Option String
source_id id = if id == "" then none else some id

source_of : (id : String) → or_zero "" (source_id id) ≡ id
source_of id = elim (Bool-cases (id == "")) [
  | inl empty ↦ rw empty (sym ((eq_iff id "").0 empty))
  | inr full ↦ rw full refl
]

module _ {World : Type 0} (visit : Dict String → Dict String) (p : Platform World)
    (laws : PollsUntil p) (region : String) (to_lower : String → String) (extra_tags : Dict String)
    (req : CreateVolumeRequest) where
  -- The disk of an answer has an id, and was made from the snapshot of the request.
  origin_lem :
      (size : ℤ) (q : Parameters) (snapshot_id : String) (disk : Disk) (s s' : State World)
      → Origin to_lower (osc_cloud visit p region) extra_tags req size q snapshot_id disk s s'
      → (disk.volume_id ≢ "") × (disk.snapshot_id ≡ snapshot_id)
  unfolding disk_options
  origin_lem size q snapshot_id disk s s' (reused found id of_snapshot) = (id, of_snapshot)
  origin_lem size q snapshot_id disk s s' (fresh none_found ran) =
      let c =
        create_disk-Created p laws region req.name (disk_options extra_tags req size q snapshot_id)
          disk (get_disk_by_name p req.name size s).1 s' ran in
      (c.id, c.snapshot)

  same_response :
      (q : Parameters) (disk : Disk) (r : CreateVolumeResponse) (s s' : State World)
      (b : ReadsBack p req r s s')
      → r ≡ new_create_volume_response disk (context_extra q)
      → (disk.snapshot_id ≡ (disk_of p b.v).snapshot_id)
        × (new_create_volume_response (disk_of p b.v) (context_extra q) ≡ r)
  unfolding new_create_volume_response
  same_response q disk r s s' b answer =
      let snapshot : disk.snapshot_id ≡ (disk_of p b.v).snapshot_id =
        sym (source_of disk.snapshot_id)
        ∙ sym (ap (λ x. or_zero "" x.content_source) answer)
        ∙ sym b.snapshot in
      let source : source_id (disk_of p b.v).snapshot_id ≡ r.content_source =
        ap source_id (sym snapshot) ∙ sym (ap (λ x. x.content_source) answer) in
      (
        snapshot,
        (λ i. record {
          volume_id = b.id i;
          capacity_bytes = b.capacity i;
          volume_context = ap (λ x. x.volume_context) (sym answer) i;
          accessible_topology = b.zone i;
          content_source = source i;
        }),
      )

  found_again :
      (size : ℤ) (r : CreateVolumeResponse) (s s' : State World) (b : ReadsBack p req r s s')
      → get_vol_size_bytes req.capacity_range ≡ ok size
      → get_disk_by_name p req.name size s ≡ (ok (disk_of p b.v), s')
  unfolding get_disk_by_name
  found_again size r s s' b sized = rw (b.read, b.asked size sized) refl

  -- With a poll as documented: where `CreateVolume` has answered, and a look for the name then gives
  -- the volume of the answer, with the size that was asked for, the same request gets the same
  -- answer, and nothing is done beyond that look: no second volume is created.
  pub create_volume-again :
      (r : CreateVolumeResponse) (s s' s'' : State World)
      → Runs (create_volume to_lower (osc_cloud visit p region) extra_tags req) s r s'
      → ReadsBack p req r s' s''
      → Runs (create_volume to_lower (osc_cloud visit p region) extra_tags req) s' r s''
  unfolding new_create_volume_response
  create_volume-again r s s' s'' h b =
      let w =
        create_volume-Provisioned to_lower (osc_cloud visit p region) extra_tags req r s s' h in
      let (id, of_snapshot) = origin_lem w.size w.q w.snapshot_id w.disk s s' w.origin in
      let (snapshot, same) = same_response w.q w.disk r s' s'' b w.answer in
      let again =
        create_volume_reuses to_lower (osc_cloud visit p region) extra_tags req w.size w.q
          w.snapshot_id (disk_of p b.v) s' s'' w.well_formed
          (found_again w.size r s' s'' b w.well_formed.sized)
          (λ e. id (sym (ap (λ x. x.volume_id) w.answer) ∙ sym b.id ∙ e)) in
      let same_snapshot : ((disk_of p b.v).snapshot_id == w.snapshot_id) ≡ true =
        (eq_iff _ _).1 (sym snapshot ∙ of_snapshot) in
      rw same_snapshot at again ∙ ap (λ x. (ok x, s'')) same
