-- ===== src/Cloud/Metadata/Laws.antt =====
-- What the metadata of a machine are, where there are any.
use text.Mathlib.TextBridge.{IsPrefix}
use text.Mathlib.TextEquality.{slice-prefix}
use Prim.Native.String.{len}
use osc_bsu_csi_driver.Prelude.{String, ◌≡◌, ◌≢◌, ◌-◌, ◌==◌, arith, eq_iff}
use osc_bsu_csi_driver.Go.Error.{errorf}
use osc_bsu_csi_driver.Go.Act.{ok, pure}
use osc_bsu_csi_driver.Go.Act.Success.{or_fail-Runs, if-raise-Runs, >>=-Runs, unless-Runs}
use osc_bsu_csi_driver.Cloud.Metadata.{
  Ec2Metadata, Metadata, region_of, get_valid, new_metadata_service,
}

module _ {W : Type 0} (svc : Ec2Metadata W) where
  -- An answer of the service that is not empty.
  abbrev pub Answers : String → String → Type 0
  Answers path value =
      (value ≢ "") × ((w : W) × (w' : W) × (svc.get_metadata path w ≡ (ok value, w')))

  get_valid-Answers :
      (path failure value : String) (w w' : W)
      → get_valid svc path failure w ≡ (ok value, w')
      → Answers path value
  get_valid-Answers path failure value w w' h =
      let (v, t, asked, rest) =
        or_fail-Runs (svc.get_metadata path) (errorf failure) _ w value w' h in
      let (full, same) = if-raise-Runs (v == "") (errorf failure) (pure v) t value w' rest in
      let is_value : v ≡ value = ground (arith, same) in
      ((λ e. ground (arith, eq_iff v "")), (w, t, rw (← is_value) asked))

  -- Where there are metadata, the identity, the type and the zone of the machine are answers of the
  -- metadata service and not empty; the region is not empty, and the zone begins with it.
  new_metadata_service-Answers :
      (m : Metadata) (w w' : W)
      → new_metadata_service svc w ≡ (ok m, w')
      → Answers "instance-id" m.instance_id
        × Answers "instance-type" m.instance_type
        × Answers "placement/availability-zone" m.availability_zone
        × (m.region ≢ "")
        × IsPrefix m.region m.availability_zone
  unfolding new_metadata_service
  new_metadata_service-Answers m w w' h =
      let (there, w₁, _, h₁) = >>=-Runs svc.available _ w m w' h in
      let (w₂, _, h₂) = unless-Runs there _ _ w₁ m w' h₁ in
      let (id, w₃, a₃, h₃) = >>=-Runs (get_valid svc "instance-id" _) _ w₂ m w' h₂ in
      let (type_of, w₄, a₄, h₄) = >>=-Runs (get_valid svc "instance-type" _) _ w₃ m w' h₃ in
      let (zone, w₅, a₅, h₅) =
        >>=-Runs (get_valid svc "placement/availability-zone" _) _ w₄ m w' h₄ in
      let (full, made) = if-raise-Runs (region_of zone == "") _ _ w₅ m w' h₅ in
      let is_m : record {
        instance_id = id;
        instance_type = type_of;
        region = region_of zone;
        availability_zone = zone;
      }
          ≡ m =
        ground (arith, made) in
      rw (← is_m) (
        get_valid-Answers "instance-id" "could not get valid EC2 instance ID" id w₂ w₃ a₃,
        get_valid-Answers "instance-type" "could not get valid EC2 instance type" type_of w₃ w₄ a₄,
        get_valid-Answers "placement/availability-zone" "could not get valid EC2 availavility zone"
            zone w₄ w₅ a₅,
        (λ e. ground (arith, full, eq_iff (region_of zone) "")),
        slice-prefix zone (len zone - 1),
      )
