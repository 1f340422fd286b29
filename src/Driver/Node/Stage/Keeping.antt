-- ===== src/Driver/Node/Stage/Keeping.antt =====
-- The checks of a request that `NodeStageVolume` makes first change nothing.
use mathlib.Core.Path.{subst}
use osc_bsu_csi_driver.Prelude.{
  String, List, ◌≡◌, refl, sym, ◌⊎◌, inl, inr, Bool, true, false, if◌then◌else◌, Option, none, some,
  ◌==◌,
}
use osc_bsu_csi_driver.Go.Error.{GoError, status, invalid_argument}
use osc_bsu_csi_driver.Go.Act.{Act, pure, raise}
use osc_bsu_csi_driver.Go.Act.Keeps.{Keeps, Keeps-pure, Keeps-raise}
use osc_bsu_csi_driver.Driver.Requests.{VolumeCapability, AccessType, not_set, block, mount}
use osc_bsu_csi_driver.Driver.Node.Host.{Host}
use osc_bsu_csi_driver.Driver.Node.Stage.{
  NodeStageVolumeRequest, NodeState, stage_in_flight, stage_access, stage_capability,
  node_stage_volume,
}

module _ {H : Type 0} (host : Host H) (text : NodeStageVolumeRequest → String)
    (req : NodeStageVolumeRequest) where
  -- What `NodeStageVolume` comes to after its checks: staging, nothing, or an error.
  abbrev pub IsChecked : Act (NodeState H) (Unit {0}) → Type 0
  IsChecked m =
      ((requested : String) × (options : List String) × (m
          ≡ stage_in_flight host (text req) req requested options))
      ⊎ (m ≡ pure tt)
      ⊎ ((e : GoError) × (m ≡ raise e))

  stage_access-cases : (access : AccessType) → IsChecked (stage_access host (text req) req access)
  unfolding stage_access
  stage_access-cases block = inr (inl refl)
  stage_access-cases (mount (some m)) = inl (m.fs_type, _, refl)
  stage_access-cases (mount none) = inr (inr (_, refl))
  stage_access-cases not_set = inr (inr (_, refl))

  IsChecked-if :
      (b : Bool) (e : GoError) (m : Act (NodeState H) (Unit {0}))
      → IsChecked m
      → IsChecked (if b then raise e else m)
  IsChecked-if true e m h = inr (inr (e, refl))
  IsChecked-if false e m h = h

  stage_capability-cases :
      (capability : Option VolumeCapability)
      → IsChecked (stage_capability host (text req) req capability)
  unfolding stage_capability
  stage_capability-cases none = inr (inr (_, refl))
  stage_capability-cases (some cap) = IsChecked-if _ _ _ (stage_access-cases cap.access_type)

  -- The checks of `NodeStageVolume` depend on the request alone.
  pub node_stage_volume-cases : IsChecked (node_stage_volume host text req)
  unfolding node_stage_volume
  node_stage_volume-cases =
      IsChecked-if (req.volume_id == "") (status invalid_argument "Volume ID not provided") _ (
        IsChecked-if (req.staging_target_path == "")
          (status invalid_argument "Staging target not provided") _
          (stage_capability-cases req.volume_capability))

  -- What staging keeps while the request is in flight, `NodeStageVolume` keeps.
  pub node_stage_volume-Keeps :
      (P : NodeState H → Type 0)
      → ((requested : String) (options : List String)
          → Keeps P (stage_in_flight host (text req) req requested options))
      → Keeps P (node_stage_volume host text req)
  node_stage_volume-Keeps P in_flight = elim node_stage_volume-cases [
    | inl (requested, options, same) ↦ subst (Keeps P) (sym same) (in_flight requested options)
    | inr (inl nothing) ↦ subst (Keeps P) (sym nothing) (Keeps-pure P tt)
    | inr (inr (e, refused)) ↦ subst (Keeps P) (sym refused) (Keeps-raise P e)
  ]
