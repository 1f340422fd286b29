-- ===== src/Driver/Node/Stage/Again.antt =====
-- Staging a volume again.
use mathlib.Core.Path.{subst}
use osc_bsu_csi_driver.Prelude.{
  String, ◌≡◌, ◌≢◌, refl, ap, ◌∙◌, sym, true, Bool-cases, none, some, List, arith, eq_iff, inl, inr,
}
use text.Mathlib.TextLemmas.{append-eq-nil_iff}
use osc_bsu_csi_driver.Go.Strings.{has_prefix}
use osc_bsu_csi_driver.Go.Dict.{lookup, insert, lookup-delete}
use osc_bsu_csi_driver.Go.Int.{ℤ}
use osc_bsu_csi_driver.Go.Act.{ok}
use osc_bsu_csi_driver.Go.Act.Success.{Runs, or_fail-Runs}
use osc_bsu_csi_driver.Driver.Requests.{device_path_key}
use osc_bsu_csi_driver.Driver.InFlight.{delete_request}
use osc_bsu_csi_driver.Driver.InFlight.Exclusion.{insert_request-cases}
use osc_bsu_csi_driver.Driver.Node.Stage.Keeping.{node_stage_volume-cases}
use osc_bsu_csi_driver.Driver.Node.Host.{Host}
use osc_bsu_csi_driver.Driver.Node.Mounter.{exists_path}
use osc_bsu_csi_driver.Driver.Node.Luks.{mapper_path}
use osc_bsu_csi_driver.Driver.Node.Devices.{find_device_path}
use osc_bsu_csi_driver.Driver.Node.Devices.Steady.{
  IsSteady, SameDevices, SameDevices-refl, find_device_path-same,
}
use osc_bsu_csi_driver.Driver.Node.Stage.{
  NodeStageVolumeRequest, NodeState, is_encrypted, crypt_name, stage_encrypted, stage_source,
  stage_device, stage, stage_in_flight, node_stage_volume,
}
use osc_bsu_csi_driver.Driver.Node.Stage.Mounted.{staged_device, stage_source-Mounted}

mapper_path-ne-empty : (name : String) → mapper_path name ≢ ""
mapper_path-ne-empty name e =
    cc ((eq_iff "/dev/mapper/" "").1 ((append-eq-nil_iff {p = "/dev/mapper/"} {q = name}).0 e).0)

module _ {H : Type 0} (host : Host H) (laws : IsSteady host) where
  stage_source-mounted :
      (req : NodeStageVolumeRequest) (source requested : String) (options : List String) (n : ℤ)
      (s : H)
      → staged_device req source ≢ ""
      → (host.get_device_name_from_mount req.staging_target_path s).0
        ≡ ok (staged_device req source, n)
      → stage_source host req source requested options s ≡ (ok tt, s)
  unfolding stage_source stage_encrypted exists_path
  stage_source-mounted req source requested options n s full mounted =
      let read = laws.get_device_name req.staging_target_path s in
      let there = laws.there req.staging_target_path (staged_device req source) n s mounted full in
      let looked = laws.stat req.staging_target_path s in
      let same = eq_iff (staged_device req source) (staged_device req source) in
      elim (Bool-cases (is_encrypted req.publish_context)) [
        | inl sealed ↦ ground (arith, sealed, mounted, read, there, looked, same)
        | inr plain ↦ ground (arith, plain, mounted, read, there, looked, same)
      ]

  staged_device-ne-empty :
      (req : NodeStageVolumeRequest) (source : String) → source ≢ "" → staged_device req source ≢ ""
  staged_device-ne-empty req source full = elim (Bool-cases (is_encrypted req.publish_context)) [
    | inl sealed ↦ λ e. mapper_path-ne-empty (crypt_name source) (rw sealed at e)
    | inr plain ↦ λ e. full (rw plain at e)
  ]

  -- The second time, nothing is left to do.
  stage_device-again :
      (req : NodeStageVolumeRequest) (path requested : String) (options : List String) (s s' : H)
      → has_prefix path "/dev/xvd" ≡ true
      → Runs (stage_device host req requested options (some path)) s tt s'
      → Runs (stage_device host req requested options (some path)) s' tt s'
  unfolding stage_device
  stage_device-again req path requested options s s' device h =
      let (source, t, looked, h₁) = or_fail-Runs (find_device_path host path) _ _ s tt s' h in
      let (same_state, _, _) =
        find_device_path-same host laws path source s t s device (SameDevices-refl host laws s)
          looked in
      let (same, (n, mounted)) =
        stage_source-Mounted host laws req source requested options t s' h₁ in
      let (_, again, full) =
        find_device_path-same host laws path source s t s' device
          (subst (λ x. SameDevices host x s') same_state same) looked in
      rw again (
        stage_source-mounted req source requested options n s'
          (staged_device-ne-empty req source full) mounted)

  -- A request that is accepted is staged, and not in flight afterwards.
  stage_in_flight-ok :
      (text : String) (req : NodeStageVolumeRequest) (requested : String) (options : List String)
      (s s' : NodeState H)
      → Runs (stage_in_flight host text req requested options) s tt s'
      → Runs (stage host req requested options) s.host tt s'.host
        × (lookup text s'.in_flight ≡ none)
  unfolding stage_in_flight delete_request
  stage_in_flight-ok text req requested options s s' h =
      elim (insert_request-cases text s.in_flight) [
        | inr (_, refused) ↦ ground (arith, refused, h)
        | inl (_, added) ↦
            let ran = rw added at h in
            (
              (λ i. ((ran i).0, (ran i).1.host)),
              ap (λ r. lookup text r.1.in_flight) (sym ran)
                  ∙ lookup-delete text text (insert text true s.in_flight)
                  ∙ ground (arith, eq_iff text text),
            )
      ]

  stage_in_flight_accepts :
      (text : String) (req : NodeStageVolumeRequest) (requested : String) (options : List String)
      (s : NodeState H)
      → lookup text s.in_flight ≡ none
      → Runs (stage host req requested options) s.host tt s.host
      → ((stage_in_flight host text req requested options s).0 ≡ ok tt)
        × ((stage_in_flight host text req requested options s).1.host ≡ s.host)
  unfolding stage_in_flight
  stage_in_flight_accepts text req requested options s free ran =
      elim (insert_request-cases text s.in_flight) [
        | inr (taken, _) ↦ absurd (taken free)
        | inl (_, added) ↦ rw (added, ran) (refl, refl)
      ]

  stage_in_flight-again :
      (text : String) (req : NodeStageVolumeRequest) (path requested : String)
      (options : List String) (s s' : NodeState H)
      → lookup device_path_key req.publish_context ≡ some path
      → has_prefix path "/dev/xvd" ≡ true
      → Runs (stage_in_flight host text req requested options) s tt s'
      → ((stage_in_flight host text req requested options s').0 ≡ ok tt)
        × ((stage_in_flight host text req requested options s').1.host ≡ s'.host)
  stage_in_flight-again text req path requested options s s' given device h =
      let (ran, free) = stage_in_flight-ok text req requested options s s' h in
      stage_in_flight_accepts text req requested options s' free (
        rw given
          (stage_device-again req path requested options s.host s'.host device (rw given at ran)))

  -- On a host where looking at files changes nothing, the files of devices stay, and what is mounted
  -- is found: where `NodeStageVolume` has succeeded for a volume, encrypted or not, whose device
  -- path is one of `/dev/xvd`, the same request succeeds again and changes nothing of the host.
  pub node_stage_volume-again :
      (text : NodeStageVolumeRequest → String) (req : NodeStageVolumeRequest) (path : String)
      (s s' : NodeState H)
      → lookup device_path_key req.publish_context ≡ some path
      → has_prefix path "/dev/xvd" ≡ true
      → node_stage_volume host text req s ≡ (ok tt, s')
      → ((node_stage_volume host text req s').0 ≡ ok tt)
        × ((node_stage_volume host text req s').1.host ≡ s'.host)
  node_stage_volume-again text req path s s' given device h =
      elim (node_stage_volume-cases host text req) [
        | inl (requested, options, same) ↦ rw same (
            stage_in_flight-again (text req) req path requested options s s' given device
              (rw same at h))
        | inr (inl nothing) ↦ rw nothing (refl, refl)
        | inr (inr (e, refused)) ↦ ground (arith, refused, h)
      ]
