-- ===== src/Driver/Node/Stage/Exclusion.antt =====
-- Stagings of one request exclude each other.
use osc_bsu_csi_driver.Prelude.{
  String, ◌≡◌, ◌≢◌, refl, ap, ◌∙◌, none, List, arith, eq_iff, inl, inr,
}
use osc_bsu_csi_driver.Go.Dict.{lookup, lookup-insert, lookup-delete}
use osc_bsu_csi_driver.Go.Act.Keeps.{kept, keeping}
use osc_bsu_csi_driver.Driver.InFlight.{delete_request}
use osc_bsu_csi_driver.Driver.InFlight.Exclusion.{insert_request-cases}
use osc_bsu_csi_driver.Driver.Node.Host.{Host}
use osc_bsu_csi_driver.Driver.Node.Stage.{
  NodeStageVolumeRequest, NodeState, stage_in_flight, node_stage_volume,
}
use osc_bsu_csi_driver.Driver.Node.Stage.Keeping.{node_stage_volume-Keeps}

module _ {H : Type 0} (host : Host H) where
  stage_in_flight-lookup :
      (text key : String) (req : NodeStageVolumeRequest) (requested : String)
      (options : List String) (s : NodeState H)
      → lookup key (stage_in_flight host text req requested options s).1.in_flight
        ≡ lookup key s.in_flight
  unfolding stage_in_flight delete_request
  stage_in_flight-lookup text key req requested options s =
      elim (insert_request-cases text s.in_flight) [
        | inl (free, added) ↦
            rw (added, lookup-delete, lookup-insert) (ground (arith, eq_iff text key))
        | inr (taken, refused) ↦ rw refused
      ]

  stage_in_flight_busy :
      (text : String) (req : NodeStageVolumeRequest) (requested : String) (options : List String)
      (s : NodeState H)
      → lookup text s.in_flight ≢ none
      → (stage_in_flight host text req requested options s).1 ≡ s
  unfolding stage_in_flight
  stage_in_flight_busy text req requested options s busy =
      elim (insert_request-cases text s.in_flight) [
        | inl (free, _) ↦ absurd (busy free)
        | inr (_, refused) ↦ rw refused
      ]

  -- Whatever its outcome, `NodeStageVolume` leaves the same requests in flight as before it.
  pub node_stage_volume-in_flight :
      (text : NodeStageVolumeRequest → String) (req : NodeStageVolumeRequest) (key : String)
      (s : NodeState H)
      → lookup key (node_stage_volume host text req s).1.in_flight ≡ lookup key s.in_flight
  node_stage_volume-in_flight text req key s =
      kept (λ t. lookup key t.in_flight ≡ lookup key s.in_flight)
        (node_stage_volume-Keeps host text req
          (λ t. lookup key t.in_flight ≡ lookup key s.in_flight)
          (λ requested options.
            keeping (λ t h. stage_in_flight-lookup (text req) key req requested options t ∙ h)))
        s refl

  -- While the same request is in flight, `NodeStageVolume` changes nothing: neither the host nor
  -- the requests in flight.
  node_stage_volume_excluded :
      (text : NodeStageVolumeRequest → String) (req : NodeStageVolumeRequest) (s : NodeState H)
      → lookup (text req) s.in_flight ≢ none
      → (node_stage_volume host text req s).1 ≡ s
  node_stage_volume_excluded text req s busy =
      kept (λ t. t ≡ s)
        (node_stage_volume-Keeps host text req (λ t. t ≡ s)
          (λ requested options. keeping (λ t h.
            ap (λ u. (stage_in_flight host (text req) req requested options u).1) h
            ∙ stage_in_flight_busy (text req) req requested options s busy)))
        s refl
