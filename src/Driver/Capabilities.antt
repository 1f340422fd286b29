-- ===== src/Driver/Capabilities.antt =====
-- pkg/driver/controller.go and node.go: what the services say that they can do, and the methods that
-- they do not implement.
use osc_bsu_csi_driver.Prelude.{List, [], ◌∷◌, ◌++◌}
use osc_bsu_csi_driver.Go.Error.{status, unimplemented}
use osc_bsu_csi_driver.Go.Act.{Act, raise}

pub data ControllerCapability : Type 0 where
  create_delete_volume publish_unpublish_volume create_delete_snapshot : ControllerCapability
  list_snapshots_capability expand_volume_capability : ControllerCapability

pub data NodeCapability : Type 0 where
  stage_unstage_volume node_expand_capability get_volume_stats_capability : NodeCapability

abbrev pub controller_caps : List ControllerCapability
controller_caps =
    create_delete_volume ∷ publish_unpublish_volume ∷ create_delete_snapshot
    ∷ list_snapshots_capability ∷ expand_volume_capability ∷ []

abbrev pub node_caps : List NodeCapability
node_caps = stage_unstage_volume ∷ node_expand_capability ∷ get_volume_stats_capability ∷ []

-- The loop that appends the capabilities, each in its message.
unfoldable pub append_capabilities : {A : Type 0} → List A → List A → List A
append_capabilities caps [] = caps
append_capabilities caps (cap ∷ rest) = append_capabilities (caps ++ (cap ∷ [])) rest

abbrev pub controller_get_capabilities : List ControllerCapability
controller_get_capabilities = append_capabilities [] controller_caps

abbrev pub node_get_capabilities : List NodeCapability
node_get_capabilities = append_capabilities [] node_caps

module _ {S : Type 0} where
  abbrev pub get_capacity : Act S (Unit {0})
  get_capacity = raise (status unimplemented "")

  abbrev pub list_volumes : Act S (Unit {0})
  list_volumes = raise (status unimplemented "")

  abbrev pub controller_get_volume : Act S (Unit {0})
  controller_get_volume = raise (status unimplemented "")
