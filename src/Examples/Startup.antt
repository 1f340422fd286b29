-- ===== src/Examples/Startup.antt =====
-- A driver that starts.
use osc_bsu_csi_driver.Prelude.{
  ℕ, ◌+◌, ◌≡◌, refl, true, none, some, List, [], ◌∷◌, ◌==◌, if◌then◌else◌,
}
use osc_bsu_csi_driver.Go.Act.{ok}
use osc_bsu_csi_driver.Cloud.Metadata.{Ec2Metadata, Metadata, new_metadata_service}
use osc_bsu_csi_driver.Driver.Options.{
  DriverOptions, node_mode, validate_tags, validate_extra_volume_tags, validate_mode,
  validate_driver_options,
}
use osc_bsu_csi_driver.Driver.Capabilities.{
  append_capabilities, node_get_capabilities, node_caps, controller_get_capabilities,
  controller_caps,
}
use osc_bsu_csi_driver.Driver.Server.{
  Driver, Parts, Server, with_mode, apply_options, default_options, new_node_service, make_services,
  new_driver, identity_server,
}

-- The metadata service of a machine in one zone; the world counts its answers.
abbrev pub ec2 : Ec2Metadata ℕ
ec2 = record {
  available = λ w. (ok true, w);
  get_metadata = λ path w. (
    ok (
        if path == "instance-id"
        then "i-1"
        else if path == "instance-type"
        then "m5"
        else "eu-west-2a"),
    w + 1,
  );
}

abbrev metadata : Metadata
metadata = record {
  instance_id = "i-1";
  instance_type = "m5";
  region = "eu-west-2";
  availability_zone = "eu-west-2a";
}

metadata_lem : new_metadata_service ec2 0 ≡ (ok metadata, 3)
unfolding new_metadata_service
metadata_lem = refl

abbrev pub parts : Parts ℕ (Unit {0}) (Unit {0})
parts = record { ec2 = ec2; new_cloud = λ region w. (ok tt, w); new_mounter = tt; aws_region = "" }

abbrev options : List (DriverOptions → DriverOptions)
options = with_mode node_mode ∷ []

abbrev node_options : DriverOptions
node_options = record default_options { mode = node_mode }

abbrev node_driver : Driver (Unit {0}) (Unit {0})
node_driver = record {
  options = node_options;
  controller = none;
  node = some (record { metadata = metadata; mounter = tt; in_flight = [] });
}

node_driver_lem : new_driver parts options 0 ≡ (ok node_driver, 3)
unfolding new_driver make_services new_node_service new_metadata_service apply_options
    validate_driver_options validate_extra_volume_tags validate_tags validate_mode
node_driver_lem = refl

abbrev server : Server ℕ
server = record { registered = identity_server ∷ []; outside = 3 }

node_capabilities_test : node_get_capabilities ≡ node_caps
unfolding append_capabilities
node_capabilities_test = refl

controller_capabilities_test : controller_get_capabilities ≡ controller_caps
unfolding append_capabilities
controller_capabilities_test = refl
