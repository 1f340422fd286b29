-- ===== src/Driver/Server.antt =====
-- pkg/driver/driver.go, identity.go, and the constructors of the services: the driver from its
-- options to its server.
pub mod Services
use osc_bsu_csi_driver.Prelude.{
  String, Bool, Option, none, some, List, [], ◌∷◌, ◌++◌, ◌==◌, if◌then◌else◌,
}
use osc_bsu_csi_driver.Go.Dict.{Dict}
use osc_bsu_csi_driver.Go.Error.{errorf}
use osc_bsu_csi_driver.Go.Act.{
  Result, ok, err, panic, Act, pure, raise, crash, modify, attempt, ◌>>=◌, ◌>>◌,
}
use osc_bsu_csi_driver.Util.Endpoint.{Paths, parse_endpoint}
use osc_bsu_csi_driver.Cloud.Metadata.{Ec2Metadata, Metadata, new_metadata_service}
use osc_bsu_csi_driver.Driver.Options.{
  DriverOptions, validate_driver_options, controller_mode, node_mode, all_mode,
}
use osc_bsu_csi_driver.Driver.InFlight.{InFlight}

-- DefaultCSIEndpoint
abbrev pub default_csi_endpoint : String
default_csi_endpoint = "unix://tmp/csi.sock"

abbrev pub driver_name : String
driver_name = "bsu.csi.outscale.com"

pub record PluginInfo : Type 0 where
  pub name : String
  pub vendor_version : String

abbrev pub get_plugin_info : String → PluginInfo
get_plugin_info driver_version = record { name = driver_name; vendor_version = driver_version }

pub data PluginCapability : Type 0 where
  controller_service volume_accessibility_constraints : PluginCapability

abbrev pub get_plugin_capabilities : List PluginCapability
get_plugin_capabilities = controller_service ∷ volume_accessibility_constraints ∷ []

abbrev pub with_endpoint : String → DriverOptions → DriverOptions
with_endpoint endpoint o = record o { endpoint = endpoint }

abbrev pub with_extra_volume_tags : Dict String → DriverOptions → DriverOptions
with_extra_volume_tags tags o = record o { extra_volume_tags = tags }

abbrev pub with_mode : String → DriverOptions → DriverOptions
with_mode mode o = record o { mode = mode }

abbrev pub default_options : DriverOptions
default_options = record {
  endpoint = default_csi_endpoint;
  extra_volume_tags = [];
  mode = all_mode;
}

unfoldable pub apply_options : List (DriverOptions → DriverOptions) → DriverOptions → DriverOptions
apply_options [] o = o
apply_options (f ∷ rest) o = apply_options rest (f o)

-- `controllerService` and `nodeService`, over the types of a cloud and of a mounter.
pub record ControllerService (C : Type 0) : Type 0 where
  pub cloud : C
  pub driver_options : DriverOptions

pub record NodeService (M : Type 0) : Type 0 where
  pub metadata : Metadata
  pub mounter : M
  pub in_flight : InFlight

-- The services that were not made have their zero value, `none`.
pub record Driver (C M : Type 0) : Type 0 where
  pub options : DriverOptions
  pub controller : Option (ControllerService C)
  pub node : Option (NodeService M)

-- What the driver is made with: the client of the metadata service, `NewCloud`, a mounter of the
-- package `mount`, and the value of AWS_REGION.
pub record Parts (W C M : Type 0) : Type 0 where
  pub ec2 : Ec2Metadata W
  pub new_cloud : String → Act W C
  pub new_mounter : M
  pub aws_region : String

-- An action that panics where it gives an error.
abbrev pub or_panic : {W A : Type 0} → Act W A → Act W A
or_panic m = attempt m pure (λ _. crash)

module _ {W C M : Type 0} (parts : Parts W C M) where
  unfoldable pub new_controller_service : DriverOptions → Act W (ControllerService C)
  new_controller_service o =
      (if parts.aws_region == ""
        then or_panic (new_metadata_service parts.ec2) >>= (λ m. pure m.region)
        else pure parts.aws_region)
      >>= (λ region.
          or_panic (parts.new_cloud region)
          >>= (λ cloud. pure (record { cloud = cloud; driver_options = o })))

  unfoldable pub new_node_service : Act W (NodeService M)
  new_node_service =
      or_panic (new_metadata_service parts.ec2)
      >>= (λ m. pure (record { metadata = m; mounter = parts.new_mounter; in_flight = [] }))

  -- The switch of `NewDriver` on the mode.
  unfoldable pub make_services : DriverOptions → Act W (Driver C M)
  make_services o =
      if o.mode == controller_mode
      then new_controller_service o
        >>= (λ c. pure (record { options = o; controller = some c; node = none }))
      else if o.mode == node_mode
      then new_node_service
        >>= (λ n. pure (record { options = o; controller = none; node = some n }))
      else if o.mode == all_mode
      then new_controller_service o >>= (λ c.
        new_node_service
        >>= (λ n. pure (record { options = o; controller = some c; node = some n })))
      else raise (errorf "unknown mode: %s")

  unfoldable pub new_driver : List (DriverOptions → DriverOptions) → Act W (Driver C M)
  new_driver options = elim (validate_driver_options (apply_options options default_options)) [
    | some _ ↦ raise (errorf "Invalid driver options: %v")
    | none ↦ make_services (apply_options options default_options)
  ]

-- The services that a server offers.
pub data Service : Type 0 where
  identity_server controller_server node_server : Service

-- The gRPC server, and what it stands on.
pub record Server (W : Type 0) : Type 0 where
  pub registered : List Service
  pub outside : W

module _ {W : Type 0} where
  abbrev pub outside : {A : Type 0} → Act W A → Act (Server W) A
  outside m s = ((m s.outside).0, record s { outside = (m s.outside).1 })

  abbrev pub register : Service → Act (Server W) (Unit {0})
  register service = modify (λ s. record s { registered = s.registered ++ (service ∷ []) })

  -- The switch of `Run` on the mode.
  unfoldable pub register_services : String → Act (Server W) (Unit {0})
  register_services mode =
      if mode == controller_mode
      then register controller_server
      else if mode == node_mode
      then register node_server
      else if mode == all_mode
      then register controller_server >> register node_server
      else raise (errorf "unknown mode: %s")

module _ {W : Type 0} (paths : Paths W) (listen : String → String → Act W (Unit {0}))
    (serve : Act (Server W) (Unit {0})) where
  unfoldable pub run : {C M : Type 0} → Driver C M → Act (Server W) (Unit {0})
  run d = do
    (scheme, addr) ← outside (parse_endpoint paths d.options.endpoint)
    outside (listen scheme addr)
    -- a new server
    modify (λ s. record s { registered = [] })
    register identity_server
    register_services d.options.mode
    serve
