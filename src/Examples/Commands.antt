-- ===== src/Examples/Commands.antt =====
-- A command line that starts the node service.
use osc_bsu_csi_driver.Prelude.{ℕ, String, ◌≡◌, refl, false, none, List, [], ◌∷◌}
use osc_bsu_csi_driver.Go.Act.{ok, Act}
use osc_bsu_csi_driver.Util.Endpoint.{Paths, parse_endpoint, remove_socket}
use osc_bsu_csi_driver.Driver.Options.{
  DriverOptions, validate_tags, validate_extra_volume_tags, validate_mode, validate_driver_options,
}
use osc_bsu_csi_driver.Driver.Server.{
  Server, Service, identity_server, node_server, apply_options, new_node_service, make_services,
  new_driver, register_services, run,
}
use osc_bsu_csi_driver.Cloud.Metadata.{new_metadata_service}
use osc_bsu_csi_driver.Command.{Shell, read_command, options_of, get_options, main}
use osc_bsu_csi_driver.Command.Services.{Asks, Offers, main-Serves}
use osc_bsu_csi_driver.Examples.Startup.{parts}

-- No flag of the arguments is given, and each file is as a socket needs it.
abbrev shell : Shell ℕ
shell = record {
  args = "osc-bsu-csi-driver" ∷ "node" ∷ [];
  parse = λ flags args values w. (ok values, w);
  println = λ text w. (ok tt, w);
  marshal_indent = λ info w. (ok info.driver_version, w);
  build = record {
    driver_version = "v1";
    git_commit = "";
    build_date = "";
    go_version = "go1.20";
    compiler = "gc";
    goos = "linux";
    goarch = "amd64";
  };
}

abbrev paths : Paths ℕ
paths = record {
  url_parse = λ s. ok (record { scheme = "unix"; host = "tmp"; path = "/csi.sock" });
  join = λ a b. b;
  from_slash = λ s. s;
  to_lower = λ s. s;
  remove = λ s w. (ok tt, w);
  is_not_exist = λ e. false;
}

abbrev listen : String → String → Act ℕ (Unit {0})
listen scheme addr w = (ok tt, w)

abbrev serve : Act (Server ℕ) (Unit {0})
serve s = (ok tt, s)

abbrev start : Server ℕ
start = record { registered = []; outside = 0 }

abbrev served : Server ℕ
served = record { registered = identity_server ∷ node_server ∷ []; outside = 3 }

served_lem : main shell parts paths listen serve start ≡ (ok tt, served)
unfolding main get_options read_command options_of new_driver make_services new_node_service
    new_metadata_service apply_options validate_driver_options validate_extra_volume_tags
    validate_tags validate_mode run parse_endpoint remove_socket register_services
served_lem = refl

main-Serves_example :
    (options : DriverOptions) × (services : List Service) × (t : Server ℕ) × Asks shell.args
      options.mode
    × (validate_driver_options options ≡ none)
    × Offers options.mode services
    × (t.registered ≡ identity_server ∷ services)
    × (serve t ≡ (ok tt, served))
main-Serves_example = main-Serves paths listen serve shell parts start served served_lem
