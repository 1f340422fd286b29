-- ===== src/Cloud/Connection.antt =====
-- pkg/cloud/cloud.go: a new connection to the API.
use Prim.Native.String.{◌++◌ as concat}
use osc_bsu_csi_driver.Prelude.{String, [], ◌==◌, if◌then◌else◌}
use osc_bsu_csi_driver.Go.Error.{errorf}
use osc_bsu_csi_driver.Go.Act.{Act, pure, raise, ◌>>=◌}
use osc_bsu_csi_driver.DeviceManager.Manager.{InFlightAttaching}

-- The struct `cloud`, with the map of its device manager.
pub record OscCloud (Client : Type 0) : Type 0 where
  pub region : String
  pub in_flight_attaching : InFlightAttaching
  pub client : Client

-- What a client of the API is made of.
pub record ClientSettings : Type 0 where
  pub user_agent : String
  pub access_key : String
  pub secret_key : String
  pub region : String

-- `new_client` stands for the SDK: its configuration from the environment, which may be an error,
-- and the client with these settings. The version of the driver is set by the build.
module _ {W Client : Type 0} (new_client : ClientSettings → Act W Client)
    (driver_version access_key secret_key : String) where
  unfoldable pub new_osc_cloud : String → Act W (OscCloud Client)
  new_osc_cloud region = do
    client ← new_client (record {
      user_agent = concat "osc-bsu-csi-driver/" driver_version;
      access_key = access_key;
      secret_key = secret_key;
      region = region;
    })
    pure (record { region = region; in_flight_attaching = []; client = client })

  abbrev pub new_cloud : String → Act W (OscCloud Client)
  new_cloud region = new_osc_cloud region

  unfoldable pub new_cloud_without_metadata : String → Act W (OscCloud Client)
  new_cloud_without_metadata region =
      if region == "" then raise (errorf "could not get region") else do
        client ← new_client (record {
          user_agent = concat "osc-bsu-csi-driver/" driver_version;
          access_key = access_key;
          secret_key = secret_key;
          region = region;
        })
        pure (record { region = region; in_flight_attaching = []; client = client })
