-- ===== src/Cloud/Metadata.antt =====
-- pkg/cloud/metadata.go: what the metadata service says of the machine that the driver runs on.
pub mod Laws
use Prim.Native.String.{len, slice}
use osc_bsu_csi_driver.Prelude.{String, Bool, not, ◌-◌, ◌==◌, if◌then◌else◌}
use osc_bsu_csi_driver.Util.Resolvers.{Resolver, osc_setup_metadata_resolver}
use osc_bsu_csi_driver.Go.Error.{errorf}
use osc_bsu_csi_driver.Go.Act.{Act, pure, raise, or_fail, unless, ◌>>=◌, ◌>>◌}

-- The client of the metadata service, of the AWS SDK.
pub record Ec2Metadata (W : Type 0) : Type 0 where
  pub available : Act W Bool
  pub get_metadata : String → Act W String

pub record Metadata : Type 0 where
  pub instance_id : String
  pub instance_type : String
  pub region : String
  pub availability_zone : String

abbrev pub get_instance_id : Metadata → String
get_instance_id m = m.instance_id

abbrev pub get_instance_type : Metadata → String
get_instance_type m = m.instance_type

abbrev pub get_region : Metadata → String
get_region m = m.region

abbrev pub get_availability_zone : Metadata → String
get_availability_zone m = m.availability_zone

-- A zone without its last byte, which is taken to be a character.
abbrev pub region_of : String → String
region_of zone = slice zone 0 (len zone - 1)

module _ {W : Type 0} (svc : Ec2Metadata W) where
  -- An answer that is neither an error nor empty.
  abbrev pub get_valid : String → String → Act W String
  get_valid path failure = do
    value ← or_fail (svc.get_metadata path) (errorf failure)
    if value == "" then raise (errorf failure) else pure value

  unfoldable pub new_metadata_service : Act W Metadata
  new_metadata_service = do
    available ← svc.available
    unless available (raise (errorf "EC2 instance metadata is not available"))
    instance_id ← get_valid "instance-id" "could not get valid EC2 instance ID"
    instance_type ← get_valid "instance-type" "could not get valid EC2 instance type"
    zone ← get_valid "placement/availability-zone" "could not get valid EC2 availavility zone"
    if region_of zone == ""
        then raise (errorf "could not get valid EC2 region")
        else pure (record {
          instance_id = instance_id;
          instance_type = instance_type;
          region = region_of zone;
          availability_zone = zone;
        })

-- `new_ec2` makes the client for a resolver, or panics, as `session.Must` does.
abbrev pub new_metadata : {W : Type 0} → (Resolver → Act W (Ec2Metadata W)) → Act W Metadata
new_metadata new_ec2 = new_ec2 osc_setup_metadata_resolver >>= (λ svc. new_metadata_service svc)
