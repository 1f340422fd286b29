-- ===== src/Util/Resolvers.antt =====
-- pkg/util/util.go: where the AWS SDK finds the services of Outscale.
use Prim.Native.String.{◌++◌ as concat}
use osc_bsu_csi_driver.Prelude.{String, none, some, [], ◌∷◌}
use osc_bsu_csi_driver.Go.Dict.{Dict, lookup}
use osc_bsu_csi_driver.Go.Act.{Result, ok}

-- `endpoints.ResolvedEndpoint`; a name that is not set is empty.
pub record ResolvedEndpoint : Type 0 where
  pub url : String
  pub signing_region : String
  pub signing_name : String

-- A resolver takes the service and the region. Its options are passed on and not looked at.
abbrev pub Resolver : Type 0
Resolver = String → String → Result ResolvedEndpoint

abbrev pub osc_setup_metadata_resolver : Resolver
osc_setup_metadata_resolver service region = ok (record {
  url = "http://169.254.169.254/latest";
  signing_region = "custom-signing-region";
  signing_name = "";
})

abbrev pub osc_endpoint : String → String → String
osc_endpoint region service =
    concat "https://" (concat service (concat "." (concat region ".outscale.com")))

-- Constants of the package `endpoints`, and its default resolver.
pub record Endpoints : Type 0 where
  pub ec2_service_id : String
  pub elasticloadbalancing_service_id : String
  pub iam_service_id : String
  pub directconnect_service_id : String
  pub default_resolver : Resolver

abbrev pub supported_service : Endpoints → Dict String
supported_service e =
    (e.ec2_service_id, "fcu")
    ∷ (e.elasticloadbalancing_service_id, "lbu")
    ∷ (e.iam_service_id, "eim")
    ∷ (e.directconnect_service_id, "directlink")
    ∷ []

-- The region of the resolver is hidden by that of the function that it returns.
unfoldable pub osc_setup_service_resolver : Endpoints → String → Resolver
osc_setup_service_resolver e outer service region = elim (lookup service (supported_service e)) [
  | none ↦ e.default_resolver service region
  | some osc_service ↦ ok (record {
    url = osc_endpoint region osc_service;
    signing_region = region;
    signing_name = service;
  })
]
