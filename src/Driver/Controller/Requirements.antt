-- ===== src/Driver/Controller/Requirements.antt =====
-- pkg/driver/controller.go: what a request asks of a volume, its capabilities, its zone and its size.
pub mod Laws
use osc_bsu_csi_driver.Prelude.{
  ℕ, String, Bool, true, false, ◌&&◌, Option, none, some, List, [], ◌∷◌, nat_eq, if◌then◌else◌,
}
use osc_bsu_csi_driver.Go.Dict.{lookup}
use osc_bsu_csi_driver.Go.Int.{ℤ, pos, ltb_ℤ}
use osc_bsu_csi_driver.Go.Error.{status, invalid_argument}
use osc_bsu_csi_driver.Go.Act.{Result, ok, err}
use osc_bsu_csi_driver.Util.Size.{round_up_bytes}
use osc_bsu_csi_driver.Cloud.Types.{default_volume_size}
use osc_bsu_csi_driver.Driver.Requests.{
  AccessMode, unknown, single_node_writer, single_node_reader_only, multi_node_reader_only,
  multi_node_single_writer, multi_node_multi_writer, single_node_single_writer,
  single_node_multi_writer, VolumeCapability, CapacityRange, Topology, TopologyRequirement,
  topology_key, topology_k8s_key,
}

-- The numbers of the modes in the specification.
abbrev mode_number : AccessMode → ℕ
mode_number unknown = 0
mode_number single_node_writer = 1
mode_number single_node_reader_only = 2
mode_number multi_node_reader_only = 3
mode_number multi_node_single_writer = 4
mode_number multi_node_multi_writer = 5
mode_number single_node_single_writer = 6
mode_number single_node_multi_writer = 7

abbrev volume_caps : List AccessMode
volume_caps = single_node_writer ∷ []

-- `cap.AccessMode.GetMode()`: the zero mode where the access mode is not set.
abbrev pub get_mode : VolumeCapability → AccessMode
get_mode cap = elim cap.access_mode [ none ↦ unknown | some mode ↦ mode ]

-- The loop of `hasSupport`.
unfoldable pub has_support : List AccessMode → VolumeCapability → Bool
has_support [] cap = false
has_support (c ∷ rest) cap =
    if nat_eq (mode_number c) (mode_number (get_mode cap)) then true else has_support rest cap

-- The loop over the capabilities, which does not stop at the first that has no support.
unfoldable pub all_supported : Bool → List VolumeCapability → Bool
unfolding has_support
all_supported found_all [] = found_all
all_supported found_all (c ∷ rest) =
    all_supported (if has_support volume_caps c then found_all else false) rest

unfoldable pub is_valid_volume_capabilities : List VolumeCapability → Bool
unfolding all_supported
is_valid_volume_capabilities caps = all_supported true caps

-- The loop over the topologies; the driver's own key comes before that of Kubernetes.
unfoldable pub first_zone : List Topology → Option String
first_zone [] = none
first_zone (t ∷ rest) = elim (lookup topology_key t) [
  | some zone ↦ some zone
  | none ↦ elim (lookup topology_k8s_key t) [ some zone ↦ some zone | none ↦ first_zone rest ]
]

unfoldable pub pick_availability_zone : Option TopologyRequirement → String
unfolding first_zone
pick_availability_zone none = ""
pick_availability_zone (some r) = elim (first_zone r.preferred) [
  | some zone ↦ zone
  | none ↦ elim (first_zone r.requisite) [ some zone ↦ zone | none ↦ "" ]
]

unfoldable pub get_vol_size_bytes : Option CapacityRange → Result ℤ
get_vol_size_bytes none = ok default_volume_size
get_vol_size_bytes (some r) =
    if ltb_ℤ (pos 0) r.limit_bytes && ltb_ℤ r.limit_bytes (round_up_bytes r.required_bytes)
    then err (status invalid_argument "After round-up, volume size exceeds the limit specified")
    else ok (round_up_bytes r.required_bytes)
