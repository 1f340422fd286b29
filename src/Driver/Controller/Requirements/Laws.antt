-- ===== src/Driver/Controller/Requirements/Laws.antt =====
-- What the checks of a request accept.
use mathlib.Core.Path.{subst}
use osc_bsu_csi_driver.Prelude.{
  ℕ, ◌+◌, ◌-◌, ◌*◌, ◌^◌, ◌≤◌, ◌<◌, ◌++◌, String, ◌≡◌, ◌↔◌, refl, sym, ap, ◌∙◌, true, false, Option,
  none, some, List, [], ◌∷◌, All, arith, Bool-cases, Option-cases, ◌⊎◌, inl, inr, nat_eq,
}
use osc_bsu_csi_driver.Go.Dict.{lookup}
use osc_bsu_csi_driver.Go.Int.{ℤ, pos, negsuc, ◌≤ℤ◌}
use osc_bsu_csi_driver.Go.Act.{ok}
use osc_bsu_csi_driver.Util.Size.{gib, round_up_bytes}
use osc_bsu_csi_driver.Util.Size.Rounding.{round_up_least, round_up_bytes_wraps}
use osc_bsu_csi_driver.Driver.Requests.{
  AccessMode, unknown, single_node_writer, VolumeCapability, Topology, TopologyRequirement,
  topology_key, topology_k8s_key,
}
use osc_bsu_csi_driver.Driver.Controller.Requirements.{
  mode_number, volume_caps, has_support, all_supported, is_valid_volume_capabilities, first_zone,
  pick_availability_zone, get_vol_size_bytes,
}

-- The one mode that a volume of this driver has.
abbrev pub IsSingleWriter : VolumeCapability → Type 0
IsSingleWriter cap = cap.access_mode ≡ some single_node_writer

has_support-mode :
    (m : Option AccessMode)
    → (nat_eq 1 (mode_number (elim m [ none ↦ unknown | some mode ↦ mode ])) ≡ true)
      ↔ (m ≡ some single_node_writer)
has_support-mode none = ground arith
has_support-mode (some single_node_writer) = ground arith
has_support-mode (some unknown) = ground arith
has_support-mode (some m) = ground arith

has_support_iff :
    (cap : VolumeCapability) → (has_support volume_caps cap ≡ true) ↔ IsSingleWriter cap
unfolding has_support
has_support_iff cap = ground (arith, has_support-mode cap.access_mode)

all_supported-false : (caps : List VolumeCapability) → all_supported false caps ≡ false
unfolding all_supported
all_supported-false [] = refl
all_supported-false (c ∷ rest) = elim (Bool-cases (has_support volume_caps c)) [
  | inl y ↦ rw y (all_supported-false rest)
  | inr n ↦ rw n (all_supported-false rest)
]

-- Capabilities are valid exactly when each of them asks for the access mode SINGLE_NODE_WRITER.
pub is_valid_iff :
    (caps : List VolumeCapability)
    → (is_valid_volume_capabilities caps ≡ true) ↔ All IsSingleWriter caps
unfolding is_valid_volume_capabilities all_supported
is_valid_iff [] = (λ _. tt, λ _. refl)
is_valid_iff (c ∷ rest) = elim (Bool-cases (has_support volume_caps c)) [
  | inl y ↦ (
    λ h. ((has_support_iff c).0 y, (is_valid_iff rest).0 (rw y at h)),
    λ a. rw y ((is_valid_iff rest).1 a.1),
  )
  | inr n ↦ (λ h. cc (all_supported-false rest, n, h), λ a. cc (n, (has_support_iff c).1 a.0))
]

-- A size that is accepted for a request of n bytes, n at most 2^63 - 2^30, is the least number of
-- whole GiB that holds them, and is at most the limit where the limit is above zero.
pub get_vol_size_bytes_fits :
    (n : ℕ) (limit size : ℤ)
    → n ≤ 2 ^ 63 - gib
    → get_vol_size_bytes (some (record { required_bytes = pos n; limit_bytes = limit })) ≡ ok size
    → (k : ℕ) × (size ≡ pos (k * gib))
      × (n ≤ k * gib)
      × (k * gib < n + gib)
      × ((limit ≤ℤ pos 0) ⊎ (size ≤ℤ limit))
unfolding get_vol_size_bytes
get_vol_size_bytes_fits n limit size small h =
    let (k, in_gib, bytes, lower, upper) = round_up_least n small in
    let sizes : round_up_bytes (pos n) ≡ size = ground arith in
    (k, sym sizes ∙ bytes, lower, upper, ground arith)

-- A request of more than 2^63 - 2^30 + 1 bytes, and fewer than 2^63, is accepted whatever its
-- limit, and its size is -(2^63 - 2^30) bytes.
pub get_vol_size_bytes_wraps :
    (n : ℕ) (limit : ℤ)
    → 2 ^ 63 - gib + 1 < n
    → n < 2 ^ 63
    → get_vol_size_bytes (some (record { required_bytes = pos n; limit_bytes = limit }))
      ≡ ok (negsuc (2 ^ 63 - gib - 1))
unfolding get_vol_size_bytes
get_vol_size_bytes_wraps n limit lo hi = rw (round_up_bytes_wraps n lo hi) (ground arith)

-- The zone that a topology gives.
abbrev pub zone_of : Topology → Option String
zone_of t = elim (lookup topology_key t) [
  | some zone ↦ some zone
  | none ↦ lookup topology_k8s_key t
]

-- The first of a list of topologies that gives a zone.
abbrev pub IsFirstZone : List Topology → String → Type 0
IsFirstZone ts zone =
    (before : List Topology) × (t : Topology) × (after : List Topology) × (ts ≡ before ++ t ∷ after)
    × All (λ u. zone_of u ≡ none) before
    × (zone_of t ≡ some zone)

first_zone-cases :
    (ts : List Topology)
    → ((first_zone ts ≡ none) × All (λ u. zone_of u ≡ none) ts)
      ⊎ ((zone : String) × (first_zone ts ≡ some zone) × IsFirstZone ts zone)
unfolding first_zone
first_zone-cases [] = inl (refl, tt)
first_zone-cases (t ∷ rest) = elim (Option-cases (zone_of t)) [
  | inr (zone, found) ↦ inr (zone, ground arith, ([], t, rest, refl, tt, found))
  | inl nothing ↦ elim (first_zone-cases rest) [
    | inl (none_left, all) ↦ inl (ground arith, (nothing, all))
    | inr (zone, found, (before, u, after, split, passed, gives)) ↦ inr (
      zone,
      ground arith,
      (t ∷ before, u, after, ap (λ l. t ∷ l) split, (nothing, passed), gives),
    )
  ]
]

the_first_zone :
    (r : TopologyRequirement) (zone : String)
    → first_zone r.preferred ≡ some zone
    → pick_availability_zone (some r) ≡ zone
unfolding pick_availability_zone
the_first_zone r zone h = ground arith

second_zone :
    (r : TopologyRequirement) (zone : String)
    → first_zone r.preferred ≡ none
    → first_zone r.requisite ≡ some zone
    → pick_availability_zone (some r) ≡ zone
unfolding pick_availability_zone
second_zone r zone h k = ground arith

no_zone :
    (r : TopologyRequirement)
    → first_zone r.preferred ≡ none
    → first_zone r.requisite ≡ none
    → pick_availability_zone (some r) ≡ ""
unfolding pick_availability_zone
no_zone r h k = ground arith

-- The zone of a requirement is that of its first preferred topology that gives one; where none
-- does, that of its first requisite topology that gives one; where none does either, it is empty.
pick_availability_zone-cases :
    (r : TopologyRequirement)
    → IsFirstZone r.preferred (pick_availability_zone (some r))
      ⊎ (All (λ u. zone_of u ≡ none) r.preferred
          × (IsFirstZone r.requisite (pick_availability_zone (some r))
              ⊎ (All (λ u. zone_of u ≡ none) r.requisite × (pick_availability_zone (some r) ≡ ""))))
unfolding pick_availability_zone
pick_availability_zone-cases r = elim (first_zone-cases r.preferred) [
  | inr (zone, found, first) ↦
      inl (subst (IsFirstZone r.preferred) (sym (the_first_zone r zone found)) first)
  | inl (none_preferred, all) ↦ inr (
    all,
    elim (first_zone-cases r.requisite) [
      | inr (zone, found, first) ↦
          inl
            (subst (IsFirstZone r.requisite) (sym (second_zone r zone none_preferred found)) first)
      | inl (none_left, all_left) ↦ inr (all_left, no_zone r none_preferred none_left)
    ],
  )
]
