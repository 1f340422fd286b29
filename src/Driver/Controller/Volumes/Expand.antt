-- ===== src/Driver/Controller/Volumes/Expand.antt =====
-- How `ControllerExpandVolume` treats the limit of a request.
use osc_bsu_csi_driver.Prelude.{
  ℕ, ◌+◌, ◌*◌, ◌^◌, ◌<◌, ◌≤◌, String, ◌≡◌, ◌≢◌, refl, false, some, arith, eq_iff, ◌==◌, ◌⊎◌, ◌-◌,
}
use osc_bsu_csi_driver.Go.Int.{ℤ, pos, int32, ltb_ℤ}
use osc_bsu_csi_driver.Go.Act.{err}
use osc_bsu_csi_driver.Go.Error.{status, invalid_argument}
use osc_bsu_csi_driver.Util.Size.{gib}
use osc_bsu_csi_driver.Util.Size.Rounding.{round_up_least}
use osc_bsu_csi_driver.Cloud.Interface.{Cloud}
use osc_bsu_csi_driver.Driver.Controller.Volumes.{controller_expand_volume}

int32_dropped :
    (j low : ℕ)
    → (low ≡ 0) ⊎ (2 ^ 31 ≤ low)
    → low < 2 ^ 32
    → ltb_ℤ (pos 0) (int32 (pos (j * 2 ^ 32 + low))) ≡ false
unfolding int32
int32_dropped j low h k = ground arith

-- A limit whose low 32 bits are zero, or have their highest bit set, is ignored: whatever the
-- volume, the required size and the cloud, the request is handled as one with no limit.
pub expand_limit_ignored :
    {S : Type 0} (cloud : Cloud S) (volume_id : String) (required : ℤ) (j low : ℕ) (s : S)
    → (low ≡ 0) ⊎ (2 ^ 31 ≤ low)
    → low < 2 ^ 32
    → controller_expand_volume cloud volume_id
        (some (record { required_bytes = required; limit_bytes = pos (j * 2 ^ 32 + low) }))
        s
      ≡ controller_expand_volume cloud volume_id
          (some (record { required_bytes = required; limit_bytes = pos 0 }))
          s
unfolding controller_expand_volume
expand_limit_ignored cloud volume_id required j low s h k =
    rw (int32_dropped j low h k) (unfold int32 in refl)

int32-gib : (k : ℕ) → int32 (pos ((4 * k + 1) * gib)) ≡ pos gib
unfolding int32
int32-gib k = ground arith

int32_low : (j low : ℕ) → low < 2 ^ 31 → int32 (pos (j * 2 ^ 32 + low)) ≡ pos low
unfolding int32
int32_low j low h = ground arith

-- A request for a volume with an id and 4k + 1 whole GiB, at most 2^63 - 2^30 bytes, with a limit
-- whose low 32 bits are a number between 0 and 2^30, both excluded, is refused, however far the
-- limit lies above the size.
pub expand_refuses_below_limit :
    {S : Type 0} (cloud : Cloud S) (volume_id : String) (k j low : ℕ) (s : S)
    → volume_id ≢ ""
    → (4 * k + 1) * gib ≤ 2 ^ 63 - gib
    → 0 < low
    → low < gib
    → controller_expand_volume cloud volume_id
        (some (record {
          required_bytes = pos ((4 * k + 1) * gib);
          limit_bytes = pos (j * 2 ^ 32 + low);
        }))
        s
      ≡ (err (status invalid_argument "After round-up, volume size exceeds the limit specified"), s)
unfolding controller_expand_volume
expand_refuses_below_limit cloud volume_id k j low s named small positive below =
    let (m, in_gib, bytes, lower, upper) = round_up_least ((4 * k + 1) * gib) small in
    let whole : m * gib ≡ (4 * k + 1) * gib = omega arith in
    let given : (volume_id == "") ≡ false = ground (arith, eq_iff volume_id "") in
    rw (given, bytes, whole, int32_low j low (omega arith), int32-gib k) (ground arith)
