-- ===== src/Examples/Sizes.antt =====
-- Sizes and requests with concrete numbers.
use osc_bsu_csi_driver.Prelude.{ℕ, ◌+◌, ◌-◌, ◌*◌, ◌^◌, ◌≤◌, ◌<◌, ◌≡◌, refl, some, arith, ◌⊎◌}
use osc_bsu_csi_driver.Go.Int.{ℤ, pos, negsuc, int64, ◌≤ℤ◌}
use osc_bsu_csi_driver.Go.Act.{ok}
use osc_bsu_csi_driver.Util.Size.{gib, round_up_bytes}
use osc_bsu_csi_driver.Driver.Controller.Requirements.{get_vol_size_bytes}
use osc_bsu_csi_driver.Driver.Controller.Requirements.Laws.{
  get_vol_size_bytes_fits, get_vol_size_bytes_wraps,
}

fits_lem :
    get_vol_size_bytes
      (some (record { required_bytes = pos 1500000000; limit_bytes = pos 3000000000 }))
    ≡ ok (pos 2147483648)
unfolding get_vol_size_bytes round_up_bytes int64
fits_lem = refl

get_vol_size_bytes_fits_example :
    (k : ℕ) × (◌≡◌ {A = ℤ} (pos 2147483648) (pos (k * gib)))
    × (1500000000 ≤ k * gib)
    × (k * gib < 1500000000 + gib)
    × ((pos 3000000000 ≤ℤ pos 0) ⊎ (pos 2147483648 ≤ℤ pos 3000000000))
get_vol_size_bytes_fits_example =
    get_vol_size_bytes_fits 1500000000 (pos 3000000000) (pos 2147483648) (omega arith) fits_lem

get_vol_size_bytes_wraps_example :
    get_vol_size_bytes
      (some (record { required_bytes = pos 9223372036854775807; limit_bytes = pos 1 }))
    ≡ ok (negsuc (2 ^ 63 - gib - 1))
get_vol_size_bytes_wraps_example =
    get_vol_size_bytes_wraps 9223372036854775807 (pos 1) (omega arith) (omega arith)
