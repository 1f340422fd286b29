-- ===== src/Util/Size.antt =====
-- pkg/util/util.go: volume sizes in bytes and in GiB, as Go's 64-bit integers.
pub mod Rounding
use osc_bsu_csi_driver.Prelude.{ℕ, ◌*◌}
use osc_bsu_csi_driver.Go.Int.{ℤ, pos, ◌+ℤ◌, ◌-ℤ◌, ◌*ℤ◌, quot, int64}

abbrev pub gib : ℕ
gib = 1024 * 1024 * 1024

unfoldable pub round_up_size : ℤ → ℕ → ℤ
round_up_size bytes unit = quot (int64 (int64 (bytes +ℤ pos unit) -ℤ pos 1)) unit

unfoldable pub round_up_bytes : ℤ → ℤ
unfolding round_up_size
round_up_bytes bytes = int64 (round_up_size bytes gib *ℤ pos gib)

unfoldable pub round_up_gib : ℤ → ℤ
unfolding round_up_size
round_up_gib bytes = round_up_size bytes gib

unfoldable pub bytes_to_gib : ℤ → ℤ
bytes_to_gib bytes = quot bytes gib

unfoldable pub gib_to_bytes : ℤ → ℤ
gib_to_bytes size = int64 (size *ℤ pos gib)
