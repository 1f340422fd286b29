-- ===== src/Util/Size/Rounding.antt =====
-- How sizes round, and where the rounding wraps around.
use osc_bsu_csi_driver.Prelude.{ℕ, suc, ap, ◌+◌, ◌-◌, ◌*◌, ◌/◌, ◌^◌, ◌≤◌, ◌<◌, ◌≡◌, refl, arith}
use osc_bsu_csi_driver.Go.Int.{pos, negsuc, ◌-ℤ◌, int64, int64-pos, pos-+ℤ, pos-*ℤ}
use osc_bsu_csi_driver.Util.Size.{
  gib, round_up_size, round_up_bytes, round_up_gib, bytes_to_gib, gib_to_bytes,
}

-- The number of GiB that hold a number of bytes.
abbrev pub gib_for : ℕ → ℕ
gib_for n = (n + gib - 1) / gib

last_byte : (m : ℕ) → 0 < m → m ≤ 2 ^ 63 → int64 (int64 (pos m) -ℤ pos 1) ≡ pos (m - 1)
unfolding int64
last_byte m h k = ground arith

last_byte_wraps :
    (m : ℕ) → 2 ^ 63 < m → m < 2 ^ 64 → int64 (int64 (pos m) -ℤ pos 1) ≡ negsuc (2 ^ 64 - m)
unfolding int64
last_byte_wraps m h k = ground arith

round_up_size-pos : (n : ℕ) → n ≤ 2 ^ 63 - gib → round_up_size (pos n) gib ≡ pos (gib_for n)
unfolding round_up_size
round_up_size-pos n h = rw pos-+ℤ (rw (last_byte (n + gib) (omega arith) (omega arith)) refl)

-- For a size of at most 2^63 - 2^30 bytes, rounding up gives the least number of GiB that holds it,
-- in GiB and in bytes.
pub round_up_least :
    (n : ℕ)
    → n ≤ 2 ^ 63 - gib
    → (k : ℕ) × (round_up_gib (pos n) ≡ pos k)
      × (round_up_bytes (pos n) ≡ pos (k * gib))
      × (n ≤ k * gib)
      × (k * gib < n + gib)
unfolding round_up_gib round_up_bytes
round_up_least n h =
    let size = round_up_size-pos n h in
    let fits : gib_for n * gib < 2 ^ 63 = omega arith in
    (gib_for n, size, rw (size, pos-*ℤ, int64-pos (gib_for n * gib) fits), omega arith, omega arith)

-- For a size of at most 2^63 - 2^30 bytes, converting the rounded size back to GiB loses nothing:
-- the number of GiB that `CreateDisk` asks for and that `GetDiskByName` compares with is the
-- rounded one.
pub bytes_to_gib-round_up_bytes :
    (n : ℕ) → n ≤ 2 ^ 63 - gib → bytes_to_gib (round_up_bytes (pos n)) ≡ round_up_gib (pos n)
unfolding bytes_to_gib
bytes_to_gib-round_up_bytes n h =
    let (k, size, bytes, lower, upper) = round_up_least n h in
    rw (size, bytes) (ap pos (omega arith))

-- Converting GiB to bytes and back loses nothing, for sizes whose bytes fit in 64 bits.
pub bytes_to_gib-gib_to_bytes :
    (k : ℕ) → k * gib < 2 ^ 63 → bytes_to_gib (gib_to_bytes (pos k)) ≡ pos k
unfolding bytes_to_gib gib_to_bytes
bytes_to_gib-gib_to_bytes k h = rw (pos-*ℤ, int64-pos (k * gib) h) (ap pos (omega arith))

-- A size of more than 2^63 - 2^30 + 1 bytes, and fewer than 2^63, wraps around: whatever it is, it
-- rounds to -(2^63 - 2^30) bytes.
pub round_up_bytes_wraps :
    (n : ℕ) → 2 ^ 63 - gib + 1 < n → n < 2 ^ 63 → round_up_bytes (pos n) ≡ negsuc (2 ^ 63 - gib - 1)
unfolding round_up_bytes round_up_size
round_up_bytes_wraps n lo hi =
    let whole : suc (2 ^ 64 - (n + gib)) / gib ≡ 2 ^ 33 - 1 = omega arith in
    rw (pos-+ℤ n gib, last_byte_wraps (n + gib) (omega arith) (omega arith), whole)
      (unfold int64 in refl)
