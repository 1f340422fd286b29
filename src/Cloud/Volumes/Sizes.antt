-- ===== src/Cloud/Volumes/Sizes.antt =====
-- The IOPS that a disk is created with, and the size that a resize leaves.
use osc_bsu_csi_driver.Prelude.{
  ℕ, ◌*◌, ◌≤◌, String, ◌≡◌, false, [], ◌∷◌, arith, ◌==◌, Bool-cases, inl, inr,
}
use osc_bsu_csi_driver.Go.Dict.{or_zero}
use osc_bsu_csi_driver.Go.Int.{
  ℤ, pos, ◌≤ℤ◌, int32, ltb_ℤ, int64-pos, pos-*ℤ, int32_of_IsInt32, int32-IsInt32,
}
use osc_bsu_csi_driver.Go.Error.{errorf}
use osc_bsu_csi_driver.Go.Act.{ok, >>=-ok}
use osc_bsu_csi_driver.Util.Size.{round_up_gib}
use osc_bsu_csi_driver.Cloud.Types.{min_total_iops, max_total_iops}
use osc_bsu_csi_driver.Cloud.Platform.{Platform, by_ids}
use osc_bsu_csi_driver.Cloud.Retry.{State, retrying, take_reply, fail_with}
use osc_bsu_csi_driver.Cloud.Read.{get_volume}
use osc_bsu_csi_driver.Cloud.Volumes.{iops_for, resize_disk, check_desired_size}

-- Whatever the capacity and the IOPS per GB, negative and overflowing ones included, the IOPS of a
-- request lie between 100 and 13000.
iops_for_bounds :
    (capacity per_gb : ℤ)
    → (min_total_iops ≤ℤ iops_for capacity per_gb) × (iops_for capacity per_gb ≤ℤ max_total_iops)
unfolding iops_for
iops_for_bounds capacity per_gb = ground arith

-- Where the IOPS per GB are at most 300 and their product with the capacity lies between the two
-- limits, the request has just that product.
pub iops_for_exact :
    (capacity per_gb : ℕ)
    → per_gb ≤ 300
    → 100 ≤ capacity * per_gb
    → capacity * per_gb ≤ 13000
    → iops_for (pos capacity) (pos per_gb) ≡ pos (capacity * per_gb)
unfolding iops_for
iops_for_exact capacity per_gb few lo hi =
    let small : ltb_ℤ (pos 300) (pos per_gb) ≡ false = ground arith in
    rw (small, pos-*ℤ capacity per_gb, int64-pos (capacity * per_gb) (omega arith)) (ground arith)

module _ {World : Type 0} (p : Platform World) where
  check_desired_size-enough :
      (volume_id : String) (wanted size : ℤ) (s s' : State World)
      → check_desired_size p volume_id wanted s ≡ (ok size, s')
      → int32 wanted ≤ℤ size
  unfolding check_desired_size
  check_desired_size-enough volume_id wanted size s s' h =
      let (v, read, rest) = >>=-ok (get_volume p (by_ids (volume_id ∷ []))) _ s size s' h in
      elim (Bool-cases (ltb_ℤ (or_zero (pos 0) v.size) (int32 wanted))) [
        | inl less ↦ ground arith
        | inr enough ↦ ground arith
      ]

  -- A size that `ResizeDisk` returns, in GiB, is at least the requested one, rounded up, as the
  -- 32-bit integer that is sent: whether the volume was large enough before, or was updated.
  pub resize_disk_enough :
      (volume_id : String) (bytes size : ℤ) (s s' : State World)
      → resize_disk p volume_id bytes s ≡ (ok size, s')
      → int32 (round_up_gib bytes) ≤ℤ size
  unfolding resize_disk
  resize_disk_enough volume_id bytes size s s' h =
      let (v, read, rest) = >>=-ok (get_volume p (by_ids (volume_id ∷ []))) _ s size s' h in
      let new = int32 (round_up_gib bytes) in
      elim (Bool-cases (or_zero "" v.state == "available")) [
        | inr busy ↦ ground arith
        | inl available ↦ elim (Bool-cases (ltb_ℤ (or_zero (pos 0) v.size) new)) [
          | inr enough ↦ ground arith
          | inl less ↦
              let (_, updated, last) =
                >>=-ok
                  (retrying p (p.update_volume (record { size = new; volume_id = volume_id }))
                    take_reply (fail_with (errorf "could not modify volume %q: %v")))
                  (λ _. check_desired_size p volume_id new) _ size s'
                  (rw (available, less) at rest) in
              let wide = check_desired_size-enough volume_id new size _ s' last in
              rw (int32_of_IsInt32 new (int32-IsInt32 (round_up_gib bytes))) at wide
        ]
      ]
