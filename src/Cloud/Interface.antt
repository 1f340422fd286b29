-- ===== src/Cloud/Interface.antt =====
-- pkg/cloud/cloud.go: the interface `Cloud`, which the controller uses, and its implementation.
use osc_bsu_csi_driver.Prelude.{String, Bool}
use osc_bsu_csi_driver.Go.Dict.{Dict}
use osc_bsu_csi_driver.Go.Int.{ℤ}
use osc_bsu_csi_driver.Go.Act.{Act}
use osc_bsu_csi_driver.Cloud.Types.{Disk, DiskOptions, Snapshot, ListSnapshotsResponse}
use osc_bsu_csi_driver.Cloud.Platform.{Platform}
use osc_bsu_csi_driver.Cloud.Retry.{State}
use osc_bsu_csi_driver.Cloud.Read
use osc_bsu_csi_driver.Cloud.Volumes
use osc_bsu_csi_driver.Cloud.Attach
use osc_bsu_csi_driver.Cloud.Snapshots

-- The methods that the controller calls; the options of a snapshot are its tags.
pub record Cloud (S : Type 0) : Type 0 where
  pub create_disk : String → DiskOptions → Act S Disk
  pub delete_disk : String → Act S Bool
  pub attach_disk : String → String → Act S String
  pub detach_disk : String → String → Act S (Unit {0})
  pub resize_disk : String → ℤ → Act S ℤ
  pub get_disk_by_name : String → ℤ → Act S Disk
  pub get_disk_by_id : String → Act S Disk
  pub is_exist_instance : String → Act S Bool
  pub create_snapshot : String → Dict String → Act S Snapshot
  pub delete_snapshot : String → Act S Bool
  pub get_snapshot_by_name : String → Act S Snapshot
  pub get_snapshot_by_id : String → Act S Snapshot
  pub list_snapshots : String → ℤ → String → Act S ListSnapshotsResponse

-- The cloud of a region.
abbrev pub osc_cloud :
    {World : Type 0} → (Dict String → Dict String) → Platform World → String → Cloud (State World)
osc_cloud visit p region = record {
  create_disk = Volumes.create_disk p region;
  delete_disk = Volumes.delete_disk p;
  attach_disk = Attach.attach_disk visit p;
  detach_disk = Attach.detach_disk visit p;
  resize_disk = Volumes.resize_disk p;
  get_disk_by_name = Volumes.get_disk_by_name p;
  get_disk_by_id = Volumes.get_disk_by_id p;
  is_exist_instance = Read.is_exist_instance p;
  create_snapshot = Snapshots.create_snapshot p;
  delete_snapshot = Snapshots.delete_snapshot p;
  get_snapshot_by_name = Snapshots.get_snapshot_by_name p;
  get_snapshot_by_id = Snapshots.get_snapshot_by_id p;
  list_snapshots = Snapshots.list_snapshots p;
}
