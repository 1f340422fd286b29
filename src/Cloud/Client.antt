-- ===== src/Cloud/Client.antt =====
-- pkg/cloud/cloud.go: `OscClient`, which passes each call on to the API of the SDK with its own
-- authorisation, whatever the context of the call.
use osc_bsu_csi_driver.Prelude.{String, Option, List}
use osc_bsu_csi_driver.DeviceManager.Manager.{Vm}
use osc_bsu_csi_driver.Cloud.Platform.{
  ApiResult, Volume, OscSnapshot, Filters, CreateVolumeRequest, CreateTagsRequest,
  LinkVolumeRequest, UpdateVolumeRequest, CreateSnapshotRequest,
}

-- A call of the API with what it replies.
abbrev pub ApiCall : Type 0 → Type 0 → Type 0 → Type 0
ApiCall World Request Reply = Request → World → ApiResult Reply × World

-- `osc.APIClient`: each call is made with an authorisation. The calls for subregions have types of
-- the SDK that nothing here reads.
pub record ApiClient (Auth World SubregionsRequest Subregions : Type 0) : Type 0 where
  pub create_volume : Auth → ApiCall World CreateVolumeRequest (Option Volume)
  pub create_tags : Auth → ApiCall World CreateTagsRequest (Unit {0})
  pub read_volumes : Auth → ApiCall World Filters (List Volume)
  pub delete_volume : Auth → ApiCall World String (Unit {0})
  pub link_volume : Auth → ApiCall World LinkVolumeRequest (Unit {0})
  pub unlink_volume : Auth → ApiCall World String (Unit {0})
  pub create_snapshot : Auth → ApiCall World CreateSnapshotRequest (Option OscSnapshot)
  pub read_snapshots : Auth → ApiCall World Filters (List OscSnapshot)
  pub delete_snapshot : Auth → ApiCall World String (Unit {0})
  pub read_subregions : Auth → ApiCall World SubregionsRequest Subregions
  pub read_vms : Auth → ApiCall World String (List Vm)
  pub update_volume : Auth → ApiCall World UpdateVolumeRequest (Unit {0})

pub record OscClient (Config Auth World SubregionsRequest Subregions : Type 0) : Type 0 where
  pub config : Config
  pub auth : Auth
  pub api : ApiClient Auth World SubregionsRequest Subregions

module _ {Config Auth World SubregionsRequest Subregions Context : Type 0}
    (client : OscClient Config Auth World SubregionsRequest Subregions) where
  abbrev pub create_volume : Context → ApiCall World CreateVolumeRequest (Option Volume)
  create_volume context req = client.api.create_volume client.auth req

  abbrev pub create_tags : Context → ApiCall World CreateTagsRequest (Unit {0})
  create_tags context req = client.api.create_tags client.auth req

  abbrev pub read_volumes : Context → ApiCall World Filters (List Volume)
  read_volumes context req = client.api.read_volumes client.auth req

  abbrev pub delete_volume : Context → ApiCall World String (Unit {0})
  delete_volume context req = client.api.delete_volume client.auth req

  abbrev pub link_volume : Context → ApiCall World LinkVolumeRequest (Unit {0})
  link_volume context req = client.api.link_volume client.auth req

  abbrev pub unlink_volume : Context → ApiCall World String (Unit {0})
  unlink_volume context req = client.api.unlink_volume client.auth req

  abbrev pub create_snapshot : Context → ApiCall World CreateSnapshotRequest (Option OscSnapshot)
  create_snapshot context req = client.api.create_snapshot client.auth req

  abbrev pub read_snapshots : Context → ApiCall World Filters (List OscSnapshot)
  read_snapshots context req = client.api.read_snapshots client.auth req

  abbrev pub delete_snapshot : Context → ApiCall World String (Unit {0})
  delete_snapshot context req = client.api.delete_snapshot client.auth req

  abbrev pub read_subregions : Context → ApiCall World SubregionsRequest Subregions
  read_subregions context req = client.api.read_subregions client.auth req

  abbrev pub read_vms : Context → ApiCall World String (List Vm)
  read_vms context req = client.api.read_vms client.auth req

  abbrev pub update_volume : Context → ApiCall World UpdateVolumeRequest (Unit {0})
  update_volume context req = client.api.update_volume client.auth req
