-- ===== src/Examples/Unpublishing.antt =====
-- A host that keeps what is mounted where, and has a file just at the mounts.
use osc_bsu_csi_driver.Prelude.{
  ◌≡◌, refl, false, none, some, [], ◌∷◌, arith, eq_iff, Option-cases, inl, inr,
}
use osc_bsu_csi_driver.Go.Dict.{lookup, delete, lookup-delete}
use osc_bsu_csi_driver.Go.Error.{errorf}
use osc_bsu_csi_driver.Go.Act.{ok, err}
use osc_bsu_csi_driver.Driver.Node.Host.{Host}
use osc_bsu_csi_driver.Driver.Node.Mounts.{is_mounted}
use osc_bsu_csi_driver.Driver.Node.Publish.{remove_path, node_unpublish_volume}
use osc_bsu_csi_driver.Driver.Node.Publish.Gone.{
  Missing, IsRemovable, node_unpublish_volume-Missing,
}
use osc_bsu_csi_driver.Examples.Box.{Box, host}

abbrev bare : Host Box
bare = record host {
  stat =
      λ p s. (elim (lookup p s.mounts) [ some _ ↦ ok tt | none ↦ err (errorf "no such file") ], s);
  remove = λ p s. (ok tt, record s { mounts = delete p s.mounts });
  is_likely_not_mount_point = λ p s.
      (elim (lookup p s.mounts) [ some _ ↦ ok false | none ↦ err (errorf "no such file") ], s);
}

bare-IsRemovable : IsRemovable bare
bare-IsRemovable = record {
  stat = λ p s. refl;
  removed = λ p s s' h.
      (errorf "no such file", ground (arith, h, lookup-delete p p s.mounts, eq_iff p p), refl);
  no_mount = λ p s gone. elim (Option-cases (lookup p s.mounts)) [
    | inl absent ↦ (errorf "no such file", rw absent, refl)
    | inr (v, there) ↦ absurd (ground (arith, gone.1, there))
  ];
}

abbrev published : Box
published = record { mounts = ("/pod", "/dev/xvdb") ∷ ("/mnt", "/dev/xvdb") ∷ []; format = "ext4" }

abbrev unpublished : Box
unpublished = record { mounts = ("/mnt", "/dev/xvdb") ∷ []; format = "ext4" }

unpublished_lem : node_unpublish_volume bare "vol-1" "/pod" published ≡ (ok tt, unpublished)
unfolding node_unpublish_volume is_mounted remove_path lookup delete
unpublished_lem = refl

node_unpublish_volume-Missing_example :
    Missing bare "/pod" unpublished
    × (node_unpublish_volume bare "vol-1" "/pod" unpublished ≡ (ok tt, unpublished))
node_unpublish_volume-Missing_example =
    node_unpublish_volume-Missing bare bare-IsRemovable "vol-1" "/pod" published unpublished
      unpublished_lem
