-- ===== src/Util/Version.antt =====
-- pkg/util/version.go: the version of the driver.
use Prim.Native.String.{◌++◌ as concat}
use osc_bsu_csi_driver.Prelude.{String}
use osc_bsu_csi_driver.Go.Act.{Act}

pub record VersionInfo : Type 0 where
  pub driver_version : String
  pub git_commit : String
  pub build_date : String
  pub go_version : String
  pub compiler : String
  pub platform : String

-- What the build sets by -ldflags, and what the package `runtime` says.
pub record Build : Type 0 where
  pub driver_version : String
  pub git_commit : String
  pub build_date : String
  pub go_version : String
  pub compiler : String
  pub goos : String
  pub goarch : String

abbrev pub get_version : Build → VersionInfo
get_version build = record {
  driver_version = build.driver_version;
  git_commit = build.git_commit;
  build_date = build.build_date;
  go_version = build.go_version;
  compiler = build.compiler;
  platform = concat build.goos (concat "/" build.goarch);
}

-- `marshal_indent` is `json.MarshalIndent` with two blanks.
abbrev pub get_version_json : {W : Type 0} → (VersionInfo → Act W String) → Build → Act W String
get_version_json marshal_indent build = marshal_indent (get_version build)
