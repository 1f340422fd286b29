-- ===== src/Driver/Node/Publish/ReadOnly.antt =====
-- pkg/driver/node.go: the kind of mount that publishing makes, and when it is read-only.
use osc_bsu_csi_driver.Prelude.{
  String, ◌≡◌, refl, Bool, true, false, not, ◌&&◌, ◌||◌, Option, none, some, List, [], ◌∷◌,
  if◌then◌else◌,
}
use osc_bsu_csi_driver.Go.Strings.{contains}
use osc_bsu_csi_driver.Go.Error.{GoError}
use osc_bsu_csi_driver.Go.Act.Keeps.{
  Keeps, Keeps-pure, Keeps-raise, Keeps->>=, Keeps->>, Keeps-attempt, Keeps-or_fail, Keeps-unless,
  Keeps-if,
}
use osc_bsu_csi_driver.Driver.Requests.{VolumeCapability, AccessType, not_set, block, mount}
use osc_bsu_csi_driver.Driver.Node.Host.{Host}
use osc_bsu_csi_driver.Driver.Node.Mounter.{make_file}
use osc_bsu_csi_driver.Driver.Node.Mounts.{has_mount_option, is_mounted}
use osc_bsu_csi_driver.Driver.Node.Stage.Formats.{
  IsKept, exists_path-Keeps, make_dir-Keeps, find_device_path-Keeps,
}
use osc_bsu_csi_driver.Driver.Node.Publish.{
  NodePublishVolumeRequest, bind_options, mount_flags_of, remove_target, mount_unless_mounted,
  publish_device,
}

-- Whether an option can make a mount writable again, wherever it stands among the options: "rw" and
-- "defaults", on their own or in a list with commas.
abbrev pub makes_writable : String → Bool
makes_writable option = contains option "rw" || contains option "defaults"

-- No option makes a mount writable.
unfoldable pub stays_readonly : List String → Bool
stays_readonly [] = true
stays_readonly (o ∷ rest) = not (makes_writable o) && stays_readonly rest

-- The mount flags of a request.
abbrev pub access_flags : AccessType → List String
access_flags not_set = []
access_flags block = []
access_flags (mount m) = mount_flags_of m

abbrev pub requested_flags : Option VolumeCapability → List String
requested_flags none = []
requested_flags (some cap) = access_flags cap.access_type

-- A bind mount, and where that is asked for one that is read-only: "ro" is among its options, and
-- nothing that would take it back.
abbrev pub is_bind : Bool → List String → Bool
is_bind readonly options =
    if has_mount_option options "bind"
    then (if readonly then has_mount_option options "ro" && stays_readonly options else true)
    else false

-- A property of the host that outlasts every call of a publication but mounts of another kind.
pub record IsBound {H : Type 0} (host : Host H) (readonly : Bool) (P : H → Type 0) : Type 0 where
  pub calls : IsKept host P
  pub open_file : (path : String) → Keeps P (host.open_file path)
  pub remove : (path : String) → Keeps P (host.remove path)
  pub unmount : (path : String) → Keeps P (host.unmount path)
  pub is_likely_not_mount_point : (path : String) → Keeps P (host.is_likely_not_mount_point path)
  pub do_mount :
      (source target fs_type : String) (options : List String)
      → is_bind readonly options ≡ true
      → Keeps P (host.do_mount source target fs_type options)

pub bind_options-is_bind : (readonly : Bool) → is_bind readonly (bind_options readonly) ≡ true
unfolding has_mount_option stays_readonly contains
bind_options-is_bind true = refl
bind_options-is_bind false = refl

module _ {H : Type 0} (host : Host H) (P : H → Type 0) (readonly : Bool)
    (laws : IsBound host readonly P) where
  make_file-Keeps : (path : String) → Keeps P (make_file host path)
  unfolding make_file
  make_file-Keeps path =
      Keeps-attempt P (laws.open_file path) (λ _. Keeps-pure P tt)
        (λ e. Keeps-if P (host.is_exist e) (Keeps-pure P tt) (Keeps-raise P e))

  is_mounted-Keeps : (target : String) → Keeps P (is_mounted host target)
  unfolding is_mounted
  is_mounted-Keeps target =
      Keeps-attempt P (laws.is_likely_not_mount_point target)
        (λ not_mnt. Keeps-pure P (not not_mnt))
        (λ e. Keeps-if P (host.is_not_exist e) (Keeps-pure P false) (
          Keeps-attempt P (exists_path-Keeps host P laws.calls target) (λ _. Keeps-raise P _)
            (λ path_err.
              Keeps-if P (host.is_corrupted_mnt path_err)
                (Keeps->> P (Keeps-or_fail P _ (laws.unmount target)) (Keeps-pure P false))
                (Keeps-raise P _))))

  remove_target-Keeps : (target : String) (e : GoError) → Keeps P (remove_target host target e)
  unfolding remove_target
  remove_target-Keeps target e =
      Keeps-attempt P (laws.remove target) (λ _. Keeps-raise P e) (λ _. Keeps-raise P _)

  mount_unless_mounted-Keeps :
      (source target fs_type : String) (options : List String)
      → is_bind readonly options ≡ true
      → Keeps P (mount_unless_mounted host source target fs_type options)
  unfolding mount_unless_mounted
  mount_unless_mounted-Keeps source target fs_type options bound =
      Keeps->>= P (Keeps-or_fail P _ (is_mounted-Keeps target)) (λ mounted. Keeps-unless P mounted (
        Keeps-attempt P (laws.do_mount source target fs_type options bound) (Keeps-pure P)
          (λ _. remove_target-Keeps target _)))

  pub publish_device-Keeps :
      (folder : String) (req : NodePublishVolumeRequest) (options : List String)
      (path : Option String)
      → is_bind readonly options ≡ true
      → Keeps P (publish_device host folder req options path)
  unfolding publish_device
  publish_device-Keeps folder req options none bound = Keeps-raise P _
  publish_device-Keeps folder req options (some path) bound =
      Keeps->>= P (Keeps-or_fail P _ (find_device_path-Keeps host P laws.calls path)) (λ source.
        Keeps->>= P (Keeps-or_fail P _ (exists_path-Keeps host P laws.calls folder)) (λ exists.
          Keeps->> P
            (Keeps-unless P exists (Keeps-or_fail P _ (make_dir-Keeps host P laws.calls folder)))
            (Keeps-attempt P (make_file-Keeps req.target_path)
              (λ _. mount_unless_mounted-Keeps source req.target_path "" options bound)
              (λ _. remove_target-Keeps req.target_path _))))
