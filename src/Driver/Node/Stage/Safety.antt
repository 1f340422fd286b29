-- ===== src/Driver/Node/Stage/Safety.antt =====
-- Staging formats no disk that has a format.
use osc_bsu_csi_driver.Prelude.{
  String, ◌≡◌, ◌≢◌, ap, ◌∙◌, Bool, true, false, ◌&&◌, Option, none, some, List, arith, eq_iff, ◌==◌,
  Bool-cases, inl, inr,
}
use osc_bsu_csi_driver.Go.Act.{ok, or_fail, unless}
use osc_bsu_csi_driver.Go.Error.{GoError}
use osc_bsu_csi_driver.Go.Act.Keeps.{
  Keeps, kept, keeping, Keeps-pure, Keeps-raise, Keeps->>=, Keeps->>, Keeps-attempt,
  Keeps-attempt_knowing, Keeps-or_fail, Keeps-unless, Keeps-if, Keeps-if_knowing, Keeps->>=_knowing,
  Keeps-ignoring,
}
use osc_bsu_csi_driver.Driver.InFlight.{insert_request}
use osc_bsu_csi_driver.Driver.Node.Stage.Keeping.{node_stage_volume-Keeps}
use osc_bsu_csi_driver.Driver.Node.Host.{Host}
use osc_bsu_csi_driver.Driver.Node.Luks.{mapper_path, LuksContext, luks_format}
use osc_bsu_csi_driver.Driver.Node.Mounts.{fs_type_xfs}
use osc_bsu_csi_driver.Driver.Node.Stage.{
  NodeStageVolumeRequest, NodeState, make_xfs, mount_source, mount_chosen, unlock, crypt_name,
  stage_encrypted, unlock_with, is_encrypted, stage_source, stage_device, stage_in_flight,
  node_stage_volume,
}
use osc_bsu_csi_driver.Driver.Node.Stage.Formats.{
  IsFormatted, IsSealed, mkfs_xfs-Keeps, luks_format-Keeps, exists_path-Keeps, make_dir-Keeps,
  find_device_path-Keeps, is_luks-Keeps, is_luks-true, check_luks_passphrase-Keeps, luks_open-Keeps,
  close_mapping-Keeps,
}

module _ {H : Type 0} (host : Host H) (disk : String → Bool) (P : H → Type 0)
    (laws : IsFormatted host disk P) where
  make_xfs-Keeps :
      (source fs_type existing : String)
      → (disk source ≡ true → existing ≢ "")
      → Keeps P (make_xfs host source fs_type existing)
  unfolding make_xfs
  make_xfs-Keeps source fs_type existing full =
      Keeps-if_knowing P (fs_type == fs_type_xfs && existing == "")
        (λ blank. elim (Bool-cases (disk source)) [
          | inl on ↦ absurd (full on (ground (arith, eq_iff existing "", blank)))
          | inr other ↦ Keeps-ignoring P (mkfs_xfs-Keeps host P disk laws source other)
        ])
        (Keeps-pure P tt)

  mount_chosen-Keeps :
      (mapping : Option String) (source target : String) (options : List String) (existing : String)
      (chosen : Option String)
      → (disk source ≡ true → existing ≢ "")
      → Keeps P (mount_chosen host mapping source target options existing chosen)
  unfolding mount_chosen
  mount_chosen-Keeps mapping source target options existing none full =
      Keeps->> P (close_mapping-Keeps host P laws.calls mapping) (Keeps-raise P _)
  mount_chosen-Keeps mapping source target options existing (some fs_type) full =
      Keeps->> P (make_xfs-Keeps source fs_type existing full) (
        Keeps-attempt P (laws.calls.format_and_mount source target fs_type options) (Keeps-pure P)
          (λ _. Keeps->> P (close_mapping-Keeps host P laws.calls mapping) (Keeps-raise P _)))

  mount_source-Keeps :
      (mapping : Option String) (source target requested : String) (options : List String)
      → Keeps P (mount_source host mapping source target requested options)
  unfolding mount_source
  mount_source-Keeps mapping source target requested options =
      Keeps-attempt_knowing P (λ existing. disk source ≡ true → existing ≢ "") Unit
        (laws.calls.get_disk_format source)
        (λ s existing h r on empty. laws.has_format source s on h (r ∙ ap ok empty)) (λ _ _ _ _. tt)
        (λ existing full. mount_chosen-Keeps mapping source target options existing _ full)
        (λ _ _. Keeps->> P (close_mapping-Keeps host P laws.calls mapping) (Keeps-raise P _))

  -- A device is formatted for encryption only where it is not the disk.
  format_unless :
      (source passphrase : String) (context : LuksContext) (formatted : Bool) (e : GoError)
      → (disk source ≡ true → formatted ≡ true)
      → Keeps P (unless formatted (or_fail (luks_format host source passphrase context) e))
  format_unless source passphrase context true e known = Keeps-pure P tt
  format_unless source passphrase context false e known =
      Keeps-or_fail P e
        (luks_format-Keeps host P disk laws source passphrase context (ground (arith, known)))

  unlock-Keeps :
      (req : NodeStageVolumeRequest) (source requested passphrase : String) (options : List String)
      → IsSealed host disk P
      → Keeps P (unlock host req source requested options passphrase)
  unfolding unlock
  unlock-Keeps req source requested passphrase options sealed =
      Keeps->>=_knowing P (λ formatted. disk source ≡ true → formatted ≡ true)
        (is_luks-Keeps host P laws.calls source)
        (λ s b h r. is_luks-true host P disk source s b sealed h r)
        (λ formatted known. Keeps->> P (format_unless source passphrase _ formatted _ known) (
          Keeps->>= P (check_luks_passphrase-Keeps host P laws.calls source passphrase) (λ fine.
            Keeps->> P (Keeps-unless P fine (Keeps-raise P _)) (
              Keeps->> P
                (Keeps-or_fail P _
                  (luks_open-Keeps host P laws.calls source (crypt_name source) passphrase))
                (mount_source-Keeps _ _ _ requested options)))))

  unlock_with-Keeps :
      (req : NodeStageVolumeRequest) (source requested : String) (options : List String)
      (passphrase : Option String)
      → IsSealed host disk P
      → Keeps P (unlock_with host req source requested options passphrase)
  unfolding unlock_with
  unlock_with-Keeps req source requested options none sealed = Keeps-raise P _
  unlock_with-Keeps req source requested options (some passphrase) sealed =
      unlock-Keeps req source requested passphrase options sealed

  stage_encrypted-Keeps :
      (req : NodeStageVolumeRequest) (device source requested : String) (options : List String)
      → IsSealed host disk P
      → Keeps P (stage_encrypted host req device source requested options)
  unfolding stage_encrypted
  stage_encrypted-Keeps req device source requested options sealed =
      Keeps-if P (device == mapper_path (crypt_name source)) (Keeps-pure P tt)
        (unlock_with-Keeps req source requested options _ sealed)

  module _ (req : NodeStageVolumeRequest)
      (sealed : is_encrypted req.publish_context ≡ true → IsSealed host disk P) where
    stage_source-Keeps :
        (source requested : String) (options : List String)
        → Keeps P (stage_source host req source requested options)
    unfolding stage_source
    stage_source-Keeps source requested options =
        Keeps->>= P
          (Keeps-or_fail P _ (exists_path-Keeps host P laws.calls req.staging_target_path))
          (λ exists.
            Keeps->> P
              (Keeps-unless P exists
                (Keeps-or_fail P _ (make_dir-Keeps host P laws.calls req.staging_target_path)))
              (Keeps->>= P (Keeps-or_fail P _ (laws.calls.get_device_name req.staging_target_path))
                (λ found.
                  Keeps-if_knowing P (is_encrypted req.publish_context)
                    (λ encrypted.
                      stage_encrypted-Keeps req found.0 source requested options (sealed encrypted))
                    (Keeps-if P (found.0 == source) (Keeps-pure P tt)
                      (mount_source-Keeps none source req.staging_target_path requested options)))))

    stage_device-Keeps :
        (requested : String) (options : List String) (path : Option String)
        → Keeps P (stage_device host req requested options path)
    unfolding stage_device
    stage_device-Keeps requested options none = Keeps-raise P _
    stage_device-Keeps requested options (some path) =
        Keeps->>= P (Keeps-or_fail P _ (find_device_path-Keeps host P laws.calls path))
          (λ source. stage_source-Keeps source requested options)

    stage_in_flight-Keeps :
        (text requested : String) (options : List String)
        → Keeps (λ s. P s.host) (stage_in_flight host text req requested options)
    unfolding stage_in_flight
    stage_in_flight-Keeps text requested options = keeping (λ s h.
        elim (Bool-cases (insert_request text s.in_flight).0) [
          | inl new ↦ rw new (kept P (stage_device-Keeps requested options _) s.host h)
          | inr taken ↦ rw taken h
        ])

  pub node_stage_volume-formatless :
      (text : NodeStageVolumeRequest → String) (req : NodeStageVolumeRequest) (s : NodeState H)
      → (is_encrypted req.publish_context ≡ true → IsSealed host disk P)
      → P s.host
      → P (node_stage_volume host text req s).1.host
  node_stage_volume-formatless text req s sealed h =
      kept (λ s. P s.host)
        (node_stage_volume-Keeps host text req (λ s. P s.host)
          (stage_in_flight-Keeps req sealed (text req)))
        s h
