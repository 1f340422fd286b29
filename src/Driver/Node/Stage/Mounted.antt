-- ===== src/Driver/Node/Stage/Mounted.antt =====
-- Staging ends with the device mounted at the target.
use mathlib.Core.Path.{subst}
use osc_bsu_csi_driver.Prelude.{
  String, ◌≡◌, ap, ◌∙◌, sym, true, Option, none, some, List, arith, eq_iff, ◌==◌, if◌then◌else◌,
  Bool-cases, inl, inr,
}
use osc_bsu_csi_driver.Go.Int.{ℤ}
use osc_bsu_csi_driver.Go.Act.{ok, pure}
use osc_bsu_csi_driver.Go.Act.Success.{
  raise-never, Runs, >>=-Runs, or_fail-Runs, attempt-Runs, Keeps-Runs, unless-Runs,
}
use osc_bsu_csi_driver.Go.Act.Keeps.{
  Keeps, keeping, Keeps->>, Keeps-pure, Keeps-raise, Keeps-if, Keeps-ignoring, Keeps-unless,
  Keeps-or_fail,
}
use osc_bsu_csi_driver.Driver.Node.Host.{Host}
use osc_bsu_csi_driver.Driver.Node.Mounter.{exists_path}
use osc_bsu_csi_driver.Driver.Node.Luks.{
  LuksContext, mapper_path, is_luks, luks_format, check_luks_passphrase, luks_open,
}
use osc_bsu_csi_driver.Driver.Node.Stage.Formats.{
  IsKept, exists_path-Keeps, make_dir-Keeps, is_luks-Keeps, check_luks_passphrase-Keeps,
  luks_open-Keeps,
}
use osc_bsu_csi_driver.Driver.Node.Devices.Steady.{IsSteady, SameDevices, SameDevices-refl}
use osc_bsu_csi_driver.Driver.Node.Stage.{
  NodeStageVolumeRequest, is_encrypted, make_xfs, mount_chosen, mount_source, stage_encrypted,
  stage_source, unlock, unlock_with, crypt_name, close_mapping,
}

-- What is mounted at the target: the mapping of an encrypted volume, or the device.
abbrev pub staged_device : NodeStageVolumeRequest → String → String
staged_device req source =
    if is_encrypted req.publish_context then mapper_path (crypt_name source) else source

module _ {H : Type 0} (host : Host H) (laws : IsSteady host) where
  module _ (s₀ : H) where
    SameDevices-IsKept : IsKept host (SameDevices host s₀)
    SameDevices-IsKept = record {
      stat = λ p. keeping (λ s h. rw (laws.stat p s) h);
      lstat = λ p. keeping (λ s h. rw (laws.lstat p s) h);
      eval_symlinks = λ p. keeping (λ s h. rw (laws.eval_symlinks p s) h);
      mkdir_all = laws.mkdir_all s₀;
      run = λ c f. laws.run s₀ c;
      get_device_name = λ p. keeping (λ s h. rw (laws.get_device_name p s) h);
      format_and_mount = laws.format_and_mount s₀;
      get_disk_format = laws.get_disk_format s₀;
    }

    luks_format-Keeps :
        (device passphrase : String) (context : LuksContext)
        → Keeps (SameDevices host s₀) (luks_format host device passphrase context)
    unfolding luks_format
    luks_format-Keeps device passphrase context =
        Keeps->> _ (Keeps-or_fail _ _ (laws.run s₀ _)) (Keeps-pure _ tt)

    make_xfs-Keeps :
        (source fs_type existing : String)
        → Keeps (SameDevices host s₀) (make_xfs host source fs_type existing)
    unfolding make_xfs
    make_xfs-Keeps source fs_type existing =
        Keeps-if _ _ (Keeps-ignoring _ (laws.run s₀ _)) (Keeps-pure _ tt)

  -- What a staging that has mounted leaves: a device at the target, and the files of devices.
  abbrev pub Mounted : H → String → String → H → Type 0
  Mounted s source target s' =
      SameDevices host s s'
      × ((n : ℤ) × ((host.get_device_name_from_mount target s').0 ≡ ok (source, n)))

  mount_chosen-Mounted :
      (mapping : Option String) (source target : String) (options : List String) (existing : String)
      (chosen : Option String) (s₀ s s' : H)
      → SameDevices host s₀ s
      → Runs (mount_chosen host mapping source target options existing chosen) s tt s'
      → Mounted s₀ source target s'
  unfolding mount_chosen
  mount_chosen-Mounted mapping source target options existing none s₀ s s' same h =
      absurd (raise-never (close_mapping host mapping) _ s tt (ap (λ r. r.0) h))
  mount_chosen-Mounted mapping source target options existing (some fs_type) s₀ s s' same h =
      let (_, t, made, rest) = >>=-Runs (make_xfs host source fs_type existing) _ s tt s' h in
      let later = Keeps-Runs _ _ s _ t (make_xfs-Keeps s₀ source fs_type existing) same made in
      let (_, u, mounted, stops) =
        attempt-Runs (host.format_and_mount source target fs_type options) _ _ t tt s'
          (λ e. raise-never (close_mapping host mapping) _ _ tt) rest in
      let same_state : u ≡ s' = ap (λ r. r.1) stops in
      rw (← same_state) (
        Keeps-Runs _ _ t _ u (laws.format_and_mount s₀ source target fs_type options) later mounted,
        laws.mounted source target fs_type options t u mounted,
      )

  mount_source-Mounted :
      (mapping : Option String) (source target requested : String) (options : List String)
      (s₀ s s' : H)
      → SameDevices host s₀ s
      → Runs (mount_source host mapping source target requested options) s tt s'
      → Mounted s₀ source target s'
  unfolding mount_source
  mount_source-Mounted mapping source target requested options s₀ s s' same h =
      let (existing, t, read, rest) =
        attempt-Runs (host.get_disk_format source) _ _ s tt s'
          (λ e. raise-never (close_mapping host mapping) _ _ tt) h in
      mount_chosen-Mounted mapping source target options existing _ s₀ t s'
        (Keeps-Runs _ _ s _ t (laws.get_disk_format s₀ source) same read) rest

  unlock-Mounted :
      (req : NodeStageVolumeRequest) (source requested : String) (options : List String)
      (passphrase : Option String) (s₀ s s' : H)
      → SameDevices host s₀ s
      → Runs (unlock_with host req source requested options passphrase) s tt s'
      → Mounted s₀ (mapper_path (crypt_name source)) req.staging_target_path s'
  unfolding unlock_with unlock
  unlock-Mounted req source requested options none s₀ s s' same h = cc
  unlock-Mounted req source requested options (some passphrase) s₀ s s' same h =
      let P = SameDevices host s₀ in
      let keeps = SameDevices-IsKept s₀ in
      let (formatted, t₁, r₁, h₁) = >>=-Runs (is_luks host source) _ s tt s' h in
      let same₁ = Keeps-Runs P _ s _ t₁ (is_luks-Keeps host P keeps source) same r₁ in
      let (t₂, r₂, h₂) = unless-Runs formatted _ _ t₁ tt s' h₁ in
      let same₂ =
        Keeps-Runs P _ t₁ _ t₂
          (Keeps-unless P formatted (Keeps-or_fail P _ (luks_format-Keeps s₀ source passphrase _)))
          same₁ r₂ in
      let (fine, t₃, r₃, h₃) =
        >>=-Runs (check_luks_passphrase host source passphrase) _ t₂ tt s' h₂ in
      let same₃ =
        Keeps-Runs P _ t₂ _ t₃ (check_luks_passphrase-Keeps host P keeps source passphrase) same₂
          r₃ in
      let (t₄, r₄, h₄) = unless-Runs fine _ _ t₃ tt s' h₃ in
      let same₄ = Keeps-Runs P _ t₃ _ t₄ (Keeps-unless P fine (Keeps-raise P _)) same₃ r₄ in
      let (_, t₅, r₅, h₅) =
        or_fail-Runs (luks_open host source (crypt_name source) passphrase) _ _ t₄ tt s' h₄ in
      let same₅ =
        Keeps-Runs P _ t₄ _ t₅ (luks_open-Keeps host P keeps source (crypt_name source) passphrase)
          same₄ r₅ in
      mount_source-Mounted (some (crypt_name source)) (mapper_path (crypt_name source))
        req.staging_target_path requested options s₀ t₅ s' same₅ h₅

  -- What is mounted already is left.
  already-Mounted :
      (device source target : String) (n : ℤ) (s₀ s s' : H)
      → SameDevices host s₀ s
      → (host.get_device_name_from_mount target s).0 ≡ ok (device, n)
      → (device == source) ≡ true
      → Runs (pure tt) s tt s'
      → Mounted s₀ source target s'
  already-Mounted device source target n s₀ s s' same read equal stops =
      let same_state : s ≡ s' = ap (λ r. r.1) stops in
      let is_source : device ≡ source = ground (arith, eq_iff device source) in
      rw (← same_state) (same, (n, read ∙ ap (λ d. ok (d, n)) is_source))

  encrypted-Mounted :
      (req : NodeStageVolumeRequest) (device source requested : String) (options : List String)
      (n : ℤ) (s₀ s s' : H)
      → SameDevices host s₀ s
      → (host.get_device_name_from_mount req.staging_target_path s).0 ≡ ok (device, n)
      → Runs (stage_encrypted host req device source requested options) s tt s'
      → Mounted s₀ (mapper_path (crypt_name source)) req.staging_target_path s'
  unfolding stage_encrypted
  encrypted-Mounted req device source requested options n s₀ s s' same read h =
      elim (Bool-cases (device == mapper_path (crypt_name source))) [
        | inl equal ↦
            already-Mounted device (mapper_path (crypt_name source)) req.staging_target_path n s₀ s
              s' same read equal (rw equal at h)
        | inr other ↦ unlock-Mounted req source requested options _ s₀ s s' same (rw other at h)
      ]

  found-Mounted :
      (req : NodeStageVolumeRequest) (source requested : String) (options : List String)
      (found : String × ℤ) (s₀ s s' : H)
      → SameDevices host s₀ s
      → (host.get_device_name_from_mount req.staging_target_path s).0 ≡ ok found
      → Runs
          (if is_encrypted req.publish_context
            then stage_encrypted host req found.0 source requested options
            else if found.0 == source
            then pure tt
            else mount_source host none source req.staging_target_path requested options)
          s
          tt
          s'
      → Mounted s₀ (staged_device req source) req.staging_target_path s'
  found-Mounted req source requested options found s₀ s s' same read h =
      elim (Bool-cases (is_encrypted req.publish_context)) [
        | inl sealed ↦ rw sealed (
            encrypted-Mounted req found.0 source requested options found.1 s₀ s s' same read
              (rw sealed at h))
        | inr plain ↦ rw plain (elim (Bool-cases (found.0 == source)) [
          | inl equal ↦
              already-Mounted found.0 source req.staging_target_path found.1 s₀ s s' same read equal
                (rw (plain, equal) at h)
          | inr other ↦
              mount_source-Mounted none source req.staging_target_path requested options s₀ s s'
                same (rw (plain, other) at h)
        ])
      ]

  -- Staging ends with the source at the target, mounted then or before.
  pub stage_source-Mounted :
      (req : NodeStageVolumeRequest) (source requested : String) (options : List String) (s s' : H)
      → Runs (stage_source host req source requested options) s tt s'
      → Mounted s (staged_device req source) req.staging_target_path s'
  unfolding stage_source
  stage_source-Mounted req source requested options s s' h =
      let target = req.staging_target_path in
      let (exists, t, looked, h₁) = or_fail-Runs (exists_path host target) _ _ s tt s' h in
      let same₁ =
        Keeps-Runs _ _ s _ t (exists_path-Keeps host _ (SameDevices-IsKept s) target)
          (SameDevices-refl host laws s) looked in
      let (u, made, h₂) = unless-Runs exists _ _ t tt s' h₁ in
      let same₂ =
        Keeps-Runs _ _ t _ u
          (Keeps-unless _ exists
            (Keeps-or_fail _ _ (make_dir-Keeps host _ (SameDevices-IsKept s) target)))
          same₁ made in
      let (found, v, read, h₃) =
        or_fail-Runs (host.get_device_name_from_mount target) _ _ u tt s' h₂ in
      let same_state : v ≡ u = ap (λ r. r.1) (sym read) ∙ laws.get_device_name target u in
      found-Mounted req source requested options found s v s'
        (subst (SameDevices host s) (sym same_state) same₂)
        (ap (λ x. (host.get_device_name_from_mount target x).0) same_state ∙ ap (λ r. r.0) read) h₃
