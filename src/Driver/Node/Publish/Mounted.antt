-- ===== src/Driver/Node/Publish/Mounted.antt =====
-- What a publication leaves mounted, and what it finds there when it comes again.
use mathlib.Core.Path.{subst}
use osc_bsu_csi_driver.Prelude.{
  String, ◌≡◌, ◌≢◌, ap, ◌∙◌, sym, Bool, true, false, List, arith, Bool-cases, ◌⊎◌, inl, inr,
  if◌then◌else◌,
}
use osc_bsu_csi_driver.Go.Error.{GoError, status, internal}
use osc_bsu_csi_driver.Go.Act.{Result-cases, ok, err, Act, pure, raise, attempt, or_fail, ◌>>◌}
use osc_bsu_csi_driver.Go.Act.Success.{Runs, or_fail-Runs, attempt-Runs}
use osc_bsu_csi_driver.Driver.Node.Host.{Host}
use osc_bsu_csi_driver.Driver.Node.Mounter.{make_file, make_dir, exists_path}
use osc_bsu_csi_driver.Driver.Node.Mounts.{is_mounted}
use osc_bsu_csi_driver.Driver.Node.Publish.{remove_target, mount_unless_mounted}

-- Something is mounted at a path.
abbrev pub MountedAt : {H : Type 0} → Host H → String → H → Type 0
MountedAt host p s = (host.is_likely_not_mount_point p s).0 ≡ ok false

-- What the operating system does at the target of a publication, `staged` being the folder where the
-- volume is staged, and `dir` giving the folder of a path.
--   looked, detected: a look for a mount changes nothing, and sees what was mounted at the target. The
--     look compares the devices of a path and of its folder: it sees what is mounted from another
--     device, as a staged volume and the file of a block device are, and misses other bind mounts.
--   made_again: where `os.MkdirAll` has left a folder, it does nothing.
--   made_anew: it says that there is something where a file cannot be looked at, and so no mount.
--   opened_again, opened_new, opened_there: `os.OpenFile` without O_EXCL opens a file that is there,
--     never fails because it is there, and leaves at the target a file in a folder.
--   folder_mount, file_mount: what is mounted from the staged folder is a folder, and a mount at a file
--     is a file, in the same folder.
pub record IsBindable {H : Type 0} (host : Host H) (dir : String → String) (staged target : String)
    : Type 0 where
  pub looked : (p : String) (s : H) → (host.is_likely_not_mount_point p s).1 ≡ s
  pub detected :
      (source fs_type : String) (options : List String) (s s' : H)
      → host.do_mount source target fs_type options s ≡ (ok tt, s')
      → MountedAt host target s'
  pub made_again :
      (p : String) (s s' : H) → host.mkdir_all p s ≡ (ok tt, s') → host.mkdir_all p s' ≡ (ok tt, s')
  pub made_anew :
      (p : String) (e : GoError) (s : H)
      → (host.mkdir_all p s).0 ≡ err e
      → host.is_exist e ≡ true
      → ¬ MountedAt host p (host.mkdir_all p s).1
  pub folder_mount :
      (fs_type : String) (options : List String) (s s' : H)
      → host.do_mount staged target fs_type options s ≡ (ok tt, s')
      → host.mkdir_all target s' ≡ (ok tt, s')
  pub opened_again :
      (p : String) (s s' : H) → host.open_file p s ≡ (ok tt, s') → host.open_file p s' ≡ (ok tt, s')
  pub opened_new :
      (p : String) (e : GoError) (s : H) → (host.open_file p s).0 ≡ err e → host.is_exist e ≡ false
  pub opened_there :
      (s s' : H)
      → host.open_file target s ≡ (ok tt, s')
      → (host.stat target s' ≡ (ok tt, s')) × (host.stat (dir target) s' ≡ (ok tt, s'))
  pub file_mount :
      (source : String) (options : List String) (s s' : H)
      → host.open_file target s ≡ (ok tt, s)
      → host.do_mount source target "" options s ≡ (ok tt, s')
      → host.open_file target s' ≡ (ok tt, s')

module _ {H : Type 0} (host : Host H) (dir : String → String) (staged target : String)
    (laws : IsBindable host dir staged target) where
  -- What `isMounted` does where the look has failed.
  abbrev look_again : GoError → Act H Bool
  look_again failure =
      attempt (exists_path host target) (λ _. raise failure)
        (λ path_err.
          if host.is_corrupted_mnt path_err
          then or_fail (host.unmount target)
              (status internal "Unable to unmount the target %q : %v")
            >> pure false
          else raise failure)

  look_again_never : (failure : GoError) (s t : H) → ¬ Runs (look_again failure) s true t
  look_again_never failure s t h = elim (Result-cases (exists_path host target s).0) [
    | inl (there, answer) ↦ cc (rw answer at h)
    | inr (inr panicked) ↦ cc (rw panicked at h)
    | inr (inl (e, failed)) ↦ elim (Bool-cases (host.is_corrupted_mnt e)) [
      | inr fine ↦ cc (rw (failed, fine) at h)
      | inl corrupted ↦
          let (_, u, _, over) =
            or_fail-Runs (host.unmount target) _ _ (exists_path host target s).1 true t
              (rw (failed, corrupted) at h) in
          cc over
    ]
  ]

  is_mounted-true :
      (s t : H) → Runs (is_mounted host target) s true t → MountedAt host target s × (t ≡ s)
  unfolding is_mounted
  is_mounted-true s t h =
      let same = laws.looked target s in
      elim (Result-cases (host.is_likely_not_mount_point target s).0) [
        | inl (not_mnt, answer) ↦ (ground (arith, answer, h), ground (arith, answer, h, same))
        | inr (inr panicked) ↦ ground (arith, panicked, h)
        | inr (inl (e, failed)) ↦ elim (Bool-cases (host.is_not_exist e)) [
          | inl missing ↦ ground (arith, failed, missing, h)
          | inr other ↦ absurd (
              look_again_never _ (host.is_likely_not_mount_point target s).1 t
                (rw (failed, other) at h))
        ]
      ]

  is_mounted-MountedAt : (s : H) → MountedAt host target s → is_mounted host target s ≡ (ok true, s)
  unfolding is_mounted
  is_mounted-MountedAt s h = let same = laws.looked target s in ground (arith, h, same)

  -- Where there is a file, an answer that nothing is mounted comes with no change.
  is_mounted-false :
      (s t : H) → host.stat target s ≡ (ok tt, s) → Runs (is_mounted host target) s false t → t ≡ s
  unfolding is_mounted exists_path
  is_mounted-false s t there h =
      let same = laws.looked target s in
      elim (Result-cases (host.is_likely_not_mount_point target s).0) [
        | inl (not_mnt, answer) ↦ ground (arith, answer, h, same)
        | inr (inr panicked) ↦ ground (arith, panicked, h)
        | inr (inl (e, failed)) ↦ elim (Bool-cases (host.is_not_exist e)) [
          | inl missing ↦ ground (arith, failed, missing, h, same)
          | inr other ↦ ground (arith, failed, other, there, h, same)
        ]
      ]

  pub remove_target-never : (e : GoError) (s : H) → (remove_target host target e s).0 ≢ ok tt
  unfolding remove_target
  remove_target-never e s h = elim (Result-cases (host.remove target s).0) [
    | inl (a, removed) ↦ cc (rw removed at h)
    | inr (inl (e', failed)) ↦ cc (rw failed at h)
    | inr (inr panicked) ↦ cc (rw panicked at h)
  ]

  -- Where it succeeds, something was mounted already, or it was mounted now.
  mount_unless_mounted-cases :
      (source fs_type : String) (options : List String) (s s' : H)
      → Runs (mount_unless_mounted host source target fs_type options) s tt s'
      → (MountedAt host target s × (s' ≡ s))
        ⊎ ((t : H) × Runs (is_mounted host target) s false t
            × Runs (host.do_mount source target fs_type options) t tt s')
  unfolding mount_unless_mounted
  mount_unless_mounted-cases source fs_type options s s' h =
      let (mounted, t, looked, h₁) = or_fail-Runs (is_mounted host target) _ _ s tt s' h in
      elim (Bool-cases mounted) [
        | inl there ↦
            let (there_s, same) = is_mounted-true s t (rw there at looked) in
            inl (there_s, sym (ap (λ r. r.1) (rw there at h₁)) ∙ same)
        | inr absent ↦
            let (_, u, ran, same) =
              attempt-Runs (host.do_mount source target fs_type options) _ _ t tt s'
                (λ e. remove_target-never _ _) (rw absent at h₁) in
            inr (t, rw absent at looked, ran ∙ same)
      ]

  pub mount_unless_mounted-again :
      (source fs_type : String) (options : List String) (s : H)
      → MountedAt host target s
      → mount_unless_mounted host source target fs_type options s ≡ (ok tt, s)
  unfolding mount_unless_mounted
  mount_unless_mounted-again source fs_type options s h = rw (is_mounted-MountedAt s h)

  -- A folder that was made at a mount is there.
  folder_again :
      (s t : H)
      → Runs (make_dir host target) s tt t
      → MountedAt host target t
      → host.mkdir_all target t ≡ (ok tt, t)
  unfolding make_dir
  folder_again s t h there = elim (Result-cases (host.mkdir_all target s).0) [
    | inl (a, ran) ↦ laws.made_again target s t (λ i. (ran i, ap (λ r. r.1) (rw ran at h) i))
    | inr (inr panicked) ↦ cc (rw panicked at h)
    | inr (inl (e, failed)) ↦ elim (Bool-cases (host.is_exist e)) [
      | inr other ↦ cc (rw (failed, other) at h)
      | inl exists ↦
          let same : (host.mkdir_all target s).1 ≡ t = ap (λ r. r.1) (rw (failed, exists) at h) in
          absurd (
            laws.made_anew target e s failed exists
              (subst (MountedAt host target) (sym same) there))
    ]
  ]

  -- What a mount of the staged folder leaves: it is seen, and the folder need not be made again.
  pub mount_staged :
      (fs_type : String) (options : List String) (s t s' : H)
      → Runs (make_dir host target) s tt t
      → Runs (mount_unless_mounted host staged target fs_type options) t tt s'
      → MountedAt host target s' × (make_dir host target s' ≡ (ok tt, s'))
  unfolding make_dir
  mount_staged fs_type options s t s' made h =
      elim (mount_unless_mounted-cases staged fs_type options t s' h) [
        | inl (there, same) ↦
            subst (λ u. MountedAt host target u × (make_dir host target u ≡ (ok tt, u))) (sym same)
              (there, rw (folder_again s t made there))
        | inr (u, _, ran) ↦ (
          laws.detected staged fs_type options u s' ran,
          rw (laws.folder_mount fs_type options u s' ran),
        )
      ]

  -- A file that was made can be opened.
  pub file_made :
      (s t : H) → Runs (make_file host target) s tt t → Runs (host.open_file target) t tt t
  unfolding make_file
  file_made s t h = elim (Result-cases (host.open_file target s).0) [
    | inl (a, ran) ↦ laws.opened_again target s t (λ i. (ran i, ap (λ r. r.1) (rw ran at h) i))
    | inr (inr panicked) ↦ cc (rw panicked at h)
    | inr (inl (e, failed)) ↦ cc (rw (failed, laws.opened_new target e s failed) at h)
  ]

  -- What a mount at a file leaves: it is seen, and the file and its folder are there.
  pub mount_at_file :
      (source : String) (options : List String) (t s' : H)
      → Runs (host.open_file target) t tt t
      → Runs (mount_unless_mounted host source target "" options) t tt s'
      → MountedAt host target s'
        × (make_file host target s' ≡ (ok tt, s'))
        × (exists_path host (dir target) s' ≡ (ok true, s'))
  unfolding make_file exists_path
  mount_at_file source options t s' opens h =
      elim (mount_unless_mounted-cases source "" options t s' h) [
        | inl (there, same) ↦
            subst
              (λ u.
                MountedAt host target u
                × (make_file host target u ≡ (ok tt, u))
                × (exists_path host (dir target) u ≡ (ok true, u)))
              (sym same) (there, rw opens, rw (laws.opened_there t t opens).1)
        | inr (u, looked, ran) ↦
            let same = is_mounted-false t u (laws.opened_there t t opens).0 looked in
            let after =
              laws.file_mount source options u s'
                (subst (λ v. host.open_file target v ≡ (ok tt, v)) (sym same) opens) ran in
            (
              laws.detected source "" options u s' ran,
              rw after,
              rw (laws.opened_there s' s' after).1,
            )
      ]
