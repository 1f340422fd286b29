-- ===== src/Driver/Node/Publish/Gone.antt =====
-- Taking a volume back from the path under which it was published, and doing so again.
use mathlib.Core.Path.{subst}
use osc_bsu_csi_driver.Prelude.{
  String, ◌≡◌, ap, ◌∙◌, sym, true, false, not, arith, Bool-cases, inl, inr, ◌==◌,
}
use osc_bsu_csi_driver.Go.Error.{GoError}
use osc_bsu_csi_driver.Go.Act.{Result-cases, ok, err}
use osc_bsu_csi_driver.Go.Act.Success.{
  Runs, or_fail-Runs, or_fail_only-Runs, if-raise-Runs, unless-Runs,
}
use osc_bsu_csi_driver.Driver.Node.Host.{Host}
use osc_bsu_csi_driver.Driver.Node.Mounts.{is_mounted}
use osc_bsu_csi_driver.Driver.Node.Publish.{remove_path, node_unpublish_volume}

-- There is no file at a path.
abbrev pub Missing : {H : Type 0} → Host H → String → H → Type 0
Missing host p s = (e : GoError) × ((host.stat p s).0 ≡ err e) × (host.is_not_exist e ≡ true)

-- `os.Stat` changes nothing, a file that `os.Remove` has removed is not there, and where no file is,
-- the look for a mount says so and changes nothing.
pub record IsRemovable {H : Type 0} (host : Host H) : Type 0 where
  pub stat : (p : String) (s : H) → (host.stat p s).1 ≡ s
  pub removed : (p : String) (s s' : H) → host.remove p s ≡ (ok tt, s') → Missing host p s'
  pub no_mount :
      (p : String) (s : H)
      → Missing host p s
      → (e : GoError) × (host.is_likely_not_mount_point p s ≡ (err e, s))
        × (host.is_not_exist e ≡ true)

module _ {H : Type 0} (host : Host H) (laws : IsRemovable host) where
  remove_path-Missing :
      (target : String) (s s' : H) → Runs (remove_path host target) s tt s' → Missing host target s'
  unfolding remove_path
  remove_path-Missing target s s' h = elim (Result-cases (host.stat target s).0) [
    | inl (a, there) ↦
        laws.removed target (host.stat target s).1 s'
          (or_fail_only-Runs (host.remove target) _ (host.stat target s).1 tt s' (rw there at h))
    | inr (inl (e, failed)) ↦ elim (Bool-cases (host.is_not_exist e)) [
      | inl missing ↦
          let same : s ≡ s' =
            sym (laws.stat target s) ∙ ap (λ t. t.1) (rw (failed, missing) at h) in
          subst (Missing host target) same (e, failed, missing)
      | inr other ↦ laws.removed target (host.stat target s).1 s' (
          or_fail_only-Runs (host.remove target) _ (host.stat target s).1 tt s'
            (rw (failed, other) at h))
    ]
    | inr (inr panicked) ↦ cc (rw panicked at h)
  ]

  remove_path-again :
      (target : String) (s : H) → Missing host target s → remove_path host target s ≡ (ok tt, s)
  unfolding remove_path
  remove_path-again target s (e, failed, missing) =
      let same = laws.stat target s in ground (arith, failed, missing, same)

  is_mounted-again :
      (target : String) (s : H) → Missing host target s → is_mounted host target s ≡ (ok false, s)
  unfolding is_mounted
  is_mounted-again target s gone =
      let (e, looked, missing) = laws.no_mount target s gone in rw (looked, missing)

  -- On a host where looking at files changes nothing, what is removed is not there, and nothing is
  -- mounted where there is no file: where `NodeUnpublishVolume` has succeeded, there is no file at
  -- the target, and the same request succeeds again and changes nothing.
  pub node_unpublish_volume-Missing :
      (volume_id target : String) (s s' : H)
      → node_unpublish_volume host volume_id target s ≡ (ok tt, s')
      → Missing host target s' × (node_unpublish_volume host volume_id target s' ≡ (ok tt, s'))
  unfolding node_unpublish_volume
  node_unpublish_volume-Missing volume_id target s s' h =
      let (named, h₁) = if-raise-Runs (volume_id == "") _ _ s tt s' h in
      let (given, h₂) = if-raise-Runs (target == "") _ _ s tt s' h₁ in
      let (mounted, t, _, h₃) = or_fail-Runs (is_mounted host target) _ _ s tt s' h₂ in
      let (u, _, h₄) = unless-Runs (not mounted) _ (remove_path host target) t tt s' h₃ in
      let gone = remove_path-Missing target u s' h₄ in
      (gone, rw (named, given, is_mounted-again target s' gone, remove_path-again target s' gone))
