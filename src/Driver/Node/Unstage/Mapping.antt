-- ===== src/Driver/Node/Unstage/Mapping.antt =====
-- pkg/driver/node.go: unstaging a volume whose encrypted device staging had opened.
use Prim.Native.String.{◌++◌ as concat}
use text.Mathlib.TextLemmas.{append_assoc, append-eq-nil_iff}
use text.Mathlib.TextPositions.{starts_with-append}
use osc_bsu_csi_driver.Prelude.{String, ◌≡◌, ◌≢◌, refl, true, false, [], ◌∷◌, eq_iff, ◌==◌, ap, ◌∙◌}
use osc_bsu_csi_driver.Go.Int.{ℤ, pos, eqb_ℤ}
use osc_bsu_csi_driver.Go.Strings.{has_prefix, base, after_slash, trim_right, is_slash, lines}
use osc_bsu_csi_driver.Go.Strings.Base.{
  Slashless, Slashless-concat, trim_right-concat, base-concat, base-Slashless,
}
use osc_bsu_csi_driver.Go.Error.{status, internal}
use osc_bsu_csi_driver.Go.Act.{ok, or_fail}
use osc_bsu_csi_driver.Driver.Node.Host.{Host}
use osc_bsu_csi_driver.Driver.Node.Luks.{
  cryptsetup, mapper_path, says_luks2, is_luks_mapping, luks_close,
}
use osc_bsu_csi_driver.Driver.Node.Stage.{crypt_name}
use osc_bsu_csi_driver.Driver.Node.Unstage.{node_unstage_volume}

suffix_not_empty : (◌≢◌ {A = String} "_crypt" "")
suffix_not_empty = λ e. (let no : ("_crypt" == "") ≡ true = (eq_iff "_crypt" "").1 e in cc)

suffix-Slashless : Slashless "_crypt"
unfolding Slashless is_slash
suffix-Slashless = (refl, (refl, (refl, (refl, (refl, (refl, tt))))))

folder_ends : after_slash "" "/dev/mapper/" ≡ ""
unfolding after_slash is_slash
folder_ends = refl

suffix_kept : trim_right is_slash "_crypt" ≡ "_crypt"
unfolding trim_right is_slash
suffix_kept = refl

crypt_name_not_empty : (source : String) → crypt_name source ≢ ""
crypt_name_not_empty source =
    λ e. suffix_not_empty ((append-eq-nil_iff {p = base source} {q = "_crypt"}).0 e).1

-- The name of a mapping is the last element of its path.
base-mapper_path :
    (source : String)
    → base source ≢ "/"
    → base (mapper_path (crypt_name source)) ≡ crypt_name source
base-mapper_path source root =
    base-concat "/dev/mapper/" (crypt_name source) folder_ends
      (Slashless-concat (base source) "_crypt" (base-Slashless source root) suffix-Slashless)
      (trim_right-concat is_slash (base source) "_crypt" suffix_kept suffix_not_empty)
      (crypt_name_not_empty source)

mapper_path-has_prefix : (name : String) → has_prefix (mapper_path name) "/dev/mapper" ≡ true
mapper_path-has_prefix name =
    ap (λ (t : String). has_prefix t "/dev/mapper") (append_assoc "/dev/mapper" "/" name)
    ∙ starts_with-append "/dev/mapper" (concat "/" name)

module _ {H : Type 0} (host : Host H) where
  is_luks_mapping-mapper_path :
      (to_lower : String → String) (source output : String) (s s' : H)
      → base source ≢ "/"
      → host.run (cryptsetup ("status" ∷ crypt_name source ∷ [])) s ≡ (ok output, s')
      → is_luks_mapping host to_lower (mapper_path (crypt_name source)) s
        ≡ (ok (says_luks2 to_lower (lines output), crypt_name source), s')
  unfolding is_luks_mapping
  is_luks_mapping-mapper_path to_lower source output s s' root ran =
      rw (mapper_path-has_prefix (crypt_name source), base-mapper_path source root, ran)

  -- Where a target carries the mapping that staging opens for a device (whose path has a last
  -- element), can be unmounted, and the status of the mapping shows a LUKS 2 device, unstaging is
  -- the closing of that same mapping, and fails only as the closing does.
  pub node_unstage_volume-luks_close :
      (to_lower : String → String) (volume_id target source output : String) (n : ℤ)
      (s s₁ s₂ s₃ : H)
      → (volume_id == "") ≡ false
      → (target == "") ≡ false
      → base source ≢ "/"
      → host.get_device_name_from_mount target s ≡ (ok (mapper_path (crypt_name source), n), s₁)
      → eqb_ℤ n (pos 0) ≡ false
      → host.unmount target s₁ ≡ (ok tt, s₂)
      → host.run (cryptsetup ("status" ∷ crypt_name source ∷ [])) s₂ ≡ (ok output, s₃)
      → says_luks2 to_lower (lines output) ≡ true
      → node_unstage_volume host to_lower volume_id target s
        ≡ or_fail
            (luks_close host (crypt_name source))
            (status internal "failed to close device: %v,")
            s₃
  unfolding node_unstage_volume
  node_unstage_volume-luks_close to_lower volume_id target source output n s s₁ s₂ s₃ named aimed
        root found used unmounted ran luks =
      rw (
        named,
        aimed,
        found,
        used,
        unmounted,
        is_luks_mapping-mapper_path to_lower source output s₂ s₃ root ran,
        luks,
      )
