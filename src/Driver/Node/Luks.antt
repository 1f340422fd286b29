-- ===== src/Driver/Node/Luks.antt =====
-- pkg/driver/luks_util.go: encrypted devices, by the commands of `cryptsetup`.
use osc_bsu_csi_driver.Prelude.{
  String, Bool, true, false, not, ◌&&◌, none, some, List, [], ◌∷◌, ◌++◌, ◌==◌, if◌then◌else◌,
}
use Prim.Native.String.{◌++◌ as concat}
use osc_bsu_csi_driver.Go.Strings.{has_prefix, contains, lines, base}
use osc_bsu_csi_driver.Go.Error.{errorf}
use osc_bsu_csi_driver.Go.Act.{Act, pure, attempt, or_fail, ◌>>=◌, ◌>>◌}
use osc_bsu_csi_driver.Driver.Node.Host.{Host, Command}
use osc_bsu_csi_driver.Driver.Node.Mounter.{exists_path}

pub record LuksContext : Type 0 where
  pub cipher : String
  pub hash : String
  pub key_size : String

abbrev pub cryptsetup : List String → Command
cryptsetup args = record { name = "cryptsetup"; args = args; stdin = none }

-- With a passphrase on the standard input.
abbrev pub cryptsetup_with : String → List String → Command
cryptsetup_with passphrase args = record {
  name = "cryptsetup";
  args = args;
  stdin = some passphrase;
}

-- An option of `LuksFormat`, left out where its value is empty.
abbrev pub luks_option : String → String → List String
luks_option name value = if value == "" then [] else concat name value ∷ []

abbrev pub luks_format_args : LuksContext → String → List String
luks_format_args context device_path =
    ("-v" ∷ "--type=luks2" ∷ "--batch-mode" ∷ [])
    ++ (luks_option "--cipher=" context.cipher
        ++ (luks_option "--hash=" context.hash
            ++ (luks_option "--key-size=" context.key_size ++ ("luksFormat" ∷ device_path ∷ []))))

abbrev pub mapper_path : String → String
mapper_path name = concat "/dev/mapper/" name

module _ (to_lower : String → String) where
  -- The loop over the lines of the status.
  unfoldable pub says_luks2 : List String → Bool
  says_luks2 [] = false
  says_luks2 (line ∷ rest) =
      if contains line "type:" && contains (to_lower line) "luks2" then true else says_luks2 rest

module _ {H : Type 0} (host : Host H) where
  unfoldable pub is_luks : String → Act H Bool
  is_luks device_path =
      attempt (host.run (cryptsetup ("isLuks" ∷ device_path ∷ []))) (λ _. pure true)
        (λ _. pure false)

  unfoldable pub luks_format : String → String → LuksContext → Act H (Unit {0})
  luks_format device_path passphrase context = do
    or_fail (host.run (cryptsetup_with passphrase (luks_format_args context device_path)))
        (errorf "err: %v, output: %v")
    pure tt

  unfoldable pub check_luks_passphrase : String → String → Act H Bool
  check_luks_passphrase device_path passphrase =
      attempt
        (host.run (
          cryptsetup_with passphrase (
            "-v" ∷ "--type=luks2" ∷ "--batch-mode" ∷ "--test-passphrase" ∷ "luksOpen" ∷ device_path
            ∷ [])))
        (λ _. pure true) (λ _. pure false)

  unfoldable pub open_device : String → String → String → Act H Bool
  open_device device_path name passphrase = do
    or_fail
        (host.run (
          cryptsetup_with passphrase
            ("-v" ∷ "--type=luks2" ∷ "--batch-mode" ∷ "luksOpen" ∷ device_path ∷ name ∷ [])))
        (errorf "err: %v, output: %v")
    pure true

  -- Whatever the look for the mapping says but that it is there, the device is opened.
  unfoldable pub luks_open : String → String → String → Act H Bool
  luks_open device_path name passphrase =
      attempt (exists_path host (mapper_path name))
        (λ there. if there then pure true else open_device device_path name passphrase)
        (λ _. open_device device_path name passphrase)

  -- Whether the device is a mapping of LUKS, and the mapping's name.
  unfoldable pub is_luks_mapping : (String → String) → String → Act H (Bool × String)
  is_luks_mapping to_lower device_path =
      if has_prefix device_path "/dev/mapper"
      then host.run (cryptsetup ("status" ∷ base device_path ∷ []))
        >>= (λ out. pure (says_luks2 to_lower (lines out), base device_path))
      else pure (false, "")

  unfoldable pub luks_resize : String → String → Act H (Unit {0})
  luks_resize name passphrase = do
    or_fail (host.run (cryptsetup_with passphrase ("--batch-mode" ∷ "resize" ∷ name ∷ [])))
        (errorf "unable to resize LUKS volume on device %s: %w, output: %s")
    pure tt

  unfoldable pub luks_close : String → Act H (Unit {0})
  luks_close name = do
    exists ← exists_path host (mapper_path name)
    if not exists
        then pure tt
        else do host.run (cryptsetup ("-v" ∷ "luksClose" ∷ name ∷ [])); pure tt
