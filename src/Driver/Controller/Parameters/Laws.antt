-- ===== src/Driver/Controller/Parameters/Laws.antt =====
-- What the loop over the parameters of `CreateVolume` reads from them.
use osc_bsu_csi_driver.Prelude.{
  String, ◌≡◌, refl, Bool, true, false, ◌||◌, Option, none, some, [], ◌∷◌, All, arith, eq_iff, ◌==◌,
  if◌then◌else◌, inl, inr,
}
use osc_bsu_csi_driver.Go.Dict.{Dict, or_zero, or_else}
use osc_bsu_csi_driver.Go.Strings.{atoi}
use osc_bsu_csi_driver.Go.Act.{ok, Result-cases}
use osc_bsu_csi_driver.Driver.Requests.{
  volume_type_key, iops_per_gb_key, encrypted_key, kms_key_id_key, luks_cipher_key, luks_hash_key,
  luks_key_size_key,
}
use osc_bsu_csi_driver.Driver.Controller.Parameters.{Parameters, set_parameter, parse_parameters}

-- What one entry sets, by its key in lower case.
pub record Sets (key value : String) (q q' : Parameters) : Type 0 where
  pub volume_type : q'.volume_type ≡ (if key == volume_type_key then value else q.volume_type)
  pub kms_key_id : q'.kms_key_id ≡ (if key == kms_key_id_key then value else q.kms_key_id)
  pub luks_cipher : q'.luks_cipher ≡ (if key == luks_cipher_key then value else q.luks_cipher)
  pub luks_hash : q'.luks_hash ≡ (if key == luks_hash_key then value else q.luks_hash)
  pub luks_key_size :
      q'.luks_key_size ≡ (if key == luks_key_size_key then value else q.luks_key_size)
  pub is_encrypted :
      q'.is_encrypted ≡ (if key == encrypted_key then value == "true" else q.is_encrypted)
  pub iops_per_gb :
      (if key == iops_per_gb_key then atoi value else some q.iops_per_gb) ≡ some q'.iops_per_gb

-- A key is at most one of two.
apart : (key a b : String) → (a == b) ≡ false → (key == a) ≡ true → (key == b) ≡ false
apart key a b differ same = rw ((eq_iff key a).0 same) differ

set_parameter-Sets :
    (key value : String) (q q' : Parameters)
    → set_parameter key value q ≡ ok q'
    → Sets key value q q'
unfolding set_parameter
set_parameter-Sets key value q q' h = record {
  volume_type = ground (arith, h, apart key "fstype" volume_type_key refl);
  kms_key_id = ground (
    arith,
    h,
    apart key "fstype" kms_key_id_key refl,
    apart key volume_type_key kms_key_id_key refl,
    apart key iops_per_gb_key kms_key_id_key refl,
    apart key encrypted_key kms_key_id_key refl,
  );
  luks_cipher = ground (
    arith,
    h,
    apart key "fstype" luks_cipher_key refl,
    apart key volume_type_key luks_cipher_key refl,
    apart key iops_per_gb_key luks_cipher_key refl,
    apart key encrypted_key luks_cipher_key refl,
    apart key kms_key_id_key luks_cipher_key refl,
  );
  luks_hash = ground (
    arith,
    h,
    apart key "fstype" luks_hash_key refl,
    apart key volume_type_key luks_hash_key refl,
    apart key iops_per_gb_key luks_hash_key refl,
    apart key encrypted_key luks_hash_key refl,
    apart key kms_key_id_key luks_hash_key refl,
    apart key luks_cipher_key luks_hash_key refl,
    apart key luks_key_size_key luks_hash_key refl,
  );
  luks_key_size = ground (
    arith,
    h,
    apart key "fstype" luks_key_size_key refl,
    apart key volume_type_key luks_key_size_key refl,
    apart key iops_per_gb_key luks_key_size_key refl,
    apart key encrypted_key luks_key_size_key refl,
    apart key kms_key_id_key luks_key_size_key refl,
    apart key luks_cipher_key luks_key_size_key refl,
  );
  is_encrypted = ground (
    arith,
    h,
    apart key "fstype" encrypted_key refl,
    apart key volume_type_key encrypted_key refl,
    apart key iops_per_gb_key encrypted_key refl,
  );
  iops_per_gb = ground (
    arith,
    h,
    apart key "fstype" iops_per_gb_key refl,
    apart key volume_type_key iops_per_gb_key refl,
  );
}

-- The keys that are allowed, in lower case.
unfoldable pub is_known : String → Bool
is_known key =
    key == "fstype"
    || key == volume_type_key
    || key == iops_per_gb_key
    || key == encrypted_key
    || key == kms_key_id_key
    || key == luks_cipher_key
    || key == luks_key_size_key
    || key == luks_hash_key

set_parameter-is_known :
    (key value : String) (q q' : Parameters)
    → set_parameter key value q ≡ ok q'
    → is_known key ≡ true
unfolding set_parameter is_known
set_parameter-is_known key value q q' h = ground (arith, h)

module _ (to_lower : String → String) where
  -- The value of the last entry whose key is the given one in lower case.
  unfoldable pub last_value : String → Dict String → Option String
  last_value k [] = none
  last_value k ((key, value) ∷ rest) =
      or_else (last_value k rest) (if to_lower key == k then some value else none)

  pub record Reads (params : Dict String) (q q' : Parameters) : Type 0 where
    pub known : All (λ (e : String × String). is_known (to_lower e.0) ≡ true) params
    pub volume_type : q'.volume_type ≡ or_zero q.volume_type (last_value volume_type_key params)
    pub kms_key_id : q'.kms_key_id ≡ or_zero q.kms_key_id (last_value kms_key_id_key params)
    pub luks_cipher : q'.luks_cipher ≡ or_zero q.luks_cipher (last_value luks_cipher_key params)
    pub luks_hash : q'.luks_hash ≡ or_zero q.luks_hash (last_value luks_hash_key params)
    pub luks_key_size :
        q'.luks_key_size ≡ or_zero q.luks_key_size (last_value luks_key_size_key params)
    pub is_encrypted :
        q'.is_encrypted
        ≡ elim (last_value encrypted_key params) [ none ↦ q.is_encrypted | some v ↦ v == "true" ]
    pub iops_per_gb :
        elim (last_value iops_per_gb_key params) [ none ↦ some q.iops_per_gb | some v ↦ atoi v ]
        ≡ some q'.iops_per_gb

  Reads-cons :
      (key value : String) (rest : Dict String) (q q₁ q' : Parameters)
      → is_known (to_lower key) ≡ true
      → Sets (to_lower key) value q q₁
      → Reads rest q₁ q'
      → Reads ((key, value) ∷ rest) q q'
  unfolding last_value
  Reads-cons key value rest q q₁ q' known sets reads = record {
    known = (known, reads.known);
    volume_type = ground (arith, sets.volume_type, reads.volume_type);
    kms_key_id = ground (arith, sets.kms_key_id, reads.kms_key_id);
    luks_cipher = ground (arith, sets.luks_cipher, reads.luks_cipher);
    luks_hash = ground (arith, sets.luks_hash, reads.luks_hash);
    luks_key_size = ground (arith, sets.luks_key_size, reads.luks_key_size);
    is_encrypted = ground (arith, sets.is_encrypted, reads.is_encrypted);
    iops_per_gb = ground (arith, sets.iops_per_gb, reads.iops_per_gb);
  }

  -- Where the loop over the parameters succeeds, every key is allowed in lower case, and each setting
  -- is that of the last entry visited whose key in lower case is its own, or the one from before the
  -- loop where there is none; the IOPS per GiB are the number that `Atoi` reads from the entry.
  pub parse_parameters-Reads :
      (params : Dict String) (q q' : Parameters)
      → parse_parameters to_lower params q ≡ ok q'
      → Reads params q q'
  unfolding parse_parameters last_value
  parse_parameters-Reads [] q q' h =
      let same : q ≡ q' = ground (arith, h) in
      rw (← same) (record {
        known = tt;
        volume_type = refl;
        kms_key_id = refl;
        luks_cipher = refl;
        luks_hash = refl;
        luks_key_size = refl;
        is_encrypted = refl;
        iops_per_gb = refl;
      })
  parse_parameters-Reads ((key, value) ∷ rest) q q' h =
      elim (Result-cases (set_parameter (to_lower key) value q)) [
        | inl (q₁, set) ↦
            Reads-cons key value rest q q₁ q' (set_parameter-is_known (to_lower key) value q q₁ set)
              (set_parameter-Sets (to_lower key) value q q₁ set)
              (parse_parameters-Reads rest q₁ q' (rw (set, parse_parameters) at h))
        | inr (inl (e, refused)) ↦ ground (arith, refused, h)
        | inr (inr crash) ↦ ground (arith, crash, h)
      ]
