-- ===== src/DeviceManager/Manager/InUse.antt =====
-- `getPath` over the names in use: what it finds, whatever the order of the loop.
use mathlib.Core.List.{Perm, Memᴰ}
use mathlib.Core.List.Perm
use mathlib.Core.List.Memᴰ
use mathlib.Core.HLevel.{prop→set}
use text.Mathlib.TextEquality.{IsScalar-prop}
use Prim.Native.String.{◌++◌ as concat}
use text.Mathlib.TextLemmas.{append-eq-nil_iff, append_cancel_left}
use osc_bsu_csi_driver.Prelude.{
  ℕ, String, ◌≡◌, ◌≢◌, refl, Option, some, [], ◌∷◌, arith, eq_iff, ◌==◌, Bool-cases, inl, inr,
}
use osc_bsu_csi_driver.Go.Dict.{Dict, lookup}
use osc_bsu_csi_driver.Go.Dict.Entries.{KeysDistinct, mem_of_lookup, lookup_of_mem}
use osc_bsu_csi_driver.DeviceManager.Manager.{dev_preffix, find_path, get_path}

-- A `range` loop over a map visits every entry once.
abbrev pub VisitsAll : (Dict String → Dict String) → Type 0
VisitsAll visit = (m : Dict String) → Perm (visit m) m

pub device_path-ne-empty : (name : String) → concat dev_preffix name ≢ ""
device_path-ne-empty name e =
    cc ((eq_iff dev_preffix "").1 ((append-eq-nil_iff {p = dev_preffix} {q = name}).0 e).0)

-- Two names under the prefix are equal only if the names are.
pub device_path_inj : (a b : String) → concat dev_preffix a ≡ concat dev_preffix b → a ≡ b
device_path_inj a b e = append_cancel_left dev_preffix a b e

find_path-empty :
    (m : Dict String) (volume name : String) → find_path m volume ≡ "" → ¬ Memᴰ (name, volume) m
unfolding find_path
find_path-empty [] volume name e h = elim h [ ]
find_path-empty ((n, v) ∷ m) volume name e h = elim (Bool-cases (volume == v)) [
  | inl same ↦ device_path-ne-empty n (rw same at e)
  | inr other ↦ elim (Memᴰ.cases_cons h) [
    | inl p ↦ ground (arith, eq_iff volume v)
    | inr q ↦ find_path-empty m volume name (rw other at e) q
  ]
]

find_path-found :
    (m : Dict String) (volume : String)
    → find_path m volume ≢ ""
    → (name : String) × (find_path m volume ≡ concat dev_preffix name) × Memᴰ (name, volume) m
unfolding find_path
find_path-found [] volume h = absurd (h refl)
find_path-found ((n, v) ∷ m) volume h = elim (Bool-cases (volume == v)) [
  | inl same ↦ (n, rw same, Memᴰ.head (ground (arith, eq_iff volume v)))
  | inr other ↦
      let (name, path, mem) = find_path-found m volume (rw other at h) in
      (name, rw other path, Memᴰ.tail mem)
]

Option_String_set : IsSet (Option String)
Option_String_set = hlevel (λ (n : ℕ). prop→set (IsScalar-prop n))

module _ (visit : Dict String → Dict String) (visits : VisitsAll visit) where
  -- Where no path is found, no name maps to the volume.
  pub get_path-empty :
      (m : Dict String) (volume : String)
      → get_path visit m volume ≡ ""
      → (name : String) → lookup name m ≢ some volume
  unfolding get_path
  get_path-empty m volume e name h =
      ∥∥₁_rec (λ a. elim a [ ]) (find_path-empty (visit m) volume name e)
        ((Perm.mem_iff (visits m)).1 ∣ mem_of_lookup name volume m h ∣₁)

  -- Where a path is found, it is that of a name which maps to the volume.
  pub get_path-found :
      (m : Dict String) (volume : String)
      → KeysDistinct m
      → get_path visit m volume ≢ ""
      → (name : String) × (get_path visit m volume ≡ concat dev_preffix name)
        × (lookup name m ≡ some volume)
  unfolding get_path
  get_path-found m volume d h =
      let (name, path, mem) = find_path-found (visit m) volume h in
      (
        name,
        path,
        ∥∥₁_rec (Option_String_set _ _) (lookup_of_mem name volume m d)
            ((Perm.mem_iff (visits m)).0 ∣ mem ∣₁),
      )
