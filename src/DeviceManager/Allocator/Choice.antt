-- ===== src/DeviceManager/Allocator/Choice.antt =====
-- What the choice of a device name guarantees.
use mathlib.Core.Path.{subst}
use Prim.Native.String.{◌++◌ as concat}
use osc_bsu_csi_driver.Prelude.{
  String, ◌≡◌, refl, sym, ap, none, some, List, [], ◌∷◌, ◌++◌, map, All, Option-cases, inl, inr,
}
use osc_bsu_csi_driver.Go.Dict.{Dict, lookup}
use osc_bsu_csi_driver.Go.Error.{errorf}
use osc_bsu_csi_driver.Go.Act.{Result, ok, err, panic}
use osc_bsu_csi_driver.DeviceManager.Allocator.{candidates, first_free, get_next}

abbrev pub Taken : Dict String → String → Type 0
Taken m name = (v : String) × (lookup name m ≡ some v)

-- The answer names the first of `names` that is free, or says that all are taken.
abbrev pub IsFirstFree : Dict String → List String → Result String → Type 0
IsFirstFree m names (ok name) =
    (before : List String) × (after : List String) × (names ≡ before ++ name ∷ after)
    × All (Taken m) before
    × (lookup name m ≡ none)
IsFirstFree m names (err e) = (e ≡ errorf "there are no names available") × All (Taken m) names
IsFirstFree m names panic = ⊥

IsFirstFree-cons :
    (m : Dict String) (name : String) (rest : List String) (r : Result String)
    → Taken m name
    → IsFirstFree m rest r
    → IsFirstFree m (name ∷ rest) r
IsFirstFree-cons m name rest (ok n) t (before, after, split, taken, free) =
    (name ∷ before, after, ap (λ l. name ∷ l) split, (t, taken), free)
IsFirstFree-cons m name rest (err e) t (said, taken) = (said, (t, taken))
IsFirstFree-cons m name rest panic t h = h

first_free-IsFirstFree :
    (m : Dict String) (names : List String) → IsFirstFree m names (first_free m names)
unfolding first_free
first_free-IsFirstFree m [] = (refl, tt)
first_free-IsFirstFree m (name ∷ rest) = elim (Option-cases (lookup name m)) [
  | inl free ↦
      let e : first_free m (name ∷ rest) ≡ ok name = rw (free, first_free) in
      subst (IsFirstFree m (name ∷ rest)) (sym e) ([], rest, refl, tt, free)
  | inr (v, found) ↦
      let e : first_free m (name ∷ rest) ≡ first_free m rest = rw (found, first_free) in
      subst (IsFirstFree m (name ∷ rest)) (sym e) (
        IsFirstFree-cons m name rest (first_free m rest) (v, found) (first_free-IsFirstFree m rest))
]

-- The 39 names to choose from: one letter from "b" to "z", then "a" before one from "a" to "n".
abbrev pub names_on_offer : List String
names_on_offer =
    ("b" ∷ "c" ∷ "d" ∷ "e" ∷ "f" ∷ "g" ∷ "h" ∷ "i" ∷ "j" ∷ "k" ∷ "l" ∷ "m" ∷ "n" ∷ "o" ∷ "p" ∷ "q"
      ∷ "r" ∷ "s" ∷ "t" ∷ "u" ∷ "v" ∷ "w" ∷ "x" ∷ "y" ∷ "z" ∷ [])
    ++ map (concat "a")
        ("a" ∷ "b" ∷ "c" ∷ "d" ∷ "e" ∷ "f" ∷ "g" ∷ "h" ∷ "i" ∷ "j" ∷ "k" ∷ "l" ∷ "m" ∷ "n" ∷ [])

candidates-names_on_offer : candidates ≡ names_on_offer
candidates-names_on_offer = refl

-- `GetNext` answers with the first of the 39 names "b" to "z" and "aa" to "an", in this order, that
-- is not in the map; it fails exactly by saying that there is none, with all of them taken.
pub get_next-IsFirstFree : (m : Dict String) → IsFirstFree m names_on_offer (get_next m)
unfolding get_next
get_next-IsFirstFree m =
    subst (λ names. IsFirstFree m names (first_free m candidates)) candidates-names_on_offer
      (first_free-IsFirstFree m candidates)

-- A name that `GetNext` gives is not in the map.
pub get_next_free : (m : Dict String) (name : String) → get_next m ≡ ok name → lookup name m ≡ none
get_next_free m name h =
    let spec : IsFirstFree m names_on_offer (ok name) = rw h at (get_next-IsFirstFree m) in spec.4
