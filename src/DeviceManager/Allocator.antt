-- ===== src/DeviceManager/Allocator.antt =====
-- pkg/cloud/devicemanager/allocator.go: the choice of a free device name.
pub mod Choice
use osc_bsu_csi_driver.Go.Dict.{Dict, lookup}
use osc_bsu_csi_driver.Prelude.{String, none, some, List, [], ◌∷◌}
use osc_bsu_csi_driver.Go.Error.{errorf}
use osc_bsu_csi_driver.Go.Act.{Result, ok, err}

abbrev pub device_map : List String
device_map =
    "a" ∷ "b" ∷ "c" ∷ "d" ∷ "e" ∷ "f" ∷ "g" ∷ "h" ∷ "i" ∷ "j" ∷ "k" ∷ "l" ∷ "m" ∷ "n" ∷ "o" ∷ "p"
    ∷ "q" ∷ "r" ∷ "s" ∷ "t" ∷ "u" ∷ "v" ∷ "w" ∷ "x" ∷ "y" ∷ "z" ∷ "aa" ∷ "ab" ∷ "ac" ∷ "ad" ∷ "ae"
    ∷ "af" ∷ "ag" ∷ "ah" ∷ "ai" ∷ "aj" ∷ "ak" ∷ "al" ∷ "am" ∷ "an" ∷ []

-- The loop starts at index 1.
abbrev pub candidates : List String
candidates = elim device_map [ [] ↦ [] | _ ∷ rest ↦ rest ]

-- The loop of `GetNext` over the names that are left.
pub first_free : Dict String → List String → Result String
first_free existing [] = err (errorf "there are no names available")
first_free existing (name ∷ rest) =
    let next = first_free existing rest in
    elim (lookup name existing) [ none ↦ ok name | some _ ↦ next ]

unfoldable pub get_next : Dict String → Result String
unfolding first_free
get_next existing = first_free existing candidates
