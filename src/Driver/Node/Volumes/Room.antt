-- ===== src/Driver/Node/Volumes/Room.antt =====
-- The number of volumes that a node reports as its limit have names.
use mathlib.Core.Path.{subst}
use Prim.Native.String.{◌++◌ as concat}
use osc_bsu_csi_driver.Prelude.{
  suc, ◌≤◌, ◌<◌, String, ◌≡◌, refl, ◌∙◌, Bool, true, false, not, ◌&&◌, ◌||◌, some, List, [], ◌∷◌,
  length, All, arith, eq_iff, ◌==◌, if◌then◌else◌, Bool-cases, inl, inr,
}
use osc_bsu_csi_driver.Go.Int.{pos, ◌≤ℤ◌}
use osc_bsu_csi_driver.Go.Dict.{Dict, lookup, delete, overlay, lookup-delete}
use osc_bsu_csi_driver.Go.Act.{Result-cases, ok, err}
use osc_bsu_csi_driver.DeviceManager.Allocator.{candidates, get_next}
use osc_bsu_csi_driver.DeviceManager.Allocator.Choice.{Taken, IsFirstFree, get_next-IsFirstFree}
use osc_bsu_csi_driver.DeviceManager.Manager.{
  InFlightAttaching, Vm, Device, attached, get_names, get_path, new_device, new_block_device,
  dev_preffix, get_device_names_in_use,
}
use osc_bsu_csi_driver.Driver.Node.Devices.Names.{every, All-every}
use osc_bsu_csi_driver.Driver.Node.Volumes.{node_get_info, get_volumes_limit}

-- Whether a name is one of a list.
abbrev pub among : List String → String → Bool
among [] name = false
among (n ∷ rest) name = n == name || among rest name

-- The entries of a map under these names.
unfoldable pub entries_among : List String → Dict String → Dict String
entries_among names [] = []
entries_among names ((n, v) ∷ rest) =
    let more = entries_among names rest in if among names n then (n, v) ∷ more else more

-- No name comes twice.
abbrev Distinct : List String → Type 0
Distinct [] = Unit
Distinct (n ∷ rest) = (among rest n ≡ false) × Distinct rest

length-delete_le : (name : String) (m : Dict String) → length (delete name m) ≤ length m
unfolding delete
length-delete_le name [] = omega arith
length-delete_le name ((n, v) ∷ m) = ground (arith, length-delete_le name m)

length-delete :
    (name v : String) (m : Dict String) → lookup name m ≡ some v → length (delete name m) < length m
unfolding delete lookup
length-delete name v [] h = cc
length-delete name v ((n, w) ∷ m) h = elim (Bool-cases (n == name)) [
  | inl same ↦ rw same (omega (arith, length-delete_le name m))
  | inr other ↦ rw other (omega (arith, length-delete name v m (rw other at h)))
]

lookup-entries_among :
    (names : List String) (name : String) (m : Dict String)
    → among names name ≡ true
    → lookup name (entries_among names m) ≡ lookup name m
unfolding entries_among lookup
lookup-entries_among names name [] h = refl
lookup-entries_among names name ((n, v) ∷ m) h = elim (Bool-cases (n == name)) [
  | inl same ↦ let here : among names n ≡ true = rw ((eq_iff n name).0 same) h in rw (here, same)
  | inr other ↦ elim (Bool-cases (among names n)) [
    | inl kept ↦ rw (kept, other) (lookup-entries_among names name m h)
    | inr dropped ↦ rw (dropped, other) (lookup-entries_among names name m h)
  ]
]

Taken-delete :
    (n : String) (names : List String) (m : Dict String)
    → among names n ≡ false
    → All (Taken m) names
    → All (Taken (delete n m)) names
Taken-delete n [] m free taken = tt
Taken-delete n (name ∷ rest) m free taken = elim (Bool-cases (name == n)) [
  | inl same ↦ ground (arith, same, free)
  | inr other ↦ (
    (taken.0.0, ground (arith, lookup-delete n name m, eq_iff n name, eq_iff name n, taken.0.1)),
    Taken-delete n rest m (ground (arith, other, free)) taken.1,
  )
]

-- A map that has all of some distinct names is no shorter than their list.
length-le-entries :
    (names : List String) (m : Dict String)
    → Distinct names
    → All (Taken m) names
    → length names ≤ length m
length-le-entries [] m distinct taken = omega arith
length-le-entries (n ∷ rest) m distinct taken = omega (
  arith,
  length-delete n taken.0.0 m taken.0.1,
  length-le-entries rest (delete n m) distinct.1 (Taken-delete n rest m distinct.0 taken.1),
)

Taken-entries_among :
    (names all : List String) (m : Dict String)
    → All (λ n. among all n ≡ true) names
    → All (Taken m) names
    → All (Taken (entries_among all m)) names
Taken-entries_among [] all m there taken = tt
Taken-entries_among (n ∷ rest) all m there taken = (
  (taken.0.0, lookup-entries_among all n m there.0 ∙ taken.0.1),
  Taken-entries_among rest all m there.1 taken.1,
)

all_distinct : List String → Bool
all_distinct [] = true
all_distinct (n ∷ rest) = not (among rest n) && all_distinct rest

all_distinct-Distinct : (names : List String) → all_distinct names ≡ true → Distinct names
unfolding all_distinct
all_distinct-Distinct [] h = tt
all_distinct-Distinct (n ∷ rest) h = elim (Bool-cases (among rest n)) [
  | inl again ↦ ground (arith, again, h)
  | inr once ↦ (once, all_distinct-Distinct rest (ground (arith, once, h)))
]

candidates_distinct : all_distinct candidates ≡ true
unfolding all_distinct
candidates_distinct = refl

candidates_listed : every (among candidates) candidates ≡ true
unfolding every
candidates_listed = refl

-- With fewer than all candidates in the map, there is a free one.
get_next_room :
    (m : Dict String)
    → length (entries_among candidates m) < 39
    → (name : String) × (get_next m ≡ ok name)
get_next_room m room = elim (Result-cases (get_next m)) [
  | inl found ↦ found
  | inr (inl (e, failed)) ↦
      let full : IsFirstFree m candidates (err e) =
        subst (IsFirstFree m candidates) failed (get_next-IsFirstFree m) in
      absurd (
        omega (
          arith,
          length-le-entries candidates (entries_among candidates m)
              (all_distinct-Distinct candidates candidates_distinct)
              (Taken-entries_among candidates candidates m
                (All-every (among candidates) candidates candidates_listed) full.1),
        ))
  | inr (inr panicked) ↦ absurd (subst (IsFirstFree m candidates) panicked (get_next-IsFirstFree m))
]

module _ (visit : Dict String → Dict String) where
  -- Where fewer names of those that `GetNext` can give are in use on a machine, attached or in
  -- flight, than the limit that `NodeGetInfo` reports with MAX_BSU_VOLUMES unset, `NewDevice` gives
  -- a device, whatever the volume.
  pub new_device_below_limit :
      (vm : Vm) (node volume zone : String) (base : Dict String) (i : InFlightAttaching)
      → vm.vm_id ≡ some node
      → attached vm.block_device_mappings [] ≡ some base
      → pos (suc (length (entries_among candidates (overlay base (get_names i node)))))
        ≤ℤ (node_get_info node zone "").max_volumes_per_node
      → (d : Device) × ((new_device visit vm volume i).0 ≡ ok d)
  unfolding new_device get_device_names_in_use node_get_info get_volumes_limit
  new_device_below_limit vm node volume zone base i on_node is_base room =
      let (name, free) = get_next_room (overlay base (get_names i node)) (omega (arith, room)) in
      elim (Bool-cases (get_path visit (overlay base (get_names i node)) volume == "")) [
        | inl new ↦ (
          new_block_device vm volume (concat dev_preffix name) false,
          ground (arith, on_node, is_base, new, free),
        )
        | inr old ↦ (
          new_block_device vm volume (get_path visit (overlay base (get_names i node)) volume) true,
          ground (arith, on_node, is_base, old),
        )
      ]
