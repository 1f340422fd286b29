-- ===== src/Go/Dict/Entries.antt =====
-- The entries of a map as members of its list, and maps whose keys are distinct.
use mathlib.Core.List.{Memᴰ}
use osc_bsu_csi_driver.Prelude.{
  String, ◌≡◌, refl, none, some, [], ◌∷◌, arith, eq_iff, ◌==◌, Bool-cases, inl, inr,
}
use osc_bsu_csi_driver.Go.Dict.{Dict, lookup, insert, overlay, lookup-insert}

module _ {V : Type 0} where
  -- What a key maps to is an entry.
  pub mem_of_lookup : (k : String) (v : V) (m : Dict V) → lookup k m ≡ some v → Memᴰ (k, v) m
  unfolding lookup
  mem_of_lookup k v [] h = cc
  mem_of_lookup k v ((j, w) ∷ m) h = elim (Bool-cases (j == k)) [
    | inl same ↦ Memᴰ.head (ground (arith, eq_iff j k))
    | inr other ↦ Memᴰ.tail (mem_of_lookup k v m (rw other at h))
  ]

  abbrev pub KeysDistinct : Dict V → Type 0
  KeysDistinct [] = Unit
  KeysDistinct ((k, _) ∷ m) = (lookup k m ≡ none) × KeysDistinct m

  pub insert-KeysDistinct :
      (k : String) (v : V) (m : Dict V) → KeysDistinct m → KeysDistinct (insert k v m)
  unfolding insert lookup
  insert-KeysDistinct k v [] d = (refl, tt)
  insert-KeysDistinct k v ((j, w) ∷ m) d = elim (Bool-cases (j == k)) [
    | inl same ↦ rw same (rw ((eq_iff j k).0 same) at d)
    | inr other ↦ rw other (
      ground (arith, eq_iff j k, eq_iff k j, lookup-insert k j v m, d.0),
      insert-KeysDistinct k v m d.1,
    )
  ]

  pub overlay-KeysDistinct : (m over : Dict V) → KeysDistinct m → KeysDistinct (overlay m over)
  unfolding overlay
  overlay-KeysDistinct m [] d = d
  overlay-KeysDistinct m ((k, v) ∷ over) d =
      insert-KeysDistinct k v (overlay m over) (overlay-KeysDistinct m over d)

  -- With distinct keys an entry is what its key maps to.
  pub lookup_of_mem :
      (k : String) (v : V) (m : Dict V) → KeysDistinct m → Memᴰ (k, v) m → lookup k m ≡ some v
  unfolding lookup
  lookup_of_mem k v [] d h = elim h [ ]
  lookup_of_mem k v ((j, w) ∷ m) d (Memᴰ.head e) = ground (arith, eq_iff j k)
  lookup_of_mem k v ((j, w) ∷ m) d (Memᴰ.tail h) =
      ground (arith, eq_iff j k, lookup_of_mem k v m d.1 h)
