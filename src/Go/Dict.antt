-- ===== src/Go/Dict.antt =====
-- Go's `map[string]V` as an association list. The order of the list is the order in which a
-- `range` loop happens to visit the entries.
pub mod Entries
use osc_bsu_csi_driver.Prelude.{
  String, ◌≡◌, refl, Option, none, some, List, [], ◌∷◌, arith, eq_iff, ◌==◌, if◌then◌else◌,
}

abbrev pub Dict {ℓ} : Type ℓ → Type ℓ
Dict V = List (String × V)

module _ {ℓ} {V : Type ℓ} where
  -- v, ok := m[k]
  unfoldable pub lookup : String → Dict V → Option V
  lookup key [] = none
  lookup key ((at, value) ∷ rest) = if at == key then some value else lookup key rest

  -- m[k] = v
  unfoldable pub insert : String → V → Dict V → Dict V
  insert key new [] = (key, new) ∷ []
  insert key new ((at, old) ∷ rest) =
      if at == key then (key, new) ∷ rest else (at, old) ∷ insert key new rest

  -- delete(m, k)
  unfoldable pub delete : String → Dict V → Dict V
  delete k [] = []
  delete k ((j, w) ∷ m) = let rest = delete k m in if j == k then rest else (j, w) ∷ rest

  -- for k, v := range over { m[k] = v }: the keys of `over` are distinct, so the order is free
  unfoldable pub overlay : Dict V → Dict V → Dict V
  overlay m [] = m
  overlay m ((k, v) ∷ over) = insert k v (overlay m over)

  -- the value, or the zero value of the type
  abbrev pub or_zero : V → Option V → V
  or_zero z none = z
  or_zero z (some v) = v

  abbrev pub or_else : Option V → Option V → Option V
  or_else none o = o
  or_else (some v) o = some v

  pub lookup-insert :
      (key other : String) (new : V) (m : Dict V)
      → lookup other (insert key new m) ≡ (if key == other then some new else lookup other m)
  unfolding lookup insert
  lookup-insert key other new [] = refl
  lookup-insert key other new ((at, old) ∷ rest) =
      ground
        (lookup-insert key other new rest, arith, eq_iff at key, eq_iff at other, eq_iff key other)

  pub lookup-delete :
      (k j : String) (m : Dict V) → lookup j (delete k m) ≡ (if k == j then none else lookup j m)
  unfolding lookup delete
  lookup-delete k j [] = ground arith
  lookup-delete k j ((i, w) ∷ m) =
      ground (arith, eq_iff k j, eq_iff i k, eq_iff i j, lookup-delete k j m)

  pub lookup-overlay :
      (j : String) (m over : Dict V)
      → lookup j (overlay m over) ≡ or_else (lookup j over) (lookup j m)
  unfolding lookup overlay
  lookup-overlay j m [] = refl
  lookup-overlay j m ((k, v) ∷ over) =
      ground (arith, lookup-insert k j v (overlay m over), lookup-overlay j m over)

pub ruleset dict_laws = (lookup-insert, lookup-delete, lookup-overlay)
