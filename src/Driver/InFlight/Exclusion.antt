-- ===== src/Driver/InFlight/Exclusion.antt =====
-- Requests in flight exclude each other.
use osc_bsu_csi_driver.Prelude.{
  String, ◌≡◌, ◌≢◌, true, false, none, some, List, [], ◌∷◌, All, arith, eq_iff, ◌==◌, Option-cases,
  ◌⊎◌, inl, inr, if◌then◌else◌,
}
use osc_bsu_csi_driver.Go.Dict.{lookup, insert, lookup-insert, lookup-delete}
use osc_bsu_csi_driver.Driver.InFlight.{InFlight, insert_request, delete_request}

-- A call of the set of requests.
data Call : Type 0 where
  inserting : String → Call
  deleting : String → Call

unfoldable after_calls : List Call → InFlight → InFlight
after_calls [] db = db
after_calls (inserting hash ∷ rest) db = after_calls rest (insert_request hash db).1
after_calls (deleting hash ∷ rest) db = after_calls rest (delete_request hash db)

-- The two texts differ, if the call is of that kind.
abbrev DeletesNot : String → Call → Type 0
DeletesNot hash (inserting h) = Unit
DeletesNot hash (deleting h) = h ≢ hash

abbrev InsertsNot : String → Call → Type 0
InsertsNot hash (inserting h) = h ≢ hash
InsertsNot hash (deleting h) = Unit

-- `Insert` accepts a request that is not in flight, and changes nothing where it refuses one.
pub insert_request-cases :
    (hash : String) (db : InFlight)
    → ((lookup hash db ≡ none) × (insert_request hash db ≡ (true, insert hash true db)))
      ⊎ ((lookup hash db ≢ none) × (insert_request hash db ≡ (false, db)))
unfolding insert_request
insert_request-cases hash db = elim (Option-cases (lookup hash db)) [
  | inl free ↦ inl (free, rw (free, insert_request))
  | inr (v, found) ↦ inr ((λ e. cc), rw (found, insert_request))
]

lookup-insert_request :
    (key hash : String) (db : InFlight)
    → lookup key (insert_request hash db).1 ≡ (
        if hash == key
        then (if (insert_request hash db).0 then some true else lookup key db)
        else lookup key db)
unfolding insert_request
lookup-insert_request key hash db = elim (Option-cases (lookup hash db)) [
  | inl free ↦ ground (arith, lookup-insert hash key true db)
  | inr (v, found) ↦ ground (arith, eq_iff hash key)
]

stays_in :
    (calls : List Call) (hash : String) (db : InFlight)
    → All (DeletesNot hash) calls
    → lookup hash db ≢ none
    → lookup hash (after_calls calls db) ≢ none
unfolding after_calls delete_request
stays_in [] hash db a h = h
stays_in (inserting k ∷ rest) hash db a h =
    stays_in rest hash (insert_request k db).1 a.1
      (ground (arith, h, lookup-insert_request hash k db))
stays_in (deleting k ∷ rest) hash db a h =
    stays_in rest hash (delete_request k db) a.1
      (ground (arith, h, a.0, eq_iff k hash, lookup-delete k hash db))

stays_out :
    (calls : List Call) (hash : String) (db : InFlight)
    → All (InsertsNot hash) calls
    → lookup hash db ≡ none
    → lookup hash (after_calls calls db) ≡ none
unfolding after_calls delete_request
stays_out [] hash db a h = h
stays_out (inserting k ∷ rest) hash db a h =
    stays_out rest hash (insert_request k db).1 a.1
      (ground (arith, h, a.0, eq_iff k hash, lookup-insert_request hash k db))
stays_out (deleting k ∷ rest) hash db a h =
    stays_out rest hash (delete_request k db) a.1 (ground (arith, h, lookup-delete k hash db))

taken : (hash : String) (db : InFlight) → lookup hash (insert_request hash db).1 ≢ none
unfolding insert_request
taken hash db e = elim (Option-cases (lookup hash db)) [
  | inl free ↦ ground (arith, eq_iff hash hash, lookup-insert hash hash true db)
  | inr (v, found) ↦ ground arith
]

deleted : (hash : String) (db : InFlight) → lookup hash (delete_request hash db) ≡ none
unfolding delete_request
deleted hash db = ground (arith, eq_iff hash hash, lookup-delete hash hash db)

accepts :
    (hash : String) (db : InFlight) → lookup hash db ≡ none → (insert_request hash db).0 ≡ true
unfolding insert_request
accepts hash db free = ground arith

refuses :
    (hash : String) (db : InFlight) → lookup hash db ≢ none → (insert_request hash db).0 ≡ false
unfolding insert_request
refuses hash db held = elim (Option-cases (lookup hash db)) [
  | inl free ↦ absurd (held free)
  | inr (v, found) ↦ ground arith
]

-- After a call of `Insert` with a request, whatever it answered, `Insert` refuses the same request
-- until a call of `Delete` with it: any other calls may come in between.
insert_request_excludes :
    (hash : String) (db : InFlight) (calls : List Call)
    → All (DeletesNot hash) calls
    → (insert_request hash (after_calls calls (insert_request hash db).1)).0 ≡ false
insert_request_excludes hash db calls quiet =
    refuses hash (after_calls calls (insert_request hash db).1)
      (stays_in calls hash (insert_request hash db).1 quiet (taken hash db))

-- After a call of `Delete` with a request, and any calls but an `Insert` with it, `Insert` accepts
-- the request, and a second `Insert` right after is refused.
delete_request_readmits :
    (hash : String) (db : InFlight) (calls : List Call)
    → All (InsertsNot hash) calls
    → ((insert_request hash (after_calls calls (delete_request hash db))).0 ≡ true)
      × ((insert_request hash
            (insert_request hash (after_calls calls (delete_request hash db))).1).0
          ≡ false)
delete_request_readmits hash db calls quiet =
    let later = after_calls calls (delete_request hash db) in
    (
      accepts hash later (stays_out calls hash (delete_request hash db) quiet (deleted hash db)),
      refuses hash (insert_request hash later).1 (taken hash later),
    )
