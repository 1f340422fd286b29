-- ===== src/Go/Act.antt =====
-- Methods that change a state of type `S` and return a value and an error. What was changed before
-- an error stays changed. A run-time panic ends the method like an error, and has no value.
pub mod Keeps
pub mod Success
pub mod Agrees
use osc_bsu_csi_driver.Prelude.{◌≡◌, ◌≢◌, refl, ap, ◌⊎◌, inl, inr, Bool, true, false}
use osc_bsu_csi_driver.Go.Error.{GoError}

pub data Result (A : Type 0) : Type 0 where
  ok : A → Result A
  err : GoError → Result A
  panic : Result A

pub Result-cases :
    {A : Type 0} (r : Result A)
    → ((a : A) × (r ≡ ok a)) ⊎ ((e : GoError) × (r ≡ err e)) ⊎ (r ≡ panic)
Result-cases (ok a) = inl (a, refl)
Result-cases (err e) = inr (inl (e, refl))
Result-cases panic = inr (inr refl)

abbrev pub Act : Type 0 → Type 0 → Type 0
Act S A = S → Result A × S

module _ {S A : Type 0} where
  abbrev pub pure : A → Act S A
  pure a s = (ok a, s)

  abbrev pub raise : GoError → Act S A
  raise e s = (err e, s)

  abbrev pub crash : Act S A
  crash s = (panic, s)

module _ {S A B : Type 0} where
  abbrev pub continue : Result A → (A → Act S B) → Act S B
  continue (ok a) f s = f a s
  continue (err e) f s = (err e, s)
  continue panic f s = (panic, s)

  infixl 10 ◌>>=◌ ◌>>◌
  abbrev pub ◌>>=◌ : Act S A → (A → Act S B) → Act S B
  ◌>>=◌ m f s = continue (m s).0 f (m s).1

  abbrev pub ◌>>◌ : Act S A → Act S B → Act S B
  m >> n = m >>= λ _. n

  -- `v, err := m(); if err != nil { ... }` where the handler looks at the error
  abbrev pub handle : Result A → (A → Act S B) → (GoError → Act S B) → Act S B
  handle (ok a) f g s = f a s
  handle (err e) f g s = g e s
  handle panic f g s = (panic, s)

  abbrev pub attempt : Act S A → (A → Act S B) → (GoError → Act S B) → Act S B
  attempt m f g s = handle (m s).0 f g (m s).1

module _ {S A : Type 0} where
  -- `defer d()` in front of the rest `m` of a method; the result is that of `m`
  abbrev pub defer : (S → S) → Act S A → Act S A
  defer d m s = ((m s).0, d (m s).1)

module _ {S A : Type 0} where
  -- `v, err := m(); if err != nil { return e }`
  abbrev pub or_fail : Act S A → GoError → Act S A
  or_fail m e = attempt m pure (λ _. raise e)

  -- An action whose error is only logged.
  abbrev pub ignoring : Act S A → Act S (Unit {0})
  ignoring m = attempt m (λ _. pure tt) (λ _. pure tt)

module _ {S : Type 0} where
  abbrev pub unless : Bool → Act S (Unit {0}) → Act S (Unit {0})
  unless true m = pure tt
  unless false m = m

module _ {S A : Type 0} where
  abbrev pub lift : Result A → Act S A
  lift r s = (r, s)

module _ {S : Type 0} where
  abbrev pub modify : (S → S) → Act S (Unit {0})
  modify f s = (ok tt, f s)

  abbrev pub gets : {A : Type 0} → (S → A) → Act S A
  gets f s = (ok (f s), s)

module _ {S A B : Type 0} where
  bind_ok :
      (r : Result A) (f : A → Act S B) (s : S) (b : B) (s' : S)
      → continue r f s ≡ (ok b, s')
      → (a : A) × (r ≡ ok a) × (f a s ≡ (ok b, s'))
  bind_ok (ok a) f s b s' h = (a, refl, h)
  bind_ok (err e) f s b s' h = cc
  bind_ok panic f s b s' h = cc

  -- Where a bind has a value, so has its first part.
  pub >>=-ok :
      (m : Act S A) (f : A → Act S B) (s : S) (b : B) (s' : S)
      → (m >>= f) s ≡ (ok b, s')
      → (a : A) × ((m s).0 ≡ ok a) × (f a (m s).1 ≡ (ok b, s'))
  >>=-ok m f s b s' h = bind_ok (m s).0 f (m s).1 b s' h

  handle_ok :
      (r : Result A) (f : A → Act S B) (g : GoError → Act S B) (s : S) (b : B) (s' : S)
      → ((e : GoError) → (g e s).0 ≢ ok b)
      → handle r f g s ≡ (ok b, s')
      → (a : A) × (r ≡ ok a) × (f a s ≡ (ok b, s'))
  handle_ok (ok a) f g s b s' never h = (a, refl, h)
  handle_ok (err e) f g s b s' never h = absurd (never e (ap (λ t. t.0) h))
  handle_ok panic f g s b s' never h = cc

  -- Where the handler has no value, an attempt that has one comes from its first part.
  pub attempt-ok :
      (m : Act S A) (f : A → Act S B) (g : GoError → Act S B) (s : S) (b : B) (s' : S)
      → ((e : GoError) → (g e (m s).1).0 ≢ ok b)
      → attempt m f g s ≡ (ok b, s')
      → (a : A) × ((m s).0 ≡ ok a) × (f a (m s).1 ≡ (ok b, s'))
  attempt-ok m f g s b s' never h = handle_ok (m s).0 f g (m s).1 b s' never h
