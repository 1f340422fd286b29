-- ===== src/Go/Act/Success.antt =====
-- What is known of the parts of a method that has a value.
use mathlib.Core.Path.{subst}
use osc_bsu_csi_driver.Prelude.{
  ◌≡◌, ◌≢◌, refl, ap, ◌∙◌, ◌⊎◌, inl, inr, Bool, true, false, if◌then◌else◌,
}
use osc_bsu_csi_driver.Go.Act.Keeps.{Keeps, kept}
use osc_bsu_csi_driver.Go.Error.{GoError}
use osc_bsu_csi_driver.Go.Act.{
  Result, ok, err, panic, Act, pure, raise, continue, handle, or_fail, unless, ◌>>=◌, ◌>>◌, attempt,
  >>=-ok, attempt-ok,
}

-- A run with a value.
abbrev pub Runs : {S A : Type 0} → Act S A → S → A → S → Type 0
Runs {S} {A} m s a s' = ◌≡◌ {A = Result A × S} (m s) (ok a, s')

module _ {S A B : Type 0} where
  raised :
      (r : Result A) (e : GoError) (s : S) (b : B) → (continue r (λ _. raise {A = B} e) s).0 ≢ ok b
  raised (ok a) e s b h = cc
  raised (err e) e' s b h = cc
  raised panic e s b h = cc

  -- Nothing that ends with an error has a value.
  pub raise-never :
      (m : Act S A) (e : GoError) (s : S) (b : B) → ((m >> raise {A = B} e) s).0 ≢ ok b
  raise-never m e s b h = raised (m s).0 e (m s).1 b h

  handled :
      (r : Result A) (e : GoError) (f : A → Act S B) (s : S) (b : B) (s' : S)
      → continue (handle r pure (λ _. raise e) s).0 f (handle r pure (λ _. raise e) s).1
        ≡ (ok b, s')
      → (a : A) × (r ≡ ok a) × Runs (f a) s b s'
  handled (ok a) e f s b s' h = (a, refl, h)
  handled (err e) e' f s b s' h = cc
  handled panic e f s b s' h = cc

  -- `v, err := m(); if err != nil { return e }`, and the rest of the method
  pub or_fail-Runs :
      (m : Act S A) (e : GoError) (f : A → Act S B) (s : S) (b : B) (s' : S)
      → Runs (or_fail m e >>= f) s b s'
      → (a : A) × (t : S) × Runs m s a t × Runs (f a) t b s'
  or_fail-Runs m e f s b s' h =
      let (a, ran, rest) = handled (m s).0 e f (m s).1 b s' h in
      (a, (m s).1, (λ i. (ran i, (m s).1)), rest)

  pub >>=-Runs :
      (m : Act S A) (f : A → Act S B) (s : S) (b : B) (s' : S)
      → Runs (m >>= f) s b s'
      → (a : A) × (t : S) × Runs m s a t × Runs (f a) t b s'
  >>=-Runs m f s b s' h =
      let (a, ran, rest) = >>=-ok m f s b s' h in (a, (m s).1, (λ i. (ran i, (m s).1)), rest)

  -- Where the handler has no value, an attempt that has one comes from its first part.
  pub attempt-Runs :
      (m : Act S A) (f : A → Act S B) (g : GoError → Act S B) (s : S) (b : B) (s' : S)
      → ((e : GoError) → (g e (m s).1).0 ≢ ok b)
      → Runs (attempt m f g) s b s'
      → (a : A) × (t : S) × Runs m s a t × Runs (f a) t b s'
  attempt-Runs m f g s b s' never h =
      let (a, ran, rest) = attempt-ok m f g s b s' never h in
      (a, (m s).1, (λ i. (ran i, (m s).1)), rest)

module _ {S A B : Type 0} where
  handle_cases :
      (r : Result A) (f : A → Act S B) (g : GoError → Act S B) (s : S) (b : B) (s' : S)
      → handle r f g s ≡ (ok b, s')
      → ((a : A) × (r ≡ ok a) × Runs (f a) s b s')
        ⊎ ((e : GoError) × (r ≡ err e) × Runs (g e) s b s')
  handle_cases (ok a) f g s b s' h = inl (a, refl, h)
  handle_cases (err e) f g s b s' h = inr (e, refl, h)
  handle_cases panic f g s b s' h = cc

  -- An attempt that has a value comes from its first part or from its handler.
  pub attempt-cases :
      (m : Act S A) (f : A → Act S B) (g : GoError → Act S B) (s : S) (b : B) (s' : S)
      → Runs (attempt m f g) s b s'
      → ((a : A) × ((m s).0 ≡ ok a) × Runs (f a) (m s).1 b s')
        ⊎ ((e : GoError) × ((m s).0 ≡ err e) × Runs (g e) (m s).1 b s')
  attempt-cases m f g s b s' h = handle_cases (m s).0 f g (m s).1 b s' h

module _ {S A : Type 0} where
  -- The same with nothing after it.
  pub or_fail_only-Runs :
      (m : Act S A) (e : GoError) (s : S) (a : A) (s' : S)
      → Runs (or_fail m e) s a s'
      → Runs m s a s'
  or_fail_only-Runs m e s a s' h =
      let (b, t, ran, same) = attempt-Runs m pure (λ _. raise e) s a s' (λ _ n. cc) h in ran ∙ same

  -- What a method keeps holds after a run.
  pub Keeps-Runs :
      (P : S → Type 0) (m : Act S A) (s : S) (a : A) (s' : S)
      → Keeps P m
      → P s
      → Runs m s a s'
      → P s'
  Keeps-Runs P m s a s' k h ran = subst P (ap (λ r. r.1) ran) (kept P k s h)

  -- A test that guards an error has failed.
  pub if-raise-Runs :
      (b : Bool) (e : GoError) (m : Act S A) (s : S) (a : A) (s' : S)
      → Runs (if b then raise e else m) s a s'
      → (b ≡ false) × Runs m s a s'
  if-raise-Runs true e m s a s' h = cc
  if-raise-Runs false e m s a s' h = (refl, h)

  -- What is done unless a test has passed is done, or the test has passed.
  pub unless-Runs :
      (b : Bool) (m : Act S (Unit {0})) (f : Act S A) (s : S) (a : A) (s' : S)
      → Runs (unless b m >> f) s a s'
      → (t : S) × Runs (unless b m) s tt t × Runs f t a s'
  unless-Runs b m f s a s' h =
      let (done, t, ran, rest) = >>=-Runs (unless b m) (λ _. f) s a s' h in (t, ran, rest)
