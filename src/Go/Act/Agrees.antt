-- ===== src/Go/Act/Agrees.antt =====
-- Methods that only read, and read the same in two states.
use mathlib.Core.Path.{subst}
use osc_bsu_csi_driver.Prelude.{◌≡◌, refl, ap, ◌∙◌, Bool, true, false, if◌then◌else◌}
use osc_bsu_csi_driver.Go.Error.{GoError}
use osc_bsu_csi_driver.Go.Act.{
  Result, ok, err, panic, Act, pure, raise, handle, attempt, continue, ◌>>=◌,
}

module _ {S : Type 0} (s s' : S) where
  -- The same outcome in both states, which stay as they are; a value has the property `Q`.
  pub data Agrees {A : Type 0} (Q : A → Type 0) (m : Act S A) : Type 0 where
    agreeing :
        (r : Result A)
        → ◌≡◌ {A = Result A × S} (m s) (r, s)
        → ◌≡◌ {A = Result A × S} (m s') (r, s')
        → ((a : A) → r ≡ ok a → Q a)
        → Agrees Q m

  module _ {A : Type 0} {Q : A → Type 0} where
    pub Agrees-pure : (a : A) → Q a → Agrees Q (pure a)
    Agrees-pure a q = agreeing (ok a) refl refl (λ b h. let e : a ≡ b = cc in subst Q e q)

    pub Agrees-raise : (e : GoError) → Agrees Q (raise e)
    Agrees-raise e = agreeing (err e) refl refl (λ b h. cc)

    pub Agrees-if :
        (b : Bool) {m n : Act S A}
        → (b ≡ true → Agrees Q m)
        → (b ≡ false → Agrees Q n)
        → Agrees Q (if b then m else n)
    Agrees-if true km kn = km refl
    Agrees-if false km kn = kn refl

  module _ {A B : Type 0} (P : A → Type 0) (Q : B → Type 0) where
    Agrees-after :
        (rest : Result A → Act S B) (m : Act S A)
        → Agrees P m
        → ((r : Result A) → ((a : A) → r ≡ ok a → P a) → Agrees Q (rest r))
        → Agrees Q (λ t. rest (m t).0 (m t).1)
    Agrees-after rest m (agreeing r here there known) k = elim (k r known) [
      | agreeing r' here' there' known' ↦
          agreeing r' (ap (λ t. rest t.0 t.1) here ∙ here') (ap (λ t. rest t.0 t.1) there ∙ there')
            known'
    ]

    handle-Agrees :
        (f : A → Act S B) (g : GoError → Act S B) (r : Result A)
        → ((a : A) → P a → Agrees Q (f a))
        → ((e : GoError) → Agrees Q (g e))
        → ((a : A) → r ≡ ok a → P a)
        → Agrees Q (λ t. handle r f g t)
    handle-Agrees f g (ok a) kf kg known = kf a (known a refl)
    handle-Agrees f g (err e) kf kg known = kg e
    handle-Agrees f g panic kf kg known = agreeing panic refl refl (λ b h. cc)

    continue-Agrees :
        (f : A → Act S B) (r : Result A)
        → ((a : A) → P a → Agrees Q (f a))
        → ((a : A) → r ≡ ok a → P a)
        → Agrees Q (λ t. continue r f t)
    continue-Agrees f (ok a) kf known = kf a (known a refl)
    continue-Agrees f (err e) kf known = agreeing (err e) refl refl (λ b h. cc)
    continue-Agrees f panic kf known = agreeing panic refl refl (λ b h. cc)

    pub Agrees-attempt :
        (m : Act S A) (f : A → Act S B) (g : GoError → Act S B)
        → Agrees P m
        → ((a : A) → P a → Agrees Q (f a))
        → ((e : GoError) → Agrees Q (g e))
        → Agrees Q (attempt m f g)
    Agrees-attempt m f g km kf kg =
        Agrees-after (λ r. handle r f g) m km (λ r known. handle-Agrees f g r kf kg known)

    pub Agrees->>= :
        (m : Act S A) (f : A → Act S B)
        → Agrees P m
        → ((a : A) → P a → Agrees Q (f a))
        → Agrees Q (m >>= f)
    Agrees->>= m f km kf =
        Agrees-after (λ r. continue r f) m km (λ r known. continue-Agrees f r kf known)
