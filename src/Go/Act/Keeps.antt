-- ===== src/Go/Act/Keeps.antt =====
-- What a method keeps true of the state, whatever its outcome.
use osc_bsu_csi_driver.Prelude.{◌≡◌, refl, Bool, true, false, if◌then◌else◌}
use osc_bsu_csi_driver.Go.Error.{GoError}
use osc_bsu_csi_driver.Go.Act.{
  Result, ok, err, panic, Act, pure, raise, continue, handle, attempt, or_fail, ignoring, unless,
  lift, ◌>>=◌, ◌>>◌,
}

module _ {S : Type 0} (P : S → Type 0) where
  pub data Keeps {A : Type 0} (m : Act S A) : Type 0 where
    keeping : ((s : S) → P s → P (m s).1) → Keeps m

  pub kept : {A : Type 0} {m : Act S A} → Keeps m → (s : S) → P s → P (m s).1
  kept (keeping k) = k

  pub Keeps-pure : {A : Type 0} (a : A) → Keeps (pure {S = S} a)
  Keeps-pure a = keeping (λ s h. h)

  pub Keeps-raise : {A : Type 0} (e : GoError) → Keeps {A = A} (raise e)
  Keeps-raise e = keeping (λ s h. h)

  pub Keeps-lift : {A : Type 0} (r : Result A) → Keeps {A = A} (lift r)
  Keeps-lift r = keeping (λ s h. h)

  continue_keeps :
      {A B : Type 0} (r : Result A) (f : A → Act S B)
      → ((a : A) → r ≡ ok a → Keeps (f a))
      → (s : S) → P s
      → P (continue r f s).1
  continue_keeps (ok a) f k s h = kept (k a refl) s h
  continue_keeps (err e) f k s h = h
  continue_keeps panic f k s h = h

  handle_keeps :
      {A B : Type 0} (r : Result A) (f : A → Act S B) (g : GoError → Act S B)
      → ((a : A) → r ≡ ok a → Keeps (f a))
      → ((e : GoError) → r ≡ err e → Keeps (g e))
      → (s : S) → P s
      → P (handle r f g s).1
  handle_keeps (ok a) f g k l s h = kept (k a refl) s h
  handle_keeps (err e) f g k l s h = kept (l e refl) s h
  handle_keeps panic f g k l s h = h

  pub Keeps->>= :
      {A B : Type 0} {m : Act S A} {f : A → Act S B}
      → Keeps m
      → ((a : A) → Keeps (f a))
      → Keeps (m >>= f)
  Keeps->>= {m} {f} km kf =
      keeping (λ s h. continue_keeps (m s).0 f (λ a _. kf a) (m s).1 (kept km s h))

  -- The same with what is known of the value of the first part.
  pub Keeps->>=_knowing :
      {A B : Type 0} {m : Act S A} {f : A → Act S B} (Q : A → Type 0)
      → Keeps m
      → ((s : S) (a : A) → P s → (m s).0 ≡ ok a → Q a)
      → ((a : A) → Q a → Keeps (f a))
      → Keeps (m >>= f)
  Keeps->>=_knowing {m} {f} Q km know kf =
      keeping (λ s h. continue_keeps (m s).0 f (λ a r. kf a (know s a h r)) (m s).1 (kept km s h))

  pub Keeps->> : {A B : Type 0} {m : Act S A} {n : Act S B} → Keeps m → Keeps n → Keeps (m >> n)
  Keeps->> {m} {n} km kn =
      keeping (λ s h. continue_keeps (m s).0 (λ _. n) (λ _ _. kn) (m s).1 (kept km s h))

  pub Keeps-attempt :
      {A B : Type 0} {m : Act S A} {f : A → Act S B} {g : GoError → Act S B}
      → Keeps m
      → ((a : A) → Keeps (f a))
      → ((e : GoError) → Keeps (g e))
      → Keeps (attempt m f g)
  Keeps-attempt {m} {f} {g} km kf kg =
      keeping (λ s h. handle_keeps (m s).0 f g (λ a _. kf a) (λ e _. kg e) (m s).1 (kept km s h))

  -- The same with what is known of the outcomes of the first part.
  pub Keeps-attempt_knowing :
      {A B : Type 0} {m : Act S A} {f : A → Act S B} {g : GoError → Act S B} (Q : A → Type 0)
      (E : Type 0)
      → Keeps m
      → ((s : S) (a : A) → P s → (m s).0 ≡ ok a → Q a)
      → ((s : S) (e : GoError) → P s → (m s).0 ≡ err e → E)
      → ((a : A) → Q a → Keeps (f a))
      → ((e : GoError) → E → Keeps (g e))
      → Keeps (attempt m f g)
  Keeps-attempt_knowing {m} {f} {g} Q E km know fails kf kg = keeping (λ s h.
      handle_keeps (m s).0 f g (λ a r. kf a (know s a h r)) (λ e r. kg e (fails s e h r)) (m s).1
        (kept km s h))

  pub Keeps-or_fail : {A : Type 0} {m : Act S A} (e : GoError) → Keeps m → Keeps (or_fail m e)
  Keeps-or_fail e km = Keeps-attempt km Keeps-pure (λ _. Keeps-raise e)

  pub Keeps-ignoring : {A : Type 0} {m : Act S A} → Keeps m → Keeps (ignoring m)
  Keeps-ignoring km = Keeps-attempt km (λ _. Keeps-pure tt) (λ _. Keeps-pure tt)

  pub Keeps-unless : (b : Bool) {m : Act S (Unit {0})} → Keeps m → Keeps (unless b m)
  Keeps-unless true km = Keeps-pure tt
  Keeps-unless false km = km

  pub Keeps-unless_true : {b : Bool} (m : Act S (Unit {0})) → b ≡ true → Keeps (unless b m)
  Keeps-unless_true {b = true} m t = Keeps-pure tt
  Keeps-unless_true {b = false} m t = cc

  pub Keeps-if :
      {A : Type 0} (b : Bool) {m n : Act S A} → Keeps m → Keeps n → Keeps (if b then m else n)
  Keeps-if true km kn = km
  Keeps-if false km kn = kn

  pub Keeps-if_knowing :
      {A : Type 0} (b : Bool) {m n : Act S A}
      → (b ≡ true → Keeps m)
      → Keeps n
      → Keeps (if b then m else n)
  Keeps-if_knowing true km kn = km refl
  Keeps-if_knowing false km kn = kn
