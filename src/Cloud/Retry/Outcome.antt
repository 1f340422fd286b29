-- ===== src/Cloud/Retry/Outcome.antt =====
-- What a retried call comes to: a rule for invariants and results, and the number of calls.
use Prim.Native.Nat.add
use osc_bsu_csi_driver.Prelude.{
  ℕ, zero, suc, ◌+◌, ◌-◌, ◌<◌, ◌≡◌, refl, ap, ◌∙◌, true, false, Option, none, some, arith,
}
use osc_bsu_csi_driver.Go.Error.{GoError, wait_timeout}
use osc_bsu_csi_driver.Go.Act.{Result, ok, err, panic, Act}
use osc_bsu_csi_driver.Cloud.Platform.{Platform, BacksOff, ApiResult, reply, failure, after_check}
use osc_bsu_csi_driver.Cloud.Retry.{State, throttled, answer, callback, retrying}

module _ {S A : Type 0} (Inv : S → Type 0) (Post : Result A → S → Type 0) where
  -- What one check has to give: the invariant where the wait goes on, the result where it ends.
  abbrev pub Checked : Result (Option A) → S → Type 0
  Checked (ok none) s = Inv s
  Checked (ok (some a)) s = Post (ok a) s
  Checked (err e) s = Post (err e) s
  Checked panic s = Post panic s

  after_check-Post :
      (r : Result (Option A)) (rest : Act S A) (s : S)
      → Checked r s
      → (Inv s → Post (rest s).0 (rest s).1)
      → Post (after_check r rest s).0 (after_check r rest s).1
  after_check-Post (ok none) rest s c go = go c
  after_check-Post (ok (some a)) rest s c go = c
  after_check-Post (err e) rest s c go = c
  after_check-Post panic rest s c go = c

  module _ {World : Type 0} (p : Platform World) (laws : BacksOff p) where
    -- The rule for a backoff: its checks keep the invariant, and what ends it has the property.
    pub exponential_backoff-Post :
        (check : Act S (Option A))
        → ((s : S) → Inv s → Post (err wait_timeout) s)
        → ((s : S) → Inv s → Checked (check s).0 (check s).1)
        → (n : ℕ) (s : S) → Inv s
        → Post (p.exponential_backoff S A n check s).0 (p.exponential_backoff S A n check s).1
    exponential_backoff-Post check late step zero s i = rw (laws.exhausted S A check s) (late s i)
    exponential_backoff-Post check late step (suc n) s i = rw (laws.checked S A n check s) (
        after_check-Post (check s).0 (p.exponential_backoff S A n check) (check s).1 (step s i)
          (exponential_backoff-Post check late step n (check s).1))

-- A check that has a property of the state gives it in every case.
pub Checked-same :
    {S A : Type 0} (Inv : S → Type 0) (r : Result (Option A)) (s : S)
    → Inv s
    → Checked Inv (λ _. Inv) r s
Checked-same Inv (ok none) s h = h
Checked-same Inv (ok (some a)) s h = h
Checked-same Inv (err e) s h = h
Checked-same Inv panic s h = h

module _ {World A : Type 0} (call : World → ApiResult A × World) where
  -- The first `k` answers from a world on are throttling errors.
  abbrev pub Throttles : ℕ → World → Type 0
  Throttles zero w = Unit
  Throttles (suc k) w =
      ((http : Option ℕ) × (e : GoError) × ((call w).0 ≡ failure http e) × (throttled http ≡ true))
      × Throttles k (call w).1

  -- The world after a number of calls.
  abbrev pub world_after : ℕ → World → World
  world_after zero w = w
  world_after (suc k) w = world_after k (call w).1

  world_after-suc : (k : ℕ) (w : World) → (call (world_after k w)).1 ≡ world_after (suc k) w
  world_after-suc zero w = refl
  world_after-suc (suc k) w = world_after-suc k (call w).1

module _ {World A B : Type 0} (p : Platform World) (laws : BacksOff p)
    (call : World → ApiResult A × World) (accept : A → Result (Option B))
    (refuse : GoError → Result (Option B)) where
  backoff_step :
      (n : ℕ) (s : State World) (http : Option ℕ) (e : GoError)
      → (call s.world).0 ≡ failure http e
      → throttled http ≡ true
      → p.exponential_backoff (State World) B (suc n) (callback call accept refuse) s
        ≡ p.exponential_backoff
            (State World)
            B
            n
            (callback call accept refuse)
            (record s { world = (call s.world).1 })
  unfolding answer
  backoff_step n s http e failed t =
      rw (laws.checked (State World) B n (callback call accept refuse) s, failed, t)

  backoff_through :
      (k m : ℕ) (s : State World)
      → Throttles call k s.world
      → p.exponential_backoff (State World) B (k + m) (callback call accept refuse) s
        ≡ p.exponential_backoff
            (State World)
            B
            m
            (callback call accept refuse)
            (record s { world = world_after call k s.world })
  backoff_through zero m s t = rw (add.zero m)
  backoff_through (suc k) m s ((http, e, failed, is_throttled), t) = rw (add.suc k m) (
      backoff_step (k + m) s http e failed is_throttled
      ∙ backoff_through k m (record s { world = (call s.world).1 }) t)

  pub retrying_survives :
      (k : ℕ) (s : State World) (a : A) (b : B)
      → k < p.steps
      → Throttles call k s.world
      → (call (world_after call k s.world)).0 ≡ reply a
      → accept a ≡ ok (some b)
      → retrying p call accept refuse s
        ≡ (ok b, record s { world = world_after call (suc k) s.world })
  unfolding retrying answer
  retrying_survives k s a b enough throttles replied accepted =
      let steps : p.steps ≡ k + suc (p.steps - k - 1) = omega arith in
      rw steps (
        backoff_through k (suc (p.steps - k - 1)) s throttles
        ∙ rw
            (
              laws.checked (State World) B (p.steps - k - 1) (callback call accept refuse)
                  (record s { world = world_after call k s.world }),
              replied,
              accepted,
            )
            (λ i. (ok b, record s { world = world_after-suc call k s.world i })))

  -- With a backoff as documented, a call that is throttled fewer times than the backoff has steps,
  -- and then fails with an error that is not to be retried, ends with the error that is made of
  -- it, after exactly one call more than it was throttled.
  pub retrying_refuses :
      (k : ℕ) (s : State World) (http : Option ℕ) (e e' : GoError)
      → k < p.steps
      → Throttles call k s.world
      → (call (world_after call k s.world)).0 ≡ failure http e
      → throttled http ≡ false
      → refuse e ≡ err e'
      → retrying p call accept refuse s
        ≡ (err e', record s { world = world_after call (suc k) s.world })
  unfolding retrying answer
  retrying_refuses k s http e e' enough throttles failed final refused =
      let steps : p.steps ≡ k + suc (p.steps - k - 1) = omega arith in
      rw steps (
        backoff_through k (suc (p.steps - k - 1)) s throttles
        ∙ rw
            (
              laws.checked (State World) B (p.steps - k - 1) (callback call accept refuse)
                  (record s { world = world_after call k s.world }),
              failed,
              final,
              refused,
            )
            (λ i. (err e', record s { world = world_after-suc call k s.world i })))

  -- With a backoff as documented, a call that is throttled as often as the backoff has steps ends
  -- with the timeout error, after exactly so many calls.
  retrying_times_out :
      (s : State World)
      → Throttles call p.steps s.world
      → retrying p call accept refuse s
        ≡ (err wait_timeout, record s { world = world_after call p.steps s.world })
  unfolding retrying
  retrying_times_out s throttles =
      ap (λ (n : ℕ). p.exponential_backoff (State World) B n (callback call accept refuse) s)
        (omega arith)
      ∙ backoff_through p.steps zero s throttles
      ∙ laws.exhausted (State World) B (callback call accept refuse)
          (record s { world = world_after call p.steps s.world })
