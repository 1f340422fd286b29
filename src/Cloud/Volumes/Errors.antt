-- ===== src/Cloud/Volumes/Errors.antt =====
-- The errors of `CreateDisk`.
use osc_bsu_csi_driver.Prelude.{
  String, ◌≡◌, refl, Bool, false, Option, none, some, arith, Bool-cases, inl, inr,
}
use osc_bsu_csi_driver.Go.Error.{GoError, errorf, is_not_found}
use osc_bsu_csi_driver.Go.Act.{
  Result, Result-cases, ok, err, panic, Act, raise, continue, handle, ◌>>=◌,
}
use osc_bsu_csi_driver.Cloud.Types.{DiskOptions}
use osc_bsu_csi_driver.Cloud.Platform.{Platform, BacksOff, ApiResult, reply, failure, Volume}
use osc_bsu_csi_driver.Cloud.Retry.{
  State, retrying, take_reply, fail_with, callback, answer, throttled,
}
use osc_bsu_csi_driver.Cloud.Retry.Outcome.{Checked, exponential_backoff-Post}
use osc_bsu_csi_driver.Cloud.Volumes.{
  create_request, created, create_disk, type_and_iops, wait_for_volume,
}

-- Whether a result is the error ErrNotFound.
abbrev pub missing : {A : Type 0} → Result A → Bool
missing (ok a) = false
missing (err e) = is_not_found e
missing panic = false

module _ {S A B : Type 0} where
  continue-missing :
      (r : Result A) (f : A → Act S B) (s : S)
      → missing r ≡ false
      → ((a : A) (t : S) → missing (f a t).0 ≡ false)
      → missing (continue r f s).0 ≡ false
  continue-missing (ok a) f s h k = k a s
  continue-missing (err e) f s h k = h
  continue-missing panic f s h k = refl

  bind-missing :
      (m : Act S A) (f : A → Act S B) (s : S)
      → missing (m s).0 ≡ false
      → ((a : A) (t : S) → missing (f a t).0 ≡ false)
      → missing ((m >>= f) s).0 ≡ false
  bind-missing m f s h k = continue-missing (m s).0 f (m s).1 h k

  handle-missing :
      (r : Result A) (f : A → Act S B) (e : GoError) (s : S)
      → is_not_found e ≡ false
      → ((a : A) (t : S) → missing (f a t).0 ≡ false)
      → missing (handle r f (λ _. raise e) s).0 ≡ false
  handle-missing (ok a) f e s h k = k a s
  handle-missing (err e') f e s h k = h
  handle-missing panic f e s h k = refl

type_and_iops-missing : (o : DiskOptions) → missing (type_and_iops o) ≡ false
unfolding type_and_iops
type_and_iops-missing o = ground arith

create_request-missing :
    (region : String) (o : DiskOptions) → missing (create_request region o) ≡ false
unfolding create_request
create_request-missing region o = elim (Result-cases (type_and_iops o)) [
  | inl (t, chosen) ↦ ground (arith, chosen)
  | inr (inl (e, bad)) ↦ ground (arith, bad, type_and_iops-missing o)
  | inr (inr panicked) ↦ ground (arith, panicked)
]

created-missing : (v : Option Volume) → missing (created v) ≡ false
unfolding created
created-missing none = refl
created-missing (some v) = ground arith

module _ {World : Type 0} (p : Platform World) (laws : BacksOff p) where
  fail_with-Checked :
      {A : Type 0} (r : ApiResult A) (f : String) (s : State World)
      → Checked {S = State World} {A = A}
          (λ _. Unit {0})
          (λ r _. missing r ≡ false)
          (answer take_reply (fail_with (errorf f)) r)
          s
  unfolding answer
  fail_with-Checked (reply a) f s = refl
  fail_with-Checked (failure http e) f s = elim (Bool-cases (throttled http)) [
    | inl again ↦ rw again tt
    | inr final ↦ rw final refl
  ]

  retrying-missing :
      {A : Type 0} (call : World → ApiResult A × World) (f : String) (s : State World)
      → missing (retrying p call take_reply (fail_with (errorf f)) s).0 ≡ false
  unfolding retrying
  retrying-missing call f s =
      exponential_backoff-Post (λ _. Unit {0}) (λ r _. missing r ≡ false) p laws
        (callback call take_reply (fail_with (errorf f))) (λ s i. refl)
        (λ s i. fail_with-Checked (call s.world).0 f (record s { world = (call s.world).1 }))
        p.steps s tt

  -- With a backoff as documented, `CreateDisk` never fails with ErrNotFound.
  pub create_disk_never_missing :
      (region name : String) (o : DiskOptions) (s : State World)
      → missing (create_disk p region name o s).0 ≡ false
  unfolding create_disk
  create_disk_never_missing region name o s =
      bind-missing (λ t. (create_request region o, t)) _ s (create_request-missing region o)
        (λ request t₁.
          bind-missing (retrying p (p.create_volume request) take_reply _) _ t₁
            (retrying-missing (p.create_volume request) _ t₁)
            (λ creation t₂.
              bind-missing (λ t. (created creation, t)) _ t₂ (created-missing creation)
                (λ made t₃.
                  bind-missing (retrying p _ take_reply _) _ t₃ (retrying-missing _ _ t₃) (λ _ t₄.
                    handle-missing (wait_for_volume p made.0 t₄).0 _ _
                      (wait_for_volume p made.0 t₄).1 refl (λ _ _. refl)))))
