-- ===== src/Cloud/Volumes/Creation.antt =====
-- What a disk is that `CreateDisk` gives.
use mathlib.Core.Path.{subst}
use osc_bsu_csi_driver.Prelude.{
  String, ◌≡◌, ◌≢◌, refl, ap, ◌∙◌, false, Option, none, some, [], ◌∷◌, arith, eq_iff, ◌==◌,
  Bool-cases, inl, inr,
}
use osc_bsu_csi_driver.Go.Dict.{or_zero}
use osc_bsu_csi_driver.Go.Int.{ℤ, pos, eqb_ℤ}
use osc_bsu_csi_driver.Go.Error.{errorf}
use osc_bsu_csi_driver.Go.Act.{Result, ok, Act, >>=-ok}
use osc_bsu_csi_driver.Go.Act.Success.{Runs, >>=-Runs, attempt-Runs}
use osc_bsu_csi_driver.Cloud.Types.{Disk, DiskOptions}
use osc_bsu_csi_driver.Cloud.Platform.{Platform, Volume, CreateVolumeRequest, by_ids}
use osc_bsu_csi_driver.Cloud.Retry.{State, retrying, take_reply, fail_with}
use osc_bsu_csi_driver.Cloud.Read.{get_volume}
use osc_bsu_csi_driver.Cloud.Volumes.{
  create_request, created, create_disk, wait_for_volume, volume_available,
}

-- As documented, a poll that succeeds ends with a check that answers true.
pub record PollsUntil {World : Type 0} (p : Platform World) : Type 1 where
  pub ended :
      (S A : Type 0) (check : Act S (Option A)) (s : S) (a : A) (s' : S)
      → p.poll S A check s ≡ (ok a, s')
      → (t : S) × (check t ≡ (ok (some a), s'))

created_lem :
    (creation : Option Volume) (id : String) (size : ℤ)
    → created creation ≡ ok (id, size)
    → (id ≢ "") × (size ≢ pos 0)
unfolding created
created_lem none id size h = cc
created_lem (some v) id size h = elim (Bool-cases (or_zero "" v.volume_id == "")) [
  | inl empty ↦ ground (arith, empty, h)
  | inr full ↦ elim (Bool-cases (eqb_ℤ (or_zero (pos 0) v.size) (pos 0))) [
    | inl zero_size ↦ ground (arith, full, zero_size, h)
    | inr some_size ↦
        let same_id : or_zero "" v.volume_id ≡ id = ground (arith, full, some_size, h) in
        let same_size : or_zero (pos 0) v.size ≡ size = ground (arith, full, some_size, h) in
        (
          (λ e. cc (full, (eq_iff (or_zero "" v.volume_id) "").1 (same_id ∙ e))),
          (λ e.
              let none_zero : eqb_ℤ (pos 0) (pos 0) ≡ false = rw (same_size ∙ e) at some_size in
              cc),
        )
  ]
]

module _ {World : Type 0} (p : Platform World) where
  abbrev pub creating : CreateVolumeRequest → Act (State World) (Option Volume)
  creating request =
      retrying p (p.create_volume request) take_reply
        (fail_with (errorf "could not create volume in Outscale: %v"))

  abbrev pub tagging : String → DiskOptions → Act (State World) (Unit {0})
  tagging volume_id o =
      retrying p (p.create_tags (record { resource_ids = volume_id ∷ []; tags = o.tags }))
        take_reply (fail_with (errorf "error creating tags %v of volume %v: %v, http Status: %v"))

-- How a disk came about, from the state `s` to `s'`.
pub record Created {World : Type 0} (p : Platform World) (region : String) (o : DiskOptions)
    (disk : Disk) (s s' : State World) : Type 0 where
  pub request : CreateVolumeRequest
  pub asked : create_request region o ≡ ok request
  pub creation : Option Volume
  pub s₁ : State World
  pub made : Runs (creating p request) s creation s₁
  pub made_of : created creation ≡ ok (disk.volume_id, disk.capacity_gib)
  pub id : disk.volume_id ≢ ""
  pub size : disk.capacity_gib ≢ pos 0
  pub s₂ : State World
  pub tagged : Runs (tagging p disk.volume_id o) s₁ tt s₂
  pub before : State World
  pub volume : Volume
  pub read : Runs (get_volume p (by_ids (disk.volume_id ∷ []))) before volume s'
  pub available : or_zero "" volume.state ≡ "available"
  pub zone : disk.availability_zone ≡ request.subregion_name
  pub snapshot : disk.snapshot_id ≡ o.snapshot_id

abbrev new_disk : String → ℤ → CreateVolumeRequest → DiskOptions → Disk
new_disk volume_id size request o = record {
  volume_id = volume_id;
  capacity_gib = size;
  availability_zone = request.subregion_name;
  snapshot_id = o.snapshot_id;
}

ok_inj : {A : Type 0} {a b : A} → ◌≡◌ {A = Result A} (ok a) (ok b) → a ≡ b
ok_inj e = cc

module _ {World : Type 0} (p : Platform World) (laws : PollsUntil p) where
  wait_for_volume-available :
      (volume_id : String) (s s' : State World)
      → Runs (wait_for_volume p volume_id) s tt s'
      → (t : State World) × (v : Volume) × Runs (get_volume p (by_ids (volume_id ∷ []))) t v s'
        × (or_zero "" v.state ≡ "available")
  unfolding wait_for_volume volume_available
  wait_for_volume-available volume_id s s' h =
      let (t, last) = laws.ended _ _ (volume_available p volume_id) s tt s' h in
      let (v, u, read, answer) =
        >>=-Runs (get_volume p (by_ids (volume_id ∷ []))) _ t (some tt) s' last in
      elim (Bool-cases (or_zero "" v.state == "available")) [
        | inl available ↦ (
          t,
          v,
          read ∙ ap (λ x. (ok v, x)) (ap (λ r. r.1) (rw available at answer)),
          (eq_iff _ "available").0 available,
        )
        | inr other ↦ cc (rw other at answer)
      ]

  -- With a poll as documented: where `CreateDisk` gives a disk, the volume was created by the
  -- request of the options, with its id and its size, neither of them empty, from the reply; then it
  -- was tagged with all the tags of the options; the last read of its id, and the last call of all,
  -- said that it is available; its zone is that of the request, its snapshot that of the options.
  pub create_disk-Created :
      (region name : String) (o : DiskOptions) (disk : Disk) (s s' : State World)
      → create_disk p region name o s ≡ (ok disk, s')
      → Created p region o disk s s'
  unfolding create_disk
  create_disk-Created region name o disk s s' h =
      let (request, asked, h₁) = >>=-ok (λ t. (create_request region o, t)) _ s disk s' h in
      let (creation, s₁, made, h₂) = >>=-Runs (creating p request) _ s disk s' h₁ in
      let (made_of, is_made, h₃) = >>=-ok (λ t. (created creation, t)) _ s₁ disk s' h₂ in
      let (_, s₂, tagged, h₄) = >>=-Runs (tagging p made_of.0 o) _ s₁ disk s' h₃ in
      let (_, s₃, waited, ends) =
        attempt-Runs (wait_for_volume p made_of.0) _ _ s₂ disk s' (λ e n. cc) h₄ in
      let (t, v, read, available) = wait_for_volume-available made_of.0 s₂ s₃ waited in
      let same : s₃ ≡ s' = ap (λ r. r.1) ends in
      let is_disk : new_disk made_of.0 made_of.1 request o ≡ disk = ok_inj (ap (λ r. r.0) ends) in
      let (id, size) = created_lem creation made_of.0 made_of.1 is_made in
      subst (λ d. Created p region o d s s') is_disk
        (subst (λ u. Created p region o (new_disk made_of.0 made_of.1 request o) s u) same
          (record {
            request = request;
            asked = asked;
            creation = creation;
            s₁ = s₁;
            made = made;
            made_of = is_made;
            id = id;
            size = size;
            s₂ = s₂;
            tagged = tagged;
            before = t;
            volume = v;
            read = read;
            available = available;
            zone = refl;
            snapshot = refl;
          }))
