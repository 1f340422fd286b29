-- ===== src/Driver/Controller/Volumes/Answer.antt =====
-- What a volume is that `CreateVolume` answers with.
use osc_bsu_csi_driver.Prelude.{
  String, ◌≡◌, ◌≢◌, refl, ap, ◌∙◌, ◌⊎◌, Bool, true, false, not, List, [], ◌∷◌, arith, eq_iff, ◌==◌,
  if◌then◌else◌, Bool-cases, inl, inr,
}
use osc_bsu_csi_driver.Go.Dict.{Dict}
use osc_bsu_csi_driver.Go.Int.{ℤ}
use osc_bsu_csi_driver.Go.Error.{status, invalid_argument, is_not_found}
use osc_bsu_csi_driver.Go.Act.{Result, ok, err, panic, raise, lift, Act, attempt, >>=-ok}
use osc_bsu_csi_driver.Go.Act.Success.{Runs, attempt-cases, attempt-Runs, if-raise-Runs}
use osc_bsu_csi_driver.Cloud.Types.{Disk, is_nil_disk, nil_disk}
use osc_bsu_csi_driver.Cloud.Interface.{Cloud}
use osc_bsu_csi_driver.Driver.Requests.{CreateVolumeRequest, CreateVolumeResponse, VolumeCapability}
use osc_bsu_csi_driver.Driver.Controller.Parameters.{
  Parameters, no_parameters, parse_parameters, context_extra,
}
use osc_bsu_csi_driver.Driver.Controller.Requirements.{
  is_valid_volume_capabilities, get_vol_size_bytes,
}
use osc_bsu_csi_driver.Driver.Controller.Volumes.{
  source_snapshot, new_create_volume_response, disk_options, create_or_reuse, create_volume,
  lookup_failed,
}
use osc_bsu_csi_driver.Driver.Controller.Volumes.Create.{WellFormed}

-- The look for a disk has found none: ErrNotFound, or a disk without an id.
abbrev pub absent : Result Disk → Bool
absent (ok disk) = is_nil_disk disk
absent (err e) = is_not_found e
absent panic = false

module _ {S : Type 0} (to_lower : String → String) (cloud : Cloud S) (extra_tags : Dict String)
    (req : CreateVolumeRequest) where
  -- Where the disk of an answer comes from.
  pub data Origin (size : ℤ) (q : Parameters) (snapshot_id : String) (disk : Disk) (s s' : S)
      : Type 0 where
    -- It was found, made from the snapshot of the request, and nothing was done after the look.
    reused :
        Runs (cloud.get_disk_by_name req.name size) s disk s'
        → disk.volume_id ≢ ""
        → disk.snapshot_id ≡ snapshot_id
        → Origin size q snapshot_id disk s s'
    -- None was found, and it was created with the options of the request.
    fresh :
        absent (cloud.get_disk_by_name req.name size s).0 ≡ true
        → Runs
            (cloud.create_disk req.name (disk_options extra_tags req size q snapshot_id))
            (cloud.get_disk_by_name req.name size s).1
            disk
            s'
        → Origin size q snapshot_id disk s s'

  -- What is behind an answer.
  pub record Provisioned (r : CreateVolumeResponse) (s s' : S) : Type 0 where
    pub size : ℤ
    pub q : Parameters
    pub snapshot_id : String
    pub well_formed : WellFormed to_lower req size q snapshot_id
    pub disk : Disk
    pub answer : r ≡ new_create_volume_response disk (context_extra q)
    pub origin : Origin size q snapshot_id disk s s'

  -- What the rest of `CreateVolume` does with a disk that was found, or with the nil disk.
  abbrev Taken : Disk → ℤ → Parameters → String → CreateVolumeResponse → S → S → Type 0
  Taken found size q snapshot_id r s s' =
      (disk : Disk) × (r ≡ new_create_volume_response disk (context_extra q))
      × (((is_nil_disk found ≡ false)
            × (found ≡ disk)
            × (disk.snapshot_id ≡ snapshot_id)
            × (s ≡ s'))
          ⊎ ((is_nil_disk found ≡ true)
              × Runs (cloud.create_disk req.name (disk_options extra_tags req size q snapshot_id)) s
                  disk s'))

  create_or_reuse-Taken :
      (found : Disk) (size : ℤ) (s : S) (r : CreateVolumeResponse) (s' : S)
      → Runs (create_or_reuse to_lower cloud extra_tags req size found) s r s'
      → (q : Parameters) × (snapshot_id : String) × (parse_parameters to_lower req.parameters
            no_parameters
          ≡ ok q)
        × (source_snapshot req.volume_content_source ≡ ok snapshot_id)
        × Taken found size q snapshot_id r s s'
  unfolding create_or_reuse
  create_or_reuse-Taken found size s r s' h =
      let (q, parsed, h₁) =
        >>=-ok (lift (parse_parameters to_lower req.parameters no_parameters)) _ s r s' h in
      let (snapshot_id, sourced, h₂) =
        >>=-ok (lift (source_snapshot req.volume_content_source)) _ s r s' h₁ in
      let taken : Taken found size q snapshot_id r s s' = elim (Bool-cases (is_nil_disk found)) [
        | inr there ↦ elim (Bool-cases (found.snapshot_id == snapshot_id)) [
          | inl same ↦
              let last = rw (there, same) at h₂ in
              (
                found,
                ground (arith, last),
                inl (there, refl, (eq_iff _ _).0 same, ap (λ t. t.1) last),
              )
          | inr other ↦ cc (rw (there, other) at h₂)
        ]
        | inl none_found ↦
            let (disk, s₁, made, last) =
              attempt-Runs
                (cloud.create_disk req.name (disk_options extra_tags req size q snapshot_id)) _ _ s
                r s' (λ e n. cc) (rw none_found at h₂) in
            (
              disk,
              ground (arith, last),
              inr (none_found, made ∙ ap (λ x. (ok disk, x)) (ap (λ t. t.1) last)),
            )
      ] in
      (q, snapshot_id, parsed, sourced, taken)

  abbrev look : ℤ → Act S CreateVolumeResponse
  look size =
      attempt (cloud.get_disk_by_name req.name size)
        (λ found. create_or_reuse to_lower cloud extra_tags req size found)
        (λ e.
          if is_not_found e
          then create_or_reuse to_lower cloud extra_tags req size nil_disk
          else raise (lookup_failed e))

  abbrev Looked : ℤ → CreateVolumeResponse → S → S → Type 0
  Looked size r s s' =
      (q : Parameters) × (snapshot_id : String) × (parse_parameters to_lower req.parameters
          no_parameters
        ≡ ok q)
      × (source_snapshot req.volume_content_source ≡ ok snapshot_id)
      × (disk : Disk) × (r ≡ new_create_volume_response disk (context_extra q))
      × Origin size q snapshot_id disk s s'

  look-Looked :
      (size : ℤ) (s : S) (r : CreateVolumeResponse) (s' : S)
      → Runs (look size) s r s'
      → Looked size r s s'
  look-Looked size s r s' h =
      elim (attempt-cases (cloud.get_disk_by_name req.name size)
        (λ found. create_or_reuse to_lower cloud extra_tags req size found) _ s r s' h) [
          | inl (found, ran, rest) ↦
              let (q, snapshot_id, parsed, sourced, taken) =
                create_or_reuse-Taken found size (cloud.get_disk_by_name req.name size s).1 r s'
                  rest in
              (
                q,
                snapshot_id,
                parsed,
                sourced,
                taken.0,
                taken.1,
                elim taken.2 [
                  | inl (there, same, of_snapshot, state) ↦
                      reused (λ i. ((ran ∙ ap ok same) i, state i))
                        (λ e. cc (there, (eq_iff taken.0.volume_id "").1 e)) of_snapshot
                  | inr (nil, made) ↦ fresh (ap absent ran ∙ nil) made
                ],
              )
          | inr (e, failed, rest) ↦ elim (Bool-cases (is_not_found e)) [
            | inr other ↦ cc (rw other at rest)
            | inl missing ↦
                let (q, snapshot_id, parsed, sourced, taken) =
                  create_or_reuse-Taken nil_disk size (cloud.get_disk_by_name req.name size s).1 r
                    s' (rw missing at rest) in
                (
                  q,
                  snapshot_id,
                  parsed,
                  sourced,
                  taken.0,
                  taken.1,
                  elim taken.2 [
                    | inl (there, _, _, _) ↦ cc
                    | inr (nil, made) ↦ fresh (ap absent failed ∙ missing) made
                  ],
                )
          ]
        ]

  -- The checks of the capabilities, and the rest.
  abbrev capable : List VolumeCapability → ℤ → Act S CreateVolumeResponse
  capable caps size = elim caps [
    | [] ↦ raise (status invalid_argument "Volume capabilities not provided")
    | c ∷ rest ↦
        if not (is_valid_volume_capabilities (c ∷ rest))
        then raise (status invalid_argument "Volume capabilities not supported")
        else look size
  ]

  capable-Looked :
      (caps : List VolumeCapability) (size : ℤ) (s : S) (r : CreateVolumeResponse) (s' : S)
      → Runs (capable caps size) s r s'
      → ((cap : VolumeCapability) × (rest : List VolumeCapability) × (caps ≡ cap ∷ rest)
          × (is_valid_volume_capabilities (cap ∷ rest) ≡ true))
        × Looked size r s s'
  capable-Looked [] size s r s' h = cc
  capable-Looked (c ∷ rest) size s r s' h =
      let (fine, ran) =
        if-raise-Runs (not (is_valid_volume_capabilities (c ∷ rest))) _ (look size) s r s' h in
      ((c, rest, refl, ground (arith, fine)), look-Looked size s r s' ran)

  pub create_volume-Provisioned :
      (r : CreateVolumeResponse) (s s' : S)
      → Runs (create_volume to_lower cloud extra_tags req) s r s'
      → Provisioned r s s'
  unfolding create_volume
  create_volume-Provisioned r s s' h =
      let (named, h₁) = if-raise-Runs (req.name == "") _ _ s r s' h in
      let (size, sized, h₂) = >>=-ok (lift (get_vol_size_bytes req.capacity_range)) _ s r s' h₁ in
      let ((cap, caps, given, fine), looked) =
        capable-Looked req.volume_capabilities size s r s' h₂ in
      let (q, snapshot_id, parsed, sourced, disk, answer, origin) = looked in
      record {
        size = size;
        q = q;
        snapshot_id = snapshot_id;
        well_formed = record {
          named = λ e. cc (named, (eq_iff req.name "").1 e);
          sized = sized;
          cap = cap;
          caps = caps;
          capable = given;
          supported = fine;
          parsed = parsed;
          sourced = sourced;
        };
        disk = disk;
        answer = answer;
        origin = origin;
      }
