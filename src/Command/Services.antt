-- ===== src/Command/Services.antt =====
-- The services that a command line starts.
use mathlib.Core.List.{append_assoc}
use mathlib.Core.Path.{subst}
use osc_bsu_csi_driver.Prelude.{
  String, ◌≡◌, refl, ap, sym, ◌∙◌, true, none, List, [], ◌∷◌, ◌++◌, arith, eq_iff, ◌⊎◌, inl, inr,
  ◌==◌, Bool-cases,
}
use osc_bsu_csi_driver.Go.Strings.{has_prefix}
use osc_bsu_csi_driver.Go.Act.{Act, ok, pure, crash, modify, ◌>>◌}
use osc_bsu_csi_driver.Go.Act.Success.{Runs, >>=-Runs, attempt-Runs}
use osc_bsu_csi_driver.Util.Endpoint.{Paths, parse_endpoint}
use osc_bsu_csi_driver.Util.Version.{get_version_json}
use osc_bsu_csi_driver.Driver.Options.{
  DriverOptions, validate_driver_options, controller_mode, node_mode, all_mode,
}
use osc_bsu_csi_driver.Driver.Server.{
  Driver, Parts, Server, Service, identity_server, controller_server, node_server, new_driver, run,
  outside, or_panic, register, register_services, with_endpoint, with_extra_volume_tags, with_mode,
  apply_options,
}
use osc_bsu_csi_driver.Driver.Server.Services.{new_driver-offered}
use osc_bsu_csi_driver.Command.{
  Shell, default_values, CommandLine, Options, read_command, options_of, get_options, main,
}

-- The mode that the arguments ask for: one that is named by the first argument, or all, where there
-- is none or where it is an option.
abbrev pub Asks : List String → String → Type 0
Asks [] mode = ⊥
Asks (program ∷ []) mode = mode ≡ all_mode
Asks (program ∷ cmd ∷ rest) mode = (mode ≡ cmd) ⊎ ((mode ≡ all_mode) × (has_prefix cmd "-" ≡ true))

-- The services of a mode.
abbrev pub Offers : String → List Service → Type 0
Offers mode services =
    ((mode ≡ controller_mode) × (services ≡ controller_server ∷ []))
    ⊎ ((mode ≡ node_mode) × (services ≡ node_server ∷ []))
    ⊎ ((mode ≡ all_mode) × (services ≡ controller_server ∷ node_server ∷ []))

or_panic-Runs :
    {W A : Type 0} (m : Act W A) (w : W) (a : A) (w' : W) → Runs (or_panic m) w a w' → Runs m w a w'
or_panic-Runs m w a w' h =
    let (b, t, ran, same) = attempt-Runs m pure (λ _. crash) w a w' (λ e n. cc) h in ran ∙ same

module _ {W : Type 0} where
  read_command-Asks :
      (args : List String) (line : CommandLine) (w w' : W)
      → Runs (read_command args) w line w'
      → Asks args line.mode
  unfolding read_command
  read_command-Asks [] line w w' h = cc
  read_command-Asks (program ∷ []) line w w' h = ground arith
  read_command-Asks (program ∷ cmd ∷ rest) line w w' h =
      elim (Bool-cases (cmd == controller_mode)) [
        | inl c ↦ inl (ground (arith, eq_iff cmd controller_mode, c))
        | inr not_c ↦ elim (Bool-cases (cmd == node_mode)) [
          | inl n ↦ inl (ground (arith, eq_iff cmd node_mode, n))
          | inr not_n ↦ elim (Bool-cases (cmd == all_mode)) [
            | inl a ↦ inl (ground (arith, eq_iff cmd all_mode, a))
            | inr not_a ↦ elim (Bool-cases (has_prefix cmd "-")) [
              | inl option ↦ inr (ground (arith, option), option)
              | inr other ↦ ground (arith, other)
            ]
          ]
        ]
      ]

  register_services-Offers :
      (mode : String) (s s' : Server W)
      → Runs (register_services mode) s tt s'
      → (services : List Service) × Offers mode services
        × (s'.registered ≡ s.registered ++ services)
  unfolding register_services
  register_services-Offers mode s s' h = elim (Bool-cases (mode == controller_mode)) [
    | inl c ↦ (
      controller_server ∷ [],
      inl ((eq_iff mode controller_mode).0 c, refl),
      ap (λ r. r.1.registered) (sym (rw c at h)),
    )
    | inr not_c ↦ elim (Bool-cases (mode == node_mode)) [
      | inl n ↦ (
        node_server ∷ [],
        inr (inl ((eq_iff mode node_mode).0 n, refl)),
        ap (λ r. r.1.registered) (sym (rw (not_c, n) at h)),
      )
      | inr not_n ↦ elim (Bool-cases (mode == all_mode)) [
        | inl a ↦ (
          controller_server ∷ node_server ∷ [],
          inr (inr ((eq_iff mode all_mode).0 a, refl)),
          ap (λ r. r.1.registered) (sym (rw (not_c, not_n, a) at h))
              ∙ append_assoc s.registered (controller_server ∷ []) (node_server ∷ []),
        )
        | inr not_a ↦ absurd (ground arith)
      ]
    ]
  ]

  outside-Runs :
      {A : Type 0} (m : Act W A) (s : Server W) (a : A) (s' : Server W)
      → Runs (outside m) s a s'
      → Runs m s.outside a s'.outside
  outside-Runs m s a s' h = λ i. ((h i).0, (h i).1.outside)

-- What `main` changes of the default options.
abbrev changes : Options → List (DriverOptions → DriverOptions)
changes options =
    with_endpoint options.server_options.endpoint
    ∷ with_extra_volume_tags options.controller_options.extra_volume_tags
    ∷ with_mode options.driver_mode
    ∷ []

options_of-mode :
    {W : Type 0} (shell : Shell W) (line : CommandLine) (options : Options) (w w' : W)
    → Runs (options_of shell line) w options w'
    → options.driver_mode ≡ line.mode
unfolding options_of
options_of-mode shell line options w w' h =
    let (values, w₁, _, rest) =
      >>=-Runs (or_panic (shell.parse line.flags line.rest default_values)) _ w options w' h in
    elim (Bool-cases values.version) [
      | inl version ↦
          let (info, w₂, _, rest') =
            >>=-Runs (or_panic (get_version_json shell.marshal_indent shell.build)) _ w₁ options w'
              (rw version at rest) in
          let (_, w₃, _, exits) = >>=-Runs (shell.println info) (λ _. crash) w₂ options w' rest' in
          cc exits
      | inr runs ↦ ground (arith, rest, runs)
    ]

module _ {W : Type 0} (paths : Paths W) (listen : String → String → Act W (Unit {0}))
    (serve : Act (Server W) (Unit {0})) where
  run-Offers :
      {C M : Type 0} (d : Driver C M) (s s' : Server W)
      → Runs (run paths listen serve d) s tt s'
      → (services : List Service) × (t : Server W) × Offers d.options.mode services
        × (t.registered ≡ identity_server ∷ services)
        × Runs serve t tt s'
  unfolding run
  run-Offers d s s' h =
      let (address, s₁, _, h₁) =
        >>=-Runs (outside (parse_endpoint paths d.options.endpoint)) _ s tt s' h in
      let (_, s₂, _, h₂) =
        >>=-Runs (outside (listen address.0 address.1)) (λ _. fresh d) s₁ tt s' h₁ in
      let (_, t, registers, serves) =
        >>=-Runs (register_services d.options.mode) (λ _. serve)
          (record s₂ { registered = identity_server ∷ [] }) tt s' h₂ in
      let (services, offers, all) =
        register_services-Offers d.options.mode (record s₂ { registered = identity_server ∷ [] }) t
          registers in
      (services, t, offers, all, serves)
    where
      fresh : {C M : Type 0} → Driver C M → Act (Server W) (Unit {0})
      fresh d =
          modify (λ s. record s { registered = [] })
          >> (register identity_server >> (register_services d.options.mode >> serve))

  -- Where `main` ends with the end of the server, and not by an exit or a panic, what it served was
  -- the identity service and the services of the mode that the arguments ask for, the controller
  -- before the node service; the driver was made with that mode and options that are valid.
  pub main-Serves :
      {C M : Type 0} (shell : Shell W) (parts : Parts W C M) (s s' : Server W)
      → main shell parts paths listen serve s ≡ (ok tt, s')
      → (options : DriverOptions) × (services : List Service) × (t : Server W) × Asks shell.args
          options.mode
        × (validate_driver_options options ≡ none)
        × Offers options.mode services
        × (t.registered ≡ identity_server ∷ services)
        × (serve t ≡ (ok tt, s'))
  unfolding main get_options apply_options
  main-Serves shell parts s s' h =
      let (options, s₁, got, h₁) = >>=-Runs (outside (get_options shell)) _ s tt s' h in
      let (line, w₁, read, rest) =
        >>=-Runs (read_command shell.args) (λ line. options_of shell line) s.outside options
          s₁.outside (outside-Runs (get_options shell) s options s₁ got) in
      let asks = read_command-Asks shell.args line s.outside w₁ read in
      let line_mode = options_of-mode shell line options w₁ s₁.outside rest in
      let (d, s₂, made, h₂) =
        >>=-Runs (outside (or_panic (new_driver parts (changes options)))) _ s₁ tt s' h₁ in
      let (given, valid, _) =
        new_driver-offered parts (changes options) d s₁.outside s₂.outside s₂ (
          or_panic-Runs (new_driver parts (changes options)) s₁.outside d s₂.outside
            (outside-Runs (or_panic (new_driver parts (changes options))) s₁ d s₂ made)) in
      let (services, t, offers, all, serves) =
        run-Offers d s₂ s' (or_panic-Runs (run paths listen serve d) s₂ tt s' h₂) in
      let mode : d.options.mode ≡ line.mode =
        ap (λ (o : DriverOptions). o.mode) given ∙ line_mode in
      (d.options, services, t, subst (Asks shell.args) (sym mode) asks, valid, offers, all, serves)
