-- ===== src/Driver/Server/Services.antt =====
-- The services that the driver registers are those that it has made.
use mathlib.Core.List.{append_assoc}
use osc_bsu_csi_driver.Prelude.{
  ◌≡◌, none, some, List, [], ◌∷◌, ◌++◌, arith, ◌==◌, Bool-cases, Option-cases, inl, inr,
}
use osc_bsu_csi_driver.Go.Act.{ok, >>=-ok}
use osc_bsu_csi_driver.Driver.Options.{
  DriverOptions, validate_driver_options, controller_mode, node_mode, all_mode,
}
use osc_bsu_csi_driver.Driver.Server.{
  Driver, Parts, Service, controller_server, node_server, Server, register_services,
  new_controller_service, new_node_service, make_services, new_driver, apply_options,
  default_options,
}

-- The servers of the services that a driver has.
abbrev pub offered : {C M : Type 0} → Driver C M → List Service
offered d =
    elim d.controller [ none ↦ [] | some _ ↦ controller_server ∷ [] ]
    ++ elim d.node [ none ↦ [] | some _ ↦ node_server ∷ [] ]

module _ {W C M : Type 0} (parts : Parts W C M) where
  make_services-offered :
      (o : DriverOptions) (d : Driver C M) (w w' : W) (s : Server W)
      → make_services parts o w ≡ (ok d, w')
      → (d.options ≡ o)
        × (register_services d.options.mode s
            ≡ (ok tt, record s { registered = s.registered ++ offered d }))
  unfolding make_services register_services
  make_services-offered o d w w' s h = elim (Bool-cases (o.mode == controller_mode)) [
    | inl c ↦
        let (_, _, made) = >>=-ok (new_controller_service parts o) _ w d w' (rw c at h) in
        ground (arith, made, c)
    | inr not_c ↦ elim (Bool-cases (o.mode == node_mode)) [
      | inl n ↦
          let (_, _, made) = >>=-ok (new_node_service parts) _ w d w' (rw (not_c, n) at h) in
          ground (arith, made)
      | inr not_n ↦ elim (Bool-cases (o.mode == all_mode)) [
        | inl a ↦
            let (_, _, rest) =
              >>=-ok (new_controller_service parts o) _ w d w' (rw (not_c, not_n, a) at h) in
            let (_, _, made) = >>=-ok (new_node_service parts) _ _ d w' rest in
            let same : d.options ≡ o = ground (arith, made) in
            let both : offered d ≡ controller_server ∷ node_server ∷ [] = ground (arith, made) in
            (
              same,
              rw (
                same,
                not_c,
                not_n,
                a,
                both,
                append_assoc s.registered (controller_server ∷ []) (node_server ∷ []),
              ),
            )
        | inr not_a ↦ ground arith
      ]
    ]
  ]

  -- Where `NewDriver` succeeds, its options are the given ones over the defaults and are valid, and the
  -- switch of `Run` on their mode succeeds on any server: it registers exactly the services that
  -- `NewDriver` has made, the controller before the node service.
  pub new_driver-offered :
      (options : List (DriverOptions → DriverOptions)) (d : Driver C M) (w w' : W) (s : Server W)
      → new_driver parts options w ≡ (ok d, w')
      → (d.options ≡ apply_options options default_options)
        × (validate_driver_options d.options ≡ none)
        × (register_services d.options.mode s
            ≡ (ok tt, record s { registered = s.registered ++ offered d }))
  unfolding new_driver
  new_driver-offered options d w w' s h =
      elim (Option-cases (validate_driver_options (apply_options options default_options))) [
        | inr (e, invalid) ↦ ground arith
        | inl valid ↦
            let (same, registers) =
              make_services-offered (apply_options options default_options) d w w' s
                (rw (valid, new_driver) at h) in
            (same, rw same valid, registers)
      ]
