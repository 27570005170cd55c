-- ===== src/HttpServer/Chi/Server/Made.antt =====
-- What New makes of its options.
use devkit_go.Prelude.{
  ◌≡◌, ◌⊎◌, inl, inr, refl, arith, Bool, false, Option, none, some, List, ok, err, Option-cases,
  Bool-cases,
}
use devkit_go.Prelude.Text.{Text}
use devkit_go.HttpServer.Origins.{parse_origins}
use devkit_go.HttpServer.Config.{Config, ConfigError, validate, IsUsable, validate_iff}
use devkit_go.HttpServer.Problem.{ProblemDetail}
use devkit_go.HttpServer.Chi.Chain.{serve}
use devkit_go.HttpServer.Chi.Server.{wrap_all, with_deadline}
use devkit_go.HttpServer.Chi.Server.Setting.{
  ServerOption, apply_options, blank_server, setup_of, setup_origins, register_middlewares, new,
}

-- The origins that a configuration allows.
abbrev pub AllowsOrigins : Config → Option (List Text) → Type 0
AllowsOrigins c origins =
    ((c.enable_cors ≡ false) × (origins ≡ none))
    ⊎ ((l : List Text) × (parse_origins c.cors_origins ≡ ok l) × (origins ≡ some l))

usable_origins :
    (c : Config)
    → IsUsable c
    → (origins : Option (List Text)) × (setup_origins c ≡ ok origins) × AllowsOrigins c origins
usable_origins c u = elim u.shared [
  | inl off ↦ (none, ground arith, inl (off, refl))
  | inr (blank, (l, parsed)) ↦ elim (Bool-cases c.enable_cors) [
    | inl on ↦ (some l, ground arith, inr (l, parsed, refl))
    | inr off ↦ (none, ground arith, inl (off, refl))
  ]
]

module _ {E : Type 0} (canonical : Text → Text) (encode : ProblemDetail → Text) (hook : Bool) where
  -- New gives the error of the configuration that the options make, or a server with that usable
  -- configuration, whose routes stand behind the deadline of the read timeout and the chain for its
  -- origins; it never panics.
  pub new-cases :
      (options : List (ServerOption E))
      → let s = apply_options options blank_server in
        ((problem : ConfigError) × (validate s.config ≡ some problem)
          × (new canonical encode hook options ≡ err problem))
        ⊎ (IsUsable s.config
            × ((origins : Option (List Text)) × AllowsOrigins s.config origins
                × (new canonical encode hook options
                    ≡ ok (
                      s,
                      λ fresh turns routes.
                          serve canonical encode fresh (setup_of hook s.config origins) (
                            with_deadline encode turns false
                              (wrap_all s.custom_middlewares routes)),
                    ))))
  unfolding new register_middlewares
  new-cases options =
      let s = apply_options options blank_server in
      elim (Option-cases (validate s.config)) [
        | inr (problem, bad) ↦ inl (problem, bad, rw (new, bad) refl)
        | inl good ↦
            let usable = (validate_iff s.config).0 good in
            let (origins, made, allowed) = usable_origins s.config usable in
            inr (
              usable,
              (origins, allowed, rw (new, good, register_middlewares, made, usable.timed.0) refl),
            )
      ]
