-- ===== src/Config/Tests.antt =====
-- Configurations at concrete inputs.
use iplsgo.Prelude.{◌≡◌, refl, Bool, true, Option, some, List, [], ◌∷◌, Str, bytes, str_eq}
use iplsgo.Users.{TUser, copy}
use iplsgo.Config.{
  ServerConfig, Route, Conf, default_config, settings_of, build_routes, register, apply,
  parse_config,
}
use iplsgo.Config.Frozen.{initial, parse_all, first_settings_stay}

abbrev same : Str → Str
same s = s

-- The configuration is the name of the service.
abbrev parse : ServerConfig → Str → Option ServerConfig
parse c s = some (record c { service_name = s })

abbrev no_list : Str → List TUser
no_list s = []

abbrev named : Str → ServerConfig
named s = record default_config { service_name = s }

-- A router that takes every route.
abbrev any : List Route → Route → Bool
any router r = true

-- The variables after the configuration "A".
abbrev after_a : Conf
after_a = apply same same any parse no_list (bytes "A") (named (bytes "A")) [] initial

-- The variables after "A" and then "B".
abbrev after_b : Conf
after_b = apply same same any parse no_list (bytes "B") (named (bytes "B")) [] after_a

parse_b : parse_all same same any parse no_list (bytes "A" ∷ bytes "B" ∷ []) initial ≡ some after_b
unfolding parse_config register build_routes str_eq apply copy
parse_b = refl

first_settings_stay_example : after_b.settings ≡ settings_of (named (bytes "A"))
first_settings_stay_example =
    first_settings_stay same same any parse no_list (bytes "A") (named (bytes "A")) (bytes "B" ∷ [])
      after_b (λ e. cc) refl parse_b
