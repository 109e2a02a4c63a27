-- ===== src/Config/Frozen.antt =====
-- What a later configuration changes, and what it does not.
use iplsgo.Prelude.{
  ap, sym, ◌∙◌, ◌≡◌, ◌≢◌, refl, Bool, true, false, Option, none, some, List, [], ◌∷◌, ◌==◌, arith,
  Str, str_Eq, str_eq_iff, if◌then◌else◌,
}
use mathlib.Core.Path.{subst}
use iplsgo.Users.{TUser, no_users}
use iplsgo.Config.{
  ServerConfig, Conf, Route, Parsed, default_config, reset_settings, settings_of, build_routes,
  register, apply, routed, decoded, parse_config,
}

-- The package's variables as they start. The settings are not read before the first configuration.
abbrev pub initial : Conf
initial = record {
  server_readed = false;
  settings = reset_settings;
  users = no_users;
  router = [];
  prev_conf = [];
}

module _ (up low : Str → Str) (accepts : List Route → Route → Bool)
    (unmarshal : ServerConfig → Str → Option ServerConfig)
    (unmarshal_users : Str → List TUser) where
  abbrev parse : Str → Conf → Option (Conf × Parsed)
  parse b s = parse_config up low accepts unmarshal unmarshal_users b s

  abbrev pub and_then : Option (Conf × Parsed) → (Conf → Option Conf) → Option Conf
  and_then none f = none
  and_then (some r) f = f r.0

  -- The variables after some texts were parsed in turn; none if the program ended in a panic.
  abbrev pub parse_all : List Str → Conf → Option Conf
  parse_all [] s = some s
  parse_all (b ∷ bs) s = and_then (parse b s) (parse_all bs)

  -- What holds of the variables, if the program goes on.
  abbrev All : (Conf → Type 0) → Option Conf → Type 0
  All p none = Unit {0}
  All p (some s) = p s

  routed-All :
      (p : Conf → Type 0) (b : Str) (c : ServerConfig) (s : Conf) (o : Option (List Route))
      (f : Conf → Option Conf)
      → ((r : List Route) → All p (f (apply up low accepts unmarshal unmarshal_users b c r s)))
      → All p (and_then (routed up low accepts unmarshal unmarshal_users b c s o) f)
  routed-All p b c s none f h = tt
  routed-All p b c s (some r) f h = h r

  decoded-All :
      (p : Conf → Type 0) (b : Str) (s : Conf) (o : Option ServerConfig) (f : Conf → Option Conf)
      → All p (f s)
      → ((c : ServerConfig) (r : List Route)
          → All p (f (apply up low accepts unmarshal unmarshal_users b c r s)))
      → All p (and_then (decoded up low accepts unmarshal unmarshal_users b s o) f)
  decoded-All p b s none f k h = k
  decoded-All p b s (some c) f k h =
      routed-All p b c s (register accepts (build_routes low c.handlers) []) f (h c)

  -- What holds of the variables, and of what any configuration makes of them, holds from then on.
  parse_all-All :
      (p : Conf → Type 0) (bs : List Str) (s : Conf)
      → ((b : Str) (c : ServerConfig) (r : List Route) (u : Conf)
          → p u
          → p (apply up low accepts unmarshal unmarshal_users b c r u))
      → p s
      → All p (parse_all bs s)
  unfolding parse_config
  parse_all-All p [] s h k = k
  parse_all-All p (b ∷ bs) s h k =
      elim (s.prev_conf == b)
        as (λ q. All p (
          and_then
            (if q
              then some (s, Parsed.done)
              else decoded up low accepts unmarshal unmarshal_users b s
                  (unmarshal default_config b))
            (parse_all bs))) [
              | true ↦ parse_all-All p bs s h k
              | false ↦
                  decoded-All p b s (unmarshal default_config b) (parse_all bs)
                    (parse_all-All p bs s h k) (λ c r. parse_all-All p bs _ h (h b c r s k))
            ]

  reached :
      (p : Conf → Type 0) (bs : List Str) (s u : Conf)
      → ((b : Str) (c : ServerConfig) (r : List Route) (v : Conf)
          → p v
          → p (apply up low accepts unmarshal unmarshal_users b c r v))
      → p s
      → parse_all bs s ≡ some u
      → p u
  reached p bs s u h k e = subst (All p) e (parse_all-All p bs s h k)

  settings_frozen :
      (bs : List Str) (s u : Conf)
      → s.server_readed ≡ true
      → parse_all bs s ≡ some u
      → u.settings ≡ s.settings
  unfolding apply
  settings_frozen bs s u h e =
      (reached (λ (v : Conf). (v.settings ≡ s.settings) × (v.server_readed ≡ true)) bs s u
        (λ b c r v q. (ap (λ o. if o then v.settings else settings_of c) q.1 ∙ q.0, refl)) (refl, h)
        e).0

  abbrev Untouched : Conf → Type 0
  Untouched s = (s.prev_conf ≡ []) × (s.users.prev ≡ [])

  not_skipped :
      (b : Str) (c : ServerConfig) (s : Conf)
      → s.prev_conf ≡ []
      → b ≢ []
      → unmarshal default_config b ≡ some c
      → parse b s
        ≡ routed up low accepts unmarshal unmarshal_users b c s
            (register accepts (build_routes low c.handlers) [])
  unfolding parse_config
  not_skipped b c s p n e = ground (arith, str_eq_iff s.prev_conf b)

  settled :
      (b : Str) (c : ServerConfig) (o : Option (List Route)) (bs : List Str) (s : Conf)
      → and_then (routed up low accepts unmarshal unmarshal_users b c initial o) (parse_all bs)
        ≡ some s
      → s.settings ≡ settings_of c
  unfolding apply
  settled b c none bs s e = cc
  settled b c (some r) bs s e =
      settings_frozen bs (apply up low accepts unmarshal unmarshal_users b c r initial) s refl e

  -- The first text that is read gives the server's settings when it is not empty and parses, and they
  -- stay whatever is parsed later, as long as the router takes the routes of each configuration, so
  -- that the program goes on.
  pub first_settings_stay :
      (b : Str) (c : ServerConfig) (bs : List Str) (s : Conf)
      → b ≢ []
      → unmarshal default_config b ≡ some c
      → parse_all (b ∷ bs) initial ≡ some s
      → s.settings ≡ settings_of c
  first_settings_stay b c bs s n e k =
      settled b c (register accepts (build_routes low c.handlers) []) bs s
        (ap (λ o. and_then o (parse_all bs)) (sym (not_skipped b c initial refl n e)) ∙ k)
