-- ===== src/Reader/Ticks.antt =====
-- reader.go: the ticks of startReading go on, and leave no connection over.
use iplsgo.Prelude.{
  ℕ, zero, suc, ◌≡◌, refl, Bool, true, false, [], ◌==◌, str_Eq, if◌then◌else◌, Option, none, some,
  ◌⊎◌, inl, inr, List, Str, ap, is_some, arith, ◌∙◌,
}
use mathlib.Core.Path.{subst}
use iplsgo.Tasker.{Error, Driver}
use iplsgo.Config.{
  ServerConfig, Conf, Route, Parsed, default_config, build_routes, register, routed, decoded,
  parse_config,
}
use iplsgo.Users.{TUser}
use iplsgo.Reader.{
  Service, kept, login, Read, read_config, Reader, variables, parsed, held, after_read, tick,
  and_then, ticks, stop,
}
use iplsgo.Reader.Held.{
  Releases, Held, HeldAfter, freed, read_config-Held, read_with-is_some, made-is_some,
}

module _ (d : Driver) (r : Service d) (Live : d.World → d.Conn → Type 0) where
  open d use {World, Conn, new_connection, is_connected, close, free}

  module _ (h : Releases d r Live) where
    module _
        (opens : (x : World)
          → (new_connection r.username r.password r.sid x).2 ≡ none
          → is_some (new_connection r.username r.password r.sid x).1 ≡ true)
        (to_upper to_lower : Str → Str) (accepts : List Route → Route → Bool)
        (unmarshal : ServerConfig → Str → Option ServerConfig) (unmarshal_users : Str → List TUser)
        (takes : (buf : Str) (c : ServerConfig)
          → unmarshal default_config buf ≡ some c
          → is_some (register accepts (build_routes to_lower c.handlers) []) ≡ true) where
      login-is_some :
          (q : Option Conn × World) → (login d r q).0 ≡ none → is_some (login d r q).1 ≡ true
      login-is_some (some c, x) e = refl
      login-is_some (none, x) e =
          made-is_some d r Live h (new_connection r.username r.password r.sid x) (opens x) e

      abbrev State : Type 0
      State = Reader d r to_upper to_lower accepts unmarshal unmarshal_users

      abbrev after : Read d r → Conf → Option State
      after q conf = after_read d r to_upper to_lower accepts unmarshal unmarshal_users q conf

      abbrev turns : ℕ → State → Option State
      turns n s = ticks d r to_upper to_lower accepts unmarshal unmarshal_users n s

      abbrev stopped : State → Option State
      stopped s = stop d r to_upper to_lower accepts unmarshal unmarshal_users s

      -- A state with no connection left over.
      record Reaches (o : Option State) : Type 0 where
        there : State
        is : o ≡ some there
        held : Held d r Live there.conn there.world

      abbrev decoding : Str → Conf → Option ServerConfig → Option (Conf × Parsed)
      decoding buf s o = decoded to_upper to_lower accepts unmarshal unmarshal_users buf s o

      routed-is_some :
          (buf : Str) (c : ServerConfig) (s : Conf) (o : Option (List Route))
          → is_some o ≡ true
          → is_some (routed to_upper to_lower accepts unmarshal unmarshal_users buf c s o) ≡ true
      routed-is_some buf c s none h = h
      routed-is_some buf c s (some r) h = refl

      decoded-is_some :
          (buf : Str) (s : Conf) (o : Option ServerConfig)
          → unmarshal default_config buf ≡ o
          → is_some (decoding buf s o) ≡ true
      decoded-is_some buf s none e = refl
      decoded-is_some buf s (some c) e = routed-is_some buf c s _ (takes buf c e)

      parse_config-is_some :
          (buf : Str) (s : Conf)
          → is_some (parse_config to_upper to_lower accepts unmarshal unmarshal_users buf s) ≡ true
      unfolding parse_config
      parse_config-is_some buf s =
          elim (s.prev_conf == buf)
            as (λ b.
              is_some
                (if b then some (s, Parsed.done) else decoding buf s (unmarshal default_config buf))
              ≡ true) [
                | true ↦ refl
                | false ↦ decoded-is_some buf s (unmarshal default_config buf) refl
              ]

      abbrev parsing : Error ⊎ Str → Conf → Option Conf
      parsing buf s = parsed d r to_upper to_lower accepts unmarshal unmarshal_users buf s

      variables-is_some :
          (o : Option (Conf × Parsed))
          → is_some o ≡ true
          → is_some (variables d r to_upper to_lower accepts unmarshal unmarshal_users o) ≡ true
      variables-is_some none h = h
      variables-is_some (some q) h = refl

      parsed-is_some : (buf : Error ⊎ Str) (s : Conf) → is_some (parsing buf s) ≡ true
      parsed-is_some (inl e) s = refl
      parsed-is_some (inr buf) s = variables-is_some _ (parse_config-is_some buf s)

      held-Reaches :
          (c : Option Conn) (x : World) (o : Option Conf)
          → is_some o ≡ true
          → Held d r Live c x
          → Reaches (held d r to_upper to_lower accepts unmarshal unmarshal_users c x o)
      held-Reaches c x none e p = absurd (ground (arith, e))
      held-Reaches c x (some conf) e p = record {
        there = record { conn = c; conf = conf; world = x };
        is = refl;
        held = p;
      }

      after_read-Reaches :
          (q : Read d r) (conf : Conf)
          → is_some q ≡ true
          → HeldAfter d r Live h q
          → Reaches (after q conf)
      after_read-Reaches none conf e p = absurd (ground (arith, e))
      after_read-Reaches (some (buf, c, x)) conf e p =
          held-Reaches c x (parsing buf conf) (parsed-is_some buf conf) p

      tick-Reaches :
          (s : State)
          → Held d r Live s.conn s.world
          → Reaches (tick d r to_upper to_lower accepts unmarshal unmarshal_users s)
      unfolding tick read_config
      tick-Reaches s p =
          after_read-Reaches (read_config d r s.conn s.world) s.conf
            (read_with-is_some d r Live h (login d r (kept d r s.conn s.world))
              (login-is_some (kept d r s.conn s.world)))
            (read_config-Held d r Live h s.conn s.world p)

      ticks-Reaches : (n : ℕ) (s : State) → Held d r Live s.conn s.world → Reaches (turns n s)
      unfolding ticks
      ticks-Reaches zero s p = record { there = s; is = refl; held = p }
      ticks-Reaches (suc n) s p =
          let q = tick-Reaches s p in
          let u = ticks-Reaches n q.there q.held in
          record {
            there = u.there;
            is =
                ap
                  (λ o.
                    and_then d r to_upper to_lower accepts unmarshal unmarshal_users o (turns n))
                  q.is
                ∙ u.is;
            held = u.held;
          }

      stop_at :
          (o : Option Conn) (s : State)
          → s.conn ≡ o
          → Held d r Live s.conn s.world
          → ((s.conn ≡ none) × (stopped s ≡ none))
            ⊎ ((u : State) × (stopped s ≡ some u) × ((c : Conn) → Live u.world c → ⊥))
      unfolding stop
      stop_at none s e p = inl (e, ground (arith, e))
      stop_at (some k) s e p = inr (
        record s { conn = none; world = free k s.world },
        ground (arith, e),
        λ c l. absurd (
            ground
              (arith, freed d r Live h k s.world (subst (λ o. Held d r Live o s.world) e p) c l)),
      )

      -- Where the driver gives a connection whenever it reports no error, Free ends the connection that
      -- it is given, no call but NewConnection opens one, the router takes the routes of every
      -- configuration that Unmarshal gives, and at first no connection is live but the one that is
      -- held: any number of ticks go on without a panic, whatever the database answers, and leave no
      -- connection live but the one that is held. Stopping then leaves none; but it panics where no
      -- connection is held after the last tick.
      pub ticks-Held :
          (n : ℕ) (s : State)
          → Held d r Live s.conn s.world
          → (t : State) × (turns n s ≡ some t)
            × Held d r Live t.conn t.world
            × (((t.conn ≡ none) × (stopped t ≡ none))
                ⊎ ((u : State) × (stopped t ≡ some u) × ((c : Conn) → Live u.world c → ⊥)))
      ticks-Held n s p =
          let q = ticks-Reaches n s p in
          (q.there, q.is, q.held, stop_at q.there.conn q.there refl q.held)
