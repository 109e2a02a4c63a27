-- ===== src/Reader/Tests.antt =====
-- Reading the configuration from a database whose connection never answers a ping.
use iplsgo.Prelude.{
  ◌≡◌, refl, Bool, true, false, Option, none, some, ◌⊎◌, inr, List, [], ◌∷◌, Str, bytes, str_eq,
  arith, is_some,
}
use iplsgo.Tasker.{plain, Driver}
use mathlib.Core.Path.{subst}
use iplsgo.Config.{ServerConfig, Route, default_config, build_routes, register}
use iplsgo.Config.Frozen.{initial}
use iplsgo.Users.{TUser}
use iplsgo.Reader.{text, Service, read_config, Reader, ticks, stop}
use iplsgo.Reader.Held.{Releases, Held}
use iplsgo.Reader.Ticks.{ticks-Held}

-- The world says whether the one connection is live.
abbrev driver : Driver
driver = record {
  World = Bool;
  Conn = Unit {0};
  now = λ x. 0;
  new_connection = λ user pass str x. (true, some tt, none);
  is_connected = λ c x. x;
  close = λ c x. (x, none);
  free = λ c x. false;
  query_text = λ c stm x. (x, none, some []);
  kill = λ c stm session x. (x, none, 1, []);
}

abbrev service : Service driver
service = record {
  username = bytes "reader";
  password = bytes "secret";
  sid = bytes "db";
  config_name = bytes "main";
  host_name = bytes "host";
  ping = λ c x. (x, some (plain (bytes "lost")));
  select = λ c stm args x. (x, inr (text (bytes "A") ∷ text (bytes "B") ∷ []));
  unmasked = λ e. [];
}

abbrev IsLive : Bool → Unit {0} → Type 0
IsLive x c = x ≡ true

abbrev same : Str → Str
same s = s

abbrev parse : ServerConfig → Str → Option ServerConfig
parse c s = some (record c { service_name = s })

abbrev no_list : Str → List TUser
no_list s = []

-- A router that takes every route.
abbrev any : List Route → Route → Bool
any router r = true

abbrev IsTaken : Option ServerConfig → Type 0
IsTaken none = Unit {0}
IsTaken (some c) = is_some (register any (build_routes same c.handlers) []) ≡ true

takes :
    (buf : Str) (c : ServerConfig)
    → parse default_config buf ≡ some c
    → is_some (register any (build_routes same c.handlers) []) ≡ true
unfolding register build_routes
takes buf c e = subst IsTaken e refl

abbrev start : Reader driver service same same any parse no_list
start = record { conn = none; conf = initial; world = false }

releases : Releases driver service IsLive
releases = record {
  opens = λ x c l. inr refl;
  frees = λ x k c l. absurd (ground (arith, l));
  closes = λ x k c l. l;
  pings = λ x k c l. l;
  selects = λ x k c stm args l. l;
}

ticks-Held_example :
    (t : Reader driver service same same any parse no_list) × (ticks driver service same same any
        parse no_list 2 start
      ≡ some t)
    × Held driver service IsLive t.conn t.world
    × (((t.conn ≡ none) × (stop driver service same same any parse no_list t ≡ none))
        ⊎ ((u : Reader driver service same same any parse no_list) × (stop driver service same same
                any parse no_list t
              ≡ some u)
            × ((c : Unit {0}) → IsLive u.world c → ⊥)))
ticks-Held_example =
    ticks-Held driver service IsLive releases (λ x e. refl) same same any parse no_list takes 2
      start (λ c l. ground (arith, l))

read_again : read_config driver service (some tt) true ≡ some (inr (bytes "AB"), some tt, true)
unfolding read_config str_eq
read_again = refl
