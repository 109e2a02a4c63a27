-- ===== src/Reader.antt =====
-- reader.go: reading the configuration over a connection that is kept from tick to tick. The text of
-- an error that UnMask gives, and the driver's calls, are parameters. A tick gives `none` where the
-- program ends in a panic: of a cursor without a connection, or of the router of a configuration.
pub mod Held
pub mod Ticks
mod Tests
use iplsgo.Prelude.{
  ℕ, zero, suc, Bool, Option, none, some, ◌⊎◌, inl, inr, List, [], ◌∷◌, ◌++◌, Str, bytes, str_Eq,
  ◌==◌, if◌then◌else◌,
}
use iplsgo.Tasker.{Error, plain, Driver}
use iplsgo.Config.{ServerConfig, Conf, Route, Parsed, parse_config}
use iplsgo.Users.{TUser}

-- The first column of a row: a text, or a value of another type.
pub data Cell : Type 0 where
  text : Str → Cell
  other : Str → Cell

-- The package's variables that initReading sets, Ping, and Execute with FetchAll.
pub record Service (d : Driver) : Type 0 where
  pub username : Str
  pub password : Str
  pub sid : Str
  pub config_name : Str
  pub host_name : Str
  pub ping : d.Conn → d.World → d.World × Option Error
  pub select : d.Conn → Str → List Str → d.World → d.World × (Error ⊎ List Cell)
  pub unmasked : Error → Str

abbrev pub stm_read_config : Str
stm_read_config = bytes "select * from table(c.config(:1, :2, ''))"

-- The rows one after another, or the error of the first that is no text.
unfoldable pub config_lines : List Cell → Error ⊎ Str
config_lines [] = inr []
config_lines (text line ∷ rows) = elim (config_lines rows) [
  | inl e ↦ inl e
  | inr buf ↦ inr (line ++ buf)
]
config_lines (other type_name ∷ rows) = inl (plain (bytes "data is not String, but " ++ type_name))

module _ (d : Driver) (r : Service d) where
  open d use {World, Conn, new_connection, is_connected, close, free}

  abbrev pub not_empty : Error ⊎ Str → Error ⊎ Str
  not_empty (inl e) = inl e
  not_empty (inr buf) =
      if buf == bytes "{}"
      then inl (plain (bytes "Configuration \"" ++ (r.config_name ++ bytes "\" does not exists")))
      else inr buf

  abbrev pub config_text : Error ⊎ List Cell → Error ⊎ Str
  config_text (inl e) = inl (plain (bytes "error executing `c.config`: " ++ r.unmasked e))
  config_text (inr rows) = not_empty (config_lines rows)

  -- A connection that does not answer is closed and freed.
  abbrev pub pinged : Conn → World × Option Error → Option Conn × World
  pinged c (x, none) = (some c, x)
  pinged c (x, some e) = (none, free c (close c x).0)

  abbrev pub kept : Option Conn → World → Option Conn × World
  kept none x = (none, x)
  kept (some c) x = if is_connected c x then pinged c (r.ping c x) else (none, free c x)

  -- After NewConnection: a connection that failed to log in is freed.
  abbrev pub made : World × Option Conn × Option Error → Option Error × Option Conn × World
  made (x, c, none) = (none, c, x)
  made (x, none, some e) = (some e, none, x)
  made (x, some c, some e) = (some e, none, free c x)

  abbrev pub login : Option Conn × World → Option Error × Option Conn × World
  login (some c, x) = (none, some c, x)
  login (none, x) = made (new_connection r.username r.password r.sid x)

  -- The outcome of readConfig; none is the panic of a cursor without a connection.
  abbrev pub Read : Type 0
  Read = Option ((Error ⊎ Str) × Option Conn × World)

  abbrev pub read_with : Option Error × Option Conn × World → Read
  read_with (some e, c, x) = some (inl e, c, x)
  read_with (none, none, x) = none
  read_with (none, some c, x) =
      let (x1, rows) = r.select c stm_read_config (r.config_name ∷ r.host_name ∷ []) x in
      some (config_text rows, some c, x1)

  -- readConfig
  unfoldable pub read_config : Option Conn → World → Read
  unfolding config_lines
  read_config c x = read_with (login (kept c x))

  module _ (to_upper to_lower : Str → Str) (accepts : List Route → Route → Bool)
      (unmarshal : ServerConfig → Str → Option ServerConfig)
      (unmarshal_users : Str → List TUser) where
    pub record Reader : Type 0 where
      pub conn : Option Conn
      pub conf : Conf
      pub world : World

    abbrev pub variables : Option (Conf × Parsed) → Option Conf
    variables none = none
    variables (some r) = some r.0

    -- An error of the configuration is only written to the log; none is a panic of parseConfig.
    abbrev pub parsed : Error ⊎ Str → Conf → Option Conf
    parsed (inl e) s = some s
    parsed (inr buf) s =
        variables (parse_config to_upper to_lower accepts unmarshal unmarshal_users buf s)

    abbrev pub held : Option Conn → World → Option Conf → Option Reader
    held c x none = none
    held c x (some conf) = some (record { conn = c; conf = conf; world = x })

    abbrev pub after_read : Read → Conf → Option Reader
    after_read none conf = none
    after_read (some (buf, c, x)) conf = held c x (parsed buf conf)

    -- startReading, when the timer fires; an error is only written to the log.
    unfoldable pub tick : Reader → Option Reader
    unfolding read_config parse_config
    tick s = after_read (read_config s.conn s.world) s.conf

    abbrev pub and_then : Option Reader → (Reader → Option Reader) → Option Reader
    and_then none f = none
    and_then (some s) f = f s

    -- The loop of startReading, for so many ticks.
    unfoldable pub ticks : ℕ → Reader → Option Reader
    unfolding tick
    ticks zero s = some s
    ticks (suc n) s = and_then (tick s) (ticks n)

    -- startReading, when it is stopped: Free of no connection reads through a nil pointer.
    unfoldable pub stop : Reader → Option Reader
    stop s = elim s.conn [
      | none ↦ none
      | some c ↦ some (record s { conn = none; world = free c s.world })
    ]
