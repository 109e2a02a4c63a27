-- ===== src/Config.antt =====
-- server.go: the configuration and the routes that it gives. `json.Unmarshal` is a parameter: the
-- configuration that it leaves, from one with the defaults, or `none` for an error. A handler's
-- closure is the data that it closes over. The router (httprouter) is the list of the routes that were
-- registered, in order; whether it takes one more route is a parameter, `accepts`: httprouter panics
-- on a path without a slash at its start and on one that conflicts with another. That panic ends the
-- program.
pub mod Frozen
mod Tests
use Prim.Native.Nat.{◌%◌, ◌^◌}
use iplsgo.Prelude.{
  ℕ, ◌*◌, Bool, true, false, Option, none, some, List, [], ◌∷◌, ◌++◌, Str, bytes, ℤ, pos, negsuc,
  to_word, of_word, is_empty, Comparable, ◌==◌, str_Eq, int_Eq, if◌then◌else◌, suc,
}
use iplsgo.Gostd.Maps.{Map, insert}
use iplsgo.Task.{TaskerType}
use iplsgo.Text.{decimal}
use iplsgo.Users.{Users, TUser, no_users, copy, update_users}

pub record HandlerConf : Type 0 where
  pub path : Str
  pub kind : Str
  pub root_dir : Str
  pub redirect_path : Str
  pub session_idle_timeout : ℤ
  pub session_wait_timeout : ℤ
  pub request_user_info : Bool
  pub request_user_realm : Str
  pub def_user_name : Str
  pub def_user_pass : Str
  pub before_script : Str
  pub after_script : Str
  pub param_store_proc : Str
  pub document_table : Str
  pub templates : List (Str × Str)
  pub grps : List (ℤ × Str)
  pub soap_user_name : Str
  pub soap_user_pass : Str
  pub soap_conn_str : Str

-- serverConfigHolder
pub record ServerConfig : Type 0 where
  pub service_name : Str
  pub service_disp_name : Str
  pub http_port : ℤ
  pub http_debug_port : ℤ
  pub http_read_timeout : ℤ
  pub http_write_timeout : ℤ
  pub http_ssl : Bool
  pub http_ssl_cert : Str
  pub http_ssl_key : Str
  pub http_log_dir : Str
  pub http_users : Str
  pub handlers : List HandlerConf

-- What newOwa closes over; the timeouts are in nanoseconds.
pub record OwaConf : Type 0 where
  pub path_str : Str
  pub type_tasker : TaskerType
  pub session_idle_timeout : ℤ
  pub session_wait_timeout : ℤ
  pub request_user_info : Bool
  pub request_user_realm : Str
  pub def_user_name : Str
  pub def_user_pass : Str
  pub before_script : Str
  pub after_script : Str
  pub param_store_proc : Str
  pub document_table : Str
  pub templates : Map Str Str
  pub grps : Map ℤ Str

pub data Handle : Type 0 where
  redirect : Str → Handle
  files : Str → Handle
  owa : OwaConf → Handle
  soap : Str → Str → Str → Str → Handle

pub data Method : Type 0 where
  get post : Method

pub record Route : Type 0 where
  pub method : Method
  pub pattern : Str
  pub handle : Handle

-- The variables that parseConfig sets once.
pub record Settings : Type 0 where
  pub service_name : Str
  pub service_disp_name : Str
  pub http_port : ℤ
  pub http_debug_port : ℤ
  pub http_read_timeout : ℤ
  pub http_write_timeout : ℤ
  pub http_ssl : Bool
  pub http_ssl_cert : Str
  pub http_ssl_key : Str
  pub http_log_dir : Str

pub record Conf : Type 0 where
  pub server_readed : Bool
  pub settings : Settings
  pub users : Users
  pub router : List Route
  pub prev_conf : Str

abbrev pub def_http_timeout : ℤ
def_http_timeout = pos 2400000

-- resetConfig, before the users: all but the users and `prev`
abbrev pub reset_settings : Settings
reset_settings = record {
  service_name = [];
  service_disp_name = [];
  http_port = pos 0;
  http_debug_port = pos 0;
  http_read_timeout = def_http_timeout;
  http_write_timeout = def_http_timeout;
  http_ssl = false;
  http_ssl_cert = [];
  http_ssl_key = [];
  http_log_dir = [];
}

-- The configuration before the JSON is read into it.
abbrev pub default_config : ServerConfig
default_config = record {
  service_name = [];
  service_disp_name = [];
  http_port = pos 0;
  http_debug_port = pos 0;
  http_read_timeout = def_http_timeout;
  http_write_timeout = def_http_timeout;
  http_ssl = false;
  http_ssl_cert = [];
  http_ssl_key = [];
  http_log_dir = bytes "${app_dir}\\log\\";
  http_users = [];
  handlers = [];
}

-- time.Duration(n) * time.Millisecond, on 64 bits
unfoldable pub millis : ℤ → ℤ
unfolding to_word of_word
millis n = of_word (to_word n * 1_000_000 % 2 ^ 64)

-- fmt's %d
unfoldable pub decimal_int : ℤ → Str
unfolding decimal
decimal_int (pos n) = decimal n
decimal_int (negsuc n) = b'-' ∷ decimal (suc n)

-- A map filled in the list's order.
unfoldable pub fill {ℓ} : {K : Type ℓ} ⦃e : Comparable K⦄ → List (K × Str) → Map K Str → Map K Str
fill [] m = m
fill ((k, v) ∷ rest) m = fill rest (insert k v m)

make_owa : Str → TaskerType → HandlerConf → OwaConf
unfolding fill millis
make_owa upath type_tasker h = record {
  path_str = upath;
  type_tasker = type_tasker;
  session_idle_timeout = millis h.session_idle_timeout;
  session_wait_timeout = millis h.session_wait_timeout;
  request_user_info = h.request_user_info;
  request_user_realm = h.request_user_realm;
  def_user_name = h.def_user_name;
  def_user_pass = h.def_user_pass;
  before_script = h.before_script;
  after_script = h.after_script;
  param_store_proc = h.param_store_proc;
  document_table = h.document_table;
  templates = fill h.templates [];
  grps = fill h.grps [];
}

-- A handler on GET and POST below its path.
get_and_post : Str → Handle → List Route
get_and_post upath f =
    record { method = Method.get; pattern = upath ++ bytes "/*proc"; handle = f }
    ∷ record { method = Method.post; pattern = upath ++ bytes "/*proc"; handle = f }
    ∷ []

owa_routes : Str → TaskerType → HandlerConf → List Route
unfolding make_owa get_and_post
owa_routes upath t h = get_and_post upath (Handle.owa (make_owa upath t h))

module _ (to_lower : Str → Str) where
  -- The body of the loop over the handlers.
  unfoldable pub routes_of : HandlerConf → List Route
  unfolding owa_routes get_and_post
  routes_of h =
      let upath = to_lower h.path in
      if is_empty h.path
      then []
      else if h.kind == bytes "Redirect"
      then record { method = Method.get; pattern = upath; handle = Handle.redirect h.redirect_path }
        ∷ []
      else if h.kind == bytes "Static"
      then record {
        method = Method.get;
        pattern = upath ++ bytes "/*filepath";
        handle = Handle.files h.root_dir;
      }
        ∷ []
      else if h.kind == bytes "owa_apex"
      then owa_routes upath TaskerType.apex h
      else if h.kind == bytes "owa_classic"
      then owa_routes upath TaskerType.classic h
      else if h.kind == bytes "owa_ekb"
      then owa_routes upath TaskerType.ekb h
      else if h.kind == bytes "SOAP"
      then get_and_post upath (Handle.soap upath h.soap_user_name h.soap_user_pass h.soap_conn_str)
      else []

  unfoldable pub build_routes : List HandlerConf → List Route
  unfolding routes_of
  build_routes [] = []
  build_routes (h ∷ hs) = routes_of h ++ build_routes hs

-- The routes registered one after another on a router; none if the router panics on one.
unfoldable pub register :
    (List Route → Route → Bool) → List Route → List Route → Option (List Route)
register accepts [] router = some router
register accepts (r ∷ rs) router =
    let rest = register accepts rs (router ++ (r ∷ [])) in if accepts router r then rest else none

pub settings_of : ServerConfig → Settings
unfolding decimal_int
settings_of c = record {
  service_name = c.service_name ++ (bytes "_" ++ decimal_int c.http_port);
  service_disp_name = c.service_disp_name;
  http_port = c.http_port;
  http_debug_port = c.http_debug_port;
  http_read_timeout = c.http_read_timeout;
  http_write_timeout = c.http_write_timeout;
  http_ssl = c.http_ssl;
  http_ssl_cert = c.http_ssl_cert;
  http_ssl_key = c.http_ssl_key;
  http_log_dir = c.http_log_dir;
}

pub data Parsed : Type 0 where
  done failed : Parsed

module _ (to_upper to_lower : Str → Str) (accepts : List Route → Route → Bool)
    (unmarshal : ServerConfig → Str → Option ServerConfig)
    (unmarshal_users : Str → List TUser) where
  -- The locked part of parseConfig.
  unfoldable pub apply : Str → ServerConfig → List Route → Conf → Conf
  unfolding settings_of update_users copy
  apply buf c new_router s = record {
    server_readed = true;
    settings = if s.server_readed then s.settings else settings_of c;
    users = update_users to_upper unmarshal_users c.http_users s.users;
    router = new_router;
    prev_conf = copy s.prev_conf buf;
  }

  abbrev pub routed : Str → ServerConfig → Conf → Option (List Route) → Option (Conf × Parsed)
  routed buf c s none = none
  routed buf c s (some new_router) = some (apply buf c new_router s, Parsed.done)

  abbrev pub decoded : Str → Conf → Option ServerConfig → Option (Conf × Parsed)
  decoded buf s none = some (s, Parsed.failed)
  decoded buf s (some c) = routed buf c s (register accepts (build_routes to_lower c.handlers) [])

  -- parseConfig; none is a panic of the router
  unfoldable pub parse_config : Str → Conf → Option (Conf × Parsed)
  unfolding apply build_routes register
  parse_config buf s =
      if s.prev_conf == buf
      then some (s, Parsed.done)
      else decoded buf s (unmarshal default_config buf)

  -- resetConfig
  unfoldable pub reset_config : Conf → Conf
  unfolding update_users
  reset_config s = record {
    server_readed = false;
    settings = reset_settings;
    users = update_users to_upper unmarshal_users [] s.users;
    router = [];
    prev_conf = [];
  }
