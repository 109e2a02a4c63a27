-- ===== src/Handler/Tests.antt =====
-- The handler on a request with basic authentication.
use iplsgo.Prelude.{◌≡◌, refl, true, false, none, some, List, [], ◌∷◌, Str, bytes, pos, str_eq}
use iplsgo.Gostd.{contains_byte}
use iplsgo.Gostd.Maps.{Map, lookup}
use iplsgo.Task.{TaskerType, Request}
use iplsgo.Http.{HttpRequest, canonical, get}
use iplsgo.Users.{Users, get_connection_params}
use iplsgo.Config.{OwaConf}
use iplsgo.Handler.{make_handler_id, client_addr}
use iplsgo.Handler.Owa.{Outside, request, owa}
use iplsgo.Handler.Admits.{Admitted, owa-Admitted}
use iplsgo.Handler.Ids.{make_handler_id-shared, make_handler_id-bare_address}
use iplsgo.Handler.Reply.{Reading}

abbrev same : Str → Str
same s = s

abbrev listed : Users
listed = record {
  ulist = (bytes "ANNA", record { is_special = true; grp_id = pos 1 }) ∷ [];
  prev = [];
}

abbrev conf : OwaConf
conf = record {
  path_str = bytes "/a";
  type_tasker = TaskerType.classic;
  session_idle_timeout = pos 1;
  session_wait_timeout = pos 1;
  request_user_info = true;
  request_user_realm = [];
  def_user_name = [];
  def_user_pass = [];
  before_script = [];
  after_script = [];
  param_store_proc = [];
  document_table = [];
  templates = [];
  grps = (pos 1, bytes "db") ∷ [];
}

abbrev outside : Outside
outside = record {
  fix_query = same;
  parse_form = λ r. (r, none);
  session_uuid = bytes "u";
  task_uuid = bytes "t";
  dump_file_name = same;
}

-- A request through a proxy that gives an address with no port.
abbrev request_from : Str → HttpRequest
request_from addr = record {
  method = bytes "GET";
  url_path = bytes "/a/root";
  raw_query = [];
  proto = bytes "HTTP/1.1";
  tls = false;
  host = bytes "localhost";
  remote_addr = bytes "10.0.0.1:4000";
  header = (bytes "X-Real-Ip", addr ∷ []) ∷ [];
  basic_auth = some (bytes "ANNA", bytes "secret");
  form = [];
  post_form = [];
  files = none;
}

abbrev near : HttpRequest
near = request_from (bytes "10.0.0.7")

abbrev far : HttpRequest
far = request_from (bytes "10.0.0.8")

abbrev run : Request
run =
    request same [] listed outside conf (bytes "root") none near (bytes "ANNA") (bytes "ANNA")
      (bytes "secret") true (bytes "db")

owa-Admitted_example : Admitted same [] listed outside conf near run
unfolding owa lookup str_eq get_connection_params
owa-Admitted_example = owa-Admitted same [] listed outside conf near run (pos 1) (pos 1) refl

make_handler_id-shared_example :
    make_handler_id same (bytes "u") false (bytes "ANNA") (bytes "secret") [] near
    ≡ make_handler_id same (bytes "v") false (bytes "ANNA") (bytes "secret") [] far
unfolding str_eq
make_handler_id-shared_example =
    make_handler_id-shared same (bytes "u") (bytes "v") (bytes "ANNA") (bytes "secret") [] near far
      refl

make_handler_id-bare_address_example :
    make_handler_id same (bytes "u") true (bytes "ANNA") (bytes "secret") (bytes "d") near
    ≡ make_handler_id same (bytes "v") true (bytes "ANNA") (bytes "secret") (bytes "d") far
unfolding str_eq client_addr contains_byte get lookup canonical
make_handler_id-bare_address_example =
    make_handler_id-bare_address same (bytes "u") (bytes "v") (bytes "ANNA") (bytes "secret")
      (bytes "d") near far (λ e. cc) refl refl refl

abbrev reading : Reading
reading = record { status = pos 200; location = []; header = [] }

abbrev headers : Map Str (List Str)
headers = (bytes "status", bytes "404" ∷ bytes "gone" ∷ []) ∷ []
