-- ===== src/Handler/Owa.antt =====
-- server.go: the handler of newOwa up to the call of `Run`. What the code gets from elsewhere is in
-- `Outside`: the form that is parsed (oraparsemultipart.go), the query that is fixed
-- (NSPercentEncoding), the two UUIDs and the name of the dump, which has the time in it.
use Prim.Native.Nat.{◌^◌}
use iplsgo.Prelude.{
  ℕ, suc, ◌-◌, Bool, not, Option, none, some, List, [], ◌∷◌, ◌++◌, Str, bytes, ℤ, pos, is_negative,
  ltb, length, drop, is_empty, ◌==◌, str_Eq, if◌then◌else◌,
}
use iplsgo.Gostd.{has_prefix, split, join}
use iplsgo.Task.{Request}
use iplsgo.Http.{HttpRequest, form_value, get}
use iplsgo.Users.{Users, get_connection_params}
use iplsgo.Config.{OwaConf}
use iplsgo.Handler.{make_handler_id, make_task_id}
use iplsgo.Handler.Env.{make_env_params}
use iplsgo.Handler.Reply.{Reply}

-- The names of a path, less "." and what ".." takes back.
clean_parts : Bool → List Str → List Str → List Str
clean_parts rooted kept [] = kept
clean_parts rooted kept (p ∷ ps) =
    if is_empty p
    then clean_parts rooted kept ps
    else if p == bytes "."
    then clean_parts rooted kept ps
    else if p == bytes ".."
    then elim kept [
      | [] ↦ if rooted then clean_parts rooted [] ps else clean_parts rooted (bytes ".." ∷ []) ps
      | top ∷ rest ↦
          if top == bytes ".."
          then clean_parts rooted (bytes ".." ∷ top ∷ rest) ps
          else clean_parts rooted rest ps
    ]
    else clean_parts rooted (p ∷ kept) ps

or_dot : Str → Str
or_dot [] = bytes "."
or_dot (c ∷ cs) = c ∷ cs

reversed : List Str → List Str → List Str
reversed acc [] = acc
reversed acc (p ∷ ps) = reversed (p ∷ acc) ps

-- path.Clean
unfoldable pub clean : Str → Str
unfolding clean_parts or_dot reversed has_prefix split join
clean s =
    let rooted = has_prefix s (bytes "/") in
    let rest = join (reversed [] (clean_parts rooted [] (split s (bytes "/")))) (bytes "/") in
    or_dot (if rooted then bytes "/" ++ rest else rest)

pub record Outside : Type 0 where
  pub fix_query : Str → Str
  pub parse_form : HttpRequest → HttpRequest × Option ℕ
  pub session_uuid : Str
  pub task_uuid : Str
  pub dump_file_name : Str → Str

-- The request is answered, breaks a session, or is run with the two timeouts.
pub data Next : Type 0 where
  replies : Reply → Next
  breaks : Str → Str → Next
  runs : Request → ℤ → ℤ → Next

-- A negative timeout is none: math.MaxInt64.
abbrev timeout : ℤ → ℤ
timeout t = if is_negative t then pos (2 ^ 63 - 1) else t

-- REMOTE_USER: the name of the user, or "-"
abbrev pub remote_of : Option (Str × Str) → Str
remote_of none = bytes "-"
remote_of (some (name, pass)) = if is_empty name then bytes "-" else name

module _ (to_upper : Str → Str) (connection_string : Str) (users : Users) (o : Outside)
    (c : OwaConf) where
  abbrev pub refuse : HttpRequest → Next
  refuse r = Next.replies (
      Reply.unauthorized
        (bytes "Basic realm=\"" ++ (r.host ++ (c.request_user_realm ++ bytes "\""))))

  abbrev pub session_of : Bool → Str → Str → HttpRequest → Str
  session_of is_special user pass r =
      make_handler_id to_upper o.session_uuid is_special user pass (get (bytes "DebugIP") r.header)
        r

  -- The arguments of `Run`.
  unfoldable pub request : Str → Option ℕ → HttpRequest → Str → Str → Str → Bool → Str → Request
  unfolding make_task_id make_env_params
  request proc_name req_files r remote_user user pass is_special conn_str = record {
    path = c.path_str;
    type_tasker = c.type_tasker;
    work = record {
      session_id = session_of is_special user pass r;
      task_id = make_task_id o.task_uuid r;
      req_user_name = user;
      req_user_pass = pass;
      req_conn_str = conn_str;
      req_param_store_proc = c.param_store_proc;
      req_before_script = c.before_script;
      req_after_script = c.after_script;
      req_document_table = c.document_table;
      req_cgi_env =
          make_env_params r c.document_table remote_user (c.request_user_realm ++ bytes "/");
      req_proc = proc_name;
      req_params = r.form;
      req_files = req_files;
      dump_file_name = o.dump_file_name user;
    };
  }

  -- With the connection that the user gets.
  unfoldable pub with_connection :
      Str → Option ℕ → HttpRequest → Str → Str → Str → Bool × Str → Next
  unfolding request
  with_connection proc_name req_files r remote_user user pass (is_special, conn_str) =
      if is_empty conn_str
      then refuse r
      else if proc_name == bytes "break_session"
      then Next.breaks c.path_str (session_of is_special user pass r)
      else Next.runs (request proc_name req_files r remote_user user pass is_special conn_str)
          (timeout c.session_wait_timeout) (timeout c.session_idle_timeout)

  unfoldable pub for_user : Str → Option ℕ → HttpRequest → Str → Str → Str → Next
  unfolding with_connection get_connection_params
  for_user proc_name req_files r remote_user user pass =
      with_connection proc_name req_files r remote_user user pass
        (get_connection_params to_upper connection_string user c.grps users)

  -- The user that r.BasicAuth() gives.
  unfoldable pub authenticated : Str → Option ℕ → HttpRequest → Option (Str × Str) → Next
  unfolding for_user
  authenticated proc_name req_files r none = refuse r
  authenticated proc_name req_files r (some (name, pass)) =
      for_user proc_name req_files r (remote_of (some (name, pass))) name pass

  -- After the form was parsed.
  unfoldable pub parsed : Str → Option ℕ → HttpRequest → Next
  unfolding for_user authenticated
  parsed proc_name req_files r =
      if proc_name == bytes "!"
      then Next.replies (Reply.sessions c.path_str (form_value (bytes "Sort") r))
      else if not c.request_user_info
      then for_user proc_name req_files r (remote_of r.basic_auth) c.def_user_name c.def_user_pass
      else authenticated proc_name req_files r r.basic_auth

  -- newOwa's handler, up to `Run`; `none` is the panic of a path that is too short.
  unfoldable pub owa : HttpRequest → Option Next
  unfolding parsed clean
  owa r =
      let (r1, req_files) = o.parse_form (record r { raw_query = o.fix_query r.raw_query }) in
      if ltb (length c.path_str) (length r.url_path)
      then some (parsed (clean (drop (suc (length c.path_str)) r.url_path)) req_files r1)
      else none
