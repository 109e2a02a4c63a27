-- ===== src/Run/Tests.antt =====
-- Run with a database that answers every call.
use iplsgo.Prelude.{
  ℕ, suc, ◌≡◌, refl, true, false, Option, none, some, inl, inr, [], ◌∷◌, Str, bytes, pos, str_eq,
  List, is_some, ◌⊎◌,
}
use iplsgo.Gostd.Maps.{lookup, insert}
use iplsgo.Task.{TaskResult, empty_result}
use iplsgo.Tasker.{Error, Driver, Tasker}
use iplsgo.Tasker.Chunks.{got, ChunkCalls, fetch, chunk_text}
use mathlib.Core.Path.{subst}
use iplsgo.Describe.{no_cache, DescribeCalls, Row, typed_rows}
use iplsgo.Params.{Cursor}
use iplsgo.Params.Scalar.{prepare_other}
use iplsgo.Crutches.Headers.{Mime}
use iplsgo.Run.{Output, Arguments, Machine, State, Exit, ok, no_lob}
use iplsgo.Run.Body.{run}
use iplsgo.Run.Request.{Headings, run_task}
use iplsgo.Run.Behaves.{run-Logged}
use iplsgo.Run.Regular.{Finite, IsRegular}
use iplsgo.Tasker.Steps.{Logged}
use iplsgo.Run.Outcome.{Runs, run_task_answers}

-- The world counts the connections that were made.
abbrev driver : Driver
driver = record {
  World = ℕ;
  Conn = ℕ;
  now = λ x. x;
  new_connection = λ user pass str x. (suc x, some x, none);
  is_connected = λ c x. true;
  close = λ c x. (x, none);
  free = λ c x. x;
  query_text = λ c stm x. (x, none, some (bytes "17,23"));
  kill = λ c stm session x. (x, none, 1, []);
}

abbrev cursor : Cursor
cursor = record {
  Var = ℕ;
  Time = Str;
  Cause = Str;
  create = λ call. inl 7;
  to_upper = λ s. s;
  to_lower = λ s. s;
  parse_time = λ s. s;
}

abbrev describing : DescribeCalls cursor.to_upper driver
describing = record {
  new_variables = λ c x. none;
  short = λ c proc timestamp package_name x. (
    x,
    inr (record {
      updated = 1;
      timestamp = some 7;
      package_name = bytes "pkg";
      procedure_name = proc;
      object_id = 1;
    }),
  );
  long = λ c id name x. (x, inr []);
  choices = λ x rows. [];
}

abbrev chunks : ChunkCalls driver
chunks = record {
  new_variables = λ c x. none;
  execute = λ c stm x. (
    x,
    none,
    record {
      sql_err_code = got (pos 0);
      sql_err = got [];
      text = got [];
      next_chunk_exists = false;
    },
  );
}

abbrev page : Output
page = record {
  sql_err_code = got (pos 0);
  sql_err = got [];
  content_type = got (bytes "text/plain");
  custom_headers = got (bytes "X-A: 1");
  rc = got (pos 0);
  content = got (bytes "ok");
  next_chunk_exists = got false;
  data_lob = no_lob;
}

abbrev mime : Mime
mime = record {
  to_lower = λ s. s;
  trim_space = λ s. s;
  parse = λ s. some (s, []);
  format = λ s params. s;
  detect = λ s. bytes "text/plain";
}

abbrev machine : Machine driver cursor
machine = record {
  describing = describing;
  chunks = chunks;
  execute = λ c stm params x. (x, none, page);
  upload = λ c stm params x. (
    x,
    none,
    record { sql_err_code = got (pos 0); sql_err = got []; ret_name = got (bytes "stored") },
  );
  write_file = λ name text x. x;
  failure_text = λ f. [];
  missing_text = λ e. [];
  rfc1123z = λ t. [];
  sort = λ l. l;
  mime = mime;
  fuel = 3;
}

abbrev headings : Headings
headings = record {
  user_name = [];
  conn_str = [];
  date = [];
  referer = [];
  stm = [];
  stm_end = [];
  error = [];
  error_end = [];
  stm_show = [];
  stm_show_end = [];
}

abbrev arguments : Arguments
arguments = record {
  session_id = bytes "s";
  task_id = bytes "1";
  user_name = bytes "anna";
  user_pass = bytes "secret";
  conn_str = bytes "db";
  param_store_proc = [];
  before_script = [];
  after_script = [];
  document_table = bytes "docs";
  cgi_env = (bytes "REQUEST_METHOD", bytes "GET") ∷ [];
  proc_name = bytes "p";
  url_params = (bytes "a", bytes "1" ∷ []) ∷ [];
  req_files = some (
      (
        bytes "f",
        record {
          filename = bytes "x.txt";
          header = some ((bytes "Content-Type", bytes "text/plain" ∷ []) ∷ []);
          last_arg = [];
          content = inl (bytes "data");
        }
            ∷ [],
      )
      ∷ []);
  dump_error_file_name = bytes "dump";
}

abbrev fresh : Tasker ℕ
fresh = record {
  conn = none;
  conn_user_name = [];
  conn_user_pass = [];
  conn_str = [];
  sess_id = [];
  log_request_proceeded = 0;
  log_errors_num = 0;
  log_session_id = [];
  log_task_id = [];
  log_user_name = [];
  log_user_pass = [];
  log_conn_str = [];
  log_proc_name = [];
  log_steps = [];
  state_is_working = false;
  state_create_dt = 0;
  state_last_finish_dt = none;
  statements = record {
    stm_eval_session_id = bytes "select sid";
    stm_main = bytes "begin %s %s %s %s %s %s %s end;";
    stm_get_rest_chunk = bytes "rest";
    stm_kill_session = [];
    stm_file_upload = bytes "%s insert into %s";
  };
}

finite : (conn : ℕ) (stm : Str) → Finite driver chunks conn stm 3
unfolding fetch chunk_text
finite conn stm content x = refl

abbrev no_rows : Error ⊎ List (Option Row)
no_rows = inr []

abbrev Known : Error ⊎ List (Option Row) → Type 0
Known (inl e) = Unit {0}
Known (inr cells) = is_some (typed_rows cells) ≡ true

typed : (cells : List (Option Row)) → no_rows ≡ inr cells → is_some (typed_rows cells) ≡ true
unfolding typed_rows
typed cells e = subst (λ (o : Error ⊎ List (Option Row)). Known o) e refl

abbrev regular : IsRegular driver cursor machine arguments
regular = record {
  replies = λ conn stm params x e. record {
    code = refl;
    text = λ c h z. refl;
    rc = λ c h z. refl;
    more = λ c h z. refl;
  };
  uploads = λ conn stm params x e. record { code = refl; text = λ c h z. refl };
  chunks = finite;
  rows = λ conn id name x cells e. typed cells e;
  files = λ conn. (refl, tt);
  params = (refl, tt);
}

run_task_answers_example :
    Runs driver cursor machine headings arguments fresh 0
      (run_task driver cursor machine headings arguments fresh no_cache 0)
run_task_answers_example =
    run_task_answers driver cursor machine headings arguments (λ x e. refl) fresh no_cache 0 refl
      (λ c e. refl) (λ c x e. refl) regular

abbrev state : State driver
state = record { tasker = fresh; res = empty_result; cache = no_cache; world = 0 }

run-Logged_example : Logged fresh (run driver cursor machine 0 arguments state).1.tasker
run-Logged_example = run-Logged driver cursor machine 0 arguments state

abbrev status_of : Option (Exit TaskResult × State driver) → ℕ × Str
status_of none = (0, [])
status_of (some (ok res, s)) = (res.status_code, res.content)
status_of (some (r, s)) = (1, [])

served_page :
    status_of (run_task driver cursor machine headings arguments fresh no_cache 0)
    ≡ (200, bytes "ok")
unfolding run_task lookup insert str_eq prepare_other
served_page = refl
