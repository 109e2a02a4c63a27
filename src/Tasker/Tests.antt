-- ===== src/Tasker/Tests.antt =====
-- A tasker with a driver that always succeeds.
use iplsgo.Prelude.{
  ℕ, suc, Bool, ◌≡◌, refl, true, false, Option, none, some, [], Str, bytes, pos, zero,
}
use iplsgo.Gostd.Maps.{lookup, insert}
use iplsgo.Tasker.{
  Error, ora, plain, Driver, Statements, Tasker, open_step, close_step, set_step_info,
}
use iplsgo.Tasker.Chunks.{got, Chunk, ChunkCalls}
use iplsgo.Tasker.Connection.{connect, disconnect}
use iplsgo.Tasker.Disconnect.{Disconnects, disconnect_lem}
use iplsgo.Tasker.Connect.{Connects, connect_lem, connect-connect}
use iplsgo.Tasker.Errors.{
  unmask, error_text, pack_error, mask, IsAnswer, pack_error-mask, pack_error-IsAnswer,
}

-- The world counts the connections that were made.
abbrev driver : Driver
driver = record {
  World = ℕ;
  Conn = ℕ;
  now = λ x. x;
  new_connection = λ user pass str x. (suc x, some x, none);
  is_connected = λ c x. true;
  close = λ c x. (x, none);
  free = λ c x. x;
  query_text = λ c stm x. (x, none, some (bytes "17,23"));
  kill = λ c stm session x. (x, none, 1, []);
}

abbrev stms : Statements
stms = record {
  stm_eval_session_id = bytes "select sid";
  stm_main = [];
  stm_get_rest_chunk = [];
  stm_kill_session = [];
  stm_file_upload = [];
}

abbrev user : Str
user = bytes "anna"

abbrev pass : Str
pass = bytes "secret"

abbrev db : Str
db = bytes "db"

abbrev fresh : Tasker ℕ
fresh = record {
  conn = none;
  conn_user_name = [];
  conn_user_pass = [];
  conn_str = [];
  sess_id = [];
  log_request_proceeded = 0;
  log_errors_num = 0;
  log_session_id = [];
  log_task_id = [];
  log_user_name = [];
  log_user_pass = [];
  log_conn_str = [];
  log_proc_name = [];
  log_steps = [];
  state_is_working = false;
  state_create_dt = 0;
  state_last_finish_dt = none;
  statements = stms;
}

connect_lem_example : Connects driver user pass db fresh (connect driver user pass db fresh 0)
connect_lem_example =
    connect_lem driver user pass db (λ x e. refl) fresh 0 (λ c e. refl) (λ c x e. refl)

abbrev reached : Option (Option Error × Tasker ℕ × ℕ) → Tasker ℕ
reached none = fresh
reached (some (e, t, x)) = t

connected : Tasker ℕ
unfolding connect open_step close_step set_step_info lookup insert
connected = reached (connect driver user pass db fresh 0)

disconnect_lem_example : Disconnects driver connected (disconnect driver connected 1)
disconnect_lem_example = disconnect_lem driver connected 1

connect-connect_example : connect driver user pass db connected 1 ≡ some (none, connected, 1)
unfolding connected
connect-connect_example =
    connect-connect driver user pass db (λ x e. refl) fresh connected 0 1 (λ c e. refl) refl
      (λ c e. refl)

pack_error-mask_example :
    pack_error (mask 2 (ora (pos 1017) (bytes "ORA-01017")))
    ≡ pack_error (ora (pos 1017) (bytes "ORA-01017"))
pack_error-mask_example = pack_error-mask 2 (ora (pos 1017) (bytes "ORA-01017"))

pack_error-IsAnswer_example :
    IsAnswer
      (unmask (ora (pos 28) (bytes "ORA-00028")))
      (error_text (ora (pos 28) (bytes "ORA-00028")))
      (pack_error (ora (pos 28) (bytes "ORA-00028")))
pack_error-IsAnswer_example = pack_error-IsAnswer (ora (pos 28) (bytes "ORA-00028"))

abbrev piece : Str → Bool → Chunk
piece text further = record {
  sql_err_code = got (pos 0);
  sql_err = got [];
  text = got text;
  next_chunk_exists = further;
}

-- One chunk, and then the connection is lost.
abbrev give : ℕ → ℕ × Option Error × Chunk
give zero = (1, none, piece (bytes "B") true)
give (suc x) = (suc (suc x), some (plain (bytes "lost")), piece [] false)

abbrev chunk_calls : ChunkCalls driver
chunk_calls = record { new_variables = λ c x. none; execute = λ c stm x. give x }
