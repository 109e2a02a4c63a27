-- ===== src/Run/Request.antt =====
-- otasker/oratasker.go: oracleTasker.Run, from the request to the result, and dumpError. Errors of
-- writing the dump are not looked at; the clock does not go back.
use Prim.Native.Nat.{◌/◌}
use iplsgo.Prelude.{
  ℕ, ◌+◌, ◌-◌, true, false, Option, none, some, List, [], ◌∷◌, ◌++◌, Str, bytes, is_empty,
  if◌then◌else◌,
}
use iplsgo.Gostd.{replace_all}
use iplsgo.Task.{TaskResult, empty_result}
use iplsgo.Tasker.{Error, Driver, Tasker, init_log, last_stms}
use iplsgo.Tasker.Connection.{connect, disconnect}
use iplsgo.Tasker.Errors.{pack_error, error_text}
use iplsgo.Describe.{Cache}
use iplsgo.Params.{Cursor}
use iplsgo.Run.{Arguments, Machine, State, M, Exit, ok, err, panicked, ◌>>=◌}
use iplsgo.Run.Variables.{env_at}
use iplsgo.Run.Body.{run}

abbrev bom : Str
bom = 0xEF ∷ 0xBB ∷ 0xBF ∷ []

abbrev pub crlf : Str
crlf = 13 ∷ 10 ∷ []

-- The Russian headings of a dump, which are data.
pub record Headings : Type 0 where
  pub user_name : Str
  pub conn_str : Str
  pub date : Str
  pub referer : Str
  pub stm : Str
  pub stm_end : Str
  pub error : Str
  pub error_end : Str
  pub stm_show : Str
  pub stm_show_end : Str

abbrev pub concat : List Str → Str
concat [] = []
concat (s ∷ rest) = s ++ concat rest

-- A line with its end, and a text with the line ends of Windows.
abbrev line : Str → Str → Str
line heading value = heading ++ (value ++ crlf)

abbrev block : Str → Str
block text = replace_all text (10 ∷ []) crlf ++ crlf

-- dumpError: what is written
unfoldable pub dump_text : Headings → Str → Str → Str → Str → Str → Str × Str → Str
unfolding replace_all
dump_text h user conn date referer error (stm, stm_show) = concat (
    bom
    ∷ line h.user_name user
    ∷ line h.conn_str conn
    ∷ line h.date date
    ∷ line h.referer referer
    ∷ line h.stm []
    ∷ block stm
    ∷ line h.stm_end []
    ∷ crlf
    ∷ line h.error []
    ∷ block error
    ∷ line h.error_end []
    ∷ crlf
    ∷ line h.stm_show []
    ∷ block stm_show
    ∷ line h.stm_show_end []
    ∷ [])

abbrev pub second : ℕ
second = 1000000000

module _ (d : Driver) (c : Cursor) (m : Machine d c) (h : Headings) (a : Arguments) where
  open d use {World, Conn, now}

  -- The first critical section of Run.
  unfoldable pub enter : Tasker Conn → Tasker Conn
  unfolding init_log
  enter t0 =
      let t = init_log t0 in
      record t {
        log_request_proceeded = t.log_request_proceeded + 1;
        log_session_id = a.session_id;
        log_task_id = a.task_id;
        log_user_name = a.user_name;
        log_user_pass = a.user_pass;
        log_conn_str = a.conn_str;
        log_proc_name = a.proc_name;
        state_is_working = true;
      }

  -- The deferred critical section of Run.
  unfoldable pub leave : State d → State d
  leave s = record s {
    tasker = record s.tasker {
      state_is_working = false;
      state_last_finish_dt = some (now s.world);
    };
  }

  -- dumpError
  unfoldable pub dump_error : Error → State d → State d
  unfolding dump_text last_stms error_text
  dump_error e s = record s {
    world =
        m.write_file a.dump_error_file_name
          (dump_text h a.user_name a.conn_str (m.rfc1123z (now s.world))
            (env_at a.cgi_env (bytes "HTTP_REFERER")) (error_text e) (last_stms s.tasker))
          s.world;
  }

  abbrev pub packed : Error → State d → State d
  packed e s = record s {
    res = record s.res { status_code = (pack_error e).0; content = (pack_error e).1 };
  }

  abbrev pub with_duration : ℕ → State d → State d
  with_duration bg s = record s { res = record s.res { duration = (now s.world - bg) / second } }

  abbrev pub with_error : State d → State d
  with_error s = record s {
    tasker = record s.tasker { log_errors_num = s.tasker.log_errors_num + 1 };
  }

  abbrev pub disconnected : ℕ → State d → Option (Tasker Conn × World) → Exit (Unit {0}) × State d
  disconnected bg s none = (panicked, s)
  disconnected bg s (some (t, x)) =
      (ok tt, with_error (with_duration bg (record s { tasker = t; world = x })))

  -- What Run does after an error: the dump is written before the connection is closed.
  unfoldable pub fail : ℕ → Error → M d (Unit {0})
  unfolding pack_error dump_error disconnect
  fail bg e s =
      let s1 = dump_error e (packed e s) in disconnected bg s1 (disconnect d s1.tasker s1.world)

  abbrev pub connected :
      State d → Option (Option Error × Tasker Conn × World) → Exit (Option Error) × State d
  connected s none = (panicked, s)
  connected s (some (e, t, x)) = (ok e, record s { tasker = t; world = x })

  abbrev pub connecting : M d (Option Error)
  connecting s = connected s (connect d a.user_name a.user_pass a.conn_str s.tasker s.world)

  abbrev pub succeed : ℕ → State d → State d
  succeed bg s = with_duration bg (record s { res = record s.res { status_code = 200 } })

  abbrev pub finished : ℕ → Exit (Unit {0}) × State d → Exit (Unit {0}) × State d
  finished bg (ok u, s) = (ok tt, succeed bg s)
  finished bg (err e, s) = fail bg e s
  finished bg (panicked, s) = (panicked, s)
  finished bg (Exit.running, s) = (Exit.running, s)

  -- Without a connection `run` would read through a nil pointer.
  abbrev pub running : ℕ → Option Conn → M d (Unit {0})
  running bg none s = (panicked, s)
  running bg (some conn) s = finished bg (run d c m conn a s)

  abbrev pub serve : ℕ → Option Error → M d (Unit {0})
  serve bg (some e) s = fail bg e s
  serve bg none s = running bg s.tasker.conn s

  abbrev pub left : Exit (Unit {0}) × State d → Exit TaskResult × State d
  left (ok u, s) = (ok s.res, leave s)
  left (err e, s) = (err e, leave s)
  left (panicked, s) = (panicked, leave s)
  left (Exit.running, s) = (Exit.running, s)

  abbrev pub entered : Tasker Conn → Cache → World → State d
  entered t cache x = record { tasker = enter t; res = empty_result; cache = cache; world = x }

  -- oracleTasker.Run; none if the process ends, which it does without an environment
  unfoldable pub run_task : Tasker Conn → Cache → World → Option (Exit TaskResult × State d)
  unfolding enter leave fail connect run
  run_task t cache x =
      if is_empty a.cgi_env
      then none
      else some (left (◌>>=◌ d connecting (serve (now x)) (entered t cache x)))
