-- ===== src/Tasker.antt =====
-- otasker/oratasker.go: a tasker's database connection, its session and the log of its steps. The
-- Oracle driver (goracle) is a parameter over the state of the outer world, which holds the clock
-- too. `none` stands for a panic, such as a step that is not in the log.
pub mod Errors
pub mod Chunks
pub mod Pages
pub mod Steps
pub mod Connection
pub mod Disconnect
pub mod Session
pub mod Logon
pub mod Connect
mod Tests
use iplsgo.Prelude.{
  ℕ, suc, Bool, true, false, not, ◌||◌, Option, none, some, List, [], ◌∷◌, ◌++◌, Str, ℤ, bytes,
  ◌==◌, nat_eq, str_Eq, if◌then◌else◌, ltb, is_empty,
}
use iplsgo.Gostd.Maps.{Map, lookup, insert}
use iplsgo.Text.{decimal}

-- `error`: an *oracle.Error with its code and text, an *errgo.Err around another error, any other
-- with its text
pub data Error : Type 0 where
  ora : ℤ → Str → Error
  masked : Error → Error
  plain : Str → Error

-- `stepFn` is the zero time until the step is closed.
pub record Step : Type 0 where
  pub step_id : ℕ
  pub step_name : Str
  pub step_bg : ℕ
  pub step_fn : Option ℕ
  pub step_stm : Str
  pub step_stm_for_showing : Str
  pub step_success : Bool

pub record Driver : Type 1 where
  pub World : Type 0
  pub Conn : Type 0
  pub now : World → ℕ
  -- NewConnection: the connection is there, but not connected, after a failed logon.
  pub new_connection : Str → Str → Str → World → World × Option Conn × Option Error
  pub is_connected : Conn → World → Bool
  pub close : Conn → World → World × Option Error
  pub free : Conn → World → World
  -- Execute and FetchOne: the first column of the row, if it is a text
  pub query_text : Conn → Str → World → World × Option Error × Option Str
  -- Execute of the statement that kills a session: the value of `ret` and the message
  pub kill : Conn → Str → Str → World → World × Option Error × ℕ × Str

-- The statements of a kind of tasker; the program's texts are data here.
pub record Statements : Type 0 where
  pub stm_eval_session_id : Str
  pub stm_main : Str
  pub stm_get_rest_chunk : Str
  pub stm_kill_session : Str
  pub stm_file_upload : Str

abbrev pub step_connect_num : ℕ
step_connect_num = 0

abbrev pub step_eval_sid : ℕ
step_eval_sid = 1

abbrev pub step_disconnect_num : ℕ
step_disconnect_num = 6

pub record Tasker (Conn : Type 0) : Type 0 where
  pub conn : Option Conn
  pub conn_user_name : Str
  pub conn_user_pass : Str
  pub conn_str : Str
  pub sess_id : Str
  pub log_request_proceeded : ℕ
  pub log_errors_num : ℕ
  pub log_session_id : Str
  pub log_task_id : Str
  pub log_user_name : Str
  pub log_user_pass : Str
  pub log_conn_str : Str
  pub log_proc_name : Str
  pub log_steps : Map ℕ Step
  pub state_is_working : Bool
  pub state_create_dt : ℕ
  pub state_last_finish_dt : Option ℕ
  pub statements : Statements

-- fmt's %03d
pad_three : Str → Str
pad_three (a ∷ b ∷ c ∷ rest) = a ∷ b ∷ c ∷ rest
pad_three (a ∷ b ∷ []) = 48 ∷ a ∷ b ∷ []
pad_three (a ∷ []) = 48 ∷ 48 ∷ a ∷ []
pad_three [] = 48 ∷ 48 ∷ 48 ∷ []

module _ {Conn : Type 0} where
  -- newTasker
  unfoldable pub new_tasker : Statements → ℕ → Tasker Conn
  new_tasker stms now = record {
    conn = none;
    conn_user_name = [];
    conn_user_pass = [];
    conn_str = [];
    sess_id = [];
    log_request_proceeded = 0;
    log_errors_num = 0;
    log_session_id = [];
    log_task_id = [];
    log_user_name = [];
    log_user_pass = [];
    log_conn_str = [];
    log_proc_name = [];
    log_steps = [];
    state_is_working = false;
    state_create_dt = now;
    state_last_finish_dt = none;
    statements = stms;
  }

  -- initLog; the steps go back to the pool.
  unfoldable pub init_log : Tasker Conn → Tasker Conn
  init_log t = record t {
    log_session_id = [];
    log_task_id = [];
    log_user_name = [];
    log_user_pass = [];
    log_conn_str = [];
    log_proc_name = [];
    log_steps = [];
  }

  -- openStep; what the pool gives has an empty `stepStmForShowning`.
  unfoldable pub open_step : ℕ → Str → ℕ → Tasker Conn → Tasker Conn
  unfolding pad_three decimal
  open_step num type now t = record t {
    log_steps =
        insert num
          (record {
            step_id = num;
            step_name = pad_three (decimal num) ++ (bytes " - " ++ type);
            step_bg = now;
            step_fn = none;
            step_stm = [];
            step_stm_for_showing = [];
            step_success = false;
          })
          t.log_steps;
  }

  -- closeStep
  unfoldable pub close_step : ℕ → ℕ → Tasker Conn → Option (Tasker Conn)
  close_step num now t = elim (lookup num t.log_steps) [
    | none ↦ none
    | some s ↦
        some (record t { log_steps = insert num (record s { step_fn = some now }) t.log_steps })
  ]

  -- setStepInfo
  unfoldable pub set_step_info : ℕ → Str → Str → Bool → Tasker Conn → Option (Tasker Conn)
  set_step_info num stm stm_show success t = elim (lookup num t.log_steps) [
    | none ↦ none
    | some s ↦ some (record t {
      log_steps =
          insert num
            (record s { step_stm = stm; step_stm_for_showing = stm_show; step_success = success })
            t.log_steps;
    })
  ]

-- The step with the largest number.
last_entry : Map ℕ Step → Option (ℕ × Step)
last_entry [] = none
last_entry ((k, s) ∷ m) = elim (last_entry m) [
  | none ↦ some (k, s)
  | some (l, t) ↦ if ltb l k then some (k, s) else some (l, t)
]

-- lastStms
unfoldable pub last_stms : {Conn : Type 0} → Tasker Conn → Str × Str
unfolding last_entry
last_stms t = elim (last_entry t.log_steps) [
  | none ↦ ([], [])
  | some (k, s) ↦ (s.step_stm, s.step_stm_for_showing)
]
