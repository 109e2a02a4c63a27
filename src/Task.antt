-- ===== src/Task.antt =====
-- What a request hands to a worker and what comes back: the types `work` (otasker/worker.go),
-- `OracleTaskResult` and the status codes (otasker/oratasker.go).
use iplsgo.Prelude.{ℕ, Option, List, [], Str}
use iplsgo.Gostd.Maps.{Map}

pub record TaskResult : Type 0 where
  pub status_code : ℕ
  pub content_type : Str
  pub headers : Map Str (List Str)
  pub content : Str
  pub duration : ℕ

-- `OracleTaskResult{}`
abbrev pub empty_result : TaskResult
empty_result = record {
  status_code = 0;
  content_type = [];
  headers = [];
  content = [];
  duration = 0;
}

abbrev pub status_error_page : ℕ
status_error_page = 561

abbrev pub status_wait_page : ℕ
status_wait_page = 562

abbrev pub status_break_page : ℕ
status_break_page = 563

abbrev pub status_request_was_interrupted : ℕ
status_request_was_interrupted = 564

abbrev pub status_invalid_username_or_password : ℕ
status_invalid_username_or_password = 565

abbrev pub status_insufficient_privileges : ℕ
status_insufficient_privileges = 566

abbrev pub status_account_is_locked : ℕ
status_account_is_locked = 567

-- ClassicTasker, ApexTasker, EkbTasker
pub data TaskerType : Type 0 where
  classic apex ekb : TaskerType

-- The multipart form is a pointer, which a worker only passes on.
pub record Work : Type 0 where
  pub session_id : Str
  pub task_id : Str
  pub req_user_name : Str
  pub req_user_pass : Str
  pub req_conn_str : Str
  pub req_param_store_proc : Str
  pub req_before_script : Str
  pub req_after_script : Str
  pub req_document_table : Str
  pub req_cgi_env : Map Str Str
  pub req_proc : Str
  pub req_params : Map Str (List Str)
  pub req_files : Option ℕ
  pub dump_file_name : Str

-- The arguments of `Run`.
pub record Request : Type 0 where
  pub path : Str
  pub type_tasker : TaskerType
  pub work : Work
