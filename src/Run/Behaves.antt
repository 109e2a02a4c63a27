-- ===== src/Run/Behaves.antt =====
-- otasker/oratasker.go: `run`, on every path, changes nothing of the tasker but the log of its
-- steps, and does not panic where the database and the request are regular.
pub mod Values
pub mod Upload
pub mod Reply
pub mod Prepare
use iplsgo.Prelude.{
  ℕ, ◌≡◌, refl, Bool, true, false, Option, none, some, ◌⊎◌, inl, inr, List, [], ◌∷◌, ◌++◌, Str,
  bytes, ℤ, pos, int_Eq, str_Eq, ◌==◌, if◌then◌else◌, is_empty,
}
use iplsgo.Gostd.{split}
use iplsgo.Gostd.Maps.{Map}
use iplsgo.Http.{Header}
use iplsgo.Text.{add_cr}
use iplsgo.Params.Prepare.{prepare_param}
use iplsgo.Tasker.{Error, ora, Driver, Tasker}
use iplsgo.Tasker.Steps.{Logged}
use iplsgo.Tasker.Chunks.{Value, got, null, failed, page_content}
use iplsgo.Describe.{Missing, procedure_info}
use iplsgo.Params.{Cursor, Binding, Prepared}
use iplsgo.Run.{
  FileHeader, Uploaded, Output, format, Lob, failed_lob, not_lob, no_lob, empty_lob, lob, Arguments,
  Machine, State, M, Exit, return, throw, panic, typed, ◌>>=◌, ◌>>◌,
}
use iplsgo.Run.Variables.{Wanted, made, make, make_all}
use iplsgo.Run.Upload.{
  reported, stored_name, after_upload, call_upload, upload_with, save_file_to_db, save_content,
  save_one, save_file, step_save_file_to_db_num,
}
use iplsgo.Run.Reply.{
  set_type, set_headers, settle_type, detect, set_content, paged, read_page, fix_page, text_reply,
  lob_content, lob_reply, content_reply, html, finish_reply, text_or_empty, read_reply,
  step_run_num,
}
use iplsgo.Run.Body.{
  Ext, describe_stm, is_none, asked, asked_package, step_describe_num, exec_stm, show_stm, prepared,
  call_describe, raise, noted_describe, describe_step, first_name, prepare_files, looped,
  prepare_url, with_package, package_of, with_ext, prepare_call, string_param, prepare_resource,
  replied, call_execute, execute_main, run_step, in_run_step, run_parts, run,
}
use iplsgo.Prelude.{is_some, arith}
use iplsgo.Describe.{info_of}
use iplsgo.Params.Prepare.{prepare_url_params}
use iplsgo.Run.Body.{files_of}
use iplsgo.Run.{note_at}
use iplsgo.Params.Scalar.{prepare_string_param}
use iplsgo.Run.Rules.{
  Behaves, bind-Behaves, then-Behaves, known-Behaves, same-Behaves, return-Behaves, throw-Behaves,
  panic-Behaves, note_at-Behaves, step-Behaves, weaken,
}
use iplsgo.Run.Regular.{IsTyped, IsRegular, Full, prepare_param-is_some, prepare_url_params-is_some}
use iplsgo.Run.Behaves.Values.{made-Behaves, make_all-Behaves}
use iplsgo.Run.Behaves.Upload.{save_file-Behaves, save_file-known}
use iplsgo.Run.Behaves.Reply.{read_reply-Behaves}
use iplsgo.Run.Rules.{is_cut}
use iplsgo.Run.Behaves.Prepare.{
  Regular, describe_step-Behaves, with_ext-Behaves, prepare_call-Behaves, prepare_resource-Behaves,
}

module _ (d : Driver) (c : Cursor) (m : Machine d c) (conn : d.Conn) (a : Arguments) where
  open c use {Var, Time}

  replied-Behaves :
      (stm show : Str) (e : Option Error) (o : Output)
      → (Regular d c m conn a → e ≡ none → IsTyped o)
      → Behaves d (Regular d c m conn a) (some step_run_num) (replied d c m conn a stm show e o)
  replied-Behaves stm show none o h =
      read_reply-Behaves d c m conn stm show o (λ x. x.chunks conn) (λ x. h x refl)
  replied-Behaves stm show (some e) o h = throw-Behaves d e

  call_execute-Behaves :
      (stm show : Str) (params : Map Str Var)
      → Behaves d
          (Regular d c m conn a)
          (some step_run_num)
          (call_execute d c m conn a stm show params)
  call_execute-Behaves stm show params =
      let after : (s : State d)
          → Behaves d (Regular d c m conn a) (some step_run_num) (
              replied d c m conn a stm show (m.execute conn stm params s.world).1
                (m.execute conn stm params s.world).2) =
        λ s.
          replied-Behaves stm show (m.execute conn stm params s.world).1
            (m.execute conn stm params s.world).2 (λ x. x.replies conn stm params s.world) in
      record {
        logs = λ s. (after s).logs (record s { world = (m.execute conn stm params s.world).0 });
        calm = λ x s. (after s).calm x (record s { world = (m.execute conn stm params s.world).0 });
      }

  execute_main-Behaves :
      (proc : Str) (ext : Ext) (b : Binding Var)
      → Behaves d (Regular d c m conn a) (some step_run_num) (execute_main d c m conn a proc ext b)
  execute_main-Behaves proc ext b =
      let at : (stm show : Str)
          → Behaves d (Regular d c m conn a) (some step_run_num) (
              ◌>>◌ d (note_at d step_run_num stm show false)
                (call_execute d c m conn a stm show b.params)) =
        λ stm show.
          then-Behaves d (note_at-Behaves d step_run_num stm show false)
            (call_execute-Behaves stm show b.params) in
      let stm : State d → Str =
        λ s. exec_stm d c m conn a s.tasker.statements.stm_main proc ext b in
      let show : State d → Str =
        λ s. show_stm d c m conn a s.tasker.statements.stm_main proc ext b in
      record {
        logs = λ s. (at (stm s) (show s)).logs s;
        calm = λ x s. (at (stm s) (show s)).calm x s;
      }

  run_step-Behaves :
      (proc : Str) (env : Map Str Str) (prepare : Binding Var → M d (Binding Var × Ext × Ext))
      → ((b : Binding Var) → Behaves d (Regular d c m conn a) (some step_run_num) (prepare b))
      → Behaves d
          (Regular d c m conn a)
          (some step_run_num)
          (run_step d c m conn a proc env prepare)
  run_step-Behaves proc env prepare p = bind-Behaves d (make_all-Behaves d c m _ []) (λ params.
      bind-Behaves d (p _) (λ r.
        bind-Behaves d (with_ext-Behaves d c m conn a r.1 r.2 r.0)
          (λ b. execute_main-Behaves proc _ b)))

  in_run_step-Behaves :
      {k : Option ℕ} {f : M d (Unit {0})}
      → Behaves d (Regular d c m conn a) (some step_run_num) f
      → Behaves d (Regular d c m conn a) k (in_run_step d c m conn a f)
  in_run_step-Behaves p = step-Behaves d step_run_num (bytes "run") p

  described_run-Behaves :
      {k : Option ℕ}
      → Behaves d (Regular d c m conn a) k (
          ◌>>◌ d (describe_step d c m conn a) (
            in_run_step d c m conn a
              (run_step d c m conn a a.proc_name a.cgi_env (prepare_call d c m conn a a.cgi_env))))
  described_run-Behaves =
      then-Behaves d (describe_step-Behaves d c m conn a)
        (in_run_step-Behaves (run_step-Behaves _ _ _ (prepare_call-Behaves d c m conn a a.cgi_env)))

  run_parts-Behaves :
      {k : Option ℕ} (parts : List Str)
      → Behaves d (Regular d c m conn a) k (run_parts d c m conn a parts)
  run_parts-Behaves [] = described_run-Behaves
  run_parts-Behaves (first ∷ []) = described_run-Behaves
  run_parts-Behaves (first ∷ second ∷ rest) =
      in_run_step-Behaves
        (run_step-Behaves _ _ _ (prepare_resource-Behaves d c m conn a _ first second rest))

  pub run-Behaves : {k : Option ℕ} → Behaves d (Regular d c m conn a) k (run d c m conn a)
  unfolding run
  run-Behaves = run_parts-Behaves (split a.proc_name (bytes "/"))

  -- Whatever comes of it, `run` leaves the tasker's connection, its counters and its other fields as
  -- they were, and every step of the log in it.
  pub run-Logged : (s : State d) → Logged s.tasker (run d c m conn a s).1.tasker
  run-Logged s = (run-Behaves {k = none}).logs s
