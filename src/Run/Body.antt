-- ===== src/Run/Body.antt =====
-- otasker/oratasker.go: `run`, which describes the procedure, stores the uploaded files, prepares
-- the parameters, executes the main statement and reads what it leaves.
use iplsgo.Prelude.{
  ℕ, Bool, true, false, Option, none, some, List, [], ◌∷◌, ◌++◌, map, length, Str, bytes, str_Eq,
}
use iplsgo.Gostd.{split, join}
use iplsgo.Gostd.Maps.{Map, insert}
use iplsgo.Tasker.{Error, plain, Driver}
use iplsgo.Describe.{Cache, Missing, describe, procedure_info, info_of}
use iplsgo.Params.{
  VarType, new_variable, new_array_var, new_number_var, Cursor, Binding, sprintf, Prepared,
}
use iplsgo.Params.Scalar.{prepare_string_param}
use iplsgo.Params.Prepare.{ParamType, prepare_param, prepare_url_params, ext_params}
use iplsgo.Run.{
  FileHeader, Output, Arguments, Machine, M, ok, panicked, format, return, throw, panic, ◌>>=◌,
  ◌>>◌, open_at, close_at, note_at, deferring,
}
use iplsgo.Run.Variables.{make, make_all, run_variables, shown_env, longest, env_at}
use iplsgo.Run.Upload.{save_file}
use iplsgo.Run.Reply.{step_run_num, read_reply}

abbrev pub step_describe_num : ℕ
step_describe_num = 2

-- The values of the context: names and first values.
abbrev pub Ext : Type 0
Ext = List (Str × Str)

abbrev pub init_params : Str
init_params = sprintf (
    bytes "\n  l_num_params := :num_params;\n"
    ∷ bytes "  l_param_name := :param_name;\n"
    ∷ bytes "  l_param_val := :param_val;\n"
    ∷ bytes "  l_num_ext_params := :num_ext_params;\n"
    ∷ bytes "  l_ext_param_name := :ext_param_name;\n"
    ∷ bytes "  l_ext_param_val := :ext_param_val;\n"
    ∷ bytes "  l_package_name := :package_name;\n"
    ∷ [])

module _ (d : Driver) (c : Cursor) (m : Machine d c) (conn : d.Conn) (a : Arguments) where
  open c use {Var, to_upper}

  -- An error of prepareParam, or its panic on a parameter without values
  abbrev pub prepared : Option (Prepared c) → M d (Binding Var)
  prepared none = panic d
  prepared (some (b, none)) = return d b
  prepared (some (b, some f)) = throw d (plain (m.failure_text f))

  abbrev pub described : Option (Option Error × Cache × d.World) → M d (Option Error)
  described none s = (panicked, s)
  described (some (e, cache, x)) s = (ok e, record s { cache = cache; world = x })

  abbrev pub call_describe : M d (Option Error)
  call_describe s =
      described
        (describe to_upper d m.describing conn s.tasker.conn_str a.proc_name s.cache s.world) s

  abbrev pub is_none : Option Error → Bool
  is_none none = true
  is_none (some e) = false

  abbrev pub raise : Option Error → M d (Unit {0})
  raise none = return d tt
  raise (some e) = throw d e

  abbrev pub describe_stm : Str
  describe_stm = bytes "describe procedure \"" ++ (a.proc_name ++ bytes "\"")

  abbrev pub noted_describe : M d (Unit {0})
  noted_describe =
      ◌>>=◌ d call_describe
        (λ e. ◌>>◌ d (note_at d step_describe_num describe_stm describe_stm (is_none e)) (raise e))

  unfoldable pub describe_step : M d (Unit {0})
  unfolding open_at close_at note_at deferring describe
  describe_step =
      ◌>>◌ d (open_at d step_describe_num (bytes "Describe"))
        (deferring d (close_at d step_describe_num) noted_describe)

  -- What ArgumentInfo says of a parameter.
  abbrev pub asked : Str → M d (ParamType × Str)
  asked name s = (ok (info_of to_upper s.tasker.conn_str a.proc_name s.cache name), s)

  abbrev pub first_name : List Str → M d Str
  first_name [] = panic d
  first_name (n ∷ ns) = return d n

  -- The loop over the files of the form.
  unfoldable pub prepare_files :
      Map Str Str → List (Str × List FileHeader) → Ext → Binding Var → M d (Binding Var × Ext)
  unfolding save_file prepare_param info_of
  prepare_files env [] ext b = return d (b, ext)
  prepare_files env ((name, headers) ∷ rest) ext b =
      ◌>>=◌ d (save_file d c m conn a env headers) (λ names. ◌>>=◌ d (asked name) (λ info.
        ◌>>=◌ d (prepared (prepare_param c name names info.0 info.1 a.param_store_proc b)) (λ b1.
          ◌>>=◌ d (first_name names)
            (λ first. prepare_files env rest (ext ++ (name, first) ∷ []) b1))))

  abbrev pub files_of : Option (Map Str (List FileHeader)) → List (Str × List FileHeader)
  files_of none = []
  files_of (some files) = files

  abbrev pub looped : Option (Prepared c × Ext) → M d (Binding Var × Ext)
  looped none = panic d
  looped (some ((b, none), ext)) = return d (b, ext)
  looped (some ((b, some f), ext)) = throw d (plain (m.failure_text f))

  -- The loop over the parameters of the request.
  abbrev pub prepare_url : Binding Var → M d (Binding Var × Ext)
  prepare_url b s =
      looped
        (prepare_url_params c (info_of to_upper s.tasker.conn_str a.proc_name s.cache)
          a.param_store_proc [] a.url_params b)
        s

  abbrev pub with_package : Str → Binding Var → M d (Binding Var)
  with_package name b =
      ◌>>=◌ d (make d c m (bytes "package_name") (new_variable 0 VarType.string_var 80 (some name)))
        (λ v. return d (record b { params = insert (bytes "package_name") v b.params }))

  abbrev pub package_of : (Option ℕ × Str) × Option Missing → M d Str
  package_of (h, none) = return d h.1
  package_of (h, some e) = throw d (plain (m.missing_text e))

  abbrev pub asked_package : M d Str
  asked_package s = package_of (procedure_info to_upper s.tasker.conn_str a.proc_name s.cache) s

  -- What is left to bind for the context: the names, by the longest name of the request alone, and
  -- the values.
  abbrev pub with_ext : Ext → Ext → Binding Var → M d (Binding Var)
  with_ext file_ext url_ext b =
      let ext = file_ext ++ url_ext in
      let names = map (λ p. p.0) ext in
      let values = map (λ p. p.1) ext in
      ◌>>=◌ d
        (make_all d c m
          ((
            bytes "ext_param_name",
            bytes "ext_param_name",
            new_array_var VarType.string_var names (longest (map (λ p. p.0) url_ext)),
          )
            ∷ (
              bytes "ext_param_val",
              bytes "ext_param_val",
              new_array_var VarType.string_var values (longest values),
            )
            ∷ (bytes "num_ext_params", bytes "num_ext_params", new_number_var (length ext))
            ∷ [])
          b.params)
        (λ params. return d (record b { params = params }))

  -- A procedure, with the files and the parameters of the request
  abbrev pub prepare_call : Map Str Str → Binding Var → M d (Binding Var × Ext × Ext)
  prepare_call env b = ◌>>=◌ d (prepare_files env (files_of a.req_files) [] b) (λ r.
      ◌>>=◌ d (prepare_url r.0) (λ q.
        ◌>>=◌ d asked_package
          (λ name. ◌>>=◌ d (with_package name q.0) (λ b1. return d (b1, r.1, q.1)))))

  abbrev pub string_param : Str → Str → Binding Var → M d (Binding Var)
  string_param name value b =
      prepared (prepare_string_param c name (value ∷ []) (bytes "varchar2") [] b)

  -- A resource: its module, the method of the request and the rest of the path
  abbrev pub prepare_resource :
      Map Str Str → Str → Str → List Str → Binding Var → M d (Binding Var × Ext × Ext)
  prepare_resource env first second rest b =
      ◌>>=◌ d (string_param (bytes "amodule") (first ++ (bytes "/" ++ (second ++ bytes "/"))) b)
        (λ b1.
          ◌>>=◌ d (string_param (bytes "amethod") (env_at env (bytes "REQUEST_METHOD")) b1) (λ b2.
            ◌>>=◌ d (string_param (bytes "aurl") (join rest (bytes "/")) b2)
              (λ b3. ◌>>=◌ d (with_package [] b3) (λ b4. return d (b4, [], [])))))

  -- The statements to execute and to show
  abbrev pub exec_stm : Str → Str → Ext → Binding Var → Str
  exec_stm stm_main proc ext b = format stm_main (
      []
      ∷ (init_params ++ ext_params c ext)
      ∷ a.before_script
      ∷ b.exec_store
      ∷ proc
      ∷ b.exec_proc
      ∷ a.after_script
      ∷ [])

  abbrev pub show_stm : Str → Str → Ext → Binding Var → Str
  show_stm stm_main proc ext b = format stm_main (
      b.show_declare
      ∷ (b.show_set ++ ext_params c ext)
      ∷ a.before_script
      ∷ b.show_store
      ∷ proc
      ∷ b.show_proc
      ∷ a.after_script
      ∷ [])

  abbrev pub replied : Str → Str → Option Error → Output → M d (Unit {0})
  replied stm show (some e) o = throw d e
  replied stm show none o = read_reply d c m conn stm show o

  abbrev pub call_execute : Str → Str → Map Str Var → M d (Unit {0})
  call_execute stm show params s =
      let (x, e, o) = m.execute conn stm params s.world in
      replied stm show e o (record s { world = x })

  abbrev pub execute_main : Str → Ext → Binding Var → M d (Unit {0})
  execute_main proc ext b s =
      let stm = exec_stm s.tasker.statements.stm_main proc ext b in
      let show = show_stm s.tasker.statements.stm_main proc ext b in
      ◌>>◌ d (note_at d step_run_num stm show false) (call_execute stm show b.params) s

  abbrev pub started : Map Str Str → Map Str Var → Binding Var
  started env params = record {
    params = params;
    show_declare = [];
    show_set = shown_env d c m env;
    exec_proc = [];
    show_proc = [];
    exec_store = [];
    show_store = [];
  }

  -- run, from openStep(stepRunNum) on
  abbrev pub run_step :
      Str → Map Str Str → (Binding Var → M d (Binding Var × Ext × Ext)) → M d (Unit {0})
  run_step proc env prepare = ◌>>=◌ d (make_all d c m (run_variables d c m env) []) (λ params.
      ◌>>=◌ d (prepare (started env params))
        (λ r. ◌>>=◌ d (with_ext r.1 r.2 r.0) (λ b. execute_main proc (r.1 ++ r.2) b)))

  abbrev pub in_run_step : M d (Unit {0}) → M d (Unit {0})
  in_run_step f =
      ◌>>◌ d (open_at d step_run_num (bytes "run")) (deferring d (close_at d step_run_num) f)

  abbrev pub run_parts : List Str → M d (Unit {0})
  run_parts (first ∷ second ∷ rest) =
      let env = insert (bytes "X-APEX-BASE") (bytes "/" ++ first) a.cgi_env in
      in_run_step (run_step (bytes "get_resource") env (prepare_resource env first second rest))
  run_parts parts =
      ◌>>◌ d describe_step (in_run_step (run_step a.proc_name a.cgi_env (prepare_call a.cgi_env)))

  -- run
  unfoldable pub run : M d (Unit {0})
  unfolding describe_step prepare_files prepare_url_params prepare_string_param make_all
      run_variables shown_env ext_params read_reply open_at close_at note_at deferring split join
      procedure_info info_of
  run = run_parts (split a.proc_name (bytes "/"))
