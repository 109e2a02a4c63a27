-- ===== src/Run/Variables.antt =====
-- otasker/oratasker.go: the Oracle variables that `run` and saveFileToDB make, and what `run` shows
-- of the environment. A variable that cannot be made ends the method with the error of errV.
use iplsgo.Prelude.{
  ℕ, Option, none, some, ◌⊎◌, inl, inr, List, [], ◌∷◌, ◌++◌, map, Str, bytes, str_Eq, ltb,
  if◌then◌else◌, length,
}
use iplsgo.Gostd.Maps.{Map, lookup, insert}
use iplsgo.Text.{decimal}
use iplsgo.Tasker.{plain, Driver}
use iplsgo.Params.{
  VarType, VarCall, new_variable, new_var, new_number_var, new_list_variable, Cursor, err_v,
  sprintf, for_each,
}
use iplsgo.Run.{Machine, M, return, throw, ◌>>=◌}

-- A variable to be made: its key, its name in an error, and the call.
abbrev pub Wanted : Type 0 → Type 0
Wanted Time = Str × Str × VarCall Time

-- The length of the longest text.
abbrev pub longest : List Str → ℕ
longest [] = 0
longest (s ∷ rest) = if ltb (longest rest) (length s) then length s else longest rest

abbrev pub keys : Map Str Str → List Str
keys env = map (λ p. p.0) env

abbrev pub vals : Map Str Str → List Str
vals env = map (λ p. p.1) env

abbrev pub text_at : Option Str → Str
text_at none = []
text_at (some s) = s

-- m[key], the empty text for a key that is not there
abbrev pub env_at : Map Str Str → Str → Str
env_at env key = text_at (lookup key env)

module _ (d : Driver) (c : Cursor) (m : Machine d c) where
  open c use {Var, Time, create}

  abbrev pub made : Str → Var ⊎ c.Cause → M d Var
  made name (inl v) = return d v
  made name (inr e) = throw d (plain (m.failure_text (err_v name e)))

  abbrev pub make : Str → VarCall Time → M d Var
  make name call = made name (create call)

  unfoldable pub make_all : List (Wanted Time) → Map Str Var → M d (Map Str Var)
  make_all [] params = return d params
  make_all ((key, name, call) ∷ rest) params =
      ◌>>=◌ d (make name call) (λ v. make_all rest (insert key v params))

  -- The environment: its size, and its names and values in arrays of that size
  abbrev pub env_variables : List Str → List Str → ℕ → ℕ → List (Wanted Time)
  env_variables names values name_len value_len =
      (bytes "num_params", decimal (length names), new_number_var (length names))
      ∷ (
        bytes "param_name",
        bytes "paramName",
        new_list_variable (length names) VarType.string_var name_len names,
      )
      ∷ (
        bytes "param_val",
        bytes "paramVal",
        new_list_variable (length names) VarType.string_var value_len values,
      )
      ∷ []

  abbrev output : Str → Str → VarType → ℕ → Wanted Time
  output key name type size = (key, name, new_variable 0 type size none)

  abbrev pub error_variables : List (Wanted Time)
  error_variables =
      output (bytes "sqlerrcode") (bytes "sqlErrCode") VarType.int32_var 0
      ∷ output (bytes "sqlerrm") (bytes "sqlErrM") VarType.string_var 32767
      ∷ output (bytes "sqlerrtrace") (bytes "sqlErrTrace") VarType.string_var 32767
      ∷ []

  -- run, up to sqlParams: the variables in the order in which they are made
  unfoldable pub run_variables : Map Str Str → List (Wanted Time)
  run_variables env =
      let names = m.sort (keys env) in
      env_variables names (map (env_at env) names) (longest (keys env)) (longest (vals env))
      ++ (output (bytes "ContentType") (bytes "ContentType") VarType.string_var 1024
          ∷ output (bytes "ContentLength") (bytes "ContentLength") VarType.int32_var 0
          ∷ output (bytes "CustomHeaders") (bytes "CustomHeaders") VarType.string_var 32767
          ∷ output (bytes "rc__") (bytes "rc__") VarType.int32_var 0
          ∷ output (bytes "content__") (bytes "content__") VarType.string_var 32767
          ∷ output (bytes "bNextChunkExists") (bytes "bNextChunkExists") VarType.int32_var 0
          ∷ output (bytes "lob__") (bytes "BlobVarType") VarType.blob_var 0
          ∷ error_variables)

  -- run: what the shown statement assigns to the environment
  unfoldable pub shown_env : Map Str Str → Str
  shown_env env =
      let names = m.sort (keys env) in
      sprintf (bytes "  l_num_params := " ∷ decimal (length env) ∷ bytes ";\n" ∷ [])
      ++ for_each
          (λ i key. sprintf (
            bytes "  l_param_name("
            ∷ decimal i
            ∷ bytes ") := '"
            ∷ key
            ∷ bytes "';\n  l_param_val("
            ∷ decimal i
            ∷ bytes ") := '"
            ∷ env_at env key
            ∷ bytes "';\n"
            ∷ []))
          0 names

  abbrev pub first_of : List Str → Str
  first_of [] = []
  first_of (v ∷ vs) = v

  abbrev pub url_value : Map Str (List Str) → Str → Str
  url_value params key = elim (lookup key params) [ none ↦ [] | some vs ↦ first_of vs ]

  abbrev text : Str → Str → Wanted Time
  text key value = (key, value, new_var value)

  -- saveFileToDB: the variables in the order in which they are made
  unfoldable pub upload_variables :
      Map Str Str → Map Str (List Str) → Str → Str → Str → Str → List (Wanted Time)
  upload_variables env params name item mime content =
      env_variables (keys env) (vals env) (longest (keys env)) (longest (vals env))
      ++ (text (bytes "name") name
          ∷ text (bytes "mime_type") mime
          ∷ text (bytes "content_type") mime
          ∷ (bytes "doc_size", decimal (length content), new_number_var (length content))
          ∷ (
            bytes "lob",
            bytes "lob",
            new_variable 0 VarType.blob_var (length content) (some content),
          )
          ∷ text (bytes "item_id") item
          ∷ text (bytes "application_id") (url_value params (bytes "p_flow_id"))
          ∷ text (bytes "page_id") (url_value params (bytes "p_flow_step_id"))
          ∷ text (bytes "session_id") (url_value params (bytes "p_instance"))
          ∷ text (bytes "request") (url_value params (bytes "p_request"))
          ∷ text (bytes "ret_name") []
          ∷ error_variables)
