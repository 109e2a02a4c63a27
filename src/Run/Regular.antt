-- ===== src/Run/Regular.antt =====
-- otasker/oratasker.go: what keeps `run` from a panic: values that are there, and a database whose
-- chunks end.
use iplsgo.Prelude.{
  ◌∙◌, ℕ, ◌≡◌, refl, ap, Bool, true, false, Option, none, some, List, [], ◌∷◌, Str, bytes, ℤ, pos,
  int_Eq, ◌==◌, is_some, is_empty, if◌then◌else◌, inr,
}
use iplsgo.Gostd.{trim}
use iplsgo.Gostd.Maps.{Map}
use iplsgo.Tasker.Pages.{stepped-some, closes}
use iplsgo.Text.{add_cr}
use iplsgo.Tasker.{Error, Driver, Tasker, open_step, close_step}
use iplsgo.Tasker.Steps.{
  is_open, open_step-is_open, set_step_info-Works, close_step-Works, still_open,
}
use iplsgo.Tasker.Chunks.{
  succeeded, Looped, ended, panics, runs_on, looped, stepped, Value, got, ChunkCalls, fetch, unmade,
  fetching, get_rest_chunks, page_content, step_chunk_get_num,
}
use iplsgo.Describe.{Row, typed_rows}
use iplsgo.Params.{Cursor, Binding, Prepared}
use iplsgo.Params.Prepare.{ParamType, prepare_param, prepare_url_params}
use iplsgo.Params.Prepare as Prepare
use iplsgo.Params.Scalar.{prepare_string_param}
use iplsgo.Run.{Output, Uploaded, Arguments, Machine}
use iplsgo.Run.Rules.{is_null}
use iplsgo.Run.Body.{files_of}

abbrev pub has_ended : {A : Type 0} → Looped A → Bool
has_ended (ended a) = true
has_ended panics = false
has_ended runs_on = false

-- Every name has a value.
abbrev pub Full : {A : Type 0} → List (Str × List A) → Type 0
Full [] = Unit {0}
Full ((name, vs) ∷ rest) = (is_empty vs ≡ false) × Full rest

-- The error's code is there; with it the error's text, and without an error the rest.
abbrev pub HasText : Value ℤ → Value Str → Type 0
HasText code text = (c : ℤ) → code ≡ got c → (c == pos 0) ≡ false → is_null text ≡ false

pub record IsTyped (o : Output) : Type 0 where
  pub code : is_null o.sql_err_code ≡ false
  pub text : HasText o.sql_err_code o.sql_err
  pub rc : (c : ℤ) → o.sql_err_code ≡ got c → (c == pos 0) ≡ true → is_null o.rc ≡ false
  pub more :
      (c : ℤ) → o.sql_err_code ≡ got c → (c == pos 0) ≡ true → is_null o.next_chunk_exists ≡ false

pub record IsStored (u : Uploaded) : Type 0 where
  pub code : is_null u.sql_err_code ≡ false
  pub text : HasText u.sql_err_code u.sql_err

module _ (c : Cursor) where
  -- prepareParam panics only on a parameter without values.
  pub prepare_param-is_some :
      (name : Str) (values : List Str) (t : ParamType) (type_name proc : Str) (b : Binding c.Var)
      → is_empty values ≡ false
      → is_some (prepare_param c name values t type_name proc b) ≡ true
  unfolding prepare_param prepare_string_param
  prepare_param-is_some name [] t type_name proc b h = cc
  prepare_param-is_some name (v ∷ vs) ParamType.string type_name proc b h = refl
  prepare_param-is_some name (v ∷ vs) ParamType.number type_name proc b h = refl
  prepare_param-is_some name (v ∷ vs) ParamType.date type_name proc b h = refl
  prepare_param-is_some name (v ∷ vs) ParamType.boolean type_name proc b h = refl
  prepare_param-is_some name (v ∷ vs) ParamType.integer type_name proc b h = refl
  prepare_param-is_some name (v ∷ vs) ParamType.string_tab type_name proc b h = refl
  prepare_param-is_some name (v ∷ vs) ParamType.number_tab type_name proc b h = refl
  prepare_param-is_some name (v ∷ vs) ParamType.date_tab type_name proc b h = refl
  prepare_param-is_some name (v ∷ vs) ParamType.boolean_tab type_name proc b h = refl
  prepare_param-is_some name (v ∷ vs) ParamType.integer_tab type_name proc b h = refl
  prepare_param-is_some name (v ∷ vs) ParamType.other type_name proc b h = refl

  next-is_some :
      (o : Option (Prepared c)) (values : List Str) (ext : List (Str × Str))
      (k : Str → Binding c.Var → Option (Prepared c × List (Str × Str)))
      → is_some o ≡ true
      → is_empty values ≡ false
      → ((first : Str) (b : Binding c.Var) → is_some (k first b) ≡ true)
      → is_some (Prepare.next c o values ext k) ≡ true
  next-is_some none values ext k h e g = cc
  next-is_some (some (b, some f)) values ext k h e g = refl
  next-is_some (some (b, none)) [] ext k h e g = cc
  next-is_some (some (b, none)) (v ∷ vs) ext k h e g = g v b

  skip-is_some :
      {A : Type 0} (b : Bool) (x y : Option A)
      → is_some x ≡ true
      → is_some y ≡ true
      → is_some (if b then x else y) ≡ true
  skip-is_some true x y h g = h
  skip-is_some false x y h g = g

  -- The loop over the parameters panics only on one without values.
  pub prepare_url_params-is_some :
      (info : Str → ParamType × Str) (proc : Str) (params : List (Str × List Str))
      (ext : List (Str × Str)) (b : Binding c.Var)
      → Full params
      → is_some (prepare_url_params c info proc ext params b) ≡ true
  unfolding prepare_url_params
  prepare_url_params-is_some info proc [] ext b h = refl
  prepare_url_params-is_some info proc ((key, values) ∷ rest) ext b (h, g) =
      skip-is_some (is_empty (trim key (bytes " "))) _ _
        (prepare_url_params-is_some info proc rest ext b g)
        (next-is_some _ values ext _ (prepare_param-is_some _ values _ _ proc b h) h
          (λ first b1. prepare_url_params-is_some info proc rest _ b1 g))

module _ (d : Driver) (k : ChunkCalls d) (c : d.Conn) (stm : Str) where
  open d use {World, Conn, now}

  -- The chunks of a page end before the fuel does, and none is null.
  abbrev pub Finite : ℕ → Type 0
  Finite fuel = (content : Str) (x : World) → has_ended (fetch d k c stm fuel content x) ≡ true

  unmade-has_ended :
      (e : Error) (content : Str) (t : Tasker Conn) (x : World)
      → is_open step_chunk_get_num t ≡ true
      → has_ended (unmade d k c stm e content t x) ≡ true
  unmade-has_ended e content t x o =
      let (t4, e4, l4) = close_step-Works step_chunk_get_num (now x) t o in
      ap has_ended (stepped-some _ e4 refl)

  -- What getRestChunks goes on with, once the chunks are read.
  abbrev restored :
      Tasker Conn → Option Error × Str × World → Looped (Option Error × Str × Tasker Conn × World)
  restored t r =
      stepped (succeeded d k c stm r.0 t) (λ t3.
        stepped (close_step step_chunk_get_num (now r.2) t3) (λ t4. ended (r.0, r.1, t4, r.2)))

  restored-has_ended :
      (t : Tasker Conn) (r : Option Error × Str × World)
      → is_open step_chunk_get_num t ≡ true
      → has_ended (restored t r) ≡ true
  restored-has_ended t r o =
      let (t3, t4, e3, e4) = closes d k c stm r.0 (now r.2) t o in
      ap has_ended (stepped-some _ e3 (stepped-some _ e4 refl))

  fetched-has_ended :
      (o : Looped (Option Error × Str × World)) (t : Tasker Conn)
      → has_ended o ≡ true
      → is_open step_chunk_get_num t ≡ true
      → has_ended (looped o (restored t)) ≡ true
  fetched-has_ended (ended r) t h o = restored-has_ended t r o
  fetched-has_ended panics t h o = cc
  fetched-has_ended runs_on t h o = cc

  fetching-has_ended :
      (fuel : ℕ) (content : Str) (t : Tasker Conn) (x : World)
      → Finite fuel
      → is_open step_chunk_get_num t ≡ true
      → has_ended (fetching d k c stm fuel content t x) ≡ true
  fetching-has_ended fuel content t x h o =
      let (t2, e2, l2) = set_step_info-Works step_chunk_get_num stm stm true t o in
      ap has_ended (stepped-some _ e2 refl)
      ∙ fetched-has_ended (fetch d k c stm fuel content x) t2 (h content x)
          (still_open step_chunk_get_num t t2 l2 o)

  get_rest_chunks-has_ended :
      (fuel : ℕ) (content : Str) (t : Tasker Conn) (x : World)
      → Finite fuel
      → has_ended (get_rest_chunks d k c stm fuel content t x) ≡ true
  unfolding get_rest_chunks
  get_rest_chunks-has_ended fuel content t x h =
      let t1 = open_step step_chunk_get_num (bytes "getRestChunks") (now x) t in
      let o = open_step-is_open step_chunk_get_num (bytes "getRestChunks") (now x) t in
      elim (k.new_variables c x)
        as (λ v.
          has_ended (elim v [
            | some e ↦ unmade d k c stm e content t1 x
            | none ↦ fetching d k c stm fuel content t1 x
          ])
          ≡ true) [
            | some e ↦ unmade-has_ended e content t1 x o
            | none ↦ fetching-has_ended fuel content t1 x h o
          ]

  abbrev rest :
      Option Error × Str × Tasker Conn × World → Looped (Option Error × Str × Tasker Conn × World)
  rest r = ended r

  paged-has_ended :
      (o : Looped (Option Error × Str × Tasker Conn × World))
      → has_ended o ≡ true
      → has_ended (looped o (λ r. rest (none, r.1, r.2, r.3))) ≡ true
  paged-has_ended (ended r) h = refl
  paged-has_ended panics h = cc
  paged-has_ended runs_on h = cc

  -- Reading a page ends, unless its chunks do not end or one is null.
  pub page_content-has_ended :
      (fuel : ℕ) (text : Str) (more : Bool) (t : Tasker Conn) (x : World)
      → Finite fuel
      → has_ended (page_content d k c stm fuel text more t x) ≡ true
  unfolding page_content
  page_content-has_ended fuel text false t x h = refl
  page_content-has_ended fuel text true t x h =
      paged-has_ended (get_rest_chunks d k c stm fuel (add_cr text) t x)
        (get_rest_chunks-has_ended fuel (add_cr text) t x h)

-- What the database and the request have: replies and uploads with the values that `run` reads,
-- descriptions whose columns have their types, pages whose chunks end, and a value for every parameter and every file of the request.
pub record IsRegular (d : Driver) (c : Cursor) (m : Machine d c) (a : Arguments) : Type 0 where
  pub replies :
      (conn : d.Conn) (stm : Str) (params : Map Str c.Var) (x : d.World)
      → (m.execute conn stm params x).1 ≡ none
      → IsTyped (m.execute conn stm params x).2
  pub uploads :
      (conn : d.Conn) (stm : Str) (params : Map Str c.Var) (x : d.World)
      → (m.upload conn stm params x).1 ≡ none
      → IsStored (m.upload conn stm params x).2
  pub chunks : (conn : d.Conn) (stm : Str) → Finite d m.chunks conn stm m.fuel
  pub rows :
      (conn : d.Conn) (id : ℕ) (name : Str) (x : d.World) (cells : List (Option Row))
      → (m.describing.long conn id name x).1 ≡ inr cells
      → is_some (typed_rows cells) ≡ true
  pub files : (conn : d.Conn) → Full (files_of d c m conn a a.req_files)
  pub params : Full a.url_params
