-- ===== src/Run.antt =====
-- otasker/oratasker.go: oracleTasker.Run. A method has the tasker, the result that it fills in, the
-- cache of descriptions and the outer world as its state, and ends well, with an error, or with a
-- panic, in which its deferred calls are still made; or it does not end.
pub mod Variables
pub mod Upload
pub mod Reply
pub mod Body
pub mod Request
pub mod Frames
pub mod Rules
pub mod Regular
pub mod Counts
pub mod Behaves
pub mod Settled
pub mod Outcome
mod Tests
use iplsgo.Prelude.{
  ℕ, ◌≡◌, Bool, true, false, Option, none, some, ◌⊎◌, inl, inr, List, [], ◌∷◌, ◌++◌, Str, bytes, ℤ,
  str_Eq, ◌==◌, ◌&&◌, if◌then◌else◌, eqb,
}
use iplsgo.Gostd.Maps.{Map}
use iplsgo.Http.{Header}
use iplsgo.Task.{TaskResult}
use iplsgo.Tasker.{Error, plain, Driver, Tasker, open_step, close_step, set_step_info}
use iplsgo.Tasker.Chunks.{Value, ChunkCalls}
use iplsgo.Describe.{Cache, DescribeCalls, Missing}
use iplsgo.Crutches.Headers.{Mime}
use iplsgo.Params.{Cursor, Failure}

-- The connection's large object, of a size that is not zero, or the error of reading it
pub data Lob : Type 0 where
  failed_lob : Error → Lob
  not_lob : Str → Lob
  no_lob : Lob
  empty_lob : Lob
  lob : Str ⊎ Error → Lob

-- The variables after the main statement. `sql_err` is the text that NewErrorAt makes of two of
-- them. A null is `null`, of ContentType and CustomHeaders too.
pub record Output : Type 0 where
  pub sql_err_code : Value ℤ
  pub sql_err : Value Str
  pub content_type : Value Str
  pub custom_headers : Value Str
  pub rc : Value ℤ
  pub content : Value Str
  pub next_chunk_exists : Value Bool
  pub data_lob : Lob

-- The variables after the statement that stores a file.
pub record Uploaded : Type 0 where
  pub sql_err_code : Value ℤ
  pub sql_err : Value Str
  pub ret_name : Value Str

-- A file of the form: a header that is none was made of a parameter's value. `content` is what Open
-- and ReadAll give.
pub record FileHeader : Type 0 where
  pub filename : Str
  pub header : Option Header
  pub last_arg : Str
  pub content : Str ⊎ Error

-- The arguments of Run.
pub record Arguments : Type 0 where
  pub session_id : Str
  pub task_id : Str
  pub user_name : Str
  pub user_pass : Str
  pub conn_str : Str
  pub param_store_proc : Str
  pub before_script : Str
  pub after_script : Str
  pub document_table : Str
  pub cgi_env : Map Str Str
  pub proc_name : Str
  pub url_params : Map Str (List Str)
  pub req_files : Option (Map Str (List FileHeader))
  pub dump_error_file_name : Str

-- `n` is the fuel of getRestChunks. `sort` is sort.Strings, `failure_text` and
-- `missing_text` are what errV and errgo.Newf print, and `rfc1123z` prints a time.
pub record Machine (d : Driver) (c : Cursor) : Type 0 where
  pub describing : DescribeCalls c.to_upper d
  pub chunks : ChunkCalls d
  pub execute : d.Conn → Str → Map Str c.Var → d.World → d.World × Option Error × Output
  pub upload : d.Conn → Str → Map Str c.Var → d.World → d.World × Option Error × Uploaded
  pub write_file : Str → Str → d.World → d.World
  pub failure_text : Failure c.Cause → Str
  pub missing_text : Missing → Str
  pub rfc1123z : ℕ → Str
  pub sort : List Str → List Str
  pub mime : Mime
  pub fuel : ℕ

pub data Exit (A : Type 0) : Type 0 where
  ok : A → Exit A
  err : Error → Exit A
  panicked : Exit A
  running : Exit A

-- fmt.Sprintf of a format whose only verb is %s
unfoldable pub format : Str → List Str → Str
format [] args = []
format (x ∷ []) args = x ∷ []
format (x ∷ y ∷ rest) [] = x ∷ format (y ∷ rest) []
format (x ∷ y ∷ rest) (a ∷ args) =
    let hit = a ++ format rest args in
    let miss = x ∷ format (y ∷ rest) (a ∷ args) in if eqb x b'%' && eqb y b's' then hit else miss

module _ (d : Driver) where
  open d use {World, Conn, now}

  pub record State : Type 0 where
    pub tasker : Tasker Conn
    pub res : TaskResult
    pub cache : Cache
    pub world : World

  abbrev pub M : Type 0 → Type 0
  M A = State → Exit A × State

  abbrev pub next : {A B : Type 0} → Exit A × State → (A → M B) → Exit B × State
  next (ok a, s) f = f a s
  next (err e, s) f = (err e, s)
  next (panicked, s) f = (panicked, s)
  next (running, s) f = (running, s)

  infixl 5 ◌>>=◌ ◌>>◌
  abbrev pub ◌>>=◌ : {A B : Type 0} → M A → (A → M B) → M B
  ◌>>=◌ m f s = next (m s) f

  abbrev pub ◌>>◌ : {B : Type 0} → M (Unit {0}) → M B → M B
  ◌>>◌ m k s = next (m s) (λ _. k)

  abbrev pub return : {A : Type 0} → A → M A
  return a s = (ok a, s)

  abbrev pub throw : {A : Type 0} → Error → M A
  throw e s = (err e, s)

  abbrev pub panic : {A : Type 0} → M A
  panic s = (panicked, s)

  -- A change of the tasker's log that panics at a step that is not in it.
  abbrev pub logged : State → Option (Tasker Conn) → Exit (Unit {0}) × State
  logged s none = (panicked, s)
  logged s (some t) = (ok tt, record s { tasker = t })

  unfoldable pub open_at : ℕ → Str → M (Unit {0})
  unfolding open_step
  open_at num name s = (ok tt, record s { tasker = open_step num name (now s.world) s.tasker })

  unfoldable pub close_at : ℕ → M (Unit {0})
  unfolding close_step
  close_at num s = logged s (close_step num (now s.world) s.tasker)

  unfoldable pub note_at : ℕ → Str → Str → Bool → M (Unit {0})
  unfolding set_step_info
  note_at num stm show success s = logged s (set_step_info num stm show success s.tasker)

  -- What follows a deferred call that ended so.
  abbrev pub after_deferred : {A : Type 0} → Exit A → Exit (Unit {0}) × State → Exit A × State
  after_deferred r (ok u, s) = (r, s)
  after_deferred r (err e, s) = (r, s)
  after_deferred r (panicked, s) = (panicked, s)
  after_deferred r (running, s) = (running, s)

  -- A method that runs on does not come to its deferred call.
  abbrev pub closing : {A : Type 0} → M (Unit {0}) → Exit A × State → Exit A × State
  closing f (running, s) = (running, s)
  closing f (ok a, s) = after_deferred (ok a) (f s)
  closing f (err e, s) = after_deferred (err e) (f s)
  closing f (panicked, s) = after_deferred panicked (f s)

  -- defer f(); m
  unfoldable pub deferring : {A : Type 0} → M (Unit {0}) → M A → M A
  deferring f m s = closing f (m s)

  -- The value of a variable, where a null panics on the type assertion.
  abbrev pub typed : {A : Type 0} → Value A → M A
  typed (Value.got a) = return a
  typed Value.null = panic
  typed (Value.failed e) = throw e

  -- The value of a variable that may be null.
  abbrev pub nullable : {A : Type 0} → Value A → M (Option A)
  nullable (Value.got a) = return (some a)
  nullable Value.null = return none
  nullable (Value.failed e) = throw e
