-- ===== src/Tasker/Chunks.antt =====
-- otasker/oratasker.go: getRestChunks, which reads the rest of a page chunk by chunk, and how `run`
-- uses it. The loop is over fuel; a loop that has not ended with it runs on.
use iplsgo.Prelude.{
  ℕ, zero, suc, Bool, true, false, Option, none, some, ◌++◌, Str, bytes, ℤ, pos, int_Eq, nat_eq,
  ◌==◌, if◌then◌else◌,
}
use iplsgo.Text.{add_cr}
use iplsgo.Tasker.{Error, ora, Driver, Tasker, open_step, close_step, set_step_info}

abbrev pub step_chunk_get_num : ℕ
step_chunk_get_num = 5

-- What GetValue returns. A null has no type, so the code's type assertions panic on it.
pub data Value (A : Type 0) : Type 0 where
  got : A → Value A
  null : Value A
  failed : Error → Value A

-- The variables after an Execute. `sql_err` is the text that NewErrorAt makes of two of them.
pub record Chunk : Type 0 where
  pub sql_err_code : Value ℤ
  pub sql_err : Value Str
  pub text : Value Str
  pub next_chunk_exists : Bool

-- A loop that ended with a value, or by a panic, or that has not ended.
pub data Looped (A : Type 0) : Type 0 where
  ended : A → Looped A
  panics : Looped A
  runs_on : Looped A

abbrev pub looped : {A B : Type 0} → Looped A → (A → Looped B) → Looped B
looped (ended a) f = f a
looped panics f = panics
looped runs_on f = runs_on

-- After a step of the log, which panics on none.
abbrev pub stepped : {A B : Type 0} → Option A → (A → Looped B) → Looped B
stepped (some a) f = f a
stepped none f = panics

abbrev thrown : ℤ → Value Str → Value Str
thrown code (got text) = failed (ora code text)
thrown code null = null
thrown code (failed e) = failed e

-- The text of a chunk, or the error that ends the loop.
unfoldable pub chunk_text : Chunk → Value Str
chunk_text k = elim k.sql_err_code [
  | failed e ↦ failed e
  | null ↦ null
  | got code ↦ if code == pos 0 then k.text else thrown code k.sql_err
]

module _ (d : Driver) where
  open d use {World, Conn, now}

  -- The driver's calls: making the five variables, and Execute.
  pub record ChunkCalls : Type 0 where
    pub new_variables : Conn → World → Option Error
    pub execute : Conn → Str → World → World × Option Error × Chunk

  module _ (k : ChunkCalls) (c : Conn) (stm : Str) where
    abbrev Fetched : Type 0
    Fetched = Looped (Option Error × Str × World)

    abbrev next : Value Str → Bool → Str → World → (Str → Fetched) → Fetched
    next (failed e) more content x f = ended (some e, content, x)
    next null more content x f = panics
    next (got text) false content x f = ended (none, content ++ add_cr text, x)
    next (got text) true content x f = f (content ++ add_cr text)

    -- The loop of getRestChunks, on the content so far.
    unfoldable pub fetch : ℕ → Str → World → Fetched
    unfolding add_cr chunk_text
    fetch zero content x = runs_on
    fetch (suc fuel) content x =
        let (x1, e, chunk) = k.execute c stm x in
        elim e [
          | some err ↦ ended (some err, content, x1)
          | none ↦
              next (chunk_text chunk) chunk.next_chunk_exists content x1
                (λ content1. fetch fuel content1 x1)
        ]

    abbrev pub Rest : Type 0
    Rest = Looped (Option Error × Str × Tasker Conn × World)

    abbrev pub succeeded : Option Error → Tasker Conn → Option (Tasker Conn)
    succeeded none t = set_step_info step_chunk_get_num stm stm true t
    succeeded (some e) t = some t

    abbrev pub unmade : Error → Str → Tasker Conn → World → Rest
    unmade e content t1 x =
        stepped (close_step step_chunk_get_num (now x) t1) (λ t2. ended (some e, content, t2, x))

    abbrev pub fetching : ℕ → Str → Tasker Conn → World → Rest
    fetching fuel content t1 x = stepped (set_step_info step_chunk_get_num stm stm true t1) (λ t2.
        looped (fetch fuel content x) (λ r. stepped (succeeded r.0 t2) (λ t3.
          stepped (close_step step_chunk_get_num (now r.2) t3) (λ t4. ended (r.0, r.1, t4, r.2)))))

    -- getRestChunks, with its deferred closeStep
    unfoldable pub get_rest_chunks : ℕ → Str → Tasker Conn → World → Rest
    unfolding fetch open_step close_step set_step_info
    get_rest_chunks fuel content t x =
        let t1 = open_step step_chunk_get_num (bytes "getRestChunks") (now x) t in
        elim (k.new_variables c x) [
          | some e ↦ unmade e content t1 x
          | none ↦ fetching fuel content t1 x
        ]

    -- run: the first piece of the content, and the rest of it if there is more. The error of
    -- getRestChunks is not looked at.
    unfoldable pub page_content : ℕ → Str → Bool → Tasker Conn → World → Rest
    unfolding get_rest_chunks add_cr
    page_content fuel text more t x = elim more [
      | false ↦ ended (none, add_cr text, t, x)
      | true ↦ looped (get_rest_chunks fuel (add_cr text) t x) (λ r. ended (none, r.1, r.2, r.3))
    ]
