-- ===== src/Tasker/Pages.antt =====
-- otasker/oratasker.go: what a page has in the end, whether or not its chunks end with an error.
use iplsgo.Prelude.{
  ap, ◌∙◌, ℕ, suc, ◌≡◌, refl, true, false, Option, none, some, List, [], ◌∷◌, ◌++◌, Str,
}
use iplsgo.Text.{add_cr}
use iplsgo.Tasker.{Error, Driver, Tasker, close_step}
use iplsgo.Tasker.Chunks.{
  step_chunk_get_num, Looped, ended, looped, stepped, got, failed, Chunk, chunk_text, ChunkCalls,
  succeeded,
}
use iplsgo.Tasker.Steps.{is_open, set_step_info-Works, close_step-Works, still_open}

pub stepped-some :
    {A B : Type 0} {o : Option A} {a : A} (f : A → Looped B) {r : Looped B}
    → o ≡ some a
    → f a ≡ r
    → stepped o f ≡ r
stepped-some f e h = ap (λ o. stepped o f) e ∙ h

pub looped-ended :
    {A B : Type 0} {o : Looped A} {a : A} (f : A → Looped B) {r : Looped B}
    → o ≡ ended a
    → f a ≡ r
    → looped o f ≡ r
looped-ended f e h = ap (λ o. looped o f) e ∙ h

module _ (d : Driver) (k : ChunkCalls d) where
  open d use {World, Conn, now}

  module _ (c : Conn) (stm : Str) where
    -- The chunks that the database gives from a state of the world on, up to the last one or up to an
    -- error, and the state afterwards.
    pub data Pieces : World → List Str → Option Error → World → Type 0 where
      last :
          (x x1 : World) (chunk : Chunk) (text : Str)
          → k.execute c stm x ≡ (x1, none, chunk)
          → chunk_text chunk ≡ got text
          → chunk.next_chunk_exists ≡ false
          → Pieces x (text ∷ []) none x1
      broken :
          (x x1 : World) (chunk : Chunk) (e : Error)
          → k.execute c stm x ≡ (x1, some e, chunk)
          → Pieces x [] (some e) x1
      refused :
          (x x1 : World) (chunk : Chunk) (e : Error)
          → k.execute c stm x ≡ (x1, none, chunk)
          → chunk_text chunk ≡ failed e
          → Pieces x [] (some e) x1
      more :
          (x x1 y : World) (chunk : Chunk) (text : Str) (rest : List Str) (e : Option Error)
          → k.execute c stm x ≡ (x1, none, chunk)
          → chunk_text chunk ≡ got text
          → chunk.next_chunk_exists ≡ true
          → Pieces x1 rest e y
          → Pieces x (text ∷ rest) e y

    -- The texts, each with its line ends, one after the other.
    abbrev pub joined : List Str → Str
    joined [] = []
    joined (t ∷ ts) = add_cr t ++ joined ts

    -- One more than the chunks, and any number.
    abbrev enough : List Str → ℕ → ℕ
    enough [] n = suc n
    enough (t ∷ ts) n = suc (enough ts n)

    pub closes :
        (e : Option Error) (now_y : ℕ) (t : Tasker Conn)
        → is_open step_chunk_get_num t ≡ true
        → (t3 : Tasker Conn) × (t4 : Tasker Conn) × (succeeded d k c stm e t ≡ some t3)
          × (close_step step_chunk_get_num now_y t3 ≡ some t4)
    closes (some e) now_y t o =
        let (t4, e4, l4) = close_step-Works step_chunk_get_num now_y t o in (t, t4, refl, e4)
    closes none now_y t o =
        let (t3, e3, l3) = set_step_info-Works step_chunk_get_num stm stm true t o in
        let (t4, e4, l4) =
          close_step-Works step_chunk_get_num now_y t3 (still_open step_chunk_get_num t t3 l3 o) in
        (t3, t4, e3, e4)
