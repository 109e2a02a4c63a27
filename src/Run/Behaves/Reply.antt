-- ===== src/Run/Behaves/Reply.antt =====
-- otasker/oratasker.go: reading the reply changes nothing of the tasker but the log, and does not
-- panic where the reply has the values that are read.
use iplsgo.Prelude.{
  ◌≡◌, refl, Bool, true, false, Option, none, some, ◌⊎◌, inl, inr, Str, ℤ, pos, int_Eq, ◌==◌, ℕ,
}
use iplsgo.Text.{add_cr}
use iplsgo.Tasker.{Error, Driver, Tasker}
use iplsgo.Tasker.Steps.{Logged}
use iplsgo.Tasker.Chunks.{Looped, ended, panics, runs_on, got}
use iplsgo.Params.{Cursor}
use iplsgo.Run.{
  Output, Lob, failed_lob, not_lob, no_lob, empty_lob, lob, Machine, State, ◌>>=◌, ◌>>◌, typed,
  nullable,
}
use iplsgo.Run.Reply.{
  set_headers, settle_type, detect, set_content, paged, read_page, fix_page, text_reply,
  lob_content, lob_reply, content_reply, html, finish_reply, text_or_empty, read_reply,
  step_run_num,
}
use iplsgo.Run.Frames.{refl-Logged, page_content-Logged}
use iplsgo.Run.Rules.{
  Behaves, is_cut, is_null, bind-Behaves, then-Behaves, known-Behaves, same-Behaves, return-Behaves,
  throw-Behaves, typed-Behaves, nullable-Behaves, if-Behaves, note_at-Behaves,
}
use iplsgo.Run.Regular.{has_ended, Finite, IsTyped, page_content-has_ended}
use iplsgo.Run.Behaves.Values.{typed-known, reported-known, reported-Behaves}

module _ (d : Driver) (c : Cursor) (m : Machine d c) (conn : d.Conn) where
  abbrev pub Paged : Type 0
  Paged = (stm : Str) → Finite d m.chunks conn stm m.fuel

  paged-Logged :
      (s : State d) (o : Looped (Option Error × Str × Tasker d.Conn × d.World))
      → ((r : Option Error × Str × Tasker d.Conn × d.World) → o ≡ ended r → Logged s.tasker r.2)
      → Logged s.tasker (paged d c m conn o s).1.tasker
  paged-Logged s panics h = refl-Logged s.tasker
  paged-Logged s runs_on h = refl-Logged s.tasker
  paged-Logged s (ended r) h = h r refl

  paged-is_cut :
      (s : State d) (o : Looped (Option Error × Str × Tasker d.Conn × d.World))
      → has_ended o ≡ true
      → is_cut (paged d c m conn o s).0 ≡ false
  paged-is_cut s panics h = cc
  paged-is_cut s runs_on h = cc
  paged-is_cut s (ended r) h = refl

  read_page-Behaves :
      {H : Type 0} {k : Option ℕ} (text : Str) (more : Bool)
      → (H → Paged)
      → Behaves d H k (read_page d c m conn text more)
  read_page-Behaves text more h = record {
    logs = λ s. paged-Logged s _ (
        page_content-Logged d m.chunks conn s.tasker.statements.stm_get_rest_chunk m.fuel text more
          s.tasker s.world);
    calm = λ x s o. paged-is_cut s _ (
        page_content-has_ended d m.chunks conn s.tasker.statements.stm_get_rest_chunk m.fuel text
          more s.tasker s.world (h x s.tasker.statements.stm_get_rest_chunk));
  }

  set_content-Behaves :
      {H : Type 0} {k : Option ℕ} (content : Str) → Behaves d H k (set_content d c m conn content)
  set_content-Behaves content = same-Behaves d (λ s. refl) (λ x s. refl)

  detect-Behaves :
      {H : Type 0} {k : Option ℕ} (content : Str) → Behaves d H k (detect d c m conn content)
  detect-Behaves content = same-Behaves d (λ s. refl) (λ x s. refl)

  fix_page-Behaves :
      {H : Type 0} {k : Option ℕ} (content_type : Str)
      → Behaves d H k (fix_page d c m conn content_type)
  fix_page-Behaves content_type = same-Behaves d (λ s. refl) (λ x s. refl)

  html-Behaves : {H : Type 0} {k : Option ℕ} → Behaves d H k (html d c m conn)
  html-Behaves = same-Behaves d (λ s. refl) (λ x s. refl)

  settle_type-Behaves :
      {H : Type 0} {k : Option ℕ} (content_type : Str)
      → Behaves d H k (settle_type d c m conn content_type)
  settle_type-Behaves content_type = same-Behaves d (λ s. refl) (λ x s. refl)

  set_headers-Behaves :
      {H : Type 0} {k : Option ℕ} (o : Option Str) → Behaves d H k (set_headers d c m conn o)
  set_headers-Behaves none = same-Behaves d (λ s. refl) (λ x s. refl)
  set_headers-Behaves (some text) = same-Behaves d (λ s. refl) (λ x s. refl)

  text_reply-Behaves :
      {H : Type 0} {k : Option ℕ} (o : Output) (content_type : Str) (t : Option Str)
      → (H → Paged)
      → (H → is_null o.next_chunk_exists ≡ false)
      → Behaves d H k (text_reply d c m conn o content_type t)
  text_reply-Behaves o content_type none p h = return-Behaves d false
  text_reply-Behaves o content_type (some text) p h =
      then-Behaves d (set_content-Behaves (add_cr text)) (
        bind-Behaves d (typed-Behaves d o.next_chunk_exists h) (λ more.
          then-Behaves d (read_page-Behaves text more p)
            (then-Behaves d (fix_page-Behaves content_type) (return-Behaves d true))))

  lob_content-Behaves :
      {H : Type 0} {k : Option ℕ} (r : Str ⊎ Error) → Behaves d H k (lob_content d c m conn r)
  lob_content-Behaves (inr e) = throw-Behaves d e
  lob_content-Behaves (inl content) =
      then-Behaves d (set_content-Behaves content)
        (then-Behaves d (detect-Behaves content) (return-Behaves d true))

  lob_reply-Behaves : {H : Type 0} {k : Option ℕ} (l : Lob) → Behaves d H k (lob_reply d c m conn l)
  lob_reply-Behaves (failed_lob e) = throw-Behaves d e
  lob_reply-Behaves (not_lob type_name) = throw-Behaves d _
  lob_reply-Behaves no_lob = return-Behaves d true
  lob_reply-Behaves empty_lob = return-Behaves d true
  lob_reply-Behaves (lob r) = lob_content-Behaves r

  content_reply-Behaves :
      {H : Type 0} {k : Option ℕ} (o : Output) (content_type : Str) (rc : ℤ)
      → (H → Paged)
      → (H → is_null o.next_chunk_exists ≡ false)
      → Behaves d H k (content_reply d c m conn o content_type rc)
  content_reply-Behaves o content_type rc p h =
      if-Behaves d (rc == pos 0)
        (bind-Behaves d (nullable-Behaves d o.content)
          (λ t. text_reply-Behaves o content_type t p h))
        (if-Behaves d (rc == pos 1) (lob_reply-Behaves o.data_lob) (return-Behaves d true))

  finish_reply-Behaves :
      {H : Type 0} (stm show : Str) (b : Bool)
      → Behaves d H (some step_run_num) (finish_reply d c m conn stm show b)
  finish_reply-Behaves stm show false = return-Behaves d tt
  finish_reply-Behaves stm show true =
      then-Behaves d html-Behaves (note_at-Behaves d step_run_num stm show true)

  -- Without an error in the reply.
  data_reply-Behaves :
      {H : Type 0} (stm show : Str) (o : Output)
      → (H → Paged)
      → (H → is_null o.rc ≡ false)
      → (H → is_null o.next_chunk_exists ≡ false)
      → Behaves d H (some step_run_num) (
          ◌>>=◌ d (nullable d o.content_type) (λ content_type.
            ◌>>=◌ d (nullable d o.custom_headers) (λ headers.
              ◌>>◌ d (set_headers d c m conn headers) (
                ◌>>=◌ d (settle_type d c m conn (text_or_empty content_type)) (λ found.
                  ◌>>=◌ d (typed d o.rc) (λ rc.
                    ◌>>=◌ d
                      (content_reply d c m conn o found rc)
                      (finish_reply d c m conn stm show)))))))
  data_reply-Behaves stm show o p r n = bind-Behaves d (nullable-Behaves d o.content_type) (λ ct.
      bind-Behaves d (nullable-Behaves d o.custom_headers) (λ headers.
        then-Behaves d (set_headers-Behaves headers) (
          bind-Behaves d (settle_type-Behaves (text_or_empty ct)) (λ found.
            bind-Behaves d (typed-Behaves d o.rc r) (λ rc.
              bind-Behaves d (content_reply-Behaves o found rc p n)
                (finish_reply-Behaves stm show))))))

  pub read_reply-Behaves :
      {H : Type 0} (stm show : Str) (o : Output)
      → (H → Paged)
      → (H → IsTyped o)
      → Behaves d H (some step_run_num) (read_reply d c m conn stm show o)
  unfolding read_reply
  read_reply-Behaves stm show o p h =
      known-Behaves d (λ code. o.sql_err_code ≡ got code) (typed-known d o.sql_err_code)
        (typed-Behaves d o.sql_err_code (λ x. (h x).code))
        (λ code.
          known-Behaves d (λ u. (code == pos 0) ≡ true) (reported-known d code o.sql_err)
            (reported-Behaves d code o.sql_err (λ x. (h x.0).text code x.1))
            (λ u.
              data_reply-Behaves stm show o (λ x. p x.0.0) (λ x. (h x.0.0).rc code x.0.1 x.1)
                (λ x. (h x.0.0).more code x.0.1 x.1)))
