-- ===== src/Run/Reply.antt =====
-- otasker/oratasker.go: what `run` makes of the variables after the main statement.
use iplsgo.Prelude.{
  ℕ, Bool, true, false, Option, none, some, ◌⊎◌, inl, inr, List, [], ◌∷◌, ◌++◌, Str, bytes, ℤ, pos,
  int_Eq, str_Eq, ◌==◌, if◌then◌else◌, is_empty,
}
use iplsgo.Gostd.{join}
use iplsgo.Http.{Header, del}
use iplsgo.Crutches.Headers.{parse_headers, fix_content_type}
use iplsgo.Crutches.Meta.{fix_meta}
use iplsgo.Text.{add_cr}
use iplsgo.Tasker.{Error, plain, Driver, Tasker}
use iplsgo.Tasker.Chunks.{Looped, ended, panics, runs_on, page_content}
use iplsgo.Params.{Cursor}
use iplsgo.Run.{
  Output, Lob, failed_lob, not_lob, no_lob, empty_lob, lob, Machine, M, ok, panicked, running,
  return, throw, ◌>>=◌, ◌>>◌, note_at, typed, nullable,
}
use iplsgo.Run.Upload.{reported}

abbrev pub step_run_num : ℕ
step_run_num = 4

-- The Content-Type among the headers takes the place of the other one, and leaves the headers.
unfoldable pub take_type : (Str → Str) → List (Str × List Str) → Str × Header → Str × Header
unfolding join del
take_type to_lower [] r = r
take_type to_lower ((key, vs) ∷ rest) (content_type, h) = take_type to_lower rest (
    if to_lower key == bytes "content-type"
    then (join vs (bytes ";"), del key h)
    else (content_type, h))

abbrev pub text_or_empty : Option Str → Str
text_or_empty none = []
text_or_empty (some s) = s

module _ (d : Driver) (c : Cursor) (m : Machine d c) (conn : d.Conn) where
  abbrev pub set_type : Str → M d (Unit {0})
  set_type content_type s = (ok tt, record s { res = record s.res { content_type = content_type } })

  abbrev pub set_headers : Option Str → M d (Unit {0})
  set_headers none s = (ok tt, s)
  set_headers (some text) s =
      (ok tt, record s { res = record s.res { headers = parse_headers m.mime text } })

  -- What stands in the headers is the type of the content, if it is there.
  abbrev pub settle_type : Str → M d Str
  settle_type content_type s =
      let (found, headers) =
        take_type m.mime.to_lower s.res.headers (content_type, s.res.headers) in
      (ok found, record s { res = record s.res { content_type = found; headers = headers } })

  abbrev pub set_content : Str → M d (Unit {0})
  set_content content s = (ok tt, record s { res = record s.res { content = content } })

  abbrev pub detect : Str → M d (Unit {0})
  detect content s = (
    ok tt,
    record s {
      res = record s.res {
        content_type =
            if is_empty s.res.content_type then m.mime.detect content else s.res.content_type;
      };
    },
  )

  abbrev pub paged : Looped (Option Error × Str × Tasker d.Conn × d.World) → M d (Unit {0})
  paged panics s = (panicked, s)
  paged runs_on s = (running, s)
  paged (ended (e, content, t, x)) s =
      (ok tt, record s { tasker = t; world = x; res = record s.res { content = content } })

  abbrev pub read_page : Str → Bool → M d (Unit {0})
  read_page text more s =
      paged
        (page_content d m.chunks conn s.tasker.statements.stm_get_rest_chunk m.fuel text more
          s.tasker s.world)
        s

  -- The charset of a page, in its type and in its content
  abbrev pub fix_page : Str → M d (Unit {0})
  fix_page content_type s =
      let content = fix_meta s.res.content in
      detect content (record s {
        res = record s.res {
          content_type = (fix_content_type m.mime content_type).0;
          content = content;
        };
      })

  -- Whether the rest of `run` follows: not after a page that is null.
  abbrev pub text_reply : Output → Str → Option Str → M d Bool
  text_reply o content_type none = return d false
  text_reply o content_type (some text) = ◌>>◌ d (set_content (add_cr text)) (
      ◌>>=◌ d (typed d o.next_chunk_exists)
        (λ more. ◌>>◌ d (read_page text more) (◌>>◌ d (fix_page content_type) (return d true))))

  abbrev pub lob_content : Str ⊎ Error → M d Bool
  lob_content (inr e) = throw d e
  lob_content (inl content) = ◌>>◌ d (set_content content) (◌>>◌ d (detect content) (return d true))

  abbrev pub lob_reply : Lob → M d Bool
  lob_reply (failed_lob e) = throw d e
  lob_reply (not_lob type_name) =
      throw d (plain (bytes "data is not *ExternalLobVar, but " ++ type_name))
  lob_reply no_lob = return d true
  lob_reply empty_lob = return d true
  lob_reply (lob r) = lob_content r

  abbrev pub content_reply : Output → Str → ℤ → M d Bool
  content_reply o content_type rc =
      if rc == pos 0
      then ◌>>=◌ d (nullable d o.content) (text_reply o content_type)
      else if rc == pos 1
      then lob_reply o.data_lob
      else return d true

  abbrev pub html : M d (Unit {0})
  html s = (
    ok tt,
    record s {
      res = record s.res {
        content_type =
            if is_empty s.res.content_type then bytes "text/html" else s.res.content_type;
      };
    },
  )

  abbrev pub finish_reply : Str → Str → Bool → M d (Unit {0})
  finish_reply stm show false = return d tt
  finish_reply stm show true = ◌>>◌ d html (note_at d step_run_num stm show true)

  -- run, after the main statement was executed without an error of its own
  unfoldable pub read_reply : Str → Str → Output → M d (Unit {0})
  unfolding note_at take_type parse_headers fix_content_type fix_meta page_content
  read_reply stm show o = ◌>>=◌ d (typed d o.sql_err_code) (λ code.
      ◌>>◌ d (reported d code o.sql_err) (
        ◌>>=◌ d (nullable d o.content_type) (λ content_type.
          ◌>>=◌ d (nullable d o.custom_headers) (λ headers. ◌>>◌ d (set_headers headers) (
            ◌>>=◌ d (settle_type (text_or_empty content_type)) (λ found.
              ◌>>=◌ d (typed d o.rc)
                (λ rc. ◌>>=◌ d (content_reply o found rc) (finish_reply stm show))))))))
