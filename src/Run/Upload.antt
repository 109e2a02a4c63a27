-- ===== src/Run/Upload.antt =====
-- otasker/oratasker.go: saveFile and saveFileToDB. What Open and ReadAll give of a file is known
-- with it.
use iplsgo.Prelude.{
  ℕ, true, false, Option, none, some, ◌⊎◌, inl, inr, List, [], ◌∷◌, Str, bytes, ℤ, pos, int_Eq,
  ◌==◌, if◌then◌else◌,
}
use iplsgo.Gostd.Maps.{Map}
use iplsgo.Http.{Header, get}
use iplsgo.Text.{extract_file_name}
use iplsgo.Tasker.{Error, ora, Driver}
use iplsgo.Tasker.Chunks.{Value, got, null, failed}
use iplsgo.Params.{Cursor}
use iplsgo.Run.{
  FileHeader, Uploaded, Arguments, Machine, M, format, return, throw, ◌>>=◌, ◌>>◌, open_at,
  close_at, note_at, deferring, typed,
}
use iplsgo.Run.Variables.{make_all, upload_variables}

abbrev pub step_save_file_to_db_num : ℕ
step_save_file_to_db_num = 3

-- The error that the statement reports by sqlerrcode.
abbrev pub reported : (d : Driver) → ℤ → Value Str → M d (Unit {0})
reported d code text =
    if code == pos 0 then return d tt else ◌>>=◌ d (typed d text) (λ s. throw d (ora code s))

module _ (d : Driver) (c : Cursor) (m : Machine d c) (conn : d.Conn) (a : Arguments) where
  -- The name that the database gave. The error of reading it is dropped: `err` is nil there.
  abbrev pub stored_name : Str → Value Str → M d Str
  stored_name stm (failed e) = return d []
  stored_name stm null = ◌>>◌ d (note_at d step_save_file_to_db_num stm stm true) (return d [])
  stored_name stm (got name) =
      ◌>>◌ d (note_at d step_save_file_to_db_num stm stm true) (return d name)

  abbrev pub after_upload : Str → Option Error → Uploaded → M d Str
  after_upload stm (some e) u = throw d e
  after_upload stm none u =
      ◌>>=◌ d (typed d u.sql_err_code)
        (λ code. ◌>>◌ d (reported d code u.sql_err) (stored_name stm u.ret_name))

  abbrev pub call_upload : Str → Map Str c.Var → M d Str
  call_upload stm params s =
      let (x, e, u) = m.upload conn stm params s.world in
      after_upload stm e u (record s { world = x })

  abbrev pub upload_with : Str → Map Str Str → Str → Str → Str → Str → M d Str
  upload_with stm env name item mime content =
      ◌>>=◌ d (make_all d c m (upload_variables d c m env a.url_params name item mime content) [])
        (λ params.
          ◌>>◌ d (note_at d step_save_file_to_db_num stm stm false) (call_upload stm params))

  -- saveFileToDB
  unfoldable pub save_file_to_db : Map Str Str → Str → Str → Str → Str → M d Str
  unfolding open_at close_at note_at deferring make_all upload_variables format
  save_file_to_db env name item mime content s =
      let stm =
        format s.tasker.statements.stm_file_upload (a.before_script ∷ a.document_table ∷ []) in
      ◌>>◌ d (open_at d step_save_file_to_db_num (bytes "saveFileToDB"))
        (deferring d (close_at d step_save_file_to_db_num)
          (upload_with stm env name item mime content))
        s

  abbrev pub save_content : Map Str Str → FileHeader → Header → Str ⊎ Error → M d Str
  save_content env fh h (inr e) = throw d e
  save_content env fh h (inl content) =
      save_file_to_db env (extract_file_name (get (bytes "Content-Disposition") h)) fh.last_arg
        (get (bytes "Content-Type") h) content

  abbrev pub save_one : Map Str Str → FileHeader → Option Header → M d Str
  save_one env fh none = return d fh.filename
  save_one env fh (some h) = save_content env fh h fh.content

  -- saveFile
  unfoldable pub save_file : Map Str Str → List FileHeader → M d (List Str)
  unfolding save_file_to_db extract_file_name get
  save_file env [] = return d []
  save_file env (fh ∷ rest) =
      ◌>>=◌ d (save_one env fh fh.header)
        (λ name. ◌>>=◌ d (save_file env rest) (λ names. return d (name ∷ names)))
