-- ===== src/Run/Behaves/Upload.antt =====
-- otasker/oratasker.go: saveFile changes nothing of the tasker but the log, and does not panic where
-- the database answers with the values that it reads.
use iplsgo.Prelude.{
  ℕ, ◌≡◌, refl, true, false, Option, none, some, ◌⊎◌, inl, inr, List, [], ◌∷◌, Str, bytes, is_empty,
}
use iplsgo.Gostd.Maps.{Map}
use iplsgo.Http.{Header}
use iplsgo.Tasker.{Error, Driver}
use iplsgo.Tasker.Chunks.{Value, got, null, failed}
use iplsgo.Params.{Cursor}
use iplsgo.Run.{
  FileHeader, Uploaded, Arguments, Machine, State, Exit, ok, err, panicked, M, next, ◌>>=◌, ◌>>◌,
  return, format, open_at, close_at, deferring,
}
use iplsgo.Run.Upload.{
  stored_name, after_upload, call_upload, upload_with, save_file_to_db, save_content, save_one,
  save_file, step_save_file_to_db_num,
}
use iplsgo.Run.Rules.{
  Behaves, bind-Behaves, then-Behaves, known-Behaves, return-Behaves, throw-Behaves, typed-Behaves,
  note_at-Behaves, step-Behaves,
}
use iplsgo.Run.Regular.{IsStored, IsRegular}
use iplsgo.Run.Behaves.Values.{typed-known, reported-Behaves, make_all-Behaves}

module _ (d : Driver) (c : Cursor) (m : Machine d c) (conn : d.Conn) (a : Arguments) where
  abbrev num : ℕ
  num = step_save_file_to_db_num

  stored_name-Behaves :
      {H : Type 0} (stm : Str) (v : Value Str)
      → Behaves d H (some num) (stored_name d c m conn a stm v)
  stored_name-Behaves stm (failed e) = return-Behaves d []
  stored_name-Behaves stm null =
      then-Behaves d (note_at-Behaves d _ stm stm true) (return-Behaves d [])
  stored_name-Behaves stm (got name) =
      then-Behaves d (note_at-Behaves d _ stm stm true) (return-Behaves d name)

  after_upload-Behaves :
      {H : Type 0} (stm : Str) (e : Option Error) (u : Uploaded)
      → (H → e ≡ none → IsStored u)
      → Behaves d H (some num) (after_upload d c m conn a stm e u)
  after_upload-Behaves stm (some e) u h = throw-Behaves d e
  after_upload-Behaves stm none u h =
      known-Behaves d (λ code. u.sql_err_code ≡ got code) (typed-known d u.sql_err_code)
        (typed-Behaves d u.sql_err_code (λ x. (h x refl).code))
        (λ code.
          then-Behaves d (reported-Behaves d code u.sql_err (λ x. (h x.0 refl).text code x.1))
            (stored_name-Behaves stm u.ret_name))

  -- A method that goes on with another state of the world.
  call_upload-Behaves :
      (stm : Str) (params : Map Str c.Var)
      → Behaves d (IsRegular d c m a) (some num) (call_upload d c m conn a stm params)
  call_upload-Behaves stm params =
      let after : (s : State d)
          → Behaves d (IsRegular d c m a) (some num) (
              after_upload d c m conn a stm (m.upload conn stm params s.world).1
                (m.upload conn stm params s.world).2) =
        λ s.
          after_upload-Behaves stm (m.upload conn stm params s.world).1
            (m.upload conn stm params s.world).2 (λ x. x.uploads conn stm params s.world) in
      record {
        logs = λ s. (after s).logs (record s { world = (m.upload conn stm params s.world).0 });
        calm = λ x s. (after s).calm x (record s { world = (m.upload conn stm params s.world).0 });
      }

  upload_with-Behaves :
      (stm : Str) (env : Map Str Str) (name item mime content : Str)
      → Behaves d
          (IsRegular d c m a)
          (some num)
          (upload_with d c m conn a stm env name item mime content)
  upload_with-Behaves stm env name item mime content =
      bind-Behaves d (make_all-Behaves d c m _ []) (λ params.
        then-Behaves d (note_at-Behaves d _ stm stm false) (call_upload-Behaves stm params))

  stored_at :
      {k : Option ℕ} (stm : Str) (env : Map Str Str) (name item mime content : Str)
      → Behaves d (IsRegular d c m a) k (
          ◌>>◌ d (open_at d num (bytes "saveFileToDB")) (
            deferring d (close_at d num) (upload_with d c m conn a stm env name item mime content)))
  stored_at stm env name item mime content =
      step-Behaves d num (bytes "saveFileToDB") (upload_with-Behaves stm env name item mime content)

  save_file_to_db-Behaves :
      {k : Option ℕ} (env : Map Str Str) (name item mime content : Str)
      → Behaves d (IsRegular d c m a) k (save_file_to_db d c m conn a env name item mime content)
  unfolding save_file_to_db
  save_file_to_db-Behaves {k} env name item mime content =
      let stm : State d → Str =
        λ s. format s.tasker.statements.stm_file_upload (a.before_script ∷ a.document_table ∷ []) in
      record {
        logs = λ s. (stored_at {k = k} (stm s) env name item mime content).logs s;
        calm = λ x s. (stored_at {k = k} (stm s) env name item mime content).calm x s;
      }

  save_content-Behaves :
      {k : Option ℕ} (env : Map Str Str) (fh : FileHeader) (h : Header) (r : Str ⊎ Error)
      → Behaves d (IsRegular d c m a) k (save_content d c m conn a env fh h r)
  save_content-Behaves env fh h (inl content) = save_file_to_db-Behaves env _ _ _ content
  save_content-Behaves env fh h (inr e) = throw-Behaves d e

  save_one-Behaves :
      {k : Option ℕ} (env : Map Str Str) (fh : FileHeader) (o : Option Header)
      → Behaves d (IsRegular d c m a) k (save_one d c m conn a env fh o)
  save_one-Behaves env fh none = return-Behaves d fh.filename
  save_one-Behaves env fh (some h) = save_content-Behaves env fh h fh.content

  pub save_file-Behaves :
      {k : Option ℕ} (env : Map Str Str) (l : List FileHeader)
      → Behaves d (IsRegular d c m a) k (save_file d c m conn a env l)
  unfolding save_file
  save_file-Behaves env [] = return-Behaves d []
  save_file-Behaves env (fh ∷ rest) = bind-Behaves d (save_one-Behaves env fh fh.header) (λ name.
      bind-Behaves d (save_file-Behaves env rest) (λ names. return-Behaves d (name ∷ names)))

  consed :
      (name : Str) (r : Exit (List Str) × State d) (names : List Str) (u : State d)
      → next d r (λ ns. return d (name ∷ ns)) ≡ (ok names, u)
      → is_empty names ≡ false
  consed name (ok ns, s) [] u e = cc
  consed name (ok ns, s) (n ∷ names) u e = refl
  consed name (err x, s) names u e = cc
  consed name (panicked, s) names u e = cc
  consed name (Exit.running, s) names u e = cc

  after_one :
      (r : Exit Str × State d) (f : M d (List Str)) (names : List Str) (u : State d)
      → next d r (λ name. ◌>>=◌ d f (λ ns. return d (name ∷ ns))) ≡ (ok names, u)
      → is_empty names ≡ false
  after_one (ok name, s) f names u e = consed name (f s) names u e
  after_one (err x, s) f names u e = cc
  after_one (panicked, s) f names u e = cc
  after_one (Exit.running, s) f names u e = cc

  -- Files that are there have names.
  pub save_file-known :
      (env : Map Str Str) (l : List FileHeader)
      → is_empty l ≡ false
      → (s : State d) (names : List Str) (u : State d)
      → save_file d c m conn a env l s ≡ (ok names, u)
      → is_empty names ≡ false
  unfolding save_file
  save_file-known env [] h s names u e = cc
  save_file-known env (fh ∷ rest) h s names u e =
      after_one (save_one d c m conn a env fh fh.header s) (save_file d c m conn a env rest) names u
        e
