-- ===== src/Run/Behaves/Prepare.antt =====
-- otasker/oratasker.go: describing the procedure and preparing the parameters of a call.
use iplsgo.Prelude.{
  ℕ, ◌≡◌, refl, true, false, Option, none, some, List, [], ◌∷◌, ◌++◌, Str, bytes, int_Eq, str_Eq,
  is_empty,
}
use iplsgo.Gostd.Maps.{Map}
use iplsgo.Params.Prepare.{prepare_param}
use iplsgo.Tasker.{Error, Driver}
use iplsgo.Describe.{Missing, procedure_info}
use iplsgo.Params.{Cursor, Binding, Prepared}
use iplsgo.Run.{FileHeader, Arguments, Machine, State}
use iplsgo.Run.Body.{
  Ext, describe_stm, is_none, asked, asked_package, step_describe_num, prepared, call_describe,
  raise, describe_step, first_name, prepare_files, looped, prepare_url, with_package, package_of,
  with_ext, prepare_call, string_param, prepare_resource,
}
use iplsgo.Prelude.{is_some, arith}
use iplsgo.Describe.{info_of}
use iplsgo.Params.Prepare.{prepare_url_params}
use iplsgo.Run.Body.{files_of}
use iplsgo.Params.Scalar.{prepare_string_param}
use iplsgo.Describe.{Cache}
use iplsgo.Describe.Replay.{describe-is_some}
use iplsgo.Run.{State}
use iplsgo.Run.Body.{described}
use iplsgo.Run.Rules.{
  is_cut, Behaves, bind-Behaves, then-Behaves, known-Behaves, same-Behaves, return-Behaves,
  throw-Behaves, panic-Behaves, note_at-Behaves, step-Behaves, weaken,
}
use iplsgo.Run.Regular.{IsRegular, Full, prepare_param-is_some, prepare_url_params-is_some}
use iplsgo.Run.Behaves.Values.{made-Behaves, make_all-Behaves}
use iplsgo.Run.Behaves.Upload.{save_file-Behaves, save_file-known}

module _ (d : Driver) (c : Cursor) (m : Machine d c) (conn : d.Conn) (a : Arguments) where
  open c use {Var, Time}

  abbrev pub Regular : Type 0
  Regular = IsRegular d c m a

  prepared-Behaves :
      {H : Type 0} {k : Option ℕ} (o : Option (Prepared c))
      → (H → is_some o ≡ true)
      → Behaves d H k (prepared d c m conn a o)
  prepared-Behaves none h = panic-Behaves d (λ x. ground (arith, h x))
  prepared-Behaves (some (b, none)) h = return-Behaves d b
  prepared-Behaves (some (b, some f)) h = throw-Behaves d _

  raise-Behaves :
      {H : Type 0} {k : Option ℕ} (e : Option Error) → Behaves d H k (raise d c m conn a e)
  raise-Behaves none = return-Behaves d tt
  raise-Behaves (some e) = throw-Behaves d e

  described-Logged :
      (s : State d) (o : Option (Option Error × Cache × d.World))
      → (described d c m conn a o s).1.tasker ≡ s.tasker
  described-Logged s none = refl
  described-Logged s (some r) = refl

  described-is_cut :
      (s : State d) (o : Option (Option Error × Cache × d.World))
      → is_some o ≡ true
      → is_cut (described d c m conn a o s).0 ≡ false
  described-is_cut s none h = cc
  described-is_cut s (some r) h = refl

  call_describe-Behaves : {k : Option ℕ} → Behaves d Regular k (call_describe d c m conn a)
  call_describe-Behaves =
      same-Behaves d (λ s. described-Logged s _)
        (λ x s. described-is_cut s _ (
          describe-is_some c.to_upper d m.describing conn s.tasker.conn_str a.proc_name s.cache
            s.world x.rows))

  pub describe_step-Behaves : {k : Option ℕ} → Behaves d Regular k (describe_step d c m conn a)
  unfolding describe_step
  describe_step-Behaves = step-Behaves d step_describe_num (bytes "Describe") (
      bind-Behaves d call_describe-Behaves (λ e.
        then-Behaves d
          (note_at-Behaves d step_describe_num (describe_stm d c m conn a)
            (describe_stm d c m conn a) (is_none d c m conn a e))
          (raise-Behaves e)))

  first_name-Behaves :
      {H : Type 0} {k : Option ℕ} (l : List Str)
      → (H → is_empty l ≡ false)
      → Behaves d H k (first_name d c m conn a l)
  first_name-Behaves [] h = panic-Behaves d (λ x. ground (arith, h x))
  first_name-Behaves (n ∷ ns) h = return-Behaves d n

  asked-Behaves : {H : Type 0} {k : Option ℕ} (name : Str) → Behaves d H k (asked d c m conn a name)
  asked-Behaves name = same-Behaves d (λ s. refl) (λ x s. refl)

  prepare_files-Behaves :
      {H : Type 0} {k : Option ℕ} (env : Map Str Str) (files : List (Str × List FileHeader))
      (ext : Ext) (b : Binding Var)
      → (H → Regular)
      → (H → Full files)
      → Behaves d H k (prepare_files d c m conn a env files ext b)
  unfolding prepare_files
  prepare_files-Behaves env [] ext b g h = return-Behaves d (b, ext)
  prepare_files-Behaves env ((name, headers) ∷ rest) ext b g h =
      known-Behaves d (λ names. is_empty headers ≡ false → is_empty names ≡ false)
        (λ s names u e z. save_file-known d c m conn a env headers z s names u e)
        (weaken d g (save_file-Behaves d c m conn a env headers))
        (λ names. bind-Behaves d (asked-Behaves name) (λ info.
          bind-Behaves d
            (prepared-Behaves (prepare_param c name names info.0 info.1 a.param_store_proc b) (λ x.
              prepare_param-is_some c name names info.0 info.1 a.param_store_proc b
                (x.1 (h x.0).0)))
            (λ b1. bind-Behaves d (first_name-Behaves names (λ x. x.1 (h x.0).0)) (λ first.
              prepare_files-Behaves env rest (ext ++ (name, first) ∷ []) b1 (λ x. g x.0)
                (λ x. (h x.0).1)))))

  looped-Behaves :
      {H : Type 0} {k : Option ℕ} (o : Option (Prepared c × Ext))
      → (H → is_some o ≡ true)
      → Behaves d H k (looped d c m conn a o)
  looped-Behaves none h = panic-Behaves d (λ x. ground (arith, h x))
  looped-Behaves (some ((b, none), ext)) h = return-Behaves d (b, ext)
  looped-Behaves (some ((b, some f), ext)) h = throw-Behaves d _

  prepare_url-Behaves :
      {k : Option ℕ} (b : Binding Var) → Behaves d Regular k (prepare_url d c m conn a b)
  prepare_url-Behaves {k} b =
      let at : (s : State d)
          → Behaves d Regular k (
              looped d c m conn a (
                prepare_url_params c (info_of c.to_upper s.tasker.conn_str a.proc_name s.cache)
                  a.param_store_proc [] a.url_params b)) =
        λ s. looped-Behaves _ (λ x.
          prepare_url_params-is_some c (info_of c.to_upper s.tasker.conn_str a.proc_name s.cache)
            a.param_store_proc a.url_params [] b x.params) in
      record { logs = λ s. (at s).logs s; calm = λ x s. (at s).calm x s }

  package_of-Behaves :
      {H : Type 0} {k : Option ℕ} (r : (Option ℕ × Str) × Option Missing)
      → Behaves d H k (package_of d c m conn a r)
  package_of-Behaves (h, none) = return-Behaves d h.1
  package_of-Behaves (h, some e) = throw-Behaves d _

  asked_package-Behaves : {H : Type 0} {k : Option ℕ} → Behaves d H k (asked_package d c m conn a)
  asked_package-Behaves {H} {k} =
      let at : (s : State d)
          → Behaves d H k (
              package_of d c m conn a
                (procedure_info c.to_upper s.tasker.conn_str a.proc_name s.cache)) =
        λ s. package_of-Behaves (procedure_info c.to_upper s.tasker.conn_str a.proc_name s.cache) in
      record { logs = λ s. (at s).logs s; calm = λ x s. (at s).calm x s }

  with_package-Behaves :
      {H : Type 0} {k : Option ℕ} (name : Str) (b : Binding Var)
      → Behaves d H k (with_package d c m conn a name b)
  with_package-Behaves name b =
      bind-Behaves d (made-Behaves d c m _ (c.create _)) (λ v. return-Behaves d _)

  pub with_ext-Behaves :
      {H : Type 0} {k : Option ℕ} (file_ext url_ext : Ext) (b : Binding Var)
      → Behaves d H k (with_ext d c m conn a file_ext url_ext b)
  with_ext-Behaves file_ext url_ext b =
      bind-Behaves d (make_all-Behaves d c m _ b.params) (λ params. return-Behaves d _)

  pub prepare_call-Behaves :
      {k : Option ℕ} (env : Map Str Str) (b : Binding Var)
      → Behaves d Regular k (prepare_call d c m conn a env b)
  prepare_call-Behaves env b =
      bind-Behaves d
        (prepare_files-Behaves env (files_of d c m conn a a.req_files) [] b (λ x. x)
          (λ x. x.files conn))
        (λ r. bind-Behaves d (prepare_url-Behaves r.0) (λ q.
          bind-Behaves d asked_package-Behaves
            (λ name. bind-Behaves d (with_package-Behaves name q.0) (λ b1. return-Behaves d _))))

  string_param-Behaves :
      {H : Type 0} {k : Option ℕ} (name value : Str) (b : Binding Var)
      → Behaves d H k (string_param d c m conn a name value b)
  string_param-Behaves name value b = prepared-Behaves _ (λ x. unfold prepare_string_param in refl)

  pub prepare_resource-Behaves :
      {H : Type 0} {k : Option ℕ} (env : Map Str Str) (first second : Str) (rest : List Str)
      (b : Binding Var)
      → Behaves d H k (prepare_resource d c m conn a env first second rest b)
  prepare_resource-Behaves env first second rest b =
      bind-Behaves d (string_param-Behaves _ _ b) (λ b1.
        bind-Behaves d (string_param-Behaves _ _ b1) (λ b2.
          bind-Behaves d (string_param-Behaves _ _ b2)
            (λ b3. bind-Behaves d (with_package-Behaves [] b3) (λ b4. return-Behaves d _))))
