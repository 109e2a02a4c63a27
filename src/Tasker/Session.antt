-- ===== src/Tasker/Session.antt =====
-- otasker/oratasker.go: what asking the database for the session leaves behind.
use mathlib.Core.Path.{subst}
use iplsgo.Prelude.{
  ◌⊎◌, inl, inr, sym, [], ◌≡◌, refl, ap, true, false, Option, none, some, Str, bytes, str_Eq, ◌>>=◌,
}
use iplsgo.Tasker.{Error, Driver, Tasker, step_eval_sid, open_step, close_step}
use iplsgo.Tasker.Connection.{noted_sid, eval_session_id}
use iplsgo.Tasker.Steps.{
  is_open, Logged, open_step-Logged, open_step-is_open, set_step_info-Works, close_step-Works,
  trans, still_open,
}
use iplsgo.Tasker.Disconnect.{bind-some}

module _ (d : Driver) where
  open d use {World, Conn, now, query_text}

  -- What evalSessionID leaves: only the session and the log have changed.
  pub record Evaluates (t : Tasker Conn) (r : Option (Option Error × Tasker Conn × World))
      : Type 0 where
    pub error : Option Error
    pub session : Str
    pub after : Tasker Conn
    pub world : World
    pub is : r ≡ some (error, after, world)
    pub logged : Logged (record t { sess_id = session }) after

  with_session : Str → Tasker Conn → Tasker Conn
  with_session sid t = record t { sess_id = sid }

  retold :
      (sid old : Str) (t t' : Tasker Conn)
      → Logged (record t { sess_id = old }) t'
      → Logged (record t { sess_id = sid }) (record t' { sess_id = sid })
  unfolding with_session
  retold sid old t t' l = record {
    steps = l.steps;
    only = ap (with_session sid) l.only;
    keeps = l.keeps;
  }

  -- The database may answer without an error and without a text.
  abbrev pub Mute : Str → Type 0
  Mute stm =
      (c : Conn) × (x : World) × ((query_text c stm x).1 ≡ none) × ((query_text c stm x).2 ≡ none)

  abbrev pub EvaluatesOr : Str → Tasker Conn → Option (Option Error × Tasker Conn × World) → Type 0
  EvaluatesOr stm t r = ((r ≡ none) × Mute stm) ⊎ Evaluates t r

  abbrev end :
      Option Error
      → Option Str
      → Str
      → Tasker Conn
      → World
      → Option (Option Error × Tasker Conn × World)
  end e sid stm t1 x1 = noted_sid d e sid stm t1 >>= λ t2.
      close_step step_eval_sid (now x1) t2 >>= λ t3. some (e, t3, x1)

  eval_end :
      (e : Option Error) (sid : Option Str) (stm : Str) (t t1 : Tasker Conn) (x1 : World)
      → (e ≡ none → sid ≡ none → Mute stm)
      → Logged (record t { sess_id = [] }) t1
      → is_open step_eval_sid t1 ≡ true
      → EvaluatesOr stm t (end e sid stm t1 x1)
  eval_end (some failed) sid stm t t1 x1 m l o =
      let (t3, e3, l3) = close_step-Works step_eval_sid (now x1) t1 o in
      inr (record {
        error = some failed;
        session = [];
        after = t3;
        world = x1;
        is = bind-some _ e3 refl;
        logged = trans _ t1 t3 l l3;
      })
  eval_end none none stm t t1 x1 m l o = inl (refl, m refl refl)
  eval_end none (some sid) stm t t1 x1 m l o =
      let (t2, e2, l2) =
        set_step_info-Works step_eval_sid stm stm true (record t1 { sess_id = sid }) o in
      let (t3, e3, l3) =
        close_step-Works step_eval_sid (now x1) t2 (still_open step_eval_sid _ t2 l2 o) in
      inr (record {
        error = none;
        session = sid;
        after = t3;
        world = x1;
        is = bind-some _ e2 (bind-some _ e3 refl);
        logged = trans _ t2 t3 (trans _ _ t2 (retold sid [] t t1 l) l2) l3;
      })

  pub eval_session_id_lem :
      (c : Conn) (t : Tasker Conn) (x : World)
      → EvaluatesOr t.statements.stm_eval_session_id t (eval_session_id d c t x)
  unfolding eval_session_id
  eval_session_id_lem c t x =
      let stm = t.statements.stm_eval_session_id in
      let title = bytes "evalSessionID" in
      let t0 : Tasker Conn = record (open_step step_eval_sid title (now x) t) { sess_id = [] } in
      let o = open_step-is_open step_eval_sid title (now x) t in
      let (t1, e1, l1) = set_step_info-Works step_eval_sid stm stm false t0 o in
      let l : Logged (record t { sess_id = [] }) t1 =
        trans _ t0 t1 (retold [] t.sess_id t _ (open_step-Logged step_eval_sid title (now x) t))
          l1 in
      let q = query_text c stm x in
      subst (EvaluatesOr stm t) (sym (bind-some (λ u. end q.1 q.2 stm u q.0) e1 refl)) (
        eval_end q.1 q.2 stm t t1 q.0 (λ n k. (c, x, n, k)) l (still_open step_eval_sid t0 t1 l1 o))
