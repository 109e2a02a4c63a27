-- ===== src/Run/Outcome.antt =====
-- otasker/oratasker.go: how oracleTasker.Run ends.
use iplsgo.Prelude.{
  ◌+◌, ◌≡◌, refl, sym, ◌∙◌, ap, true, false, ℕ, Option, none, some, ◌⊎◌, is_some, is_empty,
  if◌then◌else◌,
}
use iplsgo.Task.{TaskResult}
use iplsgo.Tasker.{Driver, Tasker}
use iplsgo.Tasker.Disconnect.{IsTidy}
use iplsgo.Tasker.Connect.{Texts}
use iplsgo.Describe.{Cache}
use iplsgo.Params.{Cursor}
use iplsgo.Run.{Arguments, Machine, State, Exit, ok, err, panicked, ◌>>=◌}
use iplsgo.Run.Regular.{IsRegular}
use iplsgo.Run.Request.{Headings, enter, connecting, serve, left, run_task, entered}
use iplsgo.Run.Settled.{Answered, Refused, Ends, settled}

module _ (d : Driver) (c : Cursor) (m : Machine d c) (h : Headings) (a : Arguments) where
  open d use {World, Conn, now, new_connection, is_connected}

  -- What Run gives.
  pub record Runs (t : Tasker Conn) (x : World) (r : Option (Exit TaskResult × State d))
      : Type 0 where
    pub res : TaskResult
    pub after : State d
    pub is : r ≡ some (ok res, after)
    pub page :
        Answered d c m h a (t.log_request_proceeded + 1, t.log_errors_num) res after.tasker
        ⊎ Refused d c m h a (t.log_request_proceeded + 1, t.log_errors_num) res after.tasker
    pub idle : after.tasker.state_is_working ≡ false
    pub finished_at : after.tasker.state_last_finish_dt ≡ some (now after.world)
    pub tidy : IsTidy d t → IsTidy d after.tasker

  module _
      (opens : (x : World)
        → (new_connection a.user_name a.user_pass a.conn_str x).2 ≡ none
        → is_some (new_connection a.user_name a.user_pass a.conn_str x).1 ≡ true) where
    answers :
        (stat : ℕ × ℕ) (exit : Exit TaskResult) (s : State d) (r : Exit TaskResult × State d)
        → (exit, s) ≡ r
        → Ends d c m h a stat exit s.tasker
        → (res : TaskResult) × (r ≡ (ok res, s))
          × (Answered d c m h a stat res s.tasker ⊎ Refused d c m h a stat res s.tasker)
    answers stat (ok res) s r e w = (res, sym e, w)
    answers stat (err x) s r e w = absurd w
    answers stat panicked s r e w = absurd w
    answers stat Exit.running s r e w = absurd w

    -- Where there is an environment, the driver gives a connection whenever it reports no error, the
    -- connection that the tasker has, if any, is alive, the query of the session id gives a text
    -- whenever it gives no error (it is never NULL), and the database and the request are regular
    -- (each reply and each upload that is no error has the values that `run` reads, the columns of a
    -- description have their types, the chunks of a page end within the fuel and none is NULL, and
    -- each parameter and file of the request has a value): Run ends, does not panic, and gives a
    -- result. Either its status is 200 and the tasker keeps a connection of the request's user; or
    -- its status and its page are what packError makes of an error, the connection is closed and one
    -- more error is counted. In both cases one more request is counted, the tasker is not working and
    -- has the time as that of its last finish; and no user and no session is left without a
    -- connection, if none was before.
    pub run_task_answers :
        (t : Tasker Conn) (cache : Cache) (x : World)
        → is_empty a.cgi_env ≡ false
        → ((k : Conn) → t.conn ≡ some k → is_connected k x ≡ true)
        → Texts d t.statements.stm_eval_session_id
        → IsRegular d c m a
        → Runs t x (run_task d c m h a t cache x)
    unfolding run_task enter
    run_task_answers t cache x filled live texts regular =
        let q = settled d c m h a opens t cache x live texts regular in
        let r = left d c m h a (
          ◌>>=◌ d (connecting d c m h a) (serve d c m h a (now x)) (entered d c m h a t cache x)) in
        let (res, e, w) =
          answers (t.log_request_proceeded + 1, t.log_errors_num) r.0 r.1 r refl q.ends in
        record {
          res = res;
          after = r.1;
          is = ap (λ b. if b then none else some r) filled ∙ ap some e;
          page = w;
          idle = q.idle;
          finished_at = q.finished_at;
          tidy = q.tidy;
        }
