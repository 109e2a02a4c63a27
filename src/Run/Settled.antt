-- ===== src/Run/Settled.antt =====
-- otasker/oratasker.go: oracleTasker.Run up to its deferred function.
use iplsgo.Prelude.{
  ℕ, ◌+◌, ◌≡◌, refl, sym, ◌∙◌, ap, true, false, Option, none, some, ◌⊎◌, inl, inr, is_some,
}
use mathlib.Core.Path.{subst}
use iplsgo.Task.{TaskResult}
use iplsgo.Tasker.{Error, Driver, Tasker}
use iplsgo.Tasker.Disconnect.{IsTidy, disconnect_lem}
use iplsgo.Tasker.Connect.{Texts, connect_lem}
use iplsgo.Tasker.Errors.{pack_error}
use iplsgo.Tasker.Logon.{Serves, served, absent}
use iplsgo.Describe.{Cache}
use iplsgo.Params.{Cursor}
use iplsgo.Run.{Arguments, Machine, State, Exit, next, ok, err, panicked, ◌>>=◌}
use iplsgo.Run.Body.{run}
use iplsgo.Run.Counts.{stats, disconnect-Same, connect-Same}
use iplsgo.Run.Behaves.{run-Behaves}
use iplsgo.Run.Regular.{IsRegular}
use iplsgo.Run.Rules.{is_cut, Behaves}
use iplsgo.Run.Request.{
  Headings, enter, leave, dump_error, packed, fail, connected, connecting, disconnected, finished,
  running, serve, left, entered,
}

module _ (d : Driver) (c : Cursor) (m : Machine d c) (h : Headings) (a : Arguments) where
  open d use {World, Conn, now, new_connection, is_connected}

  abbrev ServesUser : Tasker Conn → Type 0
  ServesUser = Serves d a.user_name a.user_pass a.conn_str

  -- The page of `run`, with the connection kept for the user's next request.
  pub record Answered (stat : ℕ × ℕ) (res : TaskResult) (t : Tasker Conn) : Type 0 where
    pub status : res.status_code ≡ 200
    pub serves : ServesUser t
    pub counts : stats d t ≡ stat

  -- The page of an error, with the connection closed and the error counted.
  pub record Refused (stat : ℕ × ℕ) (res : TaskResult) (t : Tasker Conn) : Type 0 where
    pub error : Error
    pub status : res.status_code ≡ (pack_error error).0
    pub content : res.content ≡ (pack_error error).1
    pub closed : t.conn ≡ none
    pub counts : stats d t ≡ (stat.0, stat.1 + 1)

  abbrev pub Ends : ℕ × ℕ → Exit TaskResult → Tasker Conn → Type 0
  Ends stat (ok res) t = Answered stat res t ⊎ Refused stat res t
  Ends stat (err e) t = ⊥
  Ends stat panicked t = ⊥
  Ends stat Exit.running t = ⊥

  -- How Run ends, before its deferred function.
  pub record Settles (t : Tasker Conn) (r : Exit (Unit {0}) × State d) : Type 0 where
    pub ends : Ends (stats d t) (left d c m h a r).0 (left d c m h a r).1.tasker
    pub idle : (left d c m h a r).1.tasker.state_is_working ≡ false
    pub finished_at :
        (left d c m h a r).1.tasker.state_last_finish_dt ≡ some (now (left d c m h a r).1.world)
    pub tidy : IsTidy d t → IsTidy d (left d c m h a r).1.tasker

  repacked :
      (t u : Tasker Conn)
      → u.conn ≡ t.conn
      → u.conn_user_name ≡ t.conn_user_name
      → u.conn_user_pass ≡ t.conn_user_pass
      → u.conn_str ≡ t.conn_str
      → ServesUser t
      → ServesUser u
  repacked t u e1 e2 e3 e4 v = record {
    there = ap is_some e1 ∙ v.there;
    user_name = e2 ∙ v.user_name;
    user_pass = e3 ∙ v.user_pass;
    target = e4 ∙ v.target;
  }

  left-Serves : (s : State d) → ServesUser s.tasker → ServesUser (leave d c m h a s).tasker
  unfolding leave
  left-Serves s v = repacked s.tasker (leave d c m h a s).tasker refl refl refl refl v

  fail_lem :
      (t : Tasker Conn) (bg : ℕ) (e : Error) (s : State d)
      → stats d s.tasker ≡ stats d t
      → (IsTidy d t → IsTidy d s.tasker)
      → Settles t (fail d c m h a bg e s)
  unfolding fail leave dump_error
  fail_lem t bg e s n k =
      let s1 : State d = dump_error d c m h a e (packed d c m h a e s) in
      let g = disconnect_lem d s1.tasker s1.world in
      let q = (disconnect-Same d s1.tasker s1.world).holds (g.after, g.world) g.is ∙ n in
      subst (λ o. Settles t (disconnected d c m h a bg s1 o)) (sym g.is)
        (record {
          ends = inr (record {
            error = e;
            status = refl;
            content = refl;
            closed = g.gone;
            counts = ap (λ (p : ℕ × ℕ). (p.0, p.1 + 1)) q;
          });
          idle = refl;
          finished_at = refl;
          tidy = λ b z. g.blank (k b);
        })

  serving-IsTidy : (t : Tasker Conn) → ServesUser t → IsTidy d t
  serving-IsTidy t v e = absurd (absent t.conn v.there e)

  finished_lem :
      (t : Tasker Conn) (bg : ℕ) (r : Exit (Unit {0})) (s : State d)
      → stats d s.tasker ≡ stats d t
      → ServesUser s.tasker
      → is_cut r ≡ false
      → Settles t (finished d c m h a bg (r, s))
  unfolding leave
  finished_lem t bg (ok u) s n v w = record {
    ends = inl (record { status = refl; serves = left-Serves s v; counts = n });
    idle = refl;
    finished_at = refl;
    tidy = λ k. serving-IsTidy s.tasker v;
  }
  finished_lem t bg (err e) s n v w = fail_lem t bg e s n (λ k. serving-IsTidy s.tasker v)
  finished_lem t bg panicked s n v w = cc
  finished_lem t bg Exit.running s n v w = cc

  running_lem :
      (t : Tasker Conn) (bg : ℕ) (o : Option Conn) (s : State d)
      → s.tasker.conn ≡ o
      → stats d s.tasker ≡ stats d t
      → ServesUser s.tasker
      → IsRegular d c m a
      → Settles t (running d c m h a bg o s)
  running_lem t bg none s z n v g = absurd (absent s.tasker.conn v.there z)
  running_lem t bg (some k) s z n v g =
      let b : Behaves d (IsRegular d c m a) none (run d c m k a) = run-Behaves d c m k a in
      let l = b.logs s in
      let r = run d c m k a s in
      finished_lem t bg r.0 r.1 (ap (stats d) l.only ∙ n)
        (served d a.user_name a.user_pass a.conn_str s.tasker r.1.tasker l v) (b.calm g s refl)

  serve_lem :
      (t : Tasker Conn) (bg : ℕ) (e : Option Error) (s : State d)
      → stats d s.tasker ≡ stats d t
      → (IsTidy d t → IsTidy d s.tasker)
      → (e ≡ none → ServesUser s.tasker)
      → IsRegular d c m a
      → Settles t (serve d c m h a bg e s)
  serve_lem t bg (some e) s n k v g = fail_lem t bg e s n k
  serve_lem t bg none s n k v g = running_lem t bg s.tasker.conn s refl n (v refl) g

  module _
      (opens : (x : World)
        → (new_connection a.user_name a.user_pass a.conn_str x).2 ≡ none
        → is_some (new_connection a.user_name a.user_pass a.conn_str x).1 ≡ true) where
    pub settled :
        (t : Tasker Conn) (cache : Cache) (x : World)
        → ((k : Conn) → t.conn ≡ some k → is_connected k x ≡ true)
        → Texts d t.statements.stm_eval_session_id
        → IsRegular d c m a
        → Settles
            (enter d c m h a t)
            (◌>>=◌ d (connecting d c m h a) (serve d c m h a (now x)) (entered d c m h a t cache x))
    unfolding enter
    settled t cache x live texts regular =
        let u = enter d c m h a t in
        let g = connect_lem d a.user_name a.user_pass a.conn_str opens u x live texts in
        let n =
          (connect-Same d a.user_name a.user_pass a.conn_str u x).holds (g.error, g.after, g.world)
            g.is in
        subst
          (λ o. Settles u (
            next d (connected d c m h a (entered d c m h a t cache x) o) (serve d c m h a (now x))))
          (sym g.is) (serve_lem u (now x) g.error _ n g.tidy g.serves regular)
