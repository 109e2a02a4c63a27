-- ===== src/Tasker/Logon.antt =====
-- otasker/oratasker.go: what logging on leaves behind.
use iplsgo.Prelude.{
  ◌⊎◌, inl, inr, ◌≡◌, sym, refl, true, Option, none, some, Str, bytes, str_Eq, ◌>>=◌, is_some,
}
use mathlib.Core.Path.{subst}
use iplsgo.Tasker.{Error, Driver, Tasker, step_connect_num, set_step_info}
use iplsgo.Tasker.Connection.{eval_session_id, logged_on}
use iplsgo.Tasker.Steps.{is_open, Logged, set_step_info-Works, still_open}
use iplsgo.Tasker.Disconnect.{bind-some, bind-none, IsBlank, IsTidy}
use iplsgo.Tasker.Session.{Mute, EvaluatesOr, eval_session_id_lem}

pub absent : {A : Type 0} (o : Option A) → is_some o ≡ true → o ≡ none → ⊥
absent none h e = cc
absent (some a) h e = cc

module _ (d : Driver) where
  open d use {World, Conn, now, new_connection, is_connected}

  module _ (user pass str : Str) where
    -- A connection of the user.
    pub record Serves (t : Tasker Conn) : Type 0 where
      pub there : is_some t.conn ≡ true
      pub user_name : t.conn_user_name ≡ user
      pub user_pass : t.conn_user_pass ≡ pass
      pub target : t.conn_str ≡ str

    pub served : (t t' : Tasker Conn) → Logged t t' → Serves t → Serves t'
    served t t' l s = subst Serves (sym l.only) (record {
      there = s.there;
      user_name = s.user_name;
      user_pass = s.user_pass;
      target = s.target;
    })

    -- What follows NewConnection, with the step still open.
    pub record LoggedOn (t : Tasker Conn) (r : Option (Option Error × Tasker Conn × World))
        : Type 0 where
      pub error : Option Error
      pub after : Tasker Conn
      pub world : World
      pub is : r ≡ some (error, after, world)
      pub serves : error ≡ none → Serves after
      pub tidy : IsBlank d t → IsTidy d after
      pub still : is_open step_connect_num after ≡ true

    serving-IsTidy : (t : Tasker Conn) → Serves t → IsTidy d t
    serving-IsTidy t s e = absurd (absent t.conn s.there e)

    abbrev connected : Conn → Tasker Conn → Tasker Conn
    connected c t = record t {
      conn = some c;
      conn_user_name = user;
      conn_user_pass = pass;
      conn_str = str;
    }

    logged_end :
        (e : Option Error) (t t1 : Tasker Conn) (x1 : World)
        → Serves t1
        → is_open step_connect_num t1 ≡ true
        → LoggedOn t (elim e [
          | some failed ↦ some (some failed, t1, x1)
          | none ↦
              (set_step_info step_connect_num (bytes "connect") (bytes "connect") true t1 >>= λ t2.
              some (none, t2, x1))
        ])
    logged_end (some failed) t t1 x1 s o = record {
      error = some failed;
      after = t1;
      world = x1;
      is = refl;
      serves = λ e. s;
      tidy = λ b. serving-IsTidy t1 s;
      still = o;
    }
    logged_end none t t1 x1 s o =
        let (t2, e2, l2) =
          set_step_info-Works step_connect_num (bytes "connect") (bytes "connect") true t1 o in
        let s2 = served t1 t2 l2 s in
        record {
          error = none;
          after = t2;
          world = x1;
          is = bind-some _ e2 refl;
          serves = λ e. s2;
          tidy = λ b. serving-IsTidy t2 s2;
          still = still_open step_connect_num t1 t2 l2 o;
        }

    abbrev pub LoggedOnOr : Str → Tasker Conn → Option (Option Error × Tasker Conn × World) → Type 0
    LoggedOnOr stm t r = ((r ≡ none) × Mute d stm) ⊎ LoggedOn t r

    -- After evalSessionID.
    logged_after :
        (stm : Str) (t u : Tasker Conn) (r : Option (Option Error × Tasker Conn × World))
        → ((sid : Str) → Serves (record u { sess_id = sid }))
        → is_open step_connect_num u ≡ true
        → EvaluatesOr d stm u r
        → LoggedOnOr stm t (
            r >>= λ p. elim p.0 [
              | some failed ↦ some (some failed, p.1, p.2)
              | none ↦
                  (set_step_info step_connect_num (bytes "connect") (bytes "connect") true p.1
                    >>= λ t2. some (none, t2, p.2))
            ])
    logged_after stm t u r su o (inl (e, m)) = inl (bind-none _ e, m)
    logged_after stm t u r su o (inr v) =
        let q =
          logged_end v.error t v.after v.world (served _ v.after v.logged (su v.session))
            (still_open step_connect_num (record u { sess_id = v.session }) v.after v.logged o) in
        inr (record {
          error = q.error;
          after = q.after;
          world = q.world;
          is = bind-some _ v.is q.is;
          serves = q.serves;
          tidy = q.tidy;
          still = q.still;
        })

    pub logged_on_lem :
        (c : Option Conn) (e : Option Error) (t : Tasker Conn) (x : World)
        → (e ≡ none → is_some c ≡ true)
        → is_open step_connect_num t ≡ true
        → LoggedOnOr t.statements.stm_eval_session_id t (logged_on d user pass str c e t x)
    unfolding logged_on
    logged_on_lem c (some e) t x k o = inr (record {
      error = some e;
      after = record t { conn = c };
      world = x;
      is = refl;
      serves = λ h. cc;
      tidy = λ b h. b;
      still = o;
    })
    logged_on_lem none none t x k o = absurd (absent {A = Conn} none (k refl) refl)
    logged_on_lem (some c) none t x k o =
        let u : Tasker Conn = connected c t in
        logged_after t.statements.stm_eval_session_id t u (eval_session_id d c u x)
          (λ sid. record { there = refl; user_name = refl; user_pass = refl; target = refl }) o
          (eval_session_id_lem d c u x)
