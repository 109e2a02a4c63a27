-- ===== src/Run/Counts.antt =====
-- otasker/oratasker.go: connecting and disconnecting leave the counters of a tasker alone.
use iplsgo.Prelude.{
  [], ℕ, ◌≡◌, refl, ◌∙◌, ap, Bool, true, false, not, ◌||◌, Option, none, some, Str, bytes, str_Eq,
  ◌==◌, ◌>>=◌, if◌then◌else◌,
}
use mathlib.Core.Path.{subst}
use mathlib.Core.Option.{some-injective}
use iplsgo.Tasker.{
  Error, Driver, Tasker, step_connect_num, step_eval_sid, step_disconnect_num, open_step,
  close_step, set_step_info,
}
use iplsgo.Tasker.Connection.{
  noted_sid, drop_conn, disconnect, eval_session_id, logged_on, reconnect, connect,
}
use iplsgo.Tasker.Steps.{Logged, open_step-Logged}
use iplsgo.Run.Frames.{set_step_info-Logged, close_step-Logged}

-- `P` holds of what there is.
pub record Every {A : Type 0} (P : A → Type 0) (o : Option A) : Type 0 where
  pub holds : (a : A) → o ≡ some a → P a

abbrev HoldsAt : {A B : Type 0} (Q : B → Type 0) (o : Option A) (f : A → Option B) → Type 0
HoldsAt {A} {B} Q o f = (b : B) → (o >>= f) ≡ some b → Q b

Every-at :
    {A B : Type 0} (P : A → Type 0) (Q : B → Type 0) (o : Option A) (f : A → Option B)
    → Every P o
    → ((a : A) → P a → Every Q (f a))
    → HoldsAt Q o f
Every-at P Q none f p q b h = cc
Every-at P Q (some a) f p q b h = (q a (p.holds a refl)).holds b h

Every-bind :
    {A B : Type 0} {P : A → Type 0} {Q : B → Type 0} {o : Option A} {f : A → Option B}
    → Every P o
    → ((a : A) → P a → Every Q (f a))
    → Every Q (o >>= f)
Every-bind {P} {Q} {o} {f} p q = record { holds = Every-at P Q o f p q }

Every-some : {A : Type 0} {P : A → Type 0} (a : A) → P a → Every P (some a)
Every-some {P} a p = record { holds = λ b h. subst P (some-injective _ _ h) p }

Every-none : {A : Type 0} {P : A → Type 0} → Every P none
Every-none = record { holds = λ b h. cc }

Every-if :
    {A : Type 0} {P : A → Type 0} (b : Bool) {x y : Option A}
    → Every P x
    → Every P y
    → Every P (if b then x else y)
Every-if true p q = p
Every-if false p q = q

module _ (d : Driver) where
  open d use {World, Conn, now, new_connection, is_connected, close, free, query_text}

  abbrev pub stats : Tasker Conn → ℕ × ℕ
  stats t = (t.log_request_proceeded, t.log_errors_num)

  abbrev pub Same : Tasker Conn → Tasker Conn → Type 0
  Same t t' = stats t' ≡ stats t

  Logged-Same : (t t' : Tasker Conn) → Logged t t' → Same t t'
  Logged-Same t t' l = ap stats l.only

  set_step_info-Same :
      (num : ℕ) (stm show : Str) (b : Bool) (t : Tasker Conn)
      → Every (Same t) (set_step_info num stm show b t)
  set_step_info-Same num stm show b t = record {
    holds = λ t' h. Logged-Same t t' (set_step_info-Logged num stm show b t t' h);
  }

  close_step-Same : (num at : ℕ) (t : Tasker Conn) → Every (Same t) (close_step num at t)
  close_step-Same num at t = record {
    holds = λ t' h. Logged-Same t t' (close_step-Logged num at t t' h);
  }

  open_step-Same :
      (num : ℕ) (name : Str) (at : ℕ) (t : Tasker Conn) → Same t (open_step num name at t)
  open_step-Same num name at t = Logged-Same t _ (open_step-Logged num name at t)

  drop_conn-Same :
      (c : Conn) (t : Tasker Conn) (x : World) → Every (λ r. Same t r.0) (drop_conn d c t x)
  unfolding drop_conn
  drop_conn-Same c t x =
      Every-if (is_connected c x)
        (Every-bind (set_step_info-Same step_disconnect_num _ _ false _) (λ t1 e1.
          Every-bind (set_step_info-Same step_disconnect_num _ _ true t1) (λ t2 e2.
            Every-bind (close_step-Same step_disconnect_num _ t2) (λ t3 e3. Every-some _ (
              e3
              ∙ (e2 ∙ (e1 ∙ open_step-Same step_disconnect_num (bytes "disconnect") (now x) t)))))))
        (Every-some _ refl)

  Every-then :
      (t : Tasker Conn) {o : Option (Option Error × Tasker Conn × World)} (t' : Tasker Conn)
      → Same t t'
      → Every (λ r. Same t' r.1) o
      → Every (λ r. Same t r.1) o
  Every-then t t' e p = record { holds = λ r h. p.holds r h ∙ e }

  pub disconnect-Same : (t : Tasker Conn) (x : World) → Every (λ r. Same t r.0) (disconnect d t x)
  unfolding disconnect
  disconnect-Same t x =
      elim t.conn
        as (λ o.
          Every (λ r. Same t r.0) (elim o [ none ↦ some (t, x) | some c ↦ drop_conn d c t x ])) [
            | none ↦ Every-some _ refl
            | some c ↦ drop_conn-Same c t x
          ]

  sid_at :
      (e : Option Error) (sid : Option Str) (stm : Str) (t : Tasker Conn)
      → Every (Same t) (noted_sid d e sid stm t)
  sid_at (some failed) sid stm t = Every-some t refl
  sid_at none none stm t = Every-none
  sid_at none (some sid) stm t =
      set_step_info-Same step_eval_sid stm stm true (record t { sess_id = sid })

  eval_session_id-Same :
      (c : Conn) (t : Tasker Conn) (x : World) → Every (λ r. Same t r.1) (eval_session_id d c t x)
  unfolding eval_session_id
  eval_session_id-Same c t x =
      let stm = t.statements.stm_eval_session_id in
      let r = query_text c stm x in
      Every-bind
        (set_step_info-Same step_eval_sid stm stm false
          (record (open_step step_eval_sid (bytes "evalSessionID") (now x) t) { sess_id = [] }))
        (λ t1 e1. Every-bind (sid_at r.1 r.2 stm t1) (λ t2 e2.
          Every-bind (close_step-Same step_eval_sid (now r.0) t2) (λ t3 e3.
            Every-some _
              (e3 ∙ (e2 ∙ (e1 ∙ open_step-Same step_eval_sid (bytes "evalSessionID") (now x) t))))))

  ended-Same :
      (e : Option Error) (t : Tasker Conn) (x : World)
      → Every
          (λ (r : Option Error × Tasker Conn × World). Same t r.1)
          (elim e [
            | some failed ↦ some (some failed, t, x)
            | none ↦
                (set_step_info step_connect_num (bytes "connect") (bytes "connect") true t >>= λ t2.
                some (none, t2, x))
          ])
  ended-Same (some failed) t x = Every-some (some failed, t, x) refl
  ended-Same none t x =
      Every-bind (set_step_info-Same step_connect_num (bytes "connect") (bytes "connect") true t)
        (λ t2 e2. Every-some (none, t2, x) e2)

  logged_on-Same :
      (user pass str : Str) (c : Option Conn) (e : Option Error) (t : Tasker Conn) (x : World)
      → Every (λ r. Same t r.1) (logged_on d user pass str c e t x)
  unfolding logged_on
  logged_on-Same user pass str c (some e) t x = Every-some _ refl
  logged_on-Same user pass str none none t x = Every-none
  logged_on-Same user pass str (some c) none t x =
      Every-bind
        (eval_session_id-Same c
          (record t { conn = some c; conn_user_name = user; conn_user_pass = pass; conn_str = str })
          x)
        (λ r e1. Every-then t r.1 e1 (ended-Same r.0 r.1 r.2))

  reconnect-Same :
      (user pass str : Str) (t : Tasker Conn) (x : World)
      → Every (λ r. Same t r.1) (reconnect d user pass str t x)
  unfolding reconnect
  reconnect-Same user pass str t x = Every-bind (disconnect-Same t x) (λ q e0.
      Every-bind
        (set_step_info-Same step_connect_num (bytes "connect") (bytes "connect") false
          (open_step step_connect_num (bytes "connect") (now q.1) q.0))
        (λ t2 e2.
          let n = new_connection user pass str q.1 in
          Every-bind (logged_on-Same user pass str n.1 n.2 t2 n.0) (λ r e3.
            Every-bind (close_step-Same step_connect_num (now r.2) r.1) (λ t4 e4. Every-some _ (
              e4
              ∙ (e3
                  ∙ (e2
                      ∙ (open_step-Same step_connect_num (bytes "connect") (now q.1) q.0
                          ∙ e0))))))))

  pub connect-Same :
      (user pass str : Str) (t : Tasker Conn) (x : World)
      → Every (λ r. Same t r.1) (connect d user pass str t x)
  unfolding connect
  connect-Same user pass str t x =
      elim t.conn
        as (λ o.
          Every (λ r. Same t r.1)
            (elim o [
              | none ↦ reconnect d user pass str t x
              | some c ↦
                  if not (t.conn_user_name == user)
                    || (not (t.conn_user_pass == pass) || not (t.conn_str == str))
                  then reconnect d user pass str t x
                  else if is_connected c x
                  then some (none, t, x)
                  else none
            ])) [
              | none ↦ reconnect-Same user pass str t x
              | some c ↦
                  Every-if _ (reconnect-Same user pass str t x)
                    (Every-if (is_connected c x) (Every-some _ refl) Every-none)
            ]
