-- ===== src/Tasker/Disconnect.antt =====
-- otasker/oratasker.go: what disconnecting leaves behind.
use iplsgo.Prelude.{
  [], ◌≡◌, refl, ap, ◌∙◌, Bool, true, false, Option, none, some, bytes, str_Eq, ◌>>=◌,
  if◌then◌else◌,
}
use iplsgo.Tasker.{Driver, Tasker, step_disconnect_num, open_step}
use iplsgo.Tasker.Connection.{cleared, drop_conn, disconnect}
use iplsgo.Tasker.Steps.{open_step-is_open, set_step_info-Works, close_step-Works, still_open}

pub bind-some :
    {A B : Type 0} {o : Option A} {a : A} (f : A → Option B) {r : Option B}
    → o ≡ some a
    → f a ≡ r
    → (o >>= f) ≡ r
bind-some f e h = ap (λ o. o >>= f) e ∙ h

pub bind-none : {A B : Type 0} {o : Option A} (f : A → Option B) → o ≡ none → (o >>= f) ≡ none
bind-none f e = ap (λ o. o >>= f) e

pub if-cases :
    {A : Type 0} (P : A → Type 0) (b : Bool) (x y : A) → P x → P y → P (if b then x else y)
if-cases P true x y p q = p
if-cases P false x y p q = q

module _ (d : Driver) where
  open d use {World, Conn, now, new_connection, is_connected, close, free, query_text}

  -- Without a connection there is no user, and no session.
  abbrev pub IsBlank : Tasker Conn → Type 0
  IsBlank t =
      (t.conn_user_name ≡ []) × (t.conn_user_pass ≡ []) × (t.conn_str ≡ []) × (t.sess_id ≡ [])

  abbrev pub IsTidy : Tasker Conn → Type 0
  IsTidy t = t.conn ≡ none → IsBlank t

  pub record Disconnects (t : Tasker Conn) (r : Option (Tasker Conn × World)) : Type 0 where
    pub after : Tasker Conn
    pub world : World
    pub is : r ≡ some (after, world)
    pub gone : after.conn ≡ none
    pub same : after.statements ≡ t.statements
    pub blank : IsTidy t → IsBlank after

  clears :
      (t t' : Tasker Conn) (x : World) (r : Option (Tasker Conn × World))
      → t'.statements ≡ t.statements
      → r ≡ some (cleared d t', x)
      → Disconnects t r
  clears t t' x r n e = record {
    after = cleared d t';
    world = x;
    is = e;
    gone = refl;
    same = n;
    blank = λ k. (refl, refl, refl, refl);
  }

  drop_conn_lem : (c : Conn) (t : Tasker Conn) (x : World) → Disconnects t (drop_conn d c t x)
  unfolding drop_conn
  drop_conn_lem c t x =
      let name = bytes "disconnect" in
      let num = step_disconnect_num in
      let t0 = open_step num name (now x) t in
      let (t1, e1, l1) =
        set_step_info-Works num name name false t0 (open_step-is_open num name (now x) t) in
      let o1 = still_open num t0 t1 l1 (open_step-is_open num name (now x) t) in
      let (t2, e2, l2) = set_step_info-Works num name name true t1 o1 in
      let (t3, e3, l3) = close_step-Works num (now (close c x).0) t2 (still_open num t1 t2 l2 o1) in
      if-cases (Disconnects t) (is_connected c x) _ _
        (clears t t3 (close c x).0 _
          (ap (λ (u : Tasker Conn). u.statements) l3.only
            ∙ (ap (λ (u : Tasker Conn). u.statements) l2.only
                ∙ ap (λ (u : Tasker Conn). u.statements) l1.only))
          (bind-some _ e1 (bind-some _ e2 (bind-some _ e3 refl))))
        (clears t t (free c x) _ refl refl)

  disconnect_at :
      (o : Option Conn) (t : Tasker Conn) (x : World)
      → t.conn ≡ o
      → Disconnects t (elim o [ none ↦ some (t, x) | some c ↦ drop_conn d c t x ])
  disconnect_at none t x h = record {
    after = t;
    world = x;
    is = refl;
    gone = h;
    same = refl;
    blank = λ k. k h;
  }
  disconnect_at (some c) t x h = drop_conn_lem c t x

  -- disconnect never panics, and leaves no connection, no user and no session, if there was no user
  -- and no session without a connection before.
  pub disconnect_lem : (t : Tasker Conn) (x : World) → Disconnects t (disconnect d t x)
  unfolding disconnect
  disconnect_lem t x = disconnect_at t.conn t x refl
