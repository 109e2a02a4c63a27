-- ===== src/Tasker/Connect.antt =====
-- otasker/oratasker.go: what connecting leaves behind.
use iplsgo.Prelude.{
  ◌⊎◌, ◌>>=◌, ◌≡◌, sym, refl, ap, ◌∙◌, Bool, true, false, not, ◌||◌, Option, none, some, arith, Str,
  bytes, ◌==◌, str_Eq, if◌then◌else◌, is_some, inl, inr, Bool-cases, str_eq_iff, str_eq_refl,
}
use mathlib.Core.Path.{subst}
use mathlib.Core.Option.{some-injective}
use iplsgo.Tasker.Session.{Mute}
use iplsgo.Tasker.{close_step, Statements, Error, Driver, Tasker, step_connect_num, open_step}
use iplsgo.Tasker.Connection.{logged_on, reconnect, connect}
use iplsgo.Tasker.Steps.{
  Logged, open_step-Logged, open_step-is_open, set_step_info-Works, close_step-Works, still_open,
}
use iplsgo.Tasker.Disconnect.{bind-some, bind-none, IsBlank, IsTidy, disconnect_lem}
use iplsgo.Tasker.Logon.{LoggedOnOr, absent, Serves, served, logged_on_lem}

module _ (d : Driver) where
  open d use {World, Conn, now, new_connection, is_connected, query_text}

  -- The query of the session, when it has no error, gives a text.
  abbrev pub Texts : Str → Type 0
  Texts stm =
      (c : Conn) (x : World) → (query_text c stm x).1 ≡ none → is_some (query_text c stm x).2 ≡ true

  module _ (user pass str : Str) where
    pub record Connects (t : Tasker Conn) (r : Option (Option Error × Tasker Conn × World))
        : Type 0 where
      pub error : Option Error
      pub after : Tasker Conn
      pub world : World
      pub is : r ≡ some (error, after, world)
      pub serves : error ≡ none → Serves d user pass str after
      pub tidy : IsTidy d t → IsTidy d after

    abbrev pub ConnectsOr : Str → Tasker Conn → Option (Option Error × Tasker Conn × World) → Type 0
    ConnectsOr stm t r = ((r ≡ none) × Mute d stm) ⊎ Connects t r

    blanked : (t t' : Tasker Conn) → Logged t t' → IsBlank d t → IsBlank d t'
    blanked t t' l b = subst (IsBlank d) (sym l.only) b

    tidied : (t t' : Tasker Conn) → Logged t t' → IsTidy d t → IsTidy d t'
    tidied t t' l k = subst (IsTidy d) (sym l.only) k

    -- The driver gives a connection whenever it does not report an error.
    module _
        (opens : (x : World)
          → (new_connection user pass str x).2 ≡ none
          → is_some (new_connection user pass str x).1 ≡ true) where
      connects_after :
          (stm : Str) (t t2 : Tasker Conn) (r : Option (Option Error × Tasker Conn × World))
          → (IsTidy d t → IsBlank d t2)
          → LoggedOnOr d user pass str stm t2 r
          → ConnectsOr stm t
              (r >>= λ p. close_step step_connect_num (now p.2) p.1 >>= λ t4. some (p.0, t4, p.2))
      connects_after stm t t2 r b (inl (e, m)) = inl (bind-none _ e, m)
      connects_after stm t t2 r b (inr q) =
          let (t4, e4, l4) = close_step-Works step_connect_num (now q.world) q.after q.still in
          inr (record {
            error = q.error;
            after = t4;
            world = q.world;
            is = bind-some _ q.is (bind-some _ e4 refl);
            serves = λ h. served d user pass str q.after t4 l4 (q.serves h);
            tidy = λ h. tidied q.after t4 l4 (q.tidy (b h));
          })

      reconnect_lem :
          (t : Tasker Conn) (x : World)
          → ConnectsOr t.statements.stm_eval_session_id t (reconnect d user pass str t x)
      unfolding reconnect
      reconnect_lem t x =
          let name = bytes "connect" in
          let num = step_connect_num in
          let a = disconnect_lem d t x in
          let t0 : Tasker Conn = open_step num name (now a.world) a.after in
          let o = open_step-is_open num name (now a.world) a.after in
          let (t2, e2, l2) = set_step_info-Works num name name false t0 o in
          let n = new_connection user pass str a.world in
          let same : t2.statements ≡ t.statements =
            ap (λ (u : Tasker Conn). u.statements) l2.only ∙ a.same in
          let q =
            connects_after t2.statements.stm_eval_session_id t t2
              (logged_on d user pass str n.1 n.2 t2 n.0)
              (λ h.
                blanked t0 t2 l2 (
                  blanked a.after t0 (open_step-Logged num name (now a.world) a.after) (a.blank h)))
              (logged_on_lem d user pass str n.1 n.2 t2 n.0 (opens a.world)
                (still_open num t0 t2 l2 o)) in
          subst
            (λ (u : Statements). ConnectsOr u.stm_eval_session_id t (reconnect d user pass str t x))
            same
            (subst (ConnectsOr t2.statements.stm_eval_session_id t)
              (sym (bind-some _ a.is (bind-some _ e2 refl))) q)

      connect_at :
          (o : Option Conn) (t : Tasker Conn) (x : World)
          → t.conn ≡ o
          → ((c : Conn) → t.conn ≡ some c → is_connected c x ≡ true)
          → ConnectsOr t.statements.stm_eval_session_id t (elim o [
            | none ↦ reconnect d user pass str t x
            | some c ↦
                if not (t.conn_user_name == user)
                  || (not (t.conn_user_pass == pass) || not (t.conn_str == str))
                then reconnect d user pass str t x
                else if is_connected c x
                then some (none, t, x)
                else none
          ])
      connect_at none t x h live = reconnect_lem t x
      connect_at (some c) t x h live =
          let other : Bool =
            not (t.conn_user_name == user)
            || (not (t.conn_user_pass == pass) || not (t.conn_str == str)) in
          elim (Bool-cases other) [
            | inl e ↦
                subst
                  (λ b. ConnectsOr t.statements.stm_eval_session_id t (
                    if b
                    then reconnect d user pass str t x
                    else if is_connected c x
                    then some (none, t, x)
                    else none))
                  (sym e) (reconnect_lem t x)
            | inr e ↦ inr (record {
              error = none;
              after = t;
              world = x;
              is = ground (arith, live c h);
              serves = λ n. record {
                there = ap is_some h;
                user_name = ground (arith, str_eq_iff t.conn_user_name user);
                user_pass = ground (arith, str_eq_iff t.conn_user_pass pass);
                target = ground (arith, str_eq_iff t.conn_str str);
              };
              tidy = λ k. k;
            })
          ]

      connect-ConnectsOr :
          (t : Tasker Conn) (x : World)
          → ((c : Conn) → t.conn ≡ some c → is_connected c x ≡ true)
          → ConnectsOr t.statements.stm_eval_session_id t (connect d user pass str t x)
      unfolding connect
      connect-ConnectsOr t x live = connect_at t.conn t x refl live

      told :
          (stm : Str) (t : Tasker Conn) (r : Option (Option Error × Tasker Conn × World))
          → Texts stm
          → ConnectsOr stm t r
          → Connects t r
      told stm t r h (inl (e, (c, x, n, k))) = absurd (absent _ (h c x n) k)
      told stm t r h (inr q) = q

      -- Where the driver gives a connection whenever it reports no error, the query of the session, when
      -- it has no error, gives a text, and the connection that the tasker has, if any, is alive: connect
      -- does not panic. When it reports no error the tasker has a connection, recorded with the user,
      -- the password and the database that were asked for; and if there was no user and no session
      -- without a connection before, there is none afterwards.
      pub connect_lem :
          (t : Tasker Conn) (x : World)
          → ((c : Conn) → t.conn ≡ some c → is_connected c x ≡ true)
          → Texts t.statements.stm_eval_session_id
          → Connects t (connect d user pass str t x)
      connect_lem t x live h =
          told t.statements.stm_eval_session_id t (connect d user pass str t x) h
            (connect-ConnectsOr t x live)

      reuse_at :
          (o : Option Conn) (t : Tasker Conn) (x : World)
          → t.conn ≡ o
          → Serves d user pass str t
          → ((c : Conn) → t.conn ≡ some c → is_connected c x ≡ true)
          → connect d user pass str t x ≡ some (none, t, x)
      unfolding connect
      reuse_at none t x h s alive = absurd (absent t.conn s.there h)
      reuse_at (some c) t x h s alive = ground (
        arith,
        alive c h,
        h,
        s.user_name,
        s.user_pass,
        s.target,
        str_eq_refl user,
        str_eq_refl pass,
        str_eq_refl str,
      )

      -- Where the driver gives a connection whenever it reports no error, and the connection before
      -- and in between is alive: a second connect of the same user, with the connection alive,
      -- changes nothing: the tasker's connection and its session are used again.
      pub connect-connect :
          (t t' : Tasker Conn) (x x' : World)
          → ((c : Conn) → t.conn ≡ some c → is_connected c x ≡ true)
          → connect d user pass str t x ≡ some (none, t', x')
          → ((c : Conn) → t'.conn ≡ some c → is_connected c x' ≡ true)
          → connect d user pass str t' x' ≡ some (none, t', x')
      connect-connect t t' x x' live e alive = elim (connect-ConnectsOr t x live) [
        | inl (n, m) ↦ absurd (ground (arith, n, e))
        | inr r ↦
            let q = some-injective _ _ (sym r.is ∙ e) in
            reuse_at t'.conn t' x' refl
              (subst (Serves d user pass str) (ap (λ p. p.1) q) (r.serves (ap (λ p. p.0) q))) alive
      ]
