-- ===== src/Tasker/Connection.antt =====
-- otasker/oratasker.go: how a tasker connects, disconnects and interrupts its session.
use iplsgo.Prelude.{
  [], ◌∷◌, true, false, not, ◌||◌, Option, none, some, Str, bytes, ◌==◌, ◌>>=◌, nat_eq, str_Eq,
  if◌then◌else◌, is_empty,
}
use iplsgo.Tasker.{
  Error, Driver, Tasker, step_connect_num, step_eval_sid, step_disconnect_num, init_log, open_step,
  close_step, set_step_info,
}

-- The text of errgo.Newf in Break: that there is no information on the session, in Russian.
abbrev no_session : Str
no_session =
    208 ∷ 158 ∷ 209 ∷ 130 ∷ 209 ∷ 129 ∷ 209 ∷ 131 ∷ 209 ∷ 130 ∷ 209 ∷ 129 ∷ 209 ∷ 130 ∷ 208 ∷ 178
    ∷ 209 ∷ 131 ∷ 208 ∷ 181 ∷ 209 ∷ 130 ∷ 32 ∷ 208 ∷ 184 ∷ 208 ∷ 189 ∷ 209 ∷ 132 ∷ 208 ∷ 190 ∷ 209
    ∷ 128 ∷ 208 ∷ 188 ∷ 208 ∷ 176 ∷ 209 ∷ 134 ∷ 208 ∷ 184 ∷ 209 ∷ 143 ∷ 32 ∷ 208 ∷ 190 ∷ 32 ∷ 209
    ∷ 129 ∷ 208 ∷ 181 ∷ 209 ∷ 129 ∷ 209 ∷ 129 ∷ 208 ∷ 184 ∷ 208 ∷ 184 ∷ []

module _ (d : Driver) where
  open d use {World, Conn, now, new_connection, is_connected, close, free, query_text, kill}

  -- A method: it may panic, or return an error and leave the tasker and the world changed.
  abbrev pub Method : Type 0
  Method = Tasker Conn → World → Option (Option Error × Tasker Conn × World)

  abbrev pub cleared : Tasker Conn → Tasker Conn
  cleared t = record t {
    conn = none;
    conn_user_name = [];
    conn_user_pass = [];
    conn_str = [];
    sess_id = [];
  }

  unfoldable pub drop_conn : Conn → Tasker Conn → World → Option (Tasker Conn × World)
  unfolding open_step close_step set_step_info
  drop_conn c t x =
      if is_connected c x
      then (do
        let name = bytes "disconnect"
        t1 ←
            set_step_info step_disconnect_num name name false
              (open_step step_disconnect_num name (now x) t)
        let x1 = (close c x).0
        t2 ← set_step_info step_disconnect_num name name true t1
        t3 ← close_step step_disconnect_num (now x1) t2
        some (cleared t3, x1))
      else some (cleared t, free c x)

  -- disconnect
  unfoldable pub disconnect : Tasker Conn → World → Option (Tasker Conn × World)
  unfolding drop_conn
  disconnect t x = elim t.conn [ none ↦ some (t, x) | some c ↦ drop_conn c t x ]

  -- The type assertion panics on a column that is not a text, such as a null.
  abbrev pub noted_sid : Option Error → Option Str → Str → Tasker Conn → Option (Tasker Conn)
  noted_sid (some failed) sid stm t = some t
  noted_sid none none stm t = none
  noted_sid none (some sid) stm t =
      set_step_info step_eval_sid stm stm true (record t { sess_id = sid })

  -- evalSessionID, with its deferred closeStep; none is a panic
  unfoldable pub eval_session_id : Conn → Method
  unfolding open_step close_step set_step_info
  eval_session_id c t x = do
    let stm = t.statements.stm_eval_session_id
    t1 ←
        set_step_info step_eval_sid stm stm false
          (record (open_step step_eval_sid (bytes "evalSessionID") (now x) t) { sess_id = [] })
    let (x1, e, sid) = query_text c stm x
    t2 ← noted_sid e sid stm t1
    t3 ← close_step step_eval_sid (now x1) t2
    some (e, t3, x1)

  -- What follows NewConnection in connect, up to the deferred closeStep.
  unfoldable pub logged_on : Str → Str → Str → Option Conn → Option Error → Method
  unfolding eval_session_id set_step_info
  logged_on user pass str c (some e) t x = some (some e, record t { conn = c }, x)
  logged_on user pass str none none t x = none
  logged_on user pass str (some c) none t x = do
    (e, t1, x1) ←
        eval_session_id c
          (record t { conn = some c; conn_user_name = user; conn_user_pass = pass; conn_str = str })
          x
    elim e [
      | some failed ↦ some (some failed, t1, x1)
      | none ↦ (do
        t2 ← set_step_info step_connect_num (bytes "connect") (bytes "connect") true t1
        some (none, t2, x1))
    ]

  unfoldable pub reconnect : Str → Str → Str → Method
  unfolding disconnect logged_on open_step close_step set_step_info
  reconnect user pass str t x = do
    (t1, x1) ← disconnect t x
    t2 ←
        set_step_info step_connect_num (bytes "connect") (bytes "connect") false
          (open_step step_connect_num (bytes "connect") (now x1) t1)
    let (x2, c, e) = new_connection user pass str x1
    (r, t3, x3) ← logged_on user pass str c e t2 x2
    t4 ← close_step step_connect_num (now x3) t3
    some (r, t4, x3)

  -- connect
  unfoldable pub connect : Str → Str → Str → Method
  unfolding reconnect
  connect user pass str t x = elim t.conn [
    | none ↦ reconnect user pass str t x
    | some c ↦
        if not (t.conn_user_name == user)
          || (not (t.conn_user_pass == pass) || not (t.conn_str == str))
        then reconnect user pass str t x
        else if is_connected c x
        then some (none, t, x)
        else none
  ]

  -- CloseAndFree
  unfoldable pub close_and_free : Method
  unfolding init_log
  close_and_free t x = elim t.conn [
    | none ↦ some (none, init_log t, x)
    | some c ↦
        let (x1, e) = close c x in
        elim e [ some failed ↦ some (some failed, t, x1) | none ↦ some (none, init_log t, x1) ]
  ]

  -- killSession: over a connection of its own, which is closed in the end
  unfoldable pub kill_session : Str → Str → Str → Str → Str → World → Option (World × Option Error)
  kill_session stm user pass sid session x =
      let (x1, c, e) = new_connection user pass sid x in
      elim e [
        | some failed ↦ some (x1, some failed)
        | none ↦ elim c [
          | none ↦ none
          | some k ↦
              let (x2, e2, ret, msg) = kill k stm session x1 in
              let x3 = (close k x2).0 in
              elim e2 [
                | some failed ↦ some (x3, some failed)
                | none ↦ some (x3, if ret == 1 then none else some (Error.plain msg))
              ]
        ]
      ]

  break_connected : Conn → Tasker Conn → World → Option (World × Option Error)
  unfolding kill_session
  break_connected c t x =
      if is_connected c x
      then (if is_empty t.sess_id
          then some (x, some (Error.plain no_session))
          else kill_session t.statements.stm_kill_session t.conn_user_name t.conn_user_pass
              t.conn_str t.sess_id x)
      else some (x, none)

  -- Break
  unfoldable pub break : Tasker Conn → World → Option (World × Option Error)
  unfolding break_connected
  break t x =
      if t.state_is_working
      then elim t.conn [ none ↦ some (x, none) | some c ↦ break_connected c t x ]
      else some (x, none)
