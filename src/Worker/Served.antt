-- ===== src/Worker/Served.antt =====
-- A request gets its result, and its worker is free for the next one.
use iplsgo.Prelude.{
  ℕ, ◌≡◌, refl, ap, ◌∙◌, true, false, none, some, List, [], ◌∷◌, arith, Str, eqb_iff, str_Eq,
  str_eq_refl,
}
use iplsgo.Gostd.Maps.{lookup, insert, lookup-insert, lookup-delete}
use iplsgo.Task.{TaskResult, Request}
use iplsgo.Worker.{
  Listener, Worker, Client, State, register, forget, finish, out_chan, after_signal,
}
use iplsgo.Worker.Steps.{Event, calls, listens, step, play, play-cons}
use iplsgo.Worker.Progress.{
  At, begun, filled, checks, takes, registers, sends, runs, delivers, receives, forgets, finishes,
  signals,
}

-- The worker waits for work, its token is there, and the task is not on its list.
pub record IsReady (task : Str) (x : Worker) : Type 0 where
  pub signal : x.signal ≡ true
  pub selecting : x.listener ≡ Listener.selecting
  pub unlisted : out_chan x task ≡ none

-- The steps of a call that has found its worker, and of the listener.
abbrev pub serving : ℕ → ℕ → TaskResult → List Event
serving c w res =
    calls c
    ∷ calls c
    ∷ calls c
    ∷ calls c
    ∷ listens w res
    ∷ listens w res
    ∷ calls c
    ∷ calls c
    ∷ listens w res
    ∷ listens w res
    ∷ []

module _ (up : Str → Str) (c : ℕ) (r : Request) (w : ℕ) (res : TaskResult) where
  -- The caller has the result, the token is back, and the task is off the list.
  pub record IsServed (t : State) : Type 0 where
    pub result : t.clients c ≡ Client.returned res
    pub signal : (t.workers w).signal ≡ true
    pub listener : (t.workers w).listener ≡ after_signal res
    pub unlisted : out_chan (t.workers w) r.work.task_id ≡ none

  -- The events lead to such a state.
  abbrev pub Serves : List Event → State → Type 0
  Serves es s = (t : State) × (play up es s ≡ some t) × IsServed t

  pub first :
      (e : Event) (es : List Event) (s t : State)
      → step up e s ≡ some t
      → Serves es t
      → Serves (e ∷ es) s
  first e es s t h (u, p, k) = (u, play-cons up e es s t h p, k)

  gone : (x : Worker) → lookup r.work.task_id (forget r.work.task_id x).out_chan_list ≡ none
  unfolding forget
  gone x = ground (
    arith,
    lookup-delete r.work.task_id r.work.task_id x.out_chan_list,
    str_eq_refl r.work.task_id,
  )

  listed :
      (x : Worker)
      → lookup r.work.task_id (insert r.work.task_id x.next_chan x.out_chan_list) ≡ some x.next_chan
  listed x = ground (
    arith,
    lookup-insert r.work.task_id r.work.task_id x.next_chan x.out_chan_list,
    str_eq_refl r.work.task_id,
  )

  signalling_serves :
      (x : Worker) (s : State)
      → x.listener ≡ Listener.signalling res
      → x.signal ≡ false
      → lookup r.work.task_id x.out_chan_list ≡ none
      → At up c r w (Client.returned res) x s
      → Serves (listens w res ∷ []) s
  unfolding out_chan play
  signalling_serves x s h f g a =
      let (t, e, b) = signals up c r w res x (Client.returned res) h f s a in
      first (listens w res) [] s t e (
        t,
        refl,
        record {
          result = b.0;
          signal = ap (λ x. x.signal) b.1;
          listener = ap (λ x. x.listener) b.1;
          unlisted = ap (λ x. lookup r.work.task_id x.out_chan_list) b.1 ∙ g;
        },
      )

  finishing_serves :
      (x : Worker) (s : State)
      → x.listener ≡ Listener.finishing res
      → x.signal ≡ false
      → lookup r.work.task_id x.out_chan_list ≡ none
      → At up c r w (Client.returned res) x s
      → Serves (listens w res ∷ listens w res ∷ []) s
  unfolding finish
  finishing_serves x s h f g a =
      let (t, e, b) = finishes up c r w res x (Client.returned res) h s a in
      first (listens w res) _ s t e (signalling_serves _ t refl f g b)

  forgetting_serves :
      (x : Worker) (s : State)
      → x.listener ≡ Listener.finishing res
      → x.signal ≡ false
      → At up c r w (Client.forgetting r w res) x s
      → Serves (calls c ∷ listens w res ∷ listens w res ∷ []) s
  unfolding forget
  forgetting_serves x s h f a =
      let (t, e, b) = forgets up c r w res x s a in
      first (calls c) _ s t e (finishing_serves (forget r.work.task_id x) t h f (gone x) b)

  receiving_serves :
      (x : Worker) (ch : ℕ) (s : State)
      → x.listener ≡ Listener.finishing res
      → x.signal ≡ false
      → x.chans ch ≡ some res
      → At up c r w (Client.receiving r w ch) x s
      → Serves (calls c ∷ calls c ∷ listens w res ∷ listens w res ∷ []) s
  receiving_serves x ch s h f g a =
      let (t, e, b) = receives up c r w res x ch g s a in
      first (calls c) _ s t e (forgetting_serves _ t h f b)

  delivering_serves :
      (x : Worker) (ch : ℕ) (s : State)
      → x.listener ≡ Listener.delivering r.work res
      → x.signal ≡ false
      → lookup r.work.task_id x.out_chan_list ≡ some ch
      → x.chans ch ≡ none
      → At up c r w (Client.receiving r w ch) x s
      → Serves (listens w res ∷ calls c ∷ calls c ∷ listens w res ∷ listens w res ∷ []) s
  delivering_serves x ch s h f g n a =
      let (t, e, b) = delivers up c r w res x (Client.receiving r w ch) ch h g n s a in
      first (listens w res) _ s t e
        (receiving_serves (filled up c r w res ch x) ch t refl f (ground (arith, eqb_iff ch ch)) b)

  running_serves :
      (x : Worker) (ch : ℕ) (s : State)
      → x.listener ≡ Listener.running r.work
      → x.signal ≡ false
      → lookup r.work.task_id x.out_chan_list ≡ some ch
      → x.chans ch ≡ none
      → At up c r w (Client.receiving r w ch) x s
      → Serves
          (listens w res ∷ listens w res ∷ calls c ∷ calls c ∷ listens w res ∷ listens w res ∷ [])
          s
  running_serves x ch s h f g n a =
      let (t, e, b) = runs up c r w res x (Client.receiving r w ch) h s a in
      first (listens w res) _ s t e (delivering_serves _ ch t refl f g n b)

  sending_serves :
      (x : Worker) (ch : ℕ) (s : State)
      → x.listener ≡ Listener.selecting
      → x.signal ≡ false
      → lookup r.work.task_id x.out_chan_list ≡ some ch
      → x.chans ch ≡ none
      → At up c r w (Client.sending r w ch) x s
      → Serves
          (calls c
            ∷ listens w res
            ∷ listens w res
            ∷ calls c
            ∷ calls c
            ∷ listens w res
            ∷ listens w res
            ∷ [])
          s
  sending_serves x ch s h f g n a =
      let (t, e, b) = sends up c r w x ch s h a in
      first (calls c) _ s t e (running_serves (begun up c r w s.clock x) ch t refl f g n b)

  -- A call that has found a ready worker gets the tasker's result after ten steps of its own and of
  -- the listener; then the token is back and the task off the list.
  pub serving_serves :
      (x : Worker) (s : State)
      → IsReady r.work.task_id x
      → At up c r w (Client.checking r w) x s
      → Serves (serving c w res) s
  unfolding register
  serving_serves x s k a =
      let x1 : Worker = record x { signal = false } in
      let (s1, e1, a1) = checks up c r w x k.unlisted s a in
      let (s2, e2, a2) = takes up c r w x k.signal s1 a1 in
      let (s3, e3, a3) = registers up c r w x1 s2 a2 in
      first (calls c) _ s s1 e1 (
        first (calls c) _ s1 s2 e2 (
          first (calls c) _ s2 s3 e3 (
            sending_serves (register r.work.task_id x1) x.next_chan s3 k.selecting refl (listed x)
              (ground (arith, eqb_iff x.next_chan x.next_chan)) a3)))
