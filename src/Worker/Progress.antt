-- ===== src/Worker/Progress.antt =====
-- A call of `Run` on a free worker, step by step until it returns.
use iplsgo.Prelude.{ℕ, ◌≡◌, true, false, none, some, arith, Str, eqb_iff, str_Eq}
use iplsgo.Gostd.Maps.{lookup}
use iplsgo.Task.{TaskResult, Request}
use iplsgo.Worker.{
  Listener, Worker, Client, State, set_client, set_worker, update, register, forget, start, finish,
  listen, out_chan, after_signal,
}
use iplsgo.Worker.Steps.{Event, calls, listens, call, step}

module _ (up : Str → Str) (c : ℕ) (r : Request) (w : ℕ) where
  -- The caller and the worker stand there.
  abbrev pub At : Client → Worker → State → Type 0
  At p x s = (s.clients c ≡ p) × (s.workers w ≡ x)

  moved : (p : Client) (x : Worker) (s : State) → At p x (set_client c p (set_worker w x s))
  moved p x s = (ground (arith, eqb_iff c c), ground (arith, eqb_iff w w))

  abbrev pub Moves : Event → Client → Worker → Client → Worker → Type 0
  Moves e p x p' x' = (s : State) → At p x s → (t : State) × (step up e s ≡ some t) × At p' x' t

  pub checks :
      (x : Worker)
      → out_chan x r.work.task_id ≡ none
      → Moves (calls c) (Client.checking r w) x (Client.queueing r w) x
  unfolding step call
  checks x h s (a, b) = (
    set_client c (Client.queueing r w) s,
    ground (arith, a, b, h),
    (ground (arith, eqb_iff c c), b),
  )

  pub takes :
      (x : Worker)
      → x.signal ≡ true
      → Moves
          (calls c)
          (Client.queueing r w)
          x
          (Client.registering r w)
          (record x { signal = false })
  unfolding step call
  takes x h s (a, b) =
      let x' : Worker = record x { signal = false } in
      (
        set_client c (Client.registering r w) (set_worker w x' s),
        ground (arith, a, b, h),
        moved (Client.registering r w) x' s,
      )

  pub registers :
      (x : Worker)
      → Moves
          (calls c)
          (Client.registering r w)
          x
          (Client.sending r w x.next_chan)
          (register r.work.task_id x)
  unfolding step call
  registers x s (a, b) =
      let p = Client.sending r w x.next_chan in
      let x' = register r.work.task_id x in
      (set_client c p (set_worker w x' s), ground (arith, a, b), moved p x' s)

  -- The worker has begun to run the work.
  abbrev pub begun : ℕ → Worker → Worker
  begun now x = record x { started_at = now; started = true; listener = Listener.running r.work }

  pub sends :
      (x : Worker) (ch : ℕ) (s : State)
      → x.listener ≡ Listener.selecting
      → At (Client.sending r w ch) x s
      → (t : State) × (step up (calls c) s ≡ some t)
        × At (Client.receiving r w ch) (begun s.clock x) t
  unfolding step call start
  sends x ch s h (a, b) =
      let p = Client.receiving r w ch in
      let x' = begun s.clock x in
      (set_client c p (set_worker w x' s), ground (arith, a, b, h), moved p x' s)

  -- A step of the listener leaves the caller where it is.
  pub beside : (p : Client) (x : Worker) (s : State) → s.clients c ≡ p → At p x (set_worker w x s)
  beside p x s a = (a, ground (arith, eqb_iff w w))

  module _ (res : TaskResult) where
    pub runs :
        (x : Worker) (p : Client)
        → x.listener ≡ Listener.running r.work
        → Moves (listens w res) p x p (record x { listener = Listener.delivering r.work res })
    unfolding step listen
    runs x p h s (a, b) =
        let x' : Worker = record x { listener = Listener.delivering r.work res } in
        (set_worker w x' s, ground (arith, b, h), beside p x' s a)

    abbrev pub filled : ℕ → Worker → Worker
    filled ch x = record x {
      chans = update x.chans ch (some res);
      listener = Listener.finishing res;
    }

    pub delivers :
        (x : Worker) (p : Client) (ch : ℕ)
        → x.listener ≡ Listener.delivering r.work res
        → lookup r.work.task_id x.out_chan_list ≡ some ch
        → x.chans ch ≡ none
        → Moves (listens w res) p x p (filled ch x)
    unfolding step listen
    delivers x p ch h e f s (a, b) =
        (set_worker w (filled ch x) s, ground (arith, b, h, e, f), beside p (filled ch x) s a)

    pub receives :
        (x : Worker) (ch : ℕ)
        → x.chans ch ≡ some res
        → Moves
            (calls c)
            (Client.receiving r w ch)
            x
            (Client.forgetting r w res)
            (record x { chans = update x.chans ch none })
    unfolding step call
    receives x ch h s (a, b) =
        let x' : Worker = record x { chans = update x.chans ch none } in
        let p = Client.forgetting r w res in
        (set_client c p (set_worker w x' s), ground (arith, a, b, h), moved p x' s)

    pub forgets :
        (x : Worker)
        → Moves
            (calls c)
            (Client.forgetting r w res)
            x
            (Client.returned res)
            (forget r.work.task_id x)
    unfolding step call
    forgets x s (a, b) =
        let x' = forget r.work.task_id x in
        let p = Client.returned res in
        (set_client c p (set_worker w x' s), ground (arith, a, b), moved p x' s)

    pub finishes :
        (x : Worker) (p : Client)
        → x.listener ≡ Listener.finishing res
        → Moves (listens w res) p x p (record (finish x) { listener = Listener.signalling res })
    unfolding step listen
    finishes x p h s (a, b) =
        let x' : Worker = record (finish x) { listener = Listener.signalling res } in
        (set_worker w x' s, ground (arith, b, h), beside p x' s a)

    pub signals :
        (x : Worker) (p : Client)
        → x.listener ≡ Listener.signalling res
        → x.signal ≡ false
        → Moves (listens w res) p x p (record x { signal = true; listener = after_signal res })
    unfolding step listen
    signals x p h e s (a, b) =
        let x' : Worker = record x { signal = true; listener = after_signal res } in
        (set_worker w x' s, ground (arith, b, h, e), beside p x' s a)
