-- ===== src/Worker/Requests.antt =====
-- `Run` from its lookup to its result, on a session that is there and on a new one.
use iplsgo.Prelude.{ℕ, ◌≡◌, refl, true, false, none, some, ◌∷◌, arith, Str, eqb_iff, str_Eq}
use iplsgo.Gostd.Maps.{lookup}
use iplsgo.Task.{TaskResult, Request}
use iplsgo.Worker.{
  Listener, Worker, Client, State, set_client, set_worker, out_chan, new_worker, listen,
}
use iplsgo.Worker.Steps.{calls, listens, call, step, find_worker, create}
use iplsgo.Worker.Progress.{At, Moves, beside}
use iplsgo.Worker.Served.{IsReady, serving, Serves, first, serving_serves}

module _ (up : Str → Str) (c : ℕ) (r : Request) (res : TaskResult) where
  found :
      (w : ℕ) (s : State)
      → s.clients c ≡ Client.looking r
      → find_worker up r.path r.work.session_id s ≡ some w
      → step up (calls c) s ≡ some (set_client c (Client.checking r w) s)
  unfolding step call
  found w s h f = ground (arith, h, f)

  -- A request of a session whose worker is ready gets the result of the tasker, by steps of its own
  -- call and of the worker's listener alone. Afterwards the worker's token is back, and the task is
  -- off its list.
  pub request_served :
      (w : ℕ) (s : State)
      → s.clients c ≡ Client.looking r
      → find_worker up r.path r.work.session_id s ≡ some w
      → IsReady r.work.task_id (s.workers w)
      → Serves up c r w res (calls c ∷ serving c w res) s
  request_served w s h f k =
      let s1 = set_client c (Client.checking r w) s in
      first up c r w res (calls c) (serving c w res) s s1 (found w s h f)
        (serving_serves up c r w res (s.workers w) s1 k (ground (arith, eqb_iff c c), refl))

  missed :
      (s : State)
      → s.clients c ≡ Client.looking r
      → find_worker up r.path r.work.session_id s ≡ none
      → step up (calls c) s ≡ some (set_client c (Client.creating r) s)
  unfolding step call
  missed s h f = ground (arith, h, f)

  made : State → State
  made s = set_client c (Client.checking r s.next_worker) (create up r s)

  creates :
      (s : State)
      → s.clients c ≡ Client.creating r
      → (t : State) × (step up (calls c) s ≡ some t)
        × At up c r s.next_worker
            (Client.checking r s.next_worker)
            (new_worker r.type_tasker (up r.path) (up r.work.session_id))
            t
  unfolding step call create made
  creates s h = (
    made s,
    ground (arith, h),
    (ground (arith, eqb_iff c c), ground (arith, eqb_iff s.next_worker s.next_worker)),
  )

  enters :
      (w : ℕ) (x : Worker) (p : Client)
      → x.listener ≡ Listener.entering
      → x.signal ≡ false
      → Moves up c r w
          (listens w res)
          p
          x
          p
          (record x { signal = true; listener = Listener.selecting })
  unfolding step listen
  enters w x p h f s (a, b) =
      let x' : Worker = record x { signal = true; listener = Listener.selecting } in
      (set_worker w x' s, ground (arith, b, h, f), beside up c r w p x' s a)

  -- The first request of a session makes a worker and gets the result of its tasker, by steps of its
  -- own call and of the new worker's listener alone. Afterwards the worker's token is there, and the
  -- task is off its list.
  pub first_request_served :
      (s : State)
      → s.clients c ≡ Client.looking r
      → find_worker up r.path r.work.session_id s ≡ none
      → Serves up c r s.next_worker res
          (calls c ∷ calls c ∷ listens s.next_worker res ∷ serving c s.next_worker res)
          s
  unfolding new_worker out_chan lookup
  first_request_served s h f =
      let w = s.next_worker in
      let s1 = set_client c (Client.creating r) s in
      let (s2, e2, a2) = creates s1 (ground (arith, eqb_iff c c)) in
      let x = new_worker r.type_tasker (up r.path) (up r.work.session_id) in
      let (s3, e3, a3) = enters w x (Client.checking r w) refl refl s2 a2 in
      first up c r w res (calls c) _ s s1 (missed s h f) (
        first up c r w res (calls c) _ s1 s2 e2 (
          first up c r w res (listens w res) (serving c w res) s2 s3 e3 (
            serving_serves up c r w res _ s3
              (record { signal = refl; selecting = refl; unlisted = refl }) a3)))
