-- ===== src/Worker/Steps.antt =====
-- otasker/worker.go: the steps of `Run` and `Break`, and the interleavings of all goroutines.
use iplsgo.Prelude.{
  ◌≡◌, inl, inr, Option-cases, ℕ, suc, ◌+◌, false, Option, none, some, List, [], ◌∷◌, Str, nat_eq,
  str_Eq, if◌then◌else◌,
}
use mathlib.Core.Path.{subst}
use mathlib.Core.Option.{some-injective}
use iplsgo.Gostd.Maps.{Map, lookup, insert}
use iplsgo.Task.{TaskResult, empty_result, status_wait_page, status_break_page, Work, Request}
use iplsgo.Worker.{
  Listener, Worker, Client, State, update, new_worker, start, out_chan, worked, register, forget,
  set_client, set_worker, listen, listen_timeout,
}

-- The receive from `inChan`, by the listener of `x`, and `start`.
accept : ℕ → Work → Worker → Listener → Option Worker
unfolding start
accept now wrk x Listener.selecting =
    some (record (start now x) { listener = Listener.running wrk })
accept now wrk x _ = none

-- A path that has no map yet gets an empty one.
unfoldable pub inner : Option (Map Str ℕ) → Map Str ℕ
inner none = []
inner (some m) = m

module _ (to_upper : Str → Str) where
  -- `wlist[strings.ToUpper(path)][strings.ToUpper(sessionID)]`
  unfoldable pub find_worker : Str → Str → State → Option ℕ
  find_worker path id s = elim (lookup (to_upper path) s.wlist) [
    | none ↦ none
    | some m ↦ lookup (to_upper id) m
  ]

  -- The part of `Run` that makes, lists and starts a worker. It does not look the session up again.
  unfoldable pub create : Request → State → State
  unfolding new_worker inner
  create r s =
      let path = to_upper r.path in
      let id = to_upper r.work.session_id in
      record s {
        wlist = insert path (insert id s.next_worker (inner (lookup path s.wlist))) s.wlist;
        workers = update s.workers s.next_worker (new_worker r.type_tasker path id);
        next_worker = suc s.next_worker;
      }

  -- One step of a goroutine in `Run` or `Break`.
  unfoldable pub call : ℕ → Client → State → Option State
  unfolding find_worker create out_chan register forget accept
  call c Client.idle s = none
  call c (Client.looking r) s = elim (find_worker r.path r.work.session_id s) [
    | none ↦ some (set_client c (Client.creating r) s)
    | some w ↦ some (set_client c (Client.checking r w) s)
  ]
  call c (Client.creating r) s = some (set_client c (Client.checking r s.next_worker) (create r s))
  call c (Client.checking r w) s = elim (out_chan (s.workers w) r.work.task_id) [
    | none ↦ some (set_client c (Client.queueing r w) s)
    | some ch ↦ some (set_client c (Client.receiving r w ch) s)
  ]
  call c (Client.queueing r w) s =
      if (s.workers w).signal
      then some (
          set_client c (Client.registering r w)
            (set_worker w (record (s.workers w) { signal = false }) s))
      else none
  call c (Client.registering r w) s = some (
      set_client c (Client.sending r w (s.workers w).next_chan)
        (set_worker w (register r.work.task_id (s.workers w)) s))
  call c (Client.sending r w ch) s =
      elim (accept s.clock r.work (s.workers w) (s.workers w).listener) [
        | none ↦ none
        | some x ↦ some (set_client c (Client.receiving r w ch) (set_worker w x s))
      ]
  call c (Client.receiving r w ch) s = elim ((s.workers w).chans ch) [
    | none ↦ none
    | some res ↦ some (
        set_client c (Client.forgetting r w res)
          (set_worker w (record (s.workers w) { chans = update (s.workers w).chans ch none }) s))
  ]
  call c (Client.forgetting r w res) s =
      some
        (set_client c (Client.returned res) (set_worker w (forget r.work.task_id (s.workers w)) s))
  call c (Client.returned res) s = none
  call c (Client.break_looking path id) s = elim (find_worker path id s) [
    | none ↦ some (set_client c Client.broken s)
    | some w ↦ some (set_client c (Client.break_testing w) s)
  ]
  call c (Client.break_testing w) s =
      if (s.workers w).signal
      then some
          (set_client c Client.broken (set_worker w (record (s.workers w) { signal = false }) s))
      else some (set_client c (Client.interrupting w) s)
  call c (Client.interrupting w) s = some (set_client c Client.broken s)
  call c Client.broken s = none

abbrev page : ℕ → ℕ → Worker → TaskResult
page status now x = record empty_result { status_code = status; duration = worked now x }

-- The wait timer of a select in `Run` fires.
unfoldable pub call_timeout : ℕ → Client → State → Option State
unfolding worked
call_timeout c (Client.queueing r w) s =
    some (set_client c (Client.returned (page status_break_page s.clock (s.workers w))) s)
call_timeout c (Client.receiving r w ch) s =
    some (set_client c (Client.returned (page status_wait_page s.clock (s.workers w))) s)
call_timeout c _ s = none

pub data Event : Type 0 where
  run : ℕ → Request → Event
  break : ℕ → Str → Str → Event
  calls times_out : ℕ → Event
  listens : ℕ → TaskResult → Event
  idles : ℕ → Event
  passes : ℕ → Event

-- A caller is a new goroutine.
unfoldable pub begin : ℕ → Client → Client → State → Option State
begin c p Client.idle s = some (set_client c p s)
begin c p _ s = none

module _ (to_upper : Str → Str) where
  unfoldable pub step : Event → State → Option State
  unfolding begin
  step (run c r) s = begin c (Client.looking r) (s.clients c) s
  step (break c path id) s = begin c (Client.break_looking path id) (s.clients c) s
  step (calls c) s = call to_upper c (s.clients c) s
  step (times_out c) s = call_timeout c (s.clients c) s
  step (listens w res) s = listen res w (s.workers w) (s.workers w).listener s
  step (idles w) s = listen_timeout w (s.workers w) (s.workers w).listener s
  step (passes n) s = some (record s { clock = s.clock + n })

  -- An interleaving; `none` if one of its steps was blocked.
  unfoldable pub play : List Event → State → Option State
  play [] s = some s
  play (e ∷ es) s = elim (step e s) [ none ↦ none | some t ↦ play es t ]

pub play-cons :
    (up : Str → Str) (e : Event) (es : List Event) (s t : State) {u : Option State}
    → step up e s ≡ some t
    → play up es t ≡ u
    → play up (e ∷ es) s ≡ u
unfolding play
play-cons up e es s t d h = rw (d, play) h

-- What every step keeps holds after every interleaving.
pub play_induction :
    (up : Str → Str) {P : State → Type 0}
    → ((e : Event) (s t : State) → step up e s ≡ some t → P s → P t)
    → (es : List Event) (s t : State) → play up es s ≡ some t
    → P s
    → P t
unfolding play
play_induction up {P} keep [] s t h p = subst P (some-injective s t h) p
play_induction up {P} keep (e ∷ es) s t h p = elim (Option-cases (step up e s)) [
  | inl blocked ↦ cc (h, blocked)
  | inr (u, done) ↦ play_induction up keep es u t (rw (done, play) at h) (keep e s u done p)
]
