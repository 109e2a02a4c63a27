-- ===== src/Worker.antt =====
-- otasker/worker.go: the workers, the goroutines that call `Run` and `Break`, and their channels.
-- A state holds every goroutine's position between two operations on shared memory or a channel;
-- a step is one such operation, and a step that returns `none` is blocked.
pub mod Steps
pub mod Stable
pub mod Exclusion
pub mod Delivery
pub mod Break
pub mod Leaving
pub mod Session
pub mod Progress
pub mod Served
pub mod Requests
mod Tests
use iplsgo.Prelude.{
  ℕ, suc, ◌-◌, ◌/◌, Bool, true, false, Option, none, some, [], Str, ◌==◌, nat_eq, str_Eq,
  if◌then◌else◌,
}
use iplsgo.Gostd.Maps.{Map, lookup, insert, delete}
use iplsgo.Task.{TaskResult, status_request_was_interrupted, TaskerType, Work, Request}

-- Where the goroutine of `listen` stands.
pub data Listener : Type 0 where
  entering selecting : Listener
  running : Work → Listener
  delivering : Work → TaskResult → Listener
  finishing signalling : TaskResult → Listener
  unlisting freeing gone : Listener

-- `signal` is the buffer of `signalChan`, `chans` holds the buffers of the result channels that
-- were made for this worker. Both kinds of channel have capacity 1; `inChan` has none.
pub record Worker : Type 0 where
  pub tasker : TaskerType
  pub path : Str
  pub id : Str
  pub signal : Bool
  pub out_chan_list : Map Str ℕ
  pub chans : ℕ → Option TaskResult
  pub next_chan : ℕ
  pub started_at : ℕ
  pub started : Bool
  pub listener : Listener

-- Where a goroutine that calls `Run` or `Break` stands.
pub data Client : Type 0 where
  idle : Client
  looking creating : Request → Client
  checking queueing registering : Request → ℕ → Client
  sending receiving : Request → ℕ → ℕ → Client
  forgetting : Request → ℕ → TaskResult → Client
  returned : TaskResult → Client
  break_looking : Str → Str → Client
  break_testing interrupting : ℕ → Client
  broken : Client

pub record State : Type 0 where
  pub wlist : Map Str (Map Str ℕ)
  pub workers : ℕ → Worker
  pub next_worker : ℕ
  pub clients : ℕ → Client
  pub clock : ℕ

abbrev pub update {ℓ} : {A : Type ℓ} → (ℕ → A) → ℕ → A → ℕ → A
update f i a j = if i == j then a else f j

unfoldable pub new_worker : TaskerType → Str → Str → Worker
new_worker t path id = record {
  tasker = t;
  path = path;
  id = id;
  signal = false;
  out_chan_list = [];
  chans = λ _. none;
  next_chan = 0;
  started_at = 0;
  started = false;
  listener = Listener.entering;
}

-- No worker, no caller.
unfoldable pub init : State
unfolding new_worker
init = record {
  wlist = [];
  workers = λ _. record (new_worker TaskerType.classic [] []) { listener = Listener.gone };
  next_worker = 0;
  clients = λ _. Client.idle;
  clock = 0;
}

-- start
unfoldable pub start : ℕ → Worker → Worker
start now x = record x { started_at = now; started = true }

-- The locked part of finish; the send on `signalChan` is the listener's next step.
unfoldable pub finish : Worker → Worker
finish x = record x { started_at = 0; started = false }

-- outChan
unfoldable pub out_chan : Worker → Str → Option ℕ
out_chan x task = lookup task x.out_chan_list

-- worked: whole seconds, from nanoseconds
unfoldable pub worked : ℕ → Worker → ℕ
worked now x = if x.started then (now - x.started_at) / 1_000_000_000 else 0

-- `outChanList[taskID] = make(chan OracleTaskResult, 1)`
unfoldable pub register : Str → Worker → Worker
register task x = record x {
  out_chan_list = insert task x.next_chan x.out_chan_list;
  chans = update x.chans x.next_chan none;
  next_chan = suc x.next_chan;
}

unfoldable pub forget : Str → Worker → Worker
forget task x = record x { out_chan_list = delete task x.out_chan_list }

abbrev pub set_client : ℕ → Client → State → State
set_client c p s = record s { clients = update s.clients c p }

abbrev pub set_worker : ℕ → Worker → State → State
set_worker w x s = record s { workers = update s.workers w x }

-- `outChan <- res`, on a buffer of capacity 1, when the task still has a channel
unfoldable pub deliver : Work → TaskResult → Worker → Option Worker
unfolding out_chan
deliver wrk res x = elim (out_chan x wrk.task_id) [
  | none ↦ some (record x { listener = Listener.finishing res })
  | some ch ↦ elim (x.chans ch) [
    | none ↦
        some (record x { chans = update x.chans ch (some res); listener = Listener.finishing res })
    | some old ↦ none
  ]
]

unfoldable pub after_signal : TaskResult → Listener
after_signal res =
    if res.status_code == status_request_was_interrupted
    then Listener.unlisting
    else Listener.selecting

unlist : Str → Str → Map Str (Map Str ℕ) → Map Str (Map Str ℕ)
unlist path id wlist = elim (lookup path wlist) [
  | none ↦ wlist
  | some m ↦ insert path (delete id m) wlist
]

-- One step of `listen` other than the receive from `inChan`, which is the sender's step. `res` is
-- what the tasker's `Run` returns, if this is the step where it returns.
unfoldable pub listen : TaskResult → ℕ → Worker → Listener → State → Option State
unfolding finish after_signal unlist deliver
listen res w x Listener.entering s =
    if x.signal
    then none
    else some (set_worker w (record x { signal = true; listener = Listener.selecting }) s)
listen res w x Listener.selecting s = none
listen res w x (Listener.running wrk) s =
    some (set_worker w (record x { listener = Listener.delivering wrk res }) s)
listen res w x (Listener.delivering wrk out) s = elim (deliver wrk out x) [
  | none ↦ none
  | some x' ↦ some (set_worker w x' s)
]
listen res w x (Listener.finishing out) s =
    some (set_worker w (record (finish x) { listener = Listener.signalling out }) s)
listen res w x (Listener.signalling out) s =
    if x.signal
    then none
    else some (set_worker w (record x { signal = true; listener = after_signal out }) s)
listen res w x Listener.unlisting s =
    some (record (set_worker w (record x { listener = Listener.freeing }) s) {
      wlist = unlist x.path x.id s.wlist;
    })
listen res w x Listener.freeing s =
    some (set_worker w (record x { out_chan_list = []; listener = Listener.gone }) s)
listen res w x Listener.gone s = none

-- The idle timer of `listen` fires.
unfoldable pub listen_timeout : ℕ → Worker → Listener → State → Option State
listen_timeout w x Listener.selecting s =
    some (set_worker w (record x { listener = Listener.unlisting }) s)
listen_timeout w x _ s = none
