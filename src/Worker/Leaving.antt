-- ===== src/Worker/Leaving.antt =====
-- A listener that stops does not take its token back, and a caller that uses it then waits for ever.
use iplsgo.Prelude.{ℕ, ◌<◌, ◌≡◌, Bool, true, false, some, List, arith, Str}
use iplsgo.Task.{TaskResult, Request}
use iplsgo.Worker.{Listener, Client, State, listen}
use iplsgo.Worker.Steps.{Event, call, play}
use iplsgo.Worker.Stable.{IsStable, stable_play}

-- The listener is past its loop.
abbrev pub has_left : Listener → Bool
has_left Listener.unlisting = true
has_left Listener.freeing = true
has_left Listener.gone = true
has_left _ = false

pub record IsStranded (c : ℕ) (r : Request) (w ch : ℕ) (s : State) : Type 0 where
  pub waits : s.clients c ≡ Client.sending r w ch
  pub left : has_left (s.workers w).listener ≡ true
  pub known : w < s.next_worker

module _ (up : Str → Str) (c : ℕ) (r : Request) (w ch : ℕ) where
  call-IsStranded :
      (d : ℕ) (p : Client) (s t : State)
      → s.clients d ≡ p
      → call up d p s ≡ some t
      → IsStranded c r w ch s
      → IsStranded c r w ch t
  unfolding call
  call-IsStranded a Client.idle s t l e b = cc
  call-IsStranded a _ s t l e b = record {
    waits = ground (arith, b.waits, b.left);
    left = ground (arith, b.left);
    known = ground (arith, b.known);
  }

  listen-IsStranded :
      (res : TaskResult) (v : ℕ) (l : Listener) (s t : State)
      → (s.workers v).listener ≡ l
      → listen res v (s.workers v) l s ≡ some t
      → IsStranded c r w ch s
      → IsStranded c r w ch t
  unfolding listen
  listen-IsStranded res v Listener.selecting s t l e b = cc
  listen-IsStranded res v _ s t l e b = record {
    waits = ground (arith, b.waits);
    left = ground (arith, b.left);
    known = ground (arith, b.known);
  }

  IsStranded-stable : IsStable up (IsStranded c r w ch)
  IsStranded-stable = record {
    calm = λ a p s o n b. record {
      waits = ground (arith, b.waits, o w);
      left = b.left;
      known = b.known;
    };
    later = λ n s b. record { waits = b.waits; left = b.left; known = b.known };
    leaving = λ v s l b. record { waits = b.waits; left = ground (arith, b.left); known = b.known };
    calling = call-IsStranded;
    listening = listen-IsStranded;
  }

  -- A caller of `Run` that took the token of a worker, made before, whose listener has left its loop,
  -- by the idle timer or after an interrupted request, never gets past the send of its work, whatever happens.
  pub stranded_for_ever :
      (es : List Event) (s t : State)
      → s.clients c ≡ Client.sending r w ch
      → has_left (s.workers w).listener ≡ true
      → w < s.next_worker
      → play up es s ≡ some t
      → t.clients c ≡ Client.sending r w ch
  stranded_for_ever es s t h l k p =
      (stable_play up IsStranded-stable es s t p (record { waits = h; left = l; known = k })).waits
