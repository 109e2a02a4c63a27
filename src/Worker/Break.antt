-- ===== src/Worker/Break.antt =====
-- `Break` on a worker that is not busy: it takes the token from `signalChan` and does not put it back.
use iplsgo.Prelude.{
  ℕ, ◌<◌, ◌≡◌, true, false, none, some, List, ◌∷◌, arith, Str, Option-cases, inl, inr,
}
use iplsgo.Task.{TaskResult, Request}
use iplsgo.Worker.{Listener, Client, State, listen}
use iplsgo.Worker.Steps.{Event, calls, call, step, play}
use iplsgo.Worker.Exclusion.{OneToken}
use iplsgo.Worker.Stable.{holds, owes, IsStable, stable_play}

-- The token of worker `w` is nowhere.
pub record IsBarren (w : ℕ) (s : State) : Type 0 where
  pub dry : (s.workers w).signal ≡ false
  pub free : owes (s.workers w).listener ≡ false
  pub unheld : (c : ℕ) → holds (s.clients c) w ≡ false
  pub known : w < s.next_worker

dry_blocks :
    (up : Str → Str) (w d : ℕ) (r : Request) (t : State)
    → t.clients d ≡ Client.queueing r w
    → (t.workers w).signal ≡ false
    → step up (calls d) t ≡ none
unfolding step call
dry_blocks up w d r t q b = rw (q, call, b)

module _ (up : Str → Str) (w : ℕ) where
  call-IsBarren :
      (c : ℕ) (p : Client) (s t : State)
      → s.clients c ≡ p
      → call up c p s ≡ some t
      → IsBarren w s
      → IsBarren w t
  unfolding call
  call-IsBarren a Client.idle s t l e b = cc
  call-IsBarren a _ s t l e b = record {
    dry = ground (arith, b.dry);
    free = ground (arith, b.free, b.unheld a);
    unheld = λ c. ground (arith, b.unheld c, b.unheld a, b.dry);
    known = ground (arith, b.known);
  }

  listen-IsBarren :
      (res : TaskResult) (v : ℕ) (l : Listener) (s t : State)
      → (s.workers v).listener ≡ l
      → listen res v (s.workers v) l s ≡ some t
      → IsBarren w s
      → IsBarren w t
  unfolding listen
  listen-IsBarren res v Listener.selecting s t l e b = cc
  listen-IsBarren res v _ s t l e b = record {
    dry = ground (arith, b.dry);
    free = ground (arith, b.free);
    unheld = λ c. ground (arith, b.unheld c);
    known = ground (arith, b.known);
  }

  IsBarren-stable : IsStable up (IsBarren w)
  IsBarren-stable = record {
    calm = λ a p s o n b. record {
      dry = b.dry;
      free = b.free;
      unheld = λ c. ground (arith, b.unheld c, n w);
      known = b.known;
    };
    later = λ n s b. record { dry = b.dry; free = b.free; unheld = b.unheld; known = b.known };
    leaving = λ v s l b. record {
      dry = ground (arith, b.dry);
      free = ground (arith, b.free);
      unheld = b.unheld;
      known = b.known;
    };
    calling = call-IsBarren;
    listening = listen-IsBarren;
  }

  break_idle-IsBarren :
      (c : ℕ) (s t : State)
      → OneToken s
      → s.clients c ≡ Client.break_testing w
      → (s.workers w).signal ≡ true
      → step up (calls c) s ≡ some t
      → IsBarren w t
  unfolding step call
  break_idle-IsBarren a s t i l d e = record {
    dry = ground arith;
    free = ground (arith, i.unowed w);
    unheld = λ c. ground (arith, i.unheld w c);
    known = ground (arith, i.unborn w);
  }

  -- In a state with at most one token, as every reachable one is, a `Break` that finds the worker `w`
  -- not busy takes the token for good: whatever happens afterwards, no call of `Run` that waits for this worker can hand its work over, it can only
  -- wait out its timer.
  pub break_idle_disables :
      (c : ℕ) (s : State) (es : List Event) (t : State) (d : ℕ) (r : Request)
      → OneToken s
      → s.clients c ≡ Client.break_testing w
      → (s.workers w).signal ≡ true
      → play up (calls c ∷ es) s ≡ some t
      → t.clients d ≡ Client.queueing r w
      → step up (calls d) t ≡ none
  unfolding play
  break_idle_disables c s es t d r i l g h q = elim (Option-cases (step up (calls c) s)) [
    | inl blocked ↦ cc (h, blocked)
    | inr (u, done) ↦
        let b : IsBarren w t =
          stable_play up IsBarren-stable es u t (rw (done, play) at h)
            (break_idle-IsBarren c s u i l g done) in
        dry_blocks up w d r t q b.dry
  ]
