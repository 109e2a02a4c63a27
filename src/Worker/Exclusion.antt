-- ===== src/Worker/Exclusion.antt =====
-- One request at a time: the token in `signalChan` is never doubled.
use iplsgo.Prelude.{ℕ, ◌≤◌, ◌<◌, ◌≡◌, refl, true, false, some, List, arith, Str}
use iplsgo.Task.{TaskResult}
use iplsgo.Worker.{Listener, Client, State, init, set_client, listen}
use iplsgo.Worker.Stable.{holds, owes, IsCalm, IsStable, stable_play}
use iplsgo.Worker.Steps.{Event, call, play}

-- Of the token, its holder and a listener that owes it, at most one is there.
pub record OneToken (s : State) : Type 0 where
  pub unheld : (w c : ℕ) → (s.workers w).signal ≡ true → holds (s.clients c) w ≡ false
  pub unowed : (w : ℕ) → (s.workers w).signal ≡ true → owes (s.workers w).listener ≡ false
  pub untaken : (w c : ℕ) → owes (s.workers w).listener ≡ true → holds (s.clients c) w ≡ false
  pub sole : (w c d : ℕ) → holds (s.clients c) w ≡ true → holds (s.clients d) w ≡ true → c ≡ d
  pub known : (w c : ℕ) → holds (s.clients c) w ≡ true → w < s.next_worker
  pub unborn :
      (w : ℕ)
      → s.next_worker ≤ w
      → ((s.workers w).signal ≡ false) × ((s.workers w).listener ≡ Listener.gone)

listen-OneToken :
    (res : TaskResult) (v : ℕ) (l : Listener) (s t : State)
    → (s.workers v).listener ≡ l
    → listen res v (s.workers v) l s ≡ some t
    → OneToken s
    → OneToken t
unfolding listen
listen-OneToken res v Listener.entering s t l e i = record {
  unheld = λ w c. ground (arith, i.unheld w c, i.untaken w c);
  unowed = λ w. ground (arith, i.unowed w);
  untaken = λ w c. ground (arith, i.untaken w c);
  sole = λ w c d. ground (arith, i.sole w c d);
  known = λ w c. ground (arith, i.known w c);
  unborn = λ w. ground (arith, i.unborn w);
}
listen-OneToken res v _ s t l e i = record {
  unheld = λ w c. ground (arith, i.unheld w c, i.untaken w c);
  unowed = λ w. ground (arith, i.unowed w);
  untaken = λ w c. ground (arith, i.untaken w c);
  sole = λ w c d. ground (arith, i.sole w c d);
  known = λ w c. ground (arith, i.known w c);
  unborn = λ w. ground (arith, i.unborn w);
}

call-OneToken :
    (up : Str → Str) (c : ℕ) (p : Client) (s t : State)
    → s.clients c ≡ p
    → call up c p s ≡ some t
    → OneToken s
    → OneToken t
unfolding call
call-OneToken up a Client.idle s t l e i = cc
call-OneToken up a _ s t l e i = record {
  unheld = λ w c. ground (arith, i.unheld w c, i.unheld w a, i.untaken w c);
  unowed = λ w. ground (arith, i.unowed w, i.unheld w a);
  untaken = λ w c. ground (arith, i.untaken w c, i.known w c, i.unowed w, i.sole w a c);
  sole = λ w c d. ground (arith, i.sole w c d, i.untaken w c, i.unheld w c, i.unheld w d);
  known = λ w c. ground (arith, i.known w c, i.unborn w);
  unborn = λ w. ground (arith, i.unborn w);
}

set_client-OneToken :
    (c : ℕ) (p : Client) (s : State) → IsCalm p → OneToken s → OneToken (set_client c p s)
set_client-OneToken a p s n i = record {
  unheld = λ w c. ground (arith, i.unheld w c, n w);
  unowed = i.unowed;
  untaken = λ w c. ground (arith, i.untaken w c, n w);
  sole = λ w c d. ground (arith, i.sole w c d, n w);
  known = λ w c. ground (arith, i.known w c, n w);
  unborn = i.unborn;
}

pub OneToken-stable : (up : Str → Str) → IsStable up OneToken
OneToken-stable up = record {
  calm = λ c p s o n i. set_client-OneToken c p s n i;
  later = λ n s i. record {
    unheld = i.unheld;
    unowed = i.unowed;
    untaken = i.untaken;
    sole = i.sole;
    known = i.known;
    unborn = i.unborn;
  };
  leaving = λ v s l i. record {
    unheld = λ w c. ground (arith, i.unheld w c);
    unowed = λ w. ground (arith, i.unowed w);
    untaken = λ w c. ground (arith, i.untaken w c);
    sole = λ w c d. ground (arith, i.sole w c d);
    known = λ w c. ground (arith, i.known w c);
    unborn = λ w. ground (arith, i.unborn w);
  };
  calling = call-OneToken up;
  listening = listen-OneToken;
}

pub init-OneToken : OneToken init
unfolding init
init-OneToken = record {
  unheld = λ w c h. refl;
  unowed = λ w h. refl;
  untaken = λ w c h. refl;
  sole = λ w c d h k. cc;
  known = λ w c h. cc;
  unborn = λ w h. (refl, refl);
}

-- However the goroutines interleave, of the token in a worker's `signalChan`, a caller that took it
-- and has not handed its work over, and a listener that has still to put it back, at most one is
-- there, and at most one caller holds it.
pub play-OneToken :
    (up : Str → Str) (es : List Event) (t : State) → play up es init ≡ some t → OneToken t
play-OneToken up es t h = stable_play up (OneToken-stable up) es init t h init-OneToken
