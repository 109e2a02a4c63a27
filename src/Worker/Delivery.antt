-- ===== src/Worker/Delivery.antt =====
-- The channel that a result goes to is empty, so the listener is never blocked.
use iplsgo.Prelude.{
  ℕ, ◌≡◌, refl, true, none, some, List, arith, Str, eqb, str_Eq, is_some, Option-cases, inl, inr,
}
use iplsgo.Gostd.Maps.{lookup, lookup-insert, lookup-delete}
use iplsgo.Task.{TaskResult}
use iplsgo.Worker.{Listener, Client, State, init, set_client, listen}
use iplsgo.Worker.Steps.{Event, listens, call, step, play}
use iplsgo.Worker.Exclusion.{OneToken, OneToken-stable, init-OneToken}
use iplsgo.Worker.Stable.{holds, owes, IsCalm, IsStable, stable_play}

-- The task that a goroutine is about to hand over to worker `w`.
abbrev pub Promised : Client → ℕ → Str → Type 0
Promised (Client.sending r v ch) w task = (eqb v w ≡ true) × (r.work.task_id ≡ task)
Promised _ w task = ⊥

-- The task whose result is still to be delivered.
abbrev pub Pending : Listener → Str → Type 0
Pending (Listener.running wrk) task = wrk.task_id ≡ task
Pending (Listener.delivering wrk res) task = wrk.task_id ≡ task
Pending _ task = ⊥

-- Such a task's channel holds no result yet.
pub record HasRoom (s : State) : Type 0 where
  pub before :
      (w c : ℕ) (task : Str) (ch : ℕ)
      → Promised (s.clients c) w task
      → lookup task (s.workers w).out_chan_list ≡ some ch
      → (s.workers w).chans ch ≡ none
  pub during :
      (w : ℕ) (task : Str) (ch : ℕ)
      → Pending (s.workers w).listener task
      → lookup task (s.workers w).out_chan_list ≡ some ch
      → (s.workers w).chans ch ≡ none

abbrev Sound : State → Type 0
Sound s = OneToken s × HasRoom s

module _ (up : Str → Str) where
  call-HasRoom :
      (c : ℕ) (p : Client) (s t : State)
      → s.clients c ≡ p
      → call up c p s ≡ some t
      → OneToken s
      → HasRoom s
      → HasRoom t
  unfolding call
  call-HasRoom a Client.idle s t l e i h = cc
  call-HasRoom a (Client.registering r v) s t l e i h = record {
    before = λ w c task ch. ground (
      arith,
      i.sole w a c,
      h.before w c task ch,
      lookup-insert r.work.task_id task (s.workers v).next_chan (s.workers v).out_chan_list,
      str_Eq.same_iff r.work.task_id task,
    );
    during = λ w task ch. ground (
      arith,
      i.untaken w a,
      h.during w task ch,
      lookup-insert r.work.task_id task (s.workers v).next_chan (s.workers v).out_chan_list,
    );
  }
  call-HasRoom a (Client.forgetting r v res) s t l e i h = record {
    before = λ w c task ch. ground (
      arith,
      h.before w c task ch,
      lookup-delete r.work.task_id task (s.workers v).out_chan_list,
    );
    during = λ w task ch.
        ground (
          arith,
          h.during w task ch,
          lookup-delete r.work.task_id task (s.workers v).out_chan_list,
        );
  }
  call-HasRoom a _ s t l e i h = record {
    before = λ w c task ch. ground (arith, h.before w c task ch);
    during = λ w task ch. ground (arith, h.during w task ch, h.before w a task ch);
  }

  listen-HasRoom :
      (res : TaskResult) (v : ℕ) (l : Listener) (s t : State)
      → (s.workers v).listener ≡ l
      → listen res v (s.workers v) l s ≡ some t
      → OneToken s
      → HasRoom s
      → HasRoom t
  unfolding listen lookup
  listen-HasRoom res v (Listener.delivering wrk out) s t l e i h = record {
    before = λ w c task ch. ground (arith, h.before w c task ch, i.untaken w c);
    during = λ w task ch. ground (arith, h.during w task ch);
  }
  listen-HasRoom res v _ s t l e i h = record {
    before = λ w c task ch. ground (arith, h.before w c task ch);
    during = λ w task ch. ground (arith, h.during w task ch);
  }

  Promised-holds : (p : Client) (w : ℕ) (task : Str) → Promised p w task → holds p w ≡ true
  Promised-holds (Client.sending r v ch) w task f = f.0
  Promised-holds _ w task f = absurd f

  set_client-HasRoom :
      (c : ℕ) (p : Client) (s : State) → IsCalm p → HasRoom s → HasRoom (set_client c p s)
  set_client-HasRoom a p s n h = record {
    before = λ w c task ch. ground (arith, h.before w c task ch, n w, Promised-holds p w task);
    during = h.during;
  }

  pub Sound-stable : IsStable up Sound
  Sound-stable = record {
    calm = λ c p s o n v. (O.calm c p s o n v.0, set_client-HasRoom c p s n v.1);
    later = λ n s v. (O.later n s v.0, record { before = v.1.before; during = v.1.during });
    leaving = λ v s l h. (
      O.leaving v s l h.0,
      record {
        before = λ w c task ch. ground (arith, h.1.before w c task ch);
        during = λ w task ch. ground (arith, h.1.during w task ch);
      },
    );
    calling = λ c p s t l e v. (O.calling c p s t l e v.0, call-HasRoom c p s t l e v.0 v.1);
    listening = λ res x l s t k e v.
        (O.listening res x l s t k e v.0, listen-HasRoom res x l s t k e v.0 v.1);
  }
    where
      O : IsStable up OneToken
      O = OneToken-stable up

  init-HasRoom : HasRoom init
  unfolding init
  init-HasRoom = record { before = λ w c task ch f e. absurd f; during = λ w task ch f e. absurd f }

  play-Sound : (es : List Event) (t : State) → play up es init ≡ some t → Sound t
  play-Sound es t h = stable_play up Sound-stable es init t h (init-OneToken, init-HasRoom)

  listen_enabled :
      (res : TaskResult) (w : ℕ) (l : Listener) (s : State)
      → (s.workers w).listener ≡ l
      → owes l ≡ true
      → OneToken s
      → HasRoom s
      → is_some (listen res w (s.workers w) l s) ≡ true
  unfolding listen
  listen_enabled res w Listener.selecting s l o i h = cc
  listen_enabled res w (Listener.delivering wrk out) s l o i h =
      elim (Option-cases (lookup wrk.task_id (s.workers w).out_chan_list)) [
        | inl missing ↦ ground arith
        | inr (ch, found) ↦ ground (arith, h.during w wrk.task_id ch)
      ]
  listen_enabled res w _ s l o i h = ground (arith, i.unowed w)

  -- However the goroutines interleave, a listener that has a result to deliver or the token to put
  -- back is never blocked: its next step, be it a send on `signalChan` or on a result channel, is
  -- enabled.
  pub listener_never_blocks :
      (es : List Event) (t : State) (w : ℕ) (res : TaskResult)
      → play up es init ≡ some t
      → owes (t.workers w).listener ≡ true
      → is_some (step up (listens w res) t) ≡ true
  unfolding step
  listener_never_blocks es t w res h o =
      let (i, r) = play-Sound es t h in listen_enabled res w (t.workers w).listener t refl o i r
