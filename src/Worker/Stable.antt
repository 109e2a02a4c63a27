-- ===== src/Worker/Stable.antt =====
-- A rule for what every step keeps: the steps that leave the tokens alone are treated once.
use mathlib.Core.Path.{subst}
use mathlib.Core.Option.{some-injective}
use iplsgo.Prelude.{ℕ, ◌+◌, ◌≡◌, refl, Bool, true, false, some, List, Str, eqb}
use iplsgo.Task.{TaskResult}
use iplsgo.Worker.{Listener, Client, State, set_client, set_worker, listen, listen_timeout}
use iplsgo.Worker.Steps.{
  Event, begin, run, break, calls, times_out, listens, idles, passes, call, call_timeout, step,
  play, play_induction,
}

-- The goroutine took the token of worker `w` and has not handed its work over.
abbrev pub holds : Client → ℕ → Bool
holds (Client.registering r v) w = eqb v w
holds (Client.sending r v ch) w = eqb v w
holds _ w = false

-- The listener still has to put the token back.
abbrev pub owes : Listener → Bool
owes Listener.entering = true
owes (Listener.running wrk) = true
owes (Listener.delivering wrk res) = true
owes (Listener.finishing res) = true
owes (Listener.signalling res) = true
owes _ = false

abbrev pub IsCalm : Client → Type 0
IsCalm p = (w : ℕ) → holds p w ≡ false

module _ (up : Str → Str) where
  pub record IsStable (P : State → Type 0) : Type 0 where
    pub calm :
        (c : ℕ) (p : Client) (s : State)
        → IsCalm (s.clients c)
        → IsCalm p
        → P s
        → P (set_client c p s)
    pub later : (n : ℕ) (s : State) → P s → P (record s { clock = s.clock + n })
    pub leaving :
        (v : ℕ) (s : State)
        → (s.workers v).listener ≡ Listener.selecting
        → P s
        → P (set_worker v (record (s.workers v) { listener = Listener.unlisting }) s)
    pub calling :
        (c : ℕ) (p : Client) (s t : State) → s.clients c ≡ p → call up c p s ≡ some t → P s → P t
    pub listening :
        (res : TaskResult) (v : ℕ) (l : Listener) (s t : State)
        → (s.workers v).listener ≡ l
        → listen res v (s.workers v) l s ≡ some t
        → P s
        → P t

  module _ {P : State → Type 0} (k : IsStable P) where
    begins :
        (c : ℕ) (p q : Client) (s t : State)
        → s.clients c ≡ q
        → IsCalm p
        → begin c p q s ≡ some t
        → P s
        → P t
    unfolding begin
    begins c p Client.idle s t l n e h =
        subst P (some-injective _ t e) (k.calm c p s (λ w. rw l) n h)
    begins c p _ s t l n e h = cc

    timeouts :
        (c : ℕ) (q : Client) (s t : State)
        → s.clients c ≡ q
        → call_timeout c q s ≡ some t
        → P s
        → P t
    unfolding call_timeout
    timeouts c (Client.queueing r v) s t l e h =
        subst P (some-injective _ t e) (k.calm c _ s (λ w. rw l) (λ w. refl) h)
    timeouts c (Client.receiving r v ch) s t l e h =
        subst P (some-injective _ t e) (k.calm c _ s (λ w. rw l) (λ w. refl) h)
    timeouts c _ s t l e h = cc

    leaves :
        (v : ℕ) (l : Listener) (s t : State)
        → (s.workers v).listener ≡ l
        → listen_timeout v (s.workers v) l s ≡ some t
        → P s
        → P t
    unfolding listen_timeout
    leaves v Listener.selecting s t l e h = subst P (some-injective _ t e) (k.leaving v s l h)
    leaves v _ s t l e h = cc

    pub stable_step : (e : Event) (s t : State) → step up e s ≡ some t → P s → P t
    unfolding step
    stable_step (run c r) s t e h = begins c _ (s.clients c) s t refl (λ w. refl) e h
    stable_step (break c p d) s t e h = begins c _ (s.clients c) s t refl (λ w. refl) e h
    stable_step (calls c) s t e h = k.calling c (s.clients c) s t refl e h
    stable_step (times_out c) s t e h = timeouts c (s.clients c) s t refl e h
    stable_step (listens v res) s t e h = k.listening res v (s.workers v).listener s t refl e h
    stable_step (idles v) s t e h = leaves v (s.workers v).listener s t refl e h
    stable_step (passes n) s t e h = subst P (some-injective _ t e) (k.later n s h)

    pub stable_play : (es : List Event) (s t : State) → play up es s ≡ some t → P s → P t
    stable_play es s t h p = play_induction up stable_step es s t h p
