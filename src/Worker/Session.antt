-- ===== src/Worker/Session.antt =====
-- Sessions: how `Run` makes one, and what two calls that make the same one do.
use iplsgo.Prelude.{
  sym, ◌∙◌, str_eq_refl, ℕ, suc, ◌≡◌, ◌≢◌, refl, some, [], ◌∷◌, arith, Str, str_Eq,
}
use mathlib.Core.Path.{subst}
use mathlib.Core.Option.{some-injective}
use iplsgo.Gostd.Maps.{lookup, lookup-insert, insert}
use iplsgo.Task.{Request}
use iplsgo.Worker.{Listener, Client, State, set_client, new_worker}
use iplsgo.Worker.Steps.{calls, call, step, play, play-cons, find_worker, create, inner}

module _ (up : Str → Str) where
  -- The session is found after it was made.
  find_worker-create :
      (r : Request) (s : State)
      → find_worker up r.path r.work.session_id (create up r s) ≡ some s.next_worker
  unfolding find_worker create
  find_worker-create r s = ground (
    arith,
    lookup-insert (up r.path) (up r.path)
        (insert (up r.work.session_id) s.next_worker (inner (lookup (up r.path) s.wlist))) s.wlist,
    lookup-insert (up r.work.session_id) (up r.work.session_id) s.next_worker
        (inner (lookup (up r.path) s.wlist)),
    str_eq_refl (up r.path),
    str_eq_refl (up r.work.session_id),
  )

  made : ℕ → Request → State → State
  made c r s = set_client c (Client.checking r s.next_worker) (create up r s)

  step_creating :
      (c : ℕ) (r : Request) (s : State)
      → s.clients c ≡ Client.creating r
      → step up (calls c) s ≡ some (made c r s)
  unfolding step call made
  step_creating c r s h = rw (h, call)

  clients-made_ne :
      (c d : ℕ) (r : Request) (s : State) → c ≢ d → (made c r s).clients d ≡ s.clients d
  unfolding made create
  clients-made_ne c d r s n = ground arith

  play_creates :
      (c d : ℕ) (r q : Request) (s : State)
      → c ≢ d
      → s.clients c ≡ Client.creating r
      → s.clients d ≡ Client.creating q
      → play up (calls c ∷ calls d ∷ []) s ≡ some (made d q (made c r s))
  unfolding play
  play_creates c d r q s n hc hd =
      play-cons up (calls c) (calls d ∷ []) s (made c r s) (step_creating c r s hc) (
        play-cons up (calls d) [] (made c r s) _
          (step_creating d q (made c r s) (clients-made_ne c d r s n ∙ hd)) refl)

  find_keys :
      {p q i j : Str}
      → up q ≡ up p
      → up j ≡ up i
      → (s : State) → find_worker up p i s ≡ find_worker up q j s
  unfolding find_worker
  find_keys ep ei s = ground arith

  -- Two calls of `Run` of one path and session, up to case, that both looked it up before either made its worker make two of them.
  -- Both callers go on, each with a worker of its own, and only the second worker is listed.
  pub create_twice :
      (c d : ℕ) (r q : Request) (s t : State)
      → c ≢ d
      → s.clients c ≡ Client.creating r
      → s.clients d ≡ Client.creating q
      → up q.path ≡ up r.path
      → up q.work.session_id ≡ up r.work.session_id
      → play up (calls c ∷ calls d ∷ []) s ≡ some t
      → (t.clients c ≡ Client.checking r s.next_worker)
        × (t.clients d ≡ Client.checking q (suc s.next_worker))
        × ((t.workers s.next_worker).listener ≡ Listener.entering)
        × (find_worker up r.path r.work.session_id t ≡ some (suc s.next_worker))
  unfolding made create new_worker find_worker
  create_twice c d r q s t n hc hd ep ei h =
      subst
        (λ (u : State).
          (u.clients c ≡ Client.checking r s.next_worker)
          × (u.clients d ≡ Client.checking q (suc s.next_worker))
          × ((u.workers s.next_worker).listener ≡ Listener.entering)
          × (find_worker up r.path r.work.session_id u ≡ some (suc s.next_worker)))
        (some-injective _ t (sym (play_creates c d r q s n hc hd) ∙ h))
        (
          ground arith,
          ground arith,
          ground arith,
          find_keys ep ei (made d q (made c r s)) ∙ find_worker-create q (made c r s),
        )
