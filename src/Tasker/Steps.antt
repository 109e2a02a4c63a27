-- ===== src/Tasker/Steps.antt =====
-- otasker/oratasker.go: what the operations on the log of steps keep.
use iplsgo.Prelude.{
  ℕ, ◌≡◌, sym, refl, ap, ◌∙◌, Bool, true, Option, none, some, arith, Str, nat_eq, is_some,
}
use mathlib.Core.Path.{subst}
use iplsgo.Gostd.Maps.{Map, lookup, insert, lookup-insert}
use iplsgo.Tasker.{Step, Tasker, open_step, close_step, set_step_info}

insert-keeps :
    (num k : ℕ) (s : Step) (m : Map ℕ Step)
    → is_some (lookup k m) ≡ true
    → is_some (lookup k (insert num s m)) ≡ true
insert-keeps num k s m h = ground (arith, lookup-insert num k s m)

insert-same : (num : ℕ) (s : Step) (m : Map ℕ Step) → is_some (lookup num (insert num s m)) ≡ true
insert-same num s m = ground (arith, lookup-insert num num s m)

module _ {Conn : Type 0} where
  -- The step is in the log.
  abbrev pub is_open : ℕ → Tasker Conn → Bool
  is_open num t = is_some (lookup num t.log_steps)

  -- Nothing changed but the log, in which every step still is.
  pub record Logged (t t' : Tasker Conn) : Type 0 where
    pub steps : Map ℕ Step
    pub only : t' ≡ record t { log_steps = steps }
    pub keeps : (k : ℕ) → is_open k t ≡ true → is_some (lookup k steps) ≡ true

  pub open_step-Logged :
      (num : ℕ) (type : Str) (now : ℕ) (t : Tasker Conn) → Logged t (open_step num type now t)
  unfolding open_step
  open_step-Logged num type now t = record {
    steps = (open_step num type now t).log_steps;
    only = refl;
    keeps = λ k h. insert-keeps num k _ t.log_steps h;
  }

  pub open_step-is_open :
      (num : ℕ) (type : Str) (now : ℕ) (t : Tasker Conn)
      → is_open num (open_step num type now t) ≡ true
  unfolding open_step
  open_step-is_open num type now t = insert-same num _ t.log_steps

  -- An operation on the log that does not panic.
  abbrev pub Works : Tasker Conn → Option (Tasker Conn) → Type 0
  Works t r = (t' : Tasker Conn) × (r ≡ some t') × Logged t t'

  changed : ℕ → (Step → Step) → Tasker Conn → Option Step → Option (Tasker Conn)
  changed num f t none = none
  changed num f t (some s) = some (record t { log_steps = insert num (f s) t.log_steps })

  changed-Works :
      (num : ℕ) (f : Step → Step) (t : Tasker Conn) (o : Option Step)
      → is_some o ≡ true
      → Works t (changed num f t o)
  unfolding changed
  changed-Works num f t none h = cc
  changed-Works num f t (some s) h = (
    _,
    refl,
    record {
      steps = insert num (f s) t.log_steps;
      only = refl;
      keeps = λ k e. insert-keeps num k (f s) t.log_steps e;
    },
  )

  pub set_step_info-Works :
      (num : ℕ) (stm show : Str) (success : Bool) (t : Tasker Conn)
      → is_open num t ≡ true
      → Works t (set_step_info num stm show success t)
  unfolding set_step_info changed
  set_step_info-Works num stm show success t h =
      changed-Works num
        (λ s. record s { step_stm = stm; step_stm_for_showing = show; step_success = success }) t
        (lookup num t.log_steps) h

  pub close_step-Works :
      (num now : ℕ) (t : Tasker Conn) → is_open num t ≡ true → Works t (close_step num now t)
  unfolding close_step changed
  close_step-Works num now t h =
      changed-Works num (λ s. record s { step_fn = some now }) t (lookup num t.log_steps) h

  pub trans : (t t1 t2 : Tasker Conn) → Logged t t1 → Logged t1 t2 → Logged t t2
  trans t t1 t2 p q = record {
    steps = q.steps;
    only = q.only ∙ ap {A = Tasker Conn} (λ x. record x { log_steps = q.steps }) p.only;
    keeps = λ k h. q.keeps k (subst (λ x. is_open k x ≡ true) (sym p.only) (p.keeps k h));
  }

  pub still_open :
      (k : ℕ) (t t' : Tasker Conn) → Logged t t' → is_open k t ≡ true → is_open k t' ≡ true
  still_open k t t' p h = subst (λ x. is_open k x ≡ true) (sym p.only) (p.keeps k h)
