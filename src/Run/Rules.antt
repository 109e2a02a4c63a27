-- ===== src/Run/Rules.antt =====
-- otasker/oratasker.go: methods that change nothing of a tasker but its log and, under a condition,
-- do not panic while a step is open.
use iplsgo.Prelude.{
  ℕ, ◌≡◌, refl, sym, arith, Bool, true, false, Option, none, some, Str, if◌then◌else◌,
}
use mathlib.Core.Path.{subst}
use iplsgo.Tasker.{Error, Driver, Tasker, open_step}
use iplsgo.Tasker.Steps.{
  is_open, Logged, Works, open_step-Logged, open_step-is_open, set_step_info-Works,
  close_step-Works, trans, still_open,
}
use iplsgo.Tasker.Chunks.{Value}
use iplsgo.Run.{
  State, M, Exit, ok, err, panicked, running, closing, next, ◌>>=◌, ◌>>◌, logged, open_at, close_at,
  note_at, deferring, after_deferred, typed, nullable, return, throw, panic,
}
use iplsgo.Run.Frames.{refl-Logged, set_step_info-Logged, close_step-Logged}

-- A panic, or a method that does not end.
abbrev pub is_cut : {A : Type 0} → Exit A → Bool
is_cut (ok a) = false
is_cut (err e) = false
is_cut panicked = true
is_cut running = true

abbrev pub is_null : {A : Type 0} → Value A → Bool
is_null Value.null = true
is_null v = false

module _ (d : Driver) where
  open d use {World, Conn, now}

  -- The step `k`, if there is one, is in the log.
  abbrev pub is_ready : Option ℕ → Tasker Conn → Bool
  is_ready none t = true
  is_ready (some k) t = is_open k t

  still_ready :
      (k : Option ℕ) (t t' : Tasker Conn) → Logged t t' → is_ready k t ≡ true → is_ready k t' ≡ true
  still_ready none t t' l h = refl
  still_ready (some k) t t' l h = still_open k t t' l h

  -- The log alone changes, and under `H`, with step `k` in it, there is no panic.
  pub record Behaves (H : Type 0) (k : Option ℕ) {A : Type 0} (m : M d A) : Type 0 where
    pub logs : (s : State d) → Logged s.tasker (m s).1.tasker
    pub calm : H → (s : State d) → is_ready k s.tasker ≡ true → is_cut (m s).0 ≡ false

  next-Logged :
      {A B : Type 0} (t : Tasker Conn) (r : Exit A × State d) (f : A → M d B)
      → Logged t r.1.tasker
      → ((a : A) (u : State d) → Logged u.tasker (f a u).1.tasker)
      → Logged t (next d r f).1.tasker
  next-Logged t (ok a, s) f l g = trans t s.tasker (f a s).1.tasker l (g a s)
  next-Logged t (err e, s) f l g = l
  next-Logged t (panicked, s) f l g = l
  next-Logged t (running, s) f l g = l

  next-is_cut :
      {A B : Type 0} (r : Exit A × State d) (f : A → M d B)
      → is_cut r.0 ≡ false
      → ((a : A) (u : State d) → r ≡ (ok a, u) → is_cut (f a u).0 ≡ false)
      → is_cut (next d r f).0 ≡ false
  next-is_cut (ok a, s) f h g = g a s refl
  next-is_cut (err e, s) f h g = refl
  next-is_cut (panicked, s) f h g = cc
  next-is_cut (running, s) f h g = cc

  -- What follows may use what is known of the value.
  pub known-Behaves :
      {H : Type 0} {k : Option ℕ} {A B : Type 0} {m : M d A} {f : A → M d B} (R : A → Type 0)
      → ((s : State d) (a : A) (u : State d) → m s ≡ (ok a, u) → R a)
      → Behaves H k m
      → ((a : A) → Behaves (H × R a) k (f a))
      → Behaves H k (◌>>=◌ d m f)
  known-Behaves {k = k} {m = m} {f = f} R g p q = record {
    logs = λ s. next-Logged s.tasker (m s) f (p.logs s) (λ a u. (q a).logs u);
    calm = λ x s o. next-is_cut (m s) f (p.calm x s o) (λ a u e.
        (q a).calm (x, g s a u e) u
          (subst (λ r. is_ready k r.1.tasker ≡ true) e
            (still_ready k s.tasker (m s).1.tasker (p.logs s) o)));
  }

  pub weaken :
      {H J : Type 0} {k : Option ℕ} {A : Type 0} {m : M d A}
      → (J → H)
      → Behaves H k m
      → Behaves J k m
  weaken g p = record { logs = p.logs; calm = λ x. p.calm (g x) }

  pub bind-Behaves :
      {H : Type 0} {k : Option ℕ} {A B : Type 0} {m : M d A} {f : A → M d B}
      → Behaves H k m
      → ((a : A) → Behaves H k (f a))
      → Behaves H k (◌>>=◌ d m f)
  bind-Behaves {m = m} {f = f} p q =
      known-Behaves {m = m} {f = f} (λ a. Unit {0}) (λ s a u e. tt) p (λ a. weaken (λ x. x.0) (q a))

  pub then-Behaves :
      {H : Type 0} {k : Option ℕ} {B : Type 0} {m : M d (Unit {0})} {f : M d B}
      → Behaves H k m
      → Behaves H k f
      → Behaves H k (◌>>◌ d m f)
  then-Behaves {m = m} {f = f} p q = bind-Behaves {m = m} {f = λ u. f} p (λ u. q)

  -- A method that leaves the tasker alone.
  pub same-Behaves :
      {H : Type 0} {k : Option ℕ} {A : Type 0} {m : M d A}
      → ((s : State d) → (m s).1.tasker ≡ s.tasker)
      → (H → (s : State d) → is_cut (m s).0 ≡ false)
      → Behaves H k m
  same-Behaves h c = record {
    logs = λ s. subst (Logged s.tasker) (sym (h s)) (refl-Logged s.tasker);
    calm = λ x s o. c x s;
  }

  pub return-Behaves : {H : Type 0} {k : Option ℕ} {A : Type 0} (a : A) → Behaves H k (return d a)
  return-Behaves a = same-Behaves (λ s. refl) (λ x s. refl)

  pub throw-Behaves :
      {H : Type 0} {k : Option ℕ} {A : Type 0} (e : Error) → Behaves H k (throw d {A = A} e)
  throw-Behaves e = same-Behaves (λ s. refl) (λ x s. refl)

  pub panic-Behaves :
      {H : Type 0} {k : Option ℕ} {A : Type 0} → (H → ⊥) → Behaves H k (panic d {A = A})
  panic-Behaves h = same-Behaves (λ s. refl) (λ x s. absurd (h x))

  pub typed-Behaves :
      {H : Type 0} {k : Option ℕ} {A : Type 0} (v : Value A)
      → (H → is_null v ≡ false)
      → Behaves H k (typed d v)
  typed-Behaves (Value.got a) h = return-Behaves a
  typed-Behaves Value.null h = same-Behaves (λ s. refl) (λ x s. absurd (ground (arith, h x)))
  typed-Behaves (Value.failed e) h = throw-Behaves e

  pub nullable-Behaves :
      {H : Type 0} {k : Option ℕ} {A : Type 0} (v : Value A) → Behaves H k (nullable d v)
  nullable-Behaves (Value.got a) = return-Behaves (some a)
  nullable-Behaves Value.null = return-Behaves none
  nullable-Behaves (Value.failed e) = throw-Behaves e

  pub if-Behaves :
      {H : Type 0} {k : Option ℕ} {A : Type 0} (b : Bool) {f g : M d A}
      → Behaves H k f
      → Behaves H k g
      → Behaves H k (if b then f else g)
  if-Behaves true p q = p
  if-Behaves false p q = q

  logged-Logged :
      (s : State d) (o : Option (Tasker Conn))
      → ((t : Tasker Conn) → o ≡ some t → Logged s.tasker t)
      → Logged s.tasker (logged d s o).1.tasker
  logged-Logged s none h = refl-Logged s.tasker
  logged-Logged s (some t) h = h t refl

  logged-is_cut :
      (s : State d) (o : Option (Tasker Conn)) → Works s.tasker o → is_cut (logged d s o).0 ≡ false
  logged-is_cut s none w = absurd (ground (arith, w.1))
  logged-is_cut s (some t) w = refl

  pub close_at-Behaves : {H : Type 0} (num : ℕ) → Behaves H (some num) (close_at d num)
  unfolding close_at
  close_at-Behaves num = record {
    logs = λ s. logged-Logged s _ (λ t. close_step-Logged num (now s.world) s.tasker t);
    calm = λ x s o. logged-is_cut s _ (close_step-Works num (now s.world) s.tasker o);
  }

  pub note_at-Behaves :
      {H : Type 0} (num : ℕ) (stm show : Str) (b : Bool)
      → Behaves H (some num) (note_at d num stm show b)
  unfolding note_at
  note_at-Behaves num stm show b = record {
    logs = λ s. logged-Logged s _ (λ t. set_step_info-Logged num stm show b s.tasker t);
    calm = λ x s o. logged-is_cut s _ (set_step_info-Works num stm show b s.tasker o);
  }

  deferred-Logged :
      {A : Type 0} (t : Tasker Conn) (e : Exit A) (r : Exit (Unit {0}) × State d)
      → Logged t r.1.tasker
      → Logged t (after_deferred d e r).1.tasker
  deferred-Logged t e (ok u, s) l = l
  deferred-Logged t e (err x, s) l = l
  deferred-Logged t e (panicked, s) l = l
  deferred-Logged t e (running, s) l = l

  closing-Logged :
      {A : Type 0} (f : M d (Unit {0})) (r : Exit A × State d)
      → Logged r.1.tasker (f r.1).1.tasker
      → Logged r.1.tasker (closing d f r).1.tasker
  closing-Logged f (ok a, s) l = deferred-Logged s.tasker (ok a) (f s) l
  closing-Logged f (err e, s) l = deferred-Logged s.tasker (err e) (f s) l
  closing-Logged f (panicked, s) l = deferred-Logged s.tasker panicked (f s) l
  closing-Logged f (running, s) l = refl-Logged s.tasker

  deferred-is_cut :
      {A : Type 0} (e : Exit A) (r : Exit (Unit {0}) × State d)
      → is_cut e ≡ false
      → is_cut r.0 ≡ false
      → is_cut (after_deferred d e r).0 ≡ false
  deferred-is_cut e (ok u, s) h g = h
  deferred-is_cut e (err x, s) h g = h
  deferred-is_cut e (panicked, s) h g = cc
  deferred-is_cut e (running, s) h g = cc

  closing-is_cut :
      {A : Type 0} (f : M d (Unit {0})) (r : Exit A × State d)
      → is_cut r.0 ≡ false
      → is_cut (f r.1).0 ≡ false
      → is_cut (closing d f r).0 ≡ false
  closing-is_cut f (ok a, s) h g = deferred-is_cut (ok a) (f s) h g
  closing-is_cut f (err e, s) h g = deferred-is_cut (err e) (f s) h g
  closing-is_cut f (panicked, s) h g = cc
  closing-is_cut f (running, s) h g = cc

  -- openStep(num, name); defer closeStep(num); m
  pub step-Behaves :
      {H : Type 0} {k : Option ℕ} {A : Type 0} {m : M d A} (num : ℕ) (name : Str)
      → Behaves H (some num) m
      → Behaves H k (◌>>◌ d (open_at d num name) (deferring d (close_at d num) m))
  unfolding open_at deferring
  step-Behaves {H} {m = m} num name p =
      let close : Behaves H (some num) (close_at d num) = close_at-Behaves num in
      let opened : State d → State d =
        λ s. record s { tasker = open_step num name (now s.world) s.tasker } in
      record {
        logs = λ s.
            let u = opened s in
            let r = m u in
            trans s.tasker u.tasker (closing d (close_at d num) r).1.tasker
              (open_step-Logged num name (now s.world) s.tasker)
              (trans u.tasker r.1.tasker (closing d (close_at d num) r).1.tasker (p.logs u)
                (closing-Logged (close_at d num) r (close.logs r.1)));
        calm = λ x s o.
            let u = opened s in
            let r = m u in
            let o1 = open_step-is_open num name (now s.world) s.tasker in
            closing-is_cut (close_at d num) r (p.calm x u o1)
              (close.calm x r.1 (still_open num u.tasker r.1.tasker (p.logs u) o1));
      }
