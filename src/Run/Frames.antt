-- ===== src/Run/Frames.antt =====
-- otasker/oratasker.go: the log of steps and getRestChunks change nothing of a tasker but its log.
use iplsgo.Prelude.{
  ℕ, ◌≡◌, refl, sym, ◌∙◌, ap, Bool, true, false, Option, none, some, inl, inr, Str, Option-cases,
  is_some, bytes, arith, nat_eq,
}
use mathlib.Core.Path.{subst}
use mathlib.Core.Option.{some-injective}
use iplsgo.Text.{add_cr}
use iplsgo.Gostd.Maps.{lookup}
use iplsgo.Tasker.{Error, Driver, Tasker, open_step, close_step, set_step_info}
use iplsgo.Tasker.Steps.{
  Logged, Works, open_step-Logged, set_step_info-Works, close_step-Works, trans,
}
use iplsgo.Tasker.Chunks.{
  Looped, ended, panics, runs_on, looped, stepped, ChunkCalls, page_content, get_rest_chunks, fetch,
  unmade, fetching, succeeded, step_chunk_get_num,
}

stepped-inv :
    {A B : Type 0} (o : Option A) (f : A → Looped B) (b : B)
    → stepped o f ≡ ended b
    → (a : A) × (o ≡ some a) × (f a ≡ ended b)
stepped-inv none f b h = cc
stepped-inv (some a) f b h = (a, refl, h)

looped-inv :
    {A B : Type 0} (o : Looped A) (f : A → Looped B) (b : B)
    → looped o f ≡ ended b
    → (a : A) × (o ≡ ended a) × (f a ≡ ended b)
looped-inv (ended a) f b h = (a, refl, h)
looped-inv panics f b h = cc
looped-inv runs_on f b h = cc

from_ended : {A : Type 0} → A → Looped A → A
from_ended a (ended b) = b
from_ended a panics = a
from_ended a runs_on = a

ended-injective : {A : Type 0} (a b : A) → ended a ≡ ended b → a ≡ b
unfolding from_ended
ended-injective a b h = ap (from_ended a) h

module _ {Conn : Type 0} where
  pub refl-Logged : (t : Tasker Conn) → Logged t t
  refl-Logged t = record { steps = t.log_steps; only = refl; keeps = λ k h. h }

  works_to : (t t' : Tasker Conn) (o : Option (Tasker Conn)) → Works t o → o ≡ some t' → Logged t t'
  works_to t t' o w h = subst (Logged t) (some-injective _ _ (sym w.1 ∙ h)) w.2

  pub set_step_info-Logged :
      (num : ℕ) (stm show : Str) (b : Bool) (t t' : Tasker Conn)
      → set_step_info num stm show b t ≡ some t'
      → Logged t t'
  set_step_info-Logged num stm show b t t' h = elim (Option-cases (lookup num t.log_steps)) [
    | inl e ↦ absurd (unfold set_step_info in ground (arith, e, h))
    | inr (s, e) ↦ works_to t t' _ (set_step_info-Works num stm show b t (ap is_some e)) h
  ]

  pub close_step-Logged :
      (num now : ℕ) (t t' : Tasker Conn) → close_step num now t ≡ some t' → Logged t t'
  close_step-Logged num now t t' h = elim (Option-cases (lookup num t.log_steps)) [
    | inl e ↦ absurd (unfold close_step in ground (arith, e, h))
    | inr (s, e) ↦ works_to t t' _ (close_step-Works num now t (ap is_some e)) h
  ]

module _ (d : Driver) where
  open d use {World, Conn, now}

  module _ (k : ChunkCalls d) (c : Conn) (stm : Str) where
    succeeded-Logged :
        (e : Option Error) (t t' : Tasker Conn) → succeeded d k c stm e t ≡ some t' → Logged t t'
    succeeded-Logged none t t' h = set_step_info-Logged step_chunk_get_num stm stm true t t' h
    succeeded-Logged (some e) t t' h = subst (Logged t) (some-injective _ _ h) (refl-Logged t)

    unmade-Logged :
        (e : Error) (text : Str) (t : Tasker Conn) (x : World)
        (r : Option Error × Str × Tasker Conn × World)
        → unmade d k c stm e text t x ≡ ended r
        → Logged t r.2
    unmade-Logged e text t x r h =
        let b = stepped-inv _ _ _ h in
        subst (Logged t) (ap (λ p. p.2) (ended-injective _ _ b.2))
          (close_step-Logged step_chunk_get_num (now x) t b.0 b.1)

    fetching-Logged :
        (fuel : ℕ) (text : Str) (t : Tasker Conn) (x : World)
        (r : Option Error × Str × Tasker Conn × World)
        → fetching d k c stm fuel text t x ≡ ended r
        → Logged t r.2
    fetching-Logged fuel text t x r h =
        let b2 = stepped-inv _ _ _ h in
        let f =
          looped-inv (fetch d k c stm fuel text x)
            (λ p. stepped (succeeded d k c stm p.0 b2.0) (λ t3.
              stepped (close_step step_chunk_get_num (now p.2) t3)
                (λ t4. ended (p.0, p.1, t4, p.2))))
            r b2.2 in
        let b3 = stepped-inv _ _ _ f.2 in
        let b4 = stepped-inv _ _ _ b3.2 in
        subst (Logged t) (ap (λ p. p.2) (ended-injective _ _ b4.2)) (
          trans t b2.0 b4.0 (set_step_info-Logged step_chunk_get_num stm stm true t b2.0 b2.1) (
            trans b2.0 b3.0 b4.0 (succeeded-Logged f.0.0 b2.0 b3.0 b3.1)
              (close_step-Logged step_chunk_get_num (now f.0.2) b3.0 b4.0 b4.1)))

    get_rest_chunks-Logged :
        (fuel : ℕ) (text : Str) (t : Tasker Conn) (x : World)
        (r : Option Error × Str × Tasker Conn × World)
        → get_rest_chunks d k c stm fuel text t x ≡ ended r
        → Logged t r.2
    unfolding get_rest_chunks
    get_rest_chunks-Logged fuel text t x r h =
        let t1 : Tasker Conn = open_step step_chunk_get_num (bytes "getRestChunks") (now x) t in
        trans t t1 r.2 (open_step-Logged step_chunk_get_num (bytes "getRestChunks") (now x) t) (
          elim (k.new_variables c x)
              as (λ o.
                elim o [
                  | some e ↦ unmade d k c stm e text t1 x
                  | none ↦ fetching d k c stm fuel text t1 x
                ]
                  ≡ ended r
                → Logged t1 r.2) [
                  | some e ↦ unmade-Logged e text t1 x r
                  | none ↦ fetching-Logged fuel text t1 x r
                ]
            h)

    pub page_content-Logged :
        (fuel : ℕ) (text : Str) (more : Bool) (t : Tasker Conn) (x : World)
        (r : Option Error × Str × Tasker Conn × World)
        → page_content d k c stm fuel text more t x ≡ ended r
        → Logged t r.2
    unfolding page_content
    page_content-Logged fuel text false t x r h =
        subst (Logged t) (ap (λ p. p.2) (ended-injective _ _ h)) (refl-Logged t)
    page_content-Logged fuel text true t x r h =
        let b = looped-inv _ _ _ h in
        subst (Logged t) (ap (λ p. p.2) (ended-injective _ _ b.2))
          (get_rest_chunks-Logged fuel (add_cr text) t x b.0 b.1)
