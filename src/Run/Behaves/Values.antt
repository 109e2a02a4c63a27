-- ===== src/Run/Behaves/Values.antt =====
-- otasker/oratasker.go: making variables and reading them.
use iplsgo.Prelude.{
  Option, ℕ, ◌≡◌, refl, true, false, ◌⊎◌, inl, inr, List, [], ◌∷◌, Str, ℤ, pos, int_Eq, ◌==◌,
  if◌then◌else◌,
}
use iplsgo.Gostd.Maps.{Map}
use iplsgo.Tasker.{ora, Driver}
use iplsgo.Tasker.Chunks.{Value, got}
use iplsgo.Params.{Cursor}
use iplsgo.Run.{Machine, State, Exit, ok, typed, ◌>>=◌, return, throw, next}
use iplsgo.Run.Variables.{Wanted, made, make_all}
use iplsgo.Run.Upload.{reported}
use iplsgo.Run.Rules.{Behaves, is_null, bind-Behaves, return-Behaves, throw-Behaves, typed-Behaves}

module _ (d : Driver) where
  pub typed-known :
      {A : Type 0} (v : Value A) (s : State d) (a : A) (u : State d)
      → typed d v s ≡ (ok a, u)
      → v ≡ got a
  typed-known (Value.got b) s a u e = cc
  typed-known Value.null s a u e = cc
  typed-known (Value.failed x) s a u e = cc

  never_ok :
      (r : Exit Str × State d) (code : ℤ) (u : State d)
      → next d r (λ s. throw d {A = Unit {0}} (ora code s)) ≡ (ok tt, u)
      → ⊥
  never_ok (ok a, s) code u e = cc
  never_ok (Exit.err x, s) code u e = cc
  never_ok (Exit.panicked, s) code u e = cc
  never_ok (Exit.running, s) code u e = cc

  -- What is reported is no error only for the code 0.
  pub reported-known :
      (code : ℤ) (text : Value Str) (s : State d) (a : Unit {0}) (u : State d)
      → reported d code text s ≡ (ok a, u)
      → (code == pos 0) ≡ true
  reported-known code text s a u =
      elim (code == pos 0)
        as (λ b.
          (if b then return d tt else ◌>>=◌ d (typed d text) (λ s. throw d (ora code s))) s
            ≡ (ok a, u)
          → b ≡ true) [
            | true ↦ λ e. refl
            | false ↦ λ e. absurd (never_ok (typed d text s) code u e)
          ]

  pub reported-Behaves :
      {H : Type 0} {k : Option ℕ} (code : ℤ) (text : Value Str)
      → (H → (code == pos 0) ≡ false → is_null text ≡ false)
      → Behaves d H k (reported d code text)
  reported-Behaves {H} {k} code text =
      elim (code == pos 0)
        as (λ b.
          (H → b ≡ false → is_null text ≡ false)
          → Behaves d H k
              (if b then return d tt else ◌>>=◌ d (typed d text) (λ s. throw d (ora code s)))) [
                | true ↦ λ h. return-Behaves d tt
                | false ↦ λ h.
                    bind-Behaves d (typed-Behaves d text (λ x. h x refl)) (λ s. throw-Behaves d _)
              ]

  module _ (c : Cursor) (m : Machine d c) where
    open c use {Var, Time}

    pub made-Behaves :
        {H : Type 0} {k : Option ℕ} (name : Str) (r : Var ⊎ c.Cause)
        → Behaves d H k (made d c m name r)
    made-Behaves name (inl v) = return-Behaves d v
    made-Behaves name (inr e) = throw-Behaves d _

    pub make_all-Behaves :
        {H : Type 0} {k : Option ℕ} (l : List (Wanted Time)) (params : Map Str Var)
        → Behaves d H k (make_all d c m l params)
    unfolding make_all
    make_all-Behaves [] params = return-Behaves d params
    make_all-Behaves ((key, name, call) ∷ rest) params =
        bind-Behaves d (made-Behaves name (c.create call)) (λ v. make_all-Behaves rest _)
