-- ===== src/Params/Arguments.antt =====
-- otasker/oratasker.go: the call that the parameters of a request make, and its variables.
use iplsgo.Prelude.{◌≡◌, Bool, true, false, none, some, List, [], ◌∷◌, Str, if◌then◌else◌}
use mathlib.Core.Option.{some-injective}
use iplsgo.Params.{Cursor, Binding, comma, Prepared}
use iplsgo.Params.Tab.{prepare_boolean_tab}
use iplsgo.Params.Prepare.{ParamType, single, prepare_param}
use iplsgo.Params.Bound.{
  has, Keeps, Binds, argument, other-Keeps, string-Binds, number-Binds, date-Binds, boolean-Binds,
  integer-Binds, string_tab-Binds, number_tab-Binds, date_tab-Binds, integer_tab-Binds,
}

module _ (c : Cursor) where
  open c use {Var}

  -- The procedure has a parameter of the type.
  abbrev pub declared : ParamType → Bool
  declared ParamType.other = false
  declared _ = true

  -- What a success with one parameter leaves behind.
  Done : ParamType → Str → Binding Var → Binding Var → Type 0
  Done ParamType.other name b b' = Keeps c b b'
  Done t name b b' = Binds c name (argument c t name) b b'

  once :
      (t : ParamType) (name : Str) (f : Str → Prepared c) (values : List Str) (b b' : Binding Var)
      → ((v : Str) → f v ≡ (b', none) → Done t name b b')
      → single c f values ≡ some (b', none)
      → Done t name b b'
  once t name f [] b b' k h = cc
  once t name f (v ∷ more) b b' k h = k v (some-injective _ _ h)

  prepare_param-Done :
      (name : Str) (values : List Str) (t : ParamType) (type_name proc : Str) (b b' : Binding Var)
      → prepare_param c name values t type_name proc b ≡ some (b', none)
      → Done t name b b'
  unfolding prepare_param prepare_boolean_tab Done
  prepare_param-Done name vs ParamType.string tn proc b b' h = string-Binds c name vs tn proc b b' h
  prepare_param-Done name vs ParamType.number tn proc b b' h =
      once ParamType.number name _ vs b b' (λ v. number-Binds c name v tn proc b b') h
  prepare_param-Done name vs ParamType.date tn proc b b' h =
      once ParamType.date name _ vs b b' (λ v. date-Binds c name v tn proc b b') h
  prepare_param-Done name vs ParamType.boolean tn proc b b' h =
      once ParamType.boolean name _ vs b b' (λ v. boolean-Binds c name v tn proc b b') h
  prepare_param-Done name vs ParamType.integer tn proc b b' h =
      once ParamType.integer name _ vs b b' (λ v. integer-Binds c name v tn proc b b') h
  prepare_param-Done name vs ParamType.string_tab tn proc b b' h =
      string_tab-Binds c name vs tn proc b b' (some-injective _ _ h)
  prepare_param-Done name vs ParamType.number_tab tn proc b b' h =
      number_tab-Binds c name vs tn proc b b' (some-injective _ _ h)
  prepare_param-Done name vs ParamType.date_tab tn proc b b' h =
      date_tab-Binds c name vs tn proc b b' (some-injective _ _ h)
  prepare_param-Done name vs ParamType.boolean_tab tn proc b b' h = cc
  prepare_param-Done name vs ParamType.integer_tab tn proc b b' h =
      integer_tab-Binds c name vs tn proc b b' (some-injective _ _ h)
  prepare_param-Done name vs ParamType.other tn proc b b' h =
      once ParamType.other name _ vs b b' (λ v. other-Keeps c name v proc b b') h

  Done-cases :
      (t : ParamType) (name : Str) (b b' : Binding Var)
      → Done t name b b'
      → (b'.exec_proc ≡ (if declared t then comma b.exec_proc (argument c t name) else b.exec_proc))
        × (declared t ≡ true → has c name b' ≡ true)
        × ((key : Str) → has c key b ≡ true → has c key b' ≡ true)
  unfolding Done
  Done-cases ParamType.string name b b' d = (d.adds, (λ e. d.bound), d.keeps)
  Done-cases ParamType.number name b b' d = (d.adds, (λ e. d.bound), d.keeps)
  Done-cases ParamType.date name b b' d = (d.adds, (λ e. d.bound), d.keeps)
  Done-cases ParamType.boolean name b b' d = (d.adds, (λ e. d.bound), d.keeps)
  Done-cases ParamType.integer name b b' d = (d.adds, (λ e. d.bound), d.keeps)
  Done-cases ParamType.string_tab name b b' d = (d.adds, (λ e. d.bound), d.keeps)
  Done-cases ParamType.number_tab name b b' d = (d.adds, (λ e. d.bound), d.keeps)
  Done-cases ParamType.date_tab name b b' d = (d.adds, (λ e. d.bound), d.keeps)
  Done-cases ParamType.boolean_tab name b b' d = (d.adds, (λ e. d.bound), d.keeps)
  Done-cases ParamType.integer_tab name b b' d = (d.adds, (λ e. d.bound), d.keeps)
  Done-cases ParamType.other name b b' d = (d.same, (λ e. cc), d.grows)

  pub param_step :
      (name : Str) (values : List Str) (t : ParamType) (type_name proc : Str) (b b' : Binding Var)
      → prepare_param c name values t type_name proc b ≡ some (b', none)
      → (b'.exec_proc ≡ (if declared t then comma b.exec_proc (argument c t name) else b.exec_proc))
        × (declared t ≡ true → has c name b' ≡ true)
        × ((key : Str) → has c key b ≡ true → has c key b' ≡ true)
  param_step name values t type_name proc b b' h =
      Done-cases t name b b' (prepare_param-Done name values t type_name proc b b' h)
