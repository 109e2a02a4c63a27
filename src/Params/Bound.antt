-- ===== src/Params/Bound.antt =====
-- otasker/oratasker.go: what one call of prepareParam leaves behind when it succeeds.
use iplsgo.Prelude.{
  ◌≡◌, ◌≢◌, ◌⊎◌, ◌∙◌, ap, refl, Bool, true, none, some, List, [], ◌∷◌, ◌++◌, Str, bytes, arith,
  str_Eq, str_eq_iff, str_eq_refl, is_some, inl, inr,
}
use mathlib.Core.Path.{subst}
use mathlib.Core.Option.{some-injective}
use iplsgo.Gostd.Maps.{lookup, lookup-insert}
use iplsgo.Params.{
  VarCall, bind_as, Cursor, Binding, comma, Prepared, ◌>>=◌, bind, written, stored, exec_arg,
  show_arg, store_one, store_all,
}
use iplsgo.Params.Scalar.{
  prepare_string_param, prepare_number, prepare_integer, prepare_date, prepare_boolean,
  prepare_other, boolean_arg, declare_line,
}
use iplsgo.Params.Tab.{
  table, prepare_string_tab, prepare_number_tab, prepare_integer_tab, prepare_date_tab, set_lines,
  string_literal, date_literal,
}
use iplsgo.Params.Prepare.{ParamType}

module _ (c : Cursor) where
  open c use {Var, Time}

  abbrev pub has : Str → Binding Var → Bool
  has key b = is_some (lookup key b.params)

  -- The arguments of the call are the same, and every variable is still there.
  pub record Keeps (b b' : Binding Var) : Type 0 where
    pub same : b'.exec_proc ≡ b.exec_proc
    pub grows : (key : Str) → has key b ≡ true → has key b' ≡ true

  bind-Keeps :
      (r : Var ⊎ c.Cause) (name key : Str) (b b' : Binding Var)
      → bind_as c r name key b ≡ (b', none)
      → Keeps b b' × (has key b' ≡ true)
  bind-Keeps (inr e) name key b b' h = cc
  bind-Keeps (inl v) name key b b' h = (
    record {
      same = ground arith;
      grows = λ k e. ground (arith, lookup-insert key k v b.params, str_eq_iff key k);
    },
    ground (arith, lookup-insert key key v b.params, str_eq_refl key),
  )

  trans : (b b' b'' : Binding Var) → Keeps b b' → Keeps b' b'' → Keeps b b''
  trans b b' b'' p q = record { same = q.same ∙ p.same; grows = λ k e. q.grows k (p.grows k e) }

  stored-Keeps : (exec show : Str) (b : Binding Var) → Keeps b (stored c exec show b)
  stored-Keeps exec show b = record { same = refl; grows = λ k e. e }

  same-Keeps : (b b' : Binding Var) → b ≡ b' → Keeps b b'
  same-Keeps b b' e = subst (λ x. Keeps b x) e (record { same = refl; grows = λ k e. e })

  -- A chain that succeeds has succeeded twice.
  chain :
      (m : Prepared c) (f : Binding Var → Prepared c) (b' : Binding Var)
      → (m >>= f) ≡ (b', none)
      → (b1 : Binding Var) × (m ≡ (b1, none)) × (f b1 ≡ (b', none))
  chain (b1, none) f b' h = (b1, refl, h)
  chain (b1, some e) f b' h = cc

  store_chain :
      (call : VarCall Time) (name : Str) (b b' : Binding Var) (f : Binding Var → Binding Var)
      → ((b1 : Binding Var) → Keeps b1 (f b1))
      → (bind c call name (name ++ bytes "#") b >>= λ b1. (f b1, none)) ≡ (b', none)
      → Keeps b b' × (has (name ++ bytes "#") b' ≡ true)
  store_chain call name b b' f k h =
      let (b1, e, g) = chain (bind c call name (name ++ bytes "#") b) (λ b1. (f b1, none)) b' h in
      let p = bind-Keeps (c.create call) name (name ++ bytes "#") b b1 e in
      let q : Keeps b1 b' = subst (λ x. Keeps b1 x) (ap (λ x. x.0) g) (k b1) in
      (trans b b1 b' p.0 q, q.grows (name ++ bytes "#") p.1)

  store_one-Keeps :
      (call : VarCall Time) (name proc : Str) (b b' : Binding Var)
      → store_one c call name proc b ≡ (b', none)
      → Keeps b b' × ((proc ≢ []) → has (name ++ bytes "#") b' ≡ true)
  store_one-Keeps call name [] b b' h = (same-Keeps b b' (ap (λ x. x.0) h), λ n. absurd (n refl))
  store_one-Keeps call name (p ∷ ps) b b' h =
      let r = store_chain call name b b' _ (λ b1. stored-Keeps _ _ b1) h in (r.0, λ n. r.1)

  store_all-Keeps :
      (call : VarCall Time) (name : Str) (values : List Str) (proc : Str) (b b' : Binding Var)
      → store_all c call name values proc b ≡ (b', none)
      → Keeps b b' × ((proc ≢ []) → has (name ++ bytes "#") b' ≡ true)
  store_all-Keeps call name values [] b b' h =
      (same-Keeps b b' (ap (λ x. x.0) h), λ n. absurd (n refl))
  store_all-Keeps call name values (p ∷ ps) b b' h =
      let r = store_chain call name b b' _ (λ b1. stored-Keeps _ _ b1) h in (r.0, λ n. r.1)

  -- After a success: the call has one more argument, the variable of its name is there, and so is
  -- the one to store, if there is a procedure to store with.
  pub record Binds (name : Str) (arg : Str) (b b' : Binding Var) : Type 0 where
    pub adds : b'.exec_proc ≡ comma b.exec_proc arg
    pub bound : has name b' ≡ true
    pub keeps : (key : Str) → has key b ≡ true → has key b' ≡ true

  binds :
      (call : VarCall Time) (name arg : Str) (b b' : Binding Var) (f : Binding Var → Binding Var)
      (g : Binding Var → Prepared c)
      → ((x : Binding Var) → (f x).exec_proc ≡ comma x.exec_proc arg)
      → ((x : Binding Var) → (f x).params ≡ x.params)
      → ((x : Binding Var) → g x ≡ (b', none) → Keeps x b')
      → (bind c call name name b >>= λ b1. g (f b1)) ≡ (b', none)
      → Binds name arg b b'
  binds call name arg b b' f g ef pf k h =
      let (b1, e, q) = chain (bind c call name name b) (λ b1. g (f b1)) b' h in
      let p = bind-Keeps (c.create call) name name b b1 e in
      let r = k (f b1) q in
      let carried : (key : Str) → has key b1 ≡ true → has key b' ≡ true =
        λ key x. r.grows key (ap (λ m. is_some (lookup key m)) (pf b1) ∙ x) in
      record {
        adds = r.same ∙ (ef b1 ∙ ap (λ x. comma x arg) p.0.same);
        bound = carried name p.1;
        keeps = λ key x. carried key (p.0.grows key x);
      }

  -- The argument that a parameter of a type adds to the call.
  abbrev pub argument : ParamType → Str → Str
  argument ParamType.boolean name = boolean_arg c name
  argument _ name = exec_arg c name

  one :
      (call store_call : VarCall Time) (name proc declare set arg show : Str) (b b' : Binding Var)
      → (bind c call name name b >>= λ b1.
          store_one c store_call name proc (written c declare set arg show b1))
        ≡ (b', none)
      → Binds name arg b b'
  one call store_call name proc declare set arg show b b' h =
      binds call name arg b b' (written c declare set arg show) (store_one c store_call name proc)
        (λ x. refl) (λ x. refl) (λ x e. (store_one-Keeps store_call name proc x b' e).0) h

  all :
      (call store_call : VarCall Time) (text : Str → Str) (name : Str) (values : List Str)
      (type_name proc : Str) (b b' : Binding Var)
      → table c call store_call text name values type_name proc b ≡ (b', none)
      → Binds name (exec_arg c name) b b'
  all call store_call text name values type_name proc b b' h =
      binds call name (exec_arg c name) b b'
        (written c (declare_line c name type_name) (set_lines text name values) (exec_arg c name)
          (show_arg c name))
        (store_all c store_call name values proc) (λ x. refl) (λ x. refl)
        (λ x e. (store_all-Keeps store_call name values proc x b' e).0) h

  pub string-Binds :
      (name : Str) (values : List Str) (type_name proc : Str) (b b' : Binding Var)
      → prepare_string_param c name values type_name proc b ≡ some (b', none)
      → Binds name (exec_arg c name) b b'
  unfolding prepare_string_param
  string-Binds name [] type_name proc b b' h = cc
  string-Binds name (v ∷ more) type_name proc b b' h =
      one _ _ name proc _ _ _ _ b b' (some-injective _ _ h)

  pub number-Binds :
      (name v : Str) (type_name proc : Str) (b b' : Binding Var)
      → prepare_number c name v type_name proc b ≡ (b', none)
      → Binds name (exec_arg c name) b b'
  unfolding prepare_number
  number-Binds name v type_name proc b b' h = one _ _ name proc _ _ _ _ b b' h

  pub integer-Binds :
      (name v : Str) (type_name proc : Str) (b b' : Binding Var)
      → prepare_integer c name v type_name proc b ≡ (b', none)
      → Binds name (exec_arg c name) b b'
  unfolding prepare_integer
  integer-Binds name v type_name proc b b' h = one _ _ name proc _ _ _ _ b b' h

  pub date-Binds :
      (name v : Str) (type_name proc : Str) (b b' : Binding Var)
      → prepare_date c name v type_name proc b ≡ (b', none)
      → Binds name (exec_arg c name) b b'
  unfolding prepare_date
  date-Binds name v type_name proc b b' h = one _ _ name proc _ _ _ _ b b' h

  pub boolean-Binds :
      (name v : Str) (type_name proc : Str) (b b' : Binding Var)
      → prepare_boolean c name v type_name proc b ≡ (b', none)
      → Binds name (boolean_arg c name) b b'
  unfolding prepare_boolean
  boolean-Binds name v type_name [] b b' h =
      binds _ name _ b b' (written c _ _ _ _) (λ x. (x, none)) (λ x. refl) (λ x. refl)
        (λ x e. same-Keeps x b' (ap (λ y. y.0) e)) h
  boolean-Binds name v type_name (p ∷ ps) b b' h =
      binds _ name _ b b' (λ x. stored c _ _ (written c _ _ _ _ x)) (λ x. (x, none)) (λ x. refl)
        (λ x. refl) (λ x e. same-Keeps x b' (ap (λ y. y.0) e)) h

  pub string_tab-Binds :
      (name : Str) (vs : List Str) (type_name proc : Str) (b b' : Binding Var)
      → prepare_string_tab c name vs type_name proc b ≡ (b', none)
      → Binds name (exec_arg c name) b b'
  unfolding prepare_string_tab
  string_tab-Binds name vs type_name proc b b' h =
      all _ _ string_literal name vs type_name proc b b' h

  pub number_tab-Binds :
      (name : Str) (vs : List Str) (type_name proc : Str) (b b' : Binding Var)
      → prepare_number_tab c name vs type_name proc b ≡ (b', none)
      → Binds name (exec_arg c name) b b'
  unfolding prepare_number_tab
  number_tab-Binds name vs type_name proc b b' h = all _ _ _ name vs type_name proc b b' h

  pub integer_tab-Binds :
      (name : Str) (vs : List Str) (type_name proc : Str) (b b' : Binding Var)
      → prepare_integer_tab c name vs type_name proc b ≡ (b', none)
      → Binds name (exec_arg c name) b b'
  unfolding prepare_integer_tab
  integer_tab-Binds name vs type_name proc b b' h = all _ _ _ name vs type_name proc b b' h

  pub date_tab-Binds :
      (name : Str) (vs : List Str) (type_name proc : Str) (b b' : Binding Var)
      → prepare_date_tab c name vs type_name proc b ≡ (b', none)
      → Binds name (exec_arg c name) b b'
  unfolding prepare_date_tab
  date_tab-Binds name vs type_name proc b b' h = all _ _ date_literal name vs type_name proc b b' h

  pub other-Keeps :
      (name v proc : Str) (b b' : Binding Var)
      → prepare_other c name v proc b ≡ (b', none)
      → Keeps b b'
  unfolding prepare_other
  other-Keeps name v proc b b' h =
      trans b _ b' (record { same = refl; grows = λ k e. e }) (store_one-Keeps _ name proc _ b' h).0
