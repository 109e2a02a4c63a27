-- ===== src/Params/Loop.antt =====
-- otasker/oratasker.go: the call that the parameters of a request make, and its variables.
use iplsgo.Prelude.{
  ℕ, ◌≡◌, ◌≢◌, ◌∙◌, ap, refl, sym, true, false, Option, none, some, List, [], ◌∷◌, ◌++◌, Str, bytes,
  arith, if◌then◌else◌, is_empty, Bool-cases, inl, inr,
}
use mathlib.Core.Option.{some-injective}
use mathlib.Core.List.{append-nil, append_assoc}
use iplsgo.Gostd.{trim, join}
use iplsgo.Params.{Cursor, Binding, comma, Prepared}
use iplsgo.Params.Prepare.{ParamType, prepare_param, prepare_url_params, next}
use iplsgo.Params.Bound.{has, argument}
use iplsgo.Params.Arguments.{declared, param_step}

module _ (c : Cursor) where
  open c use {Var}

  -- The arguments that the parameters of a request stand for, in their order: those that the
  -- procedure has.
  abbrev pub listed : (Str → ParamType × Str) → List (Str × List Str) → List Str
  listed info [] = []
  listed info ((key, values) ∷ rest) =
      let name = trim key (bytes " ") in
      let more = listed info rest in
      if is_empty name
      then more
      else if declared c (info name).0
      then argument c (info name).0 name ∷ more
      else more

  -- Every parameter of the request that the procedure has is bound.
  abbrev pub AllBound : (Str → ParamType × Str) → List (Str × List Str) → Binding Var → Type 0
  AllBound info [] b = Unit
  AllBound info ((key, values) ∷ rest) b =
      let name = trim key (bytes " ") in
      (is_empty name ≡ false → declared c (info name).0 ≡ true → has c name b ≡ true)
      × AllBound info rest b

  -- ", " and an argument, for each of a list
  commas : List Str → Str
  commas [] = []
  commas (a ∷ rest) = (bytes ", " ++ a) ++ commas rest

  abbrev added : Str → List Str → Str
  added acc [] = acc
  added acc (a ∷ rest) = added (comma acc a) rest

  added_lem : (x : ℕ) (xs : Str) (args : List Str) → added (x ∷ xs) args ≡ (x ∷ xs) ++ commas args
  unfolding commas
  added_lem x xs [] = sym (append-nil (x ∷ xs))
  added_lem x xs (a ∷ rest) =
      added_lem x (xs ++ (bytes ", " ++ a)) rest
      ∙ append_assoc (x ∷ xs) (bytes ", " ++ a) (commas rest)

  join_lem : (a : Str) (rest : List Str) → join (a ∷ rest) (bytes ", ") ≡ a ++ commas rest
  unfolding join commas
  join_lem a [] = sym (append-nil a)
  join_lem a (b ∷ rest) = ap (λ t. a ++ (bytes ", " ++ t)) (join_lem b rest)

  -- The arguments that are added to nothing are joined by commas, if they are not empty texts.
  added-join :
      (args : List Str)
      → ((a : Str) (rest : List Str) → args ≡ a ∷ rest → a ≢ [])
      → added [] args ≡ join args (bytes ", ")
  unfolding join
  added-join [] k = refl
  added-join ([] ∷ rest) k = absurd (k [] rest refl refl)
  added-join ((x ∷ xs) ∷ rest) k = added_lem x xs rest ∙ sym (join_lem (x ∷ xs) rest)

  next-some :
      (o : Option (Prepared c)) (values : List Str) (ext : List (Str × Str))
      (k : Str → Binding Var → Option (Prepared c × List (Str × Str))) (b' : Binding Var)
      (ext' : List (Str × Str))
      → next c o values ext k ≡ some ((b', none), ext')
      → (first : Str) × (b1 : Binding Var) × (o ≡ some (b1, none))
        × (k first b1 ≡ some ((b', none), ext'))
  next-some none values ext k b' ext' h = cc
  next-some (some (b1, some e)) values ext k b' ext' h = cc
  next-some (some (b1, none)) [] ext k b' ext' h = cc
  next-some (some (b1, none)) (first ∷ more) ext k b' ext' h = (first, b1, refl, h)

  append-full : (xs : Str) (y : ℕ) (ys : Str) → xs ++ (y ∷ ys) ≢ []
  append-full [] y ys = λ e. cc
  append-full (x ∷ xs) y ys = λ e. cc

  argument-full : (t : ParamType) (name : Str) → argument c t name ≢ []
  argument-full ParamType.string name = append-full name _ _
  argument-full ParamType.number name = append-full name _ _
  argument-full ParamType.date name = append-full name _ _
  argument-full ParamType.boolean name = append-full name _ _
  argument-full ParamType.integer name = append-full name _ _
  argument-full ParamType.string_tab name = append-full name _ _
  argument-full ParamType.number_tab name = append-full name _ _
  argument-full ParamType.date_tab name = append-full name _ _
  argument-full ParamType.boolean_tab name = append-full name _ _
  argument-full ParamType.integer_tab name = append-full name _ _
  argument-full ParamType.other name = append-full name _ _

  module _ (info : Str → ParamType × Str) (proc : Str) where
    -- What a success with the parameters `todo` leaves behind.
    pub record Bound (todo : List (Str × List Str)) (b b' : Binding Var) : Type 0 where
      pub args : b'.exec_proc ≡ added b.exec_proc (listed info todo)
      pub all : AllBound info todo b'
      pub grows : (key : Str) → has c key b ≡ true → has c key b' ≡ true

    blank_step :
        (key : Str) (values : List Str) (rest : List (Str × List Str)) (b b' : Binding Var)
        → is_empty (trim key (bytes " ")) ≡ true
        → Bound rest b b'
        → Bound ((key, values) ∷ rest) b b'
    blank_step key values rest b b' blank r = record {
      args = rw (blank, r.args);
      all = ((λ named. cc), r.all);
      grows = r.grows;
    }

    named_step :
        (key : Str) (values : List Str) (rest : List (Str × List Str)) (b b1 b' : Binding Var)
        → is_empty (trim key (bytes " ")) ≡ false
        → prepare_param c
            (trim key (bytes " "))
            values
            (info (trim key (bytes " "))).0
            (info (trim key (bytes " "))).1
            proc
            b
          ≡ some (b1, none)
        → Bound rest b1 b'
        → Bound ((key, values) ∷ rest) b b'
    named_step key values rest b b1 b' named h r =
        let name = trim key (bytes " ") in
        let t = (info name).0 in
        let (adds, has_name, grows) = param_step c name values t (info name).1 proc b b1 h in
        record {
          args = ground (arith, r.args, adds);
          all = ((λ e d. r.grows name (has_name d)), r.all);
          grows = λ k e. r.grows k (grows k e);
        }

    pub loop :
        (todo : List (Str × List Str)) (ext ext' : List (Str × Str)) (b b' : Binding Var)
        → prepare_url_params c info proc ext todo b ≡ some ((b', none), ext')
        → Bound todo b b'
    unfolding prepare_url_params
    loop [] ext ext' b b' h =
        let e : b ≡ b' = ap (λ p. p.0.0) (some-injective _ _ h) in
        record { args = sym (ap (λ x. x.exec_proc) e); all = tt; grows = λ k g. ground arith }
    loop ((key, values) ∷ rest) ext ext' b b' h =
        let name = trim key (bytes " ") in
        elim (Bool-cases (is_empty name)) [
          | inl blank ↦
              blank_step key values rest b b' blank (loop rest ext ext' b b' (ground arith))
          | inr named ↦
              let (first, b1, e, g) =
                next-some (prepare_param c name values (info name).0 (info name).1 proc b) values
                  ext
                  (λ first b1. prepare_url_params c info proc (ext ++ ((name, first) ∷ [])) rest b1)
                  b' ext' (ground arith) in
              named_step key values rest b b1 b' named e (loop rest _ ext' b1 b' g)
        ]

    listed-full :
        (todo : List (Str × List Str)) (a : Str) (rest : List Str)
        → listed info todo ≡ a ∷ rest
        → a ≢ []
    listed-full [] a rest h = λ e. cc
    listed-full ((key, values) ∷ todo) a rest h =
        let name = trim key (bytes " ") in
        λ e. ground (arith, listed-full todo a rest, argument-full (info name).0 name)

    -- When the loop over the parameters of a request succeeds, on a statement without arguments, the
    -- arguments of the call are those of the parameters that the procedure has, in their order and
    -- joined by commas, and each of these parameters has its variable.
    pub prepare_url_params_lem :
        (todo : List (Str × List Str)) (ext ext' : List (Str × Str)) (b b' : Binding Var)
        → b.exec_proc ≡ []
        → prepare_url_params c info proc ext todo b ≡ some ((b', none), ext')
        → (b'.exec_proc ≡ join (listed info todo) (bytes ", ")) × AllBound info todo b'
    prepare_url_params_lem todo ext ext' b b' e h =
        let r = loop todo ext ext' b b' h in
        (
          r.args
              ∙ (ap (λ x. added x (listed info todo)) e
                  ∙ added-join (listed info todo) (listed-full todo)),
          r.all,
        )
