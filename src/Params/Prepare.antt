-- ===== src/Params/Prepare.antt =====
-- otasker/oratasker.go: prepareParam, by the type of the parameter, and the loop over the
-- parameters of a request in `run`. The description of the procedure gives the types.
use iplsgo.Prelude.{
  Option, none, some, List, [], ◌∷◌, ◌++◌, map, Str, bytes, if◌then◌else◌, is_empty, length,
}
use iplsgo.Gostd.{trim}
use iplsgo.Text.{double_quotes, decimal}
use iplsgo.Params.{Cursor, Binding, sprintf, for_each, Prepared}
use iplsgo.Params.Scalar.{
  prepare_string_param, prepare_number, prepare_integer, prepare_date, prepare_boolean,
  prepare_other,
}
use iplsgo.Params.Tab.{
  prepare_string_tab, prepare_number_tab, prepare_integer_tab, prepare_date_tab,
  prepare_boolean_tab,
}

-- oString .. oIntegerTab; `other` is any other number.
pub data ParamType : Type 0 where
  string number date boolean integer : ParamType
  string_tab number_tab date_tab boolean_tab integer_tab : ParamType
  other : ParamType

module _ (c : Cursor) where
  open c use {Var, Cause}

  abbrev pub single : (Str → Prepared c) → List Str → Option (Prepared c)
  single f [] = none
  single f (first ∷ more) = some (f first)

  -- prepareParam
  unfoldable pub prepare_param :
      Str → List Str → ParamType → Str → Str → Binding Var → Option (Prepared c)
  prepare_param name values ParamType.string type_name proc b =
      prepare_string_param c name values type_name proc b
  prepare_param name values ParamType.number type_name proc b =
      single (λ v. prepare_number c name v type_name proc b) values
  prepare_param name values ParamType.date type_name proc b =
      single (λ v. prepare_date c name v type_name proc b) values
  prepare_param name values ParamType.boolean type_name proc b =
      single (λ v. prepare_boolean c name v type_name proc b) values
  prepare_param name values ParamType.integer type_name proc b =
      single (λ v. prepare_integer c name v type_name proc b) values
  prepare_param name values ParamType.string_tab type_name proc b =
      some (prepare_string_tab c name values type_name proc b)
  prepare_param name values ParamType.number_tab type_name proc b =
      some (prepare_number_tab c name values type_name proc b)
  prepare_param name values ParamType.date_tab type_name proc b =
      some (prepare_date_tab c name values type_name proc b)
  prepare_param name values ParamType.boolean_tab type_name proc b =
      some (prepare_boolean_tab c name b)
  prepare_param name values ParamType.integer_tab type_name proc b =
      some (prepare_integer_tab c name values type_name proc b)
  prepare_param name values ParamType.other type_name proc b =
      single (λ v. prepare_other c name v proc b) values

  -- What follows prepareParam in the loop; `paramValue[0]` is used whatever the type.
  abbrev pub next :
      Option (Prepared c)
      → List Str
      → List (Str × Str)
      → (Str → Binding Var → Option (Prepared c × List (Str × Str)))
      → Option (Prepared c × List (Str × Str))
  next none values ext k = none
  next (some (b1, some e)) values ext k = some ((b1, some e), ext)
  next (some (b1, none)) [] ext k = none
  next (some (b1, none)) (first ∷ more) ext k = k first b1

  -- run, the loop over urlParams: a name of blanks alone is left out, and an error ends the loop.
  -- The names and first values that went through are collected for the context.
  unfoldable pub prepare_url_params :
      (Str → ParamType × Str)
      → Str
      → List (Str × Str)
      → List (Str × List Str)
      → Binding Var
      → Option (Prepared c × List (Str × Str))
  unfolding prepare_param trim
  prepare_url_params info proc ext [] b = some ((b, none), ext)
  prepare_url_params info proc ext ((key, values) ∷ rest) b =
      let name = trim key (bytes " ") in
      if is_empty name
      then prepare_url_params info proc ext rest b
      else next (prepare_param name values (info name).0 (info name).1 proc b) values ext
          (λ first b1. prepare_url_params info proc (ext ++ ((name, first) ∷ [])) rest b1)

  -- run: what the statement assigns to l_ext_param_name and l_ext_param_val
  unfoldable pub ext_params : List (Str × Str) → Str
  ext_params ext = sprintf (
      bytes "  l_num_ext_params := "
      ∷ decimal (length ext)
      ∷ bytes ";\n"
      ∷ for_each
          (λ i v. sprintf (
            bytes "  l_ext_param_name("
            ∷ decimal i
            ∷ bytes ") := '"
            ∷ c.to_upper v
            ∷ bytes "';\n"
            ∷ []))
          0 (map (λ p. p.0) ext)
      ∷ for_each
          (λ i v. sprintf (
            bytes "  l_ext_param_val("
            ∷ decimal i
            ∷ bytes ") := '"
            ∷ double_quotes v
            ∷ bytes "';\n"
            ∷ []))
          0 (map (λ p. p.1) ext)
      ∷ [])
