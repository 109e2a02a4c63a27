-- ===== src/Params/Scalar.antt =====
-- otasker/oratasker.go: prepareStringParam, and prepareParam for a single value. `none` is the
-- panic of `paramValue[0]` on no values.
use iplsgo.Prelude.{
  Option, none, some, List, [], ◌∷◌, ◌++◌, Str, bytes, if◌then◌else◌, is_empty, length,
}
use iplsgo.Text.{trim_right_crlf, remove_cr, double_quotes, decimal}
use iplsgo.Params.{
  VarType, new_variable, new_var, Cursor, Binding, sprintf, Prepared, ◌>>=◌, bind, written, stored,
  exec_arg, show_arg, store_one,
}

module _ (c : Cursor) where
  open c use {Var, to_upper, to_lower}

  -- "  l_%s %s;\n" and "  l_%s := %s;\n"
  abbrev pub declare_line : Str → Str → Str
  declare_line name type_name =
      sprintf (bytes "  l_" ∷ name ∷ bytes " " ∷ type_name ∷ bytes ";\n" ∷ [])

  abbrev pub set_line : Str → Str → Str
  set_line name value = sprintf (bytes "  l_" ∷ name ∷ bytes " := " ∷ value ∷ bytes ";\n" ∷ [])

  abbrev string_value : Str → Str → Str → Str → Binding Var → Prepared c
  string_value name value type_name proc b = do
    b1 ← bind c (new_variable 0 VarType.string_var (length value) (some value)) name name b
    let len = if is_empty value then 1 else length value
    store_one c (new_var value) name proc (
        written c
          (declare_line name (sprintf (type_name ∷ bytes "(" ∷ decimal len ∷ bytes ")" ∷ [])))
          (set_line name (sprintf (bytes "'" ∷ double_quotes value ∷ bytes "'" ∷ [])))
          (exec_arg c name) (show_arg c name) b1)

  -- prepareStringParam
  unfoldable pub prepare_string_param :
      Str → List Str → Str → Str → Binding Var → Option (Prepared c)
  prepare_string_param name [] type_name proc b = none
  prepare_string_param name (first ∷ more) type_name proc b =
      some (string_value name (remove_cr first) type_name proc b)

  abbrev number_value : Str → Str → Str → Str → Binding Var → Prepared c
  number_value name value type_name proc b = do
    b1 ←
        bind c
          (new_variable 1 VarType.string_var (length value)
            (if is_empty value then none else some value))
          name name b
    store_one c (new_var value) name proc (
        written c (declare_line name type_name) (set_line name value) (exec_arg c name)
          (show_arg c name) b1)

  -- prepareParam, oNumber
  unfoldable pub prepare_number : Str → Str → Str → Str → Binding Var → Prepared c
  prepare_number name first type_name proc b =
      number_value name (trim_right_crlf first) type_name proc b

  abbrev integer_value : Str → Str → Str → Str → Binding Var → Prepared c
  integer_value name value type_name proc b = do
    b1 ← bind c (new_var value) name name b
    store_one c (new_var value) name proc (
        written c (declare_line name type_name) (set_line name value) (exec_arg c name)
          (show_arg c name) b1)

  -- prepareParam, oInteger
  unfoldable pub prepare_integer : Str → Str → Str → Str → Binding Var → Prepared c
  prepare_integer name first type_name proc b =
      integer_value name (trim_right_crlf first) type_name proc b

  abbrev date_value : Str → Str → Str → Str → Binding Var → Prepared c
  date_value name value type_name proc b = do
    b1 ← bind c (new_var value) name name b
    store_one c (new_var value) name proc (
        written c (declare_line name type_name)
          (set_line name (sprintf (bytes "to_date('" ∷ value ∷ bytes "')" ∷ []))) (exec_arg c name)
          (show_arg c name) b1)

  -- prepareParam, oDate
  unfoldable pub prepare_date : Str → Str → Str → Str → Binding Var → Prepared c
  prepare_date name first type_name proc b =
      date_value name (trim_right_crlf first) type_name proc b

  abbrev pub boolean_arg : Str → Str
  boolean_arg name = sprintf (name ∷ bytes " => :" ∷ name ∷ bytes " = 'true'" ∷ [])

  abbrev boolean_value : Str → Str → Str → Str → Binding Var → Prepared c
  boolean_value name value type_name proc b = do
    b1 ← bind c (new_variable 0 VarType.string_var (length value) (some value)) name name b
    let b2 =
        written c (declare_line name type_name) (set_line name value) (boolean_arg name)
          (show_arg c name) b1
    let line =
        sprintf (
          bytes "  "
          ∷ proc
          ∷ bytes "('"
          ∷ to_upper name
          ∷ bytes "', '"
          ∷ value
          ∷ bytes "');\n"
          ∷ [])
    (if is_empty proc then b2 else stored c line line b2, none)

  -- prepareParam, oBoolean
  unfoldable pub prepare_boolean : Str → Str → Str → Str → Binding Var → Prepared c
  prepare_boolean name first type_name proc b =
      boolean_value name (to_lower (trim_right_crlf first)) type_name proc b

  abbrev other_value : Str → Str → Str → Binding Var → Prepared c
  other_value name value proc b =
      store_one c (new_variable 0 VarType.string_var (length value) (some value)) name proc
        (record b {
          show_declare = b.show_declare ++ declare_line name (bytes "varchar2(32767)");
          show_set =
              b.show_set
              ++ set_line name (sprintf (bytes "'" ∷ double_quotes value ∷ bytes "'" ∷ []));
        })

  -- prepareParam, default: a parameter that the procedure does not have is only stored.
  unfoldable pub prepare_other : Str → Str → Str → Binding Var → Prepared c
  prepare_other name first proc b = other_value name (trim_right_crlf first) proc b
