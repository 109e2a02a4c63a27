-- ===== src/Params/Tab.antt =====
-- otasker/oratasker.go: prepareParam for tables of values.
use iplsgo.Prelude.{ℕ, some, List, [], ◌∷◌, ◌++◌, map, Str, bytes, if◌then◌else◌, ltb, length}
use iplsgo.Gostd.{has_prefix}
use iplsgo.Text.{trim_right_crlf, remove_cr, double_quotes, decimal}
use iplsgo.Params.{
  VarType, VarCall, new_array_var, new_times_var, invalid_subtype, Cursor, Binding, sprintf,
  for_each, Prepared, ◌>>=◌, bind, written, exec_arg, show_arg, store_all,
}
use iplsgo.Params.Scalar.{declare_line}

abbrev pub max_len : List Str → ℕ
max_len [] = 0
max_len (v ∷ vs) = let rest = max_len vs in if ltb rest (length v) then length v else rest

-- The values of a table: oNumberTab, and the others that are not texts
abbrev pub number_text : Str → Str
number_text v =
    let t = remove_cr (trim_right_crlf v) in if has_prefix t (bytes ",") then bytes "0" ++ t else t

abbrev pub plain_text : Str → Str
plain_text v = remove_cr (trim_right_crlf v)

abbrev pub string_literal : Str → Str
string_literal v = sprintf (bytes "'" ∷ double_quotes (trim_right_crlf v) ∷ bytes "'" ∷ [])

abbrev pub date_literal : Str → Str
date_literal v = sprintf (bytes "to_date('" ∷ trim_right_crlf v ∷ bytes "')" ∷ [])

-- "  l_%s(%d) := %s;\n" for each value
abbrev pub set_lines : (Str → Str) → Str → List Str → Str
set_lines text name values =
    for_each
      (λ i v.
        sprintf
          (bytes "  l_" ∷ name ∷ bytes "(" ∷ decimal i ∷ bytes ") := " ∷ text v ∷ bytes ";\n" ∷ []))
      0 values

module _ (c : Cursor) where
  open c use {Var, Time, parse_time}

  -- What the tables have in common: the variable, the lines, and the variable to store.
  abbrev pub table :
      VarCall Time
      → VarCall Time
      → (Str → Str)
      → Str
      → List Str
      → Str
      → Str
      → Binding Var
      → Prepared c
  table call store_call text name values type_name proc b = do
    b1 ← bind c call name name b
    store_all c store_call name values proc (
        written c (declare_line c name type_name) (set_lines text name values) (exec_arg c name)
          (show_arg c name) b1)

  -- prepareParam, oStringTab
  unfoldable pub prepare_string_tab : Str → List Str → Str → Str → Binding Var → Prepared c
  prepare_string_tab name values type_name proc b =
      let value = map remove_cr values in
      let call = new_array_var VarType.string_var value (max_len value) in
      table call call string_literal name values type_name proc b

  -- prepareParam, oNumberTab
  unfoldable pub prepare_number_tab : Str → List Str → Str → Str → Binding Var → Prepared c
  prepare_number_tab name values type_name proc b =
      let value = map number_text values in
      table (new_array_var VarType.float_var value 0)
        (new_array_var VarType.float_var value (max_len value)) trim_right_crlf name values
        type_name proc b

  -- prepareParam, oIntegerTab
  unfoldable pub prepare_integer_tab : Str → List Str → Str → Str → Binding Var → Prepared c
  prepare_integer_tab name values type_name proc b =
      let call = new_array_var VarType.int32_var (map plain_text values) 0 in
      table call call trim_right_crlf name values type_name proc b

  -- prepareParam, oDateTab: the table to call with has times, the one to store has the texts.
  unfoldable pub prepare_date_tab : Str → List Str → Str → Str → Binding Var → Prepared c
  prepare_date_tab name values type_name proc b =
      table (new_times_var (map (λ v. parse_time (trim_right_crlf v)) values))
        (new_array_var VarType.date_time_var (map plain_text values) 0) date_literal name values
        type_name proc b

  -- prepareParam, oBooleanTab
  unfoldable pub prepare_boolean_tab : Str → Binding Var → Prepared c
  prepare_boolean_tab name b = (b, some (invalid_subtype name))
