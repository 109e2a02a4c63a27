-- ===== src/Params.antt =====
-- otasker/oratasker.go: the parameters of a procedure's call. A call binds Oracle variables and
-- writes into the parts of two statements, one to execute and one to show; the two parts that
-- prepareParam never writes into are left out. Making a variable is the driver's, case mappings are
-- Unicode's and the reading of times is `time.Parse`'s: they are parameters.
pub mod Scalar
pub mod Tab
pub mod Prepare
pub mod Arguments
pub mod Bound
pub mod Loop
mod Tests
use iplsgo.Prelude.{
  ℕ, suc, ◌⊎◌, inl, inr, Option, none, some, List, [], ◌∷◌, ◌++◌, Str, bytes, str_Eq, if◌then◌else◌,
  is_empty,
}
use iplsgo.Gostd.Maps.{Map, insert}
use iplsgo.Text.{decimal}

pub data VarType : Type 0 where
  string_var float_var int32_var date_time_var blob_var : VarType

-- NewVariable(n, type, size), followed by SetValue(0, s) if there is an s; NewVar(&s);
-- NewArrayVar(type, values, size) of texts and of times; NewVar(&n); NewVariable(n, type, size),
-- followed by SetValue(i, v) for the values
pub data VarCall (Time : Type 0) : Type 0 where
  new_variable : ℕ → VarType → ℕ → Option Str → VarCall Time
  new_var : Str → VarCall Time
  new_array_var : VarType → List Str → ℕ → VarCall Time
  new_times_var : List Time → VarCall Time
  new_number_var : ℕ → VarCall Time
  new_list_variable : ℕ → VarType → ℕ → List Str → VarCall Time

pub record Cursor : Type 1 where
  pub Var : Type 0
  pub Time : Type 0
  pub Cause : Type 0
  pub create : VarCall Time → Var ⊎ Cause
  pub to_upper : Str → Str
  pub to_lower : Str → Str
  -- time.Parse(time.RFC3339, s), the zero time for an error
  pub parse_time : Str → Time

-- errV, and the error of a table of Booleans
pub data Failure (Cause : Type 0) : Type 0 where
  err_v : Str → Cause → Failure Cause
  invalid_subtype : Str → Failure Cause

pub record Binding (Var : Type 0) : Type 0 where
  pub params : Map Str Var
  pub show_declare : Str
  pub show_set : Str
  pub exec_proc : Str
  pub show_proc : Str
  pub exec_store : Str
  pub show_store : Str

-- fmt.Sprintf, of the pieces of the format and its arguments
abbrev pub sprintf : List Str → Str
sprintf [] = []
sprintf (p ∷ ps) = p ++ sprintf ps

-- The text of a loop over the values; the index in the text starts with 1.
abbrev pub for_each : (ℕ → Str → Str) → ℕ → List Str → Str
for_each f i [] = []
for_each f i (v ∷ vs) = f (suc i) v ++ for_each f (suc i) vs

-- A list of arguments, with one more.
abbrev pub comma : Str → Str → Str
comma [] arg = arg
comma (x ∷ xs) arg = (x ∷ xs) ++ (bytes ", " ++ arg)

infixl 5 ◌>>=◌
abbrev pub ◌>>=◌ :
    {V E : Type 0}
    → Binding V × Option (Failure E)
    → (Binding V → Binding V × Option (Failure E))
    → Binding V × Option (Failure E)
(b, none) >>= f = f b
(b, some e) >>= f = (b, some e)

module _ (c : Cursor) where
  open c use {Var, Time, Cause, create, to_upper}

  abbrev pub Prepared : Type 0
  Prepared = Binding Var × Option (Failure Cause)

  abbrev pub bind_as : Var ⊎ Cause → Str → Str → Binding Var → Prepared
  bind_as (inl v) name key b = (record b { params = insert key v b.params }, none)
  bind_as (inr e) name key b = (b, some (err_v name e))

  -- `params[key] = lVar`, or errV
  abbrev pub bind : VarCall Time → Str → Str → Binding Var → Prepared
  bind call name key b = bind_as (create call) name key b

  -- What is written into the parts on the declaration, the value and the arguments of the call.
  abbrev pub written : Str → Str → Str → Str → Binding Var → Binding Var
  written declare set exec show b = record b {
    show_declare = b.show_declare ++ declare;
    show_set = b.show_set ++ set;
    exec_proc = comma b.exec_proc exec;
    show_proc = comma b.show_proc show;
  }

  abbrev pub stored : Str → Str → Binding Var → Binding Var
  stored exec show b = record b {
    exec_store = b.exec_store ++ exec;
    show_store = b.show_store ++ show;
  }

  -- "%s => :%s", "%s => l_%s"
  abbrev pub exec_arg : Str → Str
  exec_arg name = sprintf (name ∷ bytes " => :" ∷ name ∷ [])

  abbrev pub show_arg : Str → Str
  show_arg name = sprintf (name ∷ bytes " => l_" ∷ name ∷ [])

  -- The store of one value: by its own variable, or by the local one when it is shown.
  abbrev pub store_one : VarCall Time → Str → Str → Binding Var → Prepared
  store_one call name proc b = if is_empty proc then (b, none) else (do
    b1 ← bind call name (name ++ bytes "#") b
    let head = sprintf (bytes "  " ∷ proc ∷ bytes "('" ∷ to_upper name ∷ bytes "', " ∷ [])
    (
      stored (sprintf (head ∷ bytes ":" ∷ name ∷ bytes "#);\n" ∷ []))
          (sprintf (head ∷ bytes "l_" ∷ name ∷ bytes ");\n" ∷ [])) b1,
      none,
    ))

  -- The store of the values of a table, one by one.
  abbrev pub store_all : VarCall Time → Str → List Str → Str → Binding Var → Prepared
  store_all call name values proc b = if is_empty proc then (b, none) else (do
    b1 ← bind call name (name ++ bytes "#") b
    let head = sprintf (bytes "  " ∷ proc ∷ bytes "('" ∷ to_upper name ∷ bytes "', " ∷ [])
    (
      stored
          (for_each
            (λ i v. sprintf (head ∷ bytes ":" ∷ name ∷ bytes "#(" ∷ decimal i ∷ bytes "));\n" ∷ []))
            0 values)
          (for_each
            (λ i v. sprintf (head ∷ bytes "l_" ∷ name ∷ bytes "(" ∷ decimal i ∷ bytes "));\n" ∷ []))
            0 values)
          b1,
      none,
    ))
