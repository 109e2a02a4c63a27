-- ===== src/Describe.antt =====
-- otasker/describe.go: the descriptions of procedures that all taskers share. The map, the pool of
-- arguments and the arguments themselves are one state: a map holds addresses, as the pool does.
-- What stands between doLock and doUnlock is one operation. The statements on the database are
-- the driver's; a row that has a column of another type than the code asserts is none.
pub mod Separate
pub mod Release
pub mod Fill
pub mod Refines
pub mod Replay
mod Tests
use iplsgo.Prelude.{
  ℕ, zero, suc, ◌+◌, Bool, true, false, Option, none, some, List, [], ◌∷◌, ◌++◌, Str, bytes, ℤ, pos,
  str_Eq, nat_eq, int_Eq, eqb, ◌==◌, if◌then◌else◌, ◌⊎◌, inl, inr,
}
use iplsgo.Gostd.Maps.{Map, lookup, insert, delete}
use iplsgo.Tasker.{Error, Driver}
use iplsgo.Params.Prepare.{ParamType}

pub record Argument : Type 0 where
  pub data_type : ℤ
  pub data_type_name : Str

-- `timestamp` is none for the zero time. The arguments are addresses.
pub record Procedure : Type 0 where
  pub timestamp : Option ℕ
  pub package_name : Str
  pub arguments : Map Str ℕ

-- plist, aFree and the memory, in which `next` is not used yet
pub record Cache : Type 0 where
  pub plist : Map Str Procedure
  pub free : List ℕ
  pub memory : Map ℕ Argument
  pub next : ℕ

abbrev pub no_cache : Cache
no_cache = record { plist = []; free = []; memory = []; next = 0 }

pub record Row : Type 0 where
  pub name : Str
  pub data_type : ℤ
  pub data_type_name : Str

-- oString .. oIntegerTab
unfoldable pub param_type : ℤ → ParamType
param_type n =
    if n == pos 1
    then ParamType.string
    else if n == pos 2
    then ParamType.number
    else if n == pos 3
    then ParamType.date
    else if n == pos 4
    then ParamType.boolean
    else if n == pos 5
    then ParamType.integer
    else if n == pos 11
    then ParamType.string_tab
    else if n == pos 12
    then ParamType.number_tab
    else if n == pos 13
    then ParamType.date_tab
    else if n == pos 14
    then ParamType.boolean_tab
    else if n == pos 15
    then ParamType.integer_tab
    else ParamType.other

-- p.arguments[n], of the procedure that is there
abbrev pub argument_at : Option Procedure → Str → Option ℕ
argument_at none n = none
argument_at (some p) n = lookup n p.arguments

abbrev pub address : Str → Str → Cache → Option ℕ
address key n c = argument_at (lookup key c.plist) n

abbrev pub value_at : Option ℕ → Map ℕ Argument → Option Argument
value_at none m = none
value_at (some a) m = lookup a m

-- The value that is found by a procedure's key and an argument's.
abbrev pub stored : Str → Str → Cache → Option Argument
stored key n c = value_at (address key n c) c.memory

abbrev pub heading : Option Procedure → Option (Option ℕ × Str)
heading none = none
heading (some p) = some (p.timestamp, p.package_name)

-- The timestamp and the package of a procedure.
abbrev pub known : Str → Cache → Option (Option ℕ × Str)
known key c = heading (lookup key c.plist)

abbrev pub updated : (Procedure → Procedure) → Option Procedure → Str → Cache → Cache
updated f none key c = c
updated f (some p) key c = record c { plist = insert key (f p) c.plist }

-- One round of the loop that gives the arguments back: aFree.Put and delete
abbrev pub put_back : Option ℕ → Str → Str → Cache → Cache
put_back none key n c = c
put_back (some a) key n c =
    updated (λ p. record p { arguments = delete n p.arguments }) (lookup key c.plist) key
      (record c { free = a ∷ c.free })

unfoldable pub release : List (Str × ℕ) → Str → Cache → Cache
release [] key c = c
release ((n, a) ∷ rest) key c = release rest key (put_back (address key n c) key n c)

-- The pool without its i-th element, and that element.
unfoldable pub remove_at : ℕ → List ℕ → Option (ℕ × List ℕ)
remove_at i [] = none
remove_at zero (a ∷ free) = some (a, free)
remove_at (suc i) (a ∷ free) = elim (remove_at i free) [
  | none ↦ none
  | some (b, rest) ↦ some (b, a ∷ rest)
]

-- aFree.Get: an element of the pool, or a new one; which, is `choice`.
abbrev pub taken : Option (ℕ × List ℕ) → Cache → ℕ × Cache
taken none c = (c.next, record c { next = suc c.next })
taken (some (a, rest)) c = (a, record c { free = rest })

abbrev pub chosen : Option ℕ → List ℕ → Option (ℕ × List ℕ)
chosen none free = none
chosen (some i) free = remove_at i free

abbrev pub get_free : Option ℕ → Cache → ℕ × Cache
get_free choice c = taken (chosen choice c.free) c

-- p.arguments[row[0]] = argumentInstance, after its fields are set
abbrev pub put_row : Str → Row → ℕ × Cache → Cache
put_row key row (a, c) =
    updated (λ p. record p { arguments = insert row.name a p.arguments }) (lookup key c.plist) key
      (record c {
        memory =
            insert a (record { data_type = row.data_type; data_type_name = row.data_type_name })
              c.memory;
      })

-- Each row comes with the choice that the pool makes for it.
unfoldable pub fill : List (Row × Option ℕ) → Str → Cache → Cache
unfolding remove_at
fill [] key c = c
fill ((row, choice) ∷ rest) key c = fill rest key (put_row key row (get_free choice c))

abbrev pub new_procedure : Procedure
new_procedure = record { timestamp = none; package_name = []; arguments = [] }

abbrev pub emptied : Option Procedure → Str → Cache → Cache
emptied none key c = record c { plist = insert key new_procedure c.plist }
emptied (some p) key c = release p.arguments key c

abbrev pub stamp : Option ℕ → Str → Procedure → Procedure
stamp timestamp package_name p = record p { timestamp = timestamp; package_name = package_name }

-- The rows of a description; one with a column that is not of the type that is asserted panics.
unfoldable pub typed_rows : List (Option Row) → Option (List Row)
typed_rows [] = some []
typed_rows (none ∷ cells) = none
typed_rows (some row ∷ cells) = elim (typed_rows cells) [
  | none ↦ none
  | some rows ↦ some (row ∷ rows)
]

-- What Describe does between doLock and doUnlock.
unfoldable pub store : Str → Option ℕ → Str → List (Row × Option ℕ) → Cache → Cache
unfolding release fill
store key timestamp package_name rows c =
    let c1 = emptied (lookup key c.plist) key c in
    fill rows key (updated (stamp timestamp package_name) (lookup key c1.plist) key c1)

-- The errors of ProcedureInfo and ArgumentInfo, for their texts.
pub data Missing : Type 0 where
  no_procedure : Str → Missing
  no_argument : Str → Str → Missing

-- `up` is strings.ToUpper.
module _ (up : Str → Str) where
  -- strings.ToUpper(dbName + "." + procedureName)
  abbrev pub procedure_key : Str → Str → Str
  procedure_key db proc = up (db ++ bytes "." ++ proc)

  -- ProcedureInfo
  unfoldable pub procedure_info : Str → Str → Cache → (Option ℕ × Str) × Option Missing
  procedure_info db proc c = elim (lookup (procedure_key db proc) c.plist) [
    | none ↦ ((none, []), some (no_procedure proc))
    | some p ↦ ((p.timestamp, p.package_name), none)
  ]

  abbrev pub argument_or : Str → Str → Option Argument → (ℤ × Str) × Option Missing
  argument_or proc arg none = ((pos 0, []), some (no_argument arg proc))
  argument_or proc arg (some a) = ((a.data_type, a.data_type_name), none)

  -- ArgumentInfo
  unfoldable pub argument_info : Str → Str → Str → Cache → (ℤ × Str) × Option Missing
  argument_info db proc arg c = elim (lookup (procedure_key db proc) c.plist) [
    | none ↦ ((pos 0, []), some (no_procedure proc))
    | some p ↦ argument_or proc arg (value_at (lookup (up arg) p.arguments) c.memory)
  ]

  -- What `run` asks for a parameter: its type and the type's name; the error is not looked at.
  unfoldable pub info_of : Str → Str → Cache → Str → ParamType × Str
  unfolding argument_info param_type
  info_of db proc c name =
      (param_type (argument_info db proc name c).0.0, (argument_info db proc name c).0.1)

  module _ (d : Driver) where
    open d use {World, Conn}

    -- The variables after the short statement.
    pub record Short : Type 0 where
      pub updated : ℕ
      pub timestamp : Option ℕ
      pub package_name : Str
      pub procedure_name : Str
      pub object_id : ℕ

    -- The driver's calls: making the seven variables, the short statement, and the long one with
    -- FetchAll. `choices` is what the pool does for the rows.
    pub record DescribeCalls : Type 0 where
      pub new_variables : Conn → World → Option Error
      pub short : Conn → Str → Option ℕ → Str → World → World × (Error ⊎ Short)
      pub long : Conn → ℕ → Str → World → World × (Error ⊎ List (Option Row))
      pub choices : World → List Row → List (Row × Option ℕ)

    module _ (k : DescribeCalls) where
      -- None is a panic, which nothing recovers: the program ends with it.
      abbrev pub Described : Type 0
      Described = Option (Option Error × Cache × World)

      abbrev pub stored_rows : Str → Short → World → Option (List Row) → Cache → Described
      stored_rows key s x none c = none
      stored_rows key s x (some rows) c =
          some (none, store key s.timestamp s.package_name (k.choices x rows) c, x)

      abbrev pub fetched : Str → Short → World × (Error ⊎ List (Option Row)) → Cache → Described
      fetched key s (x, inl e) c = some (some e, c, x)
      fetched key s (x, inr cells) c = stored_rows key s x (typed_rows cells) c

      abbrev pub checked : Conn → Str → World × (Error ⊎ Short) → Cache → Described
      checked conn key (x, inl e) c = some (some e, c, x)
      checked conn key (x, inr s) c =
          if s.updated == 1
          then fetched key s (k.long conn s.object_id s.procedure_name x) c
          else some (none, c, x)

      -- Describe
      unfoldable pub describe : Conn → Str → Str → Cache → World → Described
      unfolding store procedure_info typed_rows
      describe conn db proc c x =
          let known = (procedure_info db proc c).0 in
          elim (k.new_variables conn x) [
            | some e ↦ some (some e, c, x)
            | none ↦ checked conn (procedure_key db proc) (k.short conn proc known.0 known.1 x) c
          ]
