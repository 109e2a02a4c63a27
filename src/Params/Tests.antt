-- ===== src/Params/Tests.antt =====
-- The parameters of a request at concrete inputs.
use iplsgo.Prelude.{ℕ, ◌≡◌, refl, inl, Option, none, some, List, [], ◌∷◌, Str, bytes}
use iplsgo.Gostd.{join}
use iplsgo.Params.{Cursor, Binding, Failure}
use iplsgo.Params.Scalar.{prepare_string_param}
use iplsgo.Params.Prepare.{ParamType, prepare_url_params}
use iplsgo.Params.Loop.{listed, AllBound, prepare_url_params_lem}

-- Variables are numbers, and every one is made.
abbrev cursor : Cursor
cursor = record {
  Var = ℕ;
  Time = Str;
  Cause = Str;
  create = λ call. inl 7;
  to_upper = λ s. s;
  to_lower = λ s. s;
  parse_time = λ s. s;
}

abbrev empty : Binding ℕ
empty = record {
  params = [];
  show_declare = [];
  show_set = [];
  exec_proc = [];
  show_proc = [];
  exec_store = [];
  show_store = [];
}

abbrev info : Str → ParamType × Str
info name = (ParamType.string, bytes "varchar2")

abbrev todo : List (Str × List Str)
todo = (bytes "a", bytes "1" ∷ []) ∷ (bytes " ", bytes "2" ∷ []) ∷ (bytes "b", bytes "3" ∷ []) ∷ []

abbrev outcome : Option ((Binding ℕ × Option (Failure Str)) × List (Str × Str)) → Binding ℕ
outcome none = empty
outcome (some ((b, e), ext)) = b

bound : Binding ℕ
unfolding prepare_url_params prepare_string_param
bound = outcome (prepare_url_params cursor info [] [] todo empty)

prepare_url_params_lem_example :
    (bound.exec_proc ≡ join (listed cursor info todo) (bytes ", "))
    × AllBound cursor info todo bound
unfolding bound
prepare_url_params_lem_example =
    prepare_url_params_lem cursor info [] todo []
      ((bytes "a", bytes "1") ∷ (bytes "b", bytes "3") ∷ []) empty bound refl refl
