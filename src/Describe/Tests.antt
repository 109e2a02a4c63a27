-- ===== src/Describe/Tests.antt =====
-- Descriptions at concrete rows.
use iplsgo.Prelude.{
  ℕ, suc, ◌≡◌, refl, true, Option, none, some, inr, List, [], ◌∷◌, Str, bytes, pos, str_eq,
}
use iplsgo.Gostd.Maps.{lookup, insert, delete}
use iplsgo.Tasker.{Driver}
use iplsgo.Params.Prepare.{ParamType}
use iplsgo.Describe.{
  Row, no_cache, procedure_key, argument_info, procedure_info, DescribeCalls, describe, info_of,
}
use iplsgo.Describe.Replay.{
  Update, store_all, replay, argument_from, procedure_from, store_all-refines, Describes,
  describe_lem, no_cache-Separated,
}

abbrev same : Str → Str
same s = s

abbrev row : Str → ℕ → Row
row name n = record { name = name; data_type = pos n; data_type_name = bytes "T" }

-- Two procedures, the first of them described again with an argument from the pool.
abbrev updates : List Update
updates =
    (bytes "db.a", some 1, [], (row (bytes "x") 1, none) ∷ (row (bytes "y") 2, none) ∷ [])
    ∷ (bytes "db.b", some 2, [], (row (bytes "x") 3, none) ∷ [])
    ∷ (
      bytes "db.a",
      some 3,
      bytes "pkg",
      (row (bytes "x") 5, some 1) ∷ (row (bytes "z") 4, some 0) ∷ [],
    )
    ∷ []

store_all-refines_example :
    (argument_info same (bytes "db") (bytes "a") (bytes "x") (store_all updates no_cache)
      ≡ argument_from same
          (bytes "a")
          (bytes "x")
          (replay updates (λ k. none) (procedure_key same (bytes "db") (bytes "a"))))
    × (procedure_info same (bytes "db") (bytes "a") (store_all updates no_cache)
        ≡ procedure_from same
            (bytes "a")
            (replay updates (λ k. none) (procedure_key same (bytes "db") (bytes "a"))))
store_all-refines_example = store_all-refines same updates (bytes "db") (bytes "a") (bytes "x")

type_now :
    info_of same (bytes "db") (bytes "a") (store_all updates no_cache) (bytes "x")
    ≡ (ParamType.integer, bytes "T")
unfolding info_of store_all lookup insert delete str_eq
type_now = refl

type_gone :
    info_of same (bytes "db") (bytes "a") (store_all updates no_cache) (bytes "y")
    ≡ (ParamType.other, [])
unfolding info_of store_all lookup insert delete str_eq
type_gone = refl

abbrev driver : Driver
driver = record {
  World = ℕ;
  Conn = ℕ;
  now = λ x. x;
  new_connection = λ user pass str x. (suc x, some x, none);
  is_connected = λ c x. true;
  close = λ c x. (x, none);
  free = λ c x. x;
  query_text = λ c stm x. (x, none, some (bytes "17,23"));
  kill = λ c stm session x. (x, none, 1, []);
}

abbrev calls : DescribeCalls same driver
calls = record {
  new_variables = λ c x. none;
  short = λ c proc timestamp package_name x. (
    x,
    inr (record {
      updated = 1;
      timestamp = some 7;
      package_name = bytes "pkg";
      procedure_name = proc;
      object_id = 1;
    }),
  );
  long = λ c id name x. (x, inr (some (row (bytes "x") 1) ∷ []));
  choices = λ x rows. paired rows;
}
  where
    paired : List Row → List (Row × Option ℕ)
    paired [] = []
    paired (r ∷ rest) = (r, some 0) ∷ paired rest

describe_lem_example :
    Describes same driver calls
      (procedure_key same (bytes "db") (bytes "a"))
      no_cache
      (describe same driver calls 0 (bytes "db") (bytes "a") no_cache 0)
describe_lem_example =
    describe_lem same driver calls 0 (bytes "db") (bytes "a") no_cache 0 no_cache-Separated
