-- ===== src/Handler/Statuses.antt =====
-- server.go: the status of the answer, and the headers that reach the client.
use iplsgo.Prelude.{List, [], ◌∷◌, ◌++◌, Str, ℤ, ◌==◌, str_Eq, if◌then◌else◌}
use iplsgo.Gostd.Maps.{Map}
use iplsgo.Handler.Reply.{atoi, or_status}

module _ (to_lower : Str → Str) where
  -- The values under a name, in the order of reading.
  abbrev pub values_of : Str → Map Str (List Str) → List Str
  values_of key [] = []
  values_of key ((name, vs) ∷ m) =
      let rest = values_of key m in if to_lower name == key then vs ++ rest else rest

  -- The last number among texts, or what was before.
  abbrev pub last_number : List Str → ℤ → ℤ
  last_number [] s = s
  last_number (v ∷ vs) s = last_number vs (or_status (atoi v) s)
