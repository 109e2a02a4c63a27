-- ===== src/Crutches.antt =====
-- otasker/crutches.go: encodeFilename, with what it uses of Go's net/url.
pub mod Escapes
pub mod Headers
pub mod Meta
mod Tests
use Prim.Native.Nat.{◌/◌, ◌%◌}
use iplsgo.Prelude.{
  ℕ, ◌+◌, ◌-◌, ◌*◌, Bool, ◌&&◌, ◌||◌, Option, none, some, List, [], ◌∷◌, Str, bytes, eqb, leb, ltb,
  if◌then◌else◌,
}
use iplsgo.Gostd.{has_prefix}

-- A byte that url.QueryEscape leaves as it is.
unfoldable pub is_unreserved : ℕ → Bool
is_unreserved c =
    (leb b'a' c && leb c b'z')
    || ((leb b'A' c && leb c b'Z')
        || ((leb b'0' c && leb c b'9')
            || (eqb c b'-' || (eqb c b'_' || (eqb c b'.' || eqb c b'~')))))

unfoldable pub hex_digit : ℕ → ℕ
hex_digit n = if ltb n 10 then 48 + n else 55 + n

unfoldable pub unhex : ℕ → Option ℕ
unhex c =
    if leb b'0' c && leb c b'9'
    then some (c - 48)
    else if leb b'a' c && leb c b'f'
    then some (c - 87)
    else if leb b'A' c && leb c b'F'
    then some (c - 55)
    else none

-- url.QueryEscape
unfoldable pub query_escape : Str → Str
unfolding is_unreserved hex_digit
query_escape [] = []
query_escape (c ∷ cs) =
    let rest = query_escape cs in
    if is_unreserved c
    then c ∷ rest
    else if eqb c b' '
    then b'+' ∷ rest
    else b'%' ∷ hex_digit (c / 16) ∷ hex_digit (c % 16) ∷ rest

abbrev pub after : ℕ → Option Str → Option Str
after c none = none
after c (some cs) = some (c ∷ cs)

abbrev pub hex_byte : Option ℕ → Option ℕ → Option Str → Option Str
hex_byte (some x) (some y) rest = after (x * 16 + y) rest
hex_byte _ _ rest = none

abbrev pub plus_to_space : ℕ → ℕ
plus_to_space c = if eqb c b'+' then b' ' else c

-- url.QueryUnescape, `none` for an error
unfoldable pub query_unescape : Str → Option Str
unfolding unhex
query_unescape [] = some []
query_unescape (c ∷ []) = if eqb c b'%' then none else some (plus_to_space c ∷ [])
query_unescape (c ∷ a ∷ []) =
    let rest = query_unescape (a ∷ []) in if eqb c b'%' then none else after (plus_to_space c) rest
query_unescape (c ∷ a ∷ b ∷ cs) =
    let rest = query_unescape (a ∷ b ∷ cs) in
    let skip = query_unescape cs in
    if eqb c b'%' then hex_byte (unhex a) (unhex b) skip else after (plus_to_space c) rest

abbrev escape_again : Option Str → Str → Str
escape_again (some s) name = query_escape s
escape_again none name = query_escape name

-- encodeFilename
unfoldable pub encode_filename : Str → Str
unfolding has_prefix query_escape query_unescape
encode_filename name =
    if has_prefix name (bytes "=?utf-8?") then name else escape_again (query_unescape name) name
