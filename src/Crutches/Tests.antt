-- ===== src/Crutches/Tests.antt =====
-- File names of otasker/crutches.go at concrete inputs.

use iplsgo.Prelude.{◌≡◌, ◌<◌, refl, some, [], ◌∷◌, bytes, arith}
use iplsgo.Crutches.{query_escape, query_unescape, encode_filename}
use iplsgo.Crutches.Escapes.{IsBytes, query_unescape-query_escape, encode_filename-encode_filename}

small : (65 < 256) × ((32 < 256) × ((37 < 256) × IsBytes []))
small = (omega arith, (omega arith, (omega arith, tt)))

query_unescape-query_escape_example :
    query_unescape (query_escape (65 ∷ 32 ∷ 37 ∷ [])) ≡ some (65 ∷ 32 ∷ 37 ∷ [])
query_unescape-query_escape_example = query_unescape-query_escape (65 ∷ 32 ∷ 37 ∷ []) small

encode_filename-encode_filename_example :
    encode_filename (encode_filename (65 ∷ 32 ∷ 37 ∷ [])) ≡ encode_filename (65 ∷ 32 ∷ 37 ∷ [])
encode_filename-encode_filename_example = encode_filename-encode_filename (65 ∷ 32 ∷ 37 ∷ []) small

-- "A %" is no escaped name, so it is escaped as it stands.
encoded : encode_filename (65 ∷ 32 ∷ 37 ∷ []) ≡ bytes "A+%25"
encoded = unfold encode_filename in refl

-- "a%20b" is one.
encoded_again : encode_filename (bytes "a%20b") ≡ bytes "a+b"
encoded_again = unfold encode_filename in refl
