-- ===== src/Gostd.antt =====
-- What the program uses of Go's `strings`, `net` and `path/filepath` (Unix separators), over bytes.
-- The case mappings depend on Unicode tables, and are a parameter of what uses them.
pub mod Maps
pub mod Laws
use iplsgo.Prelude.{
  ℕ, zero, suc, ◌+◌, ◌-◌, Bool, true, false, ◌&&◌, ◌||◌, not, Option, none, some, List, [], ◌∷◌,
  ◌++◌, ◌≡◌, refl, Str, bytes, eqb, if◌then◌else◌, length, drop, is_empty,
}

-- strings.HasPrefix(s, p)
unfoldable pub has_prefix : Str → Str → Bool
has_prefix s [] = true
has_prefix [] (y ∷ ys) = false
has_prefix (x ∷ xs) (y ∷ ys) = eqb x y && has_prefix xs ys

-- The rest of a scan for `old`, the next `k` bytes of which belong to an occurrence.
unfoldable pub replace_from : Str → Str → ℕ → Str → Str
replace_from old new k [] = []
replace_from old new (suc k) (x ∷ xs) = replace_from old new k xs
replace_from old new zero (x ∷ xs) =
    let hit = new ++ replace_from old new (length old - 1) xs in
    let miss = x ∷ replace_from old new zero xs in if has_prefix (x ∷ xs) old then hit else miss

-- strings.Replace(s, old, new, -1), for an `old` that is not empty
unfoldable pub replace_all : Str → Str → Str → Str
unfolding replace_from has_prefix
replace_all s old new = replace_from old new zero s

abbrev push_head : ℕ → List Str → List Str
push_head x [] = (x ∷ []) ∷ []
push_head x (h ∷ t) = (x ∷ h) ∷ t

unfoldable pub split_from : Str → ℕ → Str → List Str
split_from sep k [] = [] ∷ []
split_from sep (suc k) (x ∷ xs) = split_from sep k xs
split_from sep zero (x ∷ xs) =
    let hit = [] ∷ split_from sep (length sep - 1) xs in
    let miss = push_head x (split_from sep zero xs) in if has_prefix (x ∷ xs) sep then hit else miss

-- strings.Split(s, sep), for a `sep` that is not empty
unfoldable pub split : Str → Str → List Str
unfolding split_from has_prefix
split s sep = split_from sep zero s

-- strings.Join(parts, sep)
unfoldable pub join : List Str → Str → Str
join [] sep = []
join (p ∷ []) sep = p
join (p ∷ q ∷ rest) sep = p ++ (sep ++ join (q ∷ rest) sep)

-- strings.IndexByte
unfoldable pub index_byte : Str → ℕ → Option ℕ
index_byte [] c = none
index_byte (x ∷ xs) c =
    let rest : Option ℕ = elim (index_byte xs c) [ none ↦ none | some i ↦ some (suc i) ] in
    if eqb x c then some 0 else rest

unfoldable pub last_index_byte : Str → ℕ → Option ℕ
last_index_byte [] c = none
last_index_byte (x ∷ xs) c = elim (last_index_byte xs c) [
  | some i ↦ some (suc i)
  | none ↦ if eqb x c then some 0 else none
]

unfoldable pub contains_byte : Str → ℕ → Bool
contains_byte [] c = false
contains_byte (x ∷ xs) c = eqb x c || contains_byte xs c

-- s[:i]
unfoldable pub take : ℕ → Str → Str
take zero xs = []
take (suc n) [] = []
take (suc n) (x ∷ xs) = x ∷ take n xs

-- strings.TrimRight(s, cutset)
unfoldable pub trim_right : Str → Str → Str
unfolding contains_byte
trim_right [] cut = []
trim_right (x ∷ xs) cut =
    let rest = trim_right xs cut in if is_empty rest && contains_byte cut x then [] else x ∷ rest

unfoldable pub trim_left : Str → Str → Str
unfolding contains_byte
trim_left [] cut = []
trim_left (x ∷ xs) cut = let rest = trim_left xs cut in if contains_byte cut x then rest else x ∷ xs

-- strings.Trim(s, cutset)
unfoldable pub trim : Str → Str → Str
unfolding trim_left trim_right
trim s cut = trim_left (trim_right s cut) cut

-- The file of filepath.Split(path): what follows the last slash.
unfoldable pub file_of : Str → Str
unfolding last_index_byte
file_of s = elim (last_index_byte s b'/') [ none ↦ s | some i ↦ drop (suc i) s ]

unbracketed : Str → ℕ → Option Str
unfolding take contains_byte
unbracketed addr i =
    let host = take i addr in
    if contains_byte host b':' || contains_byte addr b'[' || contains_byte addr b']'
    then none
    else some host

bracketed : Str → ℕ → Option Str
unfolding take contains_byte index_byte
bracketed addr i = elim (index_byte addr b']') [
  | none ↦ none
  | some end ↦
      if eqb (end + 1) i
        && not (contains_byte (drop 1 addr) b'[' || contains_byte (drop (end + 1) addr) b']')
      then some (drop 1 (take end addr))
      else none
]

-- net.SplitHostPort: the host, or `none` for an error
unfoldable pub split_host_port : Str → Option Str
unfolding unbracketed bracketed last_index_byte has_prefix
split_host_port addr = elim (last_index_byte addr b':') [
  | none ↦ none
  | some i ↦ if has_prefix addr (bytes "[") then bracketed addr i else unbracketed addr i
]

split_test : split (bytes "a; b") (bytes "; ") ≡ bytes "a" ∷ bytes "b" ∷ []
unfolding split
split_test = refl

replace_test : replace_all (bytes "it's") (bytes "'") (bytes "''") ≡ bytes "it''s"
unfolding replace_all
replace_test = refl

host_test : split_host_port (bytes "10.0.0.1:80") ≡ some (bytes "10.0.0.1")
unfolding split_host_port
host_test = refl
