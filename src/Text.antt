-- ===== src/Text.antt =====
-- otasker/oratasker.go: the line ends of texts that go to and come from the database, the names of
-- uploaded files, and text that is put into PL/SQL literals.
pub mod Lines
pub mod Literals
mod Tests
use Prim.Native.Nat.{◌/◌, ◌%◌}
use iplsgo.Prelude.{
  ℕ, zero, suc, ◌+◌, ◌-◌, ◌*◌, ◌≡◌, refl, Bool, true, ◌&&◌, not, List, [], ◌∷◌, ◌++◌, Str, bytes,
  eqb, ltb, leb, if◌then◌else◌,
}
use iplsgo.Gostd.{replace_all, trim_right, has_prefix, split, file_of}

-- A continuation byte of UTF-8.
is_cont : ℕ → Bool
is_cont c = leb 0x80 c && leb c 0xbf

-- utf8.RuneError, of width 1
abbrev invalid : ℕ × ℕ
invalid = (0xfffd, 1)

decode_two : ℕ → Str → ℕ × ℕ
unfolding is_cont
decode_two x [] = invalid
decode_two x (y ∷ ys) = if is_cont y then ((x - 0xc0) * 64 + (y - 0x80), 2) else invalid

decode_three : ℕ → Str → ℕ × ℕ
unfolding is_cont
decode_three x (y ∷ z ∷ zs) =
    if leb (if eqb x 0xe0 then 0xa0 else 0x80) y
      && (leb y (if eqb x 0xed then 0x9f else 0xbf) && is_cont z)
    then (((x - 0xe0) * 64 + (y - 0x80)) * 64 + (z - 0x80), 3)
    else invalid
decode_three x _ = invalid

decode_four : ℕ → Str → ℕ × ℕ
unfolding is_cont
decode_four x (y ∷ z ∷ u ∷ us) =
    if leb (if eqb x 0xf0 then 0x90 else 0x80) y
      && (leb y (if eqb x 0xf4 then 0x8f else 0xbf) && (is_cont z && is_cont u))
    then ((((x - 0xf0) * 64 + (y - 0x80)) * 64 + (z - 0x80)) * 64 + (u - 0x80), 4)
    else invalid
decode_four x _ = invalid

-- utf8.DecodeRuneInString: the rune that begins with `x`, and its width
decode_rune : ℕ → Str → ℕ × ℕ
decode_rune x xs =
    if ltb x 0x80
    then (x, 1)
    else if ltb x 0xc2
    then invalid
    else if ltb x 0xe0
    then decode_two x xs
    else if ltb x 0xf0
    then decode_three x xs
    else if ltb x 0xf5
    then decode_four x xs
    else invalid

-- The loop of addCR: `prev` is the last rune, and `k` bytes of it are still to be copied.
add_cr_from : ℕ → ℕ → Str → Str
add_cr_from prev k [] = []
add_cr_from prev (suc k) (x ∷ xs) = x ∷ add_cr_from prev k xs
add_cr_from prev zero (x ∷ xs) =
    let (r, wid) = decode_rune x xs in
    let rest = add_cr_from r (wid - 1) xs in
    if eqb wid 1 && (eqb r 10 && not (eqb prev 13)) then 13 ∷ x ∷ rest else x ∷ rest

-- addCR
unfoldable pub add_cr : Str → Str
unfolding add_cr_from decode_rune decode_two decode_three decode_four
add_cr val = add_cr_from 0 0 val

-- trimRightCRLF
unfoldable pub trim_right_crlf : Str → Str
unfolding trim_right
trim_right_crlf val = trim_right val (13 ∷ 10 ∷ [])

-- removeCR
unfoldable pub remove_cr : Str → Str
unfolding replace_all
remove_cr val = replace_all val (13 ∷ []) []

-- strings.Replace(s, "'", "''", -1), as it is written into literals
unfoldable pub double_quotes : Str → Str
unfolding replace_all
double_quotes s = replace_all s (bytes "'") (bytes "''")

first_file_name : List Str → Str
first_file_name [] = []
first_file_name (v ∷ vs) =
    let rest = first_file_name vs in
    if has_prefix v (bytes "filename=")
    then file_of (replace_all (replace_all v (bytes "filename=\"") []) (bytes "\"") [])
    else rest

-- ExtractFileName
unfoldable pub extract_file_name : Str → Str
unfolding first_file_name has_prefix file_of replace_all split
extract_file_name content_disposition = first_file_name (split content_disposition (bytes "; "))

-- The loop of fmt's %d, on a number that is not negative.
digits_from : ℕ → ℕ → Str → Str
digits_from zero n acc = acc
digits_from (suc fuel) n acc =
    let rest = digits_from fuel (n / 10) ((48 + n % 10) ∷ acc) in
    if ltb n 10 then (48 + n) ∷ acc else rest

unfoldable pub decimal : ℕ → Str
unfolding digits_from
decimal n = digits_from (suc n) n []

extract_test :
    extract_file_name (bytes "form-data; name=\"f\"; filename=\"a/b.txt\"") ≡ bytes "b.txt"
unfolding extract_file_name
extract_test = refl

add_cr_test : add_cr (10 ∷ 65 ∷ 13 ∷ 10 ∷ []) ≡ 13 ∷ 10 ∷ 65 ∷ 13 ∷ 10 ∷ []
unfolding add_cr
add_cr_test = refl

decimal_test : decimal 1024 ≡ bytes "1024"
unfolding decimal
decimal_test = refl
