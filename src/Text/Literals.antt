-- ===== src/Text/Literals.antt =====
-- Text in PL/SQL literals: doubled quotes read back as the text that was put in.
use iplsgo.Prelude.{
  ℕ, ◌≡◌, refl, Bool, true, false, Option, some, none, [], ◌∷◌, ◌++◌, arith, Str, eqb,
  if◌then◌else◌,
}
use iplsgo.Gostd.{replace_from, has_prefix}
use iplsgo.Text.{double_quotes}

abbrev push : ℕ → Option (Str × Str) → Option (Str × Str)
push x none = none
push x (some (s, rest)) = some (x ∷ s, rest)

-- How PL/SQL reads a literal, from behind its opening quote: the text, and what follows the closing
-- quote. `quoted` says that the byte before was a quote that may close or be doubled.
unfoldable pub read_literal : Bool → Str → Option (Str × Str)
read_literal false [] = none
read_literal true [] = some ([], [])
read_literal false (x ∷ xs) =
    let open_end = read_literal true xs in
    let more = push x (read_literal false xs) in if eqb x 39 then open_end else more
read_literal true (x ∷ xs) =
    let more = push 39 (read_literal false xs) in if eqb x 39 then more else some ([], x ∷ xs)

double_quotes-cons :
    (x : ℕ) (xs : Str)
    → double_quotes (x ∷ xs)
      ≡ (if eqb x 39 then 39 ∷ 39 ∷ double_quotes xs else x ∷ double_quotes xs)
unfolding double_quotes replace_from has_prefix
double_quotes-cons x xs = ground arith

-- A value whose quotes were doubled cannot end the literal that it is put into: up to the closing
-- quote the literal reads as the value, and what follows is untouched, provided that it does not
-- begin with a quote.
pub read_literal-double_quotes :
    (s rest : Str)
    → has_prefix rest (39 ∷ []) ≡ false
    → read_literal false (double_quotes s ++ 39 ∷ rest) ≡ some (s, rest)
unfolding read_literal has_prefix double_quotes
read_literal-double_quotes [] [] h = refl
read_literal-double_quotes [] (y ∷ ys) h = ground arith
read_literal-double_quotes (x ∷ xs) rest h =
    rw (double_quotes-cons x xs) (ground (arith, read_literal-double_quotes xs rest h))
