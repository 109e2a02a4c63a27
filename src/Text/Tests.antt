-- ===== src/Text/Tests.antt =====
-- Texts of otasker/oratasker.go at concrete inputs.
use iplsgo.Prelude.{◌≡◌, refl, some, [], ◌∷◌, ◌++◌, bytes, false}
use iplsgo.Gostd.{has_prefix}
use iplsgo.Text.{add_cr, remove_cr, double_quotes}
use iplsgo.Text.Lines.{with_cr, HasCrLf, add_cr_lem}
use iplsgo.Text.Literals.{read_literal, read_literal-double_quotes}

add_cr_lem_example :
    (add_cr (65 ∷ 10 ∷ []) ≡ with_cr 0 (65 ∷ 10 ∷ []))
    × HasCrLf 0 (add_cr (65 ∷ 10 ∷ []))
    × (remove_cr (add_cr (65 ∷ 10 ∷ [])) ≡ remove_cr (65 ∷ 10 ∷ []))
    × (HasCrLf 0 (65 ∷ 10 ∷ []) → add_cr (65 ∷ 10 ∷ []) ≡ 65 ∷ 10 ∷ [])
add_cr_lem_example = add_cr_lem (65 ∷ 10 ∷ [])

read_literal-double_quotes_example :
    read_literal false (double_quotes (bytes "it's") ++ 39 ∷ bytes ";")
    ≡ some (bytes "it's", bytes ";")
unfolding has_prefix
read_literal-double_quotes_example = read_literal-double_quotes (bytes "it's") (bytes ";") refl
