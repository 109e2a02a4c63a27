-- ===== src/Text/Lines.antt =====
-- Line ends: what addCR and removeCR do to a text.
use iplsgo.Prelude.{
  ◌<◌, ◌≢◌, Bool-cases, ℕ, zero, suc, ◌-◌, ◌≤◌, ◌≡◌, refl, sym, ap, ◌∙◌, ◌⊎◌, inl, inr, false, ◌&&◌,
  not, [], ◌∷◌, arith, Str, eqb, if◌then◌else◌,
}
use mathlib.Core.Path.{subst}
use iplsgo.Gostd.{replace_from, has_prefix}
use iplsgo.Text.{decode_rune, decode_two, decode_three, decode_four, add_cr_from, add_cr, remove_cr}

-- A carriage return before each line feed that has none, byte by byte; `prev` is the byte before.
unfoldable pub with_cr : ℕ → Str → Str
with_cr prev [] = []
with_cr prev (x ∷ xs) =
    let rest = with_cr x xs in if eqb x 10 && not (eqb prev 13) then 13 ∷ x ∷ rest else x ∷ rest

-- The next `k` bytes are not ASCII.
abbrev IsHigh : ℕ → Str → Type 0
IsHigh zero xs = Unit {0}
IsHigh (suc k) [] = Unit {0}
IsHigh (suc k) (x ∷ xs) = (0x80 ≤ x) × IsHigh k xs

-- A rune of one byte is that byte or invalid, and a longer one is made of bytes that are not ASCII.
decode_cases :
    (x : ℕ) (xs : Str)
    → (decode_rune x xs ≡ (x, 1))
      ⊎ ((0x80 ≤ x) × (0x80 ≤ (decode_rune x xs).0) × IsHigh ((decode_rune x xs).1 - 1) xs)
unfolding decode_rune decode_two decode_three decode_four
decode_cases x [] = ground arith
decode_cases x (y ∷ []) = ground arith
decode_cases x (y ∷ z ∷ []) = ground arith
decode_cases x (y ∷ z ∷ u ∷ us) = ground arith

add_cr_from-with_cr :
    (prev p k : ℕ) (xs : Str)
    → IsHigh k xs
    → eqb prev 13 ≡ eqb p 13
    → (0 < k → eqb prev 13 ≡ false)
    → add_cr_from prev k xs ≡ with_cr p xs
unfolding add_cr_from with_cr
add_cr_from-with_cr prev p zero [] h e n = refl
add_cr_from-with_cr prev p (suc k) [] h e n = refl
add_cr_from-with_cr prev p (suc k) (x ∷ xs) h e n =
    ground (arith, add_cr_from-with_cr prev x k xs h.1, n (omega arith))
add_cr_from-with_cr prev p zero (x ∷ xs) h e n = elim (decode_cases x xs) [
  | inl ascii ↦ rw (ascii, add_cr_from) (ground (arith, add_cr_from-with_cr x x 0 xs tt refl))
  | inr (hx, hr, tail) ↦
      let ih : add_cr_from (decode_rune x xs).0 ((decode_rune x xs).1 - 1) xs ≡ with_cr x xs =
        add_cr_from-with_cr (decode_rune x xs).0 x ((decode_rune x xs).1 - 1) xs tail (ground arith)
          (λ _. ground arith) in
      ground arith
]

-- addCR decodes runes, and does what a walk over the bytes would do.
pub add_cr-eq-with_cr : (s : Str) → add_cr s ≡ with_cr 0 s
unfolding add_cr
add_cr-eq-with_cr s = add_cr_from-with_cr 0 0 0 s tt refl (λ h. absurd (omega arith))

remove_cr-cons :
    (x : ℕ) (xs : Str) → remove_cr (x ∷ xs) ≡ (if eqb x 13 then remove_cr xs else x ∷ remove_cr xs)
unfolding remove_cr replace_from has_prefix
remove_cr-cons x xs = ground arith

remove_cr-with_cr : (p : ℕ) (s : Str) → remove_cr (with_cr p s) ≡ remove_cr s
unfolding with_cr
remove_cr-with_cr p [] = refl
remove_cr-with_cr p (x ∷ xs) = ground (
  arith,
  remove_cr-with_cr x xs,
  remove_cr-cons x xs,
  remove_cr-cons x (with_cr x xs),
  remove_cr-cons 13 (x ∷ with_cr x xs),
)

-- Each line feed has a carriage return before it; `prev` is the byte before the text.
abbrev pub HasCrLf : ℕ → Str → Type 0
HasCrLf prev [] = Unit {0}
HasCrLf prev (x ∷ xs) = (x ≡ 10 → prev ≡ 13) × HasCrLf x xs

with_cr-HasCrLf : (p : ℕ) (s : Str) → HasCrLf p (with_cr p s)
unfolding with_cr
with_cr-HasCrLf p [] = tt
with_cr-HasCrLf p (x ∷ xs) = elim (Bool-cases (eqb x 10 && not (eqb p 13))) [
  | inl bare ↦ rw bare ((λ e. absurd (omega arith)), ((λ e. refl), with_cr-HasCrLf x xs))
  | inr kept ↦ rw kept ((λ e. ground arith), with_cr-HasCrLf x xs)
]

with_cr_fixed : (p : ℕ) (s : Str) → HasCrLf p s → with_cr p s ≡ s
unfolding with_cr
with_cr_fixed p [] h = refl
with_cr_fixed p (x ∷ xs) h = ground (arith, with_cr_fixed x xs h.1, h.0)

-- addCR, which decodes runes, gives the text with a carriage return put before each line feed that
-- follows no carriage return, and with nothing else changed. So every line feed has one before it,
-- the text without carriage returns is the same, and a text that has them already is left as it was.
pub add_cr_lem :
    (s : Str)
    → (add_cr s ≡ with_cr 0 s)
      × HasCrLf 0 (add_cr s)
      × (remove_cr (add_cr s) ≡ remove_cr s)
      × (HasCrLf 0 s → add_cr s ≡ s)
add_cr_lem s = (
  add_cr-eq-with_cr s,
  subst (HasCrLf 0) (sym (add_cr-eq-with_cr s)) (with_cr-HasCrLf 0 s),
  ap remove_cr (add_cr-eq-with_cr s) ∙ remove_cr-with_cr 0 s,
  λ h. add_cr-eq-with_cr s ∙ with_cr_fixed 0 s h,
)

abbrev pub Lacks : ℕ → Str → Type 0
Lacks c [] = Unit {0}
Lacks c (x ∷ xs) = (x ≢ c) × Lacks c xs

Lacks-remove_cr : (s : Str) → Lacks 13 (remove_cr s)
unfolding remove_cr
Lacks-remove_cr [] = tt
Lacks-remove_cr (x ∷ xs) = rw (remove_cr-cons x xs) (elim (Bool-cases (eqb x 13)) [
  | inl cr ↦ rw cr (Lacks-remove_cr xs)
  | inr other ↦ rw other ((λ e. ground arith), Lacks-remove_cr xs)
])

remove_cr_fixed : (s : Str) → Lacks 13 s → remove_cr s ≡ s
remove_cr_fixed [] h = unfold remove_cr in refl
remove_cr_fixed (x ∷ xs) h = rw (remove_cr-cons x xs) (ground (arith, h.0, remove_cr_fixed xs h.1))

-- removeCR leaves no carriage return, and a text that has none as it was.
remove_cr_lem : (s : Str) → Lacks 13 (remove_cr s) × (Lacks 13 s → remove_cr s ≡ s)
remove_cr_lem s = (Lacks-remove_cr s, remove_cr_fixed s)
