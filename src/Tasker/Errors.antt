-- ===== src/Tasker/Errors.antt =====
-- otasker/oratasker.go: what the user sees of an error.
use iplsgo.Prelude.{
  ◌≡◌, ◌⊎◌, inl, inr, refl, ap, sym, Bool, true, false, ◌||◌, Option, none, some, [], arith, ℕ,
  zero, suc, Str, ℤ, pos, negsuc, int_Eq, ◌==◌, if◌then◌else◌,
}
use mathlib.Core.Path.{subst}
use iplsgo.Task.{
  status_error_page, status_request_was_interrupted, status_invalid_username_or_password,
  status_insufficient_privileges, status_account_is_locked,
}
use iplsgo.Tasker.{Error, ora, masked, plain}

-- UnMask
unfoldable pub unmask : Error → Option (ℤ × Str)
unmask (ora code text) = some (code, text)
unmask (masked e) = unmask e
unmask (plain text) = none

-- errgo.Mask(err).Error(): the text of what is masked
unfoldable pub error_text : Error → Str
error_text (ora code text) = text
error_text (masked e) = error_text e
error_text (plain text) = text

abbrev code_status : ℤ → Str → ℕ × Str × Bool
code_status code text =
    if (code == pos 28) || (code == pos 31)
    then (status_request_was_interrupted, [], true)
    else if code == pos 1017
    then (status_invalid_username_or_password, [], true)
    else if code == pos 1031
    then (status_insufficient_privileges, [], true)
    else if code == pos 28000
    then (status_account_is_locked, [], true)
    else if code == pos 6564
    then (404, [], false)
    else if (code == pos 3113) || (code == pos 3114)
    then (status_error_page, text, true)
    else (status_error_page, text, false)

-- packError: the status, the content, and whether the connection is of no more use
unfoldable pub pack_error : Error → ℕ × Str × Bool
unfolding unmask error_text
pack_error e = elim (unmask e) [
  | none ↦ (status_error_page, error_text e, false)
  | some (code, text) ↦ code_status code (error_text e)
]

-- An error around others.
abbrev pub mask : ℕ → Error → Error
mask zero e = e
mask (suc n) e = masked (mask n e)

unmask-mask : (n : ℕ) (e : Error) → unmask (mask n e) ≡ unmask e
unfolding unmask
unmask-mask zero e = refl
unmask-mask (suc n) e = unmask-mask n e

error_text-mask : (n : ℕ) (e : Error) → error_text (mask n e) ≡ error_text e
unfolding error_text
error_text-mask zero e = refl
error_text-mask (suc n) e = error_text-mask n e

-- How often an error is masked does not change what the user sees of it.
pub pack_error-mask : (n : ℕ) (e : Error) → pack_error (mask n e) ≡ pack_error e
unfolding pack_error
pack_error-mask n e = ground (arith, unmask-mask n e, error_text-mask n e)

-- The Oracle errors whose page has no text: the code, the status, and whether the connection is of no
-- more use.
pub data IsSilent : ℤ → ℕ → Bool → Type 0 where
  killed : IsSilent (pos 28) status_request_was_interrupted true
  marked : IsSilent (pos 31) status_request_was_interrupted true
  wrong_password : IsSilent (pos 1017) status_invalid_username_or_password true
  privileges : IsSilent (pos 1031) status_insufficient_privileges true
  locked : IsSilent (pos 28000) status_account_is_locked true
  missing : IsSilent (pos 6564) 404 false

-- The Oracle errors of a connection that was lost.
pub data IsLost : ℤ → Type 0 where
  end_of_file : IsLost (pos 3113)
  not_connected : IsLost (pos 3114)

-- What the user sees of an Oracle error with a code.
pub record AnswersCode (code : ℤ) (text : Str) (answer : ℕ × Str × Bool) : Type 0 where
  pub silent : (status : ℕ) (lost : Bool) → IsSilent code status lost → answer ≡ (status, [], lost)
  pub lost : IsLost code → answer ≡ (status_error_page, text, true)
  pub shown :
      ((status : ℕ) (lost : Bool) → IsSilent code status lost → ⊥)
      → (IsLost code → ⊥)
      → answer ≡ (status_error_page, text, false)

-- What the user sees of an error: of an Oracle error by its code, of any other its text.
abbrev pub IsAnswer : Option (ℤ × Str) → Str → ℕ × Str × Bool → Type 0
IsAnswer none text answer = answer ≡ (status_error_page, text, false)
IsAnswer (some (code, message)) text answer = AnswersCode code text answer

code_equal : (code : ℤ) (n : ℕ) → (code == pos n) ≡ true → code ≡ pos n
code_equal (pos m) n h = ap pos (ground (arith, h))
code_equal (negsuc m) n h = cc

either : (a b : Bool) → a || b ≡ true → (a ≡ true) ⊎ (b ≡ true)
either true b h = inl refl
either false b h = inr h

passed_over :
    (b : Bool) (x y z : ℕ × Str × Bool) → (b ≡ true → ⊥) → y ≡ z → (if b then x else y) ≡ z
passed_over true x y z n e = absurd (n refl)
passed_over false x y z n e = e

neither :
    (p : ℤ → Type 0) (code : ℤ) (m n : ℕ)
    → p (pos m)
    → p (pos n)
    → (p code → ⊥)
    → (code == pos m) || (code == pos n) ≡ true
    → ⊥
neither p code m n a b h e = elim (either (code == pos m) (code == pos n) e) [
  | inl l ↦ h (subst p (sym (code_equal code m l)) a)
  | inr r ↦ h (subst p (sym (code_equal code n r)) b)
]

other :
    (code : ℤ) (n status : ℕ) (lost : Bool)
    → IsSilent (pos n) status lost
    → ((status : ℕ) (lost : Bool) → IsSilent code status lost → ⊥)
    → (code == pos n) ≡ true
    → ⊥
other code n status lost a h e =
    h status lost (subst (λ c. IsSilent c status lost) (sym (code_equal code n e)) a)

code_status-shown :
    (code : ℤ) (text : Str)
    → ((status : ℕ) (lost : Bool) → IsSilent code status lost → ⊥)
    → (IsLost code → ⊥)
    → code_status code text ≡ (status_error_page, text, false)
code_status-shown code text h g =
    passed_over _ _ _ _
      (neither (λ c. IsSilent c status_request_was_interrupted true) code 28 31 killed marked
        (h status_request_was_interrupted true))
      (passed_over _ _ _ _ (other code 1017 _ _ wrong_password h) (
        passed_over _ _ _ _ (other code 1031 _ _ privileges h) (
          passed_over _ _ _ _ (other code 28000 _ _ locked h) (
            passed_over _ _ _ _ (other code 6564 _ _ missing h) (
              passed_over _ _ _ _ (neither IsLost code 3113 3114 end_of_file not_connected g)
                refl)))))

code_status-silent :
    (code : ℤ) (text : Str) (status : ℕ) (lost : Bool)
    → IsSilent code status lost
    → code_status code text ≡ (status, [], lost)
code_status-silent _ text _ _ killed = refl
code_status-silent _ text _ _ marked = refl
code_status-silent _ text _ _ wrong_password = refl
code_status-silent _ text _ _ privileges = refl
code_status-silent _ text _ _ locked = refl
code_status-silent _ text _ _ missing = refl

code_status-lost :
    (code : ℤ) (text : Str) → IsLost code → code_status code text ≡ (status_error_page, text, true)
code_status-lost _ text end_of_file = refl
code_status-lost _ text not_connected = refl

-- The answer to an error goes by the code of the Oracle error in it. After 28 and 31 it is the page of
-- an interrupted request, after 1017 that of a wrong user name or password, after 1031 that of missing
-- privileges, after 28000 that of a locked account, and after 6564 that of status 404, all without a
-- text; after 3113 and 3114 it is the error page with the error's text; in these cases but that of
-- 6564 the connection is of no more use. After any other code, and after an error that is not
-- Oracle's, it is the error page with the error's text.
pub pack_error-IsAnswer : (e : Error) → IsAnswer (unmask e) (error_text e) (pack_error e)
unfolding pack_error
pack_error-IsAnswer e =
    elim (unmask e)
      as (λ o. IsAnswer o (error_text e) (elim o [
        | none ↦ (status_error_page, error_text e, false)
        | some (code, text) ↦ code_status code (error_text e)
      ])) [
        | none ↦ refl
        | some (code, text) ↦ record {
          silent = code_status-silent code (error_text e);
          lost = code_status-lost code (error_text e);
          shown = code_status-shown code (error_text e);
        }
      ]
