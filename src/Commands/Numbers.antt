-- ===== src/Commands/Numbers.antt =====
-- The order of the tables s_commands and s_unsolResponses, which RIL_register of libril/ril.cpp
-- asserts at its start.
use rild_hisi.Common.{
  ℕ, zero, suc, ◌+◌, ◌≡◌, refl, Bool, true, List, [], ◌∷◌, some, arith, ◌==◌, get_elem?, ◌&&◌,
}
use rild_hisi.Commands.{CommandInfo, UnsolResponseInfo}
use rild_hisi.Commands.Tables.{commands, unsol_responses}

-- The rows are numbered from `n` on.
numbered {ℓ} : {A : Type ℓ} → (A → ℕ) → ℕ → List A → Bool
numbered number n [] = true
numbered number n (a ∷ rows) = (number a == n) && numbered number (suc n) rows

numbered-get_elem? {ℓ} :
    {A : Type ℓ} (number : A → ℕ) (n i : ℕ) (rows : List A) (a : A)
    → numbered number n rows ≡ true
    → get_elem? rows i ≡ some a
    → number a ≡ n + i
unfolding numbered
numbered-get_elem? number n i [] a h e = absurd (cc)
numbered-get_elem? number n zero (x ∷ rows) a h e = ground arith
numbered-get_elem? number n (suc i) (x ∷ rows) a h e =
    ground (arith, numbered-get_elem? number (suc n) i rows a)

commands-numbered : numbered (λ ci. ci.request_number) 0 commands ≡ true
unfolding commands numbered
commands-numbered = refl

unsol_responses-numbered : numbered (λ ui. ui.request_number) 1000 unsol_responses ≡ true
unfolding unsol_responses numbered
unsol_responses-numbered = refl

-- The row at an index of s_commands is that of the request with this number.
pub commands-get_elem? :
    (n : ℕ) (ci : CommandInfo) → get_elem? commands n ≡ some ci → ci.request_number ≡ n
commands-get_elem? n ci e =
    omega (arith, numbered-get_elem? (λ c. c.request_number) 0 n commands ci commands-numbered e)

-- The row at an index of s_unsolResponses is that of the response whose number is the index above
-- RIL_UNSOL_RESPONSE_BASE.
pub unsol_responses-get_elem? :
    (n : ℕ) (ui : UnsolResponseInfo)
    → get_elem? unsol_responses n ≡ some ui
    → ui.request_number ≡ 1000 + n
unsol_responses-get_elem? n ui e =
    numbered-get_elem? (λ u. u.request_number) 1000 n unsol_responses ui unsol_responses-numbered e
