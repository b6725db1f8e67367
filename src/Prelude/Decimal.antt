-- ===== src/Prelude/Decimal.antt =====
-- `str(n)` of a number, and the value of its digits.
use hermes_phone_hfp.Prelude.Text.{Text}
use Prim.Native.Nat.{ℕ, zero, suc, ◌+◌, ◌*◌, ◌-◌, ◌/◌, ◌%◌, ◌<◌}
use mathlib.Core.Path.{◌≡◌, refl, ◌∙◌}
use mathlib.Core.Bool.{Bool, true, ◌&&◌}
use mathlib.Core.List.{[], ◌∷◌, ◌++◌}
use mathlib.Core.Logic.{inl, inr}
use native.Mathlib.Omega.{arith}
use hermes_phone_hfp.Prelude.Tests.{ltb, leb, if◌then◌else◌, Bool-cases}
use hermes_phone_hfp.Prelude.Lists.{All, All-append}

decimal_fuel : ℕ → ℕ → Text
decimal_fuel zero n = []
decimal_fuel (suc f) n =
    let high = decimal_fuel f (n / 10) in
    if ltb n 10 then (48 + n) ∷ [] else high ++ (48 + n % 10) ∷ []

-- A number has fewer digits than itself and one, so the fuel is enough.
unfoldable pub decimal : ℕ → Text
unfolding decimal_fuel
decimal n = decimal_fuel (suc n) n

-- The value of a text of digits, from the left.
unfoldable pub value_from : ℕ → Text → ℕ
value_from n [] = n
value_from n (c ∷ cs) = value_from (n * 10 + (c - 48)) cs

abbrev pub is_digit : ℕ → Bool
is_digit c = leb 48 c && leb c 57

pub value_from-append : (n : ℕ) (s t : Text) → value_from n (s ++ t) ≡ value_from (value_from n s) t
unfolding value_from
value_from-append n [] t = refl
value_from-append n (c ∷ s) t = value_from-append (n * 10 + (c - 48)) s t

value-decimal_fuel : (f n : ℕ) → n < f → value_from 0 (decimal_fuel f n) ≡ n
unfolding decimal_fuel value_from
value-decimal_fuel zero n h = elim h [ ]
value-decimal_fuel (suc f) n h = elim (Bool-cases (ltb n 10)) [
  | inl small ↦ rw small (ground arith)
  | inr large ↦ rw large (
      value_from-append 0 (decimal_fuel f (n / 10)) _
      ∙ ground (arith, value-decimal_fuel f (n / 10)))
]

-- The digits of a number have its value.
pub value-decimal : (n : ℕ) → value_from 0 (decimal n) ≡ n
unfolding decimal
value-decimal n = value-decimal_fuel (suc n) n (omega arith)

digits-decimal_fuel : (f n : ℕ) → All (λ c. is_digit c ≡ true) (decimal_fuel f n)
unfolding decimal_fuel
digits-decimal_fuel zero n = tt
digits-decimal_fuel (suc f) n = elim (Bool-cases (ltb n 10)) [
  | inl small ↦ rw small (ground arith, tt)
  | inr large ↦ rw large (
      All-append (λ c. is_digit c ≡ true) (decimal_fuel f (n / 10)) _
        (digits-decimal_fuel f (n / 10)) (ground arith, tt))
]

pub digits-decimal : (n : ℕ) → All (λ c. is_digit c ≡ true) (decimal n)
unfolding decimal
digits-decimal n = digits-decimal_fuel (suc n) n

pub decimal_injective : (m n : ℕ) → decimal m ≡ decimal n → m ≡ n
decimal_injective m n e = rw (← value-decimal m, ← value-decimal n, e)
