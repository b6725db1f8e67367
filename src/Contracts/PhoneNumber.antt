-- ===== src/Contracts/PhoneNumber.antt =====
-- A number that src/hfp_mcp/contracts.py normalised, normalised again.
use hermes_phone_hfp.Prelude.{
  ℕ, String, true, false, Option, none, some, [], ◌∷◌, ◌==◌, any, all, All, ◌≡◌, refl, arith,
  Bool-cases, inl, inr,
}
use mathlib.Core.Path.{subst}
use hermes_phone_hfp.Prelude.Text.{Text}
use hermes_phone_hfp.Prelude.Decimal.{is_digit}
use hermes_phone_hfp.Hfp.Line.{strip}
use hermes_phone_hfp.Contracts.Validate.{is_e164, is_forbidden, checked, normalize_phone_number}
use hermes_phone_hfp.Contracts.Address.{IsPlain, strip-plain}

-- A character of a number, which `strip` keeps and which is not forbidden.
abbrev IsAllowed : ℕ → Type 0
IsAllowed c = IsPlain c × (is_forbidden c ≡ false)

digit-IsAllowed : (c : ℕ) → is_digit c ≡ true → IsAllowed c
digit-IsAllowed c h = ((ground (arith, h), ground (arith, h), ground (arith, h)), ground (arith, h))

plus-IsAllowed : (c : ℕ) → (c == b'+') ≡ true → IsAllowed c
plus-IsAllowed c h = ((ground (arith, h), ground (arith, h), ground (arith, h)), ground (arith, h))

digits-IsAllowed : (t : Text) → all is_digit t ≡ true → All IsAllowed t
digits-IsAllowed [] h = tt
digits-IsAllowed (c ∷ t) h =
    (digit-IsAllowed c (ground (arith, h)), digits-IsAllowed t (ground (arith, h)))

is_e164-IsAllowed : (t : Text) → is_e164 t ≡ true → All IsAllowed t
unfolding is_e164
is_e164-IsAllowed [] h = tt
is_e164-IsAllowed (c ∷ []) h = absurd (ground (arith, h))
is_e164-IsAllowed (c ∷ d ∷ t) h = (
  plus-IsAllowed c (ground (arith, h)),
  (digit-IsAllowed d (ground (arith, h)), digits-IsAllowed t (ground (arith, h))),
)

IsAllowed-IsPlain : (t : Text) → All IsAllowed t → All IsPlain t
IsAllowed-IsPlain [] h = tt
IsAllowed-IsPlain (c ∷ t) h = (h.0.0, IsAllowed-IsPlain t h.1)

allowed-free : (t : Text) → All IsAllowed t → any is_forbidden t ≡ false
allowed-free [] h = refl
allowed-free (c ∷ t) h = rw (h.0.1, allowed-free t h.1) refl

checked-is_e164 : (m : Option Text) (t : Text) → checked m ≡ some t → is_e164 t ≡ true
checked-is_e164 none t h = absurd (ground (arith, h))
checked-is_e164 (some s) t h = elim (Bool-cases (is_e164 s)) [
  | inl e164 ↦ subst (λ x. is_e164 x ≡ true) (ground (arith, (rw e164 at h))) e164
  | inr other ↦ absurd (ground (arith, (rw other at h)))
]

module _ (phonenumbers : Text → String → Option Text) (region : String) where
  pub normalized-is_e164 :
      (value normalized : Text)
      → normalize_phone_number phonenumbers region value ≡ some normalized
      → is_e164 normalized ≡ true
  unfolding normalize_phone_number
  normalized-is_e164 value normalized h = elim (Bool-cases (any is_forbidden (strip value))) [
    | inl out ↦ absurd (ground (arith, (rw out at h)))
    | inr free ↦ checked-is_e164 (phonenumbers (strip value) region) normalized (rw free at h)
  ]

  -- Where the library gives the number back as it is, normalising again does so as well.
  pub normalize_phone_number-again :
      (value normalized : Text)
      → normalize_phone_number phonenumbers region value ≡ some normalized
      → phonenumbers normalized region ≡ some normalized
      → normalize_phone_number phonenumbers region normalized ≡ some normalized
  unfolding normalize_phone_number
  normalize_phone_number-again value normalized h kept =
      let e164 = normalized-is_e164 value normalized h in
      let allowed = is_e164-IsAllowed normalized e164 in
      rw
        (
          strip-plain normalized (IsAllowed-IsPlain normalized allowed),
          allowed-free normalized allowed,
          kept,
          e164,
        )
        refl
