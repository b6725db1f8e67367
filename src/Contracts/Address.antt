-- ===== src/Contracts/Address.antt =====
-- A Bluetooth address of src/hfp_mcp/contracts.py that was validated is validated as it is.
use hermes_phone_hfp.Prelude.{
  ℕ, zero, suc, Bool, true, false, [], ◌∷◌, ◌==◌, All, ◌≡◌, refl, ap, ◌∙◌, arith, if◌then◌else◌,
}
use mathlib.Core.Path.{subst}
use hermes_phone_hfp.Prelude.Text.{Text, upper_char}
use hermes_phone_hfp.Prelude.Result.{ok, err}
use hermes_phone_hfp.Hfp.Line.{is_space, strip, lstrip, rstrip}
use hermes_phone_hfp.Contracts.Validate.{
  invalid_argument, is_mac, is_upper_hex, upper_mac, validate_mac,
}

-- A character that neither `strip` nor `upper` changes.
abbrev pub IsPlain : ℕ → Type 0
IsPlain c = (is_space c ≡ false) × (upper_char c ≡ c) × ((c == 0xfb00) ≡ false)

is_upper_hex-IsPlain : (c : ℕ) → is_upper_hex c ≡ true → IsPlain c
is_upper_hex-IsPlain c h = (ground (arith, h), ground (arith, h), ground (arith, h))

colon-IsPlain : (c : ℕ) → (c == b':') ≡ true → IsPlain c
colon-IsPlain c h = (ground (arith, h), ground (arith, h), ground (arith, h))

pub is_mac-IsPlain : (n : ℕ) (t : Text) → is_mac n t ≡ true → All IsPlain t
unfolding is_mac
is_mac-IsPlain zero [] h = tt
is_mac-IsPlain zero (a ∷ []) h = absurd (ground (arith, h))
is_mac-IsPlain zero (a ∷ b ∷ []) h =
    (is_upper_hex-IsPlain a (ground (arith, h)), (is_upper_hex-IsPlain b (ground (arith, h)), tt))
is_mac-IsPlain zero (a ∷ b ∷ c ∷ t) h = absurd (ground (arith, h))
is_mac-IsPlain (suc n) [] h = tt
is_mac-IsPlain (suc n) (a ∷ []) h = absurd (ground (arith, h))
is_mac-IsPlain (suc n) (a ∷ b ∷ []) h = absurd (ground (arith, h))
is_mac-IsPlain (suc n) (a ∷ b ∷ c ∷ t) h = (
  is_upper_hex-IsPlain a (ground (arith, h)),
  (
    is_upper_hex-IsPlain b (ground (arith, h)),
    (colon-IsPlain c (ground (arith, h)), is_mac-IsPlain n t (ground (arith, h))),
  ),
)

lstrip-plain : (t : Text) → All IsPlain t → lstrip t ≡ t
unfolding lstrip
lstrip-plain [] h = refl
lstrip-plain (c ∷ t) h = rw h.0.0 refl

pub rstrip-plain : (t : Text) → All IsPlain t → rstrip t ≡ t
unfolding rstrip
rstrip-plain [] h = refl
rstrip-plain (c ∷ []) h = rw h.0.0 refl
rstrip-plain (c ∷ d ∷ t) h = rw (rstrip-plain (d ∷ t) h.1) refl

upper-plain : (t : Text) → All IsPlain t → upper_mac t ≡ t
unfolding upper_mac
upper-plain [] h = refl
upper-plain (c ∷ t) h =
    rw h.0.2 (ap (λ x. x ∷ upper_mac t) h.0.1 ∙ ap (λ xs. c ∷ xs) (upper-plain t h.1))

pub strip-plain : (t : Text) → All IsPlain t → strip t ≡ t
unfolding strip
strip-plain t h = ap rstrip (lstrip-plain t h) ∙ rstrip-plain t h

normal_again : (t : Text) → All IsPlain t → upper_mac (strip t) ≡ t
normal_again t h = ap upper_mac (strip-plain t h) ∙ upper-plain t h

pub ok-of-test :
    (test : Bool) (candidate address : Text)
    → is_mac 5 candidate ≡ test
    → (if test then ok candidate else err invalid_argument) ≡ ok address
    → is_mac 5 address ≡ true
ok-of-test true candidate address e h = subst (λ t. is_mac 5 t ≡ true) (ground (arith, h)) e
ok-of-test false candidate address e h = absurd (ground (arith, h))

-- An address that was accepted is accepted as it is.
pub validate_mac-again :
    (value address : Text) → validate_mac value ≡ ok address → validate_mac address ≡ ok address
unfolding validate_mac
validate_mac-again value address h =
    let mac =
      ok-of-test (is_mac 5 (upper_mac (strip value))) (upper_mac (strip value)) address refl h in
    rw (normal_again address (is_mac-IsPlain 5 address mac), mac) refl

-- Nor does strip change an address.
pub validate_mac-IsPlain :
    (value address : Text) → validate_mac value ≡ ok address → All IsPlain address
unfolding validate_mac
validate_mac-IsPlain value address h =
    is_mac-IsPlain 5 address
      (ok-of-test (is_mac 5 (upper_mac (strip value))) (upper_mac (strip value)) address refl h)
