-- ===== src/Prelude/Tests.antt =====
-- Boolean tests on the native numbers and on options, and the conditional.
use Prim.Native.Nat.{ℕ, ◌≤◌, ◌<◌, compare, Ordering}
use mathlib.Core.Path.{◌≡◌, refl}
use mathlib.Core.Logic.{◌↔◌, ◌⊎◌, inl, inr}
use mathlib.Core.Bool.{Bool, true, false}
use mathlib.Core.Option.{Option, none, some}
use native.Mathlib.Omega.{arith}

abbrev pub ltb : ℕ → ℕ → Bool
ltb a b = elim (compare a b) [ Ordering.lt ↦ true | _ ↦ false ]

abbrev pub leb : ℕ → ℕ → Bool
leb a b = elim (compare a b) [ Ordering.gt ↦ false | _ ↦ true ]

infix 50 ◌==◌
abbrev pub ◌==◌ : ℕ → ℕ → Bool
a == b = elim (compare a b) [ Ordering.eq ↦ true | _ ↦ false ]

infix 1 if◌then◌else◌
abbrev pub if◌then◌else◌ {ℓ} : {A : Type ℓ} → Bool → A → A → A
if true then x else y = x
if false then x else y = y

pub ltb→lt : (a b : ℕ) → ltb a b ≡ true → a < b
ltb→lt a b h = ground arith

pub leb→le : (a b : ℕ) → leb a b ≡ true → a ≤ b
leb→le a b h = ground arith

pub ==_iff : (a b : ℕ) → ((a == b) ≡ true) ↔ (a ≡ b)
==_iff a b = ground arith

-- To split on a computed value and keep the equation.
pub Bool-cases : (b : Bool) → (b ≡ true) ⊎ (b ≡ false)
Bool-cases true = inl refl
Bool-cases false = inr refl

pub Option-cases {ℓ} : {A : Type ℓ} (o : Option A) → (o ≡ none) ⊎ ((a : A) × (o ≡ some a))
Option-cases none = inl refl
Option-cases (some a) = inr (a, refl)

-- `x is not None`
abbrev pub is_some {ℓ} : {A : Type ℓ} → Option A → Bool
is_some none = false
is_some (some _) = true

-- `x is None`
abbrev pub is_none {ℓ} : {A : Type ℓ} → Option A → Bool
is_none none = true
is_none (some _) = false

-- `y if x is None else x`
abbrev pub some_or {ℓ} : {A : Type ℓ} → Option A → A → A
some_or none y = y
some_or (some x) y = x

-- What holds of both branches.
pub if_both {ℓ κ} :
    {S : Type ℓ} (Holds : S → Type κ) (test : Bool) {s t : S}
    → Holds s
    → Holds t
    → Holds (if test then s else t)
if_both Holds false _ else_holds = else_holds
if_both Holds true then_holds _ = then_holds

-- What holds in either branch, where the test went that way.
pub if_split {ℓ κ} :
    {S : Type ℓ} (Holds : S → Type κ) (test : Bool) {s t : S}
    → (test ≡ true → Holds s)
    → (test ≡ false → Holds t)
    → Holds (if test then s else t)
if_split Holds false _ else_holds = else_holds refl
if_split Holds true then_holds _ = then_holds refl

pub if_apply {ℓ κ} :
    {S : Type ℓ} {T : Type κ} (f : S → T) (test : Bool) (s t : S)
    → f (if test then s else t) ≡ (if test then f s else f t)
if_apply f true s t = refl
if_apply f false s t = refl
