-- ===== src/Enrollment/First.antt =====
-- Who gets through the gate of src/hfp_mcp/enrollment.py.
use hermes_phone_hfp.Prelude.{
  ℕ, ◌+◌, ◌*◌, Bool, true, false, ◌||◌, Option, none, some, List, [], ◌∷◌, leb, ltb, All, ◌≡◌, refl,
  ap, sym, ◌∙◌, arith, if_both, if◌then◌else◌,
}
use mathlib.Core.Path.{subst}
use hermes_phone_hfp.Prelude.Text.{Text, text_eq, text_eq→eq}
use hermes_phone_hfp.Prelude.Result.{Result, ok, err}
use hermes_phone_hfp.Contracts.Validate.{ContractError, is_mac, validate_mac}
use hermes_phone_hfp.Contracts.Address.{validate_mac-again}
use hermes_phone_hfp.Hfp.Line.{strip}
use hermes_phone_hfp.Enrollment
use hermes_phone_hfp.Enrollment.{
  Gate, GateFile, absent, refused, other_value, private_gate, open_gate, read_gate, current_gate,
  admitted, claimed_by, is_candidate, through_gate, with_address, authorize_enrollment_address,
  enrollment_candidate,
}
use hermes_phone_hfp.Enrollment.Steps.{Op, Window, answered, authorized, apply, run}

-- A granted address is one that validation accepts as it is.
abbrev IsAddress : Text → Type 0
IsAddress a = validate_mac a ≡ ok a

-- A gate that is left has this candidate.
abbrev Holds : Option Text → GateFile → Type 0
Holds c (private_gate g) = g.candidate_address ≡ c
Holds c _ = Unit

-- No address was granted and none is the candidate, or one was, and the gate keeps its name.
data IsOwned (file : GateFile) (granted : List Text) : Type 0 where
  unclaimed : granted ≡ [] → Holds none file → IsOwned file granted
  owned :
      (a : Text)
      → IsAddress a
      → All (λ b. b ≡ a) granted
      → Holds (some a) file
      → IsOwned file granted

keeps-IsOwned :
    (file after : GateFile) (granted : List Text)
    → ((c : Option Text) → Holds c file → Holds c after)
    → IsOwned file granted
    → IsOwned after granted
keeps-IsOwned file after granted keeps (unclaimed e h) = unclaimed e (keeps none h)
keeps-IsOwned file after granted keeps (owned a valid same h) =
    owned a valid same (keeps (some a) h)

-- Reading the gate keeps it or removes it.
read-Holds :
    (now : ℕ) (file : GateFile) (c : Option Text) → Holds c file → Holds c (read_gate now file).1
unfolding read_gate
read-Holds now absent c h = tt
read-Holds now refused c h = tt
read-Holds now other_value c h = tt
read-Holds now (private_gate g) c h =
    if_both (λ (r : Option Gate × GateFile). Holds c r.1) (leb g.expires_at now) tt h

abbrev OwnedWindow : Window → Type 0
OwnedWindow w = IsOwned w.file w.granted

-- An address is not empty.
address_not_empty : IsAddress [] → ⊥
unfolding validate_mac is_mac strip
address_not_empty h = ground (arith, h)

-- A claim where the gate has no candidate.
first-IsOwned :
    (normalized : Text) (claim : Bool) (g : Gate) (granted : List Text) (empty : Option Text)
    → IsAddress normalized
    → g.candidate_address ≡ empty
    → ((a : Text) → IsAddress a → empty ≡ some a → ⊥)
    → IsOwned (private_gate g) granted
    → OwnedWindow (
        answered normalized claim
          (record { file = private_gate g; granted = granted })
          (ok (claimed_by normalized claim g).0, (claimed_by normalized claim g).1))
first-IsOwned normalized false g granted empty valid e free h = h
first-IsOwned normalized true g granted empty valid e free (unclaimed none_yet held) =
    owned normalized valid (rw none_yet (refl, tt)) refl
first-IsOwned normalized true g granted empty valid e free (owned a address same held) =
    absurd (free a address (sym e ∙ held))

-- A claim where it has one.
second-IsOwned :
    (normalized : Text) (claim : Bool) (g : Gate) (granted : List Text) (c : ℕ) (cs : Text)
    → g.candidate_address ≡ some (c ∷ cs)
    → IsOwned (private_gate g) granted
    → OwnedWindow (
        answered normalized claim
          (record { file = private_gate g; granted = granted })
          (ok (is_candidate normalized (validate_mac (c ∷ cs))), private_gate g))
second-IsOwned normalized claim g granted c cs e (unclaimed none_yet held) =
    absurd (ground (arith, e, held))
second-IsOwned normalized claim g granted c cs e (owned a valid same held) =
    subst
      (λ candidate. OwnedWindow (
        answered normalized claim (record { file = private_gate g; granted = granted })
          (ok (is_candidate normalized candidate), private_gate g)))
      (sym (ap validate_mac named ∙ valid)) (by_answer (text_eq a normalized) claim refl)
  where
    named : c ∷ cs ≡ a
    named = ground (arith, e, held)

    by_answer :
        (test claims : Bool)
        → text_eq a normalized ≡ test
        → OwnedWindow (
            answered normalized claims
              (record { file = private_gate g; granted = granted })
              (ok test, private_gate g))
    by_answer false claims same_name = owned a valid same held
    by_answer true false same_name = owned a valid same held
    by_answer true true same_name =
        owned a valid (sym (text_eq→eq a normalized same_name), same) held

admitted-IsOwned :
    (normalized : Text) (claim : Bool) (g : Gate) (granted : List Text) (candidate : Option Text)
    → IsAddress normalized
    → g.candidate_address ≡ candidate
    → IsOwned (private_gate g) granted
    → OwnedWindow (
        answered normalized claim
          (record { file = private_gate g; granted = granted })
          (ok (admitted normalized claim g candidate).0, (admitted normalized claim g candidate).1))
admitted-IsOwned normalized claim g granted none valid e h =
    first-IsOwned normalized claim g granted none valid e (λ a address same. ground (arith, same)) h
admitted-IsOwned normalized claim g granted (some []) valid e h =
    first-IsOwned normalized claim g granted (some []) valid e
      (λ a address same. address_not_empty (subst IsAddress (ground (arith, same)) address)) h
admitted-IsOwned normalized claim g granted (some (c ∷ cs)) valid e h =
    second-IsOwned normalized claim g granted c cs e h

read_and_admitted :
    (normalized : Text) (claim : Bool) (now : ℕ) (file : GateFile) (granted : List Text)
    → IsAddress normalized
    → IsOwned file granted
    → OwnedWindow (
        answered normalized claim
          (record { file = file; granted = granted })
          (with_address claim now file (ok normalized)))
unfolding read_gate
read_and_admitted normalized claim now absent granted valid h = h
read_and_admitted normalized claim now refused granted valid h = h
read_and_admitted normalized claim now other_value granted valid h =
    keeps-IsOwned other_value absent granted (λ c held. tt) h
read_and_admitted normalized claim now (private_gate g) granted valid h =
    if_both
      (λ (r : Option Gate × GateFile). OwnedWindow (
        answered normalized claim (record { file = private_gate g; granted = granted })
          (ok (through_gate normalized claim r).0, (through_gate normalized claim r).1)))
      (leb g.expires_at now) (keeps-IsOwned (private_gate g) absent granted (λ c held. tt) h)
      (admitted-IsOwned normalized claim g granted g.candidate_address valid refl h)

authorized-IsOwned :
    (address : Text) (claim : Bool) (now : ℕ) (w : Window) (m : Result ContractError Text)
    → validate_mac address ≡ m
    → OwnedWindow w
    → OwnedWindow (authorized address claim now w m)
unfolding authorize_enrollment_address
authorized-IsOwned address claim now w (err e) checks h = h
authorized-IsOwned address claim now w (ok normalized) checks h =
    subst (λ m. OwnedWindow (answered normalized claim w (with_address claim now w.file m)))
      (sym checks)
      (read_and_admitted normalized claim now w.file w.granted
        (validate_mac-again address normalized checks) h)

apply-IsOwned : (op : Op) (w : Window) → OwnedWindow w → OwnedWindow (apply op w)
unfolding apply enrollment_candidate
apply-IsOwned (Op.authorize address claim now) w h =
    authorized-IsOwned address claim now w (validate_mac address) refl h
apply-IsOwned (Op.look now) w h =
    keeps-IsOwned w.file (read_gate now w.file).1 w.granted (read-Holds now w.file) h
apply-IsOwned Op.close w h = keeps-IsOwned w.file absent w.granted (λ c held. tt) h

run-IsOwned : (ops : List Op) (w : Window) → OwnedWindow w → OwnedWindow (run ops w)
unfolding run
run-IsOwned [] w h = h
run-IsOwned (op ∷ ops) w h = run-IsOwned ops (apply op w) (apply-IsOwned op w h)

-- These addresses are one address, if there are any.
abbrev pub IsOnePhone : List Text → Type 0
IsOnePhone [] = Unit
IsOnePhone (a ∷ rest) = All (λ b. b ≡ a) rest

one_phone : (granted : List Text) (a : Text) → All (λ b. b ≡ a) granted → IsOnePhone granted
one_phone [] a same = tt
one_phone (b ∷ rest) a same = subst (λ x. All (λ c. c ≡ x) rest) (sym same.0) same.1

owned-IsOnePhone :
    (file : GateFile) (granted : List Text) → IsOwned file granted → IsOnePhone granted
owned-IsOnePhone file granted (unclaimed e h) = subst IsOnePhone (sym e) tt
owned-IsOnePhone file granted (owned a valid same h) = one_phone granted a same

abbrev file_of : Result Enrollment.TimeoutError GateFile → GateFile
file_of (ok file) = file
file_of (err _) = absent

-- In the window that an opening of the gate begins, the claims that are granted are all of one
-- address, whichever requests come in whatever order and at whatever times.
pub first_device_only :
    (timeout now : ℕ) (file : GateFile) (ops : List Op)
    → open_gate timeout now ≡ ok file
    → IsOnePhone (run ops (record { file = file; granted = [] })).granted
unfolding open_gate
first_device_only timeout now file ops opened =
    let w : Window = record { file = file; granted = [] } in
    let h =
      run-IsOwned ops w (unclaimed refl (by_timeout (ltb timeout 30 || ltb 600 timeout) opened)) in
    owned-IsOnePhone (run ops w).file (run ops w).granted h
  where
    by_timeout :
        (test : Bool)
        → (if test
            then err Enrollment.invalid_timeout
            else (ok (
                private_gate
                  (record { expires_at = now + timeout * 1000000; candidate_address = none }))))
          ≡ ok file
        → Holds none file
    by_timeout true e = absurd (ground (arith, e))
    by_timeout false e = subst (Holds none) (ap file_of e) refl
