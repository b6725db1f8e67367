-- ===== src/Enrollment.antt =====
-- src/hfp_mcp/enrollment.py: the gate that lets one phone enroll while a window is open, as the file
-- that it keeps. Time is in microseconds. What is written is JSON that is read back as it was.
pub mod Steps
pub mod First
pub mod Environment
use hermes_phone_hfp.Prelude.{
  ℕ, ◌+◌, ◌*◌, Bool, true, false, ◌||◌, Option, none, some, List, [], ◌∷◌, leb, ltb, map, drop,
  ◌==◌, if◌then◌else◌,
}
use hermes_phone_hfp.Prelude.Text.{Text, codes, text_eq, starts_with}
use hermes_phone_hfp.Prelude.Result.{Result, ok, err}
use hermes_phone_hfp.Contracts.Validate.{ContractError, invalid_argument, validate_mac}

pub record Gate : Type 0 where
  pub expires_at : ℕ
  pub candidate_address : Option Text

-- The file is not there; it is not private or does not read as a gate; it holds something else than
-- an object; or it holds a gate.
pub data GateFile : Type 0 where
  absent refused other_value : GateFile
  private_gate : Gate → GateFile

pub data TimeoutError : Type 0 where
  invalid_timeout : TimeoutError

unfoldable pub open_gate : ℕ → ℕ → Result TimeoutError GateFile
open_gate timeout now =
    if ltb timeout 30 || ltb 600 timeout
    then err invalid_timeout
    else (ok
        (private_gate (record { expires_at = now + timeout * 1000000; candidate_address = none })))

-- `_read_gate`, which removes a gate whose time is over.
abbrev pub current_gate : ℕ → Gate → Option Gate × GateFile
current_gate now g = if leb g.expires_at now then (none, absent) else (some g, private_gate g)

unfoldable pub read_gate : ℕ → GateFile → Option Gate × GateFile
read_gate now absent = (none, absent)
read_gate now refused = (none, refused)
read_gate now other_value = (none, absent)
read_gate now (private_gate g) = current_gate now g

-- `enrollment_candidate`
abbrev pub valid_or_none : Result ContractError Text → Option Text
valid_or_none (ok address) = some address
valid_or_none (err _) = none

abbrev pub candidate_of : Option Gate → Option Text
candidate_of none = none
candidate_of (some g) = elim g.candidate_address [
  | none ↦ none
  | some text ↦ elim text [ [] ↦ none | c ∷ cs ↦ valid_or_none (validate_mac (c ∷ cs)) ]
]

unfoldable pub enrollment_candidate : ℕ → GateFile → Option Text × GateFile
enrollment_candidate now file = let (gate, after) = read_gate now file in (candidate_of gate, after)

-- `authorize_enrollment_address`
abbrev pub is_candidate : Text → Result ContractError Text → Bool
is_candidate normalized (ok candidate) = text_eq candidate normalized
is_candidate normalized (err _) = false

abbrev pub claimed_by : Text → Bool → Gate → Bool × GateFile
claimed_by normalized false g = (true, private_gate g)
claimed_by normalized true g =
    (true, private_gate (record g { candidate_address = some normalized }))

abbrev pub admitted : Text → Bool → Gate → Option Text → Bool × GateFile
admitted normalized claim g none = claimed_by normalized claim g
admitted normalized claim g (some []) = claimed_by normalized claim g
admitted normalized claim g (some (c ∷ cs)) =
    (is_candidate normalized (validate_mac (c ∷ cs)), private_gate g)

abbrev pub through_gate : Text → Bool → Option Gate × GateFile → Bool × GateFile
through_gate normalized claim (none, file) = (false, file)
through_gate normalized claim (some g, file) = admitted normalized claim g g.candidate_address

abbrev pub with_address :
    Bool → ℕ → GateFile → Result ContractError Text → Result ContractError Bool × GateFile
with_address claim now file (err e) = (err e, file)
with_address claim now file (ok normalized) =
    let (answer, after) = through_gate normalized claim (read_gate now file) in (ok answer, after)

unfoldable pub authorize_enrollment_address :
    Text → Bool → ℕ → GateFile → Result ContractError Bool × GateFile
authorize_enrollment_address address claim now file =
    with_address claim now file (validate_mac address)

-- `address_from_bluez_path`: what stands behind the last marker, with colons.
abbrev pub marker : Text
marker = codes "/dev_"

abbrev or_else : Option Text → Option Text → Option Text
or_else (some t) other = some t
or_else none other = other

unfoldable pub after_last : Text → Option Text
unfolding starts_with
after_last [] = none
after_last (c ∷ cs) =
    or_else (after_last cs) (if starts_with (c ∷ cs) marker then some (drop 5 (c ∷ cs)) else none)

abbrev address_behind : Option Text → Result ContractError Text
address_behind none = err invalid_argument
address_behind (some t) = validate_mac (map (λ c. if c == b'_' then b':' else c) t)

unfoldable pub address_from_bluez_path : Text → Result ContractError Text
unfolding after_last
address_from_bluez_path path = address_behind (after_last path)
