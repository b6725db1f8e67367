-- ===== src/Enrollment/Environment.antt =====
-- `set_phone_in_service_env` of src/hfp_mcp/enrollment.py, from the lines that `splitlines` makes of the
-- file to the text that is written.
pub mod LinesOf
pub mod Keys
pub mod Ends
pub mod Written
use hermes_phone_hfp.Prelude.{
  ℕ, Bool, true, false, not, ◌&&◌, ◌||◌, List, [], ◌∷◌, ◌++◌, if◌then◌else◌, ◌≡◌, refl, ap, sym,
  ◌∙◌, arith, if_split, All, All-append, Bool-cases, inl, inr,
}
use hermes_phone_hfp.Prelude.Text.{Text, codes, starts_with}
use hermes_phone_hfp.Prelude.Result.{Result, ok, err}
use hermes_phone_hfp.Hfp.Line.{strip, rstrip}
use hermes_phone_hfp.Contracts.Validate.{ContractError, validate_mac}
use hermes_phone_hfp.Contracts.Address.{IsPlain, strip-plain, validate_mac-IsPlain}

abbrev pub phone_key : Text
phone_key = codes "HFP_PHONE_ADDRESS="

abbrev pub default_key : Text
default_key = codes "HFP_PHONE_DEFAULT_ADDRESS="

-- Which key a line sets, if it sets one of the two.
pub data Key : Type 0 where
  phone default other : Key

unfoldable pub key_of : Text → Key
key_of line =
    let stripped = strip line in
    if starts_with stripped phone_key
    then phone
    else (if starts_with stripped default_key then default else other)

abbrev pub phone_line : Text → Text
phone_line address = phone_key ++ address

abbrev pub default_line : Text → Text
default_line address = default_key ++ address

-- The lines so far, and which keys were replaced.
pub record Lines : Type 0 where
  pub output : List Text
  pub has_phone : Bool
  pub has_default : Bool

abbrev pub by_key : Text → Text → Lines → Key → Lines
by_key address line s phone =
    if s.has_phone
    then s
    else record s { output = s.output ++ phone_line address ∷ []; has_phone = true }
by_key address line s default =
    if s.has_default
    then s
    else record s { output = s.output ++ default_line address ∷ []; has_default = true }
by_key address line s other = record s { output = s.output ++ line ∷ [] }

unfoldable pub replace_lines : Text → List Text → Lines → Lines
replace_lines address [] s = s
replace_lines address (line ∷ lines) s =
    replace_lines address lines (by_key address line s (key_of line))

-- An empty line and the keys that were not there.
abbrev pub missing : Text → Bool → Bool → List Text
missing address true true = []
missing address true false = [] ∷ default_line address ∷ []
missing address false true = [] ∷ phone_line address ∷ []
missing address false false = [] ∷ phone_line address ∷ default_line address ∷ []

unfoldable pub set_phone : Text → List Text → List Text
set_phone address lines =
    let s =
      replace_lines address lines
        (record { output = []; has_phone = false; has_default = false }) in
    s.output ++ missing address s.has_phone s.has_default

-- `"\n".join(lines)`
unfoldable pub join_lines : List Text → Text
join_lines [] = []
join_lines (line ∷ []) = line
join_lines (line ∷ next ∷ lines) = line ++ 10 ∷ join_lines (next ∷ lines)

abbrev pub written : List Text → Result ContractError Text → Result ContractError Text
written lines (err why) = err why
written lines (ok address) = ok (rstrip (join_lines (set_phone address lines)) ++ 10 ∷ [])

-- The text that is written, or the error of an address that is not valid.
unfoldable pub set_phone_in_service_env : Text → List Text → Result ContractError Text
set_phone_in_service_env value lines = written lines (validate_mac value)
