-- ===== src/Contracts/Validate.antt =====
-- The validators of src/hfp_mcp/contracts.py, on text; an argument that is no text is outside the
-- model. What the library `phonenumbers` makes of a number and a region is a parameter; none stands
-- for each of its refusals.
use hermes_phone_hfp.Prelude.{
  ℕ, zero, suc, String, Bool, false, not, ◌&&◌, ◌||◌, Option, none, some, [], ◌∷◌, ◌==◌, leb, ltb,
  length, any, all, if◌then◌else◌,
}
use hermes_phone_hfp.Prelude.Text.{Text, upper_char}
use hermes_phone_hfp.Prelude.Decimal.{is_digit}
use hermes_phone_hfp.Prelude.Result.{Result, ok, err}
use hermes_phone_hfp.Hfp.Line.{strip}

-- The codes of the `ContractError`s that are raised here.
pub data ContractError : Type 0 where
  invalid_argument request_id_conflict : ContractError

abbrev is_letter : ℕ → Bool
is_letter c = (leb b'A' c && leb c b'Z') || (leb b'a' c && leb c b'z')

abbrev is_alphanumeric : ℕ → Bool
is_alphanumeric c = is_letter c || is_digit c

-- [A-Za-z0-9._:-]
abbrev is_url_safe : ℕ → Bool
is_url_safe c = is_alphanumeric c || (c == b'.' || (c == b'_' || (c == b':' || c == b'-')))

-- `_REQUEST_ID_RE.fullmatch` and `_SESSION_ID_RE.fullmatch`, which are one pattern.
unfoldable pub is_identifier : Text → Bool
is_identifier [] = false
is_identifier (c ∷ cs) = is_alphanumeric c && (all is_url_safe cs && leb (length cs) 127)

unfoldable pub validate_request_id : Text → Result ContractError Text
validate_request_id value =
    let candidate = strip value in
    if is_identifier candidate then ok candidate else err invalid_argument

unfoldable pub validate_session_id : Text → Result ContractError Text
validate_session_id value =
    let candidate = strip value in
    if is_identifier candidate then ok candidate else err invalid_argument

abbrev pub is_upper_hex : ℕ → Bool
is_upper_hex c = is_digit c || (leb b'A' c && leb c b'F')

-- `_MAC_RE.fullmatch` on upper case: so many pairs with a colon behind each, and one more pair.
unfoldable pub is_mac : ℕ → Text → Bool
is_mac zero (a ∷ b ∷ []) = is_upper_hex a && is_upper_hex b
is_mac (suc n) (a ∷ b ∷ c ∷ rest) =
    is_upper_hex a && (is_upper_hex b && (c == b':' && is_mac n rest))
is_mac _ _ = false

-- `str.upper`, as far as it matters for an address: the letters of ASCII, and the ligature U+FB00,
-- whose upper case is "FF". No other character has an upper case of hexadecimal digits and colons.
unfoldable pub upper_mac : Text → Text
upper_mac [] = []
upper_mac (c ∷ cs) =
    let rest = upper_mac cs in if c == 0xfb00 then b'F' ∷ b'F' ∷ rest else upper_char c ∷ rest

unfoldable pub validate_mac : Text → Result ContractError Text
validate_mac value =
    let candidate = upper_mac (strip value) in
    if is_mac 5 candidate then ok candidate else err invalid_argument

abbrev pub max_call_purpose_chars : ℕ
max_call_purpose_chars = 4000

unfoldable pub validate_call_purpose : Text → Result ContractError Text
validate_call_purpose value =
    if ltb max_call_purpose_chars (length value) then err invalid_argument else ok (strip value)

-- `_E164_RE.fullmatch`
unfoldable pub is_e164 : Text → Bool
is_e164 (plus ∷ first ∷ rest) =
    plus == b'+'
    && (is_digit first
        && (not (first == b'0')
            && (all is_digit rest && (leb 6 (length rest) && leb (length rest) 14))))
is_e164 _ = false

abbrev pub is_forbidden : ℕ → Bool
is_forbidden c = c == 13 || (c == 10 || (c == 0 || c == b';'))

abbrev is_separator : ℕ → Bool
is_separator c = c == b' ' || (c == b'-' || (c == b'(' || c == b')'))

unfoldable pub without_separators : Text → Text
without_separators [] = []
without_separators (c ∷ cs) =
    let rest = without_separators cs in if is_separator c then rest else c ∷ rest

-- What stands for the library where it cannot be imported.
unfoldable pub without_library : Text → String → Option Text
without_library candidate region = some (without_separators candidate)

abbrev pub checked : Option Text → Option Text
checked none = none
checked (some number) = if is_e164 number then some number else none

-- none stands for the `ContractError`.
unfoldable pub normalize_phone_number : (Text → String → Option Text) → String → Text → Option Text
normalize_phone_number phonenumbers region value =
    let candidate = strip value in
    if any is_forbidden candidate then none else checked (phonenumbers candidate region)
