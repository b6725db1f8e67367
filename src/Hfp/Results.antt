-- ===== src/Hfp/Results.antt =====
-- The typed payloads of src/hfp_mcp/hfp/protocol.py: +CIND, +CLIP and +CLCC.
use hermes_phone_hfp.Prelude.{
  ℕ, suc, Bool, true, false, not, Option, none, some, List, [], ◌∷◌, ◌++◌, any, get_elem?, ◌==◌,
  if◌then◌else◌,
}
use hermes_phone_hfp.Prelude.Text.{Text, lower}
use hermes_phone_hfp.Prelude.Int.{ℤ, is_nat}
use hermes_phone_hfp.Prelude.Dict.{insert, text_equality}
use hermes_phone_hfp.Prelude.Result.{Result, ok, err, ◌>>=◌}
use hermes_phone_hfp.Hfp.Line.{strip}
use hermes_phone_hfp.Hfp.Number.{parse_int}
use hermes_phone_hfp.Hfp.Csv.{csv_fields}

-- An `ATProtocolError` raised on a payload, its message left out.
pub data PayloadError : Type 0 where
  invalid_payload : PayloadError

pub data CallDirection : Type 0 where
  outgoing incoming : CallDirection

pub data ClccStatus : Type 0 where
  active held dialing alerting incoming waiting held_by_response : ClccStatus

pub record ClipInfo : Type 0 where
  pub number : Text
  pub number_type : ℤ
  pub subaddress : Option Text
  pub subaddress_type : Option ℤ
  pub name : Option Text

pub record ClccEntry : Type 0 where
  pub index : ℤ
  pub direction : CallDirection
  pub status : ClccStatus
  pub mode : ℤ
  pub multiparty : Bool
  pub number : Option Text
  pub number_type : Option ℤ
  pub name : Option Text

-- `re.findall(r'"([^"]+)"', payload)`: outside quotes, or inside with what was read. Two quotes in
-- a row match nothing, and the second one opens.
unfoldable pub quoted_names : Option Text → Text → List Text
quoted_names inside [] = []
quoted_names none (c ∷ cs) = quoted_names (if c == b'"' then some [] else none) cs
quoted_names (some []) (c ∷ cs) = quoted_names (if c == b'"' then some [] else some (c ∷ [])) cs
quoted_names (some (d ∷ ds)) (c ∷ cs) =
    let closed = quoted_names none cs in
    let longer = quoted_names (some ((d ∷ ds) ++ c ∷ [])) cs in
    if c == b'"' then (d ∷ ds) ∷ closed else longer

unfoldable pub number_names : ℕ → List Text → List (Text × ℕ) → List (Text × ℕ)
unfolding insert lower
number_names i [] d = d
number_names i (name ∷ names) d = number_names (suc i) names (insert (lower name) i d)

unfoldable pub parse_cind_definition : Text → List (Text × ℕ)
unfolding quoted_names number_names
parse_cind_definition payload = number_names 1 (quoted_names none payload) []

-- `str.split(",")`
unfoldable pub split_comma : Text → List Text
split_comma [] = [] ∷ []
split_comma (c ∷ cs) = elim (split_comma cs) [
  | [] ↦ []
  | part ∷ parts ↦ if c == b',' then [] ∷ part ∷ parts else (c ∷ part) ∷ parts
]

abbrev is_blank : Text → Bool
is_blank [] = true
is_blank (_ ∷ _) = false

abbrev int_of : Text → Result PayloadError ℤ
int_of field = elim (parse_int field) [ none ↦ err invalid_payload | some n ↦ ok n ]

unfoldable pub all_ints : List Text → Result PayloadError (List ℤ)
unfolding parse_int
all_ints [] = ok []
all_ints (field ∷ fields) = do
  value ← int_of (strip field)
  values ← all_ints fields
  ok (value ∷ values)

unfoldable pub parse_cind_values : Text → Result PayloadError (List ℤ)
unfolding split_comma all_ints strip
parse_cind_values payload =
    let fields = split_comma payload in
    if any (λ field. is_blank (strip field)) fields then err invalid_payload else all_ints fields

-- `fields[i] or None if len(fields) > i else None`
abbrev text_field : List Text → ℕ → Option Text
text_field fields i = elim (get_elem? fields i) [
  | none ↦ none
  | some field ↦ if is_blank field then none else some field
]

-- `_parse_int(fields[i]) if len(fields) > i and fields[i] else None`
abbrev int_field : List Text → ℕ → Result PayloadError (Option ℤ)
int_field fields i = elim (text_field fields i) [
  | none ↦ ok none
  | some field ↦ (do n ← int_of field; ok (some n))
]

abbrev fields_of : Text → Result PayloadError (List Text)
fields_of payload = elim (csv_fields payload) [
  | none ↦ err invalid_payload
  | some fields ↦ ok fields
]

abbrev clip_of : List Text → Result PayloadError ClipInfo
clip_of (number ∷ kind ∷ rest) = do
  subaddress_type ← int_field rest 1
  number_type ← int_of kind
  ok (record {
    number = number;
    number_type = number_type;
    subaddress = text_field rest 0;
    subaddress_type = subaddress_type;
    name = text_field rest 2;
  })
clip_of _ = err invalid_payload

unfoldable pub parse_clip : Text → Result PayloadError ClipInfo
unfolding csv_fields parse_int
parse_clip payload = do fields ← fields_of payload; clip_of fields

abbrev direction_of : ℤ → Result PayloadError CallDirection
direction_of n =
    if is_nat n 0
    then ok CallDirection.outgoing
    else if is_nat n 1
    then ok CallDirection.incoming
    else err invalid_payload

abbrev status_of : ℤ → Result PayloadError ClccStatus
status_of n =
    if is_nat n 0
    then ok ClccStatus.active
    else if is_nat n 1
    then ok ClccStatus.held
    else if is_nat n 2
    then ok ClccStatus.dialing
    else if is_nat n 3
    then ok ClccStatus.alerting
    else if is_nat n 4
    then ok ClccStatus.incoming
    else if is_nat n 5
    then ok ClccStatus.waiting
    else if is_nat n 6
    then ok ClccStatus.held_by_response
    else err invalid_payload

abbrev clcc_of : List Text → Result PayloadError ClccEntry
clcc_of (index ∷ direction ∷ status ∷ mode ∷ multiparty ∷ rest) = do
  d ← int_of direction
  direction ← direction_of d
  s ← int_of status
  status ← status_of s
  number_type ← int_field rest 1
  i ← int_of index
  m ← int_of mode
  flag ← int_of multiparty
  ok (record {
    index = i;
    direction = direction;
    status = status;
    mode = m;
    multiparty = not (is_nat flag 0);
    number = text_field rest 0;
    number_type = number_type;
    name = text_field rest 2;
  })
clcc_of _ = err invalid_payload

unfoldable pub parse_clcc : Text → Result PayloadError ClccEntry
unfolding csv_fields parse_int
parse_clcc payload = do fields ← fields_of payload; clcc_of fields
