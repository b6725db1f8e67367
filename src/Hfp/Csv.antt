-- ===== src/Hfp/Csv.antt =====
-- The first row of `csv.reader(StringIO(payload), skipinitialspace=True)`, which `_csv_fields` of
-- src/hfp_mcp/hfp/protocol.py takes: commas, double quotes doubled inside quotes, blanks skipped at
-- the start of a field, and one line unless a quoted field goes on.
use hermes_phone_hfp.Prelude.{
  ℕ, Bool, true, false, ◌||◌, Option, none, some, List, [], ◌∷◌, ◌++◌, map, ◌==◌, if◌then◌else◌,
}
use hermes_phone_hfp.Prelude.Text.{Text}
use hermes_phone_hfp.Hfp.Line.{strip}

pub data Mode : Type 0 where
  start_record start_field in_field in_quoted quote_in_quoted eat_newline : Mode

pub record Csv : Type 0 where
  pub mode : Mode
  pub field : Text
  pub fields : List Text

abbrev save : Csv → Mode → Csv
save r mode = record { mode = mode; field = []; fields = r.fields ++ r.field ∷ [] }

abbrev push : Csv → ℕ → Mode → Csv
push r c mode = record r { mode = mode; field = r.field ++ c ∷ [] }

abbrev is_newline : ℕ → Bool
is_newline c = c == 10 || c == 13

abbrev at_start : Csv → ℕ → Csv
at_start r c =
    if is_newline c
    then save r Mode.eat_newline
    else if c == b'"'
    then record r { mode = Mode.in_quoted }
    else if c == b' '
    then record r { mode = Mode.start_field }
    else if c == b','
    then save r Mode.start_field
    else push r c Mode.in_field

abbrev step_in : Mode → Csv → ℕ → Option Csv
step_in Mode.start_record r c =
    if is_newline c then some (record r { mode = Mode.eat_newline }) else some (at_start r c)
step_in Mode.start_field r c = some (at_start r c)
step_in Mode.in_field r c =
    if is_newline c
    then some (save r Mode.eat_newline)
    else if c == b','
    then some (save r Mode.start_field)
    else some (push r c Mode.in_field)
step_in Mode.in_quoted r c =
    if c == b'"'
    then some (record r { mode = Mode.quote_in_quoted })
    else some (push r c Mode.in_quoted)
step_in Mode.quote_in_quoted r c =
    if c == b'"'
    then some (push r c Mode.in_quoted)
    else if c == b','
    then some (save r Mode.start_field)
    else if is_newline c
    then some (save r Mode.eat_newline)
    else some (push r c Mode.in_field)
step_in Mode.eat_newline r c = if is_newline c then some r else none

-- The end of a line: a row is complete in `start_record`.
abbrev end_line : Mode → Csv → Csv
end_line Mode.start_record r = r
end_line Mode.start_field r = save r Mode.start_record
end_line Mode.in_field r = save r Mode.start_record
end_line Mode.in_quoted r = r
end_line Mode.quote_in_quoted r = save r Mode.start_record
end_line Mode.eat_newline r = record r { mode = Mode.start_record }

abbrev is_complete : Mode → Bool
is_complete Mode.start_record = true
is_complete _ = false

-- No line is left: an open quoted field is saved, and without one there is no row.
abbrev end_input : Mode → Csv → Option (List Text)
end_input Mode.in_quoted r = some (save r Mode.start_record).fields
end_input _ r = none

-- `fresh` tells that no character of the current line was read.
unfoldable pub rows : Bool → Csv → Text → Option (List Text)
rows true r [] = end_input r.mode r
rows false r [] =
    let ended = end_line r.mode r in
    if is_complete ended.mode then some ended.fields else end_input ended.mode ended
rows fresh r (c ∷ cs) = elim (step_in r.mode r c) [
  | none ↦ none
  | some stepped ↦
      let ended = end_line stepped.mode stepped in
      let next = rows true ended cs in
      let same = rows false stepped cs in
      if c == 10 then (if is_complete ended.mode then some ended.fields else next) else same
]

-- `_csv_fields`: none stands for its `ATProtocolError`.
unfoldable pub csv_fields : Text → Option (List Text)
unfolding rows strip
csv_fields payload =
    elim (rows true (record { mode = Mode.start_record; field = []; fields = [] }) payload) [
      | none ↦ none
      | some row ↦ some (map strip row)
    ]
