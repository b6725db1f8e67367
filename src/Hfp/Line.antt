-- ===== src/Hfp/Line.antt =====
-- One result line of src/hfp_mcp/hfp/protocol.py: the typed results and `_parse_line`. A line is
-- what `decode("ascii", errors="replace")` gives, so its code points are below 128 or U+FFFD.
use hermes_phone_hfp.Prelude.{
  ℕ, Bool, true, false, ◌&&◌, ◌||◌, Option, none, some, List, [], ◌∷◌, map, ◌==◌, ltb, leb,
  if◌then◌else◌,
}
use hermes_phone_hfp.Prelude.Text.{Text, codes, text_eq, starts_with, upper}

pub data ParsedAt : Type 0 where
  response : Bool → Text → ParsedAt
  result : Text → Text → ParsedAt
  unsolicited : Text → Text → ParsedAt

-- The blanks of `str.strip` from U+0085 on.
abbrev is_wide_space : ℕ → Bool
is_wide_space c =
    c == 0x85
    || (c == 0xa0
        || (c == 0x1680
            || (leb 0x2000 c && leb c 0x200a
                || (c == 0x2028
                    || (c == 0x2029 || (c == 0x202f || (c == 0x205f || c == 0x3000)))))))

-- `str.isspace`
abbrev pub is_space : ℕ → Bool
is_space c =
    if ltb c 0x85 then c == 32 || (leb 9 c && leb c 13 || leb 28 c && leb c 31) else is_wide_space c

unfoldable pub lstrip : Text → Text
lstrip [] = []
lstrip (c ∷ cs) = if is_space c then lstrip cs else c ∷ cs

abbrev pub cons_unless_blank : ℕ → Text → Text
cons_unless_blank c [] = if is_space c then [] else c ∷ []
cons_unless_blank c (d ∷ ds) = c ∷ d ∷ ds

unfoldable pub rstrip : Text → Text
rstrip [] = []
rstrip (c ∷ cs) = cons_unless_blank c (rstrip cs)

-- `str.strip`
unfoldable pub strip : Text → Text
unfolding lstrip rstrip
strip s = rstrip (lstrip s)

-- `bytes.decode("ascii", errors="replace")`
unfoldable pub decode : List ℕ → Text
decode = map (λ b. if ltb b 128 then b else 0xfffd)

-- The parts before and after the first `sep`, or none without one.
unfoldable pub partition : ℕ → Text → Option (Text × Text)
partition sep [] = none
partition sep (c ∷ cs) =
    if c == sep
    then some ([], cs)
    else elim (partition sep cs) [ none ↦ none | some (before, after) ↦ some (c ∷ before, after) ]

abbrev keyed : Text → Option (Text × Text) → ParsedAt
keyed line none = ParsedAt.unsolicited (strip (upper line)) []
keyed line (some (prefix, payload)) = ParsedAt.result (upper (strip prefix)) (strip payload)

-- `_parse_line`
unfoldable pub parse_line : Text → ParsedAt
unfolding text_eq starts_with upper strip partition
parse_line line =
    let upper_line = upper line in
    if text_eq upper_line (codes "OK")
    then ParsedAt.response true []
    else if text_eq upper_line (codes "ERROR")
    then ParsedAt.response false (codes "ERROR")
    else if starts_with upper_line (codes "+CME ERROR")
    then ParsedAt.response false line
    else keyed line (if starts_with line (codes "+") then partition b':' line else none)
