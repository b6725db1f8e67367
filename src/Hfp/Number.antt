-- ===== src/Hfp/Number.antt =====
-- `int(text, 10)`, as src/hfp_mcp/hfp/protocol.py and session.py call it: blanks round it, a sign,
-- and digits with single underscores between them.
use hermes_phone_hfp.Prelude.{
  ℕ, zero, suc, ◌+◌, ◌*◌, ◌-◌, Bool, true, false, ◌&&◌, Option, none, some, [], ◌∷◌, ◌==◌,
  if◌then◌else◌, leb,
}
use hermes_phone_hfp.Prelude.Text.{Text}
use hermes_phone_hfp.Prelude.Int.{ℤ, pos, negsuc}
use hermes_phone_hfp.Prelude.Decimal.{is_digit}
use hermes_phone_hfp.Hfp.Line.{strip}

-- `after` tells that the character before was a digit.
unfoldable pub int_digits : ℕ → Bool → Text → Option ℕ
int_digits n after [] = if after then some n else none
int_digits n after (c ∷ cs) =
    let digit = int_digits (n * 10 + (c - 48)) true cs in
    let underscore = int_digits n false cs in
    if is_digit c then digit else if after && c == b'_' then underscore else none

abbrev negated : ℕ → ℤ
negated zero = pos zero
negated (suc n) = negsuc n

abbrev as_negative : Option ℕ → Option ℤ
as_negative none = none
as_negative (some n) = some (negated n)

abbrev as_positive : Option ℕ → Option ℤ
as_positive none = none
as_positive (some n) = some (pos n)

unfoldable pub signed : Text → Option ℤ
unfolding int_digits
signed [] = none
signed (c ∷ cs) =
    if c == b'-'
    then as_negative (int_digits 0 false cs)
    else if c == b'+'
    then as_positive (int_digits 0 false cs)
    else as_positive (int_digits 0 false (c ∷ cs))

-- Python's `int` refuses a text of more digits than `sys.get_int_max_str_digits()`, whose default is
-- 4300; the digits are counted without the underscores, and with the zeros in front.
abbrev digit_count : Text → ℕ
digit_count [] = 0
digit_count (c ∷ cs) = if is_digit c then suc (digit_count cs) else digit_count cs

unfoldable pub parse_int : Text → Option ℤ
unfolding signed strip
parse_int text = if leb (digit_count text) 4300 then signed (strip text) else none
