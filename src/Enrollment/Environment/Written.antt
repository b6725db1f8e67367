-- ===== src/Enrollment/Environment/Written.antt =====
-- The text that `set_phone_in_service_env` of src/hfp_mcp/enrollment.py writes, line by line.
use hermes_phone_hfp.Prelude.{
  Bool, true, false, List, [], ◌∷◌, ◌++◌, if◌then◌else◌, All, All-append, ◌≡◌, refl, ap, sym, ◌∙◌,
  Bool-cases, inl, inr, ◌⊎◌, arith,
}
use mathlib.Core.Path.{subst}
use hermes_phone_hfp.Prelude.Text.{Text, starts_with}
use hermes_phone_hfp.Prelude.Result.{ok}
use hermes_phone_hfp.Hfp.Line.{rstrip}
use hermes_phone_hfp.Contracts.Validate.{validate_mac}
use hermes_phone_hfp.Contracts.Address.{IsPlain, rstrip-plain, validate_mac-IsPlain}
use hermes_phone_hfp.Enrollment.Environment.{
  phone_key, default_key, Key, phone, default, other, key_of, phone_line, default_line, set_phone,
  join_lines, written, set_phone_in_service_env,
}
use hermes_phone_hfp.Enrollment.Environment.LinesOf.{same_key, lines_of, IsPlain-text}
use hermes_phone_hfp.Enrollment.Environment.Keys.{blank-other, set_phone-lines}
use hermes_phone_hfp.Enrollment.Environment.Ends.{
  cons_line, kept_line, trim_end, rstrip-join_lines, rstrip-again, strip-rstrip,
}

-- Blanks at the end of a line do not change its key.
key_of-rstrip : (line : Text) → key_of (rstrip line) ≡ key_of line
unfolding key_of
key_of-rstrip line =
    ap
      (λ stripped.
        if starts_with stripped phone_key
        then phone
        else (if starts_with stripped default_key then default else other))
      (strip-rstrip line)

last-lines_of :
    (k found : Key) (line : Text)
    → key_of line ≡ found
    → lines_of k (cons_line line []) ≡ (if same_key k found then cons_line line [] else [])
unfolding lines_of
last-lines_of k found [] e = elim (Bool-cases (same_key k found)) [
  | inl same ↦ rw same refl
  | inr apart ↦ rw apart refl
]
last-lines_of k found (c ∷ cs) e = ap (λ x. if same_key k x then (c ∷ cs) ∷ [] else []) e

-- A line of one of the keys that has no blanks at the end stays.
whole_last :
    (k : Key) (line : Text)
    → same_key k other ≡ false
    → same_key k (key_of line) ≡ true
    → rstrip line ≡ line
    → cons_line (rstrip line) [] ≡ line ∷ []
whole_last k [] keyed e whole =
    absurd (ground (arith, sym keyed ∙ ap (same_key k) (sym blank-other) ∙ e))
whole_last k (c ∷ cs) keyed e whole = ap (λ t. cons_line t []) whole

keyed-cons_line :
    (k : Key) (line : Text) (lines rest : List Text) (test : Bool)
    → same_key k other ≡ false
    → same_key k (key_of line) ≡ test
    → (test ≡ true → rstrip line ≡ line)
    → lines_of k rest ≡ lines_of k lines
    → lines_of k (cons_line (kept_line line rest) rest)
      ≡ (if test then line ∷ lines_of k lines else lines_of k lines)
unfolding lines_of
keyed-cons_line k line lines [] true keyed e whole h =
    last-lines_of k (key_of line) (rstrip line) (key_of-rstrip line)
    ∙ ap (λ (b : Bool). if b then cons_line (rstrip line) [] else []) e
    ∙ whole_last k line keyed e (whole refl)
    ∙ ap (λ xs. line ∷ xs) h
keyed-cons_line k line lines [] false keyed e whole h =
    last-lines_of k (key_of line) (rstrip line) (key_of-rstrip line)
    ∙ ap (λ (b : Bool). if b then cons_line (rstrip line) [] else []) e
    ∙ h
keyed-cons_line k line lines (next ∷ rest) true keyed e whole h = rw e (ap (λ xs. line ∷ xs) h)
keyed-cons_line k line lines (next ∷ rest) false keyed e whole h = rw e h

abbrev IsWhole : Text → Type 0
IsWhole line = rstrip line ≡ line

split-IsWhole :
    (test : Bool) (line : Text) (lines : List Text)
    → All IsWhole (if test then line ∷ lines else lines)
    → (test ≡ true → IsWhole line) × All IsWhole lines
split-IsWhole true line lines h = (λ e. h.0, h.1)
split-IsWhole false line lines h = (λ e. absurd (ground (arith, e)), h)

keyed-trim_end :
    (k : Key) (lines : List Text)
    → same_key k other ≡ false
    → All IsWhole (lines_of k lines)
    → lines_of k (trim_end lines) ≡ lines_of k lines
unfolding lines_of trim_end
keyed-trim_end k [] keyed whole = refl
keyed-trim_end k (line ∷ lines) keyed whole =
    let (first, rest) = split-IsWhole (same_key k (key_of line)) line (lines_of k lines) whole in
    keyed-cons_line k line lines (trim_end lines) (same_key k (key_of line)) keyed refl first
      (keyed-trim_end k lines keyed rest)

-- The other lines stay up to the blanks at the end.
others-cons_line :
    (line : Text) (lines rest : List Text) (test : Bool)
    → same_key other (key_of line) ≡ test
    → trim_end (lines_of other rest) ≡ trim_end (lines_of other lines)
    → trim_end (lines_of other (cons_line (kept_line line rest) rest))
      ≡ trim_end (if test then line ∷ lines_of other lines else lines_of other lines)
unfolding trim_end lines_of
others-cons_line line lines [] true e h =
    ap trim_end (
      last-lines_of other (key_of line) (rstrip line) (key_of-rstrip line)
      ∙ ap (λ (b : Bool). if b then cons_line (rstrip line) [] else []) e)
    ∙ last_again (rstrip line) (rstrip-again line)
    ∙ ap (λ xs. cons_line (kept_line line xs) xs) h
  where
    last_again : (t : Text) → rstrip t ≡ t → trim_end (cons_line t []) ≡ cons_line t []
    last_again [] e = refl
    last_again (c ∷ cs) e = ap (λ t. cons_line t []) e
others-cons_line line lines [] false e h =
    ap trim_end (
      last-lines_of other (key_of line) (rstrip line) (key_of-rstrip line)
      ∙ ap (λ (b : Bool). if b then cons_line (rstrip line) [] else []) e)
    ∙ h
others-cons_line line lines (next ∷ rest) true e h =
    rw e (ap (λ xs. cons_line (kept_line line xs) xs) h)
others-cons_line line lines (next ∷ rest) false e h = rw e h

others-trim_end :
    (lines : List Text)
    → trim_end (lines_of other (trim_end lines)) ≡ trim_end (lines_of other lines)
unfolding trim_end lines_of
others-trim_end [] = refl
others-trim_end (line ∷ lines) =
    others-cons_line line lines (trim_end lines) (same_key other (key_of line)) refl
      (others-trim_end lines)

trim_end-blank : (lines : List Text) → trim_end (lines ++ [] ∷ []) ≡ trim_end lines
unfolding trim_end rstrip
trim_end-blank [] = refl
trim_end-blank (line ∷ lines) = ap (λ xs. cons_line (kept_line line xs) xs) (trim_end-blank lines)

address-IsWhole :
    (key value address : Text)
    → All IsPlain key
    → validate_mac value ≡ ok address
    → IsWhole (key ++ address)
address-IsWhole key value address plain valid =
    rstrip-plain (key ++ address)
      (All-append IsPlain key address plain (validate_mac-IsPlain value address valid))

-- The lines of a key after the blanks at the end are gone, where the key had the one line.
one-trim_end :
    (k : Key) (line : Text) (lines : List Text)
    → same_key k other ≡ false
    → IsWhole line
    → lines_of k lines ≡ line ∷ []
    → lines_of k (trim_end lines) ≡ line ∷ []
one-trim_end k line lines keyed whole e =
    keyed-trim_end k lines keyed (subst (All IsWhole) (sym e) (whole, tt)) ∙ e

-- With a valid address, the text that is written is that of lines, each with a newline behind it,
-- of which exactly one sets each of the two keys, to that address in its normal form. The lines that
-- set neither are those of the input, in their order, but for blank lines at the end and blanks at the
-- end of the last one.
pub set_phone_in_service_env-lines :
    (value address : Text) (lines : List Text)
    → validate_mac value ≡ ok address
    → (kept : List Text) × (set_phone_in_service_env value lines ≡ ok (join_lines kept ++ 10 ∷ []))
      × (lines_of phone kept ≡ phone_line address ∷ [])
      × (lines_of default kept ≡ default_line address ∷ [])
      × (trim_end (lines_of other kept) ≡ trim_end (lines_of other lines))
unfolding set_phone_in_service_env
set_phone_in_service_env-lines value address lines valid =
    let output = set_phone address lines in
    let set = set_phone-lines value address lines valid in
    (
      trim_end output,
      ap (written lines) valid ∙ ap (λ t. ok (t ++ 10 ∷ [])) (rstrip-join_lines output),
      one-trim_end phone (phone_line address) output refl
          (address-IsWhole phone_key value address (IsPlain-text phone_key refl) valid) set.0,
      one-trim_end default (default_line address) output refl
          (address-IsWhole default_key value address (IsPlain-text default_key refl) valid) set.1,
      others-trim_end output ∙ same_end set.2,
    )
  where
    same_end :
        (lines_of other (set_phone address lines) ≡ lines_of other lines)
          ⊎ (lines_of other (set_phone address lines) ≡ lines_of other lines ++ [] ∷ [])
        → trim_end (lines_of other (set_phone address lines)) ≡ trim_end (lines_of other lines)
    same_end (inl e) = ap trim_end e
    same_end (inr e) = ap trim_end e ∙ trim_end-blank (lines_of other lines)
