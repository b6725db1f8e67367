-- ===== src/Enrollment/Environment/Keys.antt =====
-- Each key of `set_phone_in_service_env` in src/hfp_mcp/enrollment.py is set once.
use hermes_phone_hfp.Prelude.{
  Bool, true, false, ◌&&◌, List, [], ◌∷◌, ◌++◌, if◌then◌else◌, ◌≡◌, refl, ap, sym, ◌∙◌, if_split,
  if_both, All-append, ◌⊎◌, inl, inr,
}
use mathlib.Core.List.{append_assoc, append-nil}
use hermes_phone_hfp.Prelude.Text.{Text, starts_with}
use hermes_phone_hfp.Prelude.Result.{ok}
use hermes_phone_hfp.Hfp.Line.{strip, lstrip}
use hermes_phone_hfp.Contracts.Validate.{validate_mac}
use hermes_phone_hfp.Contracts.Address.{IsPlain, strip-plain, validate_mac-IsPlain}
use hermes_phone_hfp.Enrollment.Environment.{
  phone_key, default_key, Key, phone, default, other, key_of, phone_line, default_line, Lines,
  by_key, replace_lines, missing, set_phone,
}
use hermes_phone_hfp.Enrollment.Environment.LinesOf.{
  same_key, lines_of, lines_of-append, IsPlain-text,
}

-- A line with one of the two keys is a line of that key, and an empty one is of neither.
IsKeyed : Text → Type 0
IsKeyed address = (key_of (phone_line address) ≡ phone) × (key_of (default_line address) ≡ default)

address-IsKeyed : (value address : Text) → validate_mac value ≡ ok address → IsKeyed address
unfolding IsKeyed key_of starts_with
address-IsKeyed value address h =
    let plain = validate_mac-IsPlain value address h in
    (
      ap
          (λ stripped.
            if starts_with stripped phone_key
            then phone
            else (if starts_with stripped default_key then default else other))
          (strip-plain (phone_line address)
            (All-append IsPlain phone_key address (IsPlain-text phone_key refl) plain)),
      ap
          (λ stripped.
            if starts_with stripped phone_key
            then phone
            else (if starts_with stripped default_key then default else other))
          (strip-plain (default_line address)
            (All-append IsPlain default_key address (IsPlain-text default_key refl) plain)),
    )

lines_of-last :
    (k : Key) (lines : List Text) (line : Text) (found : Key)
    → key_of line ≡ found
    → lines_of k (lines ++ line ∷ [])
      ≡ lines_of k lines ++ (if same_key k found then line ∷ [] else [])
unfolding lines_of
lines_of-last k lines line found e = lines_of-append k lines (line ∷ []) ∙ rw e refl

-- Each key that was replaced has one line, and one that was not has none.
record IsUpdated (address : Text) (s : Lines) : Type 0 where
  phones : lines_of phone s.output ≡ (if s.has_phone then phone_line address ∷ [] else [])
  defaults : lines_of default s.output ≡ (if s.has_default then default_line address ∷ [] else [])

by_key-IsUpdated :
    (address line : Text) (s : Lines) (k : Key)
    → key_of line ≡ k
    → IsKeyed address
    → IsUpdated address s
    → IsUpdated address (by_key address line s k)
unfolding IsKeyed
by_key-IsUpdated address line s phone e keyed h =
    if_split (IsUpdated address) s.has_phone (λ there. h)
      (λ free. record {
        phones =
            lines_of-last phone s.output (phone_line address) phone keyed.0
            ∙ ap (λ xs. xs ++ phone_line address ∷ [])
                (h.phones ∙ ap (λ b. if b then phone_line address ∷ [] else []) free);
        defaults =
            lines_of-last default s.output (phone_line address) phone keyed.0
            ∙ append-nil (lines_of default s.output)
            ∙ h.defaults;
      })
by_key-IsUpdated address line s default e keyed h =
    if_split (IsUpdated address) s.has_default (λ there. h)
      (λ free. record {
        phones =
            lines_of-last phone s.output (default_line address) default keyed.1
            ∙ append-nil (lines_of phone s.output)
            ∙ h.phones;
        defaults =
            lines_of-last default s.output (default_line address) default keyed.1
            ∙ ap (λ xs. xs ++ default_line address ∷ [])
                (h.defaults ∙ ap (λ b. if b then default_line address ∷ [] else []) free);
      })
by_key-IsUpdated address line s other e keyed h = record {
  phones =
      lines_of-last phone s.output line other e ∙ append-nil (lines_of phone s.output) ∙ h.phones;
  defaults =
      lines_of-last default s.output line other e
      ∙ append-nil (lines_of default s.output)
      ∙ h.defaults;
}

-- A line of neither key is kept.
by_key-others :
    (address line : Text) (s : Lines) (k : Key)
    → key_of line ≡ k
    → IsKeyed address
    → lines_of other (by_key address line s k).output
      ≡ lines_of other s.output ++ (if same_key other k then line ∷ [] else [])
unfolding IsKeyed
by_key-others address line s phone e keyed =
    if_both (λ (t : Lines). lines_of other t.output ≡ lines_of other s.output ++ []) s.has_phone
      (sym (append-nil (lines_of other s.output)))
      (lines_of-last other s.output (phone_line address) phone keyed.0)
by_key-others address line s default e keyed =
    if_both (λ (t : Lines). lines_of other t.output ≡ lines_of other s.output ++ []) s.has_default
      (sym (append-nil (lines_of other s.output)))
      (lines_of-last other s.output (default_line address) default keyed.1)
by_key-others address line s other e keyed = lines_of-last other s.output line other e

replace_lines-IsUpdated :
    (address : Text) (lines : List Text) (s : Lines)
    → IsKeyed address
    → IsUpdated address s
    → IsUpdated address (replace_lines address lines s)
unfolding replace_lines
replace_lines-IsUpdated address [] s keyed h = h
replace_lines-IsUpdated address (line ∷ lines) s keyed h =
    replace_lines-IsUpdated address lines (by_key address line s (key_of line)) keyed
      (by_key-IsUpdated address line s (key_of line) refl keyed h)

replace_lines-others :
    (address : Text) (lines : List Text) (s : Lines)
    → IsKeyed address
    → lines_of other (replace_lines address lines s).output
      ≡ lines_of other s.output ++ lines_of other lines
unfolding replace_lines lines_of
replace_lines-others address [] s keyed = sym (append-nil (lines_of other s.output))
replace_lines-others address (line ∷ lines) s keyed =
    replace_lines-others address lines (by_key address line s (key_of line)) keyed
    ∙ ap (λ xs. xs ++ lines_of other lines) (by_key-others address line s (key_of line) refl keyed)
    ∙ append_assoc (lines_of other s.output)
        (if same_key other (key_of line) then line ∷ [] else []) (lines_of other lines)
    ∙ ap (λ xs. lines_of other s.output ++ xs) (joined (same_key other (key_of line)))
  where
    joined :
        (test : Bool)
        → (if test then line ∷ [] else []) ++ lines_of other lines
          ≡ (if test then line ∷ lines_of other lines else lines_of other lines)
    joined true = refl
    joined false = refl

pub blank-other : key_of [] ≡ other
unfolding key_of strip lstrip starts_with
blank-other = refl

nothing-IsUpdated :
    (address : Text)
    → IsUpdated address (record { output = []; has_phone = false; has_default = false })
unfolding lines_of
nothing-IsUpdated address = record { phones = refl; defaults = refl }

nothing-others :
    (address : Text) (lines : List Text)
    → IsKeyed address
    → lines_of other
        (replace_lines address lines
          (record { output = []; has_phone = false; has_default = false })).output
      ≡ lines_of other lines
unfolding lines_of
nothing-others address lines keyed =
    replace_lines-others address lines
      (record { output = []; has_phone = false; has_default = false }) keyed

-- What is added for the keys that were not there.
missing-lines :
    (address : Text) (has_phone has_default : Bool)
    → IsKeyed address
    → (lines_of phone (missing address has_phone has_default)
        ≡ (if has_phone then [] else phone_line address ∷ []))
      × (lines_of default (missing address has_phone has_default)
          ≡ (if has_default then [] else default_line address ∷ []))
      × (lines_of other (missing address has_phone has_default)
          ≡ (if has_phone && has_default then [] else [] ∷ []))
unfolding IsKeyed lines_of
missing-lines address true true keyed = (refl, refl, refl)
missing-lines address true false keyed = rw (keyed.1, blank-other) (refl, refl, refl)
missing-lines address false true keyed = rw (keyed.0, blank-other) (refl, refl, refl)
missing-lines address false false keyed = rw (keyed.0, keyed.1, blank-other) (refl, refl, refl)

either-line :
    (test : Bool) (line : Text)
    → (if test then line ∷ [] else []) ++ (if test then [] else line ∷ []) ≡ line ∷ []
either-line true line = refl
either-line false line = refl

-- With a valid address, the lines set each of the two keys on one line, to that address, and keep all
-- other lines in their order, with at most an empty line behind them.
pub set_phone-lines :
    (value address : Text) (lines : List Text)
    → validate_mac value ≡ ok address
    → (lines_of phone (set_phone address lines) ≡ phone_line address ∷ [])
      × (lines_of default (set_phone address lines) ≡ default_line address ∷ [])
      × ((lines_of other (set_phone address lines) ≡ lines_of other lines)
          ⊎ (lines_of other (set_phone address lines) ≡ lines_of other lines ++ [] ∷ []))
unfolding set_phone
set_phone-lines value address lines valid =
    let added = missing-lines address s.has_phone s.has_default keyed in
    (
      lines_of-append phone s.output more
          ∙ ap (λ xs. xs ++ lines_of phone more) h.phones
          ∙ ap (λ xs. (if s.has_phone then phone_line address ∷ [] else []) ++ xs) added.0
          ∙ either-line s.has_phone (phone_line address),
      lines_of-append default s.output more
          ∙ ap (λ xs. xs ++ lines_of default more) h.defaults
          ∙ ap (λ xs. (if s.has_default then default_line address ∷ [] else []) ++ xs) added.1
          ∙ either-line s.has_default (default_line address),
      by_test (s.has_phone && s.has_default)
          (others ∙ ap (λ xs. lines_of other lines ++ xs) added.2),
    )
  where
    keyed : IsKeyed address
    keyed = address-IsKeyed value address valid

    s : Lines
    s = replace_lines address lines (record { output = []; has_phone = false; has_default = false })

    more : List Text
    more = missing address s.has_phone s.has_default

    h : IsUpdated address s
    h = replace_lines-IsUpdated address lines _ keyed (nothing-IsUpdated address)

    others : lines_of other (s.output ++ more) ≡ lines_of other lines ++ lines_of other more
    others =
        lines_of-append other s.output more
        ∙ ap (λ xs. xs ++ lines_of other more) (nothing-others address lines keyed)

    by_test :
        (test : Bool)
        → lines_of other (s.output ++ more) ≡ lines_of other lines ++ (if test then [] else [] ∷ [])
        → (lines_of other (s.output ++ more) ≡ lines_of other lines)
          ⊎ (lines_of other (s.output ++ more) ≡ lines_of other lines ++ [] ∷ [])
    by_test true e = inl (e ∙ append-nil (lines_of other lines))
    by_test false e = inr e
