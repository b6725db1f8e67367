-- ===== src/Enrollment/Environment/Ends.antt =====
-- What `"\n".join(output).rstrip()` in src/hfp_mcp/enrollment.py leaves of the lines.
use hermes_phone_hfp.Prelude.{
  ℕ, Bool, true, false, List, [], ◌∷◌, ◌++◌, if◌then◌else◌, ◌≡◌, refl, ap, sym, ◌∙◌, Bool-cases,
  inl, inr,
}
use hermes_phone_hfp.Prelude.Text.{Text}
use hermes_phone_hfp.Hfp.Line.{is_space, lstrip, rstrip, strip, cons_unless_blank}
use hermes_phone_hfp.Enrollment.Environment.{join_lines}

abbrev pub cons_line : Text → List Text → List Text
cons_line line (next ∷ lines) = line ∷ next ∷ lines
cons_line [] [] = []
cons_line (c ∷ cs) [] = (c ∷ cs) ∷ []

abbrev pub kept_line : Text → List Text → Text
kept_line line [] = rstrip line
kept_line line (next ∷ lines) = line

-- The lines without the blank ones at the end, and without the blanks at the end of the last one.
unfoldable pub trim_end : List Text → List Text
trim_end [] = []
trim_end (line ∷ lines) = let rest = trim_end lines in cons_line (kept_line line rest) rest

-- `rstrip` of a text with another one behind it.
abbrev strip_behind : Text → Text → Text
strip_behind s [] = rstrip s
strip_behind s (c ∷ cs) = s ++ c ∷ cs

nil-strip_behind : (t : Text) → t ≡ strip_behind [] t
unfolding rstrip
nil-strip_behind [] = refl
nil-strip_behind (c ∷ cs) = refl

cons-strip_behind :
    (c : ℕ) (s t : Text) → cons_unless_blank c (strip_behind s t) ≡ strip_behind (c ∷ s) t
unfolding rstrip
cons-strip_behind c s [] = refl
cons-strip_behind c [] (d ∷ t) = refl
cons-strip_behind c (b ∷ s) (d ∷ t) = refl

rstrip-append : (s t : Text) → rstrip (s ++ t) ≡ strip_behind s (rstrip t)
unfolding rstrip
rstrip-append [] t = nil-strip_behind (rstrip t)
rstrip-append (c ∷ s) t =
    ap (cons_unless_blank c) (rstrip-append s t) ∙ cons-strip_behind c s (rstrip t)

-- No line, or a text that is not empty.
abbrev IsSolid : List Text → Type 0
IsSolid [] = Unit
IsSolid (line ∷ lines) = (c : ℕ) × (cs : Text) × (join_lines (line ∷ lines) ≡ c ∷ cs)

cons_line-IsSolid : (line : Text) (lines : List Text) → IsSolid (cons_line line lines)
unfolding join_lines
cons_line-IsSolid [] [] = tt
cons_line-IsSolid (c ∷ cs) [] = (c, cs, refl)
cons_line-IsSolid [] (next ∷ lines) = (10, _, refl)
cons_line-IsSolid (c ∷ cs) (next ∷ lines) = (c, _, refl)

trim_end-IsSolid : (lines : List Text) → IsSolid (trim_end lines)
unfolding trim_end
trim_end-IsSolid [] = tt
trim_end-IsSolid (line ∷ lines) =
    cons_line-IsSolid (kept_line line (trim_end lines)) (trim_end lines)

join-cons_line : (line : Text) → join_lines (cons_line line []) ≡ line
unfolding join_lines
join-cons_line [] = refl
join-cons_line (c ∷ cs) = refl

-- A newline in front of what is left is stripped with it.
join-strip_behind :
    (line : Text) (rest : List Text)
    → IsSolid rest
    → strip_behind line (cons_unless_blank 10 (join_lines rest))
      ≡ join_lines (cons_line (kept_line line rest) rest)
unfolding join_lines
join-strip_behind line [] solid = sym (join-cons_line (rstrip line))
join-strip_behind line (next ∷ lines) (c, cs, e) =
    ap (λ t. strip_behind line (cons_unless_blank 10 t)) e ∙ ap (λ t. line ++ 10 ∷ t) (sym e)

-- The text is that of the lines that are left.
pub rstrip-join_lines :
    (lines : List Text) → rstrip (join_lines lines) ≡ join_lines (trim_end lines)
unfolding rstrip join_lines trim_end
rstrip-join_lines [] = refl
rstrip-join_lines (line ∷ []) = sym (join-cons_line (rstrip line))
rstrip-join_lines (line ∷ next ∷ lines) =
    rstrip-append line (10 ∷ join_lines (next ∷ lines))
    ∙ ap (λ t. strip_behind line (cons_unless_blank 10 t)) (rstrip-join_lines (next ∷ lines))
    ∙ join-strip_behind line (trim_end (next ∷ lines)) (trim_end-IsSolid (next ∷ lines))

lstrip-blank : (c : ℕ) (t : Text) → is_space c ≡ true → lstrip (cons_unless_blank c t) ≡ lstrip t
unfolding lstrip
lstrip-blank c [] h = rw h refl
lstrip-blank c (d ∷ t) h = rw h refl

lstrip-shown :
    (c : ℕ) (t : Text) → is_space c ≡ false → lstrip (cons_unless_blank c t) ≡ cons_unless_blank c t
unfolding lstrip
lstrip-shown c [] h = rw (h, h) refl
lstrip-shown c (d ∷ t) h = rw h refl

lstrip-rstrip : (s : Text) → lstrip (rstrip s) ≡ rstrip (lstrip s)
unfolding lstrip rstrip
lstrip-rstrip [] = refl
lstrip-rstrip (c ∷ s) = elim (Bool-cases (is_space c)) [
  | inl blank ↦
      lstrip-blank c (rstrip s) blank
      ∙ lstrip-rstrip s
      ∙ ap (λ (b : Bool). rstrip (if b then lstrip s else c ∷ s)) (sym blank)
  | inr shown ↦
      lstrip-shown c (rstrip s) shown
      ∙ ap (λ (b : Bool). rstrip (if b then lstrip s else c ∷ s)) (sym shown)
]

rstrip-cons : (c : ℕ) (t : Text) → rstrip (cons_unless_blank c t) ≡ cons_unless_blank c (rstrip t)
unfolding rstrip
rstrip-cons c [] = elim (Bool-cases (is_space c)) [
  | inl blank ↦ rw blank refl
  | inr shown ↦ rw (shown, shown) refl
]
rstrip-cons c (d ∷ t) = refl

pub rstrip-again : (s : Text) → rstrip (rstrip s) ≡ rstrip s
unfolding rstrip
rstrip-again [] = refl
rstrip-again (c ∷ s) = rstrip-cons c (rstrip s) ∙ ap (cons_unless_blank c) (rstrip-again s)

pub strip-rstrip : (s : Text) → strip (rstrip s) ≡ strip s
unfolding strip
strip-rstrip s = ap rstrip (lstrip-rstrip s) ∙ rstrip-again (lstrip s)
