-- ===== src/Enrollment/Environment/LinesOf.antt =====
-- The lines of a file of settings that set a key, for `set_phone_in_service_env` in src/hfp_mcp/enrollment.py.
use hermes_phone_hfp.Prelude.{
  Bool, true, false, not, ◌&&◌, List, [], ◌∷◌, ◌++◌, ◌==◌, all, if◌then◌else◌, ◌≡◌, refl, arith,
  if_split, All,
}
use hermes_phone_hfp.Prelude.Text.{Text, upper_char}
use hermes_phone_hfp.Hfp.Line.{is_space}
use hermes_phone_hfp.Contracts.Address.{IsPlain}
use hermes_phone_hfp.Enrollment.Environment.{Key, phone, default, other, key_of}

-- The lines that set a key, or neither.
abbrev pub same_key : Key → Key → Bool
same_key phone phone = true
same_key default default = true
same_key other other = true
same_key _ _ = false

unfoldable pub lines_of : Key → List Text → List Text
lines_of k [] = []
lines_of k (line ∷ lines) =
    let rest = lines_of k lines in if same_key k (key_of line) then line ∷ rest else rest

pub lines_of-append :
    (k : Key) (lines more : List Text)
    → lines_of k (lines ++ more) ≡ lines_of k lines ++ lines_of k more
unfolding lines_of
lines_of-append k [] more = refl
lines_of-append k (line ∷ lines) more =
    if_split
      (λ (xs : List Text).
        xs
        ≡ (if same_key k (key_of line) then line ∷ lines_of k lines else lines_of k lines)
          ++ lines_of k more)
      (same_key k (key_of line)) (λ yes. rw (yes, lines_of-append k lines more) refl)
      (λ no. rw (no, lines_of-append k lines more) refl)

pub IsPlain-text :
    (t : Text)
    → all (λ c. not (is_space c) && (upper_char c == c && not (c == 0xfb00))) t ≡ true
    → All IsPlain t
IsPlain-text [] h = tt
IsPlain-text (c ∷ t) h =
    ((ground (arith, h), ground (arith, h), ground (arith, h)), IsPlain-text t (ground (arith, h)))
