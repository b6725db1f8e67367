-- ===== src/Callbacks/Steps/Rows.antt =====
-- What the statements on `phone_callbacks` in src/hfp_mcp/callbacks.py keep of a list of rows.
use hermes_phone_hfp.Prelude.{
  ℕ, ◌≤◌, Bool, true, false, ◌&&◌, Option, none, some, List, [], ◌∷◌, leb, any, All, ◌≡◌, refl,
  arith, Bool-cases, inl, inr,
}
use mathlib.Core.Path.{subst, sym}
use hermes_phone_hfp.Prelude.Text.{Text, text_eq, text_eq_refl}
use hermes_phone_hfp.Callbacks
use hermes_phone_hfp.Callbacks.{Status, Row, update_where, has_id}
use hermes_phone_hfp.Callbacks.Schedule.{first_due, is_scheduled, earlier, before}

module _ {A : Type 0} where
  pub All-update_where {κ} :
      (P : A → Type κ) (p : A → Bool) (f : A → A) (rows : List A)
      → ((r : A) → p r ≡ true → P r → P (f r))
      → All P rows
      → All P (update_where p f rows)
  unfolding update_where
  All-update_where P p f [] keep h = tt
  All-update_where P p f (r ∷ rs) keep h = elim (Bool-cases (p r)) [
    | inl e ↦ rw e (keep r e h.0, All-update_where P p f rs keep h.1)
    | inr e ↦ rw e (h.0, All-update_where P p f rs keep h.1)
  ]

  -- A statement turns what held of the rows into something else.
  pub All-changed {κ} :
      (P Q : A → Type κ) (p : A → Bool) (f : A → A) (rows : List A)
      → ((r : A) → p r ≡ true → P r → Q (f r))
      → ((r : A) → p r ≡ false → P r → Q r)
      → All P rows
      → All Q (update_where p f rows)
  unfolding update_where
  All-changed P Q p f [] changed left h = tt
  All-changed P Q p f (r ∷ rs) changed left h = elim (Bool-cases (p r)) [
    | inl e ↦ rw e (changed r e h.0, All-changed P Q p f rs changed left h.1)
    | inr e ↦ rw e (left r e h.0, All-changed P Q p f rs changed left h.1)
  ]

  pub find-All {κ} :
      (P : A → Type κ) (p : A → Bool) (rows : List A) (r : A)
      → Callbacks.find p rows ≡ some r
      → All P rows
      → P r × (p r ≡ true)
  unfolding Callbacks.find
  find-All P p [] r e h = absurd (ground (arith, e))
  find-All P p (s ∷ rs) r e h = elim (Bool-cases (p s)) [
    | inl t ↦
        let same : s ≡ r = ground (arith, (rw t at e)) in
        (subst P same h.0, subst (λ x. p x ≡ true) same t)
    | inr t ↦ find-All P p rs r (rw t at e) h.1
  ]

  pub any-of-find :
      (p : A → Bool) (rows : List A) → Callbacks.find p rows ≡ none → any p rows ≡ false
  unfolding Callbacks.find
  any-of-find p [] e = refl
  any-of-find p (r ∷ rs) e = ground (arith, any-of-find p rs)

-- A statement that leaves the ids alone changes nothing about which ids there are.
pub any-update_where :
    (id : Text) (p : Row → Bool) (f : Row → Row) (rows : List Row)
    → ((r : Row) → (f r).id ≡ r.id)
    → any (has_id id) (update_where p f rows) ≡ any (has_id id) rows
unfolding update_where
any-update_where id p f [] keep = refl
any-update_where id p f (r ∷ rs) keep = ground (arith, keep r, any-update_where id p f rs keep)

-- Of two rows the earlier one is one of them.
earlier-holds {κ} :
    (Q : Row → Type κ) (s r : Row) (rest : Option Row)
    → Q s
    → ((x : Row) → rest ≡ some x → Q x)
    → earlier s rest ≡ some r
    → Q r
earlier-holds Q s r none first others e = subst Q (ground (arith, e)) first
earlier-holds Q s r (some x) first others e = elim (Bool-cases (before s x)) [
  | inl t ↦ subst Q (ground (arith, (rw t at e))) first
  | inr t ↦ others r (rw t at e)
]

-- The row that is claimed is one of the rows, scheduled and due.
pub first_due-All {κ} :
    (P : Row → Type κ) (now : ℕ) (rows : List Row) (r : Row)
    → first_due now rows ≡ some r
    → All P rows
    → P r × (is_scheduled r ≡ true) × (r.run_at ≤ now)
unfolding first_due
first_due-All P now [] r e h = absurd (ground (arith, e))
first_due-All P now (s ∷ rs) r e h = elim (Bool-cases (is_scheduled s && leb s.run_at now)) [
  | inl t ↦
      earlier-holds (λ x. P x × (is_scheduled x ≡ true) × (x.run_at ≤ now)) s r (first_due now rs)
        (h.0, ground (arith, t), ground (arith, t)) (λ x f. first_due-All P now rs x f h.1)
        (rw t at e)
  | inr t ↦ first_due-All P now rs r (rw t at e) h.1
]

-- Each row is among the rows.
IsPresent : List Row → Row → Type 0
IsPresent rows r = any (has_id r.id) rows ≡ true

IsPresent-more :
    (s : Row) (rows some_rows : List Row)
    → All (IsPresent rows) some_rows
    → All (IsPresent (s ∷ rows)) some_rows
unfolding IsPresent
IsPresent-more s rows [] h = tt
IsPresent-more s rows (r ∷ rs) h = (ground (arith, h.0), IsPresent-more s rows rs h.1)

all-IsPresent : (rows : List Row) → All (IsPresent rows) rows
unfolding IsPresent
all-IsPresent [] = tt
all-IsPresent (r ∷ rs) =
    (ground (arith, text_eq_refl r.id), IsPresent-more r rs rs (all-IsPresent rs))

pub first_due-present :
    (now : ℕ) (rows : List Row) (r : Row)
    → first_due now rows ≡ some r
    → any (has_id r.id) rows ≡ true
unfolding IsPresent
first_due-present now rows r e =
    (first_due-All (IsPresent rows) now rows r e (all-IsPresent rows)).0

updated_first :
    (id : Text) (f : Row → Row) (s r : Row) (rs : List Row)
    → ((x : Row) → (f x).id ≡ x.id)
    → text_eq s.id id ≡ true
    → s ≡ r
    → Callbacks.find (has_id id) (update_where (has_id id) f (s ∷ rs)) ≡ some (f r)
unfolding Callbacks.find update_where
updated_first id f s r rs keep mine same =
    let kept : text_eq (f s).id id ≡ true = subst (λ t. text_eq t id ≡ true) (sym (keep s)) mine in
    subst (λ x. Callbacks.find (has_id id) (update_where (has_id id) f (s ∷ rs)) ≡ some (f x)) same
      (ground (arith, mine, kept))

-- The first row with an id, behind a statement on all the rows with that id.
pub find-update_self :
    (id : Text) (f : Row → Row) (rows : List Row) (r : Row)
    → ((s : Row) → (f s).id ≡ s.id)
    → Callbacks.find (has_id id) rows ≡ some r
    → Callbacks.find (has_id id) (update_where (has_id id) f rows) ≡ some (f r)
unfolding Callbacks.find update_where
find-update_self id f [] r keep e = absurd (ground (arith, e))
find-update_self id f (s ∷ rs) r keep e = elim (Bool-cases (text_eq s.id id)) [
  | inl mine ↦ updated_first id f s r rs keep mine (ground (arith, (rw mine at e)))
  | inr other ↦ rw (other, other) (find-update_self id f rs r keep (rw other at e))
]

pub All-Unit : (rows : List Row) → All (λ _. Unit {0}) rows
All-Unit [] = tt
All-Unit (r ∷ rs) = (tt, All-Unit rs)
