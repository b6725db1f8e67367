-- ===== src/Callbacks/Steps/Window.antt =====
-- When a callback of src/hfp_mcp/callbacks.py may be claimed.
use hermes_phone_hfp.Prelude.{
  ℕ, ◌+◌, Bool, false, ◌&&◌, Option, none, some, List, leb, All, ◌≡◌, refl, arith, ap,
}
use mathlib.Core.Path.{subst, sym}
use hermes_phone_hfp.Prelude.Text.{Text, text_eq, text_eq→eq}
use hermes_phone_hfp.Callbacks.{Row, Db, update_where, has_id, with_callbacks}
use hermes_phone_hfp.Callbacks.Schedule.{
  claim, claim_due, claimed, missed, first_due, is_scheduled, firing_window,
}
use hermes_phone_hfp.Callbacks.Steps.Rows.{All-changed, find-All, first_due-All, All-Unit}

-- A row with this id that is scheduled, due, and not later than its five minutes.
abbrev pub may_fire : Text → ℕ → ℕ → Row → Bool
may_fire id first_now due_now r =
    has_id id r
    && (is_scheduled r && (leb r.run_at due_now && leb first_now (r.run_at + firing_window)))

abbrev is_due : Text → ℕ → Row → Bool
is_due id due_now r = has_id id r && (is_scheduled r && leb r.run_at due_now)

missed-not_due :
    (id : Text) (first_now due_now : ℕ) (rows : List Row)
    → All (λ r. may_fire id first_now due_now r ≡ false) rows
    → All (λ r. is_due id due_now r ≡ false) (missed first_now rows)
missed-not_due id first_now due_now rows =
    All-changed (λ r. may_fire id first_now due_now r ≡ false) (λ r. is_due id due_now r ≡ false) _
      _ rows (λ r t h. ground arith) (λ r t h. ground (arith, t, h))

found_elsewhere :
    (id : Text) (first_now due_now stamp : ℕ) (db : Db) (r : Row)
    → All (λ s. may_fire id first_now due_now s ≡ false) db.callbacks
    → (due : Option Row) → first_due due_now (missed first_now db.callbacks) ≡ due
    → (claimed stamp (with_callbacks (missed first_now db.callbacks) db) due).0 ≡ some r
    → text_eq r.id id ≡ false
found_elsewhere id first_now due_now stamp db r outside none first e = absurd (ground (arith, e))
found_elsewhere id first_now due_now stamp db r outside (some due) first e =
    let here : r.id ≡ due.id =
      text_eq→eq _ _
        (find-All (λ _. Unit {0}) (has_id due.id)
          (update_where (has_id due.id) (claim stamp) (missed first_now db.callbacks)) r e
          (All-Unit _)).1 in
    let there =
      first_due-All (λ s. is_due id due_now s ≡ false) due_now (missed first_now db.callbacks) due
        first (missed-not_due id first_now due_now db.callbacks outside) in
    subst (λ t. text_eq t id ≡ false) (sym here) (ground (arith, there.0, there.1, there.2))

-- A callback is claimed only while it is scheduled and due, and within five minutes of its time: where
-- none of the rows with its id is, the callback that is claimed, if any, is another.
pub claimed_in_window :
    (id : Text) (first_now due_now stamp : ℕ) (db db' : Db) (r : Row)
    → All (λ s. may_fire id first_now due_now s ≡ false) db.callbacks
    → claim_due first_now due_now stamp db ≡ (some r, db')
    → text_eq r.id id ≡ false
unfolding claim_due
claimed_in_window id first_now due_now stamp db db' r outside done =
    found_elsewhere id first_now due_now stamp db r outside
      (first_due due_now (missed first_now db.callbacks)) refl (ap (λ p. p.0) done)
