-- ===== src/Tests/Callbacks.antt =====
-- The callbacks of src/hfp_mcp/callbacks.py: one that is placed, moved, called and ended.
use hermes_phone_hfp.Prelude.{String, false, Option, none, some, List, [], ◌∷◌, ◌≡◌, refl, All}
use hermes_phone_hfp.Prelude.Text.{Text, codes, text_eq}
use hermes_phone_hfp.Prelude.Result.{ok, err}
use hermes_phone_hfp.Hfp.Line.{strip}
use hermes_phone_hfp.Contracts.Validate.{validate_request_id, is_identifier}
use hermes_phone_hfp.Callbacks
use hermes_phone_hfp.Callbacks.{Db, Row, View, Status, conflict}
use hermes_phone_hfp.Callbacks.Schedule.{claim_due, first_due, new_row}
use hermes_phone_hfp.Callbacks.Reschedule.{begin_reschedule, held}
use hermes_phone_hfp.Callbacks.Steps.{Op, empty_world, run}
use hermes_phone_hfp.Callbacks.Steps.Tracked.{IsDistinct}
use hermes_phone_hfp.Callbacks.Steps.FiredOnce.{fired_once}
use hermes_phone_hfp.Callbacks.Steps.Held.{IsFresh, held_refuses}
use hermes_phone_hfp.Callbacks.Steps.Window.{may_fire, claimed_in_window}

abbrev phonenumbers : Text → String → Option Text
phonenumbers number region = some number

abbrev busy_day : List Op
busy_day =
    Op.schedule 1000 (codes "r1") (codes "+15550100") (codes "news") 5000
    ∷ Op.claim_due 2000 2000 2000
    ∷ Op.claim_due 6000 6000 6000
    ∷ Op.restart 7000
    ∷ Op.claim_due 8000 8000 8000
    ∷ []

fired_once_example : IsDistinct (run phonenumbers "IN" busy_day empty_world).fired
fired_once_example = fired_once phonenumbers "IN" busy_day

abbrev due_row : Row
due_row = new_row (codes "r1") (codes "+15550100") (codes "news") 5000 1000

abbrev due_db : Db
due_db = record { callbacks = due_row ∷ []; operations = [] }

abbrev moved : Db
moved = held (codes "k1") (codes "cb-r1") 0 9000 2000 due_row due_db

abbrev moved_view : View
moved_view = record {
  row = record due_row { status = Status.rescheduling; revision = 1; updated_at = 2000 };
  schedule_change = some (record {
    request_id = codes "k1";
    requested_run_at = 9000;
    previous_run_at = 5000;
    status = Callbacks.pending;
    reminder_run_at = none;
    error = none;
  });
}

moved_first :
    begin_reschedule 2000 (codes "cb-r1") (codes "k1") 0 9000 due_db ≡ (ok moved_view, moved)
unfolding begin_reschedule Callbacks.find Callbacks.update_where Callbacks.get
    Callbacks.last_operation validate_request_id is_identifier strip text_eq
moved_first = refl

valid_first : validate_request_id (codes "k1") ≡ ok (codes "k1")
unfolding validate_request_id is_identifier strip
valid_first = refl

valid_other : validate_request_id (codes "k2") ≡ ok (codes "k2")
unfolding validate_request_id is_identifier strip
valid_other = refl

apart : text_eq (codes "k1") (codes "k2") ≡ false
unfolding text_eq
apart = refl

free : (key : Text) → IsFresh key due_db
unfolding Callbacks.find
free key = refl

held_refuses_example :
    begin_reschedule 3000 (codes "cb-r1") (codes "k2") 0 8000 moved ≡ (err conflict, moved)
held_refuses_example =
    held_refuses 2000 3000 (codes "cb-r1") (codes "k1") (codes "k2") (codes "k1") (codes "k2") 0 0
      9000 8000 due_db moved moved_view valid_first valid_other (free (codes "k1"))
      (free (codes "k2")) apart moved_first

-- A second callback, which is not due yet.
abbrev later_row : Row
later_row = new_row (codes "r2") (codes "+15550100") (codes "news") 90000 1000

abbrev two_rows : Db
two_rows = record { callbacks = due_row ∷ later_row ∷ []; operations = [] }

abbrev fired_row : Row
fired_row = record due_row { status = Status.firing; revision = 1; updated_at = 6000 }

abbrev one_fired : Db
one_fired = record { callbacks = fired_row ∷ later_row ∷ []; operations = [] }

later_outside : All (λ r. may_fire (codes "cb-r2") 6000 6000 r ≡ false) two_rows.callbacks
unfolding text_eq
later_outside = (refl, (refl, tt))

fired_first : claim_due 6000 6000 6000 two_rows ≡ (some fired_row, one_fired)
unfolding claim_due Callbacks.find Callbacks.update_where first_due text_eq
fired_first = refl

claimed_in_window_example : text_eq (codes "cb-r1") (codes "cb-r2") ≡ false
claimed_in_window_example =
    claimed_in_window (codes "cb-r2") 6000 6000 6000 two_rows one_fired fired_row later_outside
      fired_first
