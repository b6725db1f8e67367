-- ===== src/Callbacks/Schedule.antt =====
-- The transactions of `CallbackScheduler` in src/hfp_mcp/callbacks.py that place a callback, give it
-- up, fire it and end it.
use hermes_phone_hfp.Prelude.{
  ℕ, suc, ◌+◌, String, Bool, true, false, not, ◌&&◌, ◌||◌, Option, none, some, List, [], ◌∷◌, ◌++◌,
  leb, ltb, ◌==◌, is_none, length, take, any, if◌then◌else◌,
}
use hermes_phone_hfp.Prelude.Text.{Text, codes, text_eq}
use hermes_phone_hfp.Prelude.Dict.{option_eq, text_equality}
use hermes_phone_hfp.Prelude.Result.{Result, ok, err}
use hermes_phone_hfp.Contracts.Validate.{
  ContractError, validate_request_id, validate_call_purpose, normalize_phone_number,
}
use hermes_phone_hfp.Callbacks
use hermes_phone_hfp.Callbacks.{
  Status, ChangeStatus, Row, Change, View, Operation, Db, CallbackError, invalid_value,
  unknown_callback, request_id_reused, out_of_range, not_cancelled, same_status, update_where,
  has_id, view, with_callbacks,
}

-- A year and a day, and five minutes, in microseconds.
abbrev pub horizon : ℕ
horizon = 31622400000000

abbrev pub firing_window : ℕ
firing_window = 300000000

-- `now < run_at <= now + 366 * 86400`
abbrev pub in_horizon : ℕ → ℕ → Bool
in_horizon now run_at = ltb now run_at && leb run_at (now + horizon)

abbrev pub is_scheduled : Row → Bool
is_scheduled r = same_status r.status Status.scheduled

-- What `__init__` does to the rows of a daemon that stopped while it fired.
unfoldable pub restart : ℕ → Db → Db
restart now db =
    with_callbacks
      (update_where (λ r. same_status r.status Status.firing)
        (λ r. record r {
          status = Status.uncertain;
          error = some (
              codes
                "Daemon restarted while the callback was being fired; call outcome is uncertain.");
          updated_at = now;
        })
        db.callbacks)
      db

abbrev pub same_request : Row → Row → Bool
same_request old row =
    text_eq old.number row.number && (text_eq old.purpose row.purpose && old.run_at == row.run_at)

abbrev pub new_row : Text → Text → Text → ℕ → ℕ → Row
new_row request_id number purpose run_at now = record {
  id = codes "cb-" ++ request_id;
  request_id = request_id;
  number = number;
  purpose = purpose;
  run_at = run_at;
  status = Status.scheduled;
  result = none;
  error = none;
  created_at = now;
  updated_at = now;
  reminder_job_id = none;
  revision = 0;
  reminder_attempted = false;
}

abbrev pub placed : ℕ → Row → Db → Option Row → Result CallbackError View × Db
placed now row db (some old) =
    if same_request old row
    then (ok (record { row = old; schedule_change = none }), db)
    else (err request_id_reused, db)
placed now row db none =
    if not (in_horizon now row.run_at)
    then (err out_of_range, db)
    else (let after = with_callbacks (db.callbacks ++ row ∷ []) db in (ok (view after row), after))

abbrev pub scheduled_as : ℕ → ℕ → Db → Text → Option Text → Text → Result CallbackError View × Db
scheduled_as now run_at db request_id none purpose = (err invalid_value, db)
scheduled_as now run_at db request_id (some number) [] = (err invalid_value, db)
scheduled_as now run_at db request_id (some number) (c ∷ purpose) =
    placed now (new_row request_id number (c ∷ purpose) run_at now) db
      (Callbacks.find (λ r. text_eq r.request_id request_id) db.callbacks)

-- `schedule`, on the library that parses phone numbers and the region.
module _ (phonenumbers : Text → String → Option Text) (region : String) where
  abbrev pub checked_schedule :
      ℕ
      → Text
      → ℕ
      → Db
      → Result ContractError Text
      → Result ContractError Text
      → Result CallbackError View × Db
  checked_schedule now number run_at db (err _) purpose = (err invalid_value, db)
  checked_schedule now number run_at db (ok id) (err _) = (err invalid_value, db)
  checked_schedule now number run_at db (ok id) (ok purpose) =
      scheduled_as now run_at db id (normalize_phone_number phonenumbers region number) purpose

  unfoldable pub schedule : ℕ → Text → Text → Text → ℕ → Db → Result CallbackError View × Db
  schedule now request_id number purpose run_at db =
      checked_schedule now number run_at db (validate_request_id request_id)
        (validate_call_purpose purpose)

abbrev pub after_cancel : Db → Option Row → Result CallbackError View
after_cancel db none = err unknown_callback
after_cancel db (some r) =
    if same_status r.status Status.cancelled
    then ok (record { row = r; schedule_change = none })
    else err not_cancelled

abbrev pub committed : Db → Result CallbackError View × Db → Result CallbackError View × Db
committed before (ok v, db) = (ok v, db)
committed before (err e, db) = (err e, before)

unfoldable pub cancel : ℕ → Text → Db → Result CallbackError View × Db
cancel now id db =
    let rows =
      update_where (λ r. has_id id r && is_scheduled r)
        (λ r. record r { status = Status.cancelled; revision = suc r.revision; updated_at = now })
        db.callbacks in
    let after = with_callbacks rows db in
    committed db (after_cancel after (Callbacks.find (has_id id) rows), after)

abbrev pub may_link : Text → Text → Row → Bool
may_link id job r =
    has_id id r
    && (is_scheduled r && (is_none r.reminder_job_id || option_eq r.reminder_job_id (some job)))

unfoldable pub link_reminder : Text → Text → Db → Result CallbackError (Unit {0}) × Db
link_reminder id job db =
    if length job == 0 || ltb 200 (length job)
    then (err invalid_value, db)
    else (if any (may_link id job) db.callbacks
        then (
          ok tt,
          with_callbacks
              (update_where (may_link id job)
                (λ r. record r {
                  revision = if is_none r.reminder_job_id then suc r.revision else r.revision;
                  reminder_job_id = some job;
                })
                db.callbacks)
              db,
        )
        else (err unknown_callback, db))

abbrev pub may_claim : Text → Row → Bool
may_claim id r =
    has_id id r && (is_scheduled r && (is_none r.reminder_job_id && not r.reminder_attempted))

unfoldable pub claim_reminder : Text → Db → Bool × Db
claim_reminder id db = (
  any (may_claim id) db.callbacks,
  with_callbacks
      (update_where (may_claim id) (λ r. record r { reminder_attempted = true }) db.callbacks) db,
)

-- `ORDER BY run_at, created_at`
abbrev pub before : Row → Row → Bool
before a b = ltb a.run_at b.run_at || (a.run_at == b.run_at && leb a.created_at b.created_at)

abbrev pub earlier : Row → Option Row → Option Row
earlier r none = some r
earlier r (some s) = if before r s then some r else some s

unfoldable pub first_due : ℕ → List Row → Option Row
first_due now [] = none
first_due now (r ∷ rs) =
    let rest = first_due now rs in
    if is_scheduled r && leb r.run_at now then earlier r rest else rest

-- The rows after those that missed their window failed.
abbrev pub missed : ℕ → List Row → List Row
missed now =
    update_where (λ r. is_scheduled r && ltb (r.run_at + firing_window) now)
      (λ r. record r {
        status = Status.failed;
        error = some (codes "Callback missed its five-minute firing window; no call was placed.");
        updated_at = now;
      })

abbrev pub claim : ℕ → Row → Row
claim now r = record r { status = Status.firing; revision = suc r.revision; updated_at = now }

abbrev pub claimed : ℕ → Db → Option Row → Option Row × Db
claimed now db none = (none, db)
claimed now db (some due) =
    let rows = update_where (has_id due.id) (claim now) db.callbacks in
    (Callbacks.find (has_id due.id) rows, with_callbacks rows db)

-- `_claim_due`, with its three readings of the clock.
unfoldable pub claim_due : ℕ → ℕ → ℕ → Db → Option Row × Db
claim_due first_now due_now stamp db =
    let rows = missed first_now db.callbacks in
    claimed stamp (with_callbacks rows db) (first_due due_now rows)

-- What `_fire` hands to `_finish` as its error: nothing, a message, or an exception with its text.
pub data FinishError : Type 0 where
  no_error : FinishError
  message : Text → FinishError
  exception : Text → FinishError

-- `str(error)[:2000] if error else None`: an empty message is false, an exception object never is.
abbrev cut_error : FinishError → Option Text
cut_error FinishError.no_error = none
cut_error (FinishError.message []) = none
cut_error (FinishError.message (c ∷ cs)) = some (take 2000 (c ∷ cs))
cut_error (FinishError.exception text) = some (take 2000 text)

-- `_finish`
unfoldable pub finish : ℕ → Text → Status → Option Text → FinishError → Db → Db
finish now id status result error db =
    with_callbacks
      (update_where (has_id id)
        (λ r. record r {
          status = status;
          result = result;
          error = cut_error error;
          updated_at = now;
        })
        db.callbacks)
      db

-- How the task of `_fire` ends: the call reported success, it reported something else, it raised, or
-- the task was cancelled with the outcome open.
pub data Outcome : Type 0 where
  reported : Text → Outcome
  refused : Option Text → Option Text → Outcome
  raised : Text → Outcome
  stopped : Outcome

abbrev or_default : Option Text → FinishError
or_default none = FinishError.message (codes "Call did not report success")
or_default (some []) = FinishError.message (codes "Call did not report success")
or_default (some (c ∷ cs)) = FinishError.message (c ∷ cs)

-- `_fire`, behind its call.
unfoldable pub end_fire : ℕ → Text → Outcome → Db → Db
end_fire now id (reported result) =
    finish now id Status.completed (some result) FinishError.no_error
end_fire now id (refused result error) = finish now id Status.failed result (or_default error)
end_fire now id (raised error) = finish now id Status.failed none (FinishError.exception error)
end_fire now id stopped =
    finish now id Status.uncertain none
      (FinishError.message (codes "Callback worker stopped while the call outcome was uncertain."))
