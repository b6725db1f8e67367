-- ===== src/Callbacks/Reschedule.antt =====
-- The change of a callback's time in src/hfp_mcp/callbacks.py: a durable operation holds the callback
-- until the reminder that belongs to it is known to have moved too.
use hermes_phone_hfp.Prelude.{
  ℕ, suc, ◌+◌, Bool, true, false, not, ◌&&◌, ◌||◌, Option, none, some, List, [], ◌∷◌, ◌++◌, leb,
  ◌==◌, is_none, if◌then◌else◌,
}
use hermes_phone_hfp.Prelude.Text.{Text, codes, text_eq}
use hermes_phone_hfp.Prelude.Result.{Result, ok, err}
use hermes_phone_hfp.Contracts.Validate.{ContractError, validate_request_id}
use hermes_phone_hfp.Callbacks
use hermes_phone_hfp.Callbacks.{
  Status, ChangeStatus, Row, Change, View, Operation, Db, CallbackError, invalid_value,
  unknown_callback, request_id_reused, out_of_range, conflict, same_status, update_where, has_id,
  view, with_callbacks,
}
use hermes_phone_hfp.Callbacks.Schedule.{in_horizon, is_scheduled}

abbrev pub has_request : Text → Operation → Bool
has_request id o = text_eq o.change.request_id id

-- An operation that is there is answered again, if it asked for the same.
abbrev replayed : Text → ℕ → ℕ → Db → Operation → Result CallbackError View
replayed id expected run_at db o =
    if not (
      text_eq o.callback_id id
      && (o.expected_revision == expected && o.change.requested_run_at == run_at))
    then err request_id_reused
    else elim o.response [
      | some v ↦ ok v
      | none ↦ elim (Callbacks.get id db) [ none ↦ err unknown_callback | some v ↦ ok v ]
    ]

abbrev pub new_operation : Text → Text → ℕ → ℕ → ℕ → Row → Operation
new_operation request_id id expected run_at now r = record {
  change = record {
    request_id = request_id;
    requested_run_at = run_at;
    previous_run_at = r.run_at;
    status = ChangeStatus.pending;
    reminder_run_at = none;
    error = none;
  };
  callback_id = id;
  expected_revision = expected;
  updated_at = now;
  response = none;
}

-- The tables with the callback held.
abbrev pub held : Text → Text → ℕ → ℕ → ℕ → Row → Db → Db
held request_id id expected run_at now r db = record {
  callbacks =
      update_where (has_id id)
        (λ s. record s {
          status = Status.rescheduling;
          revision = suc s.revision;
          updated_at = now;
        })
        db.callbacks;
  operations = db.operations ++ new_operation request_id id expected run_at now r ∷ [];
}

-- `return self.get(callback_id)`, at the end of the transaction.
abbrev pub shown : Db → Db → Option View → Result CallbackError View × Db
shown before after none = (err unknown_callback, before)
shown before after (some v) = (ok v, after)

-- Why the callback may not be moved: it is not as the caller saw it, or not scheduled; or its reminder
-- may have been created without being linked.
abbrev pub has_changed : ℕ → Row → Bool
has_changed expected r = not (r.revision == expected) || not (is_scheduled r)

abbrev pub is_unresolved : Row → Bool
is_unresolved r = r.reminder_attempted && is_none r.reminder_job_id

abbrev pub begun : Text → Text → ℕ → ℕ → ℕ → Db → Option Row → Result CallbackError View × Db
begun request_id id expected run_at now db none = (err unknown_callback, db)
begun request_id id expected run_at now db (some r) =
    if has_changed expected r
    then (err conflict, db)
    else (if is_unresolved r
        then (err conflict, db)
        else (if not (in_horizon now run_at)
            then (err out_of_range, db)
            else (let after = held request_id id expected run_at now r db in
                shown db after (Callbacks.get id after))))

abbrev pub asked : Text → Text → ℕ → ℕ → ℕ → Db → Option Operation → Result CallbackError View × Db
asked request_id id expected run_at now db (some o) = (replayed id expected run_at db o, db)
asked request_id id expected run_at now db none =
    begun request_id id expected run_at now db (Callbacks.find (has_id id) db.callbacks)

abbrev pub valid_request :
    ℕ → Text → ℕ → ℕ → Db → Result ContractError Text → Result CallbackError View × Db
valid_request now id expected run_at db (err _) = (err invalid_value, db)
valid_request now id expected run_at db (ok key) =
    asked key id expected run_at now db (Callbacks.find (has_request key) db.operations)

-- `begin_reschedule`, with one reading of the clock.
unfoldable pub begin_reschedule : ℕ → Text → Text → ℕ → ℕ → Db → Result CallbackError View × Db
begin_reschedule now id request_id expected run_at db =
    valid_request now id expected run_at db (validate_request_id request_id)

-- What the reminder service says, or none where asking it raised an exception.
pub record Observed : Type 0 where
  pub verified : Bool
  pub run_at : Option ℕ
  pub missing : Bool
  pub write_failed : Bool
  pub error : Option Text

-- `same_instant`: within one microsecond.
unfoldable pub same_instant : Option ℕ → ℕ → Bool
same_instant none b = false
same_instant (some a) b = leb a (b + 1) && leb b (a + 1)

-- The state of the operation that follows, the reminder's time and the error.
abbrev pub Verdict : Type 0
Verdict = ChangeStatus × Option ℕ × Option Text

abbrev error_of : Option Text → Option Text
error_of none = some (codes "Reminder schedule could not be verified")
error_of (some e) = some e

unfoldable pub judge : Change → Option Observed → Verdict
unfolding same_instant
judge c none = (
  ChangeStatus.change_uncertain,
  none,
  some (codes "Reminder update outcome is unverified; callback remains held"),
)
judge c (some o) =
    if o.verified && (o.missing || same_instant o.run_at c.requested_run_at)
    then (ChangeStatus.applied, o.run_at, none)
    else if o.verified && (same_instant o.run_at c.previous_run_at && o.write_failed)
    then (ChangeStatus.change_failed, o.run_at, error_of o.error)
    else (ChangeStatus.partial, o.run_at, error_of o.error)

abbrev no_reminder : Option Observed
no_reminder =
    some (record {
      verified = true;
      run_at = none;
      missing = true;
      write_failed = false;
      error = none;
    })

abbrev pub observed_for : Row → Option Observed → Option Observed
observed_for r asked_service = if is_none r.reminder_job_id then no_reminder else asked_service

abbrev pub is_settled : ChangeStatus → Bool
is_settled ChangeStatus.applied = true
is_settled ChangeStatus.change_failed = true
is_settled _ = false

-- The time that a settled operation leaves the callback with.
abbrev pub effective : Change → ChangeStatus → ℕ
effective c ChangeStatus.applied = c.requested_run_at
effective c _ = c.previous_run_at

abbrev pub released : ℕ → Text → Change → Verdict → List Row → List Row
released now id c (status, reminder, error) rows =
    if is_settled status
    then update_where (λ r. has_id id r && same_status r.status Status.rescheduling)
        (λ r. record r {
          status = Status.scheduled;
          run_at = effective c status;
          error = error;
          revision = suc r.revision;
          updated_at = now;
        })
        rows
    else rows

abbrev pub judged : ℕ → Text → Verdict → List Operation → List Operation
judged now request_id (status, reminder, error) = update_where (has_request request_id) (λ o.
    record o {
      change = record o.change { status = status; reminder_run_at = reminder; error = error };
      updated_at = now;
    })

abbrev pub answered : Text → Text → ChangeStatus → Db → Db
answered id request_id status db =
    if is_settled status
    then record db {
      operations =
          update_where (has_request request_id) (λ o. record o { response = Callbacks.get id db })
            db.operations;
    }
    else db

abbrev pub settled : ℕ → Text → Change → Verdict → Db → Db
settled now id c v db = answered id c.request_id v.0 (record {
  callbacks = released now id c v db.callbacks;
  operations = judged now c.request_id v db.operations;
})

abbrev reconciled : ℕ → Option Observed → Db → Row → Option Change → Db
reconciled now asked_service db r none = db
reconciled now asked_service db r (some c) =
    if is_settled c.status
    then db
    else settled now r.id c (judge c (observed_for r asked_service)) db

abbrev reconciled_view :
    ℕ → Option Observed → Db → Option View → Result CallbackError (Unit {0}) × Db
reconciled_view now asked_service db none = (err unknown_callback, db)
reconciled_view now asked_service db (some v) =
    (ok tt, reconciled now asked_service db v.row v.schedule_change)

-- `reconcile`, on what asking the reminder service gave, where no other transaction comes while it
-- asks; `settled` is the transaction behind its wait.
unfoldable pub reconcile : ℕ → Text → Option Observed → Db → Result CallbackError (Unit {0}) × Db
unfolding judge
reconcile now id asked_service db = reconciled_view now asked_service db (Callbacks.get id db)
