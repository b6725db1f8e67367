-- ===== src/Callbacks/Steps/Kept.antt =====
-- Each transaction of src/hfp_mcp/callbacks.py keeps the tables consistent with the log of the
-- callbacks that were claimed.
pub mod Claimed
use hermes_phone_hfp.Prelude.{
  ℕ, suc, String, Bool, true, false, not, ◌&&◌, Option, none, some, List, [], ◌∷◌, ◌++◌, any, All,
  if◌then◌else◌, ◌≡◌, refl, arith, Bool-cases, if_both, inl, inr, is_none,
}
use hermes_phone_hfp.Prelude.Text.{Text, codes, text_eq, text_eq→eq}
use hermes_phone_hfp.Prelude.Result.{Result, ok, err}
use hermes_phone_hfp.Contracts.Validate.{
  ContractError, validate_request_id, validate_call_purpose, normalize_phone_number,
}
use hermes_phone_hfp.Callbacks
use hermes_phone_hfp.Callbacks.{
  Status, Row, Change, View, Operation, Db, CallbackError, update_where, has_id, with_callbacks,
  same_status,
}
use hermes_phone_hfp.Callbacks.Schedule
use hermes_phone_hfp.Callbacks.Schedule.{
  claim, committed, scheduled_as, placed, new_row, same_request, after_cancel, is_scheduled, missed,
  claimed, first_due, horizon, Outcome, FinishError,
}
use hermes_phone_hfp.Callbacks.Reschedule
use hermes_phone_hfp.Callbacks.Reschedule.{
  released, shown, valid_request, effective, has_changed, is_unresolved, asked, begun, has_request,
  held, Observed, judge, settled, Verdict, is_settled,
}
use hermes_phone_hfp.Callbacks.Steps.{World, called}
use hermes_phone_hfp.Callbacks.Steps.Rows.{find-All, first_due-All, first_due-present, All-Unit}
use hermes_phone_hfp.Callbacks.Steps.Tracked.{
  is_spent, IsTracked, IsConsistent, IsHarmless, update-IsConsistent, insert-IsConsistent,
  claim-IsConsistent,
}

-- The tables and the log of a world are consistent.
abbrev pub WorldIsConsistent : World → Type 0
WorldIsConsistent w = IsConsistent w.db.callbacks w.fired

pub restart-IsConsistent :
    (now : ℕ) (db : Db) (fired : List Text)
    → IsConsistent db.callbacks fired
    → IsConsistent (Schedule.restart now db).callbacks fired
unfolding Schedule.restart
restart-IsConsistent now db fired =
    update-IsConsistent _ _ db.callbacks fired
      (record { same_id = λ r. refl; same_request = λ r. refl; stays_spent = λ r t u s. refl })

-- A statement on scheduled rows only, that keeps the ids.
scheduled-IsHarmless :
    (fired : List Text) (q : Row → Bool) (f : Row → Row)
    → ((r : Row) → (f r).id ≡ r.id)
    → ((r : Row) → (f r).request_id ≡ r.request_id)
    → ((r : Row) → q r ≡ true → is_scheduled r ≡ true)
    → IsHarmless fired q f
scheduled-IsHarmless fired q f ids requests only = record {
  same_id = ids;
  same_request = requests;
  stays_spent = λ r t u s. absurd (ground (arith, only r t, s));
}

committed-holds :
    (P : Db → Type 0) (before after : Db) (m : Result CallbackError View)
    → P before
    → P after
    → P (committed before (m, after)).1
committed-holds P before after (ok v) h k = k
committed-holds P before after (err e) h k = h

pub cancel-IsConsistent :
    (now : ℕ) (id : Text) (db : Db) (fired : List Text)
    → IsConsistent db.callbacks fired
    → IsConsistent (Schedule.cancel now id db).1.callbacks fired
unfolding Schedule.cancel
cancel-IsConsistent now id db fired h =
    committed-holds (λ d. IsConsistent d.callbacks fired) db _ _ h
      (update-IsConsistent _ _ db.callbacks fired
        (scheduled-IsHarmless fired _ _ (λ r. refl) (λ r. refl) (λ r t. ground (arith, t))) h)

pub link-IsConsistent :
    (id job : Text) (db : Db) (fired : List Text)
    → IsConsistent db.callbacks fired
    → IsConsistent (Schedule.link_reminder id job db).1.callbacks fired
unfolding Schedule.link_reminder
link-IsConsistent id job db fired h =
    let linked =
      update-IsConsistent _ _ db.callbacks fired
        (scheduled-IsHarmless fired (Schedule.may_link id job)
          (λ r. record r {
            revision = if is_none r.reminder_job_id then suc r.revision else r.revision;
            reminder_job_id = some job;
          })
          (λ r. refl) (λ r. refl) (λ r t. ground (arith, t)))
        h in
    ground (arith, linked)

pub claim_reminder-IsConsistent :
    (id : Text) (db : Db) (fired : List Text)
    → IsConsistent db.callbacks fired
    → IsConsistent (Schedule.claim_reminder id db).1.callbacks fired
unfolding Schedule.claim_reminder
claim_reminder-IsConsistent id db fired =
    update-IsConsistent _ _ db.callbacks fired
      (scheduled-IsHarmless fired _ _ (λ r. refl) (λ r. refl) (λ r t. ground (arith, t)))

finish-IsConsistent :
    (now : ℕ) (id : Text) (status : Status) (result : Option Text) (error : FinishError) (db : Db)
    (fired : List Text)
    → is_spent status ≡ true
    → IsConsistent db.callbacks fired
    → IsConsistent (Schedule.finish now id status result error db).callbacks fired
unfolding Schedule.finish
finish-IsConsistent now id status result error db fired spent =
    update-IsConsistent _ _ db.callbacks fired
      (record { same_id = λ r. refl; same_request = λ r. refl; stays_spent = λ r t u s. spent })

pub end_fire-IsConsistent :
    (now : ℕ) (id : Text) (outcome : Outcome) (db : Db) (fired : List Text)
    → IsConsistent db.callbacks fired
    → IsConsistent (Schedule.end_fire now id outcome db).callbacks fired
unfolding Schedule.end_fire
end_fire-IsConsistent now id (Outcome.reported r) db fired =
    finish-IsConsistent now id _ _ _ db fired refl
end_fire-IsConsistent now id (Outcome.refused r e) db fired =
    finish-IsConsistent now id _ _ _ db fired refl
end_fire-IsConsistent now id (Outcome.raised e) db fired =
    finish-IsConsistent now id _ _ _ db fired refl
end_fire-IsConsistent now id Outcome.stopped db fired =
    finish-IsConsistent now id _ _ _ db fired refl

placed-IsConsistent :
    (now : ℕ) (r : Row) (db : Db) (found : Option Row) (fired : List Text)
    → Callbacks.find (λ s. text_eq s.request_id r.request_id) db.callbacks ≡ found
    → r.id ≡ codes "cb-" ++ r.request_id
    → IsConsistent db.callbacks fired
    → IsConsistent (placed now r db found).1.callbacks fired
placed-IsConsistent now r db (some old) fired e name h =
    if_both (λ (x : Result CallbackError View × Db). IsConsistent x.1.callbacks fired)
      (same_request old r) h h
placed-IsConsistent now r db none fired e name h =
    if_both (λ (x : Result CallbackError View × Db). IsConsistent x.1.callbacks fired)
      (not (Schedule.in_horizon now r.run_at)) h (insert-IsConsistent r db.callbacks fired name e h)

scheduled_as-IsConsistent :
    (now run_at : ℕ) (db : Db) (id : Text) (number : Option Text) (purpose : Text)
    (fired : List Text)
    → IsConsistent db.callbacks fired
    → IsConsistent (scheduled_as now run_at db id number purpose).1.callbacks fired
scheduled_as-IsConsistent now run_at db id none purpose fired h = h
scheduled_as-IsConsistent now run_at db id (some number) [] fired h = h
scheduled_as-IsConsistent now run_at db id (some number) (c ∷ cs) fired h =
    placed-IsConsistent now (new_row id number (c ∷ cs) run_at now) db _ fired refl refl h

pub schedule-IsConsistent :
    (phonenumbers : Text → String → Option Text) (region : String) (now : ℕ)
    (request_id number purpose : Text) (run_at : ℕ) (db : Db) (fired : List Text)
    → IsConsistent db.callbacks fired
    → IsConsistent
        (Schedule.schedule phonenumbers region now request_id number purpose run_at db).1.callbacks
        fired
unfolding Schedule.schedule
schedule-IsConsistent phonenumbers region now request_id number purpose run_at db fired h =
    by_request (validate_request_id request_id) (validate_call_purpose purpose)
  where
    by_request :
        (m n : Result ContractError Text)
        → IsConsistent
            (Schedule.checked_schedule phonenumbers region now number run_at db m n).1.callbacks
            fired
    by_request (err _) n = h
    by_request (ok id) (err _) = h
    by_request (ok id) (ok p) =
        scheduled_as-IsConsistent now run_at db id
          (normalize_phone_number phonenumbers region number) p fired h
