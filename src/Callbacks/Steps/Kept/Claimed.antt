-- ===== src/Callbacks/Steps/Kept/Claimed.antt =====
-- The change of the time of a callback and its claim in src/hfp_mcp/callbacks.py keep the tables consistent with the log.
use hermes_phone_hfp.Prelude.{
  ℕ, suc, true, false, not, ◌&&◌, Option, none, some, List, any, All, ◌≡◌, refl, arith, Bool-cases,
  if_both, inl, inr,
}
use hermes_phone_hfp.Prelude.Text.{Text, text_eq, text_eq→eq}
use hermes_phone_hfp.Prelude.Result.{Result, ok, err}
use hermes_phone_hfp.Contracts.Validate.{ContractError, validate_request_id}
use hermes_phone_hfp.Callbacks
use hermes_phone_hfp.Callbacks.{
  Status, Row, Change, View, Operation, Db, CallbackError, update_where, has_id, with_callbacks,
  same_status,
}
use hermes_phone_hfp.Callbacks.Schedule
use hermes_phone_hfp.Callbacks.Schedule.{
  claim, committed, scheduled_as, placed, new_row, same_request, after_cancel, is_scheduled, missed,
  claimed, first_due, horizon, Outcome,
}
use hermes_phone_hfp.Callbacks.Reschedule
use hermes_phone_hfp.Callbacks.Reschedule.{
  released, shown, valid_request, effective, has_changed, is_unresolved, asked, begun, has_request,
  held, Observed, judge, settled, Verdict, is_settled,
}
use hermes_phone_hfp.Callbacks.Steps.{World, called}
use hermes_phone_hfp.Callbacks.Steps.Rows.{find-All, first_due-All, first_due-present, All-Unit}
use hermes_phone_hfp.Callbacks.Steps.Tracked.{
  IsTracked, IsConsistent, update-IsConsistent, claim-IsConsistent,
}
use hermes_phone_hfp.Callbacks.Steps.Kept.{WorldIsConsistent}

-- A callback that is found scheduled was not claimed.
pub scheduled-unfired :
    (id : Text) (r : Row) (rows : List Row) (fired : List Text)
    → Callbacks.find (has_id id) rows ≡ some r
    → is_scheduled r ≡ true
    → All (IsTracked fired) rows
    → any (text_eq id) fired ≡ false
scheduled-unfired id r rows fired found open_row h =
    let (t, same) = find-All (IsTracked fired) (has_id id) rows r found h in
    rw (← text_eq→eq r.id id same) (ground (arith, t.spent, open_row))

pub held-IsConsistent :
    (request_id id : Text) (expected run_at now : ℕ) (r : Row) (db : Db) (fired : List Text)
    → any (text_eq id) fired ≡ false
    → IsConsistent db.callbacks fired
    → IsConsistent (held request_id id expected run_at now r db).callbacks fired
held-IsConsistent request_id id expected run_at now r db fired free =
    update-IsConsistent (has_id id) _ db.callbacks fired (record {
      same_id = λ s. refl;
      same_request = λ s. refl;
      stays_spent = λ s t u v. absurd (ground (arith, text_eq→eq s.id id t, u, free));
    })

pub shown-holds :
    (P : Result CallbackError View × Db → Type 0) (before after : Db) (m : Option View)
    → ((r : Result CallbackError View) → P (r, before))
    → ((r : Result CallbackError View) → P (r, after))
    → P (shown before after m)
shown-holds P before after none h k = h (err Callbacks.unknown_callback)
shown-holds P before after (some v) h k = k (ok v)

pub begun-IsConsistent :
    (request_id id : Text) (expected run_at now : ℕ) (db : Db) (found : Option Row)
    (fired : List Text)
    → Callbacks.find (has_id id) db.callbacks ≡ found
    → IsConsistent db.callbacks fired
    → IsConsistent (begun request_id id expected run_at now db found).1.callbacks fired
begun-IsConsistent request_id id expected run_at now db none fired e h = h
begun-IsConsistent request_id id expected run_at now db (some r) fired e h =
    let P = λ (x : Result CallbackError View × Db). IsConsistent x.1.callbacks fired in
    elim (Bool-cases (has_changed expected r)) [
      | inl out ↦ rw out h
      | inr fit ↦
          let free = scheduled-unfired id r db.callbacks fired e (ground (arith, fit)) h.tracked in
          let after = held request_id id expected run_at now r db in
          rw fit (
            if_both P (is_unresolved r) h (
              if_both P (not (Schedule.in_horizon now run_at)) h (
                shown-holds P db after (Callbacks.get id after) (λ _. h)
                  (λ _. held-IsConsistent request_id id expected run_at now r db fired free h))))
    ]

pub asked-IsConsistent :
    (request_id id : Text) (expected run_at now : ℕ) (db : Db) (old : Option Operation)
    (fired : List Text)
    → IsConsistent db.callbacks fired
    → IsConsistent (asked request_id id expected run_at now db old).1.callbacks fired
asked-IsConsistent request_id id expected run_at now db (some o) fired h = h
asked-IsConsistent request_id id expected run_at now db none fired h =
    begun-IsConsistent request_id id expected run_at now db _ fired refl h

pub reschedule-IsConsistent :
    (now : ℕ) (id request_id : Text) (expected run_at : ℕ) (db : Db) (fired : List Text)
    → IsConsistent db.callbacks fired
    → IsConsistent
        (Reschedule.begin_reschedule now id request_id expected run_at db).1.callbacks
        fired
unfolding Reschedule.begin_reschedule
reschedule-IsConsistent now id request_id expected run_at db fired h =
    by_request (validate_request_id request_id)
  where
    by_request :
        (m : Result ContractError Text)
        → IsConsistent (valid_request now id expected run_at db m).1.callbacks fired
    by_request (err e) = h
    by_request (ok key) = asked-IsConsistent key id expected run_at now db _ fired h

pub settle-IsConsistent :
    (now : ℕ) (id : Text) (c : Change) (v : Verdict) (db : Db) (fired : List Text)
    → IsConsistent db.callbacks fired
    → IsConsistent (settled now id c v db).callbacks fired
settle-IsConsistent now id c v db fired h =
    let moved =
      update-IsConsistent (λ r. has_id id r && same_status r.status Status.rescheduling)
        (λ r. record r {
          status = Status.scheduled;
          run_at = effective c v.0;
          error = v.2;
          revision = suc r.revision;
          updated_at = now;
        })
        db.callbacks fired
        (record {
          same_id = λ r. refl;
          same_request = λ r. refl;
          stays_spent = λ r t u s. absurd (ground (arith, t, s));
        })
        h in
    ground (arith, moved)

pub claimed-IsConsistent :
    (stamp due_now : ℕ) (w : World) (rows : List Row) (due : Option Row)
    → first_due due_now rows ≡ due
    → IsConsistent rows w.fired
    → WorldIsConsistent (called (claimed stamp (with_callbacks rows w.db) due) w)
claimed-IsConsistent stamp due_now w rows none e h = h
claimed-IsConsistent stamp due_now w rows (some due) e h =
    by_found (Callbacks.find (has_id due.id) after) refl
  where
    after : List Row
    after = update_where (has_id due.id) (claim stamp) rows

    by_found :
        (m : Option Row)
        → Callbacks.find (has_id due.id) after ≡ m
        → WorldIsConsistent (called (m, with_callbacks after w.db) w)
    by_found none found =
        update-IsConsistent (has_id due.id) (claim stamp) rows w.fired
          (record { same_id = λ r. refl; same_request = λ r. refl; stays_spent = λ r t u s. refl })
          h
    by_found (some r) found =
        let all_true = All-Unit after in
        let same =
          text_eq→eq r.id due.id
            (find-All (λ _. Unit {0}) (has_id due.id) after r found all_true).1 in
        let (t, open_row, in_time) =
          first_due-All (IsTracked w.fired) due_now rows due e h.tracked in
        rw same (
          claim-IsConsistent due (claim stamp) rows w.fired (λ s. (refl, refl, refl))
            (ground (arith, t.spent, open_row)) (first_due-present due_now rows due e) h)

pub claim_due-IsConsistent :
    (first_now due_now stamp : ℕ) (w : World)
    → WorldIsConsistent w
    → WorldIsConsistent (called (Schedule.claim_due first_now due_now stamp w.db) w)
unfolding Schedule.claim_due
claim_due-IsConsistent first_now due_now stamp w h =
    claimed-IsConsistent stamp due_now w (missed first_now w.db.callbacks) _ refl (
      update-IsConsistent _ _ w.db.callbacks w.fired
        (record { same_id = λ r. refl; same_request = λ r. refl; stays_spent = λ r t u s. refl }) h)
