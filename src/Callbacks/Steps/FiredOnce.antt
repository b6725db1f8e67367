-- ===== src/Callbacks/Steps/FiredOnce.antt =====
-- No callback of src/hfp_mcp/callbacks.py is called twice.
use hermes_phone_hfp.Prelude.{String, Option, List, [], ◌∷◌, any, if_both}
use hermes_phone_hfp.Prelude.Text.{Text, text_eq}
use hermes_phone_hfp.Callbacks.Steps.{World, Op, apply, run, empty_world}
use hermes_phone_hfp.Callbacks.Steps.Tracked.{IsDistinct}
use hermes_phone_hfp.Callbacks.Steps.Kept.Claimed.{
  reschedule-IsConsistent, settle-IsConsistent, claim_due-IsConsistent,
}
use hermes_phone_hfp.Callbacks.Steps.Kept.{
  WorldIsConsistent, restart-IsConsistent, cancel-IsConsistent, link-IsConsistent,
  claim_reminder-IsConsistent, schedule-IsConsistent, end_fire-IsConsistent,
}

module _ (phonenumbers : Text → String → Option Text) (region : String) where
  apply-WorldIsConsistent :
      (op : Op) (w : World)
      → WorldIsConsistent w
      → WorldIsConsistent (apply phonenumbers region op w)
  unfolding apply
  apply-WorldIsConsistent (Op.restart now) w h = restart-IsConsistent now w.db w.fired h
  apply-WorldIsConsistent (Op.schedule now request_id number purpose run_at) w h =
      schedule-IsConsistent phonenumbers region now request_id number purpose run_at w.db w.fired h
  apply-WorldIsConsistent (Op.cancel now id) w h = cancel-IsConsistent now id w.db w.fired h
  apply-WorldIsConsistent (Op.link_reminder id job) w h = link-IsConsistent id job w.db w.fired h
  apply-WorldIsConsistent (Op.claim_reminder id) w h = claim_reminder-IsConsistent id w.db w.fired h
  apply-WorldIsConsistent (Op.begin_reschedule now id request_id expected run_at) w h =
      reschedule-IsConsistent now id request_id expected run_at w.db w.fired h
  apply-WorldIsConsistent (Op.settle now r c asked_service) w h =
      settle-IsConsistent now r.id c _ w.db w.fired h
  apply-WorldIsConsistent (Op.claim_due first_now due_now stamp) w h =
      claim_due-IsConsistent first_now due_now stamp w h
  apply-WorldIsConsistent (Op.end_fire now id outcome) w h =
      if_both WorldIsConsistent (any (text_eq id) w.running)
        (end_fire-IsConsistent now id outcome w.db w.fired h) h

  run-WorldIsConsistent :
      (ops : List Op) (w : World)
      → WorldIsConsistent w
      → WorldIsConsistent (run phonenumbers region ops w)
  unfolding run
  run-WorldIsConsistent [] w h = h
  run-WorldIsConsistent (op ∷ ops) w h =
      run-WorldIsConsistent ops (apply phonenumbers region op w) (apply-WorldIsConsistent op w h)

  -- Whatever the daemon does, from empty tables on, with restarts, changes of time, cancellations and
  -- calls that fail, report nothing or are cut off, no callback is claimed to be called twice.
  pub fired_once : (ops : List Op) → IsDistinct (run phonenumbers region ops empty_world).fired
  fired_once ops =
      (run-WorldIsConsistent ops empty_world
        (record { tracked = tt; known = tt; distinct = tt })).distinct
