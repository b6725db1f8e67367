-- ===== src/Callbacks/Steps.antt =====
-- The transactions of src/hfp_mcp/callbacks.py as the steps of one daemon: the tables, the callbacks
-- that were claimed to be called, and the tasks that call them.
pub mod Rows
pub mod Tracked
pub mod Kept
pub mod FiredOnce
pub mod Window
pub mod Held
use hermes_phone_hfp.Prelude.{
  ℕ, String, Bool, true, false, Option, none, some, List, [], ◌∷◌, any, if◌then◌else◌,
}
use hermes_phone_hfp.Prelude.Text.{Text, text_eq}
use hermes_phone_hfp.Callbacks.{Row, Change, Db, with_callbacks}
use hermes_phone_hfp.Callbacks.Schedule
use hermes_phone_hfp.Callbacks.Schedule.{Outcome}
use hermes_phone_hfp.Callbacks.Reschedule
use hermes_phone_hfp.Callbacks.Reschedule.{Observed, judge, observed_for, settled}

pub record World : Type 0 where
  pub db : Db
  pub fired : List Text
  pub running : List Text

abbrev pub empty_world : World
empty_world = record { db = record { callbacks = []; operations = [] }; fired = []; running = [] }

-- `settle` is the transaction of `reconcile` behind its wait, on the operation that it read before.
pub data Op : Type 0 where
  restart : ℕ → Op
  schedule : ℕ → Text → Text → Text → ℕ → Op
  cancel : ℕ → Text → Op
  link_reminder : Text → Text → Op
  claim_reminder : Text → Op
  begin_reschedule : ℕ → Text → Text → ℕ → ℕ → Op
  settle : ℕ → Row → Change → Option Observed → Op
  claim_due : ℕ → ℕ → ℕ → Op
  end_fire : ℕ → Text → Outcome → Op

abbrev pub called : Option Row × Db → World → World
called (none, db) w = record w { db = db }
called (some r, db) w = record { db = db; fired = r.id ∷ w.fired; running = r.id ∷ w.running }

module _ (phonenumbers : Text → String → Option Text) (region : String) where
  -- A callback ends only by the task that calls it.
  unfoldable pub apply : Op → World → World
  apply (Op.restart now) w = record w { db = Schedule.restart now w.db; running = [] }
  apply (Op.schedule now request_id number purpose run_at) w = record w {
    db = (Schedule.schedule phonenumbers region now request_id number purpose run_at w.db).1;
  }
  apply (Op.cancel now id) w = record w { db = (Schedule.cancel now id w.db).1 }
  apply (Op.link_reminder id job) w = record w { db = (Schedule.link_reminder id job w.db).1 }
  apply (Op.claim_reminder id) w = record w { db = (Schedule.claim_reminder id w.db).1 }
  apply (Op.begin_reschedule now id request_id expected run_at) w = record w {
    db = (Reschedule.begin_reschedule now id request_id expected run_at w.db).1;
  }
  apply (Op.settle now r c asked_service) w = record w {
    db = settled now r.id c (judge c (observed_for r asked_service)) w.db;
  }
  apply (Op.claim_due first_now due_now stamp) w =
      called (Schedule.claim_due first_now due_now stamp w.db) w
  apply (Op.end_fire now id outcome) w =
      if any (text_eq id) w.running
      then record w { db = Schedule.end_fire now id outcome w.db }
      else w

  unfoldable pub run : List Op → World → World
  run [] w = w
  run (op ∷ rest) w = run rest (apply op w)
