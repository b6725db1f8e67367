-- ===== src/Callbacks.antt =====
-- `CallbackScheduler` of src/hfp_mcp/callbacks.py: the tables that it keeps and the transactions on
-- them. Times are in microseconds from the epoch. An exception rolls its
-- transaction back, so that a result `err` comes with the tables as they were.
pub mod Schedule
pub mod Reschedule
pub mod Steps
use hermes_phone_hfp.Prelude.{
  ℕ, ◌+◌, Bool, true, false, not, ◌&&◌, ◌||◌, Option, none, some, List, [], ◌∷◌, ◌++◌, leb, ltb,
  ◌==◌, if◌then◌else◌,
}
use hermes_phone_hfp.Prelude.Text.{Text, codes, text_eq}

pub data Status : Type 0 where
  scheduled rescheduling firing completed failed uncertain cancelled : Status

pub data ChangeStatus : Type 0 where
  pending applied change_failed partial change_uncertain : ChangeStatus

-- A row of `phone_callbacks`. What a call returned is kept as its JSON.
pub record Row : Type 0 where
  pub id : Text
  pub request_id : Text
  pub number : Text
  pub purpose : Text
  pub run_at : ℕ
  pub status : Status
  pub result : Option Text
  pub error : Option Text
  pub created_at : ℕ
  pub updated_at : ℕ
  pub reminder_job_id : Option Text
  pub revision : ℕ
  pub reminder_attempted : Bool

-- What `get` shows of the last operation on a callback.
pub record Change : Type 0 where
  pub request_id : Text
  pub requested_run_at : ℕ
  pub previous_run_at : ℕ
  pub status : ChangeStatus
  pub reminder_run_at : Option ℕ
  pub error : Option Text

pub record View : Type 0 where
  pub row : Row
  pub schedule_change : Option Change

-- A row of `callback_operations`.
pub record Operation : Type 0 where
  pub change : Change
  pub callback_id : Text
  pub expected_revision : ℕ
  pub updated_at : ℕ
  pub response : Option View

pub record Db : Type 0 where
  pub callbacks : List Row
  pub operations : List Operation

pub data CallbackError : Type 0 where
  invalid_value unknown_callback request_id_reused out_of_range not_cancelled conflict :
      CallbackError

abbrev pub same_status : Status → Status → Bool
same_status Status.scheduled Status.scheduled = true
same_status Status.rescheduling Status.rescheduling = true
same_status Status.firing Status.firing = true
same_status Status.completed Status.completed = true
same_status Status.failed Status.failed = true
same_status Status.uncertain Status.uncertain = true
same_status Status.cancelled Status.cancelled = true
same_status _ _ = false

-- `UPDATE ... SET ... WHERE ...`, and how many rows it changed.
module _ {A : Type 0} where
  unfoldable pub update_where : (A → Bool) → (A → A) → List A → List A
  update_where p f [] = []
  update_where p f (r ∷ rs) = (if p r then f r else r) ∷ update_where p f rs

  unfoldable pub find : (A → Bool) → List A → Option A
  find p [] = none
  find p (r ∷ rs) = let rest = find p rs in if p r then some r else rest

abbrev pub has_id : Text → Row → Bool
has_id id r = text_eq r.id id

-- Of the operations on a callback the one that was updated last.
abbrev pub later_of : Operation → Option Operation → Option Operation
later_of o none = some o
later_of o (some p) = if ltb o.updated_at p.updated_at then some p else some o

unfoldable pub last_operation : Text → List Operation → Option Operation
last_operation id [] = none
last_operation id (o ∷ os) =
    let rest = last_operation id os in if text_eq o.callback_id id then later_of o rest else rest

abbrev change_of : Option Operation → Option Change
change_of none = none
change_of (some o) = some o.change

abbrev pub view : Db → Row → View
view db r = record { row = r; schedule_change = change_of (last_operation r.id db.operations) }

abbrev seen : Db → Option Row → Option View
seen db none = none
seen db (some r) = some (view db r)

-- `get`
unfoldable pub get : Text → Db → Option View
get id db = seen db (find (has_id id) db.callbacks)

abbrev pub with_callbacks : List Row → Db → Db
with_callbacks rows db = record db { callbacks = rows }
