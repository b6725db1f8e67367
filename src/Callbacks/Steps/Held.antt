-- ===== src/Callbacks/Steps/Held.antt =====
-- Two changes of one callback in src/hfp_mcp/callbacks.py that were made against the same revision.
use hermes_phone_hfp.Prelude.{
  ℕ, suc, false, Option, none, some, List, [], ◌∷◌, ◌++◌, ◌≡◌, refl, ap, arith,
}
use mathlib.Core.Path.{subst}
use hermes_phone_hfp.Prelude.Text.{Text, text_eq}
use hermes_phone_hfp.Prelude.Result.{ok, err}
use hermes_phone_hfp.Contracts.Validate.{validate_request_id}
use hermes_phone_hfp.Callbacks
use hermes_phone_hfp.Callbacks.{
  Status, Row, View, Operation, Db, CallbackError, conflict, update_where, has_id,
}
use hermes_phone_hfp.Callbacks.Reschedule.{
  begin_reschedule, new_operation, asked, begun, held, shown, has_request,
}
use hermes_phone_hfp.Callbacks.Steps.Rows.{find-update_self}

-- A key that is free.
abbrev pub IsFresh : Text → Db → Type 0
IsFresh key db = Callbacks.find (has_request key) db.operations ≡ none

-- A change that was begun has found the callback and held it.
shown-inversion :
    (db after db' : Db) (seen : Option View) (v : View)
    → shown db after seen ≡ (ok v, db')
    → after ≡ db'
shown-inversion db after db' none v done = absurd (ground (arith, ap (λ p. p.0) done))
shown-inversion db after db' (some w) v done = ap (λ p. p.1) done

begun-inversion :
    (key id : Text) (expected run_at now : ℕ) (db db' : Db) (r : Row) (v : View)
    → begun key id expected run_at now db (some r) ≡ (ok v, db')
    → held key id expected run_at now r db ≡ db'
begun-inversion key id expected run_at now db db' r v done = ground (
  arith,
  done,
  shown-inversion db (held key id expected run_at now r db) db'
      (Callbacks.get id (held key id expected run_at now r db)) v,
)

find-more :
    (key : Text) (o : Operation) (rows : List Operation)
    → Callbacks.find (has_request key) rows ≡ none
    → has_request key o ≡ false
    → Callbacks.find (has_request key) (rows ++ o ∷ []) ≡ none
unfolding Callbacks.find
find-more key o [] free other = ground (arith, other)
find-more key o (p ∷ rows) free other = ground (arith, free, find-more key o rows)

-- The held callback is not scheduled, so that what expects any revision of it is refused.
begun_on_held :
    (key other id : Text) (expected expected' run_at run_at' now now' : ℕ) (db : Db) (r : Row)
    → Callbacks.find (has_id id) db.callbacks ≡ some r
    → begun other id expected' run_at' now'
        (held key id expected run_at now r db)
        (Callbacks.find (has_id id) (held key id expected run_at now r db).callbacks)
      ≡ (err conflict, held key id expected run_at now r db)
begun_on_held key other id expected expected' run_at run_at' now now' db r there =
    rw
      (find-update_self id
        (λ s. record s {
          status = Status.rescheduling;
          revision = suc s.revision;
          updated_at = now;
        })
        db.callbacks r (λ s. refl) there)
      (ground arith)

asked_again :
    (key other id : Text) (expected expected' run_at run_at' now now' : ℕ) (db db' : Db) (v : View)
    (row : Option Row)
    → Callbacks.find (has_id id) db.callbacks ≡ row
    → IsFresh other db
    → text_eq key other ≡ false
    → begun key id expected run_at now db row ≡ (ok v, db')
    → asked other id expected' run_at' now' db' (Callbacks.find (has_request other) db'.operations)
      ≡ (err conflict, db')
asked_again key other id expected expected' run_at run_at' now now' db db' v none there free apart
      done =
    absurd (ground (arith, ap (λ p. p.0) done))
asked_again key other id expected expected' run_at run_at' now now' db db' v (some r) there free
      apart done =
    subst
      (λ d.
        asked other id expected' run_at' now' d (Callbacks.find (has_request other) d.operations)
        ≡ (err conflict, d))
      (begun-inversion key id expected run_at now db db' r v done)
      (rw (find-more other (new_operation key id expected run_at now r) db.operations free apart)
        (begun_on_held key other id expected expected' run_at run_at' now now' db r there))

-- While a change of a callback is under way, every other change of it with a key of its own is refused
-- and leaves the tables as they are, whatever revision it expects.
pub held_refuses :
    (now now' : ℕ) (id request_id request_id' key other : Text)
    (expected expected' run_at run_at' : ℕ) (db db' : Db) (v : View)
    → validate_request_id request_id ≡ ok key
    → validate_request_id request_id' ≡ ok other
    → IsFresh key db
    → IsFresh other db
    → text_eq key other ≡ false
    → begin_reschedule now id request_id expected run_at db ≡ (ok v, db')
    → begin_reschedule now' id request_id' expected' run_at' db' ≡ (err conflict, db')
unfolding begin_reschedule
held_refuses now now' id request_id request_id' key other expected expected' run_at run_at' db db' v
      valid valid' free free' apart done =
    rw valid' (
      asked_again key other id expected expected' run_at run_at' now now' db db' v
        (Callbacks.find (has_id id) db.callbacks) refl free' apart (rw (valid, free) at done))
