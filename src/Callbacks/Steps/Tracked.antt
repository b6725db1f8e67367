-- ===== src/Callbacks/Steps/Tracked.antt =====
-- What the statements on `phone_callbacks` in src/hfp_mcp/callbacks.py keep of the callbacks that
-- were claimed.
use hermes_phone_hfp.Prelude.{
  Bool, true, false, not, ◌||◌, none, List, [], ◌∷◌, ◌++◌, any, All, All-append, ◌≡◌, refl, ◌∙◌,
  arith, Bool-cases, inl, inr,
}
use hermes_phone_hfp.Prelude.Text.{Text, codes, text_eq, text_eq_iff}
use hermes_phone_hfp.Callbacks
use hermes_phone_hfp.Callbacks.{
  Status, Row, Change, View, Operation, Db, CallbackError, update_where, has_id,
}
use hermes_phone_hfp.Callbacks.Steps.Rows.{All-update_where, any-of-find, any-update_where}

-- A status from which a callback is never claimed again.
abbrev pub is_spent : Status → Bool
is_spent Status.firing = true
is_spent Status.completed = true
is_spent Status.failed = true
is_spent Status.uncertain = true
is_spent _ = false

-- No text is listed twice.
abbrev pub IsDistinct : List Text → Type 0
IsDistinct [] = Unit
IsDistinct (x ∷ xs) = (any (text_eq x) xs ≡ false) × IsDistinct xs

-- A row has the id that its request gave it, and is spent if it was claimed.
pub record IsTracked (fired : List Text) (r : Row) : Type 0 where
  pub named : r.id ≡ codes "cb-" ++ r.request_id
  pub spent : (not (any (text_eq r.id) fired) || is_spent r.status) ≡ true

abbrev pub IsKnown : List Row → Text → Type 0
IsKnown rows id = any (has_id id) rows ≡ true

pub record IsConsistent (rows : List Row) (fired : List Text) : Type 0 where
  pub tracked : All (IsTracked fired) rows
  pub known : All (IsKnown rows) fired
  pub distinct : IsDistinct fired

-- A statement that keeps the ids, and leaves the spent rows that were claimed spent.
pub record IsHarmless (fired : List Text) (p : Row → Bool) (f : Row → Row) : Type 0 where
  pub same_id : (r : Row) → (f r).id ≡ r.id
  pub same_request : (r : Row) → (f r).request_id ≡ r.request_id
  pub stays_spent :
      (r : Row)
      → p r ≡ true
      → any (text_eq r.id) fired ≡ true
      → is_spent r.status ≡ true
      → is_spent (f r).status ≡ true

known-update :
    (p : Row → Bool) (f : Row → Row) (rows : List Row) (ids : List Text)
    → ((r : Row) → (f r).id ≡ r.id)
    → All (IsKnown rows) ids
    → All (IsKnown (update_where p f rows)) ids
known-update p f rows [] keep h = tt
known-update p f rows (id ∷ ids) keep h =
    (any-update_where id p f rows keep ∙ h.0, known-update p f rows ids keep h.1)

pub update-IsConsistent :
    (p : Row → Bool) (f : Row → Row) (rows : List Row) (fired : List Text)
    → IsHarmless fired p f
    → IsConsistent rows fired
    → IsConsistent (update_where p f rows) fired
update-IsConsistent p f rows fired safe h = record {
  tracked =
      All-update_where (IsTracked fired) p f rows
        (λ r test t.
          ground (arith, safe.same_id r, safe.same_request r, safe.stays_spent r test, t))
        h.tracked;
  known = known-update p f rows fired safe.same_id h.known;
  distinct = h.distinct;
}

-- An id that no row has was not claimed.
pub unknown-unfired :
    (id : Text) (rows : List Row) (ids : List Text)
    → any (has_id id) rows ≡ false
    → All (IsKnown rows) ids
    → any (text_eq id) ids ≡ false
unknown-unfired id rows [] free h = refl
unknown-unfired id rows (x ∷ ids) free h =
    ground (arith, text_eq_iff id x, h.0, unknown-unfired id rows ids free h.1)

-- A request that no row has names an id that no row has.
new_id-unknown :
    (fired : List Text) (request_id : Text) (rows : List Row)
    → any (λ r. text_eq r.request_id request_id) rows ≡ false
    → All (IsTracked fired) rows
    → any (has_id (codes "cb-" ++ request_id)) rows ≡ false
unfolding text_eq
new_id-unknown fired request_id [] free h = refl
new_id-unknown fired request_id (r ∷ rows) free h =
    ground (arith, h.0.named, new_id-unknown fired request_id rows (ground arith) h.1)

any-append : (p : Row → Bool) (xs ys : List Row) → any p xs ≡ true → any p (xs ++ ys) ≡ true
any-append p [] ys h = cc
any-append p (x ∷ xs) ys h = ground (arith, any-append p xs ys)

known-append :
    (rows more : List Row) (ids : List Text)
    → All (IsKnown rows) ids
    → All (IsKnown (rows ++ more)) ids
known-append rows more [] h = tt
known-append rows more (id ∷ ids) h =
    (any-append (has_id id) rows more h.0, known-append rows more ids h.1)

pub insert-IsConsistent :
    (r : Row) (rows : List Row) (fired : List Text)
    → r.id ≡ codes "cb-" ++ r.request_id
    → Callbacks.find (λ s. text_eq s.request_id r.request_id) rows ≡ none
    → IsConsistent rows fired
    → IsConsistent (rows ++ r ∷ []) fired
insert-IsConsistent r rows fired name free h =
    let unknown =
      new_id-unknown fired r.request_id rows
        (any-of-find (λ s. text_eq s.request_id r.request_id) rows free) h.tracked in
    let unfired = unknown-unfired (codes "cb-" ++ r.request_id) rows fired unknown h.known in
    record {
      tracked =
          All-append (IsTracked fired) rows (r ∷ []) h.tracked
            (record { named = name; spent = rw (name, unfired) refl }, tt);
      known = known-append rows (r ∷ []) fired h.known;
      distinct = h.distinct;
    }

-- The statement that claims a callback makes each row with its id a firing one.
abbrev pub IsFiring : (Row → Row) → Row → Type 0
IsFiring f r =
    ((f r).id ≡ r.id) × ((f r).request_id ≡ r.request_id) × ((f r).status ≡ Status.firing)

claim-IsTracked :
    (due : Row) (f : Row → Row) (rows : List Row) (fired : List Text)
    → ((r : Row) → IsFiring f r)
    → All (IsTracked fired) rows
    → All (IsTracked (due.id ∷ fired)) (update_where (has_id due.id) f rows)
unfolding update_where
claim-IsTracked due f [] fired firing h = tt
claim-IsTracked due f (r ∷ rs) fired firing h =
    let later = claim-IsTracked due f rs fired firing h.1 in
    elim (Bool-cases (text_eq r.id due.id)) [
      | inl mine ↦ rw mine (ground (arith, firing r, h.0, later))
      | inr other ↦ rw other (record { named = h.0.named; spent = rw other (h.0.spent) }, later)
    ]

-- The statement that claims a callback, with its id logged as claimed.
pub claim-IsConsistent :
    (due : Row) (f : Row → Row) (rows : List Row) (fired : List Text)
    → ((r : Row) → IsFiring f r)
    → any (text_eq due.id) fired ≡ false
    → any (has_id due.id) rows ≡ true
    → IsConsistent rows fired
    → IsConsistent (update_where (has_id due.id) f rows) (due.id ∷ fired)
claim-IsConsistent due f rows fired firing free present h = record {
  tracked = claim-IsTracked due f rows fired firing h.tracked;
  known = (
    any-update_where due.id (has_id due.id) f rows (λ r. (firing r).0) ∙ present,
    known-update (has_id due.id) f rows fired (λ r. (firing r).0) h.known,
  );
  distinct = (free, h.distinct);
}
