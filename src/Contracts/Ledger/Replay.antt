-- ===== src/Contracts/Ledger/Replay.antt =====
-- A request that was answered is answered the same from then on: the replays of `run_idempotent` in
-- src/hfp_mcp/contracts.py.
use hermes_phone_hfp.Prelude.{
  ℕ, ◌+◌, ◌≤◌, Option, none, some, List, [], ◌∷◌, ◌≡◌, refl, ap, arith, All,
}
use hermes_phone_hfp.Prelude.Text.{Text, text_eq_refl, text_eq_iff}
use hermes_phone_hfp.Prelude.Dict.{text_equality, lookup, lookup-insert}
use hermes_phone_hfp.Prelude.Result.{Result, ok, err}
use hermes_phone_hfp.Contracts.Validate.{ContractError, validate_request_id}
use hermes_phone_hfp.Contracts.Ledger
use hermes_phone_hfp.Contracts.Ledger.{
  CachedRequest, get, get_valid, of_operation, store_valid, store_at, retention, run_idempotent,
  run_cached, answered,
}

-- What other requests do to the ledger.
pub data Op : Type 0 where
  store : Text → Text → Text → ℕ → Op
  prune : ℕ → ℕ → Op

unfoldable pub apply : Op → Ledger.Ledger → Ledger.Ledger
apply (Op.store request_id operation response now) l =
    (Ledger.store request_id operation response now l).1
apply (Op.prune days now) l = Ledger.prune days now l

unfoldable pub run : List Op → Ledger.Ledger → Ledger.Ledger
run [] l = l
run (op ∷ rest) l = run rest (apply op l)

-- A row that was written at this time is not old enough to be deleted.
abbrev pub Spares : ℕ → Op → Type 0
Spares written (Op.store _ _ _ _) = Unit
Spares written (Op.prune days now) = now ≤ written + retention days

store-keeps :
    (key : Text) (row : CachedRequest) (request_id operation response : Text) (now : ℕ)
    (l : Ledger.Ledger)
    → lookup key l ≡ some row
    → lookup key (Ledger.store request_id operation response now l).1 ≡ some row
unfolding Ledger.store
store-keeps key row request_id operation response now l held =
    by_key (validate_request_id request_id)
  where
    by_row :
        (other : Text) (found : Option CachedRequest)
        → lookup other l ≡ found
        → lookup key (store_at other operation response now l found).1 ≡ some row
    by_row other none free = ground (
      arith,
      text_eq_iff other key,
      held,
      free,
      lookup-insert other key
          (record { operation = operation; response = response; created_at = now }) l,
    )
    by_row other (some old) taken = held

    by_key :
        (m : Result ContractError Text)
        → lookup key (store_valid m operation response now l).1 ≡ some row
    by_key (err e) = held
    by_key (ok other) = by_row other (lookup other l) refl

prune-keeps :
    (key : Text) (row : CachedRequest) (days now : ℕ) (l : Ledger.Ledger)
    → lookup key l ≡ some row
    → now ≤ row.created_at + retention days
    → lookup key (Ledger.prune days now l) ≡ some row
unfolding Ledger.prune lookup
prune-keeps key row days now [] held young = cc
prune-keeps key row days now ((j, other) ∷ l) held young =
    ground (arith, prune-keeps key row days now l)

run-keeps :
    (key : Text) (row : CachedRequest) (ops : List Op) (l : Ledger.Ledger)
    → lookup key l ≡ some row
    → All (Spares row.created_at) ops
    → lookup key (run ops l) ≡ some row
unfolding run apply
run-keeps key row [] l held spared = held
run-keeps key row (Op.store a b c t ∷ ops) l held spared =
    run-keeps key row ops _ (store-keeps key row a b c t l held) spared.1
run-keeps key row (Op.prune days t ∷ ops) l held spared =
    run-keeps key row ops _ (prune-keeps key row days t l held spared.0) spared.1

-- What a run that called its function leaves: a row under the key of the request.
store-row :
    (request_id operation response : Text) (now : ℕ) (l : Ledger.Ledger)
    → get request_id operation l ≡ ok none
    → (key : Text) × (validate_request_id request_id ≡ ok key)
      × (lookup key (Ledger.store request_id operation response now l).1
          ≡ some (record { operation = operation; response = response; created_at = now }))
unfolding get Ledger.store
store-row request_id operation response now l free = by_key (validate_request_id request_id) refl
  where
    by_row :
        (key : Text) (found : Option CachedRequest)
        → lookup key l ≡ found
        → get_valid (ok key) operation l ≡ ok none
        → lookup key (store_at key operation response now l found).1
          ≡ some (record { operation = operation; response = response; created_at = now })
    by_row key none e h = ground (
      arith,
      text_eq_refl key,
      lookup-insert key key
          (record { operation = operation; response = response; created_at = now }) l,
    )
    by_row key (some row) e h = absurd (ground (arith, e, h))

    by_key :
        (m : Result ContractError Text)
        → validate_request_id request_id ≡ m
        → (key : Text) × (validate_request_id request_id ≡ ok key)
          × (lookup key (store_valid m operation response now l).1
              ≡ some (record { operation = operation; response = response; created_at = now }))
    by_key (err e) h = absurd (ground (arith, h, free))
    by_key (ok key) h = (key, h, by_row key (lookup key l) refl (rw h at free))

answered-eq-ok :
    {W : Type 0} (response response' : Text)
    (stored : Result ContractError (Unit {0}) × Ledger.Ledger) (l : Ledger.Ledger) (w w' : W)
    → answered response stored w ≡ (ok response', l, w')
    → (response ≡ response') × (stored.1 ≡ l)
answered-eq-ok response response' (ok _, l0) l w w' h = (ground (arith, h), ground (arith, h))
answered-eq-ok response response' (err e, l0) l w w' h = absurd (ground (arith, h))

get-of-row :
    (request_id key : Text) (row : CachedRequest) (l : Ledger.Ledger)
    → validate_request_id request_id ≡ ok key
    → lookup key l ≡ some row
    → get request_id row.operation l ≡ ok (some row)
unfolding get
get-of-row request_id key row l valid held = rw (valid, held, text_eq_refl row.operation) refl

-- A request runs its function at most once: where the function was called and its response was
-- returned, every later call with that request id and operation, whatever other requests were
-- stored in between, and as long as no pruning came after the retention period, returns that
-- response and neither calls the function that it is given nor changes the ledger.
pub run_idempotent-replay :
    {V W : Type 0} (request_id operation response : Text) (function : V → Text × V) (now : ℕ)
    (l l' : Ledger.Ledger) (v v' : V) (ops : List Op) (again : W → Text × W) (later : ℕ) (w : W)
    → get request_id operation l ≡ ok none
    → run_idempotent request_id operation function now l v ≡ (ok response, l', v')
    → All (Spares now) ops
    → run_idempotent request_id operation again later (run ops l') w ≡ (ok response, run ops l', w)
unfolding run_idempotent
run_idempotent-replay request_id operation response function now l l' v v' ops again later w free
      done spared =
    let (key, valid, written) = store-row request_id operation (function v).0 now l free in
    let (same, left) =
      answered-eq-ok (function v).0 response
        (Ledger.store request_id operation (function v).0 now l) l' (function v).1 v'
        (rw free at done) in
    let row : CachedRequest = record {
      operation = operation;
      response = (function v).0;
      created_at = now;
    } in
    let kept = run-keeps key row ops l' (rw left at written) spared in
    rw (get-of-row request_id key row (run ops l') valid kept)
      (ap (λ r. (ok r, run ops l', w)) same)
