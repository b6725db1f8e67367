-- ===== src/Contracts/Ledger.antt =====
-- `RequestLedger.get`, `store` and `prune` on the table of idempotent requests, and `run_idempotent`,
-- of src/hfp_mcp/contracts.py. A response is its JSON with sorted keys, which is what a row holds;
-- the time of a row is in seconds.
pub mod Replay
use hermes_phone_hfp.Prelude.{
  ℕ, ◌+◌, ◌*◌, Bool, true, false, not, Option, none, some, List, [], ◌∷◌, ltb, max, if◌then◌else◌,
}
use hermes_phone_hfp.Prelude.Text.{Text, text_eq}
use hermes_phone_hfp.Prelude.Dict.{text_equality, lookup, insert}
use hermes_phone_hfp.Prelude.Result.{Result, ok, err}
use hermes_phone_hfp.Contracts.Validate.{ContractError, request_id_conflict, validate_request_id}

pub record CachedRequest : Type 0 where
  pub operation : Text
  pub response : Text
  pub created_at : ℕ

-- The table `idempotency`, by its primary key.
abbrev pub Ledger : Type 0
Ledger = List (Text × CachedRequest)

abbrev pub of_operation : Text → Option CachedRequest → Result ContractError (Option CachedRequest)
of_operation operation none = ok none
of_operation operation (some row) =
    if text_eq row.operation operation then ok (some row) else err request_id_conflict

abbrev pub get_valid :
    Result ContractError Text → Text → Ledger → Result ContractError (Option CachedRequest)
get_valid (err e) operation l = err e
get_valid (ok request_id) operation l = of_operation operation (lookup request_id l)

unfoldable pub get : Text → Text → Ledger → Result ContractError (Option CachedRequest)
get request_id operation l = get_valid (validate_request_id request_id) operation l

-- What `store` answers where the key is taken: nothing is written.
abbrev pub stored_again :
    Text → Result ContractError (Option CachedRequest) → Result ContractError (Unit {0})
stored_again response (err e) = err e
stored_again response (ok none) = err request_id_conflict
stored_again response (ok (some row)) =
    if text_eq row.response response then ok tt else err request_id_conflict

abbrev pub store_at :
    Text
    → Text
    → Text
    → ℕ
    → Ledger
    → Option CachedRequest
    → Result ContractError (Unit {0}) × Ledger
store_at request_id operation response now l none =
    let row : CachedRequest = record {
      operation = operation;
      response = response;
      created_at = now;
    } in
    (ok tt, insert request_id row l)
store_at request_id operation response now l (some row) =
    (stored_again response (get request_id operation l), l)

abbrev pub store_valid :
    Result ContractError Text → Text → Text → ℕ → Ledger → Result ContractError (Unit {0}) × Ledger
store_valid (err e) operation response now l = (err e, l)
store_valid (ok request_id) operation response now l =
    store_at request_id operation response now l (lookup request_id l)

unfoldable pub store : Text → Text → Text → ℕ → Ledger → Result ContractError (Unit {0}) × Ledger
store request_id operation response now l =
    store_valid (validate_request_id request_id) operation response now l

-- `max(1, retention_days)` days, in seconds.
abbrev pub retention : ℕ → ℕ
retention days = max 1 days * 86400

-- The rows that `DELETE FROM idempotency WHERE created_at < cutoff` leaves.
unfoldable pub prune : ℕ → ℕ → Ledger → Ledger
prune days now [] = []
prune days now ((key, row) ∷ l) =
    let rest = prune days now l in
    if ltb (row.created_at + retention days) now then rest else (key, row) ∷ rest

-- `run_idempotent`: the function acts on a world of its own, and is called only without a cached
-- response. What `store` raises is raised after the function has run.
module _ {W : Type 0} where
  abbrev pub answered :
      Text → Result ContractError (Unit {0}) × Ledger → W → Result ContractError Text × Ledger × W
  answered response (ok _, l) w = (ok response, l, w)
  answered response (err e, l) w = (err e, l, w)

  abbrev pub run_cached :
      Text
      → Text
      → (W → Text × W)
      → ℕ
      → Ledger
      → W
      → Result ContractError (Option CachedRequest)
      → Result ContractError Text × Ledger × W
  run_cached request_id operation function now l w (err e) = (err e, l, w)
  run_cached request_id operation function now l w (ok (some row)) = (ok row.response, l, w)
  run_cached request_id operation function now l w (ok none) =
      let (response, done) = function w in
      answered response (store request_id operation response now l) done

  unfoldable pub run_idempotent :
      Text → Text → (W → Text × W) → ℕ → Ledger → W → Result ContractError Text × Ledger × W
  run_idempotent request_id operation function now l w =
      run_cached request_id operation function now l w (get request_id operation l)
