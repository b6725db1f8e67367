-- ===== src/Tests/Contracts.antt =====
-- The request ledger of src/hfp_mcp/contracts.py on one request that is made twice.
use hermes_phone_hfp.Prelude.{ℕ, suc, none, List, [], ◌∷◌, ◌≡◌, refl, arith, All}
use hermes_phone_hfp.Prelude.Text.{Text, codes}
use hermes_phone_hfp.Prelude.Dict.{lookup, insert}
use hermes_phone_hfp.Prelude.Result.{ok}
use hermes_phone_hfp.Hfp.Line.{strip}
use hermes_phone_hfp.Contracts.Validate.{validate_request_id, is_identifier}
use hermes_phone_hfp.Contracts.Ledger
use hermes_phone_hfp.Contracts.Ledger.{Ledger, CachedRequest, get, run_idempotent}
use hermes_phone_hfp.Contracts.Ledger.Replay.{Op, run, Spares, run_idempotent-replay}

-- A function that counts how often it is called.
abbrev place_call : ℕ → Text × ℕ
place_call n = (codes "{}", suc n)

abbrev after_first : Ledger
after_first =
    (codes "call-1", record { operation = codes "call"; response = codes "{}"; created_at = 100 })
    ∷ []

abbrev meanwhile : List Op
meanwhile = Op.prune 1 200 ∷ Op.store (codes "call-2") (codes "call") (codes "[]") 300 ∷ []

free_at_first : get (codes "call-1") (codes "call") [] ≡ ok none
unfolding get validate_request_id lookup is_identifier strip
free_at_first = refl

first_run :
    run_idempotent (codes "call-1") (codes "call") place_call 100 [] 0
    ≡ (ok (codes "{}"), after_first, 1)
unfolding run_idempotent get Ledger.store validate_request_id lookup insert is_identifier strip
first_run = refl

spared : All (Spares 100) meanwhile
spared = (ground arith, (tt, tt))

run_idempotent-replay_example :
    run_idempotent (codes "call-1") (codes "call") place_call 400 (run meanwhile after_first) 7
    ≡ (ok (codes "{}"), run meanwhile after_first, 7)
run_idempotent-replay_example =
    run_idempotent-replay (codes "call-1") (codes "call") (codes "{}") place_call 100 [] after_first
      0 1 meanwhile place_call 400 7 free_at_first first_run spared
