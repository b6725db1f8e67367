-- ===== src/Tests/Media.antt =====
-- The theorems about src/hfp_mcp/media.py at concrete leases.
use hermes_phone_hfp.Prelude.{◌≡◌, refl, none, some, List, [], ◌∷◌, true}
use hermes_phone_hfp.Prelude.Text.{codes}
use hermes_phone_hfp.Prelude.Decimal.{decimal}
use hermes_phone_hfp.Media
use hermes_phone_hfp.Media.{MediaLease, MediaLeaseManager, new_manager, stream_name, is_media_owner}
use hermes_phone_hfp.Media.Steps.{Op, apply, run}
use hermes_phone_hfp.Media.Stale.{AllIssued, run-AllIssued, acquire-held, stale_release}

abbrev acquires : List Op
acquires = Op.acquire (codes "0123456789abcdef") "call-a" "gemini_live" ∷ []

abbrev hands_over : List Op
hands_over = Op.release none ∷ []

abbrev acquires_again : List Op
acquires_again = Op.acquire (codes "fedcba9876543210") "call-a" "mcp_client" ∷ []

abbrev old : MediaLease
old = record {
  call_id = "call-a";
  owner = "gemini_live";
  stream_id = codes "audio-1-0123456789ab";
  generation = 1;
}

run-AllIssued_example :
    AllIssued 0 (run acquires new_manager).generation (run acquires new_manager).lease
run-AllIssued_example = run-AllIssued acquires

abbrev holding : MediaLeaseManager
holding = record { lease = some old; generation = 1 }

acquire-held_example :
    (old.call_id ≡ "call-a")
    × (old.owner ≡ "gemini_live")
    × (old ≡ old)
    × (true ≡ true)
    × (holding ≡ holding)
unfolding Media.acquire Media.is_media_owner
acquire-held_example =
    acquire-held (codes "00") "call-a" "gemini_live" holding holding old old true refl refl

stale_release_example :
    let m = run acquires_again (run hands_over (run acquires new_manager)) in
    (Media.release_if old m ≡ (none, m)) × ((Media.release (some old.stream_id) m).1 ≡ m)
unfolding run apply Media.acquire Media.release Media.stream_name Media.is_media_owner decimal
stale_release_example = stale_release acquires hands_over acquires_again old refl refl
