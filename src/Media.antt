-- ===== src/Media.antt =====
-- src/hfp_mcp/media.py: the exclusive lease of the one physical SCO bridge. Each method holds the
-- manager's lock, so it is one step; `uuid.uuid4().hex` is an argument.
pub mod Steps
pub mod Stale
use hermes_phone_hfp.Prelude.{
  ℕ, suc, String, Bool, true, false, not, ◌&&◌, Option, none, some, List, [], ◌∷◌, ◌++◌, take, any,
  ◌≡◌, ◌==◌, str_eq, if◌then◌else◌,
}
use hermes_phone_hfp.Prelude.Text.{Text, codes, text_eq}
use hermes_phone_hfp.Prelude.Decimal.{decimal}
use hermes_phone_hfp.Prelude.Result.{Result, ok, err}

pub data ContractError : Type 0 where
  invalid_argument audio_owner_conflict stream_expired : ContractError

abbrev pub media_owners : List String
media_owners = "hermes_classic" ∷ "gemini_live" ∷ "mcp_client" ∷ "one_shot" ∷ []

pub record MediaLease : Type 0 where
  pub call_id : String
  pub owner : String
  pub stream_id : Text
  pub generation : ℕ

pub record MediaLeaseManager : Type 0 where
  pub lease : Option MediaLease
  pub generation : ℕ

abbrev pub new_manager : MediaLeaseManager
new_manager = record { lease = none; generation = 0 }

-- f"audio-{generation}-{hex[:12]}"
unfoldable pub stream_name : ℕ → Text → Text
stream_name generation hex = codes "audio-" ++ (decimal generation ++ (b'-' ∷ take 12 hex))

unfoldable pub is_media_owner : String → Bool
is_media_owner owner = any (str_eq owner) media_owners

abbrev acquire_held :
    Text
    → String
    → String
    → MediaLeaseManager
    → Option MediaLease
    → Result ContractError (MediaLease × Bool) × MediaLeaseManager
acquire_held hex call_id owner m (some held) =
    if str_eq held.call_id call_id && str_eq held.owner owner
    then (ok (held, true), m)
    else (err audio_owner_conflict, m)
acquire_held hex call_id owner m none =
    let generation = suc m.generation in
    let lease : MediaLease = record {
      call_id = call_id;
      owner = owner;
      stream_id = stream_name generation hex;
      generation = generation;
    } in
    (ok (lease, false), record { lease = some lease; generation = generation })

-- The flag of the result tells a lease that was held already.
unfoldable pub acquire :
    Text
    → String
    → String
    → MediaLeaseManager
    → Result ContractError (MediaLease × Bool) × MediaLeaseManager
acquire hex call_id owner m =
    if not (is_media_owner owner)
    then (err invalid_argument, m)
    else if str_eq call_id ""
    then (err invalid_argument, m)
    else acquire_held hex call_id owner m m.lease

-- `stream_id is not None and self._lease.stream_id != stream_id`
abbrev other_stream : Option Text → MediaLease → Bool
other_stream none held = false
other_stream (some id) held = not (text_eq held.stream_id id)

abbrev release_held :
    Option Text
    → MediaLeaseManager
    → Option MediaLease
    → Result ContractError (Option MediaLease) × MediaLeaseManager
release_held stream_id m none = (ok none, m)
release_held stream_id m (some held) =
    if other_stream stream_id held
    then (err stream_expired, m)
    else (ok (some held), record m { lease = none })

unfoldable pub release :
    Option Text → MediaLeaseManager → Result ContractError (Option MediaLease) × MediaLeaseManager
release stream_id m = release_held stream_id m m.lease

-- `==` of the frozen dataclass: field by field.
unfoldable pub lease_eq : MediaLease → MediaLease → Bool
lease_eq a b =
    str_eq a.call_id b.call_id
    && (str_eq a.owner b.owner && (text_eq a.stream_id b.stream_id && a.generation == b.generation))

abbrev is_lease : Option MediaLease → MediaLease → Bool
is_lease none expected = false
is_lease (some held) expected = lease_eq held expected

unfoldable pub release_if : MediaLease → MediaLeaseManager → Option MediaLease × MediaLeaseManager
release_if expected m =
    if not (is_lease m.lease expected)
    then (none, m)
    else (some expected, record m { lease = none })

unfoldable pub current : MediaLeaseManager → Option MediaLease
current m = m.lease
