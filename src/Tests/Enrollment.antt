-- ===== src/Tests/Enrollment.antt =====
-- src/hfp_mcp/enrollment.py: a phone claims the gate and another one asks, and a file of settings.
use hermes_phone_hfp.Prelude.{true, false, none, List, [], ◌∷◌, ◌++◌, ◌≡◌, refl}
use hermes_phone_hfp.Prelude.Text.{Text, codes, text_eq, starts_with}
use hermes_phone_hfp.Prelude.Result.{ok}
use hermes_phone_hfp.Hfp.Line.{strip}
use hermes_phone_hfp.Contracts.Validate.{validate_mac, is_mac, upper_mac}
use hermes_phone_hfp.Enrollment.{
  GateFile, private_gate, open_gate, read_gate, authorize_enrollment_address, enrollment_candidate,
  address_from_bluez_path, after_last,
}
use hermes_phone_hfp.Enrollment.Environment.{
  phone, default, other, set_phone_in_service_env, join_lines,
}
use hermes_phone_hfp.Enrollment.Environment.LinesOf.{lines_of}
use hermes_phone_hfp.Enrollment.Environment.Ends.{trim_end}
use hermes_phone_hfp.Enrollment.Environment.Written.{set_phone_in_service_env-lines}
use hermes_phone_hfp.Enrollment.Steps.{Op, apply, run}
use hermes_phone_hfp.Enrollment.First.{IsOnePhone, first_device_only}

abbrev requests : List Op
requests =
    Op.authorize (codes "AA:BB:CC:DD:EE:0F") false 10
    ∷ Op.authorize (codes "aa:bb:cc:dd:ee:01") true 20
    ∷ Op.authorize (codes "AA:BB:CC:DD:EE:02") true 30
    ∷ Op.authorize (codes " AA:BB:CC:DD:EE:01") true 40
    ∷ Op.look 50
    ∷ []

abbrev opened : GateFile
opened = private_gate (record { expires_at = 60000000; candidate_address = none })

opens : open_gate 60 0 ≡ ok opened
unfolding open_gate
opens = refl

two_grants :
    (run requests (record { file = opened; granted = [] })).granted
    ≡ codes "AA:BB:CC:DD:EE:01" ∷ codes "AA:BB:CC:DD:EE:01" ∷ []
unfolding run apply authorize_enrollment_address read_gate enrollment_candidate validate_mac is_mac
    strip upper_mac text_eq
two_grants = refl

first_device_only_example :
    IsOnePhone (run requests (record { file = opened; granted = [] })).granted
first_device_only_example = first_device_only 60 0 opened requests opens

address_of_path :
    address_from_bluez_path (codes "/org/bluez/hci0/dev_AA_BB_CC_DD_EE_01")
    ≡ ok (codes "AA:BB:CC:DD:EE:01")
unfolding address_from_bluez_path after_last starts_with validate_mac is_mac strip upper_mac
address_of_path = refl

-- A no-break space in front and the ligature U+FB00.
ligature :
    validate_mac (0xa0 ∷ codes "AA:BB:CC:DD:EE:" ++ 0xfb00 ∷ []) ≡ ok (codes "AA:BB:CC:DD:EE:FF")
unfolding validate_mac is_mac strip upper_mac
ligature = refl

abbrev service_env : List Text
service_env =
    codes "# phone"
    ∷ codes " HFP_PHONE_ADDRESS=none"
    ∷ codes "PORT=1"
    ∷ codes "HFP_PHONE_ADDRESS="
    ∷ codes "HFP_PHONE_DEFAULT_ADDRESS="
    ∷ codes "LOG=all  "
    ∷ []
    ∷ []

valid : validate_mac (codes " aa:bb:cc:dd:ee:01") ≡ ok (codes "AA:BB:CC:DD:EE:01")
unfolding validate_mac is_mac strip upper_mac
valid = refl

set_phone_in_service_env-lines_example :
    (kept : List Text) × (set_phone_in_service_env (codes " aa:bb:cc:dd:ee:01") service_env
      ≡ ok (join_lines kept ++ 10 ∷ []))
    × (lines_of phone kept ≡ codes "HFP_PHONE_ADDRESS=AA:BB:CC:DD:EE:01" ∷ [])
    × (lines_of default kept ≡ codes "HFP_PHONE_DEFAULT_ADDRESS=AA:BB:CC:DD:EE:01" ∷ [])
    × (trim_end (lines_of other kept) ≡ trim_end (lines_of other service_env))
set_phone_in_service_env-lines_example =
    set_phone_in_service_env-lines (codes " aa:bb:cc:dd:ee:01") (codes "AA:BB:CC:DD:EE:01")
      service_env valid
