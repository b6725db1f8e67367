-- ===== src/Enrollment/Steps.antt =====
-- An open window of src/hfp_mcp/enrollment.py as the requests that come in it.
use hermes_phone_hfp.Prelude.{ℕ, Bool, true, false, List, [], ◌∷◌, if◌then◌else◌}
use hermes_phone_hfp.Prelude.Text.{Text}
use hermes_phone_hfp.Prelude.Result.{Result, ok, err}
use hermes_phone_hfp.Contracts.Validate.{ContractError, validate_mac}
use hermes_phone_hfp.Enrollment.{
  GateFile, absent, authorize_enrollment_address, enrollment_candidate,
}

-- What happens while a window is open: requests, with a claim or without, looks at the candidate, and
-- the closing of the gate.
pub data Op : Type 0 where
  authorize : Text → Bool → ℕ → Op
  look : ℕ → Op
  close : Op

-- The gate, and the addresses that a claim was granted to, as they were validated.
pub record Window : Type 0 where
  pub file : GateFile
  pub granted : List Text

abbrev pub answered : Text → Bool → Window → Result ContractError Bool × GateFile → Window
answered normalized claim w (ok true, file) = record {
  file = file;
  granted = if claim then normalized ∷ w.granted else w.granted;
}
answered normalized claim w (ok false, file) = record w { file = file }
answered normalized claim w (err _, file) = record w { file = file }

abbrev pub authorized : Text → Bool → ℕ → Window → Result ContractError Text → Window
authorized address claim now w (err _) = w
authorized address claim now w (ok normalized) =
    answered normalized claim w (authorize_enrollment_address address claim now w.file)

unfoldable pub apply : Op → Window → Window
apply (Op.authorize address claim now) w = authorized address claim now w (validate_mac address)
apply (Op.look now) w = record w { file = (enrollment_candidate now w.file).1 }
apply Op.close w = record w { file = absent }

unfoldable pub run : List Op → Window → Window
run [] w = w
run (op ∷ ops) w = run ops (apply op w)
