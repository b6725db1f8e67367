-- ===== src/Media/Steps.antt =====
-- The methods of src/hfp_mcp/media.py as the steps of one state machine.
use hermes_phone_hfp.Prelude.{String, Option, List, [], ◌∷◌}
use hermes_phone_hfp.Prelude.Text.{Text}
use hermes_phone_hfp.Media
use hermes_phone_hfp.Media.{MediaLease, MediaLeaseManager}

pub data Op : Type 0 where
  acquire : Text → String → String → Op
  release : Option Text → Op
  release_if : MediaLease → Op

unfoldable pub apply : Op → MediaLeaseManager → MediaLeaseManager
apply (Op.acquire hex call_id owner) m = (Media.acquire hex call_id owner m).1
apply (Op.release id) m = (Media.release id m).1
apply (Op.release_if l) m = (Media.release_if l m).1

unfoldable pub run : List Op → MediaLeaseManager → MediaLeaseManager
run [] m = m
run (op ∷ rest) m = run rest (apply op m)
