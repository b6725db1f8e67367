-- ===== src/Playback/Steps.antt =====
-- The session's methods on playback in src/hfp_mcp/audio/gemini_playback.py and gemini_live.py as steps
-- of one event loop: between two waits of the writer any of the others may run.
use hermes_phone_hfp.Prelude.{ℕ, Bool, true, Option, List, [], ◌∷◌}
use hermes_phone_hfp.Prelude.Text.{Text}
use hermes_phone_hfp.Playback
use hermes_phone_hfp.Playback.{Playback}
use hermes_phone_hfp.Playback.Writer.{Writer, resume}

pub data Op : Type 0 where
  enqueue_pcm : Option Text → List ℕ → Op
  flush_partial : Option Text → Op
  begin_window : Op
  end_window : Option Text → Op
  discard : Bool → Op
  reset : Op
  stop : Op
  resumes : ℕ → Op

abbrev pub with_playback : Playback → Writer → Writer
with_playback p w = record w { playback = p }

abbrev pub stopped : Playback → Playback
stopped p = record p { stopped = true }

unfoldable pub apply : Op → Writer → Writer
apply (Op.enqueue_pcm window_id pcm) w =
    with_playback (Playback.enqueue_pcm window_id pcm w.playback).1 w
apply (Op.flush_partial window_id) w =
    with_playback (Playback.flush_partial window_id w.playback).1 w
apply Op.begin_window w = with_playback (Playback.begin_window w.playback).1 w
apply (Op.end_window window_id) w = with_playback (Playback.end_window window_id w.playback).1 w
apply (Op.discard interrupted) w = with_playback (Playback.discard interrupted w.playback) w
apply Op.reset w = with_playback (Playback.reset w.playback) w
apply Op.stop w = with_playback (stopped w.playback) w
apply (Op.resumes now) w = resume now w

unfoldable pub run : List Op → Writer → Writer
run [] w = w
run (op ∷ ops) w = run ops (apply op w)
