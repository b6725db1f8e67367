-- ===== src/Tests/Playback.antt =====
-- The playback of src/hfp_mcp/audio/gemini_playback.py: a clip of a frame and a half that is queued,
-- interrupted and queued again.
use hermes_phone_hfp.Prelude.{
  false, ℕ, true, Option, some, List, [], ◌∷◌, ◌++◌, ◌≡◌, refl, map, length, arith,
}
use hermes_phone_hfp.Prelude.Text.{Text, codes}
use hermes_phone_hfp.Playback.{
  new_playback, zeros, enqueue_pcm, dequeue, begin_window, enqueue_control, put_nowait, put_frames,
  end_window, flush_partial,
}
use hermes_phone_hfp.Playback.Writer.{resume}
use hermes_phone_hfp.Playback.Bounds.{IsBounded, shape_of}
use hermes_phone_hfp.Playback.Stream.{heard_of, stream_of}
use hermes_phone_hfp.Playback.Enqueue.{Conserves, enqueue_pcm-Conserves}
use hermes_phone_hfp.Playback.Steps.{Op, run, apply}
use hermes_phone_hfp.Playback.Progress.{is_finished, steps_left, IsDue}
use hermes_phone_hfp.Playback.Heard.{ticks, all_heard}
use hermes_phone_hfp.Playback.Order.{Trace, started, run-IsBounded, run-Trace, discard_silences}

abbrev window : Option Text
window = some (codes "0-1")

abbrev clip : List ℕ
clip = zeros 480

abbrev conversation : List Op
conversation =
    Op.begin_window
    ∷ Op.enqueue_pcm window clip
    ∷ Op.resumes 1000
    ∷ Op.resumes 1100
    ∷ Op.resumes 1200
    ∷ Op.flush_partial window
    ∷ Op.end_window window
    ∷ Op.resumes 1300
    ∷ Op.resumes 1400
    ∷ Op.resumes 1500
    ∷ Op.resumes 1600
    ∷ []

-- The start of the window, both frames in one batch, and its end.
three_messages : length (run conversation (started 6 2 500)).sent ≡ 3
unfolding run apply resume dequeue enqueue_pcm zeros begin_window enqueue_control put_nowait
    put_frames end_window flush_partial
three_messages = refl

enqueue_pcm-Conserves_example :
    Conserves window clip (new_playback 6 2) (enqueue_pcm window clip (new_playback 6 2))
enqueue_pcm-Conserves_example = enqueue_pcm-Conserves window clip (new_playback 6 2) (omega arith)

run-IsBounded_example : IsBounded (shape_of (run conversation (started 6 2 500)).playback)
run-IsBounded_example = run-IsBounded 6 2 500 conversation

run-Trace_example :
    Trace conversation
      (record { heard = []; waiting = [] })
      (stream_of (run conversation (started 6 2 500)))
run-Trace_example = run-Trace 6 2 500 conversation

discard_silences_example :
    heard_of
      (run
        (map Op.resumes (200000 ∷ 300000 ∷ []))
        (apply (Op.discard true) (run conversation (started 6 2 500)))).sent
    ≡ heard_of (run conversation (started 6 2 500)).sent
discard_silences_example = discard_silences 6 2 500 conversation true (200000 ∷ 300000 ∷ [])

abbrev spoken : List Op
spoken = Op.begin_window ∷ Op.enqueue_pcm window clip ∷ Op.resumes 1000 ∷ []

still_running : (run spoken (started 6 2 500)).playback.stopped ≡ false
unfolding run apply resume dequeue enqueue_pcm zeros begin_window enqueue_control put_nowait
    put_frames end_window flush_partial
still_running = refl

not_ended : is_finished (run spoken (started 6 2 500)).waits ≡ false
unfolding run apply resume dequeue enqueue_pcm zeros begin_window enqueue_control put_nowait
    put_frames end_window flush_partial
not_ended = refl

no_batch_yet : IsDue 2000 (run spoken (started 6 2 500)).waits
unfolding run apply resume dequeue enqueue_pcm zeros begin_window enqueue_control put_nowait
    put_frames end_window flush_partial
no_batch_yet = tt

all_heard_example :
    heard_of
      (run
        (map Op.resumes (ticks 2000 (steps_left (run spoken (started 6 2 500)))))
        (run spoken (started 6 2 500))).sent
    ≡ heard_of (run spoken (started 6 2 500)).sent
      ++ (stream_of (run spoken (started 6 2 500))).waiting
all_heard_example = all_heard 6 2 500 spoken 2000 still_running not_ended no_batch_yet
