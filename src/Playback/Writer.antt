-- ===== src/Playback/Writer.antt =====
-- `_playback_writer` of src/hfp_mcp/audio/gemini_playback.py, cut where it waits: `resume` goes on with
-- what it waited for, up to its next wait. A send is one step with its completion, since the epoch
-- and the stop event are tested under the lock right before it.
use hermes_phone_hfp.Prelude.{
  ℕ, suc, ◌+◌, ◌-◌, Bool, true, false, not, ◌||◌, Option, none, some, List, [], ◌∷◌, ◌++◌, leb, ltb,
  ◌==◌, max, length, if◌then◌else◌,
}
use hermes_phone_hfp.Prelude.Text.{Text}
use hermes_phone_hfp.Playback.{Kind, Item, Playback, dequeue}

abbrev pub prebuffer_wait : ℕ
prebuffer_wait = 120000

abbrev pub frame_time : ℕ
frame_time = 20000

abbrev pub rebuffer_late : ℕ
rebuffer_late = 80000

abbrev pub playback_prebuffer_frames : ℕ
playback_prebuffer_frames = 8

pub data Reason : Type 0 where
  prebuffering rebuffering : Reason

-- What the writer waits for: an item, the time of a frame, more frames for a batch until a deadline,
-- or the send lock.
pub data Waits : Type 0 where
  for_item : Waits
  for_time : Item → Waits
  for_batch : Reason → ℕ → ℕ → List (List ℕ) → Waits
  to_send_start : Item → Waits
  to_send_end : Item → Waits
  to_end_batch : Item → Waits
  to_send_batch : Reason → ℕ → List (List ℕ) → Option Item → Waits
  to_send_frame : Item → Waits
  finished : Waits

-- What the web socket was given.
pub data Message : Type 0 where
  control : Kind → Option Text → Message
  bytes : List ℕ → Message

pub record Writer : Type 0 where
  pub playback : Playback
  pub waits : Waits
  pub next_send_at : ℕ
  pub sent : List Message

abbrev pub new_writer : Playback → ℕ → Writer
new_writer p now = record { playback = p; waits = for_item; next_send_at = now; sent = [] }

abbrev pub waits_for : Waits → Writer → Writer
waits_for next w = record w { waits = next }

abbrev pub restarts_at : ℕ → Writer → Writer
restarts_at time w = record w { next_send_at = time }

abbrev pub interrupted : ℕ → Writer → Writer
interrupted n w = record w {
  playback = record w.playback {
    metrics = record w.playback.metrics {
      frames_interrupted = w.playback.metrics.frames_interrupted + n;
    };
  };
}

abbrev pub is_stale : ℕ → Writer → Bool
is_stale epoch w = not (epoch == w.playback.epoch)

-- The test of the loop, with no item left over.
abbrev pub next_round : Writer → Writer
next_round w = waits_for (if w.playback.stopped then finished else for_item) w

-- `max(0.0, now - next_send_at)`, and what is recorded of it.
abbrev pub late : ℕ → Writer → ℕ
late now w = now - w.next_send_at

abbrev pub lateness_counted : ℕ → Writer → Writer
lateness_counted lateness w =
    if leb 500 lateness
    then record w {
      playback = record w.playback {
        metrics = record w.playback.metrics {
          late_frames = suc w.playback.metrics.late_frames;
          lateness_total = w.playback.metrics.lateness_total + lateness;
          lateness_max = max w.playback.metrics.lateness_max lateness;
        };
      };
    }
    else w

-- A frame whose time has come.
abbrev pub paced : ℕ → Item → Writer → Writer
paced now item w =
    let counted = lateness_counted (late now w) w in
    if leb rebuffer_late (late now w)
    then waits_for (for_batch rebuffering item.epoch (now + prebuffer_wait) (item.pcm ∷ [])) counted
    else waits_for (to_send_frame item) counted

abbrev pub woken : ℕ → Item → Writer → Writer
woken now item w =
    if is_stale item.epoch w
    then next_round (restarts_at now (interrupted 1 w))
    else paced now item w

abbrev pub by_kind : ℕ → Item → Writer → Kind → Writer
by_kind now item w Kind.playback_start = waits_for (to_send_start item) w
by_kind now item w Kind.playback_end = waits_for (to_send_end item) w
by_kind now item w Kind.audio =
    if ltb now w.next_send_at then waits_for (for_time item) w else woken now item w

abbrev pub taken : ℕ → Item → Writer → Writer
taken now item w =
    if is_stale item.epoch w then next_round (restarts_at now w) else by_kind now item w item.kind

-- The test of the loop, with the item that is left over.
abbrev pub next_pending : ℕ → Option Item → Writer → Writer
next_pending now none w = next_round w
next_pending now (some item) w =
    if w.playback.stopped then waits_for finished w else taken now item w

-- What is left over of a batch whose epoch has passed.
abbrev pub kept : Option Item → Writer → Option Item
kept none w = none
kept (some item) w = if is_stale item.epoch w then none else some item

abbrev pub is_end : Kind → Bool
is_end Kind.playback_end = true
is_end _ = false

abbrev pub behind_batch : ℕ → Option Item → Writer → Writer
behind_batch now none w = next_round w
behind_batch now (some item) w =
    if is_end item.kind then waits_for (to_end_batch item) w else next_pending now (some item) w

-- A batch that is collected. Only a batch at the start of a window can be empty.
abbrev pub to_batch : ℕ → Reason → ℕ → List (List ℕ) → Option Item → Writer → Writer
to_batch now reason epoch [] pending w = behind_batch now pending w
to_batch now reason epoch (frame ∷ frames) pending w =
    waits_for (to_send_batch reason epoch (frame ∷ frames) pending) w

abbrev pub gathered : ℕ → Reason → ℕ → List (List ℕ) → Option Item → Writer → Writer
gathered now reason epoch frames pending w =
    if is_stale epoch w
    then next_pending now (kept pending w) (restarts_at now (interrupted (length frames) w))
    else to_batch now reason epoch frames pending w

abbrev pub is_audio : Kind → Bool
is_audio Kind.audio = true
is_audio _ = false

-- One item of `_collect_playback_batch`, or the end of its short wait for one.
abbrev pub collected :
    ℕ → Reason → ℕ → ℕ → List (List ℕ) → Option (Item × Playback) → Writer → Writer
collected now reason epoch deadline frames none w = w
collected now reason epoch deadline frames (some (item, p)) w =
    let after = record w { playback = p } in
    if not (item.epoch == epoch) || not (is_audio item.kind)
    then gathered now reason epoch frames (some item) after
    else waits_for (for_batch reason epoch deadline (frames ++ item.pcm ∷ [])) after

-- The test of its loop, and those of an interruption and of the deadline.
abbrev pub collects : ℕ → Reason → ℕ → ℕ → List (List ℕ) → Writer → Writer
collects now reason epoch deadline frames w =
    if ltb (length frames) playback_prebuffer_frames
    then (if is_stale epoch w || w.playback.stopped || leb deadline now
        then gathered now reason epoch frames none w
        else collected now reason epoch deadline frames (dequeue w.playback) w)
    else gathered now reason epoch frames none w

-- `_send_playback_control` and `_send_playback_bytes`: the test under the lock, and the send.
abbrev pub may_send : ℕ → Writer → Bool
may_send epoch w = not (is_stale epoch w || w.playback.stopped)

abbrev pub send : Message → Writer → Writer
send message w = record w { sent = w.sent ++ message ∷ [] }

abbrev pub send_control : Item → Writer → Writer
send_control item w = if may_send item.epoch w then send (control item.kind item.window_id) w else w

unfoldable pub join : List (List ℕ) → List ℕ
join [] = []
join (frame ∷ frames) = frame ++ join frames

abbrev pub count_sent : ℕ → Writer → Writer
count_sent n w = record w {
  playback = record w.playback {
    metrics = record w.playback.metrics { frames_sent = w.playback.metrics.frames_sent + n };
  };
}

abbrev pub count_batch : Reason → ℕ → Writer → Writer
count_batch prebuffering n w = record w {
  playback = record w.playback {
    metrics = record w.playback.metrics {
      prebuffer_events = suc w.playback.metrics.prebuffer_events;
      prebuffer_frames = w.playback.metrics.prebuffer_frames + n;
    };
  };
}
count_batch rebuffering n w = record w {
  playback = record w.playback {
    metrics = record w.playback.metrics {
      rebuffer_events = suc w.playback.metrics.rebuffer_events;
      rebuffer_frames = w.playback.metrics.rebuffer_frames + n;
    };
  };
}

abbrev pub send_batch : ℕ → Reason → ℕ → List (List ℕ) → Option Item → Writer → Writer
send_batch now reason epoch frames pending w =
    if may_send epoch w
    then behind_batch now pending (
        restarts_at (now + frame_time) (
          count_batch reason (length frames)
            (count_sent (length frames) (send (bytes (join frames)) w))))
    else next_pending now pending (interrupted (length frames) w)

abbrev pub send_frame : Item → Writer → Writer
send_frame item w =
    if may_send item.epoch w
    then next_round
        (restarts_at (w.next_send_at + frame_time) (count_sent 1 (send (bytes item.pcm) w)))
    else next_round (interrupted 1 w)

abbrev pub send_start : ℕ → Item → Writer → Writer
send_start now item w =
    if may_send item.epoch w
    then waits_for (for_batch prebuffering item.epoch (now + prebuffer_wait) [])
        (send (control item.kind item.window_id) w)
    else next_round w

abbrev pub received : ℕ → Option (Item × Playback) → Writer → Writer
received now none w = w
received now (some (item, p)) w = taken now item (record w { playback = p })

abbrev pub resumed : ℕ → Waits → Writer → Writer
resumed now for_item w = received now (dequeue w.playback) w
resumed now (for_time item) w = woken now item w
resumed now (for_batch reason epoch deadline frames) w = collects now reason epoch deadline frames w
resumed now (to_send_start item) w = send_start now item w
resumed now (to_send_end item) w = next_round (restarts_at now (send_control item w))
resumed now (to_end_batch item) w = next_round (send_control item w)
resumed now (to_send_batch reason epoch frames pending) w =
    send_batch now reason epoch frames pending w
resumed now (to_send_frame item) w = send_frame item w
resumed now finished w = w

-- The writer goes on at this time, with one reading of the clock for the step.
unfoldable pub resume : ℕ → Writer → Writer
resume now w = resumed now w.waits w
