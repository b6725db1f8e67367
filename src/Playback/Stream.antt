-- ===== src/Playback/Stream.antt =====
-- What a listener may know of the playback in src/hfp_mcp/audio/gemini_playback.py: what was heard, and
-- what is still to be heard. Epochs, frames, batches and the queue are forgotten.
use hermes_phone_hfp.Prelude.{
  ℕ, Bool, Option, none, some, List, [], ◌∷◌, ◌++◌, map, ◌==◌, if◌then◌else◌,
}
use hermes_phone_hfp.Prelude.Text.{Text}
use hermes_phone_hfp.Playback.{Kind, Item}
use hermes_phone_hfp.Playback.Writer.{Waits, Writer, Message, control, bytes, join}

pub data Symbol : Type 0 where
  mark : Kind → Option Text → Symbol
  sample : ℕ → Symbol

pub record Stream : Type 0 where
  pub heard : List Symbol
  pub waiting : List Symbol

abbrev pub symbols_by : Kind → Item → List Symbol
symbols_by Kind.playback_start item = mark Kind.playback_start item.window_id ∷ []
symbols_by Kind.playback_end item = mark Kind.playback_end item.window_id ∷ []
symbols_by Kind.audio item = map sample item.pcm

abbrev pub symbols_of : Item → List Symbol
symbols_of item = symbols_by item.kind item

abbrev pub message_symbols : Message → List Symbol
message_symbols (control kind window_id) = mark kind window_id ∷ []
message_symbols (bytes pcm) = map sample pcm

unfoldable pub heard_of : List Message → List Symbol
heard_of [] = []
heard_of (m ∷ ms) = message_symbols m ++ heard_of ms

unfoldable pub queued : List Item → List Symbol
queued [] = []
queued (item ∷ items) = symbols_of item ++ queued items

-- What the writer holds and will send, unless its epoch has passed.
abbrev pub live : ℕ → Item → List Symbol
live epoch item = if item.epoch == epoch then symbols_of item else []

abbrev pub live_pending : ℕ → Option Item → List Symbol
live_pending epoch none = []
live_pending epoch (some item) = live epoch item

abbrev pub live_batch : ℕ → ℕ → List (List ℕ) → List Symbol
live_batch epoch own frames = if own == epoch then map sample (join frames) else []

abbrev pub in_hand : ℕ → Waits → List Symbol
in_hand epoch Waits.for_item = []
in_hand epoch (Waits.for_time item) = live epoch item
in_hand epoch (Waits.for_batch reason own deadline frames) = live_batch epoch own frames
in_hand epoch (Waits.to_send_start item) = live epoch item
in_hand epoch (Waits.to_send_end item) = live epoch item
in_hand epoch (Waits.to_end_batch item) = live epoch item
in_hand epoch (Waits.to_send_batch reason own frames pending) =
    live_batch epoch own frames ++ live_pending epoch pending
in_hand epoch (Waits.to_send_frame item) = live epoch item
in_hand epoch Waits.finished = []

-- A session that is stopped says nothing more.
abbrev pub lined : Bool → List Symbol → List Symbol → List Symbol
lined stopped held rest = if stopped then [] else held ++ rest

abbrev pub stream_of : Writer → Stream
stream_of w = record {
  heard = heard_of w.sent;
  waiting = lined w.playback.stopped (in_hand w.playback.epoch w.waits) (queued w.playback.queue);
}
