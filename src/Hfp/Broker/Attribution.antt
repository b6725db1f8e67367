-- ===== src/Hfp/Broker/Attribution.antt =====
-- The terminal answers of the phone carry no name of their command. `ATCommandBroker` of
-- src/hfp_mcp/hfp/session.py attributes them by order, and holds the channel after a timeout.
use hermes_phone_hfp.Prelude.{
  ℕ, suc, Bool, true, false, ◌||◌, none, some, List, [], ◌∷◌, ◌++◌, length, ◌≤◌, is_some, is_none,
  ltb, Bool-cases, Option-cases, ◌≡◌, refl, arith, ◌⊎◌, inl, inr,
}
use hermes_phone_hfp.Prelude.Text.{Text}
use hermes_phone_hfp.Hfp.Line.{ParsedAt}
use hermes_phone_hfp.Hfp.Broker
use hermes_phone_hfp.Hfp.Broker.{
  Began, started, Future, Pending, Broker, Request, fresh_broker, terminal_quarantined, waits,
  begin, handle_event, time_out,
}

-- The broker and the phone: commands are numbered as they are sent, `current` is the number of the
-- last one, and `outstanding` are those that the phone has not answered, oldest first.
pub record World : Type 0 where
  pub broker : Broker
  pub current : ℕ
  pub outstanding : List ℕ

pub data Action : Type 0 where
  start : ℕ → Request → Action
  answer : Bool → Text → Action
  result : Text → Text → Action
  unsolicited : Text → Text → Action
  finish : Action
  expire : ℕ → Action
  cancel : ℕ → Action

abbrev after_start : World → Began × Broker → World
after_start w (started, b) = record {
  broker = b;
  current = suc w.current;
  outstanding = w.outstanding ++ suc w.current ∷ [];
}
after_start w (_, b) = record w { broker = b }

-- The phone answers its oldest command; without one it sends no answer.
abbrev after_answer : Bool → Text → World → List ℕ → World
after_answer success code w [] = w
after_answer success code w (k ∷ ks) = record w {
  broker = (handle_event (ParsedAt.response success code) w.broker).0;
  outstanding = ks;
}

unfoldable pub act : Action → World → World
act (Action.start now q) w = after_start w (begin now q w.broker)
act (Action.answer success code) w = after_answer success code w w.outstanding
act (Action.result prefix payload) w = record w {
  broker = (handle_event (ParsedAt.result prefix payload) w.broker).0;
}
act (Action.unsolicited prefix payload) w = record w {
  broker = (handle_event (ParsedAt.unsolicited prefix payload) w.broker).0;
}
act Action.finish w = record w { broker = (Broker.finish w.broker).1 }
act (Action.expire now) w = record w { broker = time_out now w.broker }
act (Action.cancel now) w = record w { broker = Broker.cancel now w.broker }

abbrev nothing_owed : List ℕ → Bool
nothing_owed [] = true
nothing_owed (k ∷ ks) = false

-- No command is started when a quarantine ran out with its answer still missing.
abbrev in_time : Action → World → Bool
in_time (Action.start now q) w = elim w.broker.quarantine_until [
  | none ↦ true
  | some until ↦ ltb now until || nothing_owed w.outstanding
]
in_time _ w = true

abbrev pub InTime : List Action → World → Type 0
InTime [] w = Unit
InTime (a ∷ rest) w = (in_time a w ≡ true) × InTime rest (act a w)

unfoldable pub run : List Action → World → World
run [] w = w
run (a ∷ rest) w = run rest (act a w)

-- Exactly the command that waits is unanswered, or the orphan that the channel is held for.
pub record Tracks (w : World) : Type 0 where
  pub waiting : waits w.broker.pending ≡ true → w.outstanding ≡ w.current ∷ []
  pub free : waits w.broker.pending ≡ true → w.broker.quarantine_until ≡ none
  pub held :
      waits w.broker.pending ≡ false
      → is_some w.broker.quarantine_until ≡ true
      → length w.outstanding ≤ 1
  pub settled :
      waits w.broker.pending ≡ false → w.broker.quarantine_until ≡ none → w.outstanding ≡ []

act-Tracks : (a : Action) (w : World) → in_time a w ≡ true → Tracks w → Tracks (act a w)
unfolding act begin handle_event Broker.finish time_out Broker.cancel
act-Tracks (Action.start now q) w h t = ground arith
act-Tracks _ w h t = ground arith

run-Tracks :
    (actions : List Action) (w : World) → InTime actions w → Tracks w → Tracks (run actions w)
unfolding run
run-Tracks [] w h t = t
run-Tracks (a ∷ rest) w h t = run-Tracks rest (act a w) h.1 (act-Tracks a w h.0 t)

abbrev pub start_of : ℕ → ℕ → World
start_of quarantine generation = record {
  broker = fresh_broker quarantine generation;
  current = 0;
  outstanding = [];
}

-- Where the answer that the phone owes next goes: it completes the command that it answers, which
-- is the only one unanswered, or it is swallowed and only ends the quarantine.
abbrev pub GoesRight : ℕ → List ℕ → Bool → Text → World → Type 0
GoesRight k ks success code w =
    let b = (handle_event (ParsedAt.response success code) w.broker).0 in
    ((waits w.broker.pending ≡ true) × (waits b.pending ≡ false) × (k ≡ w.current) × (ks ≡ []))
    ⊎ ((b.pending ≡ w.broker.pending) × (is_none b.quarantine_until ≡ true) × (ks ≡ []))

Tracks-GoesRight :
    (k : ℕ) (ks : List ℕ) (success : Bool) (code : Text) (w : World)
    → Tracks w
    → w.outstanding ≡ k ∷ ks
    → GoesRight k ks success code w
unfolding handle_event
Tracks-GoesRight k ks success code w t owed = elim (Bool-cases (waits w.broker.pending)) [
  | inl h ↦
      inl (h, ground (arith, t.free h), ground (arith, t.waiting h), ground (arith, t.waiting h))
  | inr h ↦ elim (Option-cases w.broker.quarantine_until) [
    | inl clear ↦ absurd (ground (arith, t.settled h clear))
    | inr (until, q) ↦ inr (ground (arith, q), ground (arith, q), ground (arith, q, t.held h))
  ]
]

-- A late answer never completes a later command. After any interleaving of commands, results,
-- answers in the order of the commands, timeouts and cancellations, in which no command starts when
-- a quarantine ran out unanswered, the next answer of the phone either answers the command that
-- waits, which is then the only unanswered one, or leaves every transaction as it is and ends the
-- quarantine.
pub answers_attributed :
    (quarantine generation : ℕ) (actions : List Action) (k : ℕ) (ks : List ℕ) (success : Bool)
    (code : Text)
    → InTime actions (start_of quarantine generation)
    → (run actions (start_of quarantine generation)).outstanding ≡ k ∷ ks
    → GoesRight k ks success code (run actions (start_of quarantine generation))
answers_attributed quarantine generation actions k ks success code timely owed =
    let w = run actions (start_of quarantine generation) in
    Tracks-GoesRight k ks success code w
      (run-Tracks actions (start_of quarantine generation) timely
        (record { waiting = λ h. cc; free = λ h. refl; held = λ h i. cc; settled = λ h i. refl }))
      owed
