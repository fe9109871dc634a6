-- ===== src/Tests/Events.antt =====
-- A provider's stream of events with a resent event.
use harness_system.Prelude.{ℕ, [], ◌∷◌, List, none}
use harness_system.Providers.Events.{AgentEvent, AgentEventType, normalize_events}
use harness_system.Providers.Events.Order.{IsStream, normalize_events-IsStream}

abbrev numbered : ℕ → AgentEvent
numbered n = record {
  event_id = "event";
  invocation_id = "invocation-1";
  sequence = n;
  event_type = AgentEventType.text_delta;
  provider_event_id = none;
  occurred_at = 50;
  payload = "{}";
  raw_event_artifact_ref = none;
}

abbrev resent : List AgentEvent
resent = numbered 0 ∷ numbered 3 ∷ numbered 3 ∷ numbered 5 ∷ []

abbrev backwards : List AgentEvent
backwards = numbered 0 ∷ numbered 3 ∷ numbered 2 ∷ []

normalize_events-IsStream_example :
    IsStream "invocation-1" none (normalize_events "invocation-1" backwards).0
normalize_events-IsStream_example = normalize_events-IsStream "invocation-1" backwards
