-- ===== src/Providers/Events.antt =====
-- The order of a provider's events: src/agent_harness/providers/event_stream.py. A stream is the list
-- of its events; the generator becomes what it yields, with how it ends.
pub mod Order
use harness_system.Prelude.{
  ℕ, String, Bool, true, false, not, List, [], ◌∷◌, Option, none, some, ◌==◌, string_eq, eqb, leb,
  if◌then◌else◌,
}
use harness_system.Exceptions.{Result, ok, raised, out_of_order_event}

-- `AgentEventType`
pub data AgentEventType : Type 0 where
  session_started turn_started text_delta message_completed tool_requested tool_approved tool_denied
        tool_started tool_completed file_change_reported usage_updated rate_limited warning
        turn_completed error :
      AgentEventType

-- `payload` is the JSON text of the dictionary.
pub record AgentEvent : Type 0 where
  pub event_id : String
  pub invocation_id : String
  pub sequence : ℕ
  pub event_type : AgentEventType
  pub provider_event_id : Option String
  pub occurred_at : ℕ
  pub payload : String
  pub raw_event_artifact_ref : Option String

-- `event.sequence == last_sequence`, where there is a last one
abbrev pub is_duplicate : Option ℕ → ℕ → Bool
is_duplicate none sequence = false
is_duplicate (some last_sequence) sequence = eqb sequence last_sequence

-- `event.sequence <= last_sequence`, where there is a last one
abbrev pub is_behind : Option ℕ → ℕ → Bool
is_behind none sequence = false
is_behind (some last_sequence) sequence = leb sequence last_sequence

abbrev pub yielding :
    AgentEvent → List AgentEvent × Result (Unit {0}) → List AgentEvent × Result (Unit {0})
yielding event (events, end) = (event ∷ events, end)

-- The loop, after an event with the given number.
unfoldable pub normalize_from :
    String → Option ℕ → List AgentEvent → List AgentEvent × Result (Unit {0})
normalize_from invocation_id last_sequence [] = ([], ok tt)
normalize_from invocation_id last_sequence (event ∷ events) =
    let skipped = normalize_from invocation_id last_sequence events in
    let passed = normalize_from invocation_id (some event.sequence) events in
    if not (event.invocation_id == invocation_id)
    then ([], raised out_of_order_event)
    else if is_duplicate last_sequence event.sequence
    then skipped
    else if is_behind last_sequence event.sequence
    then ([], raised out_of_order_event)
    else yielding event passed

unfoldable pub normalize_events : String → List AgentEvent → List AgentEvent × Result (Unit {0})
normalize_events invocation_id events = normalize_from invocation_id none events
