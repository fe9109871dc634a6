-- ===== src/Providers/Events/Order.antt =====
-- Which events `normalize_events` (src/agent_harness/providers/event_stream.py) passes on, and when it
-- raises.
use harness_system.Prelude.{
  ℕ, ◌≤◌, ◌<◌, String, ◌≡◌, inl, inr, false, List, [], ◌∷◌, Option, none, some, arith, ◌==◌, ==_iff,
  string_eq, Bool-cases,
}
use harness_system.Providers.Events.{
  AgentEvent, is_behind, is_duplicate, normalize_events, normalize_from,
}

abbrev pub IsAbove : Option ℕ → ℕ → Type 0
IsAbove none sequence = Unit
IsAbove (some last_sequence) sequence = last_sequence < sequence

abbrev pub IsNotBelow : Option ℕ → ℕ → Type 0
IsNotBelow none sequence = Unit
IsNotBelow (some last_sequence) sequence = last_sequence ≤ sequence

-- Events of one invocation whose numbers increase, from the last number on.
abbrev pub IsStream : String → Option ℕ → List AgentEvent → Type 0
IsStream invocation_id last [] = Unit
IsStream invocation_id last (e ∷ es) =
    (e.invocation_id ≡ invocation_id)
    × IsAbove last e.sequence
    × IsStream invocation_id (some e.sequence) es

-- Events of one invocation whose numbers never decrease.
abbrev pub IsInOrder : String → Option ℕ → List AgentEvent → Type 0
IsInOrder invocation_id last [] = Unit
IsInOrder invocation_id last (e ∷ es) =
    (e.invocation_id ≡ invocation_id)
    × IsNotBelow last e.sequence
    × IsInOrder invocation_id (some e.sequence) es

above : (last : Option ℕ) (n : ℕ) → is_behind last n ≡ false → IsAbove last n
above none n h = tt
above (some m) n h = ground arith

module _ (id : String) where
  from-IsStream :
      (last : Option ℕ) (es : List AgentEvent) → IsStream id last (normalize_from id last es).0
  unfolding normalize_from
  from-IsStream last [] = tt
  from-IsStream last (e ∷ es) =
      let skipped = from-IsStream last es in
      let passed = from-IsStream (some e.sequence) es in
      elim (Bool-cases (e.invocation_id == id)) [
        | inr other ↦ rw other tt
        | inl mine ↦ elim (Bool-cases (is_duplicate last e.sequence)) [
          | inl again ↦ rw (mine, again) skipped
          | inr new ↦ elim (Bool-cases (is_behind last e.sequence)) [
            | inl behind ↦ rw (mine, new, behind) tt
            | inr after ↦
                rw (mine, new, after)
                  ((==_iff e.invocation_id id).0 mine, above last e.sequence after, passed)
          ]
        ]
      ]

  -- Whatever arrives, the events that are passed on are of this invocation, with increasing numbers.
  pub normalize_events-IsStream :
      (events : List AgentEvent) → IsStream id none (normalize_events id events).0
  unfolding normalize_events
  normalize_events-IsStream events = from-IsStream none events
