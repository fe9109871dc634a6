-- ===== src/Pipeline/Sessions.antt =====
-- The sessions of the providers across `run_task_pipeline`
-- (src/agent_harness/application/orchestrator.py), for any run and however the pipeline ends.
use harness_system.Prelude.{String, ◌≡◌, refl, Bool, List, [], ◌∷◌, ◌++◌, append_assoc}
use harness_system.Domain.Enums.{AgentRole}
use harness_system.Domain.Models.{PolicyDecision, Run, Task}
use harness_system.Domain.Digests.{Digests}
use harness_system.Checks.{VerifiedVerification}
use harness_system.Providers.Protocol.{AgentRunRequest}
use harness_system.Pipeline.Exec.{Event, World}
use harness_system.Pipeline.Exec.Moves.{IsStable}
use harness_system.Pipeline.Deps.{PipelineDeps}
use harness_system.Pipeline.Run.{run_task_pipeline}
use harness_system.Pipeline.Moves.Rounds.{run_task_pipeline-Moves}

-- The events of whole sessions, newest first: a session is closed for the role that it was started
-- for, once everything that was done in it is over.
pub data IsBracketed : List Event → Type 0 where
  nothing : IsBracketed []
  invoked :
      {q : AgentRunRequest} {es : List Event} → IsBracketed es → IsBracketed (Event.invoked q ∷ es)
  policy_answered :
      {d : PolicyDecision} {b : Bool} {es : List Event}
      → IsBracketed es
      → IsBracketed (Event.policy_answered d b ∷ es)
  final_answered :
      {v : VerifiedVerification} {b : Bool} {es : List Event}
      → IsBracketed es
      → IsBracketed (Event.final_answered v b ∷ es)
  session :
      {role : AgentRole} {inside es : List Event}
      → IsBracketed inside
      → IsBracketed es
      → IsBracketed (Event.session_closed role ∷ inside ++ Event.session_started role ∷ es)

append-IsBracketed :
    (more past : List Event) → IsBracketed more → IsBracketed past → IsBracketed (more ++ past)
append-IsBracketed more past nothing h = h
append-IsBracketed more past (IsBracketed.invoked b) h =
    IsBracketed.invoked (append-IsBracketed _ past b h)
append-IsBracketed more past (IsBracketed.policy_answered b) h =
    IsBracketed.policy_answered (append-IsBracketed _ past b h)
append-IsBracketed more past (IsBracketed.final_answered b) h =
    IsBracketed.final_answered (append-IsBracketed _ past b h)
append-IsBracketed more past (session {role = role} {inside = inside} {es = es} a b) h =
    rw (append_assoc) (session {role = role} a (append-IsBracketed es past b h))

-- The pipeline adds whole sessions to its history.
abbrev pub AddsSessions : World → World → Type 0
AddsSessions v w = (more : List Event) × (w.history ≡ more ++ v.history) × IsBracketed more

adds_one :
    (w : World) (e : Event)
    → IsBracketed (e ∷ [])
    → AddsSessions w (record w { history = e ∷ w.history })
adds_one w e b = (e ∷ [], refl, b)

AddsSessions-IsStable : (digests : Digests) → IsStable digests AddsSessions
AddsSessions-IsStable digests = record {
  same = λ w. ([], refl, nothing);
  chain =
      λ u v w (m, p, a) (n, q, b). (n ++ m, rw (q, p, append_assoc), append-IsBracketed n m b a);
  ticked = λ w n. ([], refl, nothing);
  prompted = λ w ref text. ([], refl, nothing);
  invoked = λ w q. adds_one w _ (IsBracketed.invoked nothing);
  policy = λ w d b. adds_one w _ (IsBracketed.policy_answered nothing);
  final = λ w v b. adds_one w _ (IsBracketed.final_answered nothing);
  session = λ v w role (m, p, b). (
    Event.session_closed role ∷ m ++ Event.session_started role ∷ [],
    rw (p, append_assoc),
    session {role = role} b nothing,
  );
  transition = λ w q. ([], refl, nothing);
  contract = λ w c id t h. ([], refl, nothing);
  decision = λ w d id t h. ([], refl, nothing);
  result = λ w v id t h. ([], refl, nothing);
  rework = λ w r id t h. ([], refl, nothing);
}

module _ (deps : PipelineDeps) (run : Run) (task : Task) (user_request_text : String)
    (w : World) where
  -- However the pipeline ends, it has added whole sessions to the history: each session of a provider
  -- that was started is closed, once and for its role, when all that was done in it is over.
  pub run_task_pipeline-AddsSessions :
      AddsSessions w (run_task_pipeline deps run task user_request_text w).1
  run_task_pipeline-AddsSessions =
      (run_task_pipeline-Moves deps _ (AddsSessions-IsStable deps.digests) run task
          user_request_text).at
        w
