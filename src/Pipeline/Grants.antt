-- ===== src/Pipeline/Grants.antt =====
-- Which grants a Worker may be invoked with, read off the history of a pipeline
-- (src/agent_harness/application/orchestrator.py).
use harness_system.Prelude.{◌≡◌, refl, ◌⊎◌, inl, inr, true, List, [], ◌∷◌, ◌++◌, append_assoc}
use harness_system.Exceptions.{ok}
use harness_system.Domain.Enums.{AgentRole, PolicyOutcome}
use harness_system.Domain.Models.{PolicyDecision, PolicyGrants}
use harness_system.Policy.{PolicyRequest, evaluate_policy}
use harness_system.Pipeline.Exec.{Event}
use harness_system.Pipeline.Deps.{PipelineDeps}
use harness_system.Pipeline.Gate.{claude_tool_ids_for}
use harness_system.Pipeline.Exec.Moves.{IsStable}

-- The event is in the history.
pub data Occurs (e : Event) : List Event → Type 0 where
  newest : {past : List Event} → Occurs e (e ∷ past)
  earlier : {f : Event} {past : List Event} → Occurs e past → Occurs e (f ∷ past)

pub Occurs-append : (e : Event) (more past : List Event) → Occurs e past → Occurs e (more ++ past)
Occurs-append e [] past h = h
Occurs-append e (f ∷ more) past h = earlier (Occurs-append e more past h)

-- The second history has the first one as its past.
abbrev pub Extends : List Event → List Event → Type 0
Extends past history = (more : List Event) × (history ≡ more ++ past)

module _ (deps : PipelineDeps) where
  -- The grants are those of a policy decision that allows them, or that a user has approved.
  pub record IsPermitted (history : List Event) (grants : PolicyGrants) : Type 0 where
    pub decision : PolicyDecision
    pub request : PolicyRequest
    pub evaluated : evaluate_policy deps.digests request deps.policy_ceiling ≡ ok decision
    pub granted : grants ≡ decision.grants
    pub approved :
        (decision.outcome ≡ PolicyOutcome.allow)
        ⊎ Occurs (Event.policy_answered decision true) history

  pub IsPermitted-extends :
      (past history : List Event) (grants : PolicyGrants)
      → Extends past history
      → IsPermitted past grants
      → IsPermitted history grants
  IsPermitted-extends past history grants (more, same) p = record {
    decision = p.decision;
    request = p.request;
    evaluated = p.evaluated;
    granted = p.granted;
    approved = elim p.approved [
      | inl allowed ↦ inl allowed
      | inr answered ↦
          inr (rw same (Occurs-append (Event.policy_answered p.decision true) more past answered))
    ];
  }

  -- An invocation of the Worker has grants that were permitted before it, and the tools that these
  -- grants allow.
  abbrev pub IsCovered : Event → List Event → Type 0
  IsCovered (Event.invoked q) past =
      q.role ≡ AgentRole.worker
      → IsPermitted past q.effective_policy_grants
        × (q.allowed_tool_ids ≡ claude_tool_ids_for q.effective_policy_grants)
  IsCovered _ past = Unit

  -- So has every invocation of the history.
  abbrev pub AllCovered : List Event → Type 0
  AllCovered [] = Unit
  AllCovered (e ∷ past) = IsCovered e past × AllCovered past

  Extends-cons :
      (past history : List Event) (e : Event) → Extends past history → Extends past (e ∷ history)
  Extends-cons past history e (more, same) = (e ∷ more, rw same)

  -- The pipeline only adds to its history.
  pub Extends-IsStable : IsStable deps.digests (λ v w. Extends v.history w.history)
  Extends-IsStable = record {
    same = λ w. ([], refl);
    chain = λ u v w (m, p) (n, q). (n ++ m, rw (q, p, append_assoc));
    ticked = λ w n. ([], refl);
    prompted = λ w ref text. ([], refl);
    invoked = λ w q. (Event.invoked q ∷ [], refl);
    policy = λ w d b. (Event.policy_answered d b ∷ [], refl);
    final = λ w v b. (Event.final_answered v b ∷ [], refl);
    session = λ v w role (m, p).
        (Event.session_closed role ∷ (m ++ Event.session_started role ∷ []), rw (p, append_assoc));
    transition = λ w q. ([], refl);
    contract = λ w c id t h. ([], refl);
    decision = λ w d id t h. ([], refl);
    result = λ w v id t h. ([], refl);
    rework = λ w r id t h. ([], refl);
  }
