-- ===== src/Pipeline/Progress/Turns.antt =====
-- The turns of the providers are quiet: `_invoke_role` of
-- src/agent_harness/application/orchestrator.py.
use harness_system.Prelude.{ℕ, ◌≡◌, ◌⊎◌, true, List, string_eq}
use harness_system.Exceptions.{Exception, not_capable, timed_out, pipeline_timeout}
use harness_system.Domain.Enums.{AgentRole}
use harness_system.Providers.Protocol.{
  AgentProvider, AgentRunRequest, AgentRunResult, ProviderInvocationRef, ProviderSessionRef,
  StartSessionRequest,
}
use harness_system.Pipeline.Exec.{Event, M}
use harness_system.Pipeline.Deps.{PipelineDeps, Message}
use harness_system.Pipeline.Invoke.{
  Invocation, agent_run_request, ignore_incapable, cancel_late, run_invocation, close_session,
  in_session, put_prompt, invoke_role,
}
use harness_system.Pipeline.Gate.{claude_tool_ids_for}
use harness_system.Pipeline.Grants.{Extends, IsPermitted}
use harness_system.Pipeline.Progress.Quiet.{
  IsQuiet, is_expected, quiet_rules, IsQuiet-raise, IsQuiet-observe, IsQuiet-bind,
}

module _ (deps : PipelineDeps) (past : List Event) (late : Exception) where
  abbrev pub Covers : AgentRunRequest → Type 0
  Covers request =
      (history : List Event)
      → Extends past history
      → request.role ≡ AgentRole.worker
      → IsPermitted deps history request.effective_policy_grants
        × (request.allowed_tool_ids ≡ claude_tool_ids_for request.effective_policy_grants)

  ignore_incapable-IsQuiet :
      (e : Exception)
      → ((is_expected e ≡ true) ⊎ (e ≡ late))
      → IsQuiet deps past late (ignore_incapable e)
  unfolding ignore_incapable
  ignore_incapable-IsQuiet not_capable h = search quiet_rules
  ignore_incapable-IsQuiet e h = IsQuiet-raise deps past late e h

  cancel_late-IsQuiet :
      (provider : AgentProvider) (invocation : ProviderInvocationRef) (e : Exception)
      → ((is_expected e ≡ true) ⊎ (e ≡ late))
      → IsQuiet deps past late (cancel_late provider invocation late e)
  unfolding cancel_late
  cancel_late-IsQuiet provider invocation timed_out h =
      search (quiet_rules, ignore_incapable-IsQuiet)
  cancel_late-IsQuiet provider invocation e h = IsQuiet-raise deps past late e h

  pub run_invocation-IsQuiet :
      (provider : AgentProvider) (session : ProviderSessionRef) (request : AgentRunRequest)
      (timeout_seconds : ℕ)
      → Covers request
      → IsQuiet deps past late (run_invocation provider session request timeout_seconds late)
  unfolding run_invocation
  run_invocation-IsQuiet provider session request timeout_seconds covers =
      search (quiet_rules, IsQuiet-observe, cancel_late-IsQuiet)

  close_session-IsQuiet :
      (provider : AgentProvider) (role : AgentRole) (session : ProviderSessionRef)
      → IsQuiet deps past late (close_session provider role session)
  unfolding close_session
  close_session-IsQuiet provider role session =
      IsQuiet-bind deps past late _ _
        (IsQuiet-observe deps past late (Event.session_closed role) (λ history h. tt))
        (λ u. search quiet_rules)

  pub in_session-IsQuiet :
      (provider : AgentProvider) (request : StartSessionRequest)
      (body : ProviderSessionRef → M AgentRunResult)
      → ((session : ProviderSessionRef) → IsQuiet deps past late (body session))
      → IsQuiet deps past late (in_session provider request body)
  unfolding in_session
  in_session-IsQuiet provider request body all =
      IsQuiet-bind deps past late _ _ (search quiet_rules) (λ session.
        IsQuiet-bind deps past late _ _
          (IsQuiet-observe deps past late (Event.session_started request.role) (λ history h. tt))
          (λ u. search (quiet_rules, close_session-IsQuiet)))

module _ (deps : PipelineDeps) (past : List Event) where
  put_prompt-IsQuiet :
      (prompt : Message) → IsQuiet deps past pipeline_timeout (put_prompt deps prompt)
  unfolding put_prompt
  put_prompt-IsQuiet prompt = search quiet_rules

  pub invoke_role-IsQuiet :
      (provider : AgentProvider) (role : AgentRole) (q : Invocation)
      → ((history : List Event)
          → Extends past history
          → role ≡ AgentRole.worker
          → IsPermitted deps history q.effective_policy_grants
            × (q.allowed_tool_ids ≡ claude_tool_ids_for q.effective_policy_grants))
      → IsQuiet deps past pipeline_timeout (invoke_role deps provider role q)
  unfolding invoke_role agent_run_request
  invoke_role-IsQuiet provider role q covers =
      search (quiet_rules, in_session-IsQuiet, run_invocation-IsQuiet, put_prompt-IsQuiet) depth 10
