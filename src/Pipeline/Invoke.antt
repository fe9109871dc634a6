-- ===== src/Pipeline/Invoke.antt =====
-- One turn of a provider under a deadline: `_invoke_role` of
-- src/agent_harness/application/orchestrator.py, and the part that `run_verification` of
-- src/agent_harness/application/verification.py has in common with it.
use Prim.Native.String.{◌++◌ as append}
use harness_system.Prelude.{ℕ, ◌+◌, ◌*◌, String, true, List, [], Option, none, some}
use harness_system.Exceptions.{Exception, pipeline_timeout, timed_out, not_capable}
use harness_system.Domain.Enums.{AgentRole}
use harness_system.Domain.Models.{BudgetRequest, PolicyGrants}
use harness_system.Providers.Protocol.{
  AgentProvider, AgentRunRequest, AgentRunResult, ProviderInvocationRef, ProviderSessionRef,
  StartSessionRequest,
}
use harness_system.Pipeline.Exec.{
  M, Event, pure, throw, ◌>>=◌, ◌>>◌, catch, finally, ask, draw, observe, put,
}
use harness_system.Pipeline.Deps.{PipelineDeps, Message}

-- `_compute_deadline`, in microseconds.
unfoldable pub compute_deadline : BudgetRequest → ℕ → ℕ
compute_deadline budget now = now + budget.timeout_seconds * 1000000

abbrev pub role_text : AgentRole → String
role_text AgentRole.planner = "planner"
role_text AgentRole.worker = "worker"
role_text AgentRole.verifier = "verifier"

-- `except ProviderCapabilityError: pass`
unfoldable pub ignore_incapable : Exception → M (Unit {0})
ignore_incapable not_capable = pure tt
ignore_incapable e = throw e

-- `except asyncio.TimeoutError:` a cancellation is tried, and `late` is raised.
unfoldable pub cancel_late :
    AgentProvider → ProviderInvocationRef → Exception → Exception → M AgentRunResult
unfolding ignore_incapable
cancel_late provider invocation late timed_out = do
  catch
      (do
        answer ← ask (
            provider.cancel invocation (record {
              invocation_id = invocation.opaque_ref;
              reason = "deadline exceeded";
              force = true;
            }))
        pure tt)
      ignore_incapable
  throw late
cancel_late provider invocation late e = throw e

-- The body of the outer `try`, after the request has been built.
unfoldable pub run_invocation :
    AgentProvider → ProviderSessionRef → AgentRunRequest → ℕ → Exception → M AgentRunResult
unfolding cancel_late
run_invocation provider session request timeout_seconds late = do
  observe (Event.invoked request)
  invocation ← ask (provider.start_invocation session request)
  catch (ask (provider.await_result invocation timeout_seconds))
      (cancel_late provider invocation late)

-- `await provider.close_session(session)`
unfoldable pub close_session : AgentProvider → AgentRole → ProviderSessionRef → M (Unit {0})
close_session provider role session = do
  observe (Event.session_closed role)
  ask (provider.close_session session)

-- A session of a provider round one action, which is closed however that ends.
unfoldable pub in_session :
    AgentProvider → StartSessionRequest → (ProviderSessionRef → M AgentRunResult) → M AgentRunResult
unfolding close_session
in_session provider request body = do
  session ← ask (provider.start_session request)
  observe (Event.session_started request.role)
  finally (body session) (close_session provider request.role session)

-- The arguments of `_invoke_role` that vary.
pub record Invocation : Type 0 where
  pub prompt : Message
  pub task_contract_ref : String
  pub task_contract_digest : String
  pub output_schema_id : String
  pub effective_policy_grants : PolicyGrants
  pub workspace_handle : String
  pub role_profile_ref : String
  pub budget : BudgetRequest
  pub correlation_id : String
  pub allowed_tool_ids : List String
  pub rework_contract_ref : Option String
  pub rework_contract_digest : Option String

module _ (deps : PipelineDeps) where
  unfoldable pub agent_run_request :
      AgentRole → Invocation → ℕ → String → String → String → AgentRunRequest
  agent_run_request role q deadline prompt_ref invocation_id key = record {
    invocation_id = invocation_id;
    role = role;
    task_contract_ref = q.task_contract_ref;
    task_contract_digest = q.task_contract_digest;
    rework_contract_ref = q.rework_contract_ref;
    rework_contract_digest = q.rework_contract_digest;
    context_snapshot_ref = "context-ref";
    context_snapshot_digest = q.task_contract_digest;
    role_profile_ref = q.role_profile_ref;
    role_profile_digest = deps.role_profile_digest;
    output_schema_id = q.output_schema_id;
    output_schema_version = "1.0";
    output_schema_digest = q.task_contract_digest;
    effective_policy_grants = q.effective_policy_grants;
    workspace_handle = q.workspace_handle;
    deadline = deadline;
    max_turns = some q.budget.max_turns;
    max_tokens = none;
    max_cost_usd = none;
    allowed_tool_ids = q.allowed_tool_ids;
    allowed_mcp_tool_ids = [];
    prompt_payload_artifact_ref = prompt_ref;
    correlation_id = q.correlation_id;
    idempotency_key = append (role_text role) (append "-" key);
  }

  -- `prompt_registry.put(prompt)`
  unfoldable pub put_prompt : Message → M String
  put_prompt prompt = do
    id ← draw deps.new_id
    let ref = append "prompt://" id
    put ref (deps.render prompt)
    pure ref

  unfoldable pub invoke_role : AgentProvider → AgentRole → Invocation → M AgentRunResult
  unfolding put_prompt compute_deadline in_session run_invocation agent_run_request
  invoke_role provider role q = do
    now ← draw deps.utc_now
    let deadline = compute_deadline q.budget now
    prompt_ref ← put_prompt q.prompt
    in_session provider
        (record {
          role = role;
          role_profile_ref = q.role_profile_ref;
          role_profile_digest = deps.role_profile_digest;
          contract_digest = q.task_contract_digest;
          context_snapshot_ref = "context-ref";
          context_snapshot_digest = q.task_contract_digest;
          deadline = deadline;
        })
        (λ session. do
          key ← draw deps.new_id
          invocation_id ← draw deps.new_id
          run_invocation provider session
              (agent_run_request role q deadline prompt_ref invocation_id key)
              q.budget.timeout_seconds pipeline_timeout)
