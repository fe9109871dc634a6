-- ===== src/Providers/Protocol.antt =====
-- The requests, results and operations of a provider: src/agent_harness/providers/protocol.py. What
-- a provider answers is outside the program: an operation takes the number of the question, so that
-- no two answers need agree.
use harness_system.Prelude.{ℕ, String, Bool, List, Option}
use harness_system.Exceptions.{Result, ok, raised, timed_out, not_capable, outside}
use harness_system.Domain.Enums.{AgentRole, ProtocolStatus}
use harness_system.Domain.Models.{PolicyGrants, ProviderError, UsageRecord}

pub record ProviderSessionRef : Type 0 where
  pub opaque_ref : String
  pub provider_id : String
  pub role : AgentRole

pub record ProviderInvocationRef : Type 0 where
  pub opaque_ref : String
  pub provider_id : String

pub record StartSessionRequest : Type 0 where
  pub role : AgentRole
  pub role_profile_ref : String
  pub role_profile_digest : String
  pub contract_digest : String
  pub context_snapshot_ref : String
  pub context_snapshot_digest : String
  pub deadline : ℕ

pub record AgentRunRequest : Type 0 where
  pub invocation_id : String
  pub role : AgentRole
  pub task_contract_ref : String
  pub task_contract_digest : String
  pub rework_contract_ref : Option String
  pub rework_contract_digest : Option String
  pub context_snapshot_ref : String
  pub context_snapshot_digest : String
  pub role_profile_ref : String
  pub role_profile_digest : String
  pub output_schema_id : String
  pub output_schema_version : String
  pub output_schema_digest : String
  pub effective_policy_grants : PolicyGrants
  pub workspace_handle : String
  pub deadline : ℕ
  pub max_turns : Option ℕ
  pub max_tokens : Option ℕ
  pub max_cost_usd : Option ℕ
  pub allowed_tool_ids : List String
  pub allowed_mcp_tool_ids : List String
  pub prompt_payload_artifact_ref : String
  pub correlation_id : String
  pub idempotency_key : String

-- `structured_output` is the JSON text of the dictionary.
pub record AgentRunResult : Type 0 where
  pub invocation_id : String
  pub protocol_status : ProtocolStatus
  pub structured_output : Option String
  pub raw_output_artifact_ref : Option String
  pub provider_session_ref : Option String
  pub last_event_cursor : Option String
  pub usage : Option UsageRecord
  pub provider_error : Option ProviderError
  pub started_at : ℕ
  pub completed_at : Option ℕ

pub record CancelRequest : Type 0 where
  pub invocation_id : String
  pub reason : String
  pub force : Bool

pub record CancelResult : Type 0 where
  pub invocation_id : String
  pub protocol_status : ProtocolStatus
  pub cancelled_at : ℕ
  pub detail : Option String

-- What a call of something outside the program ends in: an answer, or an exception of its own.
pub data Reply (A : Type 0) : Type 0 where
  replied : A → Reply A
  late incapable broken : Reply A

abbrev pub result_of : {A : Type 0} → Reply A → Result A
result_of (replied a) = ok a
result_of late = raised timed_out
result_of incapable = raised not_capable
result_of broken = raised outside

-- The operations of `AgentProvider` that a pipeline calls; `await_result` is given its timeout.
pub record AgentProvider : Type 0 where
  pub start_session : StartSessionRequest → ℕ → Reply ProviderSessionRef
  pub start_invocation : ProviderSessionRef → AgentRunRequest → ℕ → Reply ProviderInvocationRef
  pub await_result : ProviderInvocationRef → ℕ → ℕ → Reply AgentRunResult
  pub cancel : ProviderInvocationRef → CancelRequest → ℕ → Reply CancelResult
  pub close_session : ProviderSessionRef → ℕ → Reply (Unit {0})
