-- ===== src/Domain/Models/Runs.antt =====
-- `Run`, `Task`, usage, `FailureRecord` and `JournalEntry` of src/agent_harness/domain/models.py,
-- and `PendingAction` of src/agent_harness/application/transitions.py.
use harness_system.Prelude.{ℕ, String, Bool, List, Option}
use harness_system.Domain.Enums.{ActorType, FailureCategory, FailureCode, PendingActionKind}
use harness_system.Domain.Lifecycle.{LifecycleState}
use harness_system.Domain.Models.Contracts.{BudgetRequest}

pub record BudgetUsage : Type 0 where
  pub turns_used : ℕ
  pub tokens_used : ℕ
  pub cost_used_usd : ℕ
  pub rework_used : ℕ

pub record UsageRecord : Type 0 where
  pub turns : Option ℕ
  pub input_tokens : Option ℕ
  pub output_tokens : Option ℕ
  pub estimated_cost_usd : Option ℕ
  pub is_estimate : Bool

pub record Run : Type 0 where
  pub run_id : String
  pub user_request_ref : String
  pub user_request_digest : String
  pub repository_id : String
  pub state : LifecycleState
  pub state_version : ℕ
  pub budget_limits : BudgetRequest
  pub budget_used : BudgetUsage
  pub current_task_id : Option String
  pub disposition : Option LifecycleState
  pub created_at : ℕ
  pub updated_at : ℕ

pub record Task : Type 0 where
  pub task_id : String
  pub run_id : String
  pub objective : String
  pub dependency_ids : List String
  pub active_contract_id : Option String
  pub active_contract_revision : Option ℕ
  pub attempt_count : ℕ

pub record FailureRecord : Type 0 where
  pub failure_id : String
  pub run_id : String
  pub task_id : Option String
  pub stage : String
  pub code : FailureCode
  pub category : FailureCategory
  pub retriable : Bool
  pub sanitized_detail : String
  pub artifact_refs : List String
  pub occurred_at : ℕ

pub record PendingAction : Type 0 where
  pub kind : PendingActionKind
  pub description : String
  pub requested_at : ℕ

-- The keys that `apply_transition` puts into `payload_json`.
pub record Payload : Type 0 where
  pub pending_action : Option PendingAction
  pub failure_id : Option String

pub record JournalEntry : Type 0 where
  pub sequence : ℕ
  pub journal_entry_id : String
  pub run_id : String
  pub timestamp_utc : ℕ
  pub event_type : String
  pub actor_type : ActorType
  pub actor_id : String
  pub correlation_id : String
  pub state_before : Option LifecycleState
  pub state_after : Option LifecycleState
  pub state_version : ℕ
  pub payload_json : Payload
  pub artifact_refs : List String
  pub previous_entry_hash : Option String
  pub entry_hash : String
