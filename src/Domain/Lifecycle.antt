-- ===== src/Domain/Lifecycle.antt =====
-- `LifecycleState` and the terminal states: src/agent_harness/domain/enums.py.
use harness_system.Prelude.{
  String, ℕ, ◌≡◌, refl, ap, ◌↔◌, Bool, true, List, [], ◌∷◌, arith, HasEquality, eqb, eqb_iff,
}

pub data LifecycleState : Type 0 where
  created planning contract_validating awaiting_approval : LifecycleState
  preparing_workspace executing freezing_result host_validating : LifecycleState
  verifying rework_contracting awaiting_manual_review : LifecycleState
  awaiting_final_approval recovery_required : LifecycleState
  ready_for_merge failed cancelled : LifecycleState

abbrev ordinal : LifecycleState → ℕ
ordinal created = 0
ordinal planning = 1
ordinal contract_validating = 2
ordinal awaiting_approval = 3
ordinal preparing_workspace = 4
ordinal executing = 5
ordinal freezing_result = 6
ordinal host_validating = 7
ordinal verifying = 8
ordinal rework_contracting = 9
ordinal awaiting_manual_review = 10
ordinal awaiting_final_approval = 11
ordinal recovery_required = 12
ordinal ready_for_merge = 13
ordinal failed = 14
ordinal cancelled = 15

ordinal-injective : (s t : LifecycleState) → ordinal s ≡ ordinal t → s ≡ t
ordinal-injective s t h = ground arith

abbrev pub state_beq : LifecycleState → LifecycleState → Bool
state_beq s t = eqb (ordinal s) (ordinal t)

pub state_beq_iff : (s t : LifecycleState) → (state_beq s t ≡ true) ↔ (s ≡ t)
state_beq_iff s t =
    (λ h. ordinal-injective s t ((eqb_iff _ _).0 h), λ h. (eqb_iff _ _).1 (ap ordinal h))

instance abbrev pub state_eq : HasEquality LifecycleState
state_eq = record {
  same = state_beq;
  same_sound = λ a b. (state_beq_iff a b).0;
  same_complete = λ a. (state_beq_iff a a).1 refl;
}

-- `TERMINAL_LIFECYCLE_STATES`
abbrev pub terminal_lifecycle_states : List LifecycleState
terminal_lifecycle_states = ready_for_merge ∷ failed ∷ cancelled ∷ []

-- `state.value`
abbrev pub value : LifecycleState → String
value created = "CREATED"
value planning = "PLANNING"
value contract_validating = "CONTRACT_VALIDATING"
value awaiting_approval = "AWAITING_APPROVAL"
value preparing_workspace = "PREPARING_WORKSPACE"
value executing = "EXECUTING"
value freezing_result = "FREEZING_RESULT"
value host_validating = "HOST_VALIDATING"
value verifying = "VERIFYING"
value rework_contracting = "REWORK_CONTRACTING"
value awaiting_manual_review = "AWAITING_MANUAL_REVIEW"
value awaiting_final_approval = "AWAITING_FINAL_APPROVAL"
value recovery_required = "RECOVERY_REQUIRED"
value ready_for_merge = "READY_FOR_MERGE"
value failed = "FAILED"
value cancelled = "CANCELLED"
