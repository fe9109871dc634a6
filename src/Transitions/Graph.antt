-- ===== src/Transitions/Graph.antt =====
-- The graph of `TRANSITIONS` (src/agent_harness/application/transitions.py): where a run can get
-- to, and what it must pass on the way.
use harness_system.Prelude.{
  ◌≡◌, refl, ◌≢◌, inl, inr, true, false, List, [], ◌∷◌, arith, member, ==_iff, ◌==◌, ==_refl,
  Bool-cases,
}
use harness_system.Domain.Lifecycle.{
  LifecycleState, created, planning, contract_validating, awaiting_approval, preparing_workspace,
  executing, freezing_result, host_validating, verifying, rework_contracting,
  awaiting_manual_review, awaiting_final_approval, recovery_required, ready_for_merge, state_eq,
}
use harness_system.Transitions.{can_transition, is_terminal}

-- A sequence of moves of the table, with the states it visits.
pub data Walk : LifecycleState → LifecycleState → List LifecycleState → Type 0 where
  last : {s : LifecycleState} → Walk s s (s ∷ [])
  move :
      {s t u : LifecycleState} {visited : List LifecycleState}
      → can_transition s t ≡ true
      → Walk t u visited
      → Walk s u (s ∷ visited)

abbrev pub Reaches : LifecycleState → LifecycleState → Type 0
Reaches s t = (visited : List LifecycleState) × Walk s t visited

via :
    {t u : LifecycleState} (s : LifecycleState)
    → can_transition s t ≡ true
    → Reaches t u
    → Reaches s u
via s h r = (s ∷ r.0, move h r.1)

from_verifying : Reaches verifying ready_for_merge
unfolding can_transition
from_verifying = via verifying refl (via awaiting_final_approval refl (ready_for_merge ∷ [], last))

from_preparing_workspace : Reaches preparing_workspace ready_for_merge
unfolding can_transition
from_preparing_workspace =
    via preparing_workspace refl
      (via executing refl (via freezing_result refl (via host_validating refl from_verifying)))

from_contract_validating : Reaches contract_validating ready_for_merge
unfolding can_transition
from_contract_validating = via contract_validating refl from_preparing_workspace

-- From every state that is not terminal a run can still be brought to `READY_FOR_MERGE`.
pub ready_for_merge-reachable :
    (s : LifecycleState) → is_terminal s ≡ false → Reaches s ready_for_merge
unfolding can_transition is_terminal
ready_for_merge-reachable created h = via created refl (via planning refl from_contract_validating)
ready_for_merge-reachable planning h = via planning refl from_contract_validating
ready_for_merge-reachable contract_validating h = from_contract_validating
ready_for_merge-reachable awaiting_approval h = via awaiting_approval refl from_preparing_workspace
ready_for_merge-reachable preparing_workspace h = from_preparing_workspace
ready_for_merge-reachable executing h =
    via executing refl (via freezing_result refl (via host_validating refl from_verifying))
ready_for_merge-reachable freezing_result h =
    via freezing_result refl (via host_validating refl from_verifying)
ready_for_merge-reachable host_validating h = via host_validating refl from_verifying
ready_for_merge-reachable verifying h = from_verifying
ready_for_merge-reachable rework_contracting h =
    via rework_contracting refl from_contract_validating
ready_for_merge-reachable awaiting_manual_review h =
    via awaiting_manual_review refl (via awaiting_final_approval refl (ready_for_merge ∷ [], last))
ready_for_merge-reachable awaiting_final_approval h =
    via awaiting_final_approval refl (ready_for_merge ∷ [], last)
ready_for_merge-reachable recovery_required h = via recovery_required refl from_verifying
ready_for_merge-reachable _ h = cc

-- A state with one predecessor in the table is entered through it.
module _ (entry target : LifecycleState)
    (only : (s : LifecycleState) → can_transition s target ≡ true → s ≡ entry) where
  Walk-entry :
      {s : LifecycleState} {visited : List LifecycleState}
      → Walk s target visited
      → s ≢ target
      → member entry visited ≡ true
  Walk-entry last h = absurd (h refl)
  Walk-entry (move {s = s} {t = t} e w) h = elim (Bool-cases (t == target)) [
    | inl there ↦
        let now : s ≡ entry = only s (rw ((==_iff t target).0 there) at e) in
        rw now (rw (==_refl entry))
    | inr away ↦
        let later = Walk-entry w (λ same. cc ((==_iff t target).1 same, away)) in ground arith
  ]

final_approval_only :
    (s : LifecycleState) → can_transition s ready_for_merge ≡ true → s ≡ awaiting_final_approval
unfolding can_transition
final_approval_only s h = ground arith

preparing_only : (s : LifecycleState) → can_transition s executing ≡ true → s ≡ preparing_workspace
unfolding can_transition
preparing_only s h = ground arith

-- Every way to `READY_FOR_MERGE` from another state visits `AWAITING_FINAL_APPROVAL`.
pub Walk-awaiting_final_approval :
    {s : LifecycleState} {visited : List LifecycleState}
    → Walk s ready_for_merge visited
    → s ≢ ready_for_merge
    → member awaiting_final_approval visited ≡ true
Walk-awaiting_final_approval =
    Walk-entry awaiting_final_approval ready_for_merge final_approval_only

-- Every way to `EXECUTING` from another state, a recovery included, visits `PREPARING_WORKSPACE`.
pub Walk-preparing_workspace :
    {s : LifecycleState} {visited : List LifecycleState}
    → Walk s executing visited
    → s ≢ executing
    → member preparing_workspace visited ≡ true
Walk-preparing_workspace = Walk-entry preparing_workspace executing preparing_only
