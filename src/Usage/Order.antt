-- ===== src/Usage/Order.antt =====
-- Usage accumulates (src/agent_harness/application/usage.py) in any order, and only grows.
use harness_system.Prelude.{◌≡◌, ◌↔◌, Bool, List, [], ◌∷◌, arith, ◌≤◌}
use harness_system.Exceptions.{budget_exceeded, ok, raised}
use harness_system.Domain.Models.{BudgetRequest, BudgetUsage, UsageRecord}
use harness_system.Usage.{accumulate_usage, check_budget}

-- The usage after several invocations, each with whether it was a rework.
unfoldable pub accumulate_all : BudgetUsage → List (UsageRecord × Bool) → BudgetUsage
accumulate_all used [] = used
accumulate_all used ((usage, rework) ∷ more) =
    accumulate_all (accumulate_usage used usage rework) more

check_budget-accumulate_usage :
    (used : BudgetUsage) (ceiling : BudgetRequest) (usage : UsageRecord) (rework : Bool)
    → check_budget used ceiling ≡ raised budget_exceeded
    → check_budget (accumulate_usage used usage rework) ceiling ≡ raised budget_exceeded
unfolding check_budget accumulate_usage
check_budget-accumulate_usage used ceiling usage rework h = ground arith

-- A budget that is exceeded stays exceeded, whatever invocations follow.
pub check_budget-accumulate_all :
    (used : BudgetUsage) (ceiling : BudgetRequest) (more : List (UsageRecord × Bool))
    → check_budget used ceiling ≡ raised budget_exceeded
    → check_budget (accumulate_all used more) ceiling ≡ raised budget_exceeded
unfolding accumulate_all
check_budget-accumulate_all used ceiling [] h = h
check_budget-accumulate_all used ceiling ((usage, rework) ∷ more) h =
    check_budget-accumulate_all (accumulate_usage used usage rework) ceiling more
      (check_budget-accumulate_usage used ceiling usage rework h)

-- The budget check passes exactly when the turns and the reworks are within the ceiling.
pub check_budget_iff :
    (used : BudgetUsage) (ceiling : BudgetRequest)
    → (check_budget used ceiling ≡ ok tt)
      ↔ ((used.turns_used ≤ ceiling.max_turns) × (used.rework_used ≤ ceiling.max_rework_iterations))
unfolding check_budget
check_budget_iff used ceiling = ground arith
