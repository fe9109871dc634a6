-- ===== src/Usage.antt =====
-- Usage and budgets: src/agent_harness/application/usage.py. A cost is a number of millionths of a
-- dollar, so that its sums are exact where those of the floating point numbers are rounded.
pub mod Order
use harness_system.Prelude.{ℕ, ◌+◌, Bool, ◌||◌, Option, none, some, ltb, if◌then◌else◌}
use harness_system.Exceptions.{budget_exceeded, Result, raise_if}
use harness_system.Domain.Models.{BudgetRequest, BudgetUsage, UsageRecord}

-- `n or 0`
abbrev pub or_zero : Option ℕ → ℕ
or_zero none = 0
or_zero (some n) = n

unfoldable pub accumulate_usage : BudgetUsage → UsageRecord → Bool → BudgetUsage
accumulate_usage existing usage rework = record {
  turns_used = existing.turns_used + or_zero usage.turns;
  tokens_used = existing.tokens_used + or_zero usage.input_tokens + or_zero usage.output_tokens;
  cost_used_usd = existing.cost_used_usd + or_zero usage.estimated_cost_usd;
  rework_used = existing.rework_used + (if rework then 1 else 0);
}

unfoldable pub check_budget : BudgetUsage → BudgetRequest → Result (Unit {0})
check_budget used ceiling =
    raise_if
      (ltb ceiling.max_turns used.turns_used || ltb ceiling.max_rework_iterations used.rework_used)
      budget_exceeded
