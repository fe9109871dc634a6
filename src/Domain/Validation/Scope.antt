-- ===== src/Domain/Validation/Scope.antt =====
-- `is_scope_subset` (src/agent_harness/domain/validation.py) is a preorder.
use harness_system.Prelude.{
  ℕ, String, ◌≡◌, refl, true, List, Option, none, some, arith, is_subset, all-member,
  all_of_members, string_eq,
}
use harness_system.Domain.Models.{ScopeRules}
use harness_system.Domain.Validation.{ceiling_not_raised, is_scope_subset}

pub is_subset_refl : (xs : List String) → is_subset xs xs ≡ true
is_subset_refl xs = all_of_members _ xs (λ a m. m)

pub is_subset_trans :
    (xs ys zs : List String)
    → is_subset xs ys ≡ true
    → is_subset ys zs ≡ true
    → is_subset xs zs ≡ true
is_subset_trans xs ys zs h k =
    all_of_members _ xs (λ a m. all-member _ ys a k (all-member _ xs a h m))

ceiling_refl : (c : Option ℕ) → ceiling_not_raised c c ≡ true
unfolding ceiling_not_raised
ceiling_refl none = refl
ceiling_refl (some n) = ground arith

-- Every scope is contained in itself.
pub is_scope_subset_refl : (s : ScopeRules) → is_scope_subset s s ≡ true
unfolding is_scope_subset
is_scope_subset_refl s = ground (
  arith,
  is_subset_refl s.allowed_path_rules,
  is_subset_refl s.forbidden_path_rules,
  ceiling_refl s.max_changed_files,
  ceiling_refl s.max_changed_bytes,
)
