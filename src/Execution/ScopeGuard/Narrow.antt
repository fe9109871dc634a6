-- ===== src/Execution/ScopeGuard/Narrow.antt =====
-- A narrower scope reports at least what a wider one does (src/agent_harness/execution/scope_guard.py
-- with `is_scope_subset` of src/agent_harness/domain/validation.py).
use harness_system.Prelude.{
  ℕ, ◌≤◌, String, ◌≡◌, refl, Bool, true, false, ◌&&◌, not, List, [], ◌∷◌, Option, none, some, arith,
  all, filter, is_empty, length, is_subset, string_eq, any_of_subset, length-filter_mono,
  is_empty-append,
}
use harness_system.Domain.Models.{ScopeRules}
use harness_system.Domain.Validation.{is_scope_subset, ceiling_not_raised}
use harness_system.Execution.Manifest.{ManifestEntry, ManifestDiff, changed_paths}
use harness_system.Execution.ScopeGuard.{
  RegexPart, ScopeViolation, when, is_exceeded, entries_of, total_bytes, matches_any,
  path_matches_glob, path_violations, countable, find_scope_violations,
}

-- A limit that is kept, whatever manifests are known, is kept by less under a higher limit.
not_exceeded_mono :
    (m n : ℕ) (child parent : Option ℕ)
    → m ≤ n
    → ceiling_not_raised child parent ≡ true
    → is_exceeded n child ≡ false
    → is_exceeded m parent ≡ false
unfolding ceiling_not_raised
not_exceeded_mono m n child none le h k = refl
not_exceeded_mono m n none (some b) le h k = cc
not_exceeded_mono m n (some a) (some b) le h k = ground arith

is_empty-when : (test : Bool) (v : ScopeViolation) → is_empty (when test v) ≡ not test
is_empty-when test v = ground arith

module _ (re_match : List RegexPart → String → Bool) where
  -- The path may be changed under the scope.
  abbrev pub permits : ScopeRules → String → Bool
  permits scope path =
      not (matches_any re_match scope.forbidden_path_rules path)
      && matches_any re_match scope.allowed_path_rules path

  is_empty-path_violations :
      (scope : ScopeRules) (paths : List String)
      → is_empty (path_violations re_match scope paths) ≡ all (permits scope) paths
  unfolding path_violations
  is_empty-path_violations scope [] = refl
  is_empty-path_violations scope (path ∷ paths) =
      ground (arith, is_empty-path_violations scope paths)

  total_bytes-filter_mono :
      (baseline result : List ManifestEntry) (p q : String → Bool) (paths : List String)
      → ((x : String) → p x ≡ true → q x ≡ true)
      → total_bytes baseline result (filter p paths) ≤ total_bytes baseline result (filter q paths)
  unfolding total_bytes
  total_bytes-filter_mono baseline result p q [] h = omega arith
  total_bytes-filter_mono baseline result p q (x ∷ xs) h =
      ground (arith, h x, total_bytes-filter_mono baseline result p q xs h)

  all_mono :
      (p q : String → Bool) (xs : List String)
      → ((x : String) → p x ≡ true → q x ≡ true)
      → all p xs ≡ true
      → all q xs ≡ true
  all_mono p q [] h k = refl
  all_mono p q (x ∷ xs) h k = ground (arith, h x, all_mono p q xs h)

  module _ (child parent : ScopeRules) (narrower : is_scope_subset child parent ≡ true)
      (generated : is_subset child.declared_generated_paths parent.declared_generated_paths
        ≡ true) where
    permits-narrower : (path : String) → permits child path ≡ true → permits parent path ≡ true
    unfolding is_scope_subset matches_any
    permits-narrower path h =
        let p = path_matches_glob re_match path in
        ground (
          arith,
          any_of_subset p child.allowed_path_rules parent.allowed_path_rules,
          any_of_subset p parent.forbidden_path_rules child.forbidden_path_rules,
        )

    countable-narrower :
        (path : String)
        → not (matches_any re_match parent.declared_generated_paths path) ≡ true
        → not (matches_any re_match child.declared_generated_paths path) ≡ true
    unfolding matches_any
    countable-narrower path h =
        let p = path_matches_glob re_match path in
        ground
          (arith, any_of_subset p child.declared_generated_paths parent.declared_generated_paths)

    -- Less is counted under the parent.
    is_empty-countable :
        (paths : List String)
        → is_empty (countable re_match child paths) ≡ true
        → is_empty (countable re_match parent paths) ≡ true
    unfolding countable
    is_empty-countable [] h = refl
    is_empty-countable (path ∷ paths) h =
        ground (arith, countable-narrower path, is_empty-countable paths)

    length-countable :
        (paths : List String)
        → length (countable re_match parent paths) ≤ length (countable re_match child paths)
    unfolding countable
    length-countable paths = length-filter_mono _ _ paths countable-narrower

    total_bytes-countable :
        (baseline result : List ManifestEntry) (paths : List String)
        → total_bytes baseline result (countable re_match parent paths)
          ≤ total_bytes baseline result (countable re_match child paths)
    unfolding countable
    total_bytes-countable baseline result paths =
        total_bytes-filter_mono baseline result _ _ paths countable-narrower

    -- A change that has no violation under a scope has none under any scope that the first is a subset
    -- of, when what the first declares as generated is declared as generated by the second too.
    pub find_scope_violations-narrower :
        (diff : ManifestDiff) (baseline result : Option (List ManifestEntry))
        → is_empty (find_scope_violations re_match diff child baseline result) ≡ true
        → is_empty (find_scope_violations re_match diff parent baseline result) ≡ true
    unfolding find_scope_violations is_scope_subset
    find_scope_violations-narrower diff baseline result =
        let changed = changed_paths diff in
        let files =
          not_exceeded_mono _ _ child.max_changed_files parent.max_changed_files
            (length-countable changed) in
        let bytes =
          not_exceeded_mono _ _ child.max_changed_bytes parent.max_changed_bytes
            (total_bytes-countable (entries_of baseline) (entries_of result) changed) in
        let allowed = all_mono (permits child) (permits parent) changed permits-narrower in
        let added = is_empty-countable diff.added in
        simp (is_empty-append, is_empty-when, is_empty-path_violations)
          (λ h. ground (arith, files, bytes, allowed, added))
