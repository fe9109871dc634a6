-- ===== src/Execution/ScopeGuard.antt =====
-- The scope check of a diff: src/agent_harness/execution/scope_guard.py. The `re` module of the
-- standard library is a parameter: whether the expression that the parts make up matches a text.
pub mod Narrow
use Prim.Native.String.{[] as end, ◌∷◌ as char}
use Prim.Native.Char.{Char, code}
use harness_system.Prelude.{
  ℕ, ◌+◌, String, Bool, true, false, ◌&&◌, ◌||◌, not, List, [], ◌∷◌, ◌++◌, Option, none, some, eqb,
  ltb, if◌then◌else◌, any, filter, is_empty, length,
}
use harness_system.Domain.Models.{ScopeRules}
use harness_system.Execution.Manifest.{ManifestEntry, ManifestDiff, entry_by_path, changed_paths}

-- The parts between "^" and "$" of the expression: "(?:.*/)?", ".*", "[^/]*", "[^/]" and an escaped
-- character.
pub data RegexPart : Type 0 where
  segments anything within_segment one_character : RegexPart
  escaped : Char → RegexPart

abbrev is_star : Char → Bool
is_star c = eqb (code c) b'*'

-- The part of one character that starts neither "**/" nor "**".
abbrev single : Char → RegexPart
single c =
    if is_star c then within_segment else if eqb (code c) b'?' then one_character else escaped c

-- The tests of the loop, in their order, on the next three characters.
abbrev starts_segments : Char → Char → Char → Bool
starts_segments c d e = is_star c && (is_star d && eqb (code e) b'/')

unfoldable pub glob_to_regex : String → List RegexPart
glob_to_regex end = []
glob_to_regex (char c end) = single c ∷ []
glob_to_regex (char c (char d end)) =
    if is_star c && is_star d then anything ∷ [] else single c ∷ single d ∷ []
glob_to_regex (char c (char d (char e rest))) = elim (starts_segments c d e) [
  | true ↦ segments ∷ glob_to_regex rest
  | false ↦ elim (is_star c && is_star d) [
    | true ↦ anything ∷ glob_to_regex (char e rest)
    | false ↦ single c ∷ glob_to_regex (char d (char e rest))
  ]
]

pub data ScopeViolation : Type 0 where
  forbidden_path not_allowed_path : String → ScopeViolation
  new_files : ℕ → ScopeViolation
  too_many_files too_many_bytes : ℕ → ℕ → ScopeViolation

-- [violation] if test else []
abbrev pub when : Bool → ScopeViolation → List ScopeViolation
when test violation = if test then violation ∷ [] else []

abbrev pub is_exceeded : ℕ → Option ℕ → Bool
is_exceeded n none = false
is_exceeded n (some limit) = ltb limit n

-- `manifest or []`
abbrev pub entries_of : Option (List ManifestEntry) → List ManifestEntry
entries_of none = []
entries_of (some es) = es

abbrev pub is_given {ℓ} : {A : Type ℓ} → Option A → Bool
is_given none = false
is_given (some _) = true

-- The size of `result_by_path.get(path) or baseline_by_path.get(path)`.
abbrev pub size_of : Option ManifestEntry → Option ManifestEntry → ℕ
size_of none none = 0
size_of none (some e) = e.size
size_of (some e) _ = e.size

unfoldable pub total_bytes : List ManifestEntry → List ManifestEntry → List String → ℕ
total_bytes baseline result [] = 0
total_bytes baseline result (path ∷ paths) =
    size_of (entry_by_path result path) (entry_by_path baseline path)
    + total_bytes baseline result paths

-- The limit that a violation reports.
abbrev limit_of : Option ℕ → ℕ
limit_of none = 0
limit_of (some limit) = limit

module _ (re_match : List RegexPart → String → Bool) where
  unfoldable pub path_matches_glob : String → String → Bool
  path_matches_glob path pattern = re_match (glob_to_regex pattern) path

  -- any(path_matches_glob(path, pattern) for pattern in patterns)
  unfoldable pub matches_any : List String → String → Bool
  matches_any patterns path = any (path_matches_glob path) patterns

  -- The loop over `changed_paths`.
  unfoldable pub path_violations : ScopeRules → List String → List ScopeViolation
  path_violations scope [] = []
  path_violations scope (path ∷ paths) =
      let rest = path_violations scope paths in
      if matches_any scope.forbidden_path_rules path
      then forbidden_path path ∷ rest
      else if matches_any scope.allowed_path_rules path
      then rest
      else not_allowed_path path ∷ rest

  -- The paths that `declared_generated_paths` does not exempt from the counts.
  unfoldable pub countable : ScopeRules → List String → List String
  countable scope paths =
      filter (λ path. not (matches_any scope.declared_generated_paths path)) paths

  unfoldable pub find_scope_violations :
      ManifestDiff
      → ScopeRules
      → Option (List ManifestEntry)
      → Option (List ManifestEntry)
      → List ScopeViolation
  find_scope_violations diff scope baseline_manifest result_manifest =
      let countable_paths = countable scope (changed_paths diff) in
      let countable_added = countable scope diff.added in
      let bytes =
        total_bytes (entries_of baseline_manifest) (entries_of result_manifest) countable_paths in
      path_violations scope (changed_paths diff)
      ++ (when (not scope.allow_new_files && not (is_empty countable_added))
            (new_files (length countable_added))
          ++ (when (is_exceeded (length countable_paths) scope.max_changed_files)
                (too_many_files (length countable_paths) (limit_of scope.max_changed_files))
              ++ when
                  ((is_given baseline_manifest || is_given result_manifest)
                    && is_exceeded bytes scope.max_changed_bytes)
                  (too_many_bytes bytes (limit_of scope.max_changed_bytes))))
