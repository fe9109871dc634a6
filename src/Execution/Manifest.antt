-- ===== src/Execution/Manifest.antt =====
-- Manifests and their comparison: src/agent_harness/execution/validation.py. How a manifest is read
-- from the file system is not modelled; `fnmatch` of the standard library is a parameter.
pub mod Diff
use harness_system.Prelude.{
  ℕ, String, Bool, true, false, ◌&&◌, not, List, [], ◌∷◌, ◌++◌, map, Option, none, some, ◌==◌,
  string_eq, eqb, if◌then◌else◌, any, filter, intersection, difference, sorted_set, sorted,
}

-- `file_type` is "file" or "symlink".
pub record ManifestEntry : Type 0 where
  pub relative_path : String
  pub file_type : String
  pub mode : ℕ
  pub size : ℕ
  pub sha256 : Option String
  pub symlink_target : Option String

pub record ManifestDiff : Type 0 where
  pub added : List String
  pub modified : List String
  pub deleted : List String
  pub unchanged : List String

-- `==` on two optional texts
abbrev pub same_text : Option String → Option String → Bool
same_text none none = true
same_text (some s) (some t) = s == t
same_text _ _ = false

-- `_entry_identity(a) == _entry_identity(b)`
unfoldable pub same_identity : ManifestEntry → ManifestEntry → Bool
same_identity a b =
    a.file_type == b.file_type
    && (same_text a.sha256 b.sha256
        && (same_text a.symlink_target b.symlink_target && eqb a.mode b.mode))

-- `{e.relative_path: e for e in manifest}.get(path)`: of several with one path the last one.
unfoldable pub entry_by_path : List ManifestEntry → String → Option ManifestEntry
entry_by_path [] path = none
entry_by_path (e ∷ es) path =
    let rest = entry_by_path es path in
    elim rest [ some later ↦ some later | none ↦ if path == e.relative_path then some e else none ]

abbrev pub paths : List ManifestEntry → List String
paths [] = []
paths (e ∷ es) = e.relative_path ∷ paths es

-- The test of the loop over the paths that both manifests have.
abbrev pub same_entry : Option ManifestEntry → Option ManifestEntry → Bool
same_entry (some b) (some r) = same_identity b r
same_entry _ _ = false

unfoldable pub diff_manifests : List ManifestEntry → List ManifestEntry → ManifestDiff
diff_manifests baseline result =
    let common = intersection (paths baseline) (paths result) in
    let same =
      λ (path : String). same_entry (entry_by_path baseline path) (entry_by_path result path) in
    record {
      added = difference (paths result) (paths baseline);
      modified = filter (λ path. not (same path)) common;
      deleted = difference (paths baseline) (paths result);
      unchanged = filter same common;
    }

-- `[*diff.added, *diff.modified, *diff.deleted]`
abbrev pub changed_paths : ManifestDiff → List String
changed_paths diff = diff.added ++ (diff.modified ++ diff.deleted)

unfoldable pub find_test_mutations :
    (String → String → Bool) → ManifestDiff → List String → List String
find_test_mutations fnmatch diff test_path_patterns =
    sorted (filter (λ path. any (fnmatch path) test_path_patterns) (changed_paths diff))
