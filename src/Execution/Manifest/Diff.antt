-- ===== src/Execution/Manifest/Diff.antt =====
-- `diff_manifests` (src/agent_harness/execution/validation.py), told from the two entries of a path.
use harness_system.Prelude.{
  String, ◌≡◌, refl, Bool, true, false, ◌&&◌, not, List, [], ◌∷◌, Option, none, some, string_eq,
  arith, member, ◌∙◌, member-filter, member-intersection, member-difference, intersection,
}
use harness_system.Execution.Manifest.{
  ManifestEntry, ManifestDiff, entry_by_path, paths, same_entry, diff_manifests,
}

abbrev pub is_some {ℓ} : {A : Type ℓ} → Option A → Bool
is_some none = false
is_some (some _) = true

pub member-paths :
    (path : String) (es : List ManifestEntry)
    → member path (paths es) ≡ is_some (entry_by_path es path)
unfolding entry_by_path
member-paths path [] = refl
member-paths path (e ∷ es) = ground (arith, member-paths path es)

-- Where a path stands in a diff, for its entries in the two manifests.
pub record IsClassified (before after : Option ManifestEntry) (path : String) (d : ManifestDiff)
    : Type 0 where
  pub added : member path d.added ≡ (is_some after && not (is_some before))
  pub deleted : member path d.deleted ≡ (is_some before && not (is_some after))
  pub modified :
      member path d.modified ≡ ((is_some before && is_some after) && not (same_entry before after))
  pub unchanged : member path d.unchanged ≡ same_entry before after

same_entry-is_some :
    (before after : Option ManifestEntry)
    → same_entry before after ≡ ((is_some before && is_some after) && same_entry before after)
same_entry-is_some before after = ground arith

-- Every path is listed exactly where its entries put it: added or deleted when only one manifest has
-- it, and modified or unchanged when both have it.
pub diff_manifests-IsClassified :
    (baseline result : List ManifestEntry) (path : String)
    → IsClassified
        (entry_by_path baseline path)
        (entry_by_path result path)
        path
        (diff_manifests baseline result)
unfolding diff_manifests
diff_manifests-IsClassified baseline result path =
    let in_baseline = member-paths path baseline in
    let in_result = member-paths path result in
    let common = member-intersection path (paths baseline) (paths result) in
    let same = λ (p : String). same_entry (entry_by_path baseline p) (entry_by_path result p) in
    record {
      added =
          ground
            (arith, member-difference path (paths result) (paths baseline), in_baseline, in_result);
      deleted =
          ground
            (arith, member-difference path (paths baseline) (paths result), in_baseline, in_result);
      modified =
          member-filter (λ p. not (same p)) path (intersection (paths baseline) (paths result))
          ∙ ground (arith, common, in_baseline, in_result);
      unchanged =
          member-filter same path (intersection (paths baseline) (paths result))
          ∙ ground (
            arith,
            common,
            in_baseline,
            in_result,
            same_entry-is_some (entry_by_path baseline path) (entry_by_path result path),
          );
    }
