-- ===== src/Pipeline/Progress/Freezing.antt =====
-- The frozen result is quiet: `freeze_and_validate` of src/agent_harness/execution/evidence.py.
use harness_system.Prelude.{
  ℕ, String, ◌≡◌, refl, Bool, List, [], ◌∷◌, Option, none, some, ==_refl, string_eq,
}
use harness_system.Exceptions.{Exception, ok}
use harness_system.Domain.Models.{Artifact, EvidenceRecord, ScopeRules}
use harness_system.Domain.Validation.{assert_evidence_matches_artifact}
use harness_system.Execution.Manifest.{ManifestEntry}
use harness_system.Execution.Frozen.{CommandExecution, FrozenValidationResult}
use harness_system.Execution.ScopeGuard.{find_scope_violations}
use harness_system.Pipeline.Exec.{Event, ask, lift}
use harness_system.Pipeline.Exec.Ends.{Yields, Yields-bind, Yields-pure}
use harness_system.Pipeline.Deps.{PipelineDeps}
use harness_system.Pipeline.Freeze.{
  run_approved_checks, stream_evidence, stream_record, build_command_evidence, build_evidence,
  frozen_result, freeze_and_validate,
}
use harness_system.Pipeline.Progress.Quiet.{IsQuiet, quiet_rules, IsQuiet-bind}

module _ (deps : PipelineDeps) (past : List Event) (late : Exception) where
  run_approved_checks-IsQuiet :
      (ids : List String) → IsQuiet deps past late (run_approved_checks deps ids)
  unfolding run_approved_checks
  run_approved_checks-IsQuiet [] = search quiet_rules
  run_approved_checks-IsQuiet (id ∷ ids) =
      let rest = run_approved_checks-IsQuiet ids in
      IsQuiet-bind deps past late (ask (deps.execute_command id)) _ (search quiet_rules)
        (λ e. search (quiet_rules, rest))

  -- The records that the Harness makes always match their artifacts.
  stream_record-matches :
      (run_id task_id : String) (execution : CommandExecution) (now : ℕ) (stream_name : String)
      (artifact : Artifact) (truncated : Bool) (evidence_id : String)
      → assert_evidence_matches_artifact
          (stream_record deps run_id task_id execution now stream_name artifact truncated
            evidence_id)
          artifact
        ≡ ok tt
  unfolding assert_evidence_matches_artifact stream_record
  stream_record-matches run_id task_id execution now stream_name artifact truncated evidence_id =
      rw (==_refl artifact.content_digest, ==_refl artifact.artifact_id)

  stream_evidence-IsQuiet :
      (run_id task_id : String) (execution : CommandExecution) (now : ℕ) (stream_name : String)
      (artifact : Option Artifact) (truncated : Bool)
      → IsQuiet deps past late
          (stream_evidence deps run_id task_id execution now stream_name artifact truncated)
  unfolding stream_evidence lift
  stream_evidence-IsQuiet run_id task_id execution now stream_name none truncated =
      search quiet_rules
  stream_evidence-IsQuiet run_id task_id execution now stream_name (some artifact) truncated =
      IsQuiet-bind deps past late _ _ (search quiet_rules) (λ evidence_id.
        rw
          (stream_record-matches run_id task_id execution now stream_name artifact truncated
            evidence_id)
          (search quiet_rules))

  build_command_evidence-IsQuiet :
      (run_id task_id : String) (execution : CommandExecution) (now : ℕ)
      → IsQuiet deps past late (build_command_evidence deps run_id task_id execution now)
  unfolding build_command_evidence
  build_command_evidence-IsQuiet run_id task_id execution now =
      search (quiet_rules, stream_evidence-IsQuiet)

  build_evidence-IsQuiet :
      (run_id task_id : String) (now : ℕ) (executions : List CommandExecution)
      → IsQuiet deps past late (build_evidence deps run_id task_id now executions)
  unfolding build_evidence
  build_evidence-IsQuiet run_id task_id now [] = search quiet_rules
  build_evidence-IsQuiet run_id task_id now (execution ∷ executions) =
      let rest = build_evidence-IsQuiet run_id task_id now executions in
      IsQuiet-bind deps past late (build_command_evidence deps run_id task_id execution now) _
        (search build_command_evidence-IsQuiet) (λ e. search (quiet_rules, rest))

  pub freeze_and_validate-IsQuiet :
      (run_id task_id : String) (baseline : List ManifestEntry × Artifact) (scope : ScopeRules)
      (now : ℕ)
      → IsQuiet deps past late (freeze_and_validate deps run_id task_id baseline scope now)
  unfolding freeze_and_validate
  freeze_and_validate-IsQuiet run_id task_id baseline scope now =
      search (quiet_rules, run_approved_checks-IsQuiet, build_evidence-IsQuiet) depth 7

-- The violations of a frozen result are those of its own diff under this scope.
abbrev pub IsChecked : PipelineDeps → ScopeRules → FrozenValidationResult → Type 0
IsChecked deps scope f =
    f.scope_violations
    ≡ find_scope_violations deps.re_match f.manifest_diff scope (some f.baseline_manifest)
        (some f.result_manifest)

frozen_result-IsChecked :
    (deps : PipelineDeps) (scope : ScopeRules)
    (baseline result post_test : List ManifestEntry × Artifact) (executions : List CommandExecution)
    (evidence : List EvidenceRecord)
    → IsChecked deps scope (frozen_result deps scope baseline result executions post_test evidence)
unfolding frozen_result
frozen_result-IsChecked deps scope (b, ba) (r, ra) (p, pa) executions evidence = refl

pub freeze_and_validate-Yields :
    (deps : PipelineDeps) (run_id task_id : String) (baseline : List ManifestEntry × Artifact)
    (scope : ScopeRules) (now : ℕ)
    → Yields (IsChecked deps scope) (freeze_and_validate deps run_id task_id baseline scope now)
unfolding freeze_and_validate
freeze_and_validate-Yields deps run_id task_id baseline scope now =
    let P = IsChecked deps scope in
    Yields-bind P _ _ (λ result. Yields-bind P _ _ (λ executions. Yields-bind P _ _ (λ post_test.
      Yields-bind P _ _ (λ evidence.
        Yields-pure P _
          (frozen_result-IsChecked deps scope baseline result post_test executions evidence)))))
