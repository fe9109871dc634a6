-- ===== src/Pipeline/Moves/Turns.antt =====
-- The turns of the providers and the frozen result: what relates the worlds before and after every
-- single step relates them before and after each of these actions.
use harness_system.Prelude.{string_eq, ℕ, String, Bool, List, [], ◌∷◌, Option, none, some}
use harness_system.Exceptions.{Exception, not_capable, timed_out}
use harness_system.Domain.Enums.{AgentRole, ProtocolStatus}
use harness_system.Domain.Models.{
  Artifact, ScopeRules, TaskContract, UsageRecord, VerificationResult,
}
use harness_system.Execution.Manifest.{ManifestEntry}
use harness_system.Execution.Frozen.{CommandExecution, FrozenValidationResult}
use harness_system.Providers.Protocol.{
  AgentProvider, AgentRunRequest, AgentRunResult, ProviderInvocationRef, ProviderSessionRef,
  StartSessionRequest,
}
use harness_system.Pipeline.Exec.{
  World, Event, Step, M, done, returned, threw, ◌>>=◌, continue, finally, after, ask, observe,
}
use harness_system.Pipeline.Exec.Moves.{Moves, IsStable, saw, moves_rules, Moves-ask, Moves-bind}
use harness_system.Pipeline.Deps.{PipelineDeps, Message}
use harness_system.Pipeline.Invoke.{
  Invocation, ignore_incapable, cancel_late, run_invocation, close_session, in_session, put_prompt,
  invoke_role,
}
use harness_system.Pipeline.Freeze.{
  run_approved_checks, stream_evidence, build_command_evidence, build_evidence, freeze_and_validate,
}
use harness_system.Pipeline.Verify.{
  Verification, verifier_turn, verified_of, read_verdict, run_verification,
}

module _ (deps : PipelineDeps) (R : World → World → Type 0) (stable : IsStable deps.digests R) where
  after-world :
      {A : Type 0} (v : World) (step : Step A) (x : Step (Unit {0}) × World)
      → R v x.1
      → R v (after step x).1
  unfolding after
  after-world v step (done u, w) h = h
  after-world v step (returned run, w) h = h
  after-world v step (threw e, w) h = h

  -- The session that has started is closed, whatever the body does.
  session-R :
      (provider : AgentProvider) (role : AgentRole) (session : ProviderSessionRef)
      (body : M AgentRunResult) (v : World)
      → Moves R body
      → R v
          (finally body
            (close_session provider role session)
            (saw (Event.session_started role) v)).1
  unfolding finally close_session ◌>>=◌ observe continue
  session-R provider role session body v moves =
      let started = saw (Event.session_started role) v in
      let middle = (body started).1 in
      let closed = saw (Event.session_closed role) middle in
      after-world v (body started).0 (ask (provider.close_session session) closed) (
        stable.chain v closed _ (stable.session v middle role (moves.at started))
          ((Moves-ask stable (provider.close_session session)).at closed))

  in_session-Moves :
      (provider : AgentProvider) (request : StartSessionRequest)
      (body : ProviderSessionRef → M AgentRunResult)
      → ((session : ProviderSessionRef) → Moves R (body session))
      → Moves R (in_session provider request body)
  unfolding in_session
  in_session-Moves provider request body all = search (moves_rules, inside)
    where
      inside :
          (session : ProviderSessionRef)
          → Moves R (
              observe (Event.session_started request.role) >>= λ _.
              finally (body session) (close_session provider request.role session))
      inside session = record {
        at = λ w.
            unfold ◌>>=◌ observe continue in
            session-R provider request.role session (body session) w (all session);
      }

  ignore_incapable-Moves : (e : Exception) → Moves R (ignore_incapable e)
  unfolding ignore_incapable
  ignore_incapable-Moves not_capable = search moves_rules
  ignore_incapable-Moves _ = search moves_rules

  cancel_late-Moves :
      (provider : AgentProvider) (invocation : ProviderInvocationRef) (late e : Exception)
      → Moves R (cancel_late provider invocation late e)
  unfolding cancel_late
  cancel_late-Moves provider invocation late timed_out =
      search (moves_rules, ignore_incapable-Moves)
  cancel_late-Moves provider invocation late _ = search moves_rules

  run_invocation-Moves :
      (provider : AgentProvider) (session : ProviderSessionRef) (request : AgentRunRequest)
      (timeout_seconds : ℕ) (late : Exception)
      → Moves R (run_invocation provider session request timeout_seconds late)
  unfolding run_invocation
  run_invocation-Moves provider session request timeout_seconds late =
      search (moves_rules, cancel_late-Moves)

  put_prompt-Moves : (prompt : Message) → Moves R (put_prompt deps prompt)
  unfolding put_prompt
  put_prompt-Moves prompt = search moves_rules

  pub invoke_role-Moves :
      (provider : AgentProvider) (role : AgentRole) (q : Invocation)
      → Moves R (invoke_role deps provider role q)
  unfolding invoke_role
  invoke_role-Moves provider role q =
      search (moves_rules, in_session-Moves, run_invocation-Moves, put_prompt-Moves) depth 9

  run_approved_checks-Moves : (ids : List String) → Moves R (run_approved_checks deps ids)
  unfolding run_approved_checks
  run_approved_checks-Moves [] = search moves_rules
  run_approved_checks-Moves (id ∷ ids) =
      let rest = run_approved_checks-Moves ids in
      Moves-bind stable (ask (deps.execute_command id)) _ (search moves_rules)
        (λ e. search (moves_rules, rest))

  stream_evidence-Moves :
      (run_id task_id : String) (execution : CommandExecution) (now : ℕ) (stream_name : String)
      (artifact : Option Artifact) (truncated : Bool)
      → Moves R (stream_evidence deps run_id task_id execution now stream_name artifact truncated)
  unfolding stream_evidence
  stream_evidence-Moves run_id task_id execution now stream_name none truncated = search moves_rules
  stream_evidence-Moves run_id task_id execution now stream_name (some artifact) truncated =
      search moves_rules depth 7

  build_command_evidence-Moves :
      (run_id task_id : String) (execution : CommandExecution) (now : ℕ)
      → Moves R (build_command_evidence deps run_id task_id execution now)
  unfolding build_command_evidence
  build_command_evidence-Moves run_id task_id execution now =
      search (moves_rules, stream_evidence-Moves)

  build_evidence-Moves :
      (run_id task_id : String) (now : ℕ) (executions : List CommandExecution)
      → Moves R (build_evidence deps run_id task_id now executions)
  unfolding build_evidence
  build_evidence-Moves run_id task_id now [] = search moves_rules
  build_evidence-Moves run_id task_id now (execution ∷ executions) =
      let rest = build_evidence-Moves run_id task_id now executions in
      Moves-bind stable (build_command_evidence deps run_id task_id execution now) _
        (search build_command_evidence-Moves) (λ e. search (moves_rules, rest))

  pub freeze_and_validate-Moves :
      (run_id task_id : String) (baseline : List ManifestEntry × Artifact) (scope : ScopeRules)
      (now : ℕ)
      → Moves R (freeze_and_validate deps run_id task_id baseline scope now)
  unfolding freeze_and_validate
  freeze_and_validate-Moves run_id task_id baseline scope now =
      search (moves_rules, run_approved_checks-Moves, build_evidence-Moves) depth 7

  verifier_turn-Moves :
      (contract : TaskContract) (frozen : FrozenValidationResult) (q : Verification)
      → Moves R (verifier_turn deps contract frozen q)
  unfolding verifier_turn
  verifier_turn-Moves contract frozen q =
      search (moves_rules, in_session-Moves, run_invocation-Moves) depth 9

  verified_of-Moves :
      (contract : TaskContract) (frozen : FrozenValidationResult) (q : Verification)
      (usage : Option UsageRecord) (result : Option VerificationResult)
      → Moves R (verified_of deps contract frozen q usage result)
  unfolding verified_of
  verified_of-Moves contract frozen q usage none = search moves_rules
  verified_of-Moves contract frozen q usage (some result) = search moves_rules

  read_verdict-Moves :
      (contract : TaskContract) (frozen : FrozenValidationResult) (q : Verification)
      (usage : Option UsageRecord) (status : ProtocolStatus) (output : Option String)
      → Moves R (read_verdict deps contract frozen q usage status output)
  unfolding read_verdict
  read_verdict-Moves contract frozen q usage ProtocolStatus.succeeded (some output) =
      search (moves_rules, verified_of-Moves)
  read_verdict-Moves contract frozen q usage _ _ = search moves_rules

  pub run_verification-Moves :
      (contract : TaskContract) (frozen : FrozenValidationResult) (q : Verification)
      → Moves R (run_verification deps contract frozen q)
  unfolding run_verification
  run_verification-Moves contract frozen q =
      search (moves_rules, verifier_turn-Moves, read_verdict-Moves)
