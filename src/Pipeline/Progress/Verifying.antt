-- ===== src/Pipeline/Progress/Verifying.antt =====
-- The Verifier's turn is quiet: `run_verification` of src/agent_harness/application/verification.py.
use harness_system.Prelude.{String, ◌≡◌, refl, List, Option, none, some, string_eq}
use harness_system.Exceptions.{verification_service}
use harness_system.Domain.Enums.{ProtocolStatus}
use harness_system.Domain.Models.{TaskContract, UsageRecord, VerificationResult}
use harness_system.Execution.Frozen.{FrozenValidationResult}
use harness_system.Checks.{VerifiedVerification, verified_verification}
use harness_system.Pipeline.Exec.{Event}
use harness_system.Pipeline.Exec.Ends.{Yields, Yields-bind, Yields-pure, Yields-throw}
use harness_system.Pipeline.Deps.{PipelineDeps}
use harness_system.Pipeline.Verify.{
  Verification, verifier_request, verifier_turn, verified_of, read_verdict, run_verification,
}
use harness_system.Pipeline.Progress.Quiet.{IsQuiet, quiet_rules}
use harness_system.Pipeline.Progress.Turns.{Covers, in_session-IsQuiet, run_invocation-IsQuiet}

module _ (deps : PipelineDeps) (past : List Event) where
  module _ (contract : TaskContract) (frozen : FrozenValidationResult) (q : Verification) where
    -- A request of the Verifier is none of the Worker.
    verifier-Covers :
        (prompt_ref invocation_id key : String)
        → Covers deps past verification_service
            (verifier_request deps contract frozen q prompt_ref invocation_id key)
    unfolding verifier_request
    verifier-Covers prompt_ref invocation_id key history h same = cc

    verifier_turn-IsQuiet :
        IsQuiet deps past verification_service (verifier_turn deps contract frozen q)
    unfolding verifier_turn
    verifier_turn-IsQuiet =
        search (quiet_rules, in_session-IsQuiet, run_invocation-IsQuiet, verifier-Covers) depth 10

    verified_of-IsQuiet :
        (usage : Option UsageRecord) (result : Option VerificationResult)
        → IsQuiet deps past verification_service (verified_of deps contract frozen q usage result)
    unfolding verified_of
    verified_of-IsQuiet usage none = search quiet_rules
    verified_of-IsQuiet usage (some result) = search quiet_rules

    read_verdict-IsQuiet :
        (usage : Option UsageRecord) (status : ProtocolStatus) (output : Option String)
        → IsQuiet deps past verification_service
            (read_verdict deps contract frozen q usage status output)
    unfolding read_verdict
    read_verdict-IsQuiet usage ProtocolStatus.succeeded (some output) =
        search (quiet_rules, verified_of-IsQuiet)
    read_verdict-IsQuiet usage _ _ = search quiet_rules

    pub run_verification-IsQuiet :
        IsQuiet deps past verification_service (run_verification deps contract frozen q)
    unfolding run_verification
    run_verification-IsQuiet = search (quiet_rules, verifier_turn-IsQuiet, read_verdict-IsQuiet)

    -- The verdict is the re-check of some result of the Verifier.
    abbrev pub IsRecheck : VerifiedVerification → Type 0
    IsRecheck v =
        (result : VerificationResult) × (usage : Option UsageRecord) × (v
          ≡ verified_verification contract frozen result usage)

    verified_of-Yields :
        (usage : Option UsageRecord) (result : Option VerificationResult)
        → Yields IsRecheck (verified_of deps contract frozen q usage result)
    unfolding verified_of
    verified_of-Yields usage none = Yields-throw IsRecheck _
    verified_of-Yields usage (some result) = Yields-pure IsRecheck _ (result, usage, refl)

    read_verdict-Yields :
        (usage : Option UsageRecord) (status : ProtocolStatus) (output : Option String)
        → Yields IsRecheck (read_verdict deps contract frozen q usage status output)
    unfolding read_verdict
    read_verdict-Yields usage ProtocolStatus.succeeded (some output) =
        Yields-bind IsRecheck _ _ (verified_of-Yields usage)
    read_verdict-Yields usage _ _ = Yields-throw IsRecheck _

    pub run_verification-Yields : Yields IsRecheck (run_verification deps contract frozen q)
    unfolding run_verification
    run_verification-Yields =
        Yields-bind IsRecheck _ _ (λ result.
          read_verdict-Yields result.usage result.protocol_status result.structured_output)
