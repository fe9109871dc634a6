-- ===== src/Exceptions.antt =====
-- Python's exceptions as values: one constructor for each class that the modelled code raises
-- (application/transitions.py, persistence/sqlite.py, policy/approvals.py, domain/validation.py,
-- application/usage.py, application/rework.py, application/verification.py,
-- application/orchestrator.py). A message is
-- kept only as the reason that distinguishes two `raise` statements of one class. `timed_out` is
-- asyncio.TimeoutError, `not_capable` ProviderCapabilityError (providers/protocol.py), and `outside`
-- is any other exception of what the program calls: a provider, git, a file, a process, a callback.
use harness_system.Prelude.{◌≡◌, refl, ◌⊎◌, inl, inr, Bool, true, false}

pub data TransitionError : Type 0 where
  terminal_state not_allowed : TransitionError
  failure_required failure_unexpected : TransitionError
  pending_action_required pending_action_unexpected : TransitionError

pub data ApprovalError : Type 0 where
  denied expired : ApprovalError

pub data Exception : Type 0 where
  illegal_transition : TransitionError → Exception
  run_not_found concurrent_modification integrity_error : Exception
  policy_approval : ApprovalError → Exception
  invariant_violation : Exception
  budget_exceeded rework_exhausted : Exception
  value_error validation_error : Exception
  verification_service : Exception
  pipeline_timeout timed_out not_capable outside out_of_order_event : Exception

pub data Result {ℓ} (A : Type ℓ) : Type ℓ where
  ok : A → Result A
  raised : Exception → Result A

pub Result-cases {ℓ} :
    {A : Type ℓ} (r : Result A) → ((a : A) × (r ≡ ok a)) ⊎ ((e : Exception) × (r ≡ raised e))
Result-cases (ok a) = inl (a, refl)
Result-cases (raised e) = inr (e, refl)

infixl 5 ◌>>=◌ ◌>>◌
abbrev pub ◌>>=◌ {ℓ κ} : {A : Type ℓ} {B : Type κ} → Result A → (A → Result B) → Result B
ok a >>= f = f a
raised e >>= f = raised e

-- A block that succeeds has succeeded at its first step and in the rest.
pub >>=-elim {ℓ κ μ} :
    {A : Type ℓ} {B : Type κ} {P : Type μ} (m : Result A) (f : A → Result B) (b : B)
    → (m >>= f) ≡ ok b
    → ((a : A) → m ≡ ok a → f a ≡ ok b → P)
    → P
>>=-elim (ok a) f b h k = k a refl h
>>=-elim (raised e) f b h k = cc

abbrev pub ◌>>◌ {ℓ} : {B : Type ℓ} → Result (Unit {0}) → Result B → Result B
ok done >> k = k
raised e >> k = raised e

-- `if test: raise e`
abbrev pub raise_if : Bool → Exception → Result (Unit {0})
raise_if true e = raised e
raise_if false e = ok tt

-- A guard that is passed has a false test.
pub raise_if-elim {ℓ κ} :
    {B : Type ℓ} {P : Type κ} (test : Bool) (e : Exception) (k : Result B) (b : B)
    → (raise_if test e >> k) ≡ ok b
    → (test ≡ false → k ≡ ok b → P)
    → P
raise_if-elim true e k b h c = cc
raise_if-elim false e k b h c = c refl h
