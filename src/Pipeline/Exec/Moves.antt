-- ===== src/Pipeline/Exec/Moves.antt =====
-- How the world may change under an action of the pipeline
-- (src/agent_harness/application/orchestrator.py): a relation that every basic step keeps is kept by
-- whatever is built from them, one rule for each way to build an action.
use harness_system.Prelude.{ℕ, ◌+◌, String, Bool, ◌≡◌, refl, inl, inr, ◌∷◌}
use harness_system.Exceptions.{Exception, Result, ok, raised, Result-cases}
use harness_system.Domain.Enums.{AgentRole}
use harness_system.Domain.Models.{
  PolicyDecision, ReworkContract, Run, TaskContract, VerificationResult,
}
use harness_system.Domain.Digests.{Digests}
use harness_system.Store.{
  Request, Store, apply_transition, insert_policy_decision, insert_rework_contract,
  insert_task_contract, insert_verification_result,
}
use harness_system.Checks.{VerifiedVerification}
use harness_system.Providers.Protocol.{AgentRunRequest, Reply, result_of}
use harness_system.Pipeline.Exec.{
  World, Event, Step, M, done, returned, threw, pure, throw, give, continue, ◌>>=◌, handle, catch,
  lift, ask, draw, observe, put, on_store, transact, insert,
}

-- `action` takes every world to one that `R` relates to it.
pub record Moves {A : Type 0} (R : World → World → Type 0) (action : M A) : Type 0 where
  pub at : (w : World) → R w (action w).1

abbrev pub saw : Event → World → World
saw e w = record w { history = e ∷ w.history }

-- The single steps; a session may be opened if it is closed again.
pub record IsStable (digests : Digests) (R : World → World → Type 0) : Type 0 where
  pub same : (w : World) → R w w
  pub chain : (u v w : World) → R u v → R v w → R u w
  pub ticked : (w : World) (n : ℕ) → R w (record w { tick = n })
  pub prompted :
      (w : World) (ref text : String) → R w (record w { prompts = (ref, text) ∷ w.prompts })
  pub invoked : (w : World) (q : AgentRunRequest) → R w (saw (Event.invoked q) w)
  pub policy : (w : World) (d : PolicyDecision) (b : Bool) → R w (saw (Event.policy_answered d b) w)
  pub final :
      (w : World) (v : VerifiedVerification) (b : Bool) → R w (saw (Event.final_answered v b) w)
  pub session :
      (v w : World) (role : AgentRole)
      → R (saw (Event.session_started role) v) w
      → R v (saw (Event.session_closed role) w)
  pub transition :
      (w : World) (q : Request) → R w (record w { store = (apply_transition digests q w.store).1 })
  pub contract :
      (w : World) (c : TaskContract) (id : String) (t : Store)
      → insert_task_contract c id w.store ≡ ok t
      → R w (record w { store = t })
  pub decision :
      (w : World) (d : PolicyDecision) (id : String) (t : Store)
      → insert_policy_decision d id w.store ≡ ok t
      → R w (record w { store = t })
  pub result :
      (w : World) (v : VerificationResult) (id : String) (t : Store)
      → insert_verification_result v id w.store ≡ ok t
      → R w (record w { store = t })
  pub rework :
      (w : World) (r : ReworkContract) (id : String) (t : Store)
      → insert_rework_contract r id w.store ≡ ok t
      → R w (record w { store = t })

module _ {digests : Digests} {R : World → World → Type 0} (stable : IsStable digests R) where
  pub Moves-pure : {A : Type 0} (a : A) → Moves R (pure a)
  unfolding pure
  Moves-pure a = record { at = stable.same }

  pub Moves-throw : {A : Type 0} (e : Exception) → Moves {A = A} R (throw e)
  unfolding throw
  Moves-throw e = record { at = stable.same }

  pub Moves-give : {A : Type 0} (run : Run) → Moves {A = A} R (give run)
  unfolding give
  Moves-give run = record { at = stable.same }

  pub Moves-lift : {A : Type 0} (r : Result A) → Moves R (lift r)
  unfolding lift
  Moves-lift (ok a) = Moves-pure a
  Moves-lift (raised e) = Moves-throw e

  continue-R :
      {A B : Type 0} (v : World) (k : A → M B)
      → ((a : A) → Moves R (k a))
      → (x : Step A × World) → R v x.1
      → R v (continue k x).1
  unfolding continue
  continue-R v k all (done a, w) h = stable.chain v w _ h ((all a).at w)
  continue-R v k all (returned run, w) h = h
  continue-R v k all (threw e, w) h = h

  pub Moves-bind :
      {A B : Type 0} (m : M A) (k : A → M B)
      → Moves R m
      → ((a : A) → Moves R (k a))
      → Moves R (m >>= k)
  unfolding ◌>>=◌
  Moves-bind m k first all = record { at = λ w. continue-R w k all (m w) (first.at w) }

  handle-R :
      {A : Type 0} (v : World) (h : Exception → M A)
      → ((e : Exception) → Moves R (h e))
      → (x : Step A × World) → R v x.1
      → R v (handle h x).1
  unfolding handle
  handle-R v h all (done a, w) r = r
  handle-R v h all (returned run, w) r = r
  handle-R v h all (threw e, w) r = stable.chain v w _ r ((all e).at w)

  pub Moves-catch :
      {A : Type 0} (m : M A) (h : Exception → M A)
      → Moves R m
      → ((e : Exception) → Moves R (h e))
      → Moves R (catch m h)
  unfolding catch
  Moves-catch m h body all = record { at = λ w. handle-R w h all (m w) (body.at w) }

  pub Moves-ask : {A : Type 0} (f : ℕ → Reply A) → Moves R (ask f)
  unfolding ask
  Moves-ask f = record {
    at = λ w.
        stable.chain w _ _ (stable.ticked w (w.tick + 1))
          ((Moves-lift (result_of (f w.tick))).at (record w { tick = w.tick + 1 }));
  }

  pub Moves-draw : {A : Type 0} (f : ℕ → A) → Moves R (draw f)
  unfolding draw
  Moves-draw f = record { at = λ w. stable.ticked w (w.tick + 1) }

  pub Moves-put : (ref text : String) → Moves R (put ref text)
  unfolding put
  Moves-put ref text = record { at = λ w. stable.prompted w ref text }

  pub Moves-invoked : (q : AgentRunRequest) → Moves R (observe (Event.invoked q))
  unfolding observe
  Moves-invoked q = record { at = λ w. stable.invoked w q }

  pub Moves-policy : (d : PolicyDecision) (b : Bool) → Moves R (observe (Event.policy_answered d b))
  unfolding observe
  Moves-policy d b = record { at = λ w. stable.policy w d b }

  pub Moves-final :
      (v : VerifiedVerification) (b : Bool) → Moves R (observe (Event.final_answered v b))
  unfolding observe
  Moves-final v b = record { at = λ w. stable.final w v b }

  on_store-world :
      {A : Type 0} (w : World) (x : Result A × Store) → (on_store w x).1 ≡ record w { store = x.1 }
  unfolding on_store
  on_store-world w (ok a, s) = refl
  on_store-world w (raised e, s) = refl

  pub Moves-transition : (q : Request) → Moves R (transact (apply_transition digests q))
  unfolding transact
  Moves-transition q = record {
    at = λ w. rw (on_store-world w (apply_transition digests q w.store)) (stable.transition w q);
  }

  -- An INSERT that fails changes nothing.
  Moves-insert :
      (f : Store → Result Store)
      → ((w : World) (t : Store) → f w.store ≡ ok t → R w (record w { store = t }))
      → Moves R (insert f)
  unfolding insert on_store
  Moves-insert f h = record {
    at = λ w. elim (Result-cases (f w.store)) [
      | inl (t, fits) ↦ rw fits (h w t fits)
      | inr (e, bad) ↦ rw bad (stable.same w)
    ];
  }

  pub Moves-contract :
      (c : TaskContract) (id : String) → Moves R (insert (insert_task_contract c id))
  Moves-contract c id =
      Moves-insert (insert_task_contract c id) (λ w t h. stable.contract w c id t h)

  pub Moves-decision :
      (d : PolicyDecision) (id : String) → Moves R (insert (insert_policy_decision d id))
  Moves-decision d id =
      Moves-insert (insert_policy_decision d id) (λ w t h. stable.decision w d id t h)

  pub Moves-result :
      (v : VerificationResult) (id : String) → Moves R (insert (insert_verification_result v id))
  Moves-result v id =
      Moves-insert (insert_verification_result v id) (λ w t h. stable.result w v id t h)

  pub Moves-rework :
      (r : ReworkContract) (id : String) → Moves R (insert (insert_rework_contract r id))
  Moves-rework r id = Moves-insert (insert_rework_contract r id) (λ w t h. stable.rework w r id t h)

pub ruleset moves_rules = (
  Moves-pure, Moves-throw, Moves-give, Moves-lift, Moves-bind, Moves-catch, Moves-ask, Moves-draw,
  Moves-put, Moves-invoked, Moves-policy, Moves-final, Moves-transition, Moves-contract,
  Moves-decision, Moves-result, Moves-rework,
)
