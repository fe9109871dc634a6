-- ===== src/Pipeline/Exec.antt =====
-- The actions of the pipeline: explicit state passing over the store, with exceptions and early
-- `return`s. The number of the next question to the outside (the clock, an identifier, a provider, a
-- file, a user) is part of the state, so that every answer may differ from the ones before.
pub mod Moves
pub mod Ends
use harness_system.Prelude.{ℕ, ◌+◌, String, Bool, List, ◌∷◌}
use harness_system.Exceptions.{Exception, Result, ok, raised}
use harness_system.Domain.Enums.{AgentRole}
use harness_system.Domain.Models.{PolicyDecision, Run}
use harness_system.Providers.Protocol.{AgentRunRequest, Reply, result_of}
use harness_system.Checks.{VerifiedVerification}
use harness_system.Store.{Store}

-- What the pipeline has done outside the store.
pub data Event : Type 0 where
  session_started session_closed : AgentRole → Event
  invoked : AgentRunRequest → Event
  policy_answered : PolicyDecision → Bool → Event
  final_answered : VerifiedVerification → Bool → Event

-- `prompts` is the dictionary of the pipeline's PromptRegistry, `history` the events, newest first.
pub record World : Type 0 where
  pub store : Store
  pub tick : ℕ
  pub prompts : List (String × String)
  pub history : List Event

-- The end of a statement: the next one, a `return` of the pipeline, or an exception.
pub data Step (A : Type 0) : Type 0 where
  done : A → Step A
  returned : Run → Step A
  threw : Exception → Step A

abbrev pub M : Type 0 → Type 0
M A = World → Step A × World

unfoldable pub pure : {A : Type 0} → A → M A
pure a w = (done a, w)

unfoldable pub throw : {A : Type 0} → Exception → M A
throw e w = (threw e, w)

-- `return run`
unfoldable pub give : {A : Type 0} → Run → M A
give run w = (returned run, w)

unfoldable pub continue : {A B : Type 0} → (A → M B) → Step A × World → Step B × World
continue f (done a, w) = f a w
continue f (returned run, w) = (returned run, w)
continue f (threw e, w) = (threw e, w)

infixl 5 ◌>>=◌ ◌>>◌
unfoldable pub ◌>>=◌ : {A B : Type 0} → M A → (A → M B) → M B
unfolding continue pure throw give
◌>>=◌ m f w = continue f (m w)

abbrev pub ◌>>◌ : {B : Type 0} → M (Unit {0}) → M B → M B
m >> k = m >>= λ _. k

unfoldable pub handle : {A : Type 0} → (Exception → M A) → Step A × World → Step A × World
handle h (done a, w) = (done a, w)
handle h (returned run, w) = (returned run, w)
handle h (threw e, w) = h e w

-- `try: m except ...: h`, where `h` raises again what the clause does not name.
unfoldable pub catch : {A : Type 0} → M A → (Exception → M A) → M A
unfolding handle
catch m h w = handle h (m w)

unfoldable pub after : {A : Type 0} → Step A → Step (Unit {0}) × World → Step A × World
after step (done _, w) = (step, w)
after step (returned run, w) = (returned run, w)
after step (threw e, w) = (threw e, w)

-- `try: m finally: c`
unfoldable pub finally : {A : Type 0} → M A → M (Unit {0}) → M A
unfolding after
finally m c w = let (step, w') = m w in after step (c w')

unfoldable pub lift : {A : Type 0} → Result A → M A
unfolding pure throw
lift (ok a) = pure a
lift (raised e) = throw e

-- An answer from outside, to the next question.
unfoldable pub ask : {A : Type 0} → (ℕ → Reply A) → M A
unfolding lift
ask f w = lift (result_of (f w.tick)) (record w { tick = w.tick + 1 })

-- The clock and the identifiers, which always answer.
unfoldable pub draw : {A : Type 0} → (ℕ → A) → M A
draw f w = (done (f w.tick), record w { tick = w.tick + 1 })

unfoldable pub observe : Event → M (Unit {0})
observe e w = (done tt, record w { history = e ∷ w.history })

unfoldable pub put : String → String → M (Unit {0})
put ref text w = (done tt, record w { prompts = (ref, text) ∷ w.prompts })

unfoldable pub on_store : {A : Type 0} → World → Result A × Store → Step A × World
on_store w (ok a, s) = (done a, record w { store = s })
on_store w (raised e, s) = (threw e, record w { store = s })

-- A call of the persistence layer that reads and writes the tables.
unfoldable pub transact : {A : Type 0} → (Store → Result A × Store) → M A
unfolding on_store
transact f w = on_store w (f w.store)

abbrev pub inserted : Store → Result Store → Result (Unit {0}) × Store
inserted s (ok t) = (ok tt, t)
inserted s (raised e) = (raised e, s)

-- A single INSERT.
unfoldable pub insert : (Store → Result Store) → M (Unit {0})
unfolding transact
insert f = transact (λ s. inserted s (f s))
