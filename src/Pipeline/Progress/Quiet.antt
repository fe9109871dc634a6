-- ===== src/Pipeline/Progress/Quiet.antt =====
-- Actions that leave the tables alone: the turns of the providers and the host checks of
-- src/agent_harness/application/orchestrator.py. They add covered events to the history, and raise
-- what comes from outside, or the exception `late` of the caller's.
use harness_system.Prelude.{ℕ, ◌+◌, String, ◌≡◌, refl, ◌⊎◌, inl, inr, Bool, true, false, List, ◌∷◌}
use harness_system.Exceptions.{
  Exception, integrity_error, validation_error, timed_out, not_capable, outside,
}
use harness_system.Store.{Store}
use harness_system.Providers.Protocol.{Reply, replied, incapable, broken, result_of}
use harness_system.Pipeline.Exec.{
  World, Event, Step, M, done, returned, threw, pure, throw, ◌>>=◌, handle, catch, after, finally,
  lift, ask, draw, observe, put,
}
use harness_system.Pipeline.Exec.Ends.{Ends, Ends-bind}
use harness_system.Pipeline.Deps.{PipelineDeps}
use harness_system.Pipeline.Grants.{AllCovered, Extends, IsCovered}

-- An exception of what the program calls, a key that the database has, or a malformed record.
abbrev pub is_expected : Exception → Bool
is_expected integrity_error = true
is_expected validation_error = true
is_expected timed_out = true
is_expected not_capable = true
is_expected outside = true
is_expected _ = false

module _ (deps : PipelineDeps) (past : List Event) (late : Exception) where
  -- The tables are these, and the events after `past` are covered.
  pub record IsCalm (s : Store) (w : World) : Type 0 where
    pub same : w.store ≡ s
    pub covered : AllCovered deps w.history
    pub extends : Extends past w.history

  abbrev pub Raised : Store → Exception → World → Type 0
  Raised s e w = ((is_expected e ≡ true) ⊎ (e ≡ late)) × IsCalm s w

  abbrev pub Calmly : {A : Type 0} → Store → Step A × World → Type 0
  Calmly s = Ends (λ run w. ⊥) (Raised s) (λ a w. IsCalm s w)

  pub record IsQuiet {A : Type 0} (m : M A) : Type 0 where
    pub at : (s : Store) (w : World) → IsCalm s w → Calmly s (m w)

  pub IsQuiet-pure : {A : Type 0} (a : A) → IsQuiet (pure a)
  unfolding pure
  IsQuiet-pure a = record { at = λ s w h. h }

  pub IsQuiet-throw :
      {A : Type 0} (e : Exception) → is_expected e ≡ true → IsQuiet {A = A} (throw e)
  unfolding throw
  IsQuiet-throw e h = record { at = λ s w c. (inl h, c) }

  pub IsQuiet-throw_late : {A : Type 0} → IsQuiet {A = A} (throw late)
  unfolding throw
  IsQuiet-throw_late = record { at = λ s w c. (inr refl, c) }

  pub IsQuiet-raise :
      {A : Type 0} (e : Exception)
      → ((is_expected e ≡ true) ⊎ (e ≡ late))
      → IsQuiet {A = A} (throw e)
  unfolding throw
  IsQuiet-raise e h = record { at = λ s w c. (h, c) }

  pub IsQuiet-bind :
      {A B : Type 0} (m : M A) (k : A → M B)
      → IsQuiet m
      → ((a : A) → IsQuiet (k a))
      → IsQuiet (m >>= k)
  IsQuiet-bind m k first rest = record {
    at = λ s w h.
        Ends-bind _ _ (λ a w'. IsCalm s w') (λ b w'. IsCalm s w') m k w (first.at s w h)
          (λ a w' c. (rest a).at s w' c);
  }

  pub IsQuiet-draw : {A : Type 0} (f : ℕ → A) → IsQuiet (draw f)
  unfolding draw
  IsQuiet-draw f = record {
    at = λ s w h. record { same = h.same; covered = h.covered; extends = h.extends };
  }

  pub IsQuiet-put : (ref text : String) → IsQuiet (put ref text)
  unfolding put
  IsQuiet-put ref text = record {
    at = λ s w h. record { same = h.same; covered = h.covered; extends = h.extends };
  }

  replied-Calmly :
      {A : Type 0} (r : Reply A) (s : Store) (w : World)
      → IsCalm s w
      → Calmly s (lift (result_of r) w)
  unfolding lift
  replied-Calmly (replied a) s w h = h
  replied-Calmly Reply.late s w h = (inl refl, h)
  replied-Calmly incapable s w h = (inl refl, h)
  replied-Calmly broken s w h = (inl refl, h)

  pub IsQuiet-ask : {A : Type 0} (f : ℕ → Reply A) → IsQuiet (ask f)
  unfolding ask
  IsQuiet-ask f = record {
    at = λ s w h.
        replied-Calmly (f w.tick) s (record w { tick = w.tick + 1 })
          (record { same = h.same; covered = h.covered; extends = h.extends });
  }

  -- An event is added where it is covered after any history that extends the past.
  pub IsQuiet-observe :
      (e : Event)
      → ((history : List Event) → Extends past history → IsCovered deps e history)
      → IsQuiet (observe e)
  unfolding observe
  IsQuiet-observe e covers = record {
    at = λ s w h. record {
      same = h.same;
      covered = (covers w.history h.extends, h.covered);
      extends = let (more, same) = h.extends in (e ∷ more, rw same);
    };
  }

  after-Calmly :
      {A : Type 0} (s : Store) (step : Step A) (v : World) (x : Step (Unit {0}) × World)
      → Calmly s (step, v)
      → Calmly s x
      → Calmly s (after step x)
  unfolding after
  after-Calmly s (done a) v (done u, w) h k = k
  after-Calmly s (returned run) v (done u, w) h k = h
  after-Calmly s (threw e) v (done u, w) h k = (h.0, k)
  after-Calmly s step v (returned run, w) h k = k
  after-Calmly s step v (threw e, w) h k = k

  pub IsQuiet-finally :
      {A : Type 0} (m : M A) (c : M (Unit {0})) → IsQuiet m → IsQuiet c → IsQuiet (finally m c)
  unfolding finally
  IsQuiet-finally {A} m c body close = record { at = λ s w h. closing s (m w) (body.at s w h) }
    where
      closing : (s : Store) (x : Step A × World) → Calmly s x → Calmly s (after x.0 (c x.1))
      closing s (done a, v) k = after-Calmly s (done a) v (c v) k (close.at s v k)
      closing s (returned run, v) k = absurd k
      closing s (threw e, v) k = after-Calmly s (threw e) v (c v) k (close.at s v k.1)

  -- A handler is quiet whatever it is given, with the exception that it may raise instead.
  pub IsQuiet-catch :
      {A : Type 0} (m : M A) (h : Exception → M A)
      → IsQuiet m
      → ((e : Exception) → ((is_expected e ≡ true) ⊎ (e ≡ late)) → IsQuiet (h e))
      → IsQuiet (catch m h)
  unfolding catch
  IsQuiet-catch {A} m h body all = record { at = λ s w c. caught s (m w) (body.at s w c) }
    where
      caught : (s : Store) (x : Step A × World) → Calmly s x → Calmly s (handle h x)
      caught s (done a, v) k = unfold handle in k
      caught s (returned run, v) k = unfold handle in k
      caught s (threw e, v) k = unfold handle in (all e k.0).at s v k.1

pub ruleset quiet_rules = (
  IsQuiet-pure, IsQuiet-throw, IsQuiet-throw_late, IsQuiet-bind, IsQuiet-draw, IsQuiet-put,
  IsQuiet-ask, IsQuiet-finally, IsQuiet-catch,
)
