-- ===== src/Pipeline/Exec/Ends.antt =====
-- What holds where an action of the pipeline ends: after its value, after a `return`, and after an
-- exception (src/agent_harness/application/orchestrator.py).

use harness_system.Exceptions.{Exception}
use harness_system.Domain.Models.{Run}
use harness_system.Pipeline.Exec.{
  World, Step, M, done, returned, threw, continue, ◌>>=◌, pure, throw,
}

module _ (R : Run → World → Type 0) (E : Exception → World → Type 0) where
  abbrev pub Ends : {A : Type 0} → (A → World → Type 0) → Step A × World → Type 0
  Ends Q (done a, w) = Q a w
  Ends Q (returned run, w) = R run w
  Ends Q (threw e, w) = E e w

  pub Ends-bind :
      {A B : Type 0} (P : A → World → Type 0) (Q : B → World → Type 0) (m : M A) (k : A → M B)
      (w : World)
      → Ends P (m w)
      → ((a : A) (w' : World) → P a w' → Ends Q (k a w'))
      → Ends Q ((m >>= k) w)
  unfolding ◌>>=◌
  Ends-bind {A} {B} P Q m k w first rest = step (m w) first
    where
      step : (x : Step A × World) → Ends P x → Ends Q (continue k x)
      step (done a, w') p = rest a w' p
      step (returned run, w') p = p
      step (threw e, w') p = p

  -- What is known of the last world may be added.
  pub Ends-and :
      {A : Type 0} (Q : A → World → Type 0) (S : World → Type 0) (x : Step A × World)
      → Ends Q x
      → S x.1
      → Ends (λ a w. Q a w × S w) x
  Ends-and Q S (done a, w) q s = (q, s)
  Ends-and Q S (returned run, w) q s = q
  Ends-and Q S (threw e, w) q s = q

  pub Ends-map :
      {A : Type 0} (P Q : A → World → Type 0) (x : Step A × World)
      → Ends P x
      → ((a : A) (w : World) → P a w → Q a w)
      → Ends Q x
  Ends-map P Q (done a, w) p f = f a w p
  Ends-map P Q (returned run, w) p f = p
  Ends-map P Q (threw e, w) p f = p

-- The value of an action, where it has one.
pub record Yields {A : Type 0} (P : A → Type 0) (m : M A) : Type 0 where
  pub at : (w : World) → Ends (λ run v. Unit) (λ e v. Unit) (λ a v. P a) (m w)

pub Yields-pure : {A : Type 0} (P : A → Type 0) (a : A) → P a → Yields P (pure a)
unfolding pure
Yields-pure P a p = record { at = λ w. p }

pub Yields-throw : {A : Type 0} (P : A → Type 0) (e : Exception) → Yields P (throw e)
unfolding throw
Yields-throw P e = record { at = λ w. tt }

pub Yields-bind :
    {A B : Type 0} (P : B → Type 0) (m : M A) (k : A → M B)
    → ((a : A) → Yields P (k a))
    → Yields P (m >>= k)
unfolding ◌>>=◌
Yields-bind {A} {B} P m k rest = record { at = λ w. step (m w) }
  where
    step : (x : Step A × World) → Ends (λ run v. Unit) (λ e v. Unit) (λ b v. P b) (continue k x)
    step (done a, w) = unfold continue in (rest a).at w
    step (returned run, w) = unfold continue in tt
    step (threw e, w) = unfold continue in tt

-- An action that yields `P` ends with it too.
pub Ends-Yields :
    {A : Type 0} (R : Run → World → Type 0) (E : Exception → World → Type 0)
    (Q : A → World → Type 0) (P : A → Type 0) (m : M A) (w : World)
    → Ends R E Q (m w)
    → Yields P m
    → Ends R E (λ a v. Q a v × P a) (m w)
Ends-Yields {A} R E Q P m w ends yields = both (m w) ends (yields.at w)
  where
    both :
        (x : Step A × World)
        → Ends R E Q x
        → Ends (λ run v. Unit) (λ e v. Unit) (λ a v. P a) x
        → Ends R E (λ a v. Q a v × P a) x
    both (done a, v) q p = (q, p)
    both (returned run, v) q p = q
    both (threw e, v) q p = q
