-- ===== src/Prelude/Tests.antt =====
-- Boolean tests, the conditional, and equality tests as an interface.
use Prim.Native.Nat.{ℕ, ◌≤◌, compare, Ordering}
use Prim.Native.String.{String}
use mathlib.Core.Path.{◌≡◌, refl}
use mathlib.Core.Logic.{◌↔◌, ◌⊎◌, inl, inr}
use mathlib.Core.Bool.{Bool, true, false}
use mathlib.Core.Option.{Option, none, some}
use native.Mathlib.Omega.{arith}
use text.Mathlib.Text.{◌==◌ as str_eq}
use text.Mathlib.TextEquality.{eq_iff}

abbrev pub ltb : ℕ → ℕ → Bool
ltb a b = elim (compare a b) [ Ordering.lt ↦ true | _ ↦ false ]

abbrev pub leb : ℕ → ℕ → Bool
leb a b = elim (compare a b) [ Ordering.gt ↦ false | _ ↦ true ]

abbrev pub eqb : ℕ → ℕ → Bool
eqb a b = elim (compare a b) [ Ordering.eq ↦ true | _ ↦ false ]

infix 1 if◌then◌else◌
abbrev pub if◌then◌else◌ {ℓ} : {A : Type ℓ} → Bool → A → A → A
if true then x else y = x
if false then x else y = y

pub eqb_iff : (a b : ℕ) → (eqb a b ≡ true) ↔ (a ≡ b)
eqb_iff a b = ground arith

pub leb→le : (a b : ℕ) → leb a b ≡ true → a ≤ b
leb→le a b h = ground arith

pub le→leb : (a b : ℕ) → a ≤ b → leb a b ≡ true
le→leb a b h = ground arith

-- A type whose elements can be compared: a test that holds of equal elements only, and of every
-- element and itself.
pub record HasEquality {κ} (A : Type κ) : Type κ where
  pub same : A → A → Bool
  pub same_sound : (a b : A) → same a b ≡ true → a ≡ b
  pub same_complete : (a : A) → same a a ≡ true

infix 50 ◌==◌
abbrev pub ◌==◌ {κ} : {A : Type κ} ⦃has : HasEquality A⦄ (x y : A) → Bool
◌==◌ ⦃has⦄ x y = has.same x y

instance abbrev pub nat_eq : HasEquality ℕ
nat_eq = record {
  same = eqb;
  same_sound = λ a b. (eqb_iff a b).0;
  same_complete = λ a. (eqb_iff a a).1 refl;
}

instance abbrev pub string_eq : HasEquality String
string_eq = record {
  same = str_eq;
  same_sound = λ a b. (eq_iff a b).0;
  same_complete = λ a. (eq_iff a a).1 refl;
}

pub ==_iff {κ} : {A : Type κ} ⦃has : HasEquality A⦄ (x y : A) → ((x == y) ≡ true) ↔ (x ≡ y)
==_iff ⦃has⦄ x y = (has.same_sound x y, λ e. rw e (has.same_complete y))

pub ==_refl {ℓ} : {A : Type ℓ} ⦃e : HasEquality A⦄ (a : A) → (a == a) ≡ true
==_refl a = (==_iff a a).1 refl

-- To split on a computed value and keep the equation.
pub Bool-cases : (b : Bool) → (b ≡ true) ⊎ (b ≡ false)
Bool-cases true = inl refl
Bool-cases false = inr refl

pub Option-cases {ℓ} : {A : Type ℓ} (o : Option A) → (o ≡ none) ⊎ ((a : A) × (o ≡ some a))
Option-cases none = inl refl
Option-cases (some a) = inr (a, refl)

-- Two tests with the same true cases are equal.
pub eq_of_iff : (a b : Bool) → (a ≡ true → b ≡ true) → (b ≡ true → a ≡ true) → a ≡ b
eq_of_iff true b f g = ground (arith, f refl)
eq_of_iff false true f g = ground (arith, g refl)
eq_of_iff false false f g = refl
