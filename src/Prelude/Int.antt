-- ===== src/Prelude/Int.antt =====
-- Signed integers over the native numbers: the exit codes of a process.
use Prim.Native.Nat.{ℕ}
use mathlib.Core.Path.{◌≡◌, refl}
use mathlib.Core.Logic.{◌↔◌}
use mathlib.Core.Bool.{Bool, true, false}
use native.Mathlib.Omega.{arith}
use harness_system.Prelude.Tests.{HasEquality, eqb}

-- `negsuc n` is -(n + 1).
pub data ℤ : Type 0 where
  pos : ℕ → ℤ
  negsuc : ℕ → ℤ

abbrev pub int_beq : ℤ → ℤ → Bool
int_beq (pos m) (pos n) = eqb m n
int_beq (negsuc m) (negsuc n) = eqb m n
int_beq _ _ = false

pub int_beq_iff : (a b : ℤ) → (int_beq a b ≡ true) ↔ (a ≡ b)
int_beq_iff a b = ground arith

instance abbrev pub int_eq : HasEquality ℤ
int_eq = record {
  same = int_beq;
  same_sound = λ a b. (int_beq_iff a b).0;
  same_complete = λ a. (int_beq_iff a a).1 refl;
}
