-- ===== src/Prelude/Integers.antt =====
-- Whole numbers with a sign; `negsuc n` is -(n + 1).
use Prim.Native.Nat.{ℕ}
use mathlib.Core.Path.{◌≡◌}
use mathlib.Core.Logic.{◌↔◌}
use mathlib.Core.Bool.{Bool, true, false}
use native.Mathlib.Omega.{arith}
use zolo.Prelude.Tests.{Equality, nat_eq, ◌==◌}

pub data ℤ : Type 0 where
  pos : ℕ → ℤ
  negsuc : ℕ → ℤ

abbrev int_beq : ℤ → ℤ → Bool
int_beq (pos a) (pos b) = a == b
int_beq (negsuc a) (negsuc b) = a == b
int_beq _ _ = false

pub int_beq_iff : (a b : ℤ) → (int_beq a b ≡ true) ↔ (a ≡ b)
int_beq_iff a b = ground arith

instance abbrev pub int_eq : Equality ℤ
int_eq = record { same = int_beq; same_iff = int_beq_iff }
