-- ===== src/Cpu6502.antt =====
-- src/cpu/cpu6502.c, opcodes.c and addressing.c: the 6502 core, which the 65C816 in emulation mode replaces. As in
-- Cpu/State, a function that reads or writes memory is an action, which gives its result and the state.
pub mod Access
pub mod Alu
pub mod Exec
pub mod Run
pub mod Simulation
pub mod Bytes
pub mod Spending
pub mod Loop
mod Tests
use oric2_golden_model.Base.{ℕ, Bool}
use oric2_golden_model.Memory.{Memory}

-- `cpu6502_t`
pub record Cpu6502 (D : Type 0) : Type 0 where
  pub a : ℕ
  pub x : ℕ
  pub y : ℕ
  pub sp : ℕ
  pub pc : ℕ
  pub p : ℕ
  pub cycles : ℕ
  pub cycles_left : ℕ
  pub halted : Bool
  pub nmi_pending : Bool
  pub irq : ℕ
  pub memory : Memory D

abbrev pub N : Type 0 → Type 0 → Type 0
N D A = Cpu6502 D → A × Cpu6502 D

module _ {D A : Type 0} where
  unfoldable pub pure : A → N D A
  pure a s = (a, s)

  unfoldable pub gets : (Cpu6502 D → A) → N D A
  gets f s = (f s, s)

unfoldable pub modify : {D : Type 0} → (Cpu6502 D → Cpu6502 D) → N D (Unit {0})
modify f s = (tt, f s)

-- To open this opens the other three.
infixl 5 ◌>>=◌ ◌>>◌
unfoldable pub ◌>>=◌ : {D A B : Type 0} → N D A → (A → N D B) → N D B
unfolding pure gets modify
◌>>=◌ m f s = let (a, s') = m s in f a s'

abbrev pub ◌>>◌ : {D A B : Type 0} → N D A → N D B → N D B
m >> k = m >>= λ _. k
