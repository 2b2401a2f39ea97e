-- ===== src/Cpu/State.antt =====
-- src/include/cpu/cpu65c816.h and cpu_types.h: the state of the core, the masks of its status byte,
-- and the programs that run on it. A function of the source that takes `cpu` is a function from the
-- state; one that also reads or writes memory is an action `M`, which gives its result and the state.
-- The bus is part of the state, as `cpu->memory` is the only pointer to it that the core follows.
use oric2_golden_model.Base.{ℕ, Bool}
use oric2_golden_model.Memory.{Memory}

abbrev pub flag_carry : ℕ
flag_carry = 0x01

abbrev pub flag_zero : ℕ
flag_zero = 0x02

abbrev pub flag_interrupt : ℕ
flag_interrupt = 0x04

abbrev pub flag_decimal : ℕ
flag_decimal = 0x08

abbrev pub flag_break : ℕ
flag_break = 0x10

abbrev pub flag_unused : ℕ
flag_unused = 0x20

abbrev pub flag_overflow : ℕ
flag_overflow = 0x40

abbrev pub flag_negative : ℕ
flag_negative = 0x80

-- In native mode bits 4 and 5 are the widths of the index registers and of the accumulator.
abbrev pub flag_x_index : ℕ
flag_x_index = 0x10

abbrev pub flag_m_mem : ℕ
flag_m_mem = 0x20

pub data IrqSource : Type 0 where
  irq_via irq_disk irq_serial : IrqSource

abbrev pub irq_mask : IrqSource → ℕ
irq_mask irq_via = 0x01
irq_mask irq_disk = 0x02
irq_mask irq_serial = 0x04

-- `cpu65c816_t`
pub record Cpu (D : Type 0) : Type 0 where
  pub c : ℕ
  pub x : ℕ
  pub y : ℕ
  pub s : ℕ
  pub d : ℕ
  pub pc : ℕ
  pub dbr : ℕ
  pub pbr : ℕ
  pub p : ℕ
  pub e : Bool
  pub cycles : ℕ
  pub cycles_left : ℕ
  pub halted : Bool
  pub stopped : Bool
  pub waiting : Bool
  pub nmi_pending : Bool
  pub irq : ℕ
  pub memory : Memory D

abbrev pub M : Type 0 → Type 0 → Type 0
M D A = Cpu D → A × Cpu D

module _ {D A : Type 0} where
  unfoldable pub pure : A → M D A
  pure a s = (a, s)

  unfoldable pub gets : (Cpu D → A) → M D A
  gets f s = (f s, s)

unfoldable pub modify : {D : Type 0} → (Cpu D → Cpu D) → M D (Unit {0})
modify f s = (tt, f s)

-- To open this opens the other three.
infixl 5 ◌>>=◌ ◌>>◌
unfoldable pub ◌>>=◌ : {D A B : Type 0} → M D A → (A → M D B) → M D B
unfolding pure gets modify
◌>>=◌ m f s = let (a, s') = m s in f a s'

abbrev pub ◌>>◌ : {D A B : Type 0} → M D A → M D B → M D B
m >> k = m >>= λ _. k
