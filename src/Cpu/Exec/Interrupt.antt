-- ===== src/Cpu/Exec/Interrupt.antt =====
-- The cases of the switch for BRK, COP and RTI.
use oric2_golden_model.Base.{ℕ, ◌+◌, bit_or, true, false, [], ◌∷◌, if◌then◌else◌, u16, clear8, word}
use oric2_golden_model.Cpu.State.{
  flag_interrupt, flag_decimal, flag_break, flag_unused, M, pure, gets, modify, ◌>>=◌, ◌>>◌,
}
use oric2_golden_model.Cpu.Access.{setf, mem_read, push, pull, push_word, pull_word}
use oric2_golden_model.Cpu.Exec.Shapes.{Action, Cases}
use oric2_golden_model.Cpu.Exec.Control.{take_status}

-- The status byte that an interrupt or COP pushes in emulation mode, and that BRK pushes.
abbrev pub status_irq : ℕ → ℕ
status_irq p = bit_or (clear8 p flag_break) flag_unused

abbrev pub status_brk : ℕ → ℕ
status_brk p = bit_or (bit_or p flag_break) flag_unused

module _ {D : Type 0} where
  unfoldable pub rti : Action D
  rti cycles = do
    v ← pull
    modify (take_status v)
    back ← pull_word
    modify (λ s. record s { pc = back })
    e ← gets (λ s. s.e)
    if e then pure cycles else (do bank ← pull; modify (λ s. record s { pbr = bank }); pure cycles)

  -- `if (!cpu->E) { push PBR; PBR = 0; }`
  unfoldable pub push_bank : M D (Unit {0})
  push_bank = do
    e ← gets (λ s. s.e)
    bank ← gets (λ s. s.pbr)
    if e then pure tt else (do push bank; modify (λ s. record s { pbr = 0 }))

  -- PC and the status byte, the latter as `status` has it in emulation mode
  unfoldable pub push_frame : (ℕ → ℕ) → M D (Unit {0})
  unfolding push_bank
  push_frame status = do
    push_bank
    back ← gets (λ s. s.pc)
    push_word back
    v ← gets (λ s. if s.e then status s.p else s.p)
    push v

  -- PC from a vector of bank 0
  unfoldable pub go_vector : ℕ → M D (Unit {0})
  go_vector vector = do
    lo ← mem_read vector
    hi ← mem_read (u16 (vector + 1))
    modify (λ s. record s { pc = word lo hi })

  unfoldable pub cop : Action D
  unfolding push_frame go_vector
  cop cycles = do
    modify (λ s. record s { pc = u16 (s.pc + 1) })
    push_frame status_irq
    modify (setf flag_interrupt true)
    modify (setf flag_decimal false)
    vector ← gets (λ s. if s.e then 0xfff4 else 0xffe4)
    go_vector vector
    gets (λ s. if s.e then 7 else 8)

  unfoldable pub brk : Action D
  unfolding push_frame go_vector
  brk cycles = do
    modify (λ s. record s { pc = u16 (s.pc + 1) })
    push_frame status_brk
    modify (setf flag_interrupt true)
    modify (λ s. if s.e then s else setf flag_decimal false s)
    vector ← gets (λ s. if s.e then 0xfffe else 0xffe6)
    go_vector vector
    pure cycles

  unfoldable pub interrupt_cases : Cases D
  interrupt_cases = (0x40, rti) ∷ (0x02, cop) ∷ (0x00, brk) ∷ []
