-- ===== src/Cpu6502/Exec/Registers.antt =====
-- opcodes.c: shifts, counters, transfers, stack, branches, jumps and flags.
use oric2_golden_model.Base.{ℕ, ◌+◌, ◌-◌, bit_or, true, false, [], ◌∷◌, u8}
use oric2_golden_model.Cpu.State.{
  flag_carry, flag_zero, flag_interrupt, flag_decimal, flag_break, flag_unused, flag_overflow,
  flag_negative,
}
use oric2_golden_model.Cpu6502.{Cpu6502, N, pure}
use oric2_golden_model.Cpu6502.Access.{
  cpu_set_flag, addr_zero_page, addr_zero_page_x, addr_absolute, addr_absolute_x, addr_indirect,
}
use oric2_golden_model.Cpu6502.Alu.{lda, ldx, ldy, asl, lsr, rol, ror, inc, dec}
use oric2_golden_model.Cpu6502.Exec.Shapes.{
  Cases, no_cross, change_byte, on_registers, push_value, pull_value, set_status, branch_if, jmp,
  jsr, rts, rti, brk,
}

module _ {D : Type 0} where
  -- A shift of A, whose flags follow the new A.
  unfoldable pub on_a : (ℕ → N D ℕ) → Cpu6502 D → Cpu6502 D
  unfolding lda
  on_a shift s = let (v, s1) = shift s.a s in lda v s1

  -- ASL
  unfoldable pub asl_cases : Cases D
  asl_cases =
      (0x0a, on_registers (on_a asl))
      ∷ (0x06, change_byte addr_zero_page asl)
      ∷ (0x16, change_byte addr_zero_page_x asl)
      ∷ (0x0e, change_byte addr_absolute asl)
      ∷ (0x1e, change_byte (no_cross addr_absolute_x) asl)
      ∷ []

  -- LSR
  unfoldable pub lsr_cases : Cases D
  lsr_cases =
      (0x4a, on_registers (on_a lsr))
      ∷ (0x46, change_byte addr_zero_page lsr)
      ∷ (0x56, change_byte addr_zero_page_x lsr)
      ∷ (0x4e, change_byte addr_absolute lsr)
      ∷ (0x5e, change_byte (no_cross addr_absolute_x) lsr)
      ∷ []

  -- ROL
  unfoldable pub rol_cases : Cases D
  rol_cases =
      (0x2a, on_registers (on_a rol))
      ∷ (0x26, change_byte addr_zero_page rol)
      ∷ (0x36, change_byte addr_zero_page_x rol)
      ∷ (0x2e, change_byte addr_absolute rol)
      ∷ (0x3e, change_byte (no_cross addr_absolute_x) rol)
      ∷ []

  -- ROR
  unfoldable pub ror_cases : Cases D
  ror_cases =
      (0x6a, on_registers (on_a ror))
      ∷ (0x66, change_byte addr_zero_page ror)
      ∷ (0x76, change_byte addr_zero_page_x ror)
      ∷ (0x6e, change_byte addr_absolute ror)
      ∷ (0x7e, change_byte (no_cross addr_absolute_x) ror)
      ∷ []

  -- INC
  unfoldable pub inc_cases : Cases D
  inc_cases =
      (0xe6, change_byte addr_zero_page inc)
      ∷ (0xf6, change_byte addr_zero_page_x inc)
      ∷ (0xee, change_byte addr_absolute inc)
      ∷ (0xfe, change_byte (no_cross addr_absolute_x) inc)
      ∷ []

  -- DEC
  unfoldable pub dec_cases : Cases D
  dec_cases =
      (0xc6, change_byte addr_zero_page dec)
      ∷ (0xd6, change_byte addr_zero_page_x dec)
      ∷ (0xce, change_byte addr_absolute dec)
      ∷ (0xde, change_byte (no_cross addr_absolute_x) dec)
      ∷ []

  -- INX, INY, DEX and DEY
  unfoldable pub index_cases : Cases D
  index_cases =
      (0xe8, on_registers (λ s. ldx (u8 (s.x + 1)) s))
      ∷ (0xc8, on_registers (λ s. ldy (u8 (s.y + 1)) s))
      ∷ (0xca, on_registers (λ s. ldx (u8 (s.x + 256 - 1)) s))
      ∷ (0x88, on_registers (λ s. ldy (u8 (s.y + 256 - 1)) s))
      ∷ []

  -- the transfers
  unfoldable pub transfer_cases : Cases D
  transfer_cases =
      (0xaa, on_registers (λ s. ldx s.a s))
      ∷ (0x8a, on_registers (λ s. lda s.x s))
      ∷ (0xa8, on_registers (λ s. ldy s.a s))
      ∷ (0x98, on_registers (λ s. lda s.y s))
      ∷ (0xba, on_registers (λ s. ldx s.sp s))
      ∷ (0x9a, on_registers (λ s. record s { sp = s.x }))
      ∷ []

  -- the stack
  unfoldable pub stack_cases : Cases D
  stack_cases =
      (0x48, push_value (λ s. s.a))
      ∷ (0x68, pull_value lda)
      ∷ (0x08, push_value (λ s. bit_or (bit_or s.p flag_break) flag_unused))
      ∷ (0x28, pull_value set_status)
      ∷ []

  -- the branches
  unfoldable pub branch_cases : Cases D
  branch_cases =
      (0x10, branch_if flag_negative false)
      ∷ (0x30, branch_if flag_negative true)
      ∷ (0x50, branch_if flag_overflow false)
      ∷ (0x70, branch_if flag_overflow true)
      ∷ (0x90, branch_if flag_carry false)
      ∷ (0xb0, branch_if flag_carry true)
      ∷ (0xd0, branch_if flag_zero false)
      ∷ (0xf0, branch_if flag_zero true)
      ∷ []

  -- JMP, JSR, RTS, RTI and BRK
  unfoldable pub jump_cases : Cases D
  jump_cases =
      (0x4c, jmp addr_absolute)
      ∷ (0x6c, jmp addr_indirect)
      ∷ (0x20, jsr)
      ∷ (0x60, rts)
      ∷ (0x40, rti)
      ∷ (0x00, brk)
      ∷ []

  -- the flags
  unfoldable pub flag_cases : Cases D
  flag_cases =
      (0x18, on_registers (cpu_set_flag flag_carry false))
      ∷ (0x38, on_registers (cpu_set_flag flag_carry true))
      ∷ (0x58, on_registers (cpu_set_flag flag_interrupt false))
      ∷ (0x78, on_registers (cpu_set_flag flag_interrupt true))
      ∷ (0xd8, on_registers (cpu_set_flag flag_decimal false))
      ∷ (0xf8, on_registers (cpu_set_flag flag_decimal true))
      ∷ (0xb8, on_registers (cpu_set_flag flag_overflow false))
      ∷ []

  -- NOP
  unfoldable pub nop_cases : Cases D
  nop_cases = (0xea, pure) ∷ []
