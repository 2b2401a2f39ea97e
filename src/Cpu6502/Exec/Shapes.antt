-- ===== src/Cpu6502/Exec/Shapes.antt =====
-- opcodes.c: the shapes of the cases of `cpu_execute_opcode`.
use oric2_golden_model.Base.{
  ℕ, ◌+◌, ◌-◌, bit_or, Bool, true, false, List, bool_eq, if◌then◌else◌, u16, shl, clear8,
}
use oric2_golden_model.Cpu.State.{flag_interrupt, flag_break, flag_unused}
use oric2_golden_model.Cpu.Address.{page_differs}
use oric2_golden_model.Cpu6502.{Cpu6502, N, pure, gets, modify, ◌>>=◌, ◌>>◌}
use oric2_golden_model.Cpu6502.Access.{
  cpu_get_flag, cpu_set_flag, cpu_mem_read, cpu_mem_write, addr_absolute, addr_relative, cpu_push,
  cpu_pull, cpu_push_word, cpu_pull_word,
}
use oric2_golden_model.Cpu6502.Alu.{update_nz}

-- An action takes the base cycles of the opcode and gives the cycles that its case returns.
abbrev pub Action : Type 0 → Type 0
Action D = ℕ → N D ℕ

abbrev pub Cases : Type 0 → Type 0
Cases D = List (ℕ × Action D)

-- `if (page_crossed) extra = 1`
abbrev pub crossing : Bool → ℕ
crossing crossed = if crossed then 1 else 0

module _ {D : Type 0} where
  -- A mode that reports no page crossing, and one whose caller passes NULL.
  abbrev pub plain : N D ℕ → N D (ℕ × Bool)
  plain mode = do a ← mode; pure (a, false)

  abbrev pub no_cross : N D (ℕ × Bool) → N D ℕ
  no_cross mode = do at ← mode; pure at.0

  -- Opcodes that work on the operand.
  unfoldable pub on_operand : N D (ℕ × Bool) → (ℕ → Cpu6502 D → Cpu6502 D) → Action D
  on_operand mode act cycles = do
    at ← mode
    v ← cpu_mem_read at.0
    modify (act v)
    pure (cycles + crossing at.1)

  unfoldable pub store : N D ℕ → (Cpu6502 D → ℕ) → Action D
  store mode reg cycles = do a ← mode; v ← gets reg; cpu_mem_write a v; pure cycles

  -- Read, change and write back.
  unfoldable pub change_byte : N D ℕ → (ℕ → N D ℕ) → Action D
  unfolding update_nz
  change_byte mode change cycles = do
    a ← mode
    v ← cpu_mem_read a
    result ← change v
    cpu_mem_write a result
    modify (update_nz result)
    pure cycles

  unfoldable pub on_registers : (Cpu6502 D → Cpu6502 D) → Action D
  on_registers change cycles = do modify change; pure cycles

  -- PHA and PHP
  unfoldable pub push_value : (Cpu6502 D → ℕ) → Action D
  push_value value cycles = do v ← gets value; cpu_push v; pure cycles

  -- PLA and PLP
  unfoldable pub pull_value : (ℕ → Cpu6502 D → Cpu6502 D) → Action D
  pull_value act cycles = do v ← cpu_pull; modify (act v); pure cycles

  -- The status byte as PLP and RTI take it in.
  unfoldable pub set_status : ℕ → Cpu6502 D → Cpu6502 D
  set_status v s = record s { p = bit_or (clear8 v flag_break) flag_unused }

  unfoldable pub do_branch : Bool → N D ℕ
  unfolding page_differs
  do_branch condition = do
    target ← addr_relative
    extra ← gets (λ s. if page_differs s.pc target then 2 else 1)
    if condition then (do modify (λ s. record s { pc = target }); pure extra) else pure 0

  unfoldable pub branch_if : ℕ → Bool → Action D
  unfolding do_branch cpu_get_flag
  branch_if f wanted cycles = do
    v ← gets (cpu_get_flag f)
    extra ← do_branch (bool_eq v wanted)
    pure (cycles + extra)

  unfoldable pub jmp : N D ℕ → Action D
  jmp mode cycles = do a ← mode; modify (λ s. record s { pc = a }); pure cycles

  unfoldable pub jsr : Action D
  jsr cycles = do
    a ← addr_absolute
    back ← gets (λ s. u16 (s.pc + 65536 - 1))
    cpu_push_word back
    modify (λ s. record s { pc = a })
    pure cycles

  unfoldable pub rts : Action D
  rts cycles = do back ← cpu_pull_word; modify (λ s. record s { pc = u16 (back + 1) }); pure cycles

  unfoldable pub rti : Action D
  unfolding set_status
  rti cycles = do
    v ← cpu_pull
    modify (set_status v)
    back ← cpu_pull_word
    modify (λ s. record s { pc = back })
    pure cycles

  -- PC and the status byte on the stack, and PC from a vector.
  unfoldable pub interrupt : (ℕ → ℕ) → ℕ → N D (Unit {0})
  unfolding cpu_set_flag
  interrupt status vector = do
    back ← gets (λ s. s.pc)
    cpu_push_word back
    v ← gets (λ s. status s.p)
    cpu_push v
    modify (cpu_set_flag flag_interrupt true)
    lo ← cpu_mem_read vector
    hi ← cpu_mem_read (vector + 1)
    modify (λ s. record s { pc = bit_or lo (shl hi 8) })

  unfoldable pub brk : Action D
  unfolding interrupt
  brk cycles = do
    modify (λ s. record s { pc = u16 (s.pc + 1) })
    interrupt (λ p. bit_or (bit_or p flag_break) flag_unused) 0xfffe
    pure cycles
