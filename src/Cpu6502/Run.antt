-- ===== src/Cpu6502/Run.antt =====
-- cpu6502.c: init, reset, interrupts, and the loop.
use oric2_golden_model.Base.{
  ℕ, zero, suc, ◌+◌, bit_or, true, false, not, ◌&&◌, Option, none, some, ltb, ◌==◌, if◌then◌else◌,
  u64, clear8,
}
use oric2_golden_model.Memory
use oric2_golden_model.Memory.{Memory}
use oric2_golden_model.Cpu.State.{
  flag_interrupt, flag_break, flag_unused, IrqSource, irq_mask, irq_via,
}
use oric2_golden_model.Cpu6502.{Cpu6502, N, pure, modify, ◌>>=◌, ◌>>◌}
use oric2_golden_model.Cpu6502.Access.{cpu_get_flag, cpu_fetch_byte}
use oric2_golden_model.Cpu6502.Exec.Shapes.{interrupt}
use oric2_golden_model.Cpu6502.Exec.{cpu_execute_opcode}

-- The status byte that an interrupt pushes.
abbrev pub interrupt_status : ℕ → ℕ
interrupt_status p = bit_or (clear8 p flag_break) flag_unused

module _ {D : Type 0} where
  unfoldable pub cpu_init : Memory D → Cpu6502 D
  cpu_init memory = record {
    a = 0;
    x = 0;
    y = 0;
    sp = 0;
    pc = 0;
    p = bit_or flag_unused flag_interrupt;
    cycles = 0;
    cycles_left = 0;
    halted = false;
    nmi_pending = false;
    irq = 0;
    memory = memory;
  }

  unfoldable pub cpu_reset : Cpu6502 D → Cpu6502 D
  cpu_reset s =
      let (pc, memory) = Memory.read_word 0xfffc s.memory in
      record s {
        memory = memory;
        pc = pc;
        sp = 0xfd;
        p = bit_or flag_unused flag_interrupt;
        cycles = 0;
        halted = false;
        nmi_pending = false;
        irq = 0;
      }

  -- `cpu->cycles += n`
  unfoldable pub add_cycles : ℕ → Cpu6502 D → Cpu6502 D
  add_cycles n s = record s { cycles = u64 (s.cycles + n) }

  unfoldable pub handle_nmi : N D (Unit {0})
  unfolding interrupt add_cycles
  handle_nmi = do
    interrupt interrupt_status 0xfffa
    modify (λ s. record s { nmi_pending = false })
    modify (add_cycles 7)

  unfoldable pub handle_irq : N D (Unit {0})
  unfolding interrupt add_cycles
  handle_irq = do interrupt interrupt_status 0xfffe; modify (add_cycles 7)

  -- An opcode, fetched and executed.
  unfoldable pub step_instruction : N D ℕ
  unfolding cpu_fetch_byte cpu_execute_opcode add_cycles
  step_instruction = do
    opcode ← cpu_fetch_byte
    cyc ← cpu_execute_opcode opcode
    modify (add_cycles cyc)
    pure cyc

  unfoldable pub cpu_step : N D ℕ
  unfolding handle_nmi handle_irq step_instruction cpu_get_flag
  cpu_step s =
      if s.halted
      then (0, s)
      else if s.nmi_pending
      then (do handle_nmi; pure 7) s
      else if not (s.irq == 0) && not (cpu_get_flag flag_interrupt s)
      then (do handle_irq; pure 7) s
      else step_instruction s

  -- `while (executed < cycles && !cpu->halted)`, with fuel: `none` while the loop is still running.
  unfoldable pub run_loop : ℕ → ℕ → ℕ → Cpu6502 D → Option (ℕ × Cpu6502 D)
  unfolding cpu_step
  run_loop zero cycles executed s = none
  run_loop (suc fuel) cycles executed s = elim (ltb executed cycles && not s.halted) [
    | false ↦ some (executed, s)
    | true ↦ let (n, s') = cpu_step s in run_loop fuel cycles (executed + n) s'
  ]

  unfoldable pub cpu_execute_cycles : ℕ → ℕ → Cpu6502 D → Option (ℕ × Cpu6502 D)
  unfolding run_loop
  cpu_execute_cycles fuel cycles s = run_loop fuel cycles 0 s

  unfoldable pub cpu_nmi : Cpu6502 D → Cpu6502 D
  cpu_nmi s = record s { nmi_pending = true }

  unfoldable pub cpu_irq_set : IrqSource → Cpu6502 D → Cpu6502 D
  cpu_irq_set source s = record s { irq = bit_or s.irq (irq_mask source) }

  unfoldable pub cpu_irq_clear : IrqSource → Cpu6502 D → Cpu6502 D
  cpu_irq_clear source s = record s { irq = clear8 s.irq (irq_mask source) }

  unfoldable pub cpu_irq : Cpu6502 D → Cpu6502 D
  cpu_irq s = record s { irq = bit_or s.irq (irq_mask irq_via) }
