-- ===== src/Cpu/Run.antt =====
-- src/cpu/cpu65c816.c: init, reset, interrupts, and the loop.
use oric2_golden_model.Base.{
  ℕ, zero, suc, ◌+◌, bit_or, true, false, not, ◌&&◌, ◌||◌, Option, none, some, ltb, ◌==◌,
  if◌then◌else◌, u64, has, clear8, word,
}
use oric2_golden_model.Memory
use oric2_golden_model.Memory.{Memory}
use oric2_golden_model.Cpu.State.{
  flag_interrupt, flag_decimal, flag_unused, IrqSource, irq_mask, Cpu, M, pure, gets, modify, ◌>>=◌,
  ◌>>◌,
}
use oric2_golden_model.Cpu.Access.{fetch_byte}
use oric2_golden_model.Cpu.Exec.{execute_opcode}
use oric2_golden_model.Cpu.Exec.Interrupt.{push_frame, go_vector, status_irq}

module _ {D : Type 0} where
  unfoldable pub init : Memory D → Cpu D
  init m = record {
    c = 0;
    x = 0;
    y = 0;
    s = 0;
    d = 0;
    pc = 0;
    dbr = 0;
    pbr = 0;
    p = 0;
    e = false;
    cycles = 0;
    cycles_left = 0;
    halted = false;
    stopped = false;
    waiting = false;
    nmi_pending = false;
    irq = 0;
    memory = m;
  }

  unfoldable pub reset : Cpu D → Cpu D
  reset s =
      let (lo, m1) = Memory.read 0xfffc s.memory in
      let (hi, m2) = Memory.read 0xfffd m1 in
      record {
        c = 0;
        x = 0;
        y = 0;
        s = 0x01ff;
        d = 0;
        pc = word lo hi;
        dbr = 0;
        pbr = 0;
        p = bit_or flag_interrupt flag_unused;
        e = true;
        cycles = 0;
        cycles_left = 0;
        halted = false;
        stopped = false;
        waiting = false;
        nmi_pending = false;
        irq = 0;
        memory = m2;
      }

  unfoldable pub handle_irq_or_nmi : ℕ → M D (Unit {0})
  unfolding push_frame go_vector
  handle_irq_or_nmi vector = do
    push_frame status_irq
    modify (λ s. record s { p = bit_or s.p flag_interrupt })
    modify (λ s. if s.e then s else record s { p = clear8 s.p flag_decimal })
    go_vector vector
    modify (λ s. record s { waiting = false })

  -- `cpu->cycles += n`
  unfoldable pub count_cycles : ℕ → Cpu D → Cpu D
  count_cycles n s = record s { cycles = u64 (s.cycles + n) }

  unfoldable pub step_nmi : M D ℕ
  unfolding handle_irq_or_nmi count_cycles
  step_nmi = do
    vector ← gets (λ s. if s.e then 0xfffa else 0xffea)
    handle_irq_or_nmi vector
    modify (λ s. record s { nmi_pending = false })
    modify (count_cycles 7)
    pure 7

  unfoldable pub step_irq : M D ℕ
  unfolding handle_irq_or_nmi count_cycles
  step_irq = do
    vector ← gets (λ s. if s.e then 0xfffe else 0xffee)
    handle_irq_or_nmi vector
    modify (count_cycles 7)
    pure 7

  unfoldable pub step_opcode : M D ℕ
  unfolding count_cycles
  step_opcode = do
    opcode ← fetch_byte
    cyc ← execute_opcode opcode
    modify (count_cycles cyc)
    pure cyc

  unfoldable pub step : M D ℕ
  unfolding step_nmi step_irq step_opcode
  step s =
      if s.halted || s.stopped
      then (0, s)
      else if s.waiting && (not s.nmi_pending && s.irq == 0)
      then (2, s)
      else if s.nmi_pending
      then step_nmi s
      else if not (s.irq == 0) && not (has s.p flag_interrupt)
      then step_irq s
      else step_opcode s

  -- `while (total < cycles)`, with fuel: `none` while the loop is still running.
  unfoldable pub run_cycles : ℕ → ℕ → ℕ → Cpu D → Option (ℕ × Cpu D)
  run_cycles zero cycles total s = none
  run_cycles (suc fuel) cycles total s = elim (ltb total cycles) [
    | false ↦ some (total, s)
    | true ↦ let (n, s') = step s in run_cycles fuel cycles (total + n) s'
  ]

  unfoldable pub execute_cycles : ℕ → ℕ → Cpu D → Option (ℕ × Cpu D)
  unfolding run_cycles
  execute_cycles fuel cycles s = run_cycles fuel cycles 0 s

  unfoldable pub nmi : Cpu D → Cpu D
  nmi s = record s { nmi_pending = true; waiting = false }

  unfoldable pub irq_set : IrqSource → Cpu D → Cpu D
  irq_set source s = record s { irq = bit_or s.irq (irq_mask source); waiting = false }

  unfoldable pub irq_clear : IrqSource → Cpu D → Cpu D
  irq_clear source s = record s { irq = clear8 s.irq (irq_mask source) }
