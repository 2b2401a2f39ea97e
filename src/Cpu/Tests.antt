-- ===== src/Cpu/Tests.antt =====
-- The theorems on the core at concrete states.
use oric2_golden_model.Base.{
  ℕ, zero, suc, ◌+◌, ◌-◌, ◌*◌, ◌/◌, ◌≤◌, ◌<◌, ◌≡◌, refl, true, false, none, some, [], arith, leb,
  ◌==◌, u8, u16,
}
use oric2_golden_model.Cpu.State.{flag_carry, flag_zero, flag_overflow, flag_negative, Cpu}
use oric2_golden_model.Cpu.Access.{flag, m_is_8bit, a8, push, pull, push_word, pull_word}
use oric2_golden_model.Cpu.Alu.{carry_in, op_adc, borrow_in, op_sbc, op_cmp, op_adc_m, op_sbc_m}
use oric2_golden_model.Memory.{Memory, bank_rom}
use oric2_golden_model.Memory.Bytes.{HoldsBytes}
use oric2_golden_model.Cpu.Run.{init, reset, step, execute_cycles, handle_irq_or_nmi}
use oric2_golden_model.Cpu.Exec.Control.{jsr, rts}
use oric2_golden_model.Cpu.Exec.Interrupt.{rti, status_irq}
use oric2_golden_model.Cpu.Loop.{steps, spent, execute_cycles_lem, execute_cycles-stopped}
use oric2_golden_model.Cpu.Arithmetic.{
  add_overflows, sub_overflows, op_adc-binary_sum, op_sbc-binary_difference, op_cmp-compares,
}
use oric2_golden_model.Cpu.Decimal.{IsBcd, bcd, op_adc-decimal_sum, op_sbc-decimal_difference}
use oric2_golden_model.Cpu.Stack.{pull-push, pull_word-push_word, rts-jsr}
use oric2_golden_model.Cpu.Frames.{rti-handle_irq_or_nmi}
use oric2_golden_model.Cpu.Wide.{op_adc_m-wide_sum, op_sbc_m-wide_difference}
use oric2_golden_model.Cpu.Valid.{IsValid}
use oric2_golden_model.Cpu.Valid.Step.{step-IsValid}
use oric2_golden_model.Cpu.Valid.Reached.{
  step_event, nmi_event, happen, powered_up, happened, Reached-IsValid,
}

-- A ROM of NOPs, with the reset vector at $EAEA.
abbrev nop_bus : Memory (Unit {0})
nop_bus = record {
  ram = λ _. 0;
  rom = λ _. 0xea;
  charset = λ _. 0;
  upper_ram = λ _. 0;
  charset_bank = bank_rom;
  rom_enabled = true;
  overlay_rom = none;
  overlay_rom_size = 0;
  overlay_active = false;
  basic_rom_disabled = false;
  io_read = none;
  io_write = none;
  io_userdata = tt;
  trace_enabled = false;
  trace_callback = false;
  trace_log = [];
  extra_banks = λ _. none;
  free_blocks = 2;
}

nop_bus-HoldsBytes : HoldsBytes nop_bus
nop_bus-HoldsBytes = record {
  ram = λ i. omega arith;
  rom = λ i. omega arith;
  upper_ram = λ i. omega arith;
  overlay = λ f i h. ground arith;
  banks = λ k f i h. ground arith;
}

-- In emulation mode with C = $1258, the carry set, and the flag byte `p`.
abbrev at_58 : ℕ → Cpu (Unit {0})
at_58 p = record {
  c = 0x1258;
  x = 3;
  y = 4;
  s = 0x01f0;
  d = 0;
  pc = 0xeaea;
  dbr = 0;
  pbr = 0;
  p = p;
  e = true;
  cycles = 0;
  cycles_left = 0;
  halted = false;
  stopped = false;
  waiting = false;
  nmi_pending = false;
  irq = 0;
  memory = nop_bus;
}

at_58-IsValid : (p : ℕ) → p < 256 → IsValid (at_58 p)
at_58-IsValid p h = record {
  c = omega arith;
  x = omega arith;
  y = omega arith;
  stack_low = omega arith;
  stack_high = omega arith;
  d = omega arith;
  pc = omega arith;
  dbr = omega arith;
  pbr = omega arith;
  p = h;
  irq = omega arith;
  bus = nop_bus-HoldsBytes;
}

abbrev binary_58 : Cpu (Unit {0})
binary_58 = at_58 0x21

binary_58-IsValid : IsValid binary_58
binary_58-IsValid = at_58-IsValid 0x21 (omega arith)

abbrev decimal_58 : Cpu (Unit {0})
decimal_58 = at_58 0x29

decimal_58-IsValid : IsValid decimal_58
decimal_58-IsValid = at_58-IsValid 0x29 (omega arith)

Reached-IsValid_example : IsValid (happen step_event (happen nmi_event (reset (init nop_bus))))
Reached-IsValid_example =
    Reached-IsValid nop_bus (happen step_event (happen nmi_event (reset (init nop_bus))))
      nop_bus-HoldsBytes
      (happened step_event (happen nmi_event (reset (init nop_bus)))
        (happened nmi_event (reset (init nop_bus)) powered_up))

step-IsValid_example : IsValid (step binary_58).1
step-IsValid_example = step-IsValid binary_58 binary_58-IsValid

op_adc-binary_sum_example :
    let t = op_adc 0x49 binary_58 in
    (a8 t + 256 * carry_in t ≡ a8 binary_58 + 0x49 + carry_in binary_58)
    × (flag flag_overflow t ≡ add_overflows 128 (a8 binary_58) 0x49 (carry_in binary_58))
    × (flag flag_zero t ≡ (a8 t == 0))
    × (flag flag_negative t ≡ leb 128 (a8 t))
    × (t.c / 256 ≡ binary_58.c / 256)
unfolding flag
op_adc-binary_sum_example = op_adc-binary_sum 0x49 binary_58 binary_58-IsValid (omega arith) refl

op_sbc-binary_difference_example :
    let t = op_sbc 0x49 binary_58 in
    (a8 t + 0x49 + borrow_in binary_58 ≡ a8 binary_58 + 256 * borrow_in t)
    × (flag flag_overflow t ≡ sub_overflows 128 (a8 binary_58) 0x49 (borrow_in binary_58))
    × (flag flag_zero t ≡ (a8 t == 0))
    × (flag flag_negative t ≡ leb 128 (a8 t))
    × (t.c / 256 ≡ binary_58.c / 256)
unfolding flag
op_sbc-binary_difference_example =
    op_sbc-binary_difference 0x49 binary_58 binary_58-IsValid (omega arith) refl

op_cmp-compares_example :
    let t = op_cmp 0x58 0x49 binary_58 in
    (flag flag_carry t ≡ leb 0x49 0x58)
    × (flag flag_zero t ≡ (0x58 == 0x49))
    × (flag flag_negative t ≡ leb 128 (u8 (0x58 + 256 - 0x49)))
op_cmp-compares_example =
    op_cmp-compares 0x58 0x49 binary_58 binary_58-IsValid (omega arith) (omega arith)

decimal_58-IsBcd : IsBcd (a8 decimal_58)
unfolding a8
decimal_58-IsBcd = (omega arith, omega arith)

op_adc-decimal_sum_example :
    let t = op_adc 0x46 decimal_58 in
    IsBcd (a8 t)
    × (bcd (a8 t) + 100 * carry_in t ≡ bcd (a8 decimal_58) + bcd 0x46 + carry_in decimal_58)
    × (flag flag_zero t ≡ (u8 (a8 decimal_58 + 0x46 + carry_in decimal_58) == 0))
    × (t.c / 256 ≡ decimal_58.c / 256)
unfolding flag
op_adc-decimal_sum_example =
    op_adc-decimal_sum 0x46 decimal_58 decimal_58-IsValid decimal_58-IsBcd
      (omega arith, omega arith) refl

op_sbc-decimal_difference_example :
    let t = op_sbc 0x69 decimal_58 in
    IsBcd (a8 t)
    × (bcd (a8 t) + bcd 0x69 + borrow_in decimal_58 ≡ bcd (a8 decimal_58) + 100 * borrow_in t)
    × (flag flag_zero t ≡ (a8 decimal_58 == 0x69 + borrow_in decimal_58))
    × (t.c / 256 ≡ decimal_58.c / 256)
unfolding flag
op_sbc-decimal_difference_example =
    op_sbc-decimal_difference 0x69 decimal_58 decimal_58-IsValid decimal_58-IsBcd
      (omega arith, omega arith) refl

abbrev stopped_58 : Cpu (Unit {0})
stopped_58 = record binary_58 { stopped = true }

execute_cycles-stopped_example : execute_cycles 1000 20 stopped_58 ≡ none
execute_cycles-stopped_example = execute_cycles-stopped 1000 20 stopped_58 refl (omega arith)

-- A core that waits for an interrupt: two idle steps for 3 cycles.
abbrev waiting_58 : Cpu (Unit {0})
waiting_58 = record binary_58 { waiting = true }

below_two : (k : ℕ) → k < 2 → spent k waiting_58 < 3
unfolding spent step
below_two zero h = omega arith
below_two (suc zero) h = omega arith
below_two (suc (suc k)) h = absurd (omega arith)

enough_waiting : 3 ≤ spent 2 waiting_58
unfolding spent step
enough_waiting = omega arith

execute_cycles_lem_example :
    execute_cycles 10 3 waiting_58 ≡ some (spent 2 waiting_58, steps 2 waiting_58)
execute_cycles_lem_example =
    execute_cycles_lem 2 10 3 waiting_58 below_two enough_waiting (omega arith)

-- The stack of the state above.
pull-push_example :
    let after = pull (push 7 binary_58).1 in
    (after.0 ≡ 7) × (after.1.s ≡ binary_58.s) × (after.1.pc ≡ binary_58.pc)
pull-push_example = pull-push 7 binary_58 binary_58-IsValid (omega arith) refl

pull_word-push_word_example :
    let after = pull_word (push_word 0x1234 binary_58).1 in
    (after.0 ≡ 0x1234) × (after.1.s ≡ binary_58.s) × (after.1.pc ≡ binary_58.pc)
pull_word-push_word_example =
    pull_word-push_word 0x1234 binary_58 binary_58-IsValid (omega arith) refl refl

rts-jsr_example :
    let after = (rts 6 (jsr 6 binary_58).1).1 in
    (after.pc ≡ u16 (binary_58.pc + 2)) × (after.s ≡ binary_58.s)
rts-jsr_example = rts-jsr 6 binary_58 binary_58-IsValid refl

rti-handle_irq_or_nmi_example :
    let after = (rti 6 (handle_irq_or_nmi 0xfffe binary_58).1).1 in
    (after.pc ≡ binary_58.pc) × (after.p ≡ status_irq binary_58.p) × (after.s ≡ binary_58.s)
rti-handle_irq_or_nmi_example = rti-handle_irq_or_nmi 0xfffe 6 binary_58 binary_58-IsValid refl

-- Native mode with 16-bit registers.
abbrev native_58 : Cpu (Unit {0})
native_58 = record binary_58 { e = false; p = 0x01 }

native_58-IsValid : IsValid native_58
native_58-IsValid = record {
  c = omega arith;
  x = omega arith;
  y = omega arith;
  stack_low = omega arith;
  stack_high = omega arith;
  d = omega arith;
  pc = omega arith;
  dbr = omega arith;
  pbr = omega arith;
  p = omega arith;
  irq = omega arith;
  bus = nop_bus-HoldsBytes;
}

op_adc_m-wide_sum_example :
    let t = op_adc_m 0x7000 native_58 in
    (t.c + 65536 * carry_in t ≡ native_58.c + 0x7000 + carry_in native_58)
    × (flag flag_overflow t ≡ add_overflows 32768 native_58.c 0x7000 (carry_in native_58))
    × (flag flag_zero t ≡ (t.c == 0))
    × (flag flag_negative t ≡ leb 32768 t.c)
unfolding flag m_is_8bit
op_adc_m-wide_sum_example =
    op_adc_m-wide_sum 0x7000 native_58 native_58-IsValid (omega arith) refl refl

op_sbc_m-wide_difference_example :
    let t = op_sbc_m 0x7000 native_58 in
    (t.c + 0x7000 + borrow_in native_58 ≡ native_58.c + 65536 * borrow_in t)
    × (flag flag_overflow t ≡ sub_overflows 32768 native_58.c 0x7000 (borrow_in native_58))
    × (flag flag_zero t ≡ (t.c == 0))
    × (flag flag_negative t ≡ leb 32768 t.c)
unfolding flag m_is_8bit
op_sbc_m-wide_difference_example =
    op_sbc_m-wide_difference 0x7000 native_58 native_58-IsValid (omega arith) refl refl
