-- ===== src/Cpu6502/Tests.antt =====
-- The simulation of the 6502 at concrete states.
use oric2_golden_model.Base.{
  ℕ, ◌≤◌, ◌⊎◌, ◌≡◌, refl, sym, ap, ◌∙◌, true, false, none, some, [], arith,
}
use mathlib.Core.Option.{none-ne-some}
use oric2_golden_model.Memory
use oric2_golden_model.Memory.{Memory, bank_rom}
use oric2_golden_model.Cpu.State.{Cpu}
use oric2_golden_model.Cpu.Access.{fetch_byte, read24}
use oric2_golden_model.Cpu.Run.{step}
use oric2_golden_model.Cpu6502.Exec.{cases, lookup_case}
use oric2_golden_model.Cpu.State
use oric2_golden_model.Cpu6502.{Cpu6502}
use oric2_golden_model.Cpu6502.Access.{addr_immediate}
use oric2_golden_model.Cpu6502.Alu.{op_adc}
use oric2_golden_model.Cpu6502.Exec.Shapes.{plain, on_operand}
use oric2_golden_model.Cpu6502.Exec.Operand.{
  lda_cases, ldx_cases, ldy_cases, sta_cases, stx_cases, sty_cases, adc_cases,
}
use oric2_golden_model.Cpu6502.Run.{cpu_step, cpu_execute_cycles}
use oric2_golden_model.Cpu6502.Loop.{cpu_step-spends, cpu_execute_cycles-ends}
use oric2_golden_model.Cpu6502.Simulation.{view, IsEmulating}
use oric2_golden_model.Cpu6502.Simulation.Step.{
  IsDocumented, cpu_step-view, runs_end, runs_step, steps6502, steps6502-view,
}

-- A ROM whose bytes are all `ADC #$69`.
abbrev adc_bus : Memory (Unit {0})
adc_bus = record {
  ram = λ _. 0;
  rom = λ _. 0x69;
  charset = λ _. 0;
  upper_ram = λ _. 0;
  charset_bank = bank_rom;
  rom_enabled = true;
  overlay_rom = none;
  overlay_rom_size = 0;
  overlay_active = false;
  basic_rom_disabled = false;
  io_read = none;
  io_write = none;
  io_userdata = tt;
  trace_enabled = false;
  trace_callback = false;
  trace_log = [];
  extra_banks = λ _. none;
  free_blocks = 2;
}

-- In emulation mode with C = $1258, the carry set, and PC in the ROM.
abbrev at_adc : Cpu (Unit {0})
at_adc = record {
  c = 0x1258;
  x = 3;
  y = 4;
  s = 0x01f0;
  d = 0;
  pc = 0xeaea;
  dbr = 0;
  pbr = 0;
  p = 0x21;
  e = true;
  cycles = 0;
  cycles_left = 0;
  halted = false;
  stopped = false;
  waiting = false;
  nmi_pending = false;
  irq = 0;
  memory = adc_bus;
}

at_adc-IsEmulating : IsEmulating at_adc
at_adc-IsEmulating = record {
  valid = record {
    c = omega arith;
    x = omega arith;
    y = omega arith;
    stack_low = omega arith;
    stack_high = omega arith;
    d = omega arith;
    pc = omega arith;
    dbr = omega arith;
    pbr = omega arith;
    p = omega arith;
    irq = omega arith;
    bus = record {
      ram = λ i. omega arith;
      rom = λ i. omega arith;
      upper_ram = λ i. omega arith;
      overlay = λ f i h. ground arith;
      banks = λ k f i h. ground arith;
    };
  };
  emulates = refl;
  bank_zero = refl;
  running = refl;
  awake = refl;
}

adc_found :
    lookup_case 0x69 (cases {D = Unit {0}}) ≡ some (on_operand (plain addr_immediate) op_adc)
unfolding cases lookup_case lda_cases ldx_cases ldy_cases sta_cases stx_cases sty_cases adc_cases
adc_found = refl

adc_fetched : (fetch_byte at_adc).0 ≡ 0x69
unfolding fetch_byte read24 Memory.read24 Memory.read State.◌>>=◌ State.gets State.modify State.pure
    Memory.mapped_byte
adc_fetched = refl

at_adc-IsDocumented : IsDocumented at_adc
unfolding IsDocumented
at_adc-IsDocumented h =
    none-ne-some (on_operand (plain addr_immediate) op_adc)
      (sym h ∙ ap (λ op. lookup_case op (cases {D = Unit {0}})) adc_fetched ∙ adc_found)

cpu_step-view_example :
    (cpu_step (view at_adc) ≡ ((step at_adc).0, view (step at_adc).1)) × IsEmulating (step at_adc).1
cpu_step-view_example = cpu_step-view at_adc at_adc-IsEmulating refl at_adc-IsDocumented

steps6502-view_example :
    (steps6502 1 (view at_adc) ≡ view (step at_adc).1) × IsEmulating (step at_adc).1
steps6502-view_example =
    steps6502-view at_adc-IsEmulating
      (runs_step {t = (step at_adc).1} refl at_adc-IsDocumented runs_end)

cpu_step-spends_example : 2 ≤ (cpu_step (view at_adc)).0
unfolding view
cpu_step-spends_example = cpu_step-spends (view at_adc) at_adc-IsEmulating.valid.bus refl

cpu_execute_cycles-ends_example :
    (r : ℕ × Cpu6502 (Unit {0})) × (cpu_execute_cycles 10 9 (view at_adc) ≡ some r)
    × ((9 ≤ r.0) ⊎ (r.1.halted ≡ true))
unfolding view
cpu_execute_cycles-ends_example =
    cpu_execute_cycles-ends 10 9 (view at_adc) at_adc-IsEmulating.valid.bus (omega arith)
