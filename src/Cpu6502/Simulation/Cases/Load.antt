-- ===== src/Cpu6502/Simulation/Cases/Load.antt =====
-- The cases of LDA, LDX, LDY, CPX, CPY and BIT.
use oric2_golden_model.Base.{refl}
use oric2_golden_model.Cpu.Exec.{
  find_case, operand_case, memory_case, register_case, control_case, in_cases,
}
use oric2_golden_model.Cpu.Exec.Control as WideControl
use oric2_golden_model.Cpu.Exec.Interrupt as WideInterrupt
use oric2_golden_model.Cpu.Exec.Memory as WideMemory
use oric2_golden_model.Cpu.Exec.Operand as WideOperand
use oric2_golden_model.Cpu.Exec.Registers as WideRegisters
use oric2_golden_model.Cpu6502.Exec.Operand.{
  lda_cases, ldx_cases, ldy_cases, cpx_cases, cpy_cases, bit_cases,
}
use oric2_golden_model.Cpu6502.Simulation.Modes.{
  Simulates-plain, Simulates-addr_zp, Simulates-addr_zp_x, Simulates-addr_zp_y, Simulates-addr_abs,
  Simulates-addr_abs_x, Simulates-addr_abs_y, Simulates-indexed_indirect,
  Simulates-indirect_indexed,
}
use oric2_golden_model.Cpu6502.Simulation.Acts.{
  SimulatesAct-load_a, SimulatesAct-load_x, SimulatesAct-load_y, SimulatesAct-cmp_x,
  SimulatesAct-cmp_y, SimulatesAct-bit_a,
}
use oric2_golden_model.Cpu6502.Simulation.Shapes.{
  SimulatesCase-on_m, SimulatesCase-on_x, SimulatesCase-on_imm_m, SimulatesCase-on_imm_x,
}
use oric2_golden_model.Cpu6502.Simulation.Cases.{
  SimulatesFind-at, SimulatesCases, simulates_nil, ◌▸◌,
}

module _ {D : Type 0} where
  pub Simulates-load_groups :
      SimulatesCases {D = D} lda_cases
      × SimulatesCases {D = D} ldx_cases
      × SimulatesCases {D = D} ldy_cases
      × SimulatesCases {D = D} cpx_cases
      × SimulatesCases {D = D} cpy_cases
      × SimulatesCases {D = D} bit_cases
  unfolding lda_cases ldx_cases ldy_cases cpx_cases cpy_cases bit_cases find_case operand_case
      memory_case register_case control_case in_cases WideOperand.lda_cases
      WideOperand.lda_long_cases WideOperand.alu_long_cases WideOperand.dp_indirect_cases
      WideOperand.ldx_cases WideOperand.ldy_cases WideOperand.adc_cases WideOperand.sbc_cases
      WideOperand.and_cases WideOperand.ora_cases WideOperand.eor_cases WideOperand.cmp_cases
      WideOperand.cpx_cases WideOperand.cpy_cases WideOperand.bit_cases WideMemory.sta_long_cases
      WideMemory.sta_dp_indirect_cases WideMemory.sta_cases WideMemory.stx_cases
      WideMemory.sty_cases WideMemory.stz_cases WideMemory.asl_cases WideMemory.lsr_cases
      WideMemory.rol_cases WideMemory.ror_cases WideMemory.inc_cases WideMemory.dec_cases
      WideRegisters.shift_a_cases WideRegisters.inc_a_cases WideRegisters.index_cases
      WideRegisters.transfer_cases WideRegisters.native_transfer_cases WideRegisters.flag_cases
      WideRegisters.rep_sep_cases WideRegisters.xce_cases WideRegisters.wdm_cases
      WideRegisters.stop_cases WideRegisters.nop_cases WideControl.stack_cases
      WideControl.native_stack_cases WideControl.branch_cases WideControl.bra_cases
      WideControl.jump_cases WideControl.block_cases WideInterrupt.interrupt_cases
  Simulates-load_groups = (
    SimulatesFind-at refl (SimulatesCase-on_imm_m SimulatesAct-load_a)
        ▸ SimulatesFind-at refl
            (SimulatesCase-on_m (Simulates-plain Simulates-addr_zp) SimulatesAct-load_a)
        ▸ SimulatesFind-at refl
            (SimulatesCase-on_m (Simulates-plain Simulates-addr_zp_x) SimulatesAct-load_a)
        ▸ SimulatesFind-at refl
            (SimulatesCase-on_m (Simulates-plain Simulates-addr_abs) SimulatesAct-load_a)
        ▸ SimulatesFind-at refl (SimulatesCase-on_m Simulates-addr_abs_x SimulatesAct-load_a)
        ▸ SimulatesFind-at refl (SimulatesCase-on_m Simulates-addr_abs_y SimulatesAct-load_a)
        ▸ SimulatesFind-at refl
            (SimulatesCase-on_m (Simulates-plain Simulates-indexed_indirect) SimulatesAct-load_a)
        ▸ SimulatesFind-at refl (SimulatesCase-on_m Simulates-indirect_indexed SimulatesAct-load_a)
        ▸ simulates_nil,
    SimulatesFind-at refl (SimulatesCase-on_imm_x SimulatesAct-load_x)
        ▸ SimulatesFind-at refl
            (SimulatesCase-on_x (Simulates-plain Simulates-addr_zp) SimulatesAct-load_x)
        ▸ SimulatesFind-at refl
            (SimulatesCase-on_x (Simulates-plain Simulates-addr_zp_y) SimulatesAct-load_x)
        ▸ SimulatesFind-at refl
            (SimulatesCase-on_x (Simulates-plain Simulates-addr_abs) SimulatesAct-load_x)
        ▸ SimulatesFind-at refl (SimulatesCase-on_x Simulates-addr_abs_y SimulatesAct-load_x)
        ▸ simulates_nil,
    SimulatesFind-at refl (SimulatesCase-on_imm_x SimulatesAct-load_y)
        ▸ SimulatesFind-at refl
            (SimulatesCase-on_x (Simulates-plain Simulates-addr_zp) SimulatesAct-load_y)
        ▸ SimulatesFind-at refl
            (SimulatesCase-on_x (Simulates-plain Simulates-addr_zp_x) SimulatesAct-load_y)
        ▸ SimulatesFind-at refl
            (SimulatesCase-on_x (Simulates-plain Simulates-addr_abs) SimulatesAct-load_y)
        ▸ SimulatesFind-at refl (SimulatesCase-on_x Simulates-addr_abs_x SimulatesAct-load_y)
        ▸ simulates_nil,
    SimulatesFind-at refl (SimulatesCase-on_imm_x SimulatesAct-cmp_x)
        ▸ SimulatesFind-at refl
            (SimulatesCase-on_x (Simulates-plain Simulates-addr_zp) SimulatesAct-cmp_x)
        ▸ SimulatesFind-at refl
            (SimulatesCase-on_x (Simulates-plain Simulates-addr_abs) SimulatesAct-cmp_x)
        ▸ simulates_nil,
    SimulatesFind-at refl (SimulatesCase-on_imm_x SimulatesAct-cmp_y)
        ▸ SimulatesFind-at refl
            (SimulatesCase-on_x (Simulates-plain Simulates-addr_zp) SimulatesAct-cmp_y)
        ▸ SimulatesFind-at refl
            (SimulatesCase-on_x (Simulates-plain Simulates-addr_abs) SimulatesAct-cmp_y)
        ▸ simulates_nil,
    SimulatesFind-at refl
          (SimulatesCase-on_m (Simulates-plain Simulates-addr_zp) SimulatesAct-bit_a)
        ▸ SimulatesFind-at refl
            (SimulatesCase-on_m (Simulates-plain Simulates-addr_abs) SimulatesAct-bit_a)
        ▸ simulates_nil,
  )
