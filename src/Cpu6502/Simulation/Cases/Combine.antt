-- ===== src/Cpu6502/Simulation/Cases/Combine.antt =====
-- The cases of ADC, SBC, AND, ORA, EOR and CMP.
use oric2_golden_model.Base.{refl}
use oric2_golden_model.Cpu.Exec.{
  find_case, operand_case, memory_case, register_case, control_case, in_cases,
}
use oric2_golden_model.Cpu.Exec.Control as WideControl
use oric2_golden_model.Cpu.Exec.Interrupt as WideInterrupt
use oric2_golden_model.Cpu.Exec.Memory as WideMemory
use oric2_golden_model.Cpu.Exec.Operand as WideOperand
use oric2_golden_model.Cpu.Exec.Registers as WideRegisters
use oric2_golden_model.Cpu6502.Exec.Operand.{
  adc_cases, sbc_cases, and_cases, ora_cases, eor_cases, cmp_cases,
}
use oric2_golden_model.Cpu6502.Simulation.Modes.{
  Simulates-plain, Simulates-addr_zp, Simulates-addr_zp_x, Simulates-addr_abs, Simulates-addr_abs_x,
  Simulates-addr_abs_y, Simulates-indexed_indirect, Simulates-indirect_indexed,
}
use oric2_golden_model.Cpu6502.Simulation.Acts.{
  SimulatesAct-and_a, SimulatesAct-or_a, SimulatesAct-xor_a, SimulatesAct-cmp_a,
}
use oric2_golden_model.Cpu6502.Simulation.Arith.{SimulatesAct-op_adc, SimulatesAct-op_sbc}
use oric2_golden_model.Cpu6502.Simulation.Shapes.{SimulatesCase-on_m, SimulatesCase-on_imm_m}
use oric2_golden_model.Cpu6502.Simulation.Control.{SimulatesCase-sbc_or_xba}
use oric2_golden_model.Cpu6502.Simulation.Cases.{
  SimulatesFind-at, SimulatesCases, simulates_nil, ◌▸◌,
}

module _ {D : Type 0} where
  pub Simulates-combine_groups :
      SimulatesCases {D = D} adc_cases
      × SimulatesCases {D = D} sbc_cases
      × SimulatesCases {D = D} and_cases
      × SimulatesCases {D = D} ora_cases
      × SimulatesCases {D = D} eor_cases
      × SimulatesCases {D = D} cmp_cases
  unfolding adc_cases sbc_cases and_cases ora_cases eor_cases cmp_cases find_case operand_case
      memory_case register_case control_case in_cases WideOperand.lda_cases
      WideOperand.lda_long_cases WideOperand.alu_long_cases WideOperand.dp_indirect_cases
      WideOperand.ldx_cases WideOperand.ldy_cases WideOperand.adc_cases WideOperand.sbc_cases
      WideOperand.and_cases WideOperand.ora_cases WideOperand.eor_cases WideOperand.cmp_cases
      WideOperand.cpx_cases WideOperand.cpy_cases WideOperand.bit_cases WideMemory.sta_long_cases
      WideMemory.sta_dp_indirect_cases WideMemory.sta_cases WideMemory.stx_cases
      WideMemory.sty_cases WideMemory.stz_cases WideMemory.asl_cases WideMemory.lsr_cases
      WideMemory.rol_cases WideMemory.ror_cases WideMemory.inc_cases WideMemory.dec_cases
      WideRegisters.shift_a_cases WideRegisters.inc_a_cases WideRegisters.index_cases
      WideRegisters.transfer_cases WideRegisters.native_transfer_cases WideRegisters.flag_cases
      WideRegisters.rep_sep_cases WideRegisters.xce_cases WideRegisters.wdm_cases
      WideRegisters.stop_cases WideRegisters.nop_cases WideControl.stack_cases
      WideControl.native_stack_cases WideControl.branch_cases WideControl.bra_cases
      WideControl.jump_cases WideControl.block_cases WideInterrupt.interrupt_cases
  Simulates-combine_groups = (
    SimulatesFind-at refl (SimulatesCase-on_imm_m SimulatesAct-op_adc)
        ▸ SimulatesFind-at refl
            (SimulatesCase-on_m (Simulates-plain Simulates-addr_zp) SimulatesAct-op_adc)
        ▸ SimulatesFind-at refl
            (SimulatesCase-on_m (Simulates-plain Simulates-addr_zp_x) SimulatesAct-op_adc)
        ▸ SimulatesFind-at refl
            (SimulatesCase-on_m (Simulates-plain Simulates-addr_abs) SimulatesAct-op_adc)
        ▸ SimulatesFind-at refl (SimulatesCase-on_m Simulates-addr_abs_x SimulatesAct-op_adc)
        ▸ SimulatesFind-at refl (SimulatesCase-on_m Simulates-addr_abs_y SimulatesAct-op_adc)
        ▸ SimulatesFind-at refl
            (SimulatesCase-on_m (Simulates-plain Simulates-indexed_indirect) SimulatesAct-op_adc)
        ▸ SimulatesFind-at refl (SimulatesCase-on_m Simulates-indirect_indexed SimulatesAct-op_adc)
        ▸ simulates_nil,
    SimulatesFind-at refl (SimulatesCase-on_imm_m SimulatesAct-op_sbc)
        ▸ SimulatesFind-at refl SimulatesCase-sbc_or_xba
        ▸ SimulatesFind-at refl
            (SimulatesCase-on_m (Simulates-plain Simulates-addr_zp) SimulatesAct-op_sbc)
        ▸ SimulatesFind-at refl
            (SimulatesCase-on_m (Simulates-plain Simulates-addr_zp_x) SimulatesAct-op_sbc)
        ▸ SimulatesFind-at refl
            (SimulatesCase-on_m (Simulates-plain Simulates-addr_abs) SimulatesAct-op_sbc)
        ▸ SimulatesFind-at refl (SimulatesCase-on_m Simulates-addr_abs_x SimulatesAct-op_sbc)
        ▸ SimulatesFind-at refl (SimulatesCase-on_m Simulates-addr_abs_y SimulatesAct-op_sbc)
        ▸ SimulatesFind-at refl
            (SimulatesCase-on_m (Simulates-plain Simulates-indexed_indirect) SimulatesAct-op_sbc)
        ▸ SimulatesFind-at refl (SimulatesCase-on_m Simulates-indirect_indexed SimulatesAct-op_sbc)
        ▸ simulates_nil,
    SimulatesFind-at refl (SimulatesCase-on_imm_m SimulatesAct-and_a)
        ▸ SimulatesFind-at refl
            (SimulatesCase-on_m (Simulates-plain Simulates-addr_zp) SimulatesAct-and_a)
        ▸ SimulatesFind-at refl
            (SimulatesCase-on_m (Simulates-plain Simulates-addr_zp_x) SimulatesAct-and_a)
        ▸ SimulatesFind-at refl
            (SimulatesCase-on_m (Simulates-plain Simulates-addr_abs) SimulatesAct-and_a)
        ▸ SimulatesFind-at refl (SimulatesCase-on_m Simulates-addr_abs_x SimulatesAct-and_a)
        ▸ SimulatesFind-at refl (SimulatesCase-on_m Simulates-addr_abs_y SimulatesAct-and_a)
        ▸ SimulatesFind-at refl
            (SimulatesCase-on_m (Simulates-plain Simulates-indexed_indirect) SimulatesAct-and_a)
        ▸ SimulatesFind-at refl (SimulatesCase-on_m Simulates-indirect_indexed SimulatesAct-and_a)
        ▸ simulates_nil,
    SimulatesFind-at refl (SimulatesCase-on_imm_m SimulatesAct-or_a)
        ▸ SimulatesFind-at refl
            (SimulatesCase-on_m (Simulates-plain Simulates-addr_zp) SimulatesAct-or_a)
        ▸ SimulatesFind-at refl
            (SimulatesCase-on_m (Simulates-plain Simulates-addr_zp_x) SimulatesAct-or_a)
        ▸ SimulatesFind-at refl
            (SimulatesCase-on_m (Simulates-plain Simulates-addr_abs) SimulatesAct-or_a)
        ▸ SimulatesFind-at refl (SimulatesCase-on_m Simulates-addr_abs_x SimulatesAct-or_a)
        ▸ SimulatesFind-at refl (SimulatesCase-on_m Simulates-addr_abs_y SimulatesAct-or_a)
        ▸ SimulatesFind-at refl
            (SimulatesCase-on_m (Simulates-plain Simulates-indexed_indirect) SimulatesAct-or_a)
        ▸ SimulatesFind-at refl (SimulatesCase-on_m Simulates-indirect_indexed SimulatesAct-or_a)
        ▸ simulates_nil,
    SimulatesFind-at refl (SimulatesCase-on_imm_m SimulatesAct-xor_a)
        ▸ SimulatesFind-at refl
            (SimulatesCase-on_m (Simulates-plain Simulates-addr_zp) SimulatesAct-xor_a)
        ▸ SimulatesFind-at refl
            (SimulatesCase-on_m (Simulates-plain Simulates-addr_zp_x) SimulatesAct-xor_a)
        ▸ SimulatesFind-at refl
            (SimulatesCase-on_m (Simulates-plain Simulates-addr_abs) SimulatesAct-xor_a)
        ▸ SimulatesFind-at refl (SimulatesCase-on_m Simulates-addr_abs_x SimulatesAct-xor_a)
        ▸ SimulatesFind-at refl (SimulatesCase-on_m Simulates-addr_abs_y SimulatesAct-xor_a)
        ▸ SimulatesFind-at refl
            (SimulatesCase-on_m (Simulates-plain Simulates-indexed_indirect) SimulatesAct-xor_a)
        ▸ SimulatesFind-at refl (SimulatesCase-on_m Simulates-indirect_indexed SimulatesAct-xor_a)
        ▸ simulates_nil,
    SimulatesFind-at refl (SimulatesCase-on_imm_m SimulatesAct-cmp_a)
        ▸ SimulatesFind-at refl
            (SimulatesCase-on_m (Simulates-plain Simulates-addr_zp) SimulatesAct-cmp_a)
        ▸ SimulatesFind-at refl
            (SimulatesCase-on_m (Simulates-plain Simulates-addr_zp_x) SimulatesAct-cmp_a)
        ▸ SimulatesFind-at refl
            (SimulatesCase-on_m (Simulates-plain Simulates-addr_abs) SimulatesAct-cmp_a)
        ▸ SimulatesFind-at refl (SimulatesCase-on_m Simulates-addr_abs_x SimulatesAct-cmp_a)
        ▸ SimulatesFind-at refl (SimulatesCase-on_m Simulates-addr_abs_y SimulatesAct-cmp_a)
        ▸ SimulatesFind-at refl
            (SimulatesCase-on_m (Simulates-plain Simulates-indexed_indirect) SimulatesAct-cmp_a)
        ▸ SimulatesFind-at refl (SimulatesCase-on_m Simulates-indirect_indexed SimulatesAct-cmp_a)
        ▸ simulates_nil,
  )
