-- ===== src/Cpu6502/Simulation/Cases/Change.antt =====
-- The cases of the shifts and of INC and DEC.
use oric2_golden_model.Base.{refl}
use oric2_golden_model.Cpu.Exec.{
  find_case, operand_case, memory_case, register_case, control_case, in_cases,
}
use oric2_golden_model.Cpu.Exec.Control as WideControl
use oric2_golden_model.Cpu.Exec.Interrupt as WideInterrupt
use oric2_golden_model.Cpu.Exec.Memory as WideMemory
use oric2_golden_model.Cpu.Exec.Operand as WideOperand
use oric2_golden_model.Cpu.Exec.Registers as WideRegisters
use oric2_golden_model.Cpu6502.Exec.Registers.{
  asl_cases, lsr_cases, rol_cases, ror_cases, inc_cases, dec_cases,
}
use oric2_golden_model.Cpu6502.Simulation.Modes.{
  Simulates-no_cross, Simulates-addr_zp, Simulates-addr_zp_x, Simulates-addr_abs,
  Simulates-addr_abs_x,
}
use oric2_golden_model.Cpu6502.Simulation.Changes.{
  SimulatesChange-asl, SimulatesChange-lsr, SimulatesChange-rol, SimulatesChange-ror,
  SimulatesChange-inc, SimulatesChange-dec, SimulatesRegs-asl_a, SimulatesRegs-lsr_a,
  SimulatesRegs-rol_a, SimulatesRegs-ror_a,
}
use oric2_golden_model.Cpu6502.Simulation.Shapes.{SimulatesCase-rmw, SimulatesCase-on_regs}
use oric2_golden_model.Cpu6502.Simulation.Cases.{
  SimulatesFind-at, SimulatesCases, simulates_nil, ◌▸◌,
}

module _ {D : Type 0} where
  pub Simulates-change_groups :
      SimulatesCases {D = D} asl_cases
      × SimulatesCases {D = D} lsr_cases
      × SimulatesCases {D = D} rol_cases
      × SimulatesCases {D = D} ror_cases
      × SimulatesCases {D = D} inc_cases
      × SimulatesCases {D = D} dec_cases
  unfolding asl_cases lsr_cases rol_cases ror_cases inc_cases dec_cases find_case operand_case
      memory_case register_case control_case in_cases WideOperand.lda_cases
      WideOperand.lda_long_cases WideOperand.alu_long_cases WideOperand.dp_indirect_cases
      WideOperand.ldx_cases WideOperand.ldy_cases WideOperand.adc_cases WideOperand.sbc_cases
      WideOperand.and_cases WideOperand.ora_cases WideOperand.eor_cases WideOperand.cmp_cases
      WideOperand.cpx_cases WideOperand.cpy_cases WideOperand.bit_cases WideMemory.sta_long_cases
      WideMemory.sta_dp_indirect_cases WideMemory.sta_cases WideMemory.stx_cases
      WideMemory.sty_cases WideMemory.stz_cases WideMemory.asl_cases WideMemory.lsr_cases
      WideMemory.rol_cases WideMemory.ror_cases WideMemory.inc_cases WideMemory.dec_cases
      WideRegisters.shift_a_cases WideRegisters.inc_a_cases WideRegisters.index_cases
      WideRegisters.transfer_cases WideRegisters.native_transfer_cases WideRegisters.flag_cases
      WideRegisters.rep_sep_cases WideRegisters.xce_cases WideRegisters.wdm_cases
      WideRegisters.stop_cases WideRegisters.nop_cases WideControl.stack_cases
      WideControl.native_stack_cases WideControl.branch_cases WideControl.bra_cases
      WideControl.jump_cases WideControl.block_cases WideInterrupt.interrupt_cases
  Simulates-change_groups = (
    SimulatesFind-at refl (SimulatesCase-on_regs SimulatesRegs-asl_a)
        ▸ SimulatesFind-at refl (SimulatesCase-rmw Simulates-addr_zp SimulatesChange-asl)
        ▸ SimulatesFind-at refl (SimulatesCase-rmw Simulates-addr_zp_x SimulatesChange-asl)
        ▸ SimulatesFind-at refl (SimulatesCase-rmw Simulates-addr_abs SimulatesChange-asl)
        ▸ SimulatesFind-at refl
            (SimulatesCase-rmw (Simulates-no_cross Simulates-addr_abs_x) SimulatesChange-asl)
        ▸ simulates_nil,
    SimulatesFind-at refl (SimulatesCase-on_regs SimulatesRegs-lsr_a)
        ▸ SimulatesFind-at refl (SimulatesCase-rmw Simulates-addr_zp SimulatesChange-lsr)
        ▸ SimulatesFind-at refl (SimulatesCase-rmw Simulates-addr_zp_x SimulatesChange-lsr)
        ▸ SimulatesFind-at refl (SimulatesCase-rmw Simulates-addr_abs SimulatesChange-lsr)
        ▸ SimulatesFind-at refl
            (SimulatesCase-rmw (Simulates-no_cross Simulates-addr_abs_x) SimulatesChange-lsr)
        ▸ simulates_nil,
    SimulatesFind-at refl (SimulatesCase-on_regs SimulatesRegs-rol_a)
        ▸ SimulatesFind-at refl (SimulatesCase-rmw Simulates-addr_zp SimulatesChange-rol)
        ▸ SimulatesFind-at refl (SimulatesCase-rmw Simulates-addr_zp_x SimulatesChange-rol)
        ▸ SimulatesFind-at refl (SimulatesCase-rmw Simulates-addr_abs SimulatesChange-rol)
        ▸ SimulatesFind-at refl
            (SimulatesCase-rmw (Simulates-no_cross Simulates-addr_abs_x) SimulatesChange-rol)
        ▸ simulates_nil,
    SimulatesFind-at refl (SimulatesCase-on_regs SimulatesRegs-ror_a)
        ▸ SimulatesFind-at refl (SimulatesCase-rmw Simulates-addr_zp SimulatesChange-ror)
        ▸ SimulatesFind-at refl (SimulatesCase-rmw Simulates-addr_zp_x SimulatesChange-ror)
        ▸ SimulatesFind-at refl (SimulatesCase-rmw Simulates-addr_abs SimulatesChange-ror)
        ▸ SimulatesFind-at refl
            (SimulatesCase-rmw (Simulates-no_cross Simulates-addr_abs_x) SimulatesChange-ror)
        ▸ simulates_nil,
    SimulatesFind-at refl (SimulatesCase-rmw Simulates-addr_zp SimulatesChange-inc)
        ▸ SimulatesFind-at refl (SimulatesCase-rmw Simulates-addr_zp_x SimulatesChange-inc)
        ▸ SimulatesFind-at refl (SimulatesCase-rmw Simulates-addr_abs SimulatesChange-inc)
        ▸ SimulatesFind-at refl
            (SimulatesCase-rmw (Simulates-no_cross Simulates-addr_abs_x) SimulatesChange-inc)
        ▸ simulates_nil,
    SimulatesFind-at refl (SimulatesCase-rmw Simulates-addr_zp SimulatesChange-dec)
        ▸ SimulatesFind-at refl (SimulatesCase-rmw Simulates-addr_zp_x SimulatesChange-dec)
        ▸ SimulatesFind-at refl (SimulatesCase-rmw Simulates-addr_abs SimulatesChange-dec)
        ▸ SimulatesFind-at refl
            (SimulatesCase-rmw (Simulates-no_cross Simulates-addr_abs_x) SimulatesChange-dec)
        ▸ simulates_nil,
  )
