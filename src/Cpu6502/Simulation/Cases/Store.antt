-- ===== src/Cpu6502/Simulation/Cases/Store.antt =====
-- The cases of STA, STX and STY.
use oric2_golden_model.Base.{refl}
use oric2_golden_model.Cpu.Exec.{
  find_case, operand_case, memory_case, register_case, control_case, in_cases,
}
use oric2_golden_model.Cpu.Exec.Control as WideControl
use oric2_golden_model.Cpu.Exec.Interrupt as WideInterrupt
use oric2_golden_model.Cpu.Exec.Memory as WideMemory
use oric2_golden_model.Cpu.Exec.Operand as WideOperand
use oric2_golden_model.Cpu.Exec.Registers as WideRegisters
use oric2_golden_model.Cpu6502.Exec.Operand.{sta_cases, stx_cases, sty_cases}
use oric2_golden_model.Cpu6502.Simulation.Modes.{
  Simulates-no_cross, Simulates-addr_zp, Simulates-addr_zp_x, Simulates-addr_zp_y,
  Simulates-addr_abs, Simulates-addr_abs_x, Simulates-addr_abs_y, Simulates-indexed_indirect,
  Simulates-indirect_indexed,
}
use oric2_golden_model.Cpu6502.Simulation.Shapes.{SimulatesCase-store_m, SimulatesCase-store_x}
use oric2_golden_model.Cpu6502.Simulation.Control.{SimulatesReg-a, SimulatesReg-x, SimulatesReg-y}
use oric2_golden_model.Cpu6502.Simulation.Cases.{
  SimulatesFind-at, SimulatesCases, simulates_nil, ◌▸◌,
}

module _ {D : Type 0} where
  pub Simulates-store_groups :
      SimulatesCases {D = D} sta_cases
      × SimulatesCases {D = D} stx_cases
      × SimulatesCases {D = D} sty_cases
  unfolding sta_cases stx_cases sty_cases find_case operand_case memory_case register_case
      control_case in_cases WideOperand.lda_cases WideOperand.lda_long_cases
      WideOperand.alu_long_cases WideOperand.dp_indirect_cases WideOperand.ldx_cases
      WideOperand.ldy_cases WideOperand.adc_cases WideOperand.sbc_cases WideOperand.and_cases
      WideOperand.ora_cases WideOperand.eor_cases WideOperand.cmp_cases WideOperand.cpx_cases
      WideOperand.cpy_cases WideOperand.bit_cases WideMemory.sta_long_cases
      WideMemory.sta_dp_indirect_cases WideMemory.sta_cases WideMemory.stx_cases
      WideMemory.sty_cases WideMemory.stz_cases WideMemory.asl_cases WideMemory.lsr_cases
      WideMemory.rol_cases WideMemory.ror_cases WideMemory.inc_cases WideMemory.dec_cases
      WideRegisters.shift_a_cases WideRegisters.inc_a_cases WideRegisters.index_cases
      WideRegisters.transfer_cases WideRegisters.native_transfer_cases WideRegisters.flag_cases
      WideRegisters.rep_sep_cases WideRegisters.xce_cases WideRegisters.wdm_cases
      WideRegisters.stop_cases WideRegisters.nop_cases WideControl.stack_cases
      WideControl.native_stack_cases WideControl.branch_cases WideControl.bra_cases
      WideControl.jump_cases WideControl.block_cases WideInterrupt.interrupt_cases
  Simulates-store_groups = (
    SimulatesFind-at refl (SimulatesCase-store_m Simulates-addr_zp SimulatesReg-a)
        ▸ SimulatesFind-at refl (SimulatesCase-store_m Simulates-addr_zp_x SimulatesReg-a)
        ▸ SimulatesFind-at refl (SimulatesCase-store_m Simulates-addr_abs SimulatesReg-a)
        ▸ SimulatesFind-at refl
            (SimulatesCase-store_m (Simulates-no_cross Simulates-addr_abs_x) SimulatesReg-a)
        ▸ SimulatesFind-at refl
            (SimulatesCase-store_m (Simulates-no_cross Simulates-addr_abs_y) SimulatesReg-a)
        ▸ SimulatesFind-at refl (SimulatesCase-store_m Simulates-indexed_indirect SimulatesReg-a)
        ▸ SimulatesFind-at refl
            (SimulatesCase-store_m (Simulates-no_cross Simulates-indirect_indexed) SimulatesReg-a)
        ▸ simulates_nil,
    SimulatesFind-at refl (SimulatesCase-store_x Simulates-addr_zp SimulatesReg-x)
        ▸ SimulatesFind-at refl (SimulatesCase-store_x Simulates-addr_zp_y SimulatesReg-x)
        ▸ SimulatesFind-at refl (SimulatesCase-store_x Simulates-addr_abs SimulatesReg-x)
        ▸ simulates_nil,
    SimulatesFind-at refl (SimulatesCase-store_x Simulates-addr_zp SimulatesReg-y)
        ▸ SimulatesFind-at refl (SimulatesCase-store_x Simulates-addr_zp_x SimulatesReg-y)
        ▸ SimulatesFind-at refl (SimulatesCase-store_x Simulates-addr_abs SimulatesReg-y)
        ▸ simulates_nil,
  )
