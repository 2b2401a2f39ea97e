-- ===== src/Cpu6502/Simulation/Cases/Control.antt =====
-- The cases of the counters, transfers, flags, stack, branches and jumps, and NOP.
use oric2_golden_model.Base.{refl, true, false, arith}
use oric2_golden_model.Cpu.State.{
  flag_carry, flag_zero, flag_interrupt, flag_decimal, flag_overflow, flag_negative,
}
use oric2_golden_model.Cpu.Exec.{
  find_case, operand_case, memory_case, register_case, control_case, in_cases,
}
use oric2_golden_model.Cpu.Exec.Control as WideControl
use oric2_golden_model.Cpu.Exec.Interrupt as WideInterrupt
use oric2_golden_model.Cpu.Exec.Memory as WideMemory
use oric2_golden_model.Cpu.Exec.Operand as WideOperand
use oric2_golden_model.Cpu.Exec.Registers as WideRegisters
use oric2_golden_model.Cpu6502.Exec.Registers.{
  index_cases, transfer_cases, stack_cases, branch_cases, jump_cases, flag_cases, nop_cases,
}
use oric2_golden_model.Cpu6502.Simulation.Modes.{Simulates-addr_abs, Simulates-addr_indirect}
use oric2_golden_model.Cpu6502.Simulation.Registers.{
  SimulatesRegs-inx, SimulatesRegs-dex, SimulatesRegs-iny, SimulatesRegs-dey, SimulatesRegs-tax,
  SimulatesRegs-tay, SimulatesRegs-txa, SimulatesRegs-tya, SimulatesRegs-tsx, SimulatesRegs-txs,
  SimulatesRegs-setf,
}
use oric2_golden_model.Cpu6502.Simulation.Shapes.{SimulatesCase-on_regs}
use oric2_golden_model.Cpu6502.Simulation.Control.{
  SimulatesCase-pha, SimulatesCase-pla, SimulatesCase-php, SimulatesCase-plp,
  SimulatesCase-branch_on, SimulatesCase-jump_to, SimulatesCase-jsr, SimulatesCase-rts,
  SimulatesCase-rti,
}
use oric2_golden_model.Cpu6502.Simulation.Interrupt.{SimulatesCase-brk}
use oric2_golden_model.Cpu6502.Simulation.Cases.{
  SimulatesFind-at, SimulatesCases, SimulatesCase-pure, simulates_nil, ◌▸◌,
}

module _ {D : Type 0} where
  pub Simulates-control_groups :
      SimulatesCases {D = D} index_cases
      × SimulatesCases {D = D} transfer_cases
      × SimulatesCases {D = D} stack_cases
      × SimulatesCases {D = D} branch_cases
      × SimulatesCases {D = D} jump_cases
      × SimulatesCases {D = D} flag_cases
      × SimulatesCases {D = D} nop_cases
  unfolding index_cases transfer_cases stack_cases branch_cases jump_cases flag_cases nop_cases
      find_case operand_case memory_case register_case control_case in_cases WideOperand.lda_cases
      WideOperand.lda_long_cases WideOperand.alu_long_cases WideOperand.dp_indirect_cases
      WideOperand.ldx_cases WideOperand.ldy_cases WideOperand.adc_cases WideOperand.sbc_cases
      WideOperand.and_cases WideOperand.ora_cases WideOperand.eor_cases WideOperand.cmp_cases
      WideOperand.cpx_cases WideOperand.cpy_cases WideOperand.bit_cases WideMemory.sta_long_cases
      WideMemory.sta_dp_indirect_cases WideMemory.sta_cases WideMemory.stx_cases
      WideMemory.sty_cases WideMemory.stz_cases WideMemory.asl_cases WideMemory.lsr_cases
      WideMemory.rol_cases WideMemory.ror_cases WideMemory.inc_cases WideMemory.dec_cases
      WideRegisters.shift_a_cases WideRegisters.inc_a_cases WideRegisters.index_cases
      WideRegisters.transfer_cases WideRegisters.native_transfer_cases WideRegisters.flag_cases
      WideRegisters.rep_sep_cases WideRegisters.xce_cases WideRegisters.wdm_cases
      WideRegisters.stop_cases WideRegisters.nop_cases WideControl.stack_cases
      WideControl.native_stack_cases WideControl.branch_cases WideControl.bra_cases
      WideControl.jump_cases WideControl.block_cases WideInterrupt.interrupt_cases
  Simulates-control_groups = (
    SimulatesFind-at refl (SimulatesCase-on_regs SimulatesRegs-inx)
        ▸ SimulatesFind-at refl (SimulatesCase-on_regs SimulatesRegs-iny)
        ▸ SimulatesFind-at refl (SimulatesCase-on_regs SimulatesRegs-dex)
        ▸ SimulatesFind-at refl (SimulatesCase-on_regs SimulatesRegs-dey)
        ▸ simulates_nil,
    SimulatesFind-at refl (SimulatesCase-on_regs SimulatesRegs-tax)
        ▸ SimulatesFind-at refl (SimulatesCase-on_regs SimulatesRegs-txa)
        ▸ SimulatesFind-at refl (SimulatesCase-on_regs SimulatesRegs-tay)
        ▸ SimulatesFind-at refl (SimulatesCase-on_regs SimulatesRegs-tya)
        ▸ SimulatesFind-at refl (SimulatesCase-on_regs SimulatesRegs-tsx)
        ▸ SimulatesFind-at refl (SimulatesCase-on_regs SimulatesRegs-txs)
        ▸ simulates_nil,
    SimulatesFind-at refl SimulatesCase-pha
        ▸ SimulatesFind-at refl SimulatesCase-pla
        ▸ SimulatesFind-at refl SimulatesCase-php
        ▸ SimulatesFind-at refl SimulatesCase-plp
        ▸ simulates_nil,
    SimulatesFind-at refl (SimulatesCase-branch_on flag_negative false)
        ▸ SimulatesFind-at refl (SimulatesCase-branch_on flag_negative true)
        ▸ SimulatesFind-at refl (SimulatesCase-branch_on flag_overflow false)
        ▸ SimulatesFind-at refl (SimulatesCase-branch_on flag_overflow true)
        ▸ SimulatesFind-at refl (SimulatesCase-branch_on flag_carry false)
        ▸ SimulatesFind-at refl (SimulatesCase-branch_on flag_carry true)
        ▸ SimulatesFind-at refl (SimulatesCase-branch_on flag_zero false)
        ▸ SimulatesFind-at refl (SimulatesCase-branch_on flag_zero true)
        ▸ simulates_nil,
    SimulatesFind-at refl (SimulatesCase-jump_to Simulates-addr_abs)
        ▸ SimulatesFind-at refl (SimulatesCase-jump_to Simulates-addr_indirect)
        ▸ SimulatesFind-at refl SimulatesCase-jsr
        ▸ SimulatesFind-at refl SimulatesCase-rts
        ▸ SimulatesFind-at refl SimulatesCase-rti
        ▸ SimulatesFind-at refl SimulatesCase-brk
        ▸ simulates_nil,
    SimulatesFind-at refl
          (SimulatesCase-on_regs (SimulatesRegs-setf flag_carry false (omega arith)))
        ▸ SimulatesFind-at refl
            (SimulatesCase-on_regs (SimulatesRegs-setf flag_carry true (omega arith)))
        ▸ SimulatesFind-at refl
            (SimulatesCase-on_regs (SimulatesRegs-setf flag_interrupt false (omega arith)))
        ▸ SimulatesFind-at refl
            (SimulatesCase-on_regs (SimulatesRegs-setf flag_interrupt true (omega arith)))
        ▸ SimulatesFind-at refl
            (SimulatesCase-on_regs (SimulatesRegs-setf flag_decimal false (omega arith)))
        ▸ SimulatesFind-at refl
            (SimulatesCase-on_regs (SimulatesRegs-setf flag_decimal true (omega arith)))
        ▸ SimulatesFind-at refl
            (SimulatesCase-on_regs (SimulatesRegs-setf flag_overflow false (omega arith)))
        ▸ simulates_nil,
    SimulatesFind-at refl SimulatesCase-pure ▸ simulates_nil,
  )
