-- ===== src/Cpu/Exec.antt =====
-- `cpu816_execute_opcode_e`: the switch over the opcode, as a list of its cases in the order of the
-- source, and its default.
pub mod Shapes
pub mod Operand
pub mod Memory
pub mod Registers
pub mod Control
pub mod Interrupt
use oric2_golden_model.Base.{
  ℕ, zero, suc, ◌+◌, ◌-◌, ◌*◌, ◌/◌, ◌%◌, ◌^◌, ◌≤◌, ◌<◌, bit_and, bit_or, bit_xor, ◌≡◌, refl, sym,
  ap, ◌∙◌, ◌≢◌, ◌⊎◌, inl, inr, Bool, true, false, not, ◌&&◌, ◌||◌, Option, none, some, List, [],
  ◌∷◌, ◌++◌, arith, ltb, leb, ◌==◌, bool_eq, if◌then◌else◌, ==_iff, Bool-cases, all_below,
  all_below_sound, update, fill, IsBytes, update-IsBytes, fill-IsBytes, u8, u16, u32, u64, shl, shr,
  has, clear8, word, bit_and_step, bit_or_step, bit_and-zero, bit_or-zero, bit_or_fields, word_lem,
  byte_bit, bit_and_low_byte, bit_and_low_word,
}
use oric2_golden_model.Cpu.State.{
  flag_carry, flag_zero, flag_interrupt, flag_decimal, flag_break, flag_unused, flag_overflow,
  flag_negative, flag_x_index, flag_m_mem, IrqSource, irq_mask, Cpu, M, pure, gets, modify, ◌>>=◌,
  ◌>>◌, irq_via, irq_disk, irq_serial,
}
use oric2_golden_model.Cpu.Access.{
  flag, setf, m_is_8bit, x_is_8bit, a8, set_a8, x8, y8, sp8, set_sp8, mem_read, mem_write, read24,
  write24, fetch_byte, fetch_word_pc, push, pull, push_word, pull_word, update_nz, update_nz16,
  update_nz_m, update_nz_x, a_get_m, a_set_m, x_get_x, x_set_x, y_get_x, y_set_x, m_extra_cycle,
  x_extra_cycle, read_sized, write_sized, fetch_imm, push_sized, pull_sized, read_m, write_m,
  fetch_imm_m, push_m, pull_m, read_x, write_x, fetch_imm_x, push_x, pull_x, read_m24, write_m24,
}
use oric2_golden_model.Cpu.Address.{
  page_differs, add_signed8, add_signed16, long_word, indexed, addr_zp, addr_zp_x, addr_zp_y,
  addr_abs, addr_abs_x, addr_abs_y, addr_indirect, zp_pointer, addr_indexed_indirect,
  addr_indirect_indexed, addr_relative, fetch_long_pc, addr_long, addr_long_x,
  addr_dp_indirect_long, addr_dp_indirect_long_y, addr_dp_indirect,
}
use oric2_golden_model.Cpu.Alu.{
  carry_in, adc_lo, adc_hi, adc_hi_corrected, sbc_digit, sbc_corrected, op_adc_decimal,
  op_adc_binary, op_adc, borrow_in, op_sbc_decimal, op_sbc_binary, op_sbc, op_cmp, op_adc16,
  op_sbc16, op_adc_m, op_sbc_m, op_cmp_m, op_cmp_x, load_a, load_x, load_y, and_a, or_a, xor_a,
  cmp_a, cmp_x, cmp_y, bit_a, asl8, lsr8, rol8, ror8, inc8, dec8,
}
use oric2_golden_model.Cpu.Table.{OpcodeInfo, opcode_table}
use oric2_golden_model.Cpu.Exec.Shapes.{Action, Cases}
use oric2_golden_model.Cpu.Exec.Operand.{
  lda_cases, lda_long_cases, alu_long_cases, dp_indirect_cases, ldx_cases, ldy_cases, adc_cases,
  sbc_cases, and_cases, ora_cases, eor_cases, cmp_cases, cpx_cases, cpy_cases, bit_cases,
}
use oric2_golden_model.Cpu.Exec.Memory.{
  sta_long_cases, sta_dp_indirect_cases, sta_cases, stx_cases, sty_cases, stz_cases, asl_cases,
  lsr_cases, rol_cases, ror_cases, inc_cases, dec_cases,
}
use oric2_golden_model.Cpu.Exec.Registers.{
  shift_a_cases, inc_a_cases, index_cases, transfer_cases, native_transfer_cases, flag_cases,
  rep_sep_cases, xce_cases, wdm_cases, stop_cases, nop_cases,
}
use oric2_golden_model.Cpu.Exec.Control.{
  stack_cases, native_stack_cases, branch_cases, bra_cases, jump_cases, block_cases,
}
use oric2_golden_model.Cpu.Exec.Interrupt.{interrupt_cases}

module _ {D : Type 0} where
  -- The cases of a group, before those of the groups behind it.
  unfoldable pub in_cases : ℕ → Cases D → Option (Action D) → Option (Action D)
  in_cases op [] rest = rest
  in_cases op ((k, act) ∷ cases) rest = if k == op then some act else in_cases op cases rest

  unfoldable pub operand_case : ℕ → Option (Action D) → Option (Action D)
  unfolding in_cases
  operand_case op rest = in_cases op lda_cases (
      in_cases op lda_long_cases (
        in_cases op alu_long_cases (
          in_cases op dp_indirect_cases (
            in_cases op ldx_cases (
              in_cases op ldy_cases (
                in_cases op adc_cases (
                  in_cases op sbc_cases (
                    in_cases op and_cases (
                      in_cases op ora_cases (
                        in_cases op eor_cases (
                          in_cases op cmp_cases (
                            in_cases op cpx_cases
                              (in_cases op cpy_cases (in_cases op bit_cases rest))))))))))))))

  unfoldable pub memory_case : ℕ → Option (Action D) → Option (Action D)
  unfolding in_cases
  memory_case op rest = in_cases op sta_long_cases (
      in_cases op sta_dp_indirect_cases (
        in_cases op sta_cases (
          in_cases op stx_cases (
            in_cases op sty_cases (
              in_cases op stz_cases (
                in_cases op asl_cases (
                  in_cases op lsr_cases (
                    in_cases op rol_cases (
                      in_cases op ror_cases
                        (in_cases op inc_cases (in_cases op dec_cases rest)))))))))))

  unfoldable pub register_case : ℕ → Option (Action D) → Option (Action D)
  unfolding in_cases
  register_case op rest = in_cases op shift_a_cases (
      in_cases op inc_a_cases (
        in_cases op index_cases (
          in_cases op transfer_cases (
            in_cases op native_transfer_cases (
              in_cases op flag_cases (
                in_cases op rep_sep_cases (
                  in_cases op xce_cases (
                    in_cases op wdm_cases
                      (in_cases op stop_cases (in_cases op nop_cases rest))))))))))

  unfoldable pub control_case : ℕ → Option (Action D) → Option (Action D)
  unfolding in_cases
  control_case op rest = in_cases op stack_cases (
      in_cases op native_stack_cases (
        in_cases op branch_cases (
          in_cases op bra_cases
            (in_cases op jump_cases (in_cases op block_cases (in_cases op interrupt_cases rest))))))

  -- `for (i = 1; i < sz; i++) (void)cpu816_fetch_byte(cpu);`, with the bytes that are left
  unfoldable pub skip_bytes : ℕ → Cpu D → Cpu D
  skip_bytes zero s = s
  skip_bytes (suc n) s = skip_bytes n (fetch_byte s).1

  unfoldable pub illegal : ℕ → Action D
  unfolding skip_bytes
  illegal op cycles = do modify (skip_bytes ((opcode_table op).size - 1)); pure cycles

  unfoldable pub find_case : ℕ → Option (Action D)
  find_case op = operand_case op (memory_case op (register_case op (control_case op none)))

  unfoldable pub execute_opcode : ℕ → M D ℕ
  execute_opcode op =
      let cycles = (opcode_table op).cycles in
      elim (find_case op) [ none ↦ illegal op cycles | some act ↦ act cycles ]
