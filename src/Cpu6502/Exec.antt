-- ===== src/Cpu6502/Exec.antt =====
-- opcodes.c: `cpu_execute_opcode`, the switch over the opcode as a list of its cases in the order of the source.
pub mod Shapes
pub mod Operand
pub mod Registers
use oric2_golden_model.Base.{
  ℕ, zero, suc, ◌+◌, ◌-◌, ◌*◌, ◌/◌, ◌%◌, ◌^◌, ◌≤◌, ◌<◌, bit_and, bit_or, bit_xor, ◌≡◌, refl, sym,
  ap, ◌∙◌, ◌≢◌, ◌⊎◌, inl, inr, Bool, true, false, not, ◌&&◌, ◌||◌, Option, none, some, List, [],
  ◌∷◌, ◌++◌, arith, ltb, leb, ◌==◌, bool_eq, if◌then◌else◌, ==_iff, Bool-cases, Option-cases,
  all_below, all_below_sound, update, fill, IsBytes, update-IsBytes, fill-IsBytes, u8, u16, u32,
  u64, shl, shr, has, clear8, word, bit_and_step, bit_or_step, bit_and-zero, bit_or-zero,
  bit_or_fields, word_lem, byte_bit, bit_and_low_byte, bit_and_low_word, bit_and-le, bit_or_byte,
  bit_or_word, bit_xor_step, bit_xor-lt, bit_xor_word,
}
use oric2_golden_model.Cpu.Table.{OpcodeInfo, opcode_table}
use oric2_golden_model.Cpu6502.{Cpu6502, N, pure, modify, ◌>>=◌, ◌>>◌}
use oric2_golden_model.Cpu6502.Access.{cpu_fetch_byte}
use oric2_golden_model.Cpu6502.Exec.Shapes.{Action, Cases}
use oric2_golden_model.Cpu6502.Exec.Operand.{
  lda_cases, ldx_cases, ldy_cases, sta_cases, stx_cases, sty_cases, adc_cases, sbc_cases, and_cases,
  ora_cases, eor_cases, cmp_cases, cpx_cases, cpy_cases, bit_cases,
}
use oric2_golden_model.Cpu6502.Exec.Registers.{
  asl_cases, lsr_cases, rol_cases, ror_cases, inc_cases, dec_cases, index_cases, transfer_cases,
  stack_cases, branch_cases, jump_cases, flag_cases, nop_cases,
}

module _ {D : Type 0} where
  -- all cases of the switch but the default
  unfoldable pub cases : Cases D
  unfolding lda_cases ldx_cases ldy_cases sta_cases stx_cases sty_cases adc_cases sbc_cases
      and_cases ora_cases eor_cases cmp_cases cpx_cases cpy_cases bit_cases asl_cases lsr_cases
      rol_cases ror_cases inc_cases dec_cases index_cases transfer_cases stack_cases branch_cases
      jump_cases flag_cases nop_cases
  cases =
      lda_cases
      ++ (ldx_cases
          ++ (ldy_cases
              ++ (sta_cases
                  ++ (stx_cases
                      ++ (sty_cases
                          ++ (adc_cases
                              ++ (sbc_cases
                                  ++ (and_cases
                                      ++ (ora_cases
                                          ++ (eor_cases
                                              ++ (cmp_cases
                                                  ++ (cpx_cases
                                                      ++ (cpy_cases
                                                          ++ (bit_cases
                                                            ++ (asl_cases
                                                            ++ (lsr_cases
                                                            ++ (rol_cases
                                                            ++ (ror_cases
                                                            ++ (inc_cases
                                                            ++ (dec_cases
                                                            ++ (index_cases
                                                            ++ (transfer_cases
                                                            ++ (stack_cases
                                                            ++ (branch_cases
                                                            ++ (jump_cases
                                                            ++ (flag_cases
                                                            ++ (nop_cases)))))))))))))))))))))))))))

  unfoldable pub lookup_case : ℕ → Cases D → Option (Action D)
  lookup_case op [] = none
  lookup_case op ((k, act) ∷ rest) = if k == op then some act else lookup_case op rest

  -- `for (i = 1; i < sz; i++) cpu_fetch_byte(cpu);`, with the bytes that are left
  unfoldable pub skip_operand : ℕ → Cpu6502 D → Cpu6502 D
  unfolding cpu_fetch_byte
  skip_operand zero s = s
  skip_operand (suc n) s = skip_operand n (cpu_fetch_byte s).1

  unfoldable pub default_case : ℕ → Action D
  unfolding skip_operand opcode_table
  default_case op cycles = do modify (skip_operand ((opcode_table op).size - 1)); pure cycles

  unfoldable pub cpu_execute_opcode : ℕ → N D ℕ
  unfolding cases lookup_case default_case opcode_table
  cpu_execute_opcode op =
      let cycles = (opcode_table op).cycles in
      elim (lookup_case op cases) [ none ↦ default_case op cycles | some act ↦ act cycles ]
