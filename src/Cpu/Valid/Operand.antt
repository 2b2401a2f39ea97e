-- ===== src/Cpu/Valid/Operand.antt =====
-- The cases that load, combine and compare keep the core valid.
use oric2_golden_model.Base.{arith}
use oric2_golden_model.Cpu.Access.{fetch_imm_m}
use oric2_golden_model.Cpu.Exec.Operand.{
  lda_cases, lda_long_cases, alu_long_cases, dp_indirect_cases, ldx_cases, ldy_cases, adc_cases,
  exchange_ab, sbc_or_xba, sbc_cases, and_cases, ora_cases, eor_cases, cmp_cases, cpx_cases,
  cpy_cases, bit_cases,
}
use oric2_golden_model.Cpu.Valid.{Keeps, yields_rules}
use oric2_golden_model.Cpu.Valid.Access.{Yields-fetch_imm}
use oric2_golden_model.Cpu.Valid.Address.{address_rules}
use oric2_golden_model.Cpu.Valid.Alu.{c-IsValid, update_nz-IsValid}
use oric2_golden_model.Cpu.Valid.Arith.{KeepsAt-op_sbc_m, keeps_at_rules}
use oric2_golden_model.Cpu.Valid.Shapes.{KeepsCase, KeepsCases, Yields-act, shape_rules}

module _ {D : Type 0} where
  Keeps-exchange_ab : Keeps {D = D} exchange_ab
  unfolding exchange_ab
  Keeps-exchange_ab = record { at = λ s v. update_nz-IsValid _ _ (c-IsValid _ s v (omega arith)) }

  KeepsCase-sbc_or_xba : KeepsCase {D = D} sbc_or_xba
  unfolding sbc_or_xba fetch_imm_m
  KeepsCase-sbc_or_xba = record {
    for = λ n.
        search (yields_rules, Yields-fetch_imm, Yields-act KeepsAt-op_sbc_m, Keeps-exchange_ab)
          depth 9;
  }

  pub KeepsCases-lda_cases : KeepsCases {D = D} lda_cases
  unfolding lda_cases
  KeepsCases-lda_cases = search (shape_rules, address_rules, keeps_at_rules) depth 20

  pub KeepsCases-lda_long_cases : KeepsCases {D = D} lda_long_cases
  unfolding lda_long_cases
  KeepsCases-lda_long_cases = search (shape_rules, address_rules, keeps_at_rules) depth 20

  pub KeepsCases-alu_long_cases : KeepsCases {D = D} alu_long_cases
  unfolding alu_long_cases
  KeepsCases-alu_long_cases =
      search (shape_rules, address_rules, keeps_at_rules) depth 40 fits 20000

  pub KeepsCases-dp_indirect_cases : KeepsCases {D = D} dp_indirect_cases
  unfolding dp_indirect_cases
  KeepsCases-dp_indirect_cases = search (shape_rules, address_rules, keeps_at_rules) depth 20

  pub KeepsCases-ldx_cases : KeepsCases {D = D} ldx_cases
  unfolding ldx_cases
  KeepsCases-ldx_cases = search (shape_rules, address_rules, keeps_at_rules) depth 20

  pub KeepsCases-ldy_cases : KeepsCases {D = D} ldy_cases
  unfolding ldy_cases
  KeepsCases-ldy_cases = search (shape_rules, address_rules, keeps_at_rules) depth 20

  pub KeepsCases-adc_cases : KeepsCases {D = D} adc_cases
  unfolding adc_cases
  KeepsCases-adc_cases = search (shape_rules, address_rules, keeps_at_rules) depth 20

  pub KeepsCases-sbc_cases : KeepsCases {D = D} sbc_cases
  unfolding sbc_cases
  KeepsCases-sbc_cases =
      search (shape_rules, address_rules, keeps_at_rules, KeepsCase-sbc_or_xba) depth 20

  pub KeepsCases-and_cases : KeepsCases {D = D} and_cases
  unfolding and_cases
  KeepsCases-and_cases = search (shape_rules, address_rules, keeps_at_rules) depth 20

  pub KeepsCases-ora_cases : KeepsCases {D = D} ora_cases
  unfolding ora_cases
  KeepsCases-ora_cases = search (shape_rules, address_rules, keeps_at_rules) depth 20

  pub KeepsCases-eor_cases : KeepsCases {D = D} eor_cases
  unfolding eor_cases
  KeepsCases-eor_cases = search (shape_rules, address_rules, keeps_at_rules) depth 20

  pub KeepsCases-cmp_cases : KeepsCases {D = D} cmp_cases
  unfolding cmp_cases
  KeepsCases-cmp_cases = search (shape_rules, address_rules, keeps_at_rules) depth 20

  pub KeepsCases-cpx_cases : KeepsCases {D = D} cpx_cases
  unfolding cpx_cases
  KeepsCases-cpx_cases = search (shape_rules, address_rules, keeps_at_rules) depth 20

  pub KeepsCases-cpy_cases : KeepsCases {D = D} cpy_cases
  unfolding cpy_cases
  KeepsCases-cpy_cases = search (shape_rules, address_rules, keeps_at_rules) depth 20

  pub KeepsCases-bit_cases : KeepsCases {D = D} bit_cases
  unfolding bit_cases
  KeepsCases-bit_cases = search (shape_rules, address_rules, keeps_at_rules) depth 20
