-- ===== src/Cpu/Exec/Operand.antt =====
-- The cases of the switch that load, combine and compare: LDA to EOR in all their addressing modes,
-- LDX, LDY, CPX, CPY and BIT.
use oric2_golden_model.Base.{bit_and, bit_or, [], ◌∷◌, if◌then◌else◌, u8, u16, shl, shr}
use oric2_golden_model.Cpu.State.{Cpu, pure, gets, modify, ◌>>=◌, ◌>>◌}
use oric2_golden_model.Cpu.Access.{update_nz, fetch_imm_m}
use oric2_golden_model.Cpu.Address.{
  addr_zp, addr_zp_x, addr_zp_y, addr_abs, addr_abs_x, addr_abs_y, addr_indexed_indirect,
  addr_indirect_indexed, addr_long, addr_long_x, addr_dp_indirect_long, addr_dp_indirect_long_y,
  addr_dp_indirect,
}
use oric2_golden_model.Cpu.Alu.{
  op_adc_m, op_sbc_m, load_a, load_x, load_y, and_a, or_a, xor_a, cmp_a, cmp_x, cmp_y, bit_a,
}
use oric2_golden_model.Cpu.Exec.Shapes.{
  Action, Cases, plain, on_m, on_imm_m, on_x, on_imm_x, skip_byte, skip_long, on_m24,
}

module _ {D : Type 0} where
  -- LDA
  unfoldable pub lda_cases : Cases D
  lda_cases =
      (0xa9, on_imm_m load_a)
      ∷ (0xa5, on_m (plain addr_zp) load_a)
      ∷ (0xb5, on_m (plain addr_zp_x) load_a)
      ∷ (0xad, on_m (plain addr_abs) load_a)
      ∷ (0xbd, on_m addr_abs_x load_a)
      ∷ (0xb9, on_m addr_abs_y load_a)
      ∷ (0xa1, on_m (plain addr_indexed_indirect) load_a)
      ∷ (0xb1, on_m addr_indirect_indexed load_a)
      ∷ []

  -- LDA with long addresses
  unfoldable pub lda_long_cases : Cases D
  lda_long_cases =
      (0xaf, on_m24 skip_long addr_long load_a)
      ∷ (0xbf, on_m24 skip_long addr_long_x load_a)
      ∷ (0xa7, on_m24 skip_byte addr_dp_indirect_long load_a)
      ∷ (0xb7, on_m24 skip_byte addr_dp_indirect_long_y load_a)
      ∷ []

  -- ADC, SBC, AND, ORA, EOR and CMP with long addresses
  unfoldable pub alu_long_cases : Cases D
  alu_long_cases =
      (0x6f, on_m24 skip_long addr_long op_adc_m)
      ∷ (0x7f, on_m24 skip_long addr_long_x op_adc_m)
      ∷ (0x67, on_m24 skip_byte addr_dp_indirect_long op_adc_m)
      ∷ (0x77, on_m24 skip_byte addr_dp_indirect_long_y op_adc_m)
      ∷ (0xef, on_m24 skip_long addr_long op_sbc_m)
      ∷ (0xff, on_m24 skip_long addr_long_x op_sbc_m)
      ∷ (0xe7, on_m24 skip_byte addr_dp_indirect_long op_sbc_m)
      ∷ (0xf7, on_m24 skip_byte addr_dp_indirect_long_y op_sbc_m)
      ∷ (0x2f, on_m24 skip_long addr_long and_a)
      ∷ (0x3f, on_m24 skip_long addr_long_x and_a)
      ∷ (0x27, on_m24 skip_byte addr_dp_indirect_long and_a)
      ∷ (0x37, on_m24 skip_byte addr_dp_indirect_long_y and_a)
      ∷ (0x0f, on_m24 skip_long addr_long or_a)
      ∷ (0x1f, on_m24 skip_long addr_long_x or_a)
      ∷ (0x07, on_m24 skip_byte addr_dp_indirect_long or_a)
      ∷ (0x17, on_m24 skip_byte addr_dp_indirect_long_y or_a)
      ∷ (0x4f, on_m24 skip_long addr_long xor_a)
      ∷ (0x5f, on_m24 skip_long addr_long_x xor_a)
      ∷ (0x47, on_m24 skip_byte addr_dp_indirect_long xor_a)
      ∷ (0x57, on_m24 skip_byte addr_dp_indirect_long_y xor_a)
      ∷ (0xcf, on_m24 skip_long addr_long cmp_a)
      ∷ (0xdf, on_m24 skip_long addr_long_x cmp_a)
      ∷ (0xc7, on_m24 skip_byte addr_dp_indirect_long cmp_a)
      ∷ (0xd7, on_m24 skip_byte addr_dp_indirect_long_y cmp_a)
      ∷ []

  -- the opcodes (dp) but STA
  unfoldable pub dp_indirect_cases : Cases D
  dp_indirect_cases =
      (0x12, on_m24 skip_byte addr_dp_indirect or_a)
      ∷ (0x32, on_m24 skip_byte addr_dp_indirect and_a)
      ∷ (0x52, on_m24 skip_byte addr_dp_indirect xor_a)
      ∷ (0x72, on_m24 skip_byte addr_dp_indirect op_adc_m)
      ∷ (0xb2, on_m24 skip_byte addr_dp_indirect load_a)
      ∷ (0xd2, on_m24 skip_byte addr_dp_indirect cmp_a)
      ∷ (0xf2, on_m24 skip_byte addr_dp_indirect op_sbc_m)
      ∷ []

  -- LDX
  unfoldable pub ldx_cases : Cases D
  ldx_cases =
      (0xa2, on_imm_x load_x)
      ∷ (0xa6, on_x (plain addr_zp) load_x)
      ∷ (0xb6, on_x (plain addr_zp_y) load_x)
      ∷ (0xae, on_x (plain addr_abs) load_x)
      ∷ (0xbe, on_x addr_abs_y load_x)
      ∷ []

  -- LDY
  unfoldable pub ldy_cases : Cases D
  ldy_cases =
      (0xa0, on_imm_x load_y)
      ∷ (0xa4, on_x (plain addr_zp) load_y)
      ∷ (0xb4, on_x (plain addr_zp_x) load_y)
      ∷ (0xac, on_x (plain addr_abs) load_y)
      ∷ (0xbc, on_x addr_abs_x load_y)
      ∷ []

  -- ADC
  unfoldable pub adc_cases : Cases D
  adc_cases =
      (0x69, on_imm_m op_adc_m)
      ∷ (0x65, on_m (plain addr_zp) op_adc_m)
      ∷ (0x75, on_m (plain addr_zp_x) op_adc_m)
      ∷ (0x6d, on_m (plain addr_abs) op_adc_m)
      ∷ (0x7d, on_m addr_abs_x op_adc_m)
      ∷ (0x79, on_m addr_abs_y op_adc_m)
      ∷ (0x61, on_m (plain addr_indexed_indirect) op_adc_m)
      ∷ (0x71, on_m addr_indirect_indexed op_adc_m)
      ∷ []

  -- $EB: SBC immediate in emulation mode, with no cycle for 16 bits; XBA in native mode.
  unfoldable pub sbc_alias : Action D
  sbc_alias cycles = do v ← fetch_imm_m; modify (op_sbc_m v); pure cycles

  unfoldable pub exchange_ab : Cpu D → Cpu D
  exchange_ab s =
      let lo = u8 (bit_and s.c 0xff) in
      let hi = u8 (shr s.c 8) in update_nz hi (record s { c = u16 (bit_or (shl lo 8) hi) })

  unfoldable pub sbc_or_xba : Action D
  unfolding sbc_alias
  sbc_or_xba cycles = do
    e ← gets (λ s. s.e)
    if e then sbc_alias cycles else (do modify exchange_ab; pure 3)

  -- SBC, and $EB, which is XBA in native mode
  unfoldable pub sbc_cases : Cases D
  sbc_cases =
      (0xe9, on_imm_m op_sbc_m)
      ∷ (0xeb, sbc_or_xba)
      ∷ (0xe5, on_m (plain addr_zp) op_sbc_m)
      ∷ (0xf5, on_m (plain addr_zp_x) op_sbc_m)
      ∷ (0xed, on_m (plain addr_abs) op_sbc_m)
      ∷ (0xfd, on_m addr_abs_x op_sbc_m)
      ∷ (0xf9, on_m addr_abs_y op_sbc_m)
      ∷ (0xe1, on_m (plain addr_indexed_indirect) op_sbc_m)
      ∷ (0xf1, on_m addr_indirect_indexed op_sbc_m)
      ∷ []

  -- AND
  unfoldable pub and_cases : Cases D
  and_cases =
      (0x29, on_imm_m and_a)
      ∷ (0x25, on_m (plain addr_zp) and_a)
      ∷ (0x35, on_m (plain addr_zp_x) and_a)
      ∷ (0x2d, on_m (plain addr_abs) and_a)
      ∷ (0x3d, on_m addr_abs_x and_a)
      ∷ (0x39, on_m addr_abs_y and_a)
      ∷ (0x21, on_m (plain addr_indexed_indirect) and_a)
      ∷ (0x31, on_m addr_indirect_indexed and_a)
      ∷ []

  -- ORA
  unfoldable pub ora_cases : Cases D
  ora_cases =
      (0x09, on_imm_m or_a)
      ∷ (0x05, on_m (plain addr_zp) or_a)
      ∷ (0x15, on_m (plain addr_zp_x) or_a)
      ∷ (0x0d, on_m (plain addr_abs) or_a)
      ∷ (0x1d, on_m addr_abs_x or_a)
      ∷ (0x19, on_m addr_abs_y or_a)
      ∷ (0x01, on_m (plain addr_indexed_indirect) or_a)
      ∷ (0x11, on_m addr_indirect_indexed or_a)
      ∷ []

  -- EOR
  unfoldable pub eor_cases : Cases D
  eor_cases =
      (0x49, on_imm_m xor_a)
      ∷ (0x45, on_m (plain addr_zp) xor_a)
      ∷ (0x55, on_m (plain addr_zp_x) xor_a)
      ∷ (0x4d, on_m (plain addr_abs) xor_a)
      ∷ (0x5d, on_m addr_abs_x xor_a)
      ∷ (0x59, on_m addr_abs_y xor_a)
      ∷ (0x41, on_m (plain addr_indexed_indirect) xor_a)
      ∷ (0x51, on_m addr_indirect_indexed xor_a)
      ∷ []

  -- CMP
  unfoldable pub cmp_cases : Cases D
  cmp_cases =
      (0xc9, on_imm_m cmp_a)
      ∷ (0xc5, on_m (plain addr_zp) cmp_a)
      ∷ (0xd5, on_m (plain addr_zp_x) cmp_a)
      ∷ (0xcd, on_m (plain addr_abs) cmp_a)
      ∷ (0xdd, on_m addr_abs_x cmp_a)
      ∷ (0xd9, on_m addr_abs_y cmp_a)
      ∷ (0xc1, on_m (plain addr_indexed_indirect) cmp_a)
      ∷ (0xd1, on_m addr_indirect_indexed cmp_a)
      ∷ []

  -- CPX
  unfoldable pub cpx_cases : Cases D
  cpx_cases =
      (0xe0, on_imm_x cmp_x)
      ∷ (0xe4, on_x (plain addr_zp) cmp_x)
      ∷ (0xec, on_x (plain addr_abs) cmp_x)
      ∷ []

  -- CPY
  unfoldable pub cpy_cases : Cases D
  cpy_cases =
      (0xc0, on_imm_x cmp_y)
      ∷ (0xc4, on_x (plain addr_zp) cmp_y)
      ∷ (0xcc, on_x (plain addr_abs) cmp_y)
      ∷ []

  -- BIT
  unfoldable pub bit_cases : Cases D
  bit_cases = (0x24, on_m (plain addr_zp) bit_a) ∷ (0x2c, on_m (plain addr_abs) bit_a) ∷ []
