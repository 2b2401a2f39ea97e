-- ===== src/Cpu6502/Exec/Operand.antt =====
-- opcodes.c: the cases that load, combine, compare and store.
use oric2_golden_model.Base.{bit_and, bit_or, bit_xor, [], ◌∷◌}
use oric2_golden_model.Cpu6502.Access.{
  addr_immediate, addr_zero_page, addr_zero_page_x, addr_zero_page_y, addr_absolute,
  addr_absolute_x, addr_absolute_y, addr_indexed_indirect, addr_indirect_indexed,
}
use oric2_golden_model.Cpu6502.Alu.{lda, ldx, ldy, bit, op_adc, op_sbc, op_cmp}
use oric2_golden_model.Cpu6502.Exec.Shapes.{Cases, plain, no_cross, on_operand, store}

module _ {D : Type 0} where
  -- LDA
  unfoldable pub lda_cases : Cases D
  lda_cases =
      (0xa9, on_operand (plain addr_immediate) lda)
      ∷ (0xa5, on_operand (plain addr_zero_page) lda)
      ∷ (0xb5, on_operand (plain addr_zero_page_x) lda)
      ∷ (0xad, on_operand (plain addr_absolute) lda)
      ∷ (0xbd, on_operand addr_absolute_x lda)
      ∷ (0xb9, on_operand addr_absolute_y lda)
      ∷ (0xa1, on_operand (plain addr_indexed_indirect) lda)
      ∷ (0xb1, on_operand addr_indirect_indexed lda)
      ∷ []

  -- LDX
  unfoldable pub ldx_cases : Cases D
  ldx_cases =
      (0xa2, on_operand (plain addr_immediate) ldx)
      ∷ (0xa6, on_operand (plain addr_zero_page) ldx)
      ∷ (0xb6, on_operand (plain addr_zero_page_y) ldx)
      ∷ (0xae, on_operand (plain addr_absolute) ldx)
      ∷ (0xbe, on_operand addr_absolute_y ldx)
      ∷ []

  -- LDY
  unfoldable pub ldy_cases : Cases D
  ldy_cases =
      (0xa0, on_operand (plain addr_immediate) ldy)
      ∷ (0xa4, on_operand (plain addr_zero_page) ldy)
      ∷ (0xb4, on_operand (plain addr_zero_page_x) ldy)
      ∷ (0xac, on_operand (plain addr_absolute) ldy)
      ∷ (0xbc, on_operand addr_absolute_x ldy)
      ∷ []

  -- STA
  unfoldable pub sta_cases : Cases D
  sta_cases =
      (0x85, store addr_zero_page (λ s. s.a))
      ∷ (0x95, store addr_zero_page_x (λ s. s.a))
      ∷ (0x8d, store addr_absolute (λ s. s.a))
      ∷ (0x9d, store (no_cross addr_absolute_x) (λ s. s.a))
      ∷ (0x99, store (no_cross addr_absolute_y) (λ s. s.a))
      ∷ (0x81, store addr_indexed_indirect (λ s. s.a))
      ∷ (0x91, store (no_cross addr_indirect_indexed) (λ s. s.a))
      ∷ []

  -- STX
  unfoldable pub stx_cases : Cases D
  stx_cases =
      (0x86, store addr_zero_page (λ s. s.x))
      ∷ (0x96, store addr_zero_page_y (λ s. s.x))
      ∷ (0x8e, store addr_absolute (λ s. s.x))
      ∷ []

  -- STY
  unfoldable pub sty_cases : Cases D
  sty_cases =
      (0x84, store addr_zero_page (λ s. s.y))
      ∷ (0x94, store addr_zero_page_x (λ s. s.y))
      ∷ (0x8c, store addr_absolute (λ s. s.y))
      ∷ []

  -- ADC
  unfoldable pub adc_cases : Cases D
  adc_cases =
      (0x69, on_operand (plain addr_immediate) op_adc)
      ∷ (0x65, on_operand (plain addr_zero_page) op_adc)
      ∷ (0x75, on_operand (plain addr_zero_page_x) op_adc)
      ∷ (0x6d, on_operand (plain addr_absolute) op_adc)
      ∷ (0x7d, on_operand addr_absolute_x op_adc)
      ∷ (0x79, on_operand addr_absolute_y op_adc)
      ∷ (0x61, on_operand (plain addr_indexed_indirect) op_adc)
      ∷ (0x71, on_operand addr_indirect_indexed op_adc)
      ∷ []

  -- SBC
  unfoldable pub sbc_cases : Cases D
  sbc_cases =
      (0xe9, on_operand (plain addr_immediate) op_sbc)
      ∷ (0xeb, on_operand (plain addr_immediate) op_sbc)
      ∷ (0xe5, on_operand (plain addr_zero_page) op_sbc)
      ∷ (0xf5, on_operand (plain addr_zero_page_x) op_sbc)
      ∷ (0xed, on_operand (plain addr_absolute) op_sbc)
      ∷ (0xfd, on_operand addr_absolute_x op_sbc)
      ∷ (0xf9, on_operand addr_absolute_y op_sbc)
      ∷ (0xe1, on_operand (plain addr_indexed_indirect) op_sbc)
      ∷ (0xf1, on_operand addr_indirect_indexed op_sbc)
      ∷ []

  -- AND
  unfoldable pub and_cases : Cases D
  and_cases =
      (0x29, on_operand (plain addr_immediate) (λ v s. lda (bit_and s.a v) s))
      ∷ (0x25, on_operand (plain addr_zero_page) (λ v s. lda (bit_and s.a v) s))
      ∷ (0x35, on_operand (plain addr_zero_page_x) (λ v s. lda (bit_and s.a v) s))
      ∷ (0x2d, on_operand (plain addr_absolute) (λ v s. lda (bit_and s.a v) s))
      ∷ (0x3d, on_operand addr_absolute_x (λ v s. lda (bit_and s.a v) s))
      ∷ (0x39, on_operand addr_absolute_y (λ v s. lda (bit_and s.a v) s))
      ∷ (0x21, on_operand (plain addr_indexed_indirect) (λ v s. lda (bit_and s.a v) s))
      ∷ (0x31, on_operand addr_indirect_indexed (λ v s. lda (bit_and s.a v) s))
      ∷ []

  -- ORA
  unfoldable pub ora_cases : Cases D
  ora_cases =
      (0x09, on_operand (plain addr_immediate) (λ v s. lda (bit_or s.a v) s))
      ∷ (0x05, on_operand (plain addr_zero_page) (λ v s. lda (bit_or s.a v) s))
      ∷ (0x15, on_operand (plain addr_zero_page_x) (λ v s. lda (bit_or s.a v) s))
      ∷ (0x0d, on_operand (plain addr_absolute) (λ v s. lda (bit_or s.a v) s))
      ∷ (0x1d, on_operand addr_absolute_x (λ v s. lda (bit_or s.a v) s))
      ∷ (0x19, on_operand addr_absolute_y (λ v s. lda (bit_or s.a v) s))
      ∷ (0x01, on_operand (plain addr_indexed_indirect) (λ v s. lda (bit_or s.a v) s))
      ∷ (0x11, on_operand addr_indirect_indexed (λ v s. lda (bit_or s.a v) s))
      ∷ []

  -- EOR
  unfoldable pub eor_cases : Cases D
  eor_cases =
      (0x49, on_operand (plain addr_immediate) (λ v s. lda (bit_xor s.a v) s))
      ∷ (0x45, on_operand (plain addr_zero_page) (λ v s. lda (bit_xor s.a v) s))
      ∷ (0x55, on_operand (plain addr_zero_page_x) (λ v s. lda (bit_xor s.a v) s))
      ∷ (0x4d, on_operand (plain addr_absolute) (λ v s. lda (bit_xor s.a v) s))
      ∷ (0x5d, on_operand addr_absolute_x (λ v s. lda (bit_xor s.a v) s))
      ∷ (0x59, on_operand addr_absolute_y (λ v s. lda (bit_xor s.a v) s))
      ∷ (0x41, on_operand (plain addr_indexed_indirect) (λ v s. lda (bit_xor s.a v) s))
      ∷ (0x51, on_operand addr_indirect_indexed (λ v s. lda (bit_xor s.a v) s))
      ∷ []

  -- CMP
  unfoldable pub cmp_cases : Cases D
  cmp_cases =
      (0xc9, on_operand (plain addr_immediate) (λ v s. op_cmp s.a v s))
      ∷ (0xc5, on_operand (plain addr_zero_page) (λ v s. op_cmp s.a v s))
      ∷ (0xd5, on_operand (plain addr_zero_page_x) (λ v s. op_cmp s.a v s))
      ∷ (0xcd, on_operand (plain addr_absolute) (λ v s. op_cmp s.a v s))
      ∷ (0xdd, on_operand addr_absolute_x (λ v s. op_cmp s.a v s))
      ∷ (0xd9, on_operand addr_absolute_y (λ v s. op_cmp s.a v s))
      ∷ (0xc1, on_operand (plain addr_indexed_indirect) (λ v s. op_cmp s.a v s))
      ∷ (0xd1, on_operand addr_indirect_indexed (λ v s. op_cmp s.a v s))
      ∷ []

  -- CPX
  unfoldable pub cpx_cases : Cases D
  cpx_cases =
      (0xe0, on_operand (plain addr_immediate) (λ v s. op_cmp s.x v s))
      ∷ (0xe4, on_operand (plain addr_zero_page) (λ v s. op_cmp s.x v s))
      ∷ (0xec, on_operand (plain addr_absolute) (λ v s. op_cmp s.x v s))
      ∷ []

  -- CPY
  unfoldable pub cpy_cases : Cases D
  cpy_cases =
      (0xc0, on_operand (plain addr_immediate) (λ v s. op_cmp s.y v s))
      ∷ (0xc4, on_operand (plain addr_zero_page) (λ v s. op_cmp s.y v s))
      ∷ (0xcc, on_operand (plain addr_absolute) (λ v s. op_cmp s.y v s))
      ∷ []

  -- BIT
  unfoldable pub bit_cases : Cases D
  bit_cases =
      (0x24, on_operand (plain addr_zero_page) bit)
      ∷ (0x2c, on_operand (plain addr_absolute) bit)
      ∷ []
