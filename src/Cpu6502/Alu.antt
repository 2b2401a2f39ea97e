-- ===== src/Cpu6502/Alu.antt =====
-- opcodes.c: the arithmetic of the 6502 and what its opcodes do with their operands.
use oric2_golden_model.Base.{
  ℕ, ◌+◌, ◌-◌, bit_and, bit_or, bit_xor, Bool, ltb, leb, ◌==◌, if◌then◌else◌, u8, u16, shl, shr,
  has,
}
use oric2_golden_model.Cpu.State.{flag_carry, flag_zero, flag_negative, flag_overflow, flag_decimal}
use oric2_golden_model.Cpu6502.{Cpu6502, N}
use oric2_golden_model.Cpu6502.Access.{cpu_get_flag, cpu_set_flag}

-- `~(A ^ val) & (A ^ r) & 0x80`, on bytes
abbrev pub sum_overflow : ℕ → ℕ → ℕ → Bool
sum_overflow a v r = has (bit_and (255 - bit_xor a v) (bit_xor a r)) 0x80

module _ {D : Type 0} where
  unfoldable pub update_nz : ℕ → Cpu6502 D → Cpu6502 D
  unfolding cpu_set_flag
  update_nz v s = cpu_set_flag flag_negative (has v 0x80) (cpu_set_flag flag_zero (v == 0) s)

  -- `cpu_get_flag(cpu, FLAG_CARRY) ? 1 : 0`, and the borrow
  unfoldable pub carry : Cpu6502 D → ℕ
  unfolding cpu_get_flag
  carry s = if cpu_get_flag flag_carry s then 1 else 0

  unfoldable pub borrow : Cpu6502 D → ℕ
  unfolding cpu_get_flag
  borrow s = if cpu_get_flag flag_carry s then 0 else 1

  unfoldable pub op_adc_decimal : ℕ → Cpu6502 D → Cpu6502 D
  unfolding carry cpu_set_flag
  op_adc_decimal v s =
      let lo = bit_and s.a 0x0f + bit_and v 0x0f + carry s in
      let hi = bit_and s.a 0xf0 + bit_and v 0xf0 in
      let lo' = if ltb 0x09 lo then lo + 0x06 else lo in
      let hi' = if ltb 0x09 lo then hi + 0x10 else hi in
      let bin = u16 (s.a + v + carry s) in
      let s1 = cpu_set_flag flag_overflow (sum_overflow s.a v (u8 bin)) s in
      let sum = hi' + bit_and lo' 0x0f in
      let sum' = if ltb 0x9f sum then sum + 0x60 else sum in
      let s2 = cpu_set_flag flag_carry (ltb 0xff sum') s1 in
      let s3 = record s2 { a = u8 sum' } in
      cpu_set_flag flag_zero (u8 bin == 0) (cpu_set_flag flag_negative (has s3.a 0x80) s3)

  unfoldable pub op_adc_binary : ℕ → Cpu6502 D → Cpu6502 D
  unfolding carry cpu_set_flag update_nz
  op_adc_binary v s =
      let sum = u16 (s.a + v + carry s) in
      let s1 = cpu_set_flag flag_carry (ltb 0xff sum) s in
      let s2 = cpu_set_flag flag_overflow (sum_overflow s.a v (u8 sum)) s1 in
      let s3 = record s2 { a = u8 sum } in update_nz s3.a s3

  unfoldable pub op_adc : ℕ → Cpu6502 D → Cpu6502 D
  unfolding op_adc_decimal op_adc_binary cpu_get_flag
  op_adc v s = if cpu_get_flag flag_decimal s then op_adc_decimal v s else op_adc_binary v s

  -- An `int16_t` is its bit pattern, negative from 32768 on.
  unfoldable pub op_sbc_decimal : ℕ → Cpu6502 D → Cpu6502 D
  unfolding borrow cpu_set_flag
  op_sbc_decimal v s =
      let bin = u16 (s.a + 65536 - v - borrow s) in
      let lo = u16 (bit_and s.a 0x0f + 65536 - bit_and v 0x0f - borrow s) in
      let hi = u16 (bit_and s.a 0xf0 + 65536 - bit_and v 0xf0) in
      let lo' = if leb 32768 lo then u16 (lo + 65536 - 0x06) else lo in
      let hi' = if leb 32768 lo then u16 (hi + 65536 - 0x10) else hi in
      let sum = u16 (hi' + bit_and lo' 0x0f) in
      let sum' = if leb 32768 sum then u16 (sum + 65536 - 0x60) else sum in
      let s1 = cpu_set_flag flag_carry (ltb bin 0x100) s in
      let s2 =
        cpu_set_flag flag_overflow (has (bit_and (bit_xor s.a v) (bit_xor s.a (u8 bin))) 0x80) s1 in
      let s3 = record s2 { a = u8 sum' } in
      cpu_set_flag flag_zero (u8 bin == 0) (cpu_set_flag flag_negative (has s3.a 0x80) s3)

  unfoldable pub op_sbc_binary : ℕ → Cpu6502 D → Cpu6502 D
  unfolding borrow cpu_set_flag update_nz
  op_sbc_binary v s =
      let diff = u16 (s.a + 65536 - v - borrow s) in
      let s1 = cpu_set_flag flag_carry (ltb diff 0x100) s in
      let s2 =
        cpu_set_flag flag_overflow (has (bit_and (bit_xor s.a v) (bit_xor s.a (u8 diff))) 0x80)
          s1 in
      let s3 = record s2 { a = u8 diff } in update_nz s3.a s3

  unfoldable pub op_sbc : ℕ → Cpu6502 D → Cpu6502 D
  unfolding op_sbc_decimal op_sbc_binary cpu_get_flag
  op_sbc v s = if cpu_get_flag flag_decimal s then op_sbc_decimal v s else op_sbc_binary v s

  unfoldable pub op_cmp : ℕ → ℕ → Cpu6502 D → Cpu6502 D
  unfolding cpu_set_flag update_nz
  op_cmp reg v s = update_nz (u8 (reg + 256 - v)) (cpu_set_flag flag_carry (leb v reg) s)

  -- What the load and logic opcodes do with the operand.
  unfoldable pub lda : ℕ → Cpu6502 D → Cpu6502 D
  unfolding update_nz
  lda v s = update_nz v (record s { a = v })

  unfoldable pub ldx : ℕ → Cpu6502 D → Cpu6502 D
  unfolding update_nz
  ldx v s = update_nz v (record s { x = v })

  unfoldable pub ldy : ℕ → Cpu6502 D → Cpu6502 D
  unfolding update_nz
  ldy v s = update_nz v (record s { y = v })

  unfoldable pub bit : ℕ → Cpu6502 D → Cpu6502 D
  unfolding cpu_set_flag
  bit v s =
      let s1 = cpu_set_flag flag_zero (bit_and s.a v == 0) s in
      cpu_set_flag flag_negative (has v 0x80) (cpu_set_flag flag_overflow (has v 0x40) s1)

  -- The shifts of one byte: the result, and the state with the new carry.
  unfoldable pub asl : ℕ → N D ℕ
  unfolding cpu_set_flag
  asl v s = (u8 (shl v 1), cpu_set_flag flag_carry (has v 0x80) s)

  unfoldable pub lsr : ℕ → N D ℕ
  unfolding cpu_set_flag
  lsr v s = (u8 (shr v 1), cpu_set_flag flag_carry (has v 0x01) s)

  unfoldable pub rol : ℕ → N D ℕ
  unfolding cpu_set_flag carry
  rol v s = (u8 (bit_or (shl v 1) (carry s)), cpu_set_flag flag_carry (has v 0x80) s)

  unfoldable pub ror : ℕ → N D ℕ
  unfolding cpu_set_flag cpu_get_flag
  ror v s = (
    u8 (bit_or (shr v 1) (if cpu_get_flag flag_carry s then 0x80 else 0)),
    cpu_set_flag flag_carry (has v 0x01) s,
  )

  unfoldable pub inc : ℕ → N D ℕ
  inc v s = (u8 (v + 1), s)

  unfoldable pub dec : ℕ → N D ℕ
  dec v s = (u8 (v + 256 - 1), s)
