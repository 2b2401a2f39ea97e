-- ===== src/Cpu/Alu.antt =====
-- cpu65c816_opcodes.c: the arithmetic, in 8 and 16 bits, binary and decimal, the logic, and the
-- operations on one byte.
use oric2_golden_model.Base.{
  ℕ, ◌+◌, ◌-◌, bit_and, bit_or, bit_xor, not, ◌&&◌, ltb, leb, ◌==◌, if◌then◌else◌, u8, u16, u32,
  shl, shr, has,
}
use oric2_golden_model.Cpu.State.{
  Cpu, M, flag_carry, flag_zero, flag_negative, flag_overflow, flag_decimal,
}
use oric2_golden_model.Cpu.Access.{
  flag, setf, m_is_8bit, x_is_8bit, a8, set_a8, update_nz, update_nz_m, update_nz_x, a_get_m,
  a_set_m, x_get_x, x_set_x, y_get_x, y_set_x,
}

-- `flag(cpu, FLAG_CARRY) ? 1 : 0`
unfoldable pub carry_in : {D : Type 0} → Cpu D → ℕ
carry_in s = if flag flag_carry s then 1 else 0

-- The two digits of the decimal ADC, before and behind the correction of the high one.
unfoldable pub adc_lo : ℕ → ℕ → ℕ → ℕ
adc_lo a v c = let lo = bit_and a 0x0f + bit_and v 0x0f + c in if ltb 0x09 lo then lo + 0x06 else lo

unfoldable pub adc_hi : ℕ → ℕ → ℕ → ℕ
adc_hi a v lo = shr a 4 + shr v 4 + (if ltb 0x0f lo then 1 else 0)

unfoldable pub adc_hi_corrected : ℕ → ℕ
adc_hi_corrected hi = if ltb 0x09 hi then hi + 0x06 else hi

-- A digit of the decimal SBC. An `int16_t` is its bit pattern, negative from 32768 on.
unfoldable pub sbc_digit : ℕ → ℕ → ℕ → ℕ
sbc_digit a v b = u16 (a + 65536 - v - b)

unfoldable pub sbc_corrected : ℕ → ℕ
sbc_corrected n = if leb 32768 n then u16 (n + 65536 - 0x06) else n

module _ {D : Type 0} where
  unfoldable pub op_adc_decimal : ℕ → Cpu D → Cpu D
  unfolding adc_lo adc_hi adc_hi_corrected carry_in
  op_adc_decimal v s =
      let a = a8 s in
      let lo = adc_lo a v (carry_in s) in
      let hi = adc_hi a v lo in
      let bin = u16 (a + v + carry_in s) in
      let s1 = setf flag_zero (u8 bin == 0) s in
      let s2 = setf flag_negative (has hi 0x08) s1 in
      let s3 =
        setf flag_overflow (not (has (bit_xor a v) 0x80) && has (bit_xor a (shl hi 4)) 0x80) s2 in
      let hi' = adc_hi_corrected hi in
      set_a8 (u8 (bit_or (shl hi' 4) (bit_and lo 0x0f))) (setf flag_carry (ltb 0x0f hi') s3)

  unfoldable pub op_adc_binary : ℕ → Cpu D → Cpu D
  unfolding carry_in
  op_adc_binary v s =
      let a = a8 s in
      let sum = u16 (a + v + carry_in s) in
      let s1 = setf flag_carry (ltb 0xff sum) s in
      let s2 =
        setf flag_overflow (has (bit_and (bit_xor a (u8 sum)) (bit_xor v (u8 sum))) 0x80) s1 in
      let s3 = set_a8 (u8 sum) s2 in update_nz (a8 s3) s3

  unfoldable pub op_adc : ℕ → Cpu D → Cpu D
  unfolding op_adc_decimal op_adc_binary
  op_adc v s = if flag flag_decimal s then op_adc_decimal v s else op_adc_binary v s

  unfoldable pub borrow_in : Cpu D → ℕ
  borrow_in s = if flag flag_carry s then 0 else 1

  unfoldable pub op_sbc_decimal : ℕ → Cpu D → Cpu D
  unfolding borrow_in sbc_digit sbc_corrected
  op_sbc_decimal v s =
      let a = a8 s in
      let bin = u16 (a + 65536 - v - borrow_in s) in
      let lo = sbc_corrected (sbc_digit (bit_and a 0x0f) (bit_and v 0x0f) (borrow_in s)) in
      let hi = sbc_corrected (sbc_digit (shr a 4) (shr v 4) (if leb 32768 lo then 1 else 0)) in
      let s1 = setf flag_zero (u8 bin == 0) s in
      let s2 = setf flag_negative (has bin 0x80) s1 in
      let s3 = setf flag_overflow (has (bit_and (bit_xor a v) (bit_xor a (u8 bin))) 0x80) s2 in
      set_a8 (u8 (bit_or (shl hi 4) (bit_and lo 0x0f))) (setf flag_carry (ltb bin 0x100) s3)

  unfoldable pub op_sbc_binary : ℕ → Cpu D → Cpu D
  unfolding borrow_in
  op_sbc_binary v s =
      let a = a8 s in
      let diff = u16 (a + 65536 - v - borrow_in s) in
      let s1 = setf flag_carry (ltb diff 0x100) s in
      let s2 = setf flag_overflow (has (bit_and (bit_xor a v) (bit_xor a (u8 diff))) 0x80) s1 in
      let s3 = set_a8 (u8 diff) s2 in update_nz (a8 s3) s3

  unfoldable pub op_sbc : ℕ → Cpu D → Cpu D
  unfolding op_sbc_decimal op_sbc_binary
  op_sbc v s = if flag flag_decimal s then op_sbc_decimal v s else op_sbc_binary v s

  unfoldable pub op_cmp : ℕ → ℕ → Cpu D → Cpu D
  op_cmp reg v s = update_nz (u8 (reg + 256 - v)) (setf flag_carry (leb v reg) s)

  -- The 16-bit forms; in decimal mode the source falls back on the 8-bit ones.
  unfoldable pub op_adc16 : ℕ → Cpu D → Cpu D
  unfolding carry_in
  op_adc16 v s =
      let a = s.c in
      let sum = u32 (a + v + carry_in s) in
      let s1 = setf flag_carry (ltb 0xffff sum) s in
      let res = u16 sum in
      let s2 = setf flag_overflow (has (bit_and (bit_xor a res) (bit_xor v res)) 0x8000) s1 in
      update_nz_m res (record s2 { c = res })

  unfoldable pub op_sbc16 : ℕ → Cpu D → Cpu D
  unfolding borrow_in
  op_sbc16 v s =
      let a = s.c in
      let diff = u32 (a + 4294967296 - v - borrow_in s) in
      let s1 = setf flag_carry (ltb diff 0x10000) s in
      let res = u16 diff in
      let s2 = setf flag_overflow (has (bit_and (bit_xor a v) (bit_xor a res)) 0x8000) s1 in
      update_nz_m res (record s2 { c = res })

  unfoldable pub op_adc_m : ℕ → Cpu D → Cpu D
  op_adc_m v s =
      if m_is_8bit s
      then op_adc (u8 v) s
      else if flag flag_decimal s
      then op_adc (u8 v) s
      else op_adc16 v s

  unfoldable pub op_sbc_m : ℕ → Cpu D → Cpu D
  op_sbc_m v s =
      if m_is_8bit s
      then op_sbc (u8 v) s
      else if flag flag_decimal s
      then op_sbc (u8 v) s
      else op_sbc16 v s

  unfoldable pub op_cmp_m : ℕ → ℕ → Cpu D → Cpu D
  op_cmp_m reg v s =
      if m_is_8bit s
      then op_cmp (u8 reg) (u8 v) s
      else update_nz_m (u16 (reg + 65536 - v)) (setf flag_carry (leb v reg) s)

  unfoldable pub op_cmp_x : ℕ → ℕ → Cpu D → Cpu D
  op_cmp_x reg v s =
      if x_is_8bit s
      then op_cmp (u8 reg) (u8 v) s
      else update_nz_x (u16 (reg + 65536 - v)) (setf flag_carry (leb v reg) s)

  -- What the load and logic opcodes do with the operand.
  unfoldable pub load_a : ℕ → Cpu D → Cpu D
  load_a v s = update_nz_m v (a_set_m v s)

  unfoldable pub load_x : ℕ → Cpu D → Cpu D
  load_x v s = update_nz_x v (x_set_x v s)

  unfoldable pub load_y : ℕ → Cpu D → Cpu D
  load_y v s = update_nz_x v (y_set_x v s)

  unfoldable pub and_a : ℕ → Cpu D → Cpu D
  unfolding load_a
  and_a v s = load_a (bit_and (a_get_m s) v) s

  unfoldable pub or_a : ℕ → Cpu D → Cpu D
  unfolding load_a
  or_a v s = load_a (bit_or (a_get_m s) v) s

  unfoldable pub xor_a : ℕ → Cpu D → Cpu D
  unfolding load_a
  xor_a v s = load_a (bit_xor (a_get_m s) v) s

  unfoldable pub cmp_a : ℕ → Cpu D → Cpu D
  unfolding op_cmp_m
  cmp_a v s = op_cmp_m (a_get_m s) v s

  unfoldable pub cmp_x : ℕ → Cpu D → Cpu D
  unfolding op_cmp_x
  cmp_x v s = op_cmp_x (x_get_x s) v s

  unfoldable pub cmp_y : ℕ → Cpu D → Cpu D
  unfolding op_cmp_x
  cmp_y v s = op_cmp_x (y_get_x s) v s

  unfoldable pub bit_a : ℕ → Cpu D → Cpu D
  bit_a v s =
      let s1 = setf flag_zero (bit_and (a_get_m s) v == 0) s in
      if m_is_8bit s1
      then setf flag_negative (has v 0x80) (setf flag_overflow (has v 0x40) s1)
      else setf flag_negative (has v 0x8000) (setf flag_overflow (has v 0x4000) s1)

  -- The shifts of one byte: the result, and the state with the new carry.
  unfoldable pub asl8 : ℕ → M D ℕ
  asl8 v s = (u8 (shl v 1), setf flag_carry (has v 0x80) s)

  unfoldable pub lsr8 : ℕ → M D ℕ
  lsr8 v s = (u8 (shr v 1), setf flag_carry (has v 0x01) s)

  unfoldable pub rol8 : ℕ → M D ℕ
  unfolding carry_in
  rol8 v s = (u8 (bit_or (shl v 1) (carry_in s)), setf flag_carry (has v 0x80) s)

  unfoldable pub ror8 : ℕ → M D ℕ
  ror8 v s = (
    u8 (bit_or (shr v 1) (if flag flag_carry s then 0x80 else 0)),
    setf flag_carry (has v 0x01) s,
  )

  unfoldable pub inc8 : ℕ → M D ℕ
  inc8 v s = (u8 (v + 1), s)

  unfoldable pub dec8 : ℕ → M D ℕ
  dec8 v s = (u8 (v + 256 - 1), s)
