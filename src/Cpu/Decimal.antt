-- ===== src/Cpu/Decimal.antt =====
-- `op_adc` and `op_sbc` in decimal mode against arithmetic on numbers of two decimal digits.
use oric2_golden_model.Base.{
  ℕ, ◌+◌, ◌-◌, ◌*◌, ◌/◌, ◌%◌, ◌≤◌, ◌<◌, bit_and, bit_or, bit_xor, ◌≡◌, sym, ap, ◌∙◌, true, not,
  ◌&&◌, arith, ltb, leb, ◌==◌, if◌then◌else◌, u8, u16, shl, shr, has, bit_or_fields,
}
use oric2_golden_model.Base.{bit_and_low_digit}
use oric2_golden_model.Cpu.State.{flag_zero, flag_decimal, Cpu}
use oric2_golden_model.Cpu.Access.{flag, setf, a8, set_a8}
use oric2_golden_model.Cpu.Alu.{
  carry_in, adc_lo, adc_hi, adc_hi_corrected, sbc_digit, sbc_corrected, op_adc_decimal, op_adc,
  borrow_in, op_sbc_decimal, op_sbc,
}
use oric2_golden_model.Cpu.Flags.{a8-set_a8, flags_decimal}
use oric2_golden_model.Cpu.Arithmetic.{carry_in-lt, borrow_in-lt}
use oric2_golden_model.Cpu.Valid.{IsValid}
use mathlib.Core.Path.{subst}

-- A byte of two decimal digits, and its value.
abbrev pub IsBcd : ℕ → Type 0
IsBcd n = (n / 16 ≤ 9) × (n % 16 ≤ 9)

abbrev pub bcd : ℕ → ℕ
bcd n = n / 16 * 10 + n % 16

-- Two digits put together.
joined : (hi lo : ℕ) → bit_or (shl hi 4) (bit_and lo 0x0f) ≡ hi * 16 + lo % 16
joined hi lo =
    ap (bit_or (shl hi 4)) (bit_and_low_digit lo) ∙ bit_or_fields 4 hi (lo % 16) (omega arith)

adc_digits :
    (a v c : ℕ)
    → IsBcd a
    → IsBcd v
    → c < 2
    → let lo = adc_lo a v c in
      let hi = adc_hi_corrected (adc_hi a v lo) in
      let r = u8 (bit_or (shl hi 4) (bit_and lo 0x0f)) in
      IsBcd r × (bcd r + 100 * (if ltb 0x0f hi then 1 else 0) ≡ bcd a + bcd v + c)
unfolding adc_lo adc_hi adc_hi_corrected
adc_digits a v c da dv hc =
    let lo = adc_lo a v c in
    let hi = adc_hi_corrected (adc_hi a v lo) in
    ground (arith, joined hi lo, bit_and_low_digit a, bit_and_low_digit v)

sbc_digits :
    (a v b : ℕ)
    → IsBcd a
    → IsBcd v
    → b < 2
    → let lo = sbc_corrected (sbc_digit (bit_and a 0x0f) (bit_and v 0x0f) b) in
      let hi = sbc_corrected (sbc_digit (shr a 4) (shr v 4) (if leb 32768 lo then 1 else 0)) in
      let r = u8 (bit_or (shl hi 4) (bit_and lo 0x0f)) in
      IsBcd r
      × (bcd r + bcd v + b ≡ bcd a + 100 * (if ltb (u16 (a + 65536 - v - b)) 0x100 then 0 else 1))
unfolding sbc_digit sbc_corrected
sbc_digits a v b da dv hb =
    let lo = sbc_corrected (sbc_digit (bit_and a 0x0f) (bit_and v 0x0f) b) in
    let hi = sbc_corrected (sbc_digit (shr a 4) (shr v 4) (if leb 32768 lo then 1 else 0)) in
    ground (arith, joined hi lo, bit_and_low_digit a, bit_and_low_digit v)

difference_zero :
    (a v b : ℕ) → IsBcd a → IsBcd v → b < 2 → (u8 (u16 (a + 65536 - v - b)) == 0) ≡ (a == v + b)
difference_zero a v b da dv hb = ground arith

module _ {D : Type 0} where
  adc_decimal_sum :
      (v : ℕ) (s : Cpu D)
      → IsValid s
      → IsBcd (a8 s)
      → IsBcd v
      → let t = op_adc_decimal v s in
        IsBcd (a8 t)
        × (bcd (a8 t) + 100 * carry_in t ≡ bcd (a8 s) + bcd v + carry_in s)
        × (flag flag_zero t ≡ (u8 (a8 s + v + carry_in s) == 0))
        × (t.c / 256 ≡ s.c / 256)
  unfolding op_adc_decimal carry_in a8 set_a8 setf flag
  adc_decimal_sum v s h da dv =
      let a = a8 s in
      let lo = adc_lo a v (carry_in s) in
      let hi = adc_hi a v lo in
      let hi' = adc_hi_corrected hi in
      let bin = u16 (a + v + carry_in s) in
      let r = u8 (bit_or (shl hi' 4) (bit_and lo 0x0f)) in
      let (acc, high) = a8-set_a8 r s (omega arith) h.c in
      let (fc, fz) =
        flags_decimal (has hi 0x08) (u8 bin == 0)
          (not (has (bit_xor a v) 0x80) && has (bit_xor a (shl hi 4)) 0x80) (ltb 0x0f hi') s h.p in
      let (digits, sum) = adc_digits a v (carry_in s) da dv (carry_in-lt s) in
      (
        subst IsBcd (sym acc) digits,
        ap (λ x. bcd x + 100 * carry_in (op_adc_decimal v s)) acc
            ∙ ap (λ f. bcd r + 100 * (if f then 1 else 0)) fc
            ∙ sum,
        fz ∙ ap (λ (x : ℕ). x == 0) {x = u8 bin} {y = u8 (a + v + carry_in s)} (omega arith),
        high,
      )

  -- ADC in decimal mode, in a valid state whose accumulator and operand are bytes of two decimal digits: the new
  -- accumulator is such a byte again, and with the carry as hundreds it is the decimal sum of the
  -- accumulator, the operand and the old carry; Z tells that the binary sum is 0; the high byte of
  -- C is left alone.
  pub op_adc-decimal_sum :
      (v : ℕ) (s : Cpu D)
      → IsValid s
      → IsBcd (a8 s)
      → IsBcd v
      → flag flag_decimal s ≡ true
      → let t = op_adc v s in
        IsBcd (a8 t)
        × (bcd (a8 t) + 100 * carry_in t ≡ bcd (a8 s) + bcd v + carry_in s)
        × (flag flag_zero t ≡ (u8 (a8 s + v + carry_in s) == 0))
        × (t.c / 256 ≡ s.c / 256)
  unfolding op_adc
  op_adc-decimal_sum v s h da dv decimal = rw (decimal) (adc_decimal_sum v s h da dv)

  sbc_decimal_difference :
      (v : ℕ) (s : Cpu D)
      → IsValid s
      → IsBcd (a8 s)
      → IsBcd v
      → let t = op_sbc_decimal v s in
        IsBcd (a8 t)
        × (bcd (a8 t) + bcd v + borrow_in s ≡ bcd (a8 s) + 100 * borrow_in t)
        × (flag flag_zero t ≡ (a8 s == v + borrow_in s))
        × (t.c / 256 ≡ s.c / 256)
  unfolding op_sbc_decimal borrow_in a8 set_a8 setf flag
  sbc_decimal_difference v s h da dv =
      let a = a8 s in
      let b = borrow_in s in
      let bin = u16 (a + 65536 - v - b) in
      let lo = sbc_corrected (sbc_digit (bit_and a 0x0f) (bit_and v 0x0f) b) in
      let hi = sbc_corrected (sbc_digit (shr a 4) (shr v 4) (if leb 32768 lo then 1 else 0)) in
      let r = u8 (bit_or (shl hi 4) (bit_and lo 0x0f)) in
      let (acc, high) = a8-set_a8 r s (omega arith) h.c in
      let (fc, fz) =
        flags_decimal (has bin 0x80) (u8 bin == 0)
          (has (bit_and (bit_xor a v) (bit_xor a (u8 bin))) 0x80) (ltb bin 0x100) s h.p in
      let (digits, difference) = sbc_digits a v b da dv (borrow_in-lt s) in
      (
        subst IsBcd (sym acc) digits,
        ap (λ x. bcd x + bcd v + b) acc
            ∙ difference
            ∙ ap (λ f. bcd a + 100 * (if f then 0 else 1)) (sym fc),
        fz ∙ difference_zero a v b da dv (borrow_in-lt s),
        high,
      )

  -- SBC in decimal mode, in a valid state whose accumulator and operand are bytes of two decimal digits: the new
  -- accumulator is such a byte again, and is the decimal difference of the accumulator, the operand
  -- and the old borrow, the complement of the carry, plus 100 when the new borrow is set; Z tells
  -- that the accumulator is the operand and the borrow; the high byte of C is left alone.
  pub op_sbc-decimal_difference :
      (v : ℕ) (s : Cpu D)
      → IsValid s
      → IsBcd (a8 s)
      → IsBcd v
      → flag flag_decimal s ≡ true
      → let t = op_sbc v s in
        IsBcd (a8 t)
        × (bcd (a8 t) + bcd v + borrow_in s ≡ bcd (a8 s) + 100 * borrow_in t)
        × (flag flag_zero t ≡ (a8 s == v + borrow_in s))
        × (t.c / 256 ≡ s.c / 256)
  unfolding op_sbc
  op_sbc-decimal_difference v s h da dv decimal = rw (decimal) (sbc_decimal_difference v s h da dv)
