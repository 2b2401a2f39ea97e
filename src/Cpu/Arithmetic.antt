-- ===== src/Cpu/Arithmetic.antt =====
-- `op_adc`, `op_sbc` and `op_cmp` in binary against arithmetic on numbers.
use oric2_golden_model.Base.{
  ℕ, ◌+◌, ◌-◌, ◌*◌, ◌/◌, ◌%◌, ◌<◌, bit_and, bit_xor, ◌≡◌, ◌∙◌, Bool, false, ◌||◌, arith, ltb, leb,
  ◌==◌, if◌then◌else◌, u8, u16, has, bit_and_low_byte,
}
use oric2_golden_model.Cpu.State.{
  flag_carry, flag_zero, flag_decimal, flag_overflow, flag_negative, Cpu,
}
use oric2_golden_model.Cpu.Access.{flag, setf, a8, set_a8, update_nz}
use oric2_golden_model.Cpu.Alu.{
  carry_in, op_adc_binary, op_adc, borrow_in, op_sbc_binary, op_sbc, op_cmp,
}
use oric2_golden_model.Cpu.Flags.{
  halves, top_xor, top_and, test_bit, flag-setf, sign8, a8-set_a8, flags_binary, setf-lt,
}
use oric2_golden_model.Cpu.Valid.{IsValid}

-- A number of `2 * half` values read as signed, plus `half`.
abbrev pub biased : ℕ → ℕ → ℕ
biased half x = if ltb x half then x + half else x - half

-- The signed sum does not fit.
abbrev pub add_overflows : ℕ → ℕ → ℕ → ℕ → Bool
add_overflows half a v c =
    ltb (biased half a + biased half v + c) half
    || leb (3 * half) (biased half a + biased half v + c)

-- `a - v - b` as signed numbers does not fit.
abbrev pub sub_overflows : ℕ → ℕ → ℕ → ℕ → Bool
sub_overflows half a v b =
    ltb (biased half a + half) (biased half v + b)
    || leb (2 * half) (biased half a + half - biased half v - b)

add_sign :
    (a v c : ℕ)
    → a < 256
    → v < 256
    → c < 2
    → let r = (a + v + c) % 65536 % 256 in
      has (bit_and (bit_xor a r) (bit_xor v r)) 0x80 ≡ add_overflows 128 a v c
unfolding halves
add_sign a v c ha hv hc =
    let r = (a + v + c) % 65536 % 256 in
    let xa = top_xor 7 a r (omega arith) (omega arith) in
    let xv = top_xor 7 v r (omega arith) (omega arith) in
    let both = top_and 7 (bit_xor a r) (bit_xor v r) (omega (arith, xa)) (omega (arith, xv)) in
    ground (arith, test_bit 7 (bit_and (bit_xor a r) (bit_xor v r)), xa, xv, both)

sub_sign :
    (a v b : ℕ)
    → a < 256
    → v < 256
    → b < 2
    → let r = (a + 65536 - v - b) % 65536 % 256 in
      has (bit_and (bit_xor a v) (bit_xor a r)) 0x80 ≡ sub_overflows 128 a v b
unfolding halves
sub_sign a v b ha hv hb =
    let r = (a + 65536 - v - b) % 65536 % 256 in
    let xv = top_xor 7 a v (omega arith) (omega arith) in
    let xr = top_xor 7 a r (omega arith) (omega arith) in
    let both = top_and 7 (bit_xor a v) (bit_xor a r) (omega (arith, xv)) (omega (arith, xr)) in
    ground (arith, test_bit 7 (bit_and (bit_xor a v) (bit_xor a r)), xv, xr, both)

carry_sum :
    (a v c r : ℕ) (f : Bool)
    → f ≡ ltb 0xff ((a + v + c) % 65536)
    → r ≡ (a + v + c) % 65536 % 256
    → a < 256
    → v < 256
    → c < 2
    → r + 256 * (if f then 1 else 0) ≡ a + v + c
carry_sum a v c r f hf hr ha hv hc = ground arith

borrow_sum :
    (a v b r : ℕ) (f : Bool)
    → f ≡ ltb ((a + 65536 - v - b) % 65536) 0x100
    → r ≡ (a + 65536 - v - b) % 65536 % 256
    → a < 256
    → v < 256
    → b < 2
    → r + v + b ≡ a + 256 * (if f then 0 else 1)
borrow_sum a v b r f hf hr ha hv hb = ground arith

module _ {D : Type 0} where
  pub carry_in-lt : (s : Cpu D) → carry_in s < 2
  unfolding carry_in
  carry_in-lt s = ground arith

  pub a8-lt : (s : Cpu D) → a8 s < 256
  unfolding a8
  a8-lt s = omega (arith, bit_and_low_byte s.c)

  adc_binary_sum :
      (v : ℕ) (s : Cpu D)
      → IsValid s
      → v < 256
      → let t = op_adc_binary v s in
        (a8 t + 256 * carry_in t ≡ a8 s + v + carry_in s)
        × (flag flag_overflow t ≡ add_overflows 128 (a8 s) v (carry_in s))
        × (flag flag_zero t ≡ (a8 t == 0))
        × (flag flag_negative t ≡ leb 128 (a8 t))
        × (t.c / 256 ≡ s.c / 256)
  unfolding op_adc_binary update_nz a8 set_a8 setf carry_in
  adc_binary_sum v s h hv =
      let sum = u16 (a8 s + v + carry_in s) in
      let (acc, high) = a8-set_a8 (u8 sum) s (omega arith) h.c in
      let overflow = has (bit_and (bit_xor (a8 s) (u8 sum)) (bit_xor v (u8 sum))) 0x80 in
      let r = a8 (set_a8 (u8 sum) s) in
      let (fc, fv, fz, fn) =
        flags_binary (has r 0x80) (r == 0) overflow (ltb 0xff sum) (set_a8 (u8 sum) s).c s h.p in
      (
        carry_sum (a8 s) v (carry_in s) _ _ fc acc (a8-lt s) hv (carry_in-lt s),
        fv ∙ add_sign (a8 s) v (carry_in s) (a8-lt s) hv (carry_in-lt s),
        fz,
        fn ∙ sign8 r (omega (arith, acc)),
        high,
      )

  -- ADC with an 8-bit operand outside decimal mode, in a valid state: the new accumulator and carry are the sum
  -- of the accumulator, the operand and the old carry; V tells that the sum of the signed numbers does
  -- not fit eight bits; Z and N are those of the result; the high byte of C is left alone.
  pub op_adc-binary_sum :
      (v : ℕ) (s : Cpu D)
      → IsValid s
      → v < 256
      → flag flag_decimal s ≡ false
      → let t = op_adc v s in
        (a8 t + 256 * carry_in t ≡ a8 s + v + carry_in s)
        × (flag flag_overflow t ≡ add_overflows 128 (a8 s) v (carry_in s))
        × (flag flag_zero t ≡ (a8 t == 0))
        × (flag flag_negative t ≡ leb 128 (a8 t))
        × (t.c / 256 ≡ s.c / 256)
  unfolding op_adc
  op_adc-binary_sum v s h hv binary = rw (binary) (adc_binary_sum v s h hv)

  pub borrow_in-lt : (s : Cpu D) → borrow_in s < 2
  unfolding borrow_in
  borrow_in-lt s = ground arith

  sbc_binary_difference :
      (v : ℕ) (s : Cpu D)
      → IsValid s
      → v < 256
      → let t = op_sbc_binary v s in
        (a8 t + v + borrow_in s ≡ a8 s + 256 * borrow_in t)
        × (flag flag_overflow t ≡ sub_overflows 128 (a8 s) v (borrow_in s))
        × (flag flag_zero t ≡ (a8 t == 0))
        × (flag flag_negative t ≡ leb 128 (a8 t))
        × (t.c / 256 ≡ s.c / 256)
  unfolding op_sbc_binary update_nz a8 set_a8 setf borrow_in
  sbc_binary_difference v s h hv =
      let diff = u16 (a8 s + 65536 - v - borrow_in s) in
      let (acc, high) = a8-set_a8 (u8 diff) s (omega arith) h.c in
      let overflow = has (bit_and (bit_xor (a8 s) v) (bit_xor (a8 s) (u8 diff))) 0x80 in
      let r = a8 (set_a8 (u8 diff) s) in
      let (fc, fv, fz, fn) =
        flags_binary (has r 0x80) (r == 0) overflow (ltb diff 0x100) (set_a8 (u8 diff) s).c s h.p in
      (
        borrow_sum (a8 s) v (borrow_in s) _ _ fc acc (a8-lt s) hv (borrow_in-lt s),
        fv ∙ sub_sign (a8 s) v (borrow_in s) (a8-lt s) hv (borrow_in-lt s),
        fz,
        fn ∙ sign8 r (omega (arith, acc)),
        high,
      )

  -- SBC with an 8-bit operand outside decimal mode, in a valid state: the new accumulator is the accumulator
  -- less the operand and the borrow, the complement of the carry, plus 256 when the new borrow is set;
  -- V tells that the difference of the signed numbers does not fit eight bits; Z and N are those of
  -- the result; the high byte of C is left alone.
  pub op_sbc-binary_difference :
      (v : ℕ) (s : Cpu D)
      → IsValid s
      → v < 256
      → flag flag_decimal s ≡ false
      → let t = op_sbc v s in
        (a8 t + v + borrow_in s ≡ a8 s + 256 * borrow_in t)
        × (flag flag_overflow t ≡ sub_overflows 128 (a8 s) v (borrow_in s))
        × (flag flag_zero t ≡ (a8 t == 0))
        × (flag flag_negative t ≡ leb 128 (a8 t))
        × (t.c / 256 ≡ s.c / 256)
  unfolding op_sbc
  op_sbc-binary_difference v s h hv binary = rw (binary) (sbc_binary_difference v s h hv)

  -- CMP, CPX and CPY of a byte `v` with a register byte `r`, in a valid state: carry is set when `v ≤ r`, Z
  -- when they are equal, and N is the top bit of the difference modulo 256.
  pub op_cmp-compares :
      (r v : ℕ) (s : Cpu D)
      → IsValid s
      → r < 256
      → v < 256
      → let t = op_cmp r v s in
        (flag flag_carry t ≡ leb v r)
        × (flag flag_zero t ≡ (r == v))
        × (flag flag_negative t ≡ leb 128 (u8 (r + 256 - v)))
  unfolding op_cmp update_nz
  op_cmp-compares r v s h hr hv =
      let n = u8 (r + 256 - v) in
      let p1 = setf-lt flag_carry (leb v r) s (omega arith) h.p in
      let p2 = setf-lt flag_zero (n == 0) (setf flag_carry (leb v r) s) (omega arith) p1 in
      let last = λ (j : ℕ) (lt : j < 8).
        flag-setf j 7 (has n 0x80) (setf flag_zero (n == 0) (setf flag_carry (leb v r) s)) lt
          (omega arith) p2 in
      (
        last 0 (omega arith)
            ∙ flag-setf 0 1 (n == 0) (setf flag_carry (leb v r) s) (omega arith) (omega arith) p1
            ∙ flag-setf 0 0 (leb v r) s (omega arith) (omega arith) h.p,
        last 1 (omega arith)
            ∙ flag-setf 1 1 (n == 0) (setf flag_carry (leb v r) s) (omega arith) (omega arith) p1
            ∙ ground arith,
        last 7 (omega arith) ∙ sign8 n (omega arith),
      )
