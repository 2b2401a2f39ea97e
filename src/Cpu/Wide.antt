-- ===== src/Cpu/Wide.antt =====
-- `op_adc_M` and `op_sbc_M` with a 16-bit accumulator, outside decimal mode, against arithmetic on
-- numbers.
use oric2_golden_model.Base.{
  ℕ, ◌+◌, ◌-◌, ◌*◌, ◌/◌, ◌%◌, ◌<◌, bit_and, bit_or, bit_xor, ◌≡◌, refl, sym, ap, ◌∙◌, Bool, true,
  false, ◌&&◌, ◌||◌, arith, ltb, leb, ◌==◌, bool_eq, if◌then◌else◌, all_below, all_below_sound, u16,
  u32, has,
}
use Prim.Native.Nat.{min}
use mathlib.Core.Bool.{false≢true}
use oric2_golden_model.Cpu.State.{
  flag_carry, flag_zero, flag_decimal, flag_overflow, flag_negative, Cpu,
}
use oric2_golden_model.Cpu.Access.{flag, setf, m_is_8bit, update_nz16, update_nz_m}
use oric2_golden_model.Cpu.Alu.{carry_in, borrow_in, op_adc16, op_sbc16, op_adc_m, op_sbc_m}
use oric2_golden_model.Cpu.Flags.{halves, top_xor, top_and, test_bit, flag-setf, sign16, setf-lt}
use oric2_golden_model.Cpu.Arithmetic.{add_overflows, sub_overflows, carry_in-lt, borrow_in-lt}
use oric2_golden_model.Cpu.Valid.{IsValid}

top_bit : (x : ℕ) → halves 15 x ≡ x / 32768
unfolding halves
top_bit x = omega arith

test_top : (x b : ℕ) → halves 15 x ≡ b → b < 2 → has x 0x8000 ≡ (b == 1)
test_top x b e h = ground (arith, test_bit 15 x, e)

-- The overflow test of the source on the top bits of the numbers and of the result.
both_differ :
    (a b c d : ℕ)
    → a < 65536
    → b < 65536
    → c < 65536
    → d < 65536
    → has (bit_and (bit_xor a b) (bit_xor c d)) 0x8000
      ≡ (min ((a / 32768 + b / 32768) % 2) ((c / 32768 + d / 32768) % 2) == 1)
both_differ a b c d ha hb hc hd =
    let xl = top_xor 15 a b (omega (arith, top_bit a)) (omega (arith, top_bit b)) in
    let xr = top_xor 15 c d (omega (arith, top_bit c)) (omega (arith, top_bit d)) in
    let both = top_and 15 (bit_xor a b) (bit_xor c d) (omega (arith, xl)) (omega (arith, xr)) in
    test_top (bit_and (bit_xor a b) (bit_xor c d)) _
      (omega (arith, both, xl, xr, top_bit a, top_bit b, top_bit c, top_bit d)) (omega arith)

add_sign :
    (a v c : ℕ)
    → a < 65536
    → v < 65536
    → c < 2
    → let r = (a + v + c) % 4294967296 % 65536 in
      (min ((a / 32768 + r / 32768) % 2) ((v / 32768 + r / 32768) % 2) == 1)
      ≡ add_overflows 32768 a v c
add_sign a v c ha hv hc = ground arith

sub_sign :
    (a v b : ℕ)
    → a < 65536
    → v < 65536
    → b < 2
    → let r = (a + 4294967296 - v - b) % 4294967296 % 65536 in
      (min ((a / 32768 + v / 32768) % 2) ((a / 32768 + r / 32768) % 2) == 1)
      ≡ sub_overflows 32768 a v b
sub_sign a v b ha hv hb = ground arith

carry_sum :
    (a v c r : ℕ) (f : Bool)
    → f ≡ ltb 0xffff ((a + v + c) % 4294967296)
    → r ≡ (a + v + c) % 4294967296 % 65536
    → a < 65536
    → v < 65536
    → c < 2
    → r + 65536 * (if f then 1 else 0) ≡ a + v + c
carry_sum a v c r f hf hr ha hv hc = ground arith

borrow_sum :
    (a v b r : ℕ) (f : Bool)
    → f ≡ ltb ((a + 4294967296 - v - b) % 4294967296) 0x10000
    → r ≡ (a + 4294967296 - v - b) % 4294967296 % 65536
    → a < 65536
    → v < 65536
    → b < 2
    → r + v + b ≡ a + 65536 * (if f then 0 else 1)
borrow_sum a v b r f hf hr ha hv hb = ground arith

-- N and Z of a 16-bit result in a flag byte.
abbrev nz_byte : Bool → Bool → ℕ → ℕ
nz_byte zero_flag negative p =
    let p1 = if zero_flag then bit_or (bit_and p 125) flag_zero else bit_and p 125 in
    if negative then bit_or p1 flag_negative else p1

abbrev nz_bits : Bool → Bool → ℕ → Bool
nz_bits zero_flag negative p =
    let q = nz_byte zero_flag negative p in
    bool_eq (has q flag_carry) (has p flag_carry)
    && (bool_eq (has q flag_overflow) (has p flag_overflow)
        && (bool_eq (has q flag_zero) zero_flag && bool_eq (has q flag_negative) negative))

nz_table :
    all_below 256 (λ p.
      nz_bits true true p
      && (nz_bits true false p && (nz_bits false true p && nz_bits false false p)))
    ≡ true
unfolding all_below
nz_table = refl

and_parts : (x y : Bool) → (x && y) ≡ true → (x ≡ true) × (y ≡ true)
and_parts true y h = (refl, h)
and_parts false y h = absurd (false≢true h)

nz_cases :
    (zero_flag negative : Bool) (p : ℕ)
    → (nz_bits true true p
        && (nz_bits true false p && (nz_bits false true p && nz_bits false false p)))
      ≡ true
    → nz_bits zero_flag negative p ≡ true
nz_cases true true p h = (and_parts (nz_bits true true p) _ h).0
nz_cases true false p h =
    (and_parts (nz_bits true false p) _ (and_parts (nz_bits true true p) _ h).1).0
nz_cases false true p h =
    let rest = (and_parts (nz_bits true false p) _ (and_parts (nz_bits true true p) _ h).1).1 in
    (and_parts (nz_bits false true p) _ rest).0
nz_cases false false p h =
    let rest = (and_parts (nz_bits true false p) _ (and_parts (nz_bits true true p) _ h).1).1 in
    (and_parts (nz_bits false true p) _ rest).1

nz_lem : (zero_flag negative : Bool) (p : ℕ) → p < 256 → nz_bits zero_flag negative p ≡ true
nz_lem zero_flag negative p h =
    let row =
      all_below_sound 256
        (λ p.
          nz_bits true true p
          && (nz_bits true false p && (nz_bits false true p && nz_bits false false p)))
        p nz_table h in
    nz_cases zero_flag negative p row

module _ {D : Type 0} where
  -- The flags of a 16-bit result, with the register written before.
  wide_flags :
      (res : ℕ) (t : Cpu D)
      → m_is_8bit t ≡ false
      → t.p < 256
      → res < 65536
      → let w = update_nz_m res t in
        (flag flag_carry w ≡ flag flag_carry t)
        × (flag flag_overflow w ≡ flag flag_overflow t)
        × (flag flag_zero w ≡ (res == 0))
        × (flag flag_negative w ≡ leb 32768 res)
        × (w.c ≡ t.c)
  unfolding update_nz_m update_nz16 flag
  wide_flags res t wide hp hr =
      rw (wide) (ground (arith, nz_lem (res == 0) (has res 0x8000) t.p hp, sign16 res hr))

  -- The width of the accumulator, and C and V, behind the two flags that the sums set.
  wide_kept :
      (v c : Bool) (r : ℕ) (s : Cpu D)
      → s.p < 256
      → let t : Cpu D = record (setf flag_overflow v (setf flag_carry c s)) { c = r } in
        (m_is_8bit t ≡ m_is_8bit s)
        × (flag flag_carry t ≡ c)
        × (flag flag_overflow t ≡ v)
        × (t.p < 256)
  unfolding m_is_8bit flag setf
  wide_kept v c r s hp =
      let s1 = setf flag_carry c s in
      let p1 = setf-lt flag_carry c s (omega arith) hp in
      let second = λ (j : ℕ) (h : j < 8). flag-setf j 6 v s1 h (omega arith) p1 in
      (
        ap (λ f. s.e || f)
            (second 5 (omega arith) ∙ flag-setf 5 0 c s (omega arith) (omega arith) hp),
        second 0 (omega arith) ∙ flag-setf 0 0 c s (omega arith) (omega arith) hp,
        second 6 (omega arith),
        setf-lt flag_overflow v s1 (omega arith) p1,
      )

  adc16_sum :
      (v : ℕ) (s : Cpu D)
      → IsValid s
      → v < 65536
      → m_is_8bit s ≡ false
      → let t = op_adc16 v s in
        (t.c + 65536 * carry_in t ≡ s.c + v + carry_in s)
        × (flag flag_overflow t ≡ add_overflows 32768 s.c v (carry_in s))
        × (flag flag_zero t ≡ (t.c == 0))
        × (flag flag_negative t ≡ leb 32768 t.c)
  unfolding op_adc16 carry_in
  adc16_sum v s h hv wide =
      let sum = u32 (s.c + v + carry_in s) in
      let res = u16 sum in
      let overflow = has (bit_and (bit_xor s.c res) (bit_xor v res)) 0x8000 in
      let t : Cpu D = record (setf flag_overflow overflow (setf flag_carry (ltb 0xffff sum) s)) {
        c = res;
      } in
      let (width, fc, fv, byte) = wide_kept overflow (ltb 0xffff sum) res s h.p in
      let (wc, wv, wz, wn, acc) = wide_flags res t (width ∙ wide) byte (omega arith) in
      (
        carry_sum s.c v (carry_in s) _ _ (wc ∙ fc) acc h.c hv (carry_in-lt s),
        wv
            ∙ fv
            ∙ both_differ s.c res v res h.c (omega arith) hv (omega arith)
            ∙ add_sign s.c v (carry_in s) h.c hv (carry_in-lt s),
        wz ∙ ap (λ (x : ℕ). x == 0) (sym acc),
        wn ∙ ap (leb 32768) (sym acc),
      )

  -- ADC with a 16-bit accumulator outside decimal mode, in a valid state: C and the carry are the sum of C, the
  -- operand and the old carry; V tells that the sum of the signed numbers does not fit 16 bits; Z and
  -- N are those of the result.
  pub op_adc_m-wide_sum :
      (v : ℕ) (s : Cpu D)
      → IsValid s
      → v < 65536
      → m_is_8bit s ≡ false
      → flag flag_decimal s ≡ false
      → let t = op_adc_m v s in
        (t.c + 65536 * carry_in t ≡ s.c + v + carry_in s)
        × (flag flag_overflow t ≡ add_overflows 32768 s.c v (carry_in s))
        × (flag flag_zero t ≡ (t.c == 0))
        × (flag flag_negative t ≡ leb 32768 t.c)
  unfolding op_adc_m
  op_adc_m-wide_sum v s h hv wide binary = rw (wide, binary) (adc16_sum v s h hv wide)

  sbc16_difference :
      (v : ℕ) (s : Cpu D)
      → IsValid s
      → v < 65536
      → m_is_8bit s ≡ false
      → let t = op_sbc16 v s in
        (t.c + v + borrow_in s ≡ s.c + 65536 * borrow_in t)
        × (flag flag_overflow t ≡ sub_overflows 32768 s.c v (borrow_in s))
        × (flag flag_zero t ≡ (t.c == 0))
        × (flag flag_negative t ≡ leb 32768 t.c)
  unfolding op_sbc16 borrow_in
  sbc16_difference v s h hv wide =
      let diff = u32 (s.c + 4294967296 - v - borrow_in s) in
      let res = u16 diff in
      let overflow = has (bit_and (bit_xor s.c v) (bit_xor s.c res)) 0x8000 in
      let t : Cpu D = record (setf flag_overflow overflow (setf flag_carry (ltb diff 0x10000) s)) {
        c = res;
      } in
      let (width, fc, fv, byte) = wide_kept overflow (ltb diff 0x10000) res s h.p in
      let (wc, wv, wz, wn, acc) = wide_flags res t (width ∙ wide) byte (omega arith) in
      (
        borrow_sum s.c v (borrow_in s) _ _ (wc ∙ fc) acc h.c hv (borrow_in-lt s),
        wv
            ∙ fv
            ∙ both_differ s.c v s.c res h.c hv h.c (omega arith)
            ∙ sub_sign s.c v (borrow_in s) h.c hv (borrow_in-lt s),
        wz ∙ ap (λ (x : ℕ). x == 0) (sym acc),
        wn ∙ ap (leb 32768) (sym acc),
      )

  -- SBC with a 16-bit accumulator outside decimal mode, in a valid state: C is the old C less the operand and
  -- the borrow, plus 65536 when the new borrow is set; V tells that the difference of the signed
  -- numbers does not fit 16 bits; Z and N are those of the result.
  pub op_sbc_m-wide_difference :
      (v : ℕ) (s : Cpu D)
      → IsValid s
      → v < 65536
      → m_is_8bit s ≡ false
      → flag flag_decimal s ≡ false
      → let t = op_sbc_m v s in
        (t.c + v + borrow_in s ≡ s.c + 65536 * borrow_in t)
        × (flag flag_overflow t ≡ sub_overflows 32768 s.c v (borrow_in s))
        × (flag flag_zero t ≡ (t.c == 0))
        × (flag flag_negative t ≡ leb 32768 t.c)
  unfolding op_sbc_m
  op_sbc_m-wide_difference v s h hv wide binary = rw (wide, binary) (sbc16_difference v s h hv wide)
