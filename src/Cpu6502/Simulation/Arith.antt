-- ===== src/Cpu6502/Simulation/Arith.antt =====
-- Binary ADC and SBC of the two cores agree.
use oric2_golden_model.Base.{
  ℕ, ◌+◌, ◌-◌, ◌<◌, bit_and, bit_xor, ◌≡◌, refl, ap, ◌∙◌, Bool, true, arith, ltb, if◌then◌else◌, u8,
  u16, has, bit_xor-lt,
}
use oric2_golden_model.Cpu.State.{Cpu, flag_carry}
use oric2_golden_model.Cpu.Access.{flag, setf, m_is_8bit, a8, set_a8, update_nz}
use oric2_golden_model.Cpu.Alu as Wide
use oric2_golden_model.Cpu.Alu.{op_adc_m, op_sbc_m, carry_in, borrow_in}
use oric2_golden_model.Cpu.Flags.{halves, top_xor, top_and, test_bit}
use oric2_golden_model.Cpu.Valid.Arith.{op_adc_m-IsValid, op_sbc_m-IsValid}
use oric2_golden_model.Cpu6502.Access.{cpu_get_flag, cpu_set_flag}
use oric2_golden_model.Cpu6502.Alu
use oric2_golden_model.Cpu6502.Alu.{sum_overflow, carry, borrow}
use oric2_golden_model.Cpu6502.Simulation.{Binary, view, IsEmulating}
use oric2_golden_model.Cpu6502.Simulation.Alu.{
  framed, low-lt, low_byte_shown, Agrees, Agrees-same, Simulates-act,
}
use oric2_golden_model.Cpu6502.Simulation.Acts.{SimulatesAct}

-- The two ways to write the overflow of a sum.
sum_overflow_lem :
    (a v r : ℕ)
    → a < 256
    → v < 256
    → r < 256
    → sum_overflow a v r ≡ has (bit_and (bit_xor a r) (bit_xor v r)) 0x80
unfolding halves
sum_overflow_lem a v r ha hv hr =
    let xa = top_xor 7 a r (omega arith) (omega arith) in
    let xv = top_xor 7 v r (omega arith) (omega arith) in
    let av = top_xor 7 a v (omega arith) (omega arith) in
    let lt = bit_xor-lt 8 a v ha hv in
    let both = top_and 7 (bit_xor a r) (bit_xor v r) (omega (arith, xa)) (omega (arith, xv)) in
    let both6502 = top_and 7 (255 - bit_xor a v) (bit_xor a r) (omega arith) (omega (arith, xa)) in
    ground (
      arith,
      test_bit 7 (bit_and (bit_xor a r) (bit_xor v r)),
      test_bit 7 (bit_and (255 - bit_xor a v) (bit_xor a r)),
      xa,
      xv,
      av,
      lt,
      both,
      both6502,
    )

module _ {D : Type 0} where
  adc_binary-Agrees :
      (n : ℕ) (s : Cpu D)
      → n < 256
      → IsEmulating s
      → Agrees (λ t. Wide.op_adc_binary (u8 n) t) (Alu.op_adc_binary n) s
  unfolding Wide.op_adc_binary Alu.op_adc_binary update_nz Alu.update_nz a8 set_a8 carry_in carry
      flag cpu_get_flag view setf cpu_set_flag
  adc_binary-Agrees n s lt e =
      let a = bit_and s.c 0xff in
      let kept : n ≡ u8 n = omega arith in
      let c = if has s.p flag_carry then 1 else 0 in
      let r = λ (v : ℕ). u16 (a + v + c) in
      let over : sum_overflow a n (u8 (r n))
          ≡ has (bit_and (bit_xor a (u8 (r (u8 n)))) (bit_xor (u8 n) (u8 (r (u8 n))))) 0x80 =
        sum_overflow_lem a n (u8 (r n)) (low-lt s.c) lt (omega arith)
        ∙ ap (λ v. has (bit_and (bit_xor a (u8 (r v))) (bit_xor v (u8 (r v)))) 0x80) kept in
      let low = low_byte_shown (u8 (r (u8 n))) s (omega arith) e in
      framed refl (λ j.
        let s1 = cpu_set_flag flag_carry (ltb 0xff (r (kept j))) (view s) in
        let s2 = cpu_set_flag 0x40 (over j) s1 in
        let value = (ap (λ v. u8 (r v)) kept ∙ low) j in
        Alu.update_nz value (record s2 { a = value }))

  sbc_binary-Agrees :
      (n : ℕ) (s : Cpu D)
      → n < 256
      → IsEmulating s
      → Agrees (λ t. Wide.op_sbc_binary (u8 n) t) (Alu.op_sbc_binary n) s
  unfolding Wide.op_sbc_binary Alu.op_sbc_binary update_nz Alu.update_nz a8 set_a8 borrow_in borrow
      flag cpu_get_flag view setf cpu_set_flag
  sbc_binary-Agrees n s lt e =
      let a = bit_and s.c 0xff in
      let kept : n ≡ u8 n = omega arith in
      let b = if has s.p flag_carry then 0 else 1 in
      let r = λ (v : ℕ). u16 (a + 65536 - v - b) in
      let low = low_byte_shown (u8 (r (u8 n))) s (omega arith) e in
      framed refl (λ j.
        let s1 = cpu_set_flag flag_carry (ltb (r (kept j)) 0x100) (view s) in
        let s2 =
          cpu_set_flag 0x40 (has (bit_and (bit_xor a (kept j)) (bit_xor a (u8 (r (kept j))))) 0x80)
            s1 in
        let value = (ap (λ v. u8 (r v)) kept ∙ low) j in
        Alu.update_nz value (record s2 { a = value }))

  adc-Agrees :
      (n : ℕ) (s : Cpu D)
      → n < 256
      → IsEmulating s
      → Binary s.p
      → Agrees (op_adc_m n) (Alu.op_adc n) s
  unfolding op_adc_m Wide.op_adc m_is_8bit Alu.op_adc flag cpu_get_flag view
  adc-Agrees n s lt e binary =
      Agrees-same {f' = Wide.op_adc_binary (u8 n)} {g' = Alu.op_adc_binary n}
        (ap
          (λ (b : Bool).
            if b
            then Wide.op_adc_decimal (u8 n) (record s { e = true })
            else Wide.op_adc_binary (u8 n) (record s { e = true }))
          binary)
        (ap
          (λ (b : Bool). if b then Alu.op_adc_decimal n (view s) else Alu.op_adc_binary n (view s))
          binary)
        (adc_binary-Agrees n s lt e)

  sbc-Agrees :
      (n : ℕ) (s : Cpu D)
      → n < 256
      → IsEmulating s
      → Binary s.p
      → Agrees (op_sbc_m n) (Alu.op_sbc n) s
  unfolding op_sbc_m Wide.op_sbc m_is_8bit Alu.op_sbc flag cpu_get_flag view
  sbc-Agrees n s lt e binary =
      Agrees-same {f' = Wide.op_sbc_binary (u8 n)} {g' = Alu.op_sbc_binary n}
        (ap
          (λ (b : Bool).
            if b
            then Wide.op_sbc_decimal (u8 n) (record s { e = true })
            else Wide.op_sbc_binary (u8 n) (record s { e = true }))
          binary)
        (ap
          (λ (b : Bool). if b then Alu.op_sbc_decimal n (view s) else Alu.op_sbc_binary n (view s))
          binary)
        (sbc_binary-Agrees n s lt e)

  pub SimulatesAct-op_adc : SimulatesAct {D = D} Binary op_adc_m Alu.op_adc
  SimulatesAct-op_adc = record {
    for = λ n lt.
        Simulates-act (op_adc_m n) (Alu.op_adc n) (op_adc_m-IsValid n)
          (λ s e binary. adc-Agrees n s lt e binary);
  }

  pub SimulatesAct-op_sbc : SimulatesAct {D = D} Binary op_sbc_m Alu.op_sbc
  SimulatesAct-op_sbc = record {
    for = λ n lt.
        Simulates-act (op_sbc_m n) (Alu.op_sbc n) (op_sbc_m-IsValid n)
          (λ s e binary. sbc-Agrees n s lt e binary);
  }
