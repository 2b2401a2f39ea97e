-- ===== src/Cpu6502/Simulation/Acts.antt =====
-- What the opcodes do with their operands agrees between the two cores.
use oric2_golden_model.Base.{
  ℕ, ◌<◌, bit_and, bit_or, bit_xor, ◌≡◌, refl, arith, u8, bit_and-le, bit_or_byte, bit_xor-lt,
}
use oric2_golden_model.Cpu.State
use oric2_golden_model.Cpu.State.{Cpu, M, flag_carry, flag_decimal, flag_zero}
use oric2_golden_model.Cpu.Access.{setf, m_is_8bit, x_is_8bit, update_nz, a_get_m, x_get_x, y_get_x}
use oric2_golden_model.Cpu.Alu as Wide
use oric2_golden_model.Cpu.Alu.{
  load_a, load_x, load_y, and_a, or_a, xor_a, cmp_a, cmp_x, cmp_y, bit_a, op_cmp_m, op_cmp_x,
}
use oric2_golden_model.Cpu.Valid.{Any}
use oric2_golden_model.Cpu.Valid.Alu.{load_a-IsValid, load_x-IsValid, load_y-IsValid}
use oric2_golden_model.Cpu.Valid.Arith.{
  and_a-IsValid, or_a-IsValid, xor_a-IsValid, cmp_a-IsValid, cmp_x-IsValid, cmp_y-IsValid,
  bit_a-IsValid,
}
use oric2_golden_model.Cpu6502
use oric2_golden_model.Cpu6502.{Cpu6502, N}
use oric2_golden_model.Cpu6502.Access.{cpu_set_flag}
use oric2_golden_model.Cpu6502.Alu
use oric2_golden_model.Cpu6502.Alu.{lda, ldx, ldy, bit}
use oric2_golden_model.Cpu6502.Simulation.{Always, view, IsEmulating, Simulates}
use oric2_golden_model.Cpu6502.Simulation.Alu.{
  low-lt, load_a-Agrees, load_x-Agrees, load_y-Agrees, Agrees, framed, Simulates-act,
}

module _ {D : Type 0} where
  and_a-Agrees :
      (n : ℕ) (s : Cpu D)
      → n < 256
      → IsEmulating s
      → Agrees (and_a n) (λ t. lda (bit_and t.a n) t) s
  unfolding and_a a_get_m m_is_8bit view
  and_a-Agrees n s lt e =
      let h =
        load_a-Agrees (bit_and (bit_and s.c 0xff) n) s
          (omega
            (arith, bit_and-le (bit_and s.c 0xff) n, bit_and-le n (bit_and s.c 0xff), low-lt s.c))
          e in
      record { e = h.e; pbr = h.pbr; stopped = h.stopped; waiting = h.waiting; same = h.same }

  or_a-Agrees :
      (n : ℕ) (s : Cpu D) → n < 256 → IsEmulating s → Agrees (or_a n) (λ t. lda (bit_or t.a n) t) s
  unfolding or_a a_get_m m_is_8bit view
  or_a-Agrees n s lt e =
      let h =
        load_a-Agrees (bit_or (bit_and s.c 0xff) n) s
          (bit_or_byte (bit_and s.c 0xff) n (low-lt s.c) lt) e in
      record { e = h.e; pbr = h.pbr; stopped = h.stopped; waiting = h.waiting; same = h.same }

  xor_a-Agrees :
      (n : ℕ) (s : Cpu D)
      → n < 256
      → IsEmulating s
      → Agrees (xor_a n) (λ t. lda (bit_xor t.a n) t) s
  unfolding xor_a a_get_m m_is_8bit view
  xor_a-Agrees n s lt e =
      let h =
        load_a-Agrees (bit_xor (bit_and s.c 0xff) n) s
          (bit_xor-lt 8 (bit_and s.c 0xff) n (low-lt s.c) lt) e in
      record { e = h.e; pbr = h.pbr; stopped = h.stopped; waiting = h.waiting; same = h.same }

  -- Comparisons.
  cmp_a-Agrees : (n : ℕ) (s : Cpu D) → n < 256 → Agrees (cmp_a n) (λ t. Alu.op_cmp t.a n t) s
  unfolding cmp_a op_cmp_m Wide.op_cmp Alu.op_cmp update_nz Alu.update_nz a_get_m m_is_8bit view
      setf cpu_set_flag
  cmp_a-Agrees n s lt =
      let kept : n ≡ u8 n = omega arith in
      let low : bit_and s.c 0xff ≡ u8 (bit_and s.c 0xff) = omega (arith, low-lt s.c) in
      framed refl (λ j. Alu.op_cmp (low j) (kept j) (view s))

  cmp_x-Agrees : (n : ℕ) (s : Cpu D) → n < 256 → Agrees (cmp_x n) (λ t. Alu.op_cmp t.x n t) s
  unfolding cmp_x op_cmp_x Wide.op_cmp Alu.op_cmp update_nz Alu.update_nz x_get_x x_is_8bit view
      setf cpu_set_flag
  cmp_x-Agrees n s lt =
      let kept : n ≡ u8 n = omega arith in
      let low : bit_and s.x 0xff ≡ u8 (bit_and s.x 0xff) = omega (arith, low-lt s.x) in
      framed refl (λ j. Alu.op_cmp (low j) (kept j) (view s))

  cmp_y-Agrees : (n : ℕ) (s : Cpu D) → n < 256 → Agrees (cmp_y n) (λ t. Alu.op_cmp t.y n t) s
  unfolding cmp_y op_cmp_x Wide.op_cmp Alu.op_cmp update_nz Alu.update_nz y_get_x x_is_8bit view
      setf cpu_set_flag
  cmp_y-Agrees n s lt =
      let kept : n ≡ u8 n = omega arith in
      let low : bit_and s.y 0xff ≡ u8 (bit_and s.y 0xff) = omega (arith, low-lt s.y) in
      framed refl (λ j. Alu.op_cmp (low j) (kept j) (view s))

  bit_a-Agrees : (n : ℕ) (s : Cpu D) → Agrees (bit_a n) (bit n) s
  unfolding bit_a bit a_get_m m_is_8bit view setf cpu_set_flag
  bit_a-Agrees n s = framed refl refl

  -- What an opcode does with its operand.
  pub record SimulatesAct (I : ℕ → Type 0) (f : ℕ → Cpu D → Cpu D) (g : ℕ → Cpu6502 D → Cpu6502 D)
      : Type 0 where
    pub for : (n : ℕ) → n < 256 → Simulates I Always Any (State.modify (f n)) (Cpu6502.modify (g n))

  module _ {I : ℕ → Type 0} where
    pub SimulatesAct-load_a : SimulatesAct I load_a lda
    SimulatesAct-load_a = record {
      for = λ n lt.
          Simulates-act (load_a n) (lda n) (λ s. load_a-IsValid n s (omega arith))
            (λ s e _. load_a-Agrees n s lt e);
    }

    pub SimulatesAct-load_x : SimulatesAct I load_x ldx
    SimulatesAct-load_x = record {
      for = λ n lt.
          Simulates-act (load_x n) (ldx n) (λ s. load_x-IsValid n s (omega arith))
            (λ s _ _. load_x-Agrees n s lt);
    }

    pub SimulatesAct-load_y : SimulatesAct I load_y ldy
    SimulatesAct-load_y = record {
      for = λ n lt.
          Simulates-act (load_y n) (ldy n) (λ s. load_y-IsValid n s (omega arith))
            (λ s _ _. load_y-Agrees n s lt);
    }

    pub SimulatesAct-and_a : SimulatesAct I and_a (λ v s. lda (bit_and s.a v) s)
    SimulatesAct-and_a = record {
      for = λ n lt.
          Simulates-act (and_a n) (λ s. lda (bit_and s.a n) s)
            (λ s. and_a-IsValid n s (omega arith)) (λ s e _. and_a-Agrees n s lt e);
    }

    pub SimulatesAct-or_a : SimulatesAct I or_a (λ v s. lda (bit_or s.a v) s)
    SimulatesAct-or_a = record {
      for = λ n lt.
          Simulates-act (or_a n) (λ s. lda (bit_or s.a n) s) (λ s. or_a-IsValid n s (omega arith))
            (λ s e _. or_a-Agrees n s lt e);
    }

    pub SimulatesAct-xor_a : SimulatesAct I xor_a (λ v s. lda (bit_xor s.a v) s)
    SimulatesAct-xor_a = record {
      for = λ n lt.
          Simulates-act (xor_a n) (λ s. lda (bit_xor s.a n) s)
            (λ s. xor_a-IsValid n s (omega arith)) (λ s e _. xor_a-Agrees n s lt e);
    }

    pub SimulatesAct-cmp_a : SimulatesAct I cmp_a (λ v s. Alu.op_cmp s.a v s)
    SimulatesAct-cmp_a = record {
      for = λ n lt.
          Simulates-act (cmp_a n) (λ s. Alu.op_cmp s.a n s) (cmp_a-IsValid n)
            (λ s _ _. cmp_a-Agrees n s lt);
    }

    pub SimulatesAct-cmp_x : SimulatesAct I cmp_x (λ v s. Alu.op_cmp s.x v s)
    SimulatesAct-cmp_x = record {
      for = λ n lt.
          Simulates-act (cmp_x n) (λ s. Alu.op_cmp s.x n s) (cmp_x-IsValid n)
            (λ s _ _. cmp_x-Agrees n s lt);
    }

    pub SimulatesAct-cmp_y : SimulatesAct I cmp_y (λ v s. Alu.op_cmp s.y v s)
    SimulatesAct-cmp_y = record {
      for = λ n lt.
          Simulates-act (cmp_y n) (λ s. Alu.op_cmp s.y n s) (cmp_y-IsValid n)
            (λ s _ _. cmp_y-Agrees n s lt);
    }

    pub SimulatesAct-bit_a : SimulatesAct I bit_a bit
    SimulatesAct-bit_a = record {
      for = λ n lt. Simulates-act (bit_a n) (bit n) (bit_a-IsValid n) (λ s _ _. bit_a-Agrees n s);
    }
