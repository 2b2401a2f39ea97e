-- ===== src/Cpu6502/Simulation/Shapes.antt =====
-- The shapes of the cases of the two switches agree.
use oric2_golden_model.Base.{ℕ, ◌+◌, ◌<◌, ◌≡◌, refl, ap, Bool, true, arith, u8}
use mathlib.Core.Path.{subst}
use oric2_golden_model.Cpu.State
use oric2_golden_model.Cpu.State.{Cpu, M, flag_break, flag_unused}
use oric2_golden_model.Cpu.Access.{
  m_is_8bit, x_is_8bit, update_nz, setf, read_m, read_x, read_sized, write_m, write_x, write_sized,
  fetch_imm, fetch_imm_m, fetch_imm_x, m_extra_cycle, x_extra_cycle,
}
use oric2_golden_model.Cpu.Exec.Shapes as Wide
use oric2_golden_model.Cpu.Exec.Shapes.{
  page_extra, on_m, on_imm_m, on_x, on_imm_x, store_m, store_x, rmw, on_regs,
}
use oric2_golden_model.Cpu.Valid.{Any, Byte, Word, Address}
use oric2_golden_model.Cpu.Valid.Alu.{update_nz-IsValid}
use oric2_golden_model.Cpu6502
use oric2_golden_model.Cpu6502.{Cpu6502, N}
use oric2_golden_model.Cpu6502.Access.{
  cpu_mem_read, cpu_mem_write, cpu_fetch_byte, addr_immediate, cpu_set_flag,
}
use oric2_golden_model.Cpu6502.Alu
use oric2_golden_model.Cpu6502.Exec.Shapes
use oric2_golden_model.Cpu6502.Exec.Shapes.{crossing, on_operand, store, change_byte, on_registers}
use oric2_golden_model.Cpu6502.Simulation.{
  Binary, Always, view, IsEmulating, Simulates, Simulates-bind, Simulates-pure, Simulates-look,
}
use oric2_golden_model.Cpu6502.Simulation.Access.{
  Simulates-mem_read, Simulates-mem_write, Simulates-fetch_byte,
}
use oric2_golden_model.Cpu6502.Simulation.Alu.{framed, Simulates-act}
use oric2_golden_model.Cpu6502.Simulation.Acts.{SimulatesAct}
use oric2_golden_model.Cpu6502.Simulation.Changes.{SimulatesChange, SimulatesRegs}

module _ {D : Type 0} where
  pub m_short : (s : Cpu D) → IsEmulating s → m_is_8bit s ≡ true
  unfolding m_is_8bit
  m_short s e = ground (arith, e.emulates)

  x_short : (s : Cpu D) → IsEmulating s → x_is_8bit s ≡ true
  unfolding x_is_8bit
  x_short s e = ground (arith, e.emulates)

  pub m_no_extra : (s : Cpu D) → IsEmulating s → m_extra_cycle s ≡ 0
  unfolding m_extra_cycle
  m_no_extra s e = ground (arith, m_short s e)

  x_no_extra : (s : Cpu D) → IsEmulating s → x_extra_cycle s ≡ 0
  unfolding x_extra_cycle
  x_no_extra s e = ground (arith, x_short s e)

  module _ {A : Type 0} {I J : ℕ → Type 0} {P : A → Type 0} where
    -- A last step that gives the result on.
    pub Simulates-end :
        {m : M D A} {n : N D A}
        → Simulates I J P m n
        → Simulates I J P (State.◌>>=◌ m (State.pure {A = A})) n
    unfolding State.◌>>=◌ State.pure
    Simulates-end h = record { at = h.at }

    pub Simulates-end_view :
        {m : M D A} {n : N D A}
        → Simulates I J P m (Cpu6502.◌>>=◌ n (Cpu6502.pure {A = A}))
        → Simulates I J P m n
    unfolding Cpu6502.◌>>=◌ Cpu6502.pure
    Simulates-end_view h = record { at = h.at }

    -- What holds from any status byte holds from a binary one.
    pub Simulates-from_always :
        {m : M D A} {n : N D A} → Simulates Always J P m n → Simulates I J P m n
    Simulates-from_always h = record { at = λ s e i. h.at s e tt }

  pub Simulates-cycles :
      {I : ℕ → Type 0} (a b : ℕ) → b ≡ a → Simulates {D = D} I I Any (State.pure a) (Cpu6502.pure b)
  unfolding State.pure Cpu6502.pure
  Simulates-cycles a b same = record { at = λ s e i. (e, i, tt, ap (λ n. (n, view s)) same) }

  -- A case of the 65C816's switch against one of the 6502's.
  pub record SimulatesCase (act : Wide.Action D) (act6502 : Shapes.Action D) : Type 0 where
    pub for : (cycles : ℕ) → Simulates Binary Always Any (act cycles) (act6502 cycles)

  module _ {I : ℕ → Type 0} where
    Simulates-read_sized :
        (is_8bit : Cpu D → Bool) (a : ℕ)
        → ((s : Cpu D) → IsEmulating s → is_8bit s ≡ true)
        → Simulates I I Byte (read_sized is_8bit a) (cpu_mem_read a)
    unfolding read_sized
    Simulates-read_sized is_8bit a short =
        Simulates-look is_8bit true _ short (Simulates-end (Simulates-mem_read a))

    pub Simulates-fetch_imm :
        (is_8bit : Cpu D → Bool)
        → ((s : Cpu D) → IsEmulating s → is_8bit s ≡ true)
        → Simulates I I Byte (fetch_imm is_8bit) cpu_fetch_byte
    unfolding fetch_imm
    Simulates-fetch_imm is_8bit short = Simulates-look is_8bit true _ short Simulates-fetch_byte

    Simulates-write_sized :
        (is_8bit : Cpu D → Bool) (a v : ℕ)
        → v < 256
        → ((s : Cpu D) → IsEmulating s → is_8bit s ≡ true)
        → Simulates I I Any (write_sized is_8bit a v) (cpu_mem_write a v)
    unfolding write_sized
    Simulates-write_sized is_8bit a v lt short =
        let kept : u8 v ≡ v = omega arith in
        Simulates-end_view (
          subst
            (λ w.
              Simulates I I Any (write_sized is_8bit a v)
                (Cpu6502.◌>>=◌ (cpu_mem_write a w) Cpu6502.pure))
            kept
            (Simulates-bind (Simulates-mem_write a (u8 v))
              λ _ _. Simulates-look is_8bit true _ short (Simulates-pure tt tt)))

  -- The operand is at an address.
  Simulates-operand :
      {I : ℕ → Type 0} {mode : M D (ℕ × Bool)} {mode6502 : N D (ℕ × Bool)} {act : ℕ → Cpu D → Cpu D}
      {act6502 : ℕ → Cpu6502 D → Cpu6502 D} (read : ℕ → M D ℕ) (extra : Cpu D → ℕ) (cycles : ℕ)
      → ((a : ℕ) → Simulates I I Byte (read a) (cpu_mem_read a))
      → ((s : Cpu D) → IsEmulating s → extra s ≡ 0)
      → Simulates I I Address mode mode6502
      → SimulatesAct I act act6502
      → Simulates I Always Any
          (State.◌>>=◌ mode λ at. State.◌>>=◌ (read at.0) λ v.
            State.◌>>=◌
              (State.modify (act v))
              λ _. State.◌>>=◌ (State.gets extra) λ n. State.pure (cycles + page_extra at.1 + n))
          (on_operand mode6502 act6502 cycles)
  unfolding on_operand page_extra
  Simulates-operand read extra cycles reads no_extra hm ha = Simulates-bind hm λ at _.
      Simulates-bind (reads at.0) λ v lt. Simulates-bind (ha.for v lt) λ _ _.
        Simulates-look extra 0 _ no_extra
          (Simulates-cycles (cycles + page_extra at.1 + 0) (cycles + crossing at.1) (omega arith))

  pub SimulatesCase-on_m :
      {mode : M D (ℕ × Bool)} {mode6502 : N D (ℕ × Bool)} {act : ℕ → Cpu D → Cpu D}
      {act6502 : ℕ → Cpu6502 D → Cpu6502 D}
      → Simulates Binary Binary Address mode mode6502
      → SimulatesAct Binary act act6502
      → SimulatesCase (on_m mode act) (on_operand mode6502 act6502)
  unfolding on_m read_m
  SimulatesCase-on_m hm ha = record {
    for = λ n.
        Simulates-operand read_m m_extra_cycle n (λ a. Simulates-read_sized m_is_8bit a m_short)
          m_no_extra hm ha;
  }

  pub SimulatesCase-on_x :
      {mode : M D (ℕ × Bool)} {mode6502 : N D (ℕ × Bool)} {act : ℕ → Cpu D → Cpu D}
      {act6502 : ℕ → Cpu6502 D → Cpu6502 D}
      → Simulates Binary Binary Address mode mode6502
      → SimulatesAct Binary act act6502
      → SimulatesCase (on_x mode act) (on_operand mode6502 act6502)
  unfolding on_x read_x
  SimulatesCase-on_x hm ha = record {
    for = λ n.
        Simulates-operand read_x x_extra_cycle n (λ a. Simulates-read_sized x_is_8bit a x_short)
          x_no_extra hm ha;
  }

  -- The operand is the next byte.
  pub Simulates-immediate :
      {I : ℕ → Type 0} {m : M D ℕ} (act6502 : ℕ → Cpu6502 D → Cpu6502 D) (cycles : ℕ)
      → Simulates I Always Any m (
          Cpu6502.◌>>=◌ cpu_fetch_byte
            λ v. Cpu6502.◌>>=◌ (Cpu6502.modify (act6502 v)) λ _. Cpu6502.pure (cycles + 0))
      → Simulates I Always Any m (on_operand (Shapes.plain addr_immediate) act6502 cycles)
  unfolding on_operand cpu_fetch_byte Cpu6502.◌>>=◌ Cpu6502.pure
  Simulates-immediate act6502 cycles h = record { at = h.at }

  Simulates-next_byte :
      {I : ℕ → Type 0} {act : ℕ → Cpu D → Cpu D} {act6502 : ℕ → Cpu6502 D → Cpu6502 D}
      (is_8bit : Cpu D → Bool) (extra : Cpu D → ℕ) (cycles : ℕ)
      → ((s : Cpu D) → IsEmulating s → is_8bit s ≡ true)
      → ((s : Cpu D) → IsEmulating s → extra s ≡ 0)
      → SimulatesAct I act act6502
      → Simulates I Always Any
          (State.◌>>=◌ (fetch_imm is_8bit) λ v.
            State.◌>>=◌
              (State.modify (act v))
              λ _. State.◌>>=◌ (State.gets extra) λ n. State.pure (cycles + n))
          (on_operand (Shapes.plain addr_immediate) act6502 cycles)
  Simulates-next_byte is_8bit extra cycles short no_extra ha = Simulates-immediate _ cycles (
      Simulates-bind (Simulates-fetch_imm is_8bit short) λ v lt.
        Simulates-bind (ha.for v lt) λ _ _.
          Simulates-look extra 0 _ no_extra (Simulates-cycles (cycles + 0) (cycles + 0) refl))

  pub SimulatesCase-on_imm_m :
      {act : ℕ → Cpu D → Cpu D} {act6502 : ℕ → Cpu6502 D → Cpu6502 D}
      → SimulatesAct Binary act act6502
      → SimulatesCase (on_imm_m act) (on_operand (Shapes.plain addr_immediate) act6502)
  unfolding on_imm_m fetch_imm_m
  SimulatesCase-on_imm_m ha = record {
    for = λ n. Simulates-next_byte m_is_8bit m_extra_cycle n m_short m_no_extra ha;
  }

  pub SimulatesCase-on_imm_x :
      {act : ℕ → Cpu D → Cpu D} {act6502 : ℕ → Cpu6502 D → Cpu6502 D}
      → SimulatesAct Binary act act6502
      → SimulatesCase (on_imm_x act) (on_operand (Shapes.plain addr_immediate) act6502)
  unfolding on_imm_x fetch_imm_x
  SimulatesCase-on_imm_x ha = record {
    for = λ n. Simulates-next_byte x_is_8bit x_extra_cycle n x_short x_no_extra ha;
  }

  -- A register of one byte.
  pub record SimulatesReg (reg : Cpu D → ℕ) (reg6502 : Cpu6502 D → ℕ) : Type 0 where
    pub read : Simulates Always Always Byte (State.gets reg) (Cpu6502.gets reg6502)

  -- Stores.
  Simulates-stores :
      {mode : M D ℕ} {mode6502 : N D ℕ} {reg : Cpu D → ℕ} {reg6502 : Cpu6502 D → ℕ}
      (is_8bit : Cpu D → Bool) (extra : Cpu D → ℕ) (cycles : ℕ)
      → ((s : Cpu D) → IsEmulating s → is_8bit s ≡ true)
      → ((s : Cpu D) → IsEmulating s → extra s ≡ 0)
      → Simulates Always Always Word mode mode6502
      → SimulatesReg reg reg6502
      → Simulates Always Always Any
          (State.◌>>=◌ mode λ a. State.◌>>=◌ (State.gets reg) λ v.
            State.◌>>=◌
              (write_sized is_8bit a v)
              λ _. State.◌>>=◌ (State.gets extra) λ n. State.pure (cycles + n))
          (store mode6502 reg6502 cycles)
  unfolding store
  Simulates-stores is_8bit extra cycles short no_extra hm hr = Simulates-bind hm λ a _.
      Simulates-bind hr.read λ v lt.
        Simulates-bind (Simulates-write_sized is_8bit a v lt short) λ _ _.
          Simulates-look extra 0 _ no_extra (Simulates-cycles (cycles + 0) cycles (omega arith))

  pub SimulatesCase-store_m :
      {mode : M D ℕ} {mode6502 : N D ℕ} {reg : Cpu D → ℕ} {reg6502 : Cpu6502 D → ℕ}
      → Simulates Always Always Word mode mode6502
      → SimulatesReg reg reg6502
      → SimulatesCase (store_m mode reg) (store mode6502 reg6502)
  unfolding store_m write_m
  SimulatesCase-store_m hm hr = record {
    for = λ n.
        Simulates-from_always (Simulates-stores m_is_8bit m_extra_cycle n m_short m_no_extra hm hr);
  }

  pub SimulatesCase-store_x :
      {mode : M D ℕ} {mode6502 : N D ℕ} {reg : Cpu D → ℕ} {reg6502 : Cpu6502 D → ℕ}
      → Simulates Always Always Word mode mode6502
      → SimulatesReg reg reg6502
      → SimulatesCase (store_x mode reg) (store mode6502 reg6502)
  unfolding store_x write_x
  SimulatesCase-store_x hm hr = record {
    for = λ n.
        Simulates-from_always (Simulates-stores x_is_8bit x_extra_cycle n x_short x_no_extra hm hr);
  }

  -- Read, change and write back.
  Simulates-update_nz :
      (n : ℕ)
      → Simulates {D = D} Always Always Any
          (State.modify (update_nz n))
          (Cpu6502.modify (Alu.update_nz n))
  unfolding update_nz Alu.update_nz setf cpu_set_flag view
  Simulates-update_nz n =
      Simulates-act (update_nz n) (Alu.update_nz n) (update_nz-IsValid n) λ s e _. framed refl refl

  pub SimulatesCase-rmw :
      {mode : M D ℕ} {mode6502 : N D ℕ} {change : ℕ → M D ℕ} {change6502 : ℕ → N D ℕ}
      → Simulates Always Always Word mode mode6502
      → SimulatesChange change change6502
      → SimulatesCase (rmw mode change) (change_byte mode6502 change6502)
  unfolding rmw change_byte
  SimulatesCase-rmw hm hc = record {
    for = λ n. Simulates-from_always (
        Simulates-bind hm λ a _. Simulates-bind (Simulates-mem_read a) λ v lt.
          Simulates-bind (hc.for v lt) λ r _.
            Simulates-bind (Simulates-mem_write a r)
              λ _ _. Simulates-bind (Simulates-update_nz r) λ _ _. Simulates-pure n tt);
  }

  pub SimulatesCase-on_regs :
      {f : Cpu D → Cpu D} {g : Cpu6502 D → Cpu6502 D}
      → SimulatesRegs f g
      → SimulatesCase (on_regs f) (on_registers g)
  unfolding on_regs on_registers
  SimulatesCase-on_regs h = record {
    for = λ n. Simulates-from_always (Simulates-bind h.act λ _ _. Simulates-pure n tt);
  }
