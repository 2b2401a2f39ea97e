-- ===== src/Cpu6502/Simulation/Control.antt =====
-- The stack opcodes, branches, jumps and interrupts of the two cores agree.
use oric2_golden_model.Base.{
  ℕ, ◌+◌, ◌-◌, ◌<◌, bit_or, ◌≡◌, refl, sym, ap, Bool, true, arith, bool_eq, if◌then◌else◌, u8, u16,
}
use mathlib.Core.Path.{subst}
use oric2_golden_model.Cpu.State
use oric2_golden_model.Cpu.State.{Cpu, M, flag_interrupt, flag_decimal, flag_break, flag_unused}
use oric2_golden_model.Cpu.Access.{
  flag, m_is_8bit, a_get_m, x_get_x, y_get_x, push, push_m, push_sized, pull_m, pull_sized,
  m_extra_cycle, fetch_imm_m,
}
use oric2_golden_model.Cpu.Address.{page_differs}
use oric2_golden_model.Cpu.Exec.Operand.{sbc_alias, sbc_or_xba}
use oric2_golden_model.Cpu.Exec.Control as Jumps
use oric2_golden_model.Cpu.Exec.Control.{
  pha, pla, php, plp, take_status, branch_extra, branch_on, jump_to,
}
use oric2_golden_model.Cpu.Exec.Interrupt as Entry
use oric2_golden_model.Cpu.Exec.Interrupt.{push_bank, push_frame, go_vector, status_brk}
use oric2_golden_model.Cpu.Valid.{Any, Byte, Word}
use oric2_golden_model.Cpu.Valid.Control.{Keeps-pc}
use oric2_golden_model.Cpu6502
use oric2_golden_model.Cpu6502.{Cpu6502, N}
use oric2_golden_model.Cpu6502.Access.{cpu_get_flag, cpu_push, cpu_pull, addr_immediate}
use oric2_golden_model.Cpu6502.Alu as Arith
use oric2_golden_model.Cpu6502.Alu.{lda}
use oric2_golden_model.Cpu6502.Exec.Shapes
use oric2_golden_model.Cpu6502.Exec.Shapes.{
  on_operand, push_value, pull_value, set_status, branch_if, jmp, interrupt,
}
use oric2_golden_model.Cpu6502.Simulation.{
  Always, view, Simulates, Simulates-bind, Simulates-pure, Simulates-gets, Simulates-if,
  Simulates-look,
}
use oric2_golden_model.Cpu6502.Simulation.Access.{
  Simulates-push, Simulates-pull, Simulates-push_word, Simulates-pull_word,
}
use oric2_golden_model.Cpu6502.Simulation.Modes.{
  Simulates-x_get_x, Simulates-y_get_x, Simulates-addr_abs, Simulates-addr_relative,
}
use oric2_golden_model.Cpu6502.Simulation.Alu.{framed, low-lt, Simulates-act}
use oric2_golden_model.Cpu6502.Simulation.Acts.{SimulatesAct-load_a}
use oric2_golden_model.Cpu6502.Simulation.Arith.{SimulatesAct-op_sbc}
use oric2_golden_model.Cpu6502.Simulation.Registers.{SimulatesAct-take_status}
use oric2_golden_model.Cpu6502.Simulation.Shapes.{
  m_short, m_no_extra, Simulates-fetch_imm, Simulates-end_view, Simulates-from_always,
  Simulates-cycles, SimulatesCase, Simulates-immediate, SimulatesReg,
}

module _ {D : Type 0} where
  -- A first step that does nothing.
  pub Simulates-first :
      {A B : Type 0} {I J : ℕ → Type 0} {P : A → Type 0} (b : B) {m : M D A} {n : N D A}
      → Simulates I J P m n
      → Simulates I J P (State.◌>>=◌ (State.pure b) λ _. m) n
  unfolding State.◌>>=◌ State.pure
  Simulates-first b h = record { at = h.at }

  -- The registers.
  pub SimulatesReg-a : SimulatesReg {D = D} a_get_m (λ s. s.a)
  unfolding a_get_m view
  SimulatesReg-a = record {
    read =
        Simulates-gets a_get_m (λ s. s.a)
          λ s e. (ground (arith, m_short s e), ground (arith, m_short s e, low-lt s.c));
  }

  pub SimulatesReg-x : SimulatesReg {D = D} x_get_x (λ s. s.x)
  SimulatesReg-x = record { read = Simulates-x_get_x }

  pub SimulatesReg-y : SimulatesReg {D = D} y_get_x (λ s. s.y)
  SimulatesReg-y = record { read = Simulates-y_get_x }

  -- PC
  pub Simulates-pc :
      (a : ℕ)
      → a < 65536
      → Simulates {D = D} Always Always Any
          (State.modify (λ s. record s { pc = a }))
          (Cpu6502.modify (λ s. record s { pc = a }))
  unfolding view
  Simulates-pc a lt =
      let keeps = Keeps-pc a lt in
      Simulates-act (λ s. record s { pc = a }) (λ s. record s { pc = a }) keeps.at
        λ s e _. framed refl refl

  pub Simulates-next_pc :
      Simulates {D = D} Always Always Any
        (State.modify (λ s. record s { pc = u16 (s.pc + 1) }))
        (Cpu6502.modify (λ s. record s { pc = u16 (s.pc + 1) }))
  unfolding view
  Simulates-next_pc =
      Simulates-act (λ s. record s { pc = u16 (s.pc + 1) }) (λ s. record s { pc = u16 (s.pc + 1) })
        (λ s v. let keeps = Keeps-pc (u16 (s.pc + 1)) (omega arith) in keeps.at s v)
        λ s e _. framed refl refl

  pub Simulates-get_pc :
      Simulates {D = D} Always Always Word (State.gets (λ s. s.pc)) (Cpu6502.gets (λ s. s.pc))
  unfolding view
  Simulates-get_pc = Simulates-gets (λ s. s.pc) (λ s. s.pc) λ s e. let v = e.valid in (refl, v.pc)

  Simulates-get_back :
      Simulates {D = D} Always Always Any
        (State.gets (λ s. u16 (s.pc + 65536 - 1)))
        (Cpu6502.gets (λ s. u16 (s.pc + 65536 - 1)))
  unfolding view
  Simulates-get_back =
      Simulates-gets (λ s. u16 (s.pc + 65536 - 1)) (λ s. u16 (s.pc + 65536 - 1)) λ s e. (refl, tt)

  -- The stack.
  Simulates-push_byte :
      (v : ℕ) → v < 256 → Simulates {D = D} Always Always Any (push (u8 v)) (cpu_push v)
  Simulates-push_byte v lt =
      let kept : u8 v ≡ v = omega arith in
      subst (λ w. Simulates {D = D} Always Always Any (push (u8 v)) (cpu_push w)) kept
        (Simulates-push (u8 v))

  Simulates-push_sized :
      (v : ℕ) → v < 256 → Simulates {D = D} Always Always Any (push_m v) (cpu_push v)
  unfolding push_m push_sized
  Simulates-push_sized v lt =
      Simulates-look m_is_8bit true _ m_short (Simulates-first tt (Simulates-push_byte v lt))

  pub SimulatesCase-pha : SimulatesCase {D = D} pha (push_value (λ s. s.a))
  unfolding pha push_value
  SimulatesCase-pha = record {
    for = λ n. Simulates-from_always (
        let a = SimulatesReg-a in
        Simulates-bind a.read λ v lt. Simulates-bind (Simulates-push_sized v lt) λ _ _.
          Simulates-look m_extra_cycle 0 _ m_no_extra (Simulates-cycles (n + 0) n (omega arith)));
  }

  Simulates-pull_m : Simulates {D = D} Always Always Byte pull_m cpu_pull
  unfolding pull_m pull_sized
  Simulates-pull_m = Simulates-end_view (
      Simulates-bind Simulates-pull
        λ lo lt. Simulates-look m_is_8bit true _ m_short (Simulates-pure lo lt))

  pub SimulatesCase-pla : SimulatesCase {D = D} pla (pull_value lda)
  unfolding pla pull_value
  SimulatesCase-pla = record {
    for = λ n. Simulates-from_always (
        let loads = SimulatesAct-load_a in
        Simulates-bind Simulates-pull_m λ v lt. Simulates-bind (loads.for v lt) λ _ _.
          Simulates-look m_extra_cycle 0 _ m_no_extra (Simulates-cycles (n + 0) n (omega arith)));
  }

  pub Simulates-status :
      (shown : ℕ → ℕ)
      → Simulates {D = D} Always Always Any
          (State.gets (λ s. if s.e then shown s.p else s.p))
          (Cpu6502.gets (λ s. shown s.p))
  unfolding view
  Simulates-status shown =
      Simulates-gets (λ s. if s.e then shown s.p else s.p) (λ s. shown s.p)
        λ s e. (ap (λ (b : Bool). if b then shown s.p else s.p) (sym e.emulates), tt)

  pub SimulatesCase-php :
      SimulatesCase {D = D} php (push_value (λ s. bit_or (bit_or s.p flag_break) flag_unused))
  unfolding php push_value
  SimulatesCase-php = record {
    for = λ n. Simulates-from_always (
        Simulates-bind (Simulates-status status_brk)
          λ v _. Simulates-bind (Simulates-push v) λ _ _. Simulates-pure n tt);
  }

  pub SimulatesCase-plp : SimulatesCase {D = D} plp (pull_value set_status)
  unfolding plp pull_value
  SimulatesCase-plp = record {
    for = λ n. Simulates-from_always (
        let takes = SimulatesAct-take_status in
        Simulates-bind Simulates-pull
          λ v lt. Simulates-bind (takes.for v lt) λ _ _. Simulates-pure n tt);
  }

  -- Branches and jumps.
  Simulates-do_branch :
      (condition : Bool)
      → Simulates {D = D} Always Always Any (Jumps.do_branch condition) (Shapes.do_branch condition)
  unfolding Jumps.do_branch Shapes.do_branch branch_extra view
  Simulates-do_branch condition = Simulates-bind Simulates-addr_relative λ target lt.
      Simulates-bind
        (Simulates-gets {P = Any} (branch_extra target)
          (λ s. if page_differs s.pc target then 2 else 1) λ s e. (refl, tt))
        λ extra _.
          Simulates-if condition
            (Simulates-bind (Simulates-pc target lt) λ _ _. Simulates-pure extra tt)
            (Simulates-pure 0 tt)

  pub SimulatesCase-branch_on :
      (f : ℕ) (wanted : Bool) → SimulatesCase {D = D} (branch_on f wanted) (branch_if f wanted)
  unfolding branch_on branch_if flag cpu_get_flag view
  SimulatesCase-branch_on f wanted = record {
    for = λ n. Simulates-from_always (
        Simulates-bind (Simulates-gets {P = Any} (flag f) (cpu_get_flag f) λ s e. (refl, tt)) λ v _.
          Simulates-bind (Simulates-do_branch (bool_eq v wanted))
            λ extra _. Simulates-pure (n + extra) tt);
  }

  pub SimulatesCase-jump_to :
      {mode : M D ℕ} {mode6502 : N D ℕ}
      → Simulates Always Always Word mode mode6502
      → SimulatesCase (jump_to mode) (jmp mode6502)
  unfolding jump_to jmp
  SimulatesCase-jump_to h = record {
    for = λ n.
        Simulates-from_always
          (Simulates-bind h λ a lt. Simulates-bind (Simulates-pc a lt) λ _ _. Simulates-pure n tt);
  }

  pub SimulatesCase-jsr : SimulatesCase {D = D} Jumps.jsr Shapes.jsr
  unfolding Jumps.jsr Shapes.jsr
  SimulatesCase-jsr = record {
    for = λ n. Simulates-from_always (
        Simulates-bind Simulates-addr_abs λ a lt. Simulates-bind Simulates-get_back λ back _.
          Simulates-bind (Simulates-push_word back)
            λ _ _. Simulates-bind (Simulates-pc a lt) λ _ _. Simulates-pure n tt);
  }

  pub SimulatesCase-rts : SimulatesCase {D = D} Jumps.rts Shapes.rts
  unfolding Jumps.rts Shapes.rts
  SimulatesCase-rts = record {
    for = λ n. Simulates-from_always (
        Simulates-bind Simulates-pull_word λ back _.
          Simulates-bind (Simulates-pc (u16 (back + 1)) (omega arith)) λ _ _. Simulates-pure n tt);
  }

  pub SimulatesCase-rti : SimulatesCase {D = D} Entry.rti Shapes.rti
  unfolding Entry.rti Shapes.rti
  SimulatesCase-rti = record {
    for = λ n. Simulates-from_always (
        let takes = SimulatesAct-take_status in
        Simulates-bind Simulates-pull λ v lt. Simulates-bind (takes.for v lt) λ _ _.
          Simulates-bind Simulates-pull_word λ back hb.
            Simulates-bind (Simulates-pc back hb)
              λ _ _. Simulates-look (λ s. s.e) true _ (λ s e. e.emulates) (Simulates-pure n tt));
  }

  -- $EB
  pub SimulatesCase-sbc_or_xba :
      SimulatesCase {D = D} sbc_or_xba (on_operand (Shapes.plain addr_immediate) Arith.op_sbc)
  unfolding sbc_or_xba sbc_alias fetch_imm_m
  SimulatesCase-sbc_or_xba = record {
    for = λ n.
        let subtracts = SimulatesAct-op_sbc in
        Simulates-look (λ s. s.e) true _ (λ s e. e.emulates)
          (Simulates-immediate _ n (
            Simulates-bind (Simulates-fetch_imm m_is_8bit m_short) λ v lt.
              Simulates-bind (subtracts.for v lt) λ _ _. Simulates-cycles n (n + 0) (omega arith)));
  }
