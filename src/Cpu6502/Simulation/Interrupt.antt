-- ===== src/Cpu6502/Simulation/Interrupt.antt =====
-- BRK, NMI and IRQ of the two cores agree.
use oric2_golden_model.Base.{
  ℕ, ◌+◌, ◌<◌, bit_or, ◌≡◌, refl, sym, ap, Bool, true, false, arith, if◌then◌else◌, u16, shl,
  clear8, word, word_lem, bit_or_word,
}
use mathlib.Core.Path.{subst}
use oric2_golden_model.Cpu.State
use oric2_golden_model.Cpu.State.{Cpu, M, flag_interrupt, flag_decimal, flag_break, flag_unused}
use oric2_golden_model.Cpu.Access.{setf, push}
use oric2_golden_model.Cpu.Exec.Interrupt as Entry
use oric2_golden_model.Cpu.Exec.Interrupt.{push_bank, push_frame, go_vector, status_brk}
use oric2_golden_model.Cpu.Valid.{Any}
use oric2_golden_model.Cpu6502
use oric2_golden_model.Cpu6502.{Cpu6502, N}
use oric2_golden_model.Cpu6502.Access.{cpu_set_flag, cpu_mem_read, cpu_push, cpu_push_word}
use oric2_golden_model.Cpu6502.Exec.Shapes
use oric2_golden_model.Cpu6502.Exec.Shapes.{
  on_operand, push_value, pull_value, set_status, branch_if, jmp, interrupt,
}
use oric2_golden_model.Cpu6502.Simulation.{
  Always, view, IsEmulating, Simulates, Simulates-bind, Simulates-pure, Simulates-look,
  Simulates-modify, still,
}
use oric2_golden_model.Cpu6502.Simulation.Access.{
  Simulates-mem_read, Simulates-push, Simulates-push_word,
}
use oric2_golden_model.Cpu6502.Simulation.Registers.{SimulatesRegs-setf}
use oric2_golden_model.Cpu6502.Simulation.Shapes.{Simulates-from_always, SimulatesCase}
use oric2_golden_model.Base.{bit_or_comm}
use oric2_golden_model.Cpu.Run.{handle_irq_or_nmi, count_cycles, step_nmi, step_irq}
use oric2_golden_model.Cpu.Exec.Interrupt.{status_irq}
use oric2_golden_model.Cpu6502.Run.{add_cycles, handle_nmi, handle_irq, interrupt_status}
use oric2_golden_model.Cpu.Valid.Step.{Keeps-count_cycles, Keeps-taken, Keeps-wake}
use oric2_golden_model.Cpu6502.Simulation.Control.{
  Simulates-next_pc, Simulates-get_pc, Simulates-status, Simulates-pc,
}

-- The two ways to put a vector together.
vector_word : (lo hi : ℕ) → lo < 256 → hi < 256 → word lo hi ≡ bit_or lo (shl hi 8)
unfolding word
vector_word lo hi hl hh =
    omega (arith, bit_or_comm lo (shl hi 8), bit_or_word (shl hi 8) lo (omega arith) (omega arith))

module _ {D : Type 0} where
  -- A change that changes nothing in emulation mode.
  pub Simulates-skip :
      {A : Type 0} {P : A → Type 0} (f : Cpu D → Cpu D) {m : M D A} {n : N D A}
      → ((s : Cpu D) → IsEmulating s → f s ≡ s)
      → Simulates Always Always P m n
      → Simulates Always Always P (State.◌>>=◌ (State.modify f) λ _. m) n
  unfolding State.◌>>=◌ State.modify
  Simulates-skip {P} f {m} {n} nothing h = record {
    at = λ s e i.
        subst
          (λ u.
            IsEmulating (m u).1
            × Always (m u).1.p
            × P (m u).0
            × (n (view s) ≡ ((m u).0, view (m u).1)))
          (sym (nothing s e)) (h.at s e i);
  }

  -- Interrupts: the frame, the vector, and both.
  abbrev frame6502 : (ℕ → ℕ) → N D (Unit {0})
  frame6502 status = Cpu6502.◌>>=◌ (Cpu6502.gets (λ s. s.pc)) λ back.
      Cpu6502.◌>>=◌ (cpu_push_word back)
        λ _. Cpu6502.◌>>=◌ (Cpu6502.gets (λ s. status s.p)) λ v. cpu_push v

  abbrev vector6502 : ℕ → N D (Unit {0})
  vector6502 vector = Cpu6502.◌>>=◌ (cpu_mem_read vector) λ lo.
      Cpu6502.◌>>=◌ (cpu_mem_read (vector + 1))
        λ hi. Cpu6502.modify (λ s. record s { pc = bit_or lo (shl hi 8) })

  Simulates-interrupt_parts :
      {A : Type 0} {P : A → Type 0} {m : M D A} (status : ℕ → ℕ) (vector : ℕ) (k : N D A)
      → Simulates Always Always P m (
          Cpu6502.◌>>=◌ (frame6502 status) λ _.
            Cpu6502.◌>>=◌
              (Cpu6502.modify (cpu_set_flag flag_interrupt true))
              λ _. Cpu6502.◌>>=◌ (vector6502 vector) λ _. k)
      → Simulates Always Always P m (Cpu6502.◌>>=◌ (interrupt status vector) λ _. k)
  unfolding interrupt Cpu6502.◌>>=◌
  Simulates-interrupt_parts status vector k h = record { at = h.at }

  Simulates-push_bank :
      {A : Type 0} {P : A → Type 0} {m : M D A} {n : N D A}
      → Simulates Always Always P m n
      → Simulates Always Always P (State.◌>>=◌ push_bank λ _. m) n
  unfolding push_bank State.◌>>=◌ State.gets State.pure
  Simulates-push_bank {P} {m} {n} h = record {
    at = λ s e i.
        subst
          (λ (b : Bool).
            let act : M D (Unit {0}) =
              (if b
                then State.pure tt
                else State.◌>>=◌ (push s.pbr) (λ _. State.modify (λ u. record u { pbr = 0 }))) in
            let r = (act s) in
            IsEmulating (m r.1).1
            × Always (m r.1).1.p
            × P (m r.1).0
            × (n (view s) ≡ ((m r.1).0, view (m r.1).1)))
          (sym e.emulates) (h.at s e i);
  }

  Simulates-push_frame :
      (status : ℕ → ℕ) → Simulates Always Always Any (push_frame status) (frame6502 status)
  unfolding push_frame
  Simulates-push_frame status = Simulates-push_bank (
      Simulates-bind Simulates-get_pc λ back _.
        Simulates-bind (Simulates-push_word back)
          λ _ _. Simulates-bind (Simulates-status status) λ v _. Simulates-push v)

  Simulates-to_vector :
      (lo hi : ℕ)
      → lo < 256
      → hi < 256
      → Simulates {D = D} Always Always Any
          (State.modify (λ s. record s { pc = word lo hi }))
          (Cpu6502.modify (λ s. record s { pc = bit_or lo (shl hi 8) }))
  Simulates-to_vector lo hi hl hh =
      subst
        (λ pc.
          Simulates {D = D} Always Always Any (State.modify (λ s. record s { pc = word lo hi }))
            (Cpu6502.modify (λ s. record s { pc = pc })))
        (vector_word lo hi hl hh) (Simulates-pc (word lo hi) (omega (arith, word_lem lo hi hl hh)))

  Simulates-go_vector :
      (vector : ℕ)
      → vector < 65535
      → Simulates Always Always Any (go_vector vector) (vector6502 vector)
  unfolding go_vector
  Simulates-go_vector vector lt =
      let next : u16 (vector + 1) ≡ vector + 1 = omega arith in
      subst
        (λ at. Simulates {D = D} Always Always Any (go_vector vector) (
          Cpu6502.◌>>=◌ (cpu_mem_read vector) λ lo.
            Cpu6502.◌>>=◌ (cpu_mem_read at)
              λ hi. Cpu6502.modify (λ s. record s { pc = bit_or lo (shl hi 8) })))
        next
        (Simulates-bind (Simulates-mem_read vector) λ lo hl.
          Simulates-bind (Simulates-mem_read (u16 (vector + 1)))
            λ hi hh. Simulates-to_vector lo hi hl hh)

  -- BRK
  pub SimulatesCase-brk : SimulatesCase {D = D} Entry.brk Shapes.brk
  unfolding Entry.brk Shapes.brk setf
  SimulatesCase-brk = record {
    for = λ n. Simulates-from_always (
        let masks = SimulatesRegs-setf flag_interrupt true (omega arith) in
        Simulates-bind Simulates-next_pc λ _ _.
          Simulates-interrupt_parts status_brk 0xfffe (Cpu6502.pure n) (
            Simulates-bind (Simulates-push_frame status_brk) λ _ _. Simulates-bind masks.act λ _ _.
              Simulates-skip _
                (λ s e. ap (λ (b : Bool). if b then s else setf flag_decimal false s) e.emulates)
                (Simulates-look _ 0xfffe _
                  (λ s e. ap (λ (b : Bool). if b then 0xfffe else 0xffe6) e.emulates)
                  (Simulates-bind (Simulates-go_vector 0xfffe (omega arith))
                    λ _ _. Simulates-pure n tt))));
  }

  -- NMI and IRQ
  Simulates-modify_nothing :
      (f : Cpu D → Cpu D)
      → Simulates Always Always Any (State.modify f) (Cpu6502.modify (λ s. s))
      → Simulates Always Always Any (State.modify f) (Cpu6502.pure tt)
  unfolding Cpu6502.modify Cpu6502.pure
  Simulates-modify_nothing f h = record { at = h.at }

  Simulates-wake :
      Simulates {D = D} Always Always Any
        (State.modify (λ s. record s { waiting = false }))
        (Cpu6502.pure tt)
  unfolding view
  Simulates-wake = Simulates-modify_nothing _ (
      Simulates-modify (λ s. record s { waiting = false }) (λ s. s)
        λ s e _.
          let wakes = Keeps-wake in
          (still e (wakes.at s e.valid) refl refl refl (sym e.awake), tt, refl))

  Simulates-interrupt_end :
      {m : M D (Unit {0})} (status : ℕ → ℕ) (vector : ℕ)
      → Simulates Always Always Any m (Cpu6502.◌>>=◌ (interrupt status vector) λ _. Cpu6502.pure tt)
      → Simulates Always Always Any m (interrupt status vector)
  unfolding Cpu6502.◌>>=◌ Cpu6502.pure
  Simulates-interrupt_end status vector h = record { at = h.at }

  Simulates-handle_irq_or_nmi :
      (vector : ℕ)
      → vector < 65535
      → Simulates {D = D} Always Always Any
          (handle_irq_or_nmi vector)
          (interrupt interrupt_status vector)
  unfolding handle_irq_or_nmi setf
  Simulates-handle_irq_or_nmi vector lt = Simulates-interrupt_end interrupt_status vector (
      let masks = SimulatesRegs-setf flag_interrupt true (omega arith) in
      Simulates-interrupt_parts interrupt_status vector (Cpu6502.pure tt) (
        Simulates-bind (Simulates-push_frame interrupt_status) λ _ _.
          Simulates-bind masks.act λ _ _.
            Simulates-skip _
              (λ s e.
                ap (λ (b : Bool). if b then s else record s { p = clear8 s.p flag_decimal })
                  e.emulates)
              (Simulates-bind (Simulates-go_vector vector lt) λ _ _. Simulates-wake)))

  pub Simulates-count_cycles :
      (n : ℕ)
      → Simulates {D = D} Always Always Any
          (State.modify (count_cycles n))
          (Cpu6502.modify (add_cycles n))
  unfolding count_cycles add_cycles view
  Simulates-count_cycles n = Simulates-modify (count_cycles n) (add_cycles n) λ s e _.
      let keeps = Keeps-count_cycles n in
      (still e (keeps.at s e.valid) refl refl refl refl, tt, refl)

  Simulates-taken :
      Simulates {D = D} Always Always Any
        (State.modify (λ s. record s { nmi_pending = false }))
        (Cpu6502.modify (λ s. record s { nmi_pending = false }))
  unfolding view
  Simulates-taken =
      Simulates-modify (λ s. record s { nmi_pending = false })
        (λ s. record s { nmi_pending = false })
        λ s e _.
          let keeps = Keeps-taken in (still e (keeps.at s e.valid) refl refl refl refl, tt, refl)

  -- The actions of `cpu_step` on an interrupt.
  abbrev pub nmi6502 : N D ℕ
  nmi6502 = Cpu6502.◌>>=◌ handle_nmi λ _. Cpu6502.pure 7

  abbrev pub irq6502 : N D ℕ
  irq6502 = Cpu6502.◌>>=◌ handle_irq λ _. Cpu6502.pure 7

  pub Simulates-step_nmi : Simulates {D = D} Always Always Any step_nmi nmi6502
  unfolding step_nmi handle_nmi Cpu6502.◌>>=◌ Cpu6502.pure
  Simulates-step_nmi =
      Simulates-look _ 0xfffa _ (λ s e. ap (λ (b : Bool). if b then 0xfffa else 0xffea) e.emulates)
        (Simulates-bind (Simulates-handle_irq_or_nmi 0xfffa (omega arith)) λ _ _.
          Simulates-bind Simulates-taken
            λ _ _. Simulates-bind (Simulates-count_cycles 7) λ _ _. Simulates-pure 7 tt)

  pub Simulates-step_irq : Simulates {D = D} Always Always Any step_irq irq6502
  unfolding step_irq handle_irq Cpu6502.◌>>=◌ Cpu6502.pure
  Simulates-step_irq =
      Simulates-look _ 0xfffe _ (λ s e. ap (λ (b : Bool). if b then 0xfffe else 0xffee) e.emulates)
        (Simulates-bind (Simulates-handle_irq_or_nmi 0xfffe (omega arith))
          λ _ _. Simulates-bind (Simulates-count_cycles 7) λ _ _. Simulates-pure 7 tt)
