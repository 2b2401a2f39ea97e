-- ===== src/Cpu6502/Simulation/Step.antt =====
-- One step and a run of the two cores agree.
use oric2_golden_model.Base.{
  ℕ, zero, suc, ◌≡◌, refl, sym, ap, ◌∙◌, ◌≢◌, ◌⊎◌, inl, inr, Bool, true, false, not, ◌&&◌, ◌||◌,
  Option, none, some, arith, ◌==◌, if◌then◌else◌, Option-cases, has,
}
use mathlib.Core.Path.{subst}
use oric2_golden_model.Cpu.State
use oric2_golden_model.Cpu.State.{Cpu, M, flag_interrupt}
use oric2_golden_model.Cpu.Access.{fetch_byte}
use oric2_golden_model.Cpu.Table.{opcode_table}
use oric2_golden_model.Cpu.Exec.{illegal, execute_opcode}
use oric2_golden_model.Cpu.Exec.Shapes as Wide
use oric2_golden_model.Cpu.Run.{step, step_opcode, count_cycles}
use oric2_golden_model.Cpu.Valid.{Any}
use oric2_golden_model.Cpu6502
use oric2_golden_model.Cpu6502.{Cpu6502, N}
use oric2_golden_model.Cpu6502.Access.{cpu_get_flag}
use oric2_golden_model.Cpu6502.Exec.{cases, lookup_case, default_case, cpu_execute_opcode}
use oric2_golden_model.Cpu6502.Exec.Shapes.{Action}
use oric2_golden_model.Cpu6502.Run.{cpu_step, step_instruction, add_cycles}
use oric2_golden_model.Cpu6502.Simulation.{
  Binary, Always, view, IsEmulating, Simulates, Simulates-bind, Simulates-pure,
}
use oric2_golden_model.Cpu6502.Simulation.Access.{Simulates-fetch_byte}
use oric2_golden_model.Cpu6502.Simulation.Shapes.{SimulatesCase}
use oric2_golden_model.Cpu6502.Simulation.Interrupt.{
  Simulates-count_cycles, Simulates-step_nmi, Simulates-step_irq,
}
use oric2_golden_model.Cpu6502.Simulation.Cases.{
  SimulatesCases, SimulatesCases-append, SimulatesFind-lookup_case,
}
use oric2_golden_model.Cpu6502.Simulation.Cases.Load.{Simulates-load_groups}
use oric2_golden_model.Cpu6502.Simulation.Cases.Combine.{Simulates-combine_groups}
use oric2_golden_model.Cpu6502.Simulation.Cases.Store.{Simulates-store_groups}
use oric2_golden_model.Cpu6502.Simulation.Cases.Change.{Simulates-change_groups}
use oric2_golden_model.Cpu6502.Simulation.Cases.Control.{Simulates-control_groups}

module _ {D : Type 0} where
  SimulatesCases-cases : SimulatesCases {D = D} cases
  unfolding cases
  SimulatesCases-cases =
      let (lda, ldx, ldy, cpx, cpy, bit) = Simulates-load_groups in
      let (adc, sbc, and_a, ora, eor, cmp) = Simulates-combine_groups in
      let (sta, stx, sty) = Simulates-store_groups in
      let (asl, lsr, rol, ror, inc, dec) = Simulates-change_groups in
      let (index, transfer, stack, branch, jump, flags, nop) = Simulates-control_groups in
      SimulatesCases-append lda (
        SimulatesCases-append ldx (
          SimulatesCases-append ldy (
            SimulatesCases-append sta (
              SimulatesCases-append stx (
                SimulatesCases-append sty (
                  SimulatesCases-append adc (
                    SimulatesCases-append sbc (
                      SimulatesCases-append and_a (
                        SimulatesCases-append ora (
                          SimulatesCases-append eor (
                            SimulatesCases-append cmp (
                              SimulatesCases-append cpx (
                                SimulatesCases-append cpy (
                                  SimulatesCases-append bit (
                                    SimulatesCases-append asl (
                                      SimulatesCases-append lsr (
                                        SimulatesCases-append rol (
                                          SimulatesCases-append ror (
                                            SimulatesCases-append inc (
                                              SimulatesCases-append dec (
                                                SimulatesCases-append index (
                                                  SimulatesCases-append transfer (
                                                    SimulatesCases-append stack (
                                                      SimulatesCases-append branch (
                                                        SimulatesCases-append jump (
                                                          SimulatesCases-append flags
                                                            nop))))))))))))))))))))))))))

  -- What the two executors do with what they found.
  abbrev chosen : ℕ → ℕ → Option (Wide.Action D) → M D ℕ
  chosen op cycles m = elim m [ none ↦ illegal op cycles | some act ↦ act cycles ]

  abbrev chosen6502 : ℕ → ℕ → Option (Action D) → N D ℕ
  chosen6502 op cycles n = elim n [ none ↦ default_case op cycles | some act ↦ act cycles ]

  Simulates-chosen :
      {m : Option (Wide.Action D)} {n : Option (Action D)} {act : Wide.Action D}
      {act6502 : Action D} (op : ℕ)
      → m ≡ some act
      → n ≡ some act6502
      → SimulatesCase act act6502
      → (cycles : ℕ) → Simulates Binary Always Any (chosen op cycles m) (chosen6502 op cycles n)
  Simulates-chosen {n} {act} op found found6502 h cycles =
      subst (λ m'. Simulates Binary Always Any (chosen op cycles m') (chosen6502 op cycles n))
        (sym found)
        (subst (λ n'. Simulates Binary Always Any (act cycles) (chosen6502 op cycles n'))
          (sym found6502) (h.for cycles))

  Simulates-looked_up :
      (op : ℕ)
      (o : (lookup_case op (cases {D = D}) ≡ none)
        ⊎ ((act : Action D) × (lookup_case op cases ≡ some act)))
      → lookup_case op (cases {D = D}) ≢ none
      → Simulates {D = D} Binary Always Any (execute_opcode op) (cpu_execute_opcode op)
  unfolding execute_opcode cpu_execute_opcode
  Simulates-looked_up op (inl nothing) documented = absurd (documented nothing)
  Simulates-looked_up op (inr (act6502, found6502)) documented =
      let h = SimulatesFind-lookup_case cases op act6502 SimulatesCases-cases found6502 in
      Simulates-chosen op h.found found6502 h.agrees (opcode_table op).cycles

  Simulates-execute_opcode :
      (op : ℕ)
      → lookup_case op (cases {D = D}) ≢ none
      → Simulates {D = D} Binary Always Any (execute_opcode op) (cpu_execute_opcode op)
  Simulates-execute_opcode op documented =
      Simulates-looked_up op (Option-cases (lookup_case op cases)) documented

  -- The 6502's switch has a case for the opcode at the program counter.
  unfoldable pub IsDocumented : Cpu D → Type 0
  IsDocumented s = lookup_case (fetch_byte s).0 (cases {D = D}) ≢ none

  -- The results of the two cores, which agree.
  record Same (r : ℕ × Cpu D) (r6502 : ℕ × Cpu6502 D) : Type 0 where
    emulates : IsEmulating r.1
    same : r6502 ≡ (r.0, view r.1)

  Same-if :
      {r t : ℕ × Cpu D} {r6502 t6502 : ℕ × Cpu6502 D} {c : Bool} (b : Bool)
      → c ≡ b
      → Same r r6502
      → Same t t6502
      → Same (if c then r else t) (if b then r6502 else t6502)
  Same-if {r} {t} {r6502} {t6502} b eq h h' =
      subst (λ c'. Same (if c' then r else t) (if b then r6502 else t6502)) (sym eq) (both b h h')
    where
      both :
          (b : Bool)
          → Same r r6502
          → Same t t6502
          → Same (if b then r else t) (if b then r6502 else t6502)
      both true h h' = h
      both false h h' = h'

  Same-skip :
      (r : ℕ × Cpu D) {t : ℕ × Cpu D} {t6502 : ℕ × Cpu6502 D} {c : Bool}
      → c ≡ false
      → Same t t6502
      → Same (if c then r else t) t6502
  Same-skip r {t} {t6502} eq h = subst (λ c'. Same (if c' then r else t) t6502) (sym eq) h

  Same-at :
      {m : M D ℕ} {n : N D ℕ} {I : ℕ → Type 0}
      → Simulates I Always Any m n
      → (s : Cpu D) → IsEmulating s
      → I s.p
      → Same (m s) (n (view s))
  Same-at h s e i = let (e', _, _, same) = h.at s e i in record { emulates = e'; same = same }

  -- An opcode, fetched and executed.
  Simulates-opcode :
      (op : ℕ)
      → lookup_case op (cases {D = D}) ≢ none
      → Simulates {D = D} Binary Always Any
          (State.◌>>=◌
            (execute_opcode op)
            λ cyc. State.◌>>=◌ (State.modify (count_cycles cyc)) λ _. State.pure cyc)
          (Cpu6502.◌>>=◌
            (cpu_execute_opcode op)
            λ cyc. Cpu6502.◌>>=◌ (Cpu6502.modify (add_cycles cyc)) λ _. Cpu6502.pure cyc)
  Simulates-opcode op documented =
      Simulates-bind (Simulates-execute_opcode op documented)
        λ cyc _. Simulates-bind (Simulates-count_cycles cyc) λ _ _. Simulates-pure cyc tt

  step_opcode-Same :
      (s : Cpu D)
      → IsEmulating s
      → Binary s.p
      → IsDocumented s
      → Same (step_opcode s) (step_instruction (view s))
  unfolding step_opcode step_instruction IsDocumented State.◌>>=◌ Cpu6502.◌>>=◌
  step_opcode-Same s e binary documented =
      let (e1, j, _, fetched) = (Simulates-fetch_byte {I = Binary}).at s e binary in
      let op = (fetch_byte s).0 in
      let h = Same-at (Simulates-opcode op documented) (fetch_byte s).1 e1 j in
      record {
        emulates = h.emulates;
        same =
            ap
              (λ (r : ℕ × Cpu6502 D).
                (Cpu6502.◌>>=◌ (cpu_execute_opcode r.0)
                    λ cyc. Cpu6502.◌>>=◌ (Cpu6502.modify (add_cycles cyc)) λ _. Cpu6502.pure cyc)
                  r.1)
              fetched
            ∙ h.same;
      }

  step-Same :
      (s : Cpu D) → IsEmulating s → Binary s.p → IsDocumented s → Same (step s) (cpu_step (view s))
  unfolding step cpu_step view cpu_get_flag
  step-Same s e binary documented =
      Same-if {c = s.halted || s.stopped} s.halted (ground (arith, e.running))
        (record { emulates = e; same = refl })
        (Same-skip (2, s) {c = s.waiting && (not s.nmi_pending && s.irq == 0)}
          (ground (arith, e.awake))
          (Same-if s.nmi_pending refl (Same-at Simulates-step_nmi s e tt) (
            Same-if (not (s.irq == 0) && not (has s.p flag_interrupt)) refl
              (Same-at Simulates-step_irq s e tt) (step_opcode-Same s e binary documented))))

  -- In emulation mode, in bank 0 and with the decimal flag off, a step of the 65C816 is a step of the 6502 on its view:
  -- the same cycles, and the same registers, flags, memory accesses and pending interrupts behind it, on every opcode
  -- that the 6502's switch has a case for and on NMI and IRQ. The 65C816 is then still in emulation mode.
  pub cpu_step-view :
      (s : Cpu D)
      → IsEmulating s
      → Binary s.p
      → IsDocumented s
      → (cpu_step (view s) ≡ ((step s).0, view (step s).1)) × IsEmulating (step s).1
  cpu_step-view s e binary documented =
      let h = step-Same s e binary documented in (h.same, h.emulates)

  -- A run of the 65C816 whose opcodes are the 6502's and whose decimal flag stays off.
  pub data Runs : ℕ → Cpu D → Cpu D → Type 0 where
    runs_end : {s : Cpu D} → Runs 0 s s
    runs_step :
        {n : ℕ} {s t : Cpu D} → Binary s.p → IsDocumented s → Runs n (step s).1 t → Runs (suc n) s t

  unfoldable pub steps6502 : ℕ → Cpu6502 D → Cpu6502 D
  steps6502 zero s = s
  steps6502 (suc n) s = steps6502 n (cpu_step s).1

  -- A run of the 65C816 from a state in emulation mode, however long, is a run of the 6502 on its view, as long as its
  -- opcodes are the 6502's and the decimal flag is off at each of them.
  pub steps6502-view :
      {n : ℕ} {s t : Cpu D}
      → IsEmulating s
      → Runs n s t
      → (steps6502 n (view s) ≡ view t) × IsEmulating t
  unfolding steps6502
  steps6502-view e runs_end = (refl, e)
  steps6502-view {n = suc n} {s = s} e (runs_step binary documented runs) =
      let (same, e1) = cpu_step-view s e binary documented in
      let (rest, e2) = steps6502-view e1 runs in
      (ap (λ (r : ℕ × Cpu6502 D). steps6502 n r.1) same ∙ rest, e2)
