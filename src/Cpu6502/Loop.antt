-- ===== src/Cpu6502/Loop.antt =====
-- cpu6502.c, `cpu_execute_cycles`: the loop ends, as a step of a core that is not halted spends cycles.
use oric2_golden_model.Base.{
  ℕ, zero, suc, ◌+◌, ◌≤◌, ◌<◌, ◌≡◌, refl, ap, ◌∙◌, ◌⊎◌, inl, inr, Bool, true, false, not, ◌&&◌,
  Option, none, some, [], ◌∷◌, arith, ltb, leb, ◌==◌, if◌then◌else◌, Bool-cases, all_below,
  all_below_sound,
}
use mathlib.Core.Path.{subst}
use mathlib.Core.Option.{some-injective, none-ne-some}
use oric2_golden_model.Cpu6502
use oric2_golden_model.Cpu6502.{Cpu6502, N}
use oric2_golden_model.Cpu.Table.{opcode_table}
use oric2_golden_model.Memory
use oric2_golden_model.Memory.Bytes.{HoldsBytes, read-HoldsBytes}
use oric2_golden_model.Cpu6502.Bytes.{KeepsMemory, KeepsBytes, KeepsBytes-cpu_fetch_byte}
use oric2_golden_model.Cpu6502.Bytes.Changes.{bus_rules}
use oric2_golden_model.Cpu.State.{flag_interrupt}
use oric2_golden_model.Cpu6502.Run.{
  cpu_step, step_instruction, handle_nmi, handle_irq, add_cycles, run_loop, cpu_execute_cycles,
}
use oric2_golden_model.Cpu6502.Access.{cpu_get_flag, cpu_fetch_byte, cpu_mem_read, addr_immediate}
use oric2_golden_model.Cpu6502.Exec.{cases, lookup_case, default_case, cpu_execute_opcode}
use oric2_golden_model.Cpu6502.Exec.Shapes.{Action, Cases}
use oric2_golden_model.Cpu6502.Spending.{
  Spends, AllSpend, all_cons, AllSpend-cases, Spends-default_case,
}

-- The base cycles of every opcode.
two_cycles : all_below 256 (λ op. leb 2 (opcode_table op).cycles) ≡ true
unfolding opcode_table all_below
two_cycles = refl

base_cycles : (op : ℕ) → op < 256 → 2 ≤ (opcode_table op).cycles
base_cycles op lt =
    ground (arith, all_below_sound 256 (λ op. leb 2 (opcode_table op).cycles) op two_cycles lt)

module _ {D : Type 0} where
  first_or_later :
      {a act : Action D} {later : Option (Action D)} (b : Bool)
      → Spends a
      → (later ≡ some act → Spends act)
      → (if b then some a else later) ≡ some act
      → Spends act
  first_or_later {a} {act} true h hs eq = subst Spends (some-injective a act eq) h
  first_or_later false h hs eq = hs eq

  looked_up-Spends :
      (all : Cases D) (op : ℕ) (act : Action D)
      → AllSpend all
      → lookup_case op all ≡ some act
      → Spends act
  unfolding lookup_case
  looked_up-Spends [] op act h found = absurd (none-ne-some act found)
  looked_up-Spends ((k, a) ∷ rest) op act (all_cons h hs) found =
      first_or_later (k == op) h (λ later. looked_up-Spends rest op act hs later) found

  -- What is executed, whether it was found or not.
  chosen-Spends :
      (op : ℕ) (o : Option (Action D))
      → lookup_case op cases ≡ o
      → Spends {D = D} (λ cycles. elim o [ none ↦ default_case op cycles | some act ↦ act cycles ])
  chosen-Spends op none eq = Spends-default_case op
  chosen-Spends op (some act) eq = looked_up-Spends cases op act AllSpend-cases eq

  cpu_execute_opcode-spends : (op : ℕ) (s : Cpu6502 D) → op < 256 → 2 ≤ (cpu_execute_opcode op s).0
  unfolding cpu_execute_opcode
  cpu_execute_opcode-spends op s lt =
      let h = chosen-Spends op (lookup_case op cases) refl in
      omega (arith, base_cycles op lt, h.at_least (opcode_table op).cycles s)

  KeepsBytes-cpu_execute_opcode : (op : ℕ) → KeepsBytes {D = D} (cpu_execute_opcode op)
  unfolding cpu_execute_opcode
  KeepsBytes-cpu_execute_opcode op =
      let h = chosen-Spends op (lookup_case op cases) refl in h.keeps (opcode_table op).cycles

  -- On a bus that holds bytes, a step of a 6502 that is not halted spends two cycles or more, whatever the opcode at
  -- PC and whatever interrupts are pending.
  pub cpu_step-spends :
      (s : Cpu6502 D) → HoldsBytes s.memory → s.halted ≡ false → 2 ≤ (cpu_step s).0
  unfolding cpu_step step_instruction Cpu6502.◌>>=◌ Cpu6502.pure cpu_fetch_byte addr_immediate
      cpu_mem_read Cpu6502.gets Cpu6502.modify
  cpu_step-spends s bus running =
      let op = (Memory.read s.pc s.memory).0 in
      let spends : 2 ≤ (cpu_execute_opcode op (cpu_fetch_byte s).1).0 =
        cpu_execute_opcode-spends op (cpu_fetch_byte s).1 (read-HoldsBytes s.pc s.memory bus).1 in
      ground (arith, spends)

  KeepsMemory-add_cycles : (n : ℕ) → KeepsMemory {D = D} (add_cycles n)
  unfolding add_cycles
  KeepsMemory-add_cycles n = record { same = λ s. refl }

  KeepsMemory-taken : KeepsMemory {D = D} (λ s. record s { nmi_pending = false })
  KeepsMemory-taken = record { same = λ s. refl }

  KeepsBytes-step_instruction : KeepsBytes {D = D} step_instruction
  unfolding step_instruction
  KeepsBytes-step_instruction =
      search
        (
          bus_rules, KeepsBytes-cpu_fetch_byte, KeepsBytes-cpu_execute_opcode,
          KeepsMemory-add_cycles,
        )
        depth 16

  KeepsBytes-nmi : KeepsBytes {D = D} {A = ℕ} (Cpu6502.◌>>=◌ handle_nmi λ _. Cpu6502.pure 7)
  unfolding handle_nmi
  KeepsBytes-nmi = search (bus_rules, KeepsMemory-taken, KeepsMemory-add_cycles) depth 16

  KeepsBytes-irq : KeepsBytes {D = D} {A = ℕ} (Cpu6502.◌>>=◌ handle_irq λ _. Cpu6502.pure 7)
  unfolding handle_irq
  KeepsBytes-irq = search (bus_rules, KeepsMemory-add_cycles) depth 16

  -- A result whose bus holds bytes.
  record BusHolds (r : ℕ × Cpu6502 D) : Type 0 where
    bus : HoldsBytes r.1.memory

  either_bus :
      (b : Bool) {r t : ℕ × Cpu6502 D} → BusHolds r → BusHolds t → BusHolds (if b then r else t)
  either_bus true hr ht = hr
  either_bus false hr ht = ht

  cpu_step-BusHolds : (s : Cpu6502 D) → HoldsBytes s.memory → BusHolds (cpu_step s)
  unfolding cpu_step
  cpu_step-BusHolds s bus =
      let nmi = KeepsBytes-nmi in
      let irq = KeepsBytes-irq in
      let instruction = KeepsBytes-step_instruction in
      either_bus s.halted (record { bus = bus })
        (either_bus s.nmi_pending (record { bus = nmi.at s bus })
          (either_bus (not (s.irq == 0) && not (cpu_get_flag flag_interrupt s))
            (record { bus = irq.at s bus }) (record { bus = instruction.at s bus })))

  -- One turn of the loop, by its test.
  abbrev after_test : ℕ → ℕ → ℕ → Cpu6502 D → Bool → Option (ℕ × Cpu6502 D)
  after_test fuel cycles executed s more = elim more [
    | false ↦ some (executed, s)
    | true ↦ run_loop fuel cycles (executed + (cpu_step s).0) (cpu_step s).1
  ]

  -- The loop has ended, with the cycles asked for or on a halted core.
  abbrev Ended : ℕ → Option (ℕ × Cpu6502 D) → Type 0
  Ended cycles o = (r : ℕ × Cpu6502 D) × (o ≡ some r) × ((cycles ≤ r.0) ⊎ (r.1.halted ≡ true))

  run_loop-ends :
      (fuel cycles executed : ℕ) (s : Cpu6502 D)
      → HoldsBytes s.memory
      → 0 < fuel
      → cycles < executed + fuel
      → Ended cycles (run_loop fuel cycles executed s)
  unfolding run_loop
  run_loop-ends zero cycles executed s bus some_fuel enough = absurd (omega arith)
  run_loop-ends (suc fuel) cycles executed s bus some_fuel enough =
      elim (Bool-cases (ltb executed cycles && not s.halted)) [
        | inl more ↦
            let step_bus = cpu_step-BusHolds s bus in
            let running : s.halted ≡ false = ground arith in
            let below : executed < cycles = ground arith in
            let spends = cpu_step-spends s bus running in
            let (r, result, ended) =
              run_loop-ends fuel cycles (executed + (cpu_step s).0) (cpu_step s).1 step_bus.bus
                (omega arith) (omega arith) in
            (r, ap (after_test fuel cycles executed s) more ∙ result, ended)
        | inr stop ↦ ((executed, s), ap (after_test fuel cycles executed s) stop, ground arith)
      ]

  -- On a bus that holds bytes, the loop of `cpu_execute_cycles` ends: one more turn than the cycles asked for is
  -- enough fuel, and the loop then ends with at least these cycles or on a halted core.
  pub cpu_execute_cycles-ends :
      (fuel cycles : ℕ) (s : Cpu6502 D)
      → HoldsBytes s.memory
      → cycles < fuel
      → (r : ℕ × Cpu6502 D) × (cpu_execute_cycles fuel cycles s ≡ some r)
        × ((cycles ≤ r.0) ⊎ (r.1.halted ≡ true))
  unfolding cpu_execute_cycles
  cpu_execute_cycles-ends fuel cycles s bus enough =
      run_loop-ends fuel cycles 0 s bus (omega arith) (omega arith)
