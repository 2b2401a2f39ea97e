-- ===== src/Cpu/Valid/Step.antt =====
-- Every step of the core keeps it valid, and so do reset and the interrupt lines.
use oric2_golden_model.Base.{
  ℕ, zero, suc, bit_or, Bool, true, false, not, ◌&&◌, ◌||◌, Option, none, some, arith, ◌==◌,
  if◌then◌else◌, has, clear8, bit_and-le, bit_or_byte,
}
use oric2_golden_model.Cpu.State.{flag_interrupt, flag_decimal, Cpu, M}
use oric2_golden_model.Cpu.Exec.Shapes.{Action}
use oric2_golden_model.Cpu.Exec.{
  operand_case, memory_case, register_case, control_case, skip_bytes, illegal, find_case,
  execute_opcode,
}
use oric2_golden_model.Cpu.Run.{
  handle_irq_or_nmi, count_cycles, step_nmi, step_irq, step_opcode, step,
}
use oric2_golden_model.Cpu.Valid.{IsValid, Any, Yields, Keeps, yields_rules}
use oric2_golden_model.Cpu.Valid.Access.{Yields-fetch_byte}
use oric2_golden_model.Cpu.Valid.Alu.{p-IsValid, if-IsValid}
use oric2_golden_model.Cpu.Valid.Shapes.{KeepsFound, not_found, found}
use oric2_golden_model.Cpu.Valid.Operand.{
  KeepsCases-lda_cases, KeepsCases-lda_long_cases, KeepsCases-alu_long_cases,
  KeepsCases-dp_indirect_cases, KeepsCases-ldx_cases, KeepsCases-ldy_cases, KeepsCases-adc_cases,
  KeepsCases-sbc_cases, KeepsCases-and_cases, KeepsCases-ora_cases, KeepsCases-eor_cases,
  KeepsCases-cmp_cases, KeepsCases-cpx_cases, KeepsCases-cpy_cases, KeepsCases-bit_cases,
}
use oric2_golden_model.Cpu.Valid.Memory.{
  KeepsCases-sta_long_cases, KeepsCases-sta_dp_indirect_cases, KeepsCases-sta_cases,
  KeepsCases-stx_cases, KeepsCases-sty_cases, KeepsCases-stz_cases, KeepsCases-asl_cases,
  KeepsCases-lsr_cases, KeepsCases-rol_cases, KeepsCases-ror_cases, KeepsCases-inc_cases,
  KeepsCases-dec_cases,
}
use oric2_golden_model.Cpu.Valid.Registers.{
  KeepsCases-shift_a_cases, KeepsCases-inc_a_cases, KeepsCases-index_cases,
  KeepsCases-transfer_cases, KeepsCases-native_transfer_cases, KeepsCases-flag_cases,
  KeepsCases-rep_sep_cases, KeepsCases-xce_cases, KeepsCases-wdm_cases, KeepsCases-stop_cases,
  KeepsCases-nop_cases,
}
use oric2_golden_model.Cpu.Valid.Control.{
  KeepsCases-stack_cases, KeepsCases-native_stack_cases, KeepsCases-branch_cases,
  KeepsCases-bra_cases, KeepsCases-jump_cases,
}
use oric2_golden_model.Cpu.Valid.Blocks.{KeepsCases-block_cases}
use oric2_golden_model.Cpu.Valid.Interrupt.{
  KeepsCases-interrupt_cases, Yields-push_frame, Yields-go_vector,
}

module _ {D : Type 0} where
  -- The cases of a group of the switch, before cases that keep the core valid.
  KeepsFound-operand_case :
      (op : ℕ) (rest : Option (Action D)) → KeepsFound rest → KeepsFound (operand_case op rest)
  unfolding operand_case
  KeepsFound-operand_case op rest h = KeepsCases-lda_cases.search_in op _ (
      KeepsCases-lda_long_cases.search_in op _ (
        KeepsCases-alu_long_cases.search_in op _ (
          KeepsCases-dp_indirect_cases.search_in op _ (
            KeepsCases-ldx_cases.search_in op _ (
              KeepsCases-ldy_cases.search_in op _ (
                KeepsCases-adc_cases.search_in op _ (
                  KeepsCases-sbc_cases.search_in op _ (
                    KeepsCases-and_cases.search_in op _ (
                      KeepsCases-ora_cases.search_in op _ (
                        KeepsCases-eor_cases.search_in op _ (
                          KeepsCases-cmp_cases.search_in op _ (
                            KeepsCases-cpx_cases.search_in op _ (
                              KeepsCases-cpy_cases.search_in op _
                                (KeepsCases-bit_cases.search_in op rest h))))))))))))))

  KeepsFound-memory_case :
      (op : ℕ) (rest : Option (Action D)) → KeepsFound rest → KeepsFound (memory_case op rest)
  unfolding memory_case
  KeepsFound-memory_case op rest h = KeepsCases-sta_long_cases.search_in op _ (
      KeepsCases-sta_dp_indirect_cases.search_in op _ (
        KeepsCases-sta_cases.search_in op _ (
          KeepsCases-stx_cases.search_in op _ (
            KeepsCases-sty_cases.search_in op _ (
              KeepsCases-stz_cases.search_in op _ (
                KeepsCases-asl_cases.search_in op _ (
                  KeepsCases-lsr_cases.search_in op _ (
                    KeepsCases-rol_cases.search_in op _ (
                      KeepsCases-ror_cases.search_in op _ (
                        KeepsCases-inc_cases.search_in op _
                          (KeepsCases-dec_cases.search_in op rest h)))))))))))

  KeepsFound-register_case :
      (op : ℕ) (rest : Option (Action D)) → KeepsFound rest → KeepsFound (register_case op rest)
  unfolding register_case
  KeepsFound-register_case op rest h = KeepsCases-shift_a_cases.search_in op _ (
      KeepsCases-inc_a_cases.search_in op _ (
        KeepsCases-index_cases.search_in op _ (
          KeepsCases-transfer_cases.search_in op _ (
            KeepsCases-native_transfer_cases.search_in op _ (
              KeepsCases-flag_cases.search_in op _ (
                KeepsCases-rep_sep_cases.search_in op _ (
                  KeepsCases-xce_cases.search_in op _ (
                    KeepsCases-wdm_cases.search_in op _ (
                      KeepsCases-stop_cases.search_in op _
                        (KeepsCases-nop_cases.search_in op rest h))))))))))

  KeepsFound-control_case :
      (op : ℕ) (rest : Option (Action D)) → KeepsFound rest → KeepsFound (control_case op rest)
  unfolding control_case
  KeepsFound-control_case op rest h = KeepsCases-stack_cases.search_in op _ (
      KeepsCases-native_stack_cases.search_in op _ (
        KeepsCases-branch_cases.search_in op _ (
          KeepsCases-bra_cases.search_in op _ (
            KeepsCases-jump_cases.search_in op _ (
              KeepsCases-block_cases.search_in op _
                (KeepsCases-interrupt_cases.search_in op rest h))))))

  KeepsFound-find_case : (op : ℕ) → KeepsFound {D = D} (find_case op)
  unfolding find_case
  KeepsFound-find_case op = KeepsFound-operand_case op _ (
      KeepsFound-memory_case op _
        (KeepsFound-register_case op _ (KeepsFound-control_case op _ not_found)))

  skip_bytes-IsValid : (n : ℕ) (s : Cpu D) → IsValid s → IsValid (skip_bytes n s)
  unfolding skip_bytes
  skip_bytes-IsValid zero s v = v
  skip_bytes-IsValid (suc n) s v = skip_bytes-IsValid n _ (Yields-fetch_byte.at s v).0

  Keeps-skip_bytes : (n : ℕ) → Keeps {D = D} (skip_bytes n)
  Keeps-skip_bytes n = record { at = skip_bytes-IsValid n }

  Yields-illegal : (op cycles : ℕ) → Yields {D = D} Any (illegal op cycles)
  unfolding illegal
  Yields-illegal op cycles = search (yields_rules, Keeps-skip_bytes)

  Yields-found :
      (op cycles : ℕ) (o : Option (Action D))
      → KeepsFound o
      → Yields Any
          (let m : M D ℕ = elim o [ none ↦ illegal op cycles | some act ↦ act cycles ] in m)
  Yields-found op cycles none not_found = Yields-illegal op cycles
  Yields-found op cycles (some act) (found h) = h.for cycles

  Yields-execute_opcode : (op : ℕ) → Yields {D = D} Any (execute_opcode op)
  unfolding execute_opcode
  Yields-execute_opcode op = Yields-found op _ (find_case op) (KeepsFound-find_case op)

  pub Keeps-count_cycles : (n : ℕ) → Keeps {D = D} (count_cycles n)
  unfolding count_cycles
  Keeps-count_cycles n = record { at = λ s v. ground arith }

  Yields-step_opcode : Yields {D = D} Any step_opcode
  unfolding step_opcode
  Yields-step_opcode =
      search (yields_rules, Yields-fetch_byte, Yields-execute_opcode, Keeps-count_cycles) depth 9

  Keeps-mask : Keeps {D = D} (λ s. record s { p = bit_or s.p flag_interrupt })
  Keeps-mask = record { at = λ s v. p-IsValid _ s v (bit_or_byte s.p 4 v.p (omega arith)) }

  Keeps-binary : Keeps {D = D} (λ s. if s.e then s else record s { p = clear8 s.p flag_decimal })
  Keeps-binary = record {
    at = λ s v. if-IsValid s.e v (p-IsValid _ s v (omega (arith, bit_and-le s.p 247, v.p)));
  }

  pub Keeps-wake : Keeps {D = D} (λ s. record s { waiting = false })
  Keeps-wake = record { at = λ s v. ground arith }

  Yields-handle : (vector : ℕ) → Yields {D = D} Any (handle_irq_or_nmi vector)
  unfolding handle_irq_or_nmi
  Yields-handle vector =
      search
        (yields_rules, Yields-push_frame, Yields-go_vector, Keeps-mask, Keeps-binary, Keeps-wake)
        depth 16

  pub Keeps-taken : Keeps {D = D} (λ s. record s { nmi_pending = false })
  Keeps-taken = record { at = λ s v. ground arith }

  Yields-step_nmi : Yields {D = D} Any step_nmi
  unfolding step_nmi
  Yields-step_nmi = search (yields_rules, Yields-handle, Keeps-taken, Keeps-count_cycles) depth 12

  Yields-step_irq : Yields {D = D} Any step_irq
  unfolding step_irq
  Yields-step_irq = search (yields_rules, Yields-handle, Keeps-count_cycles) depth 12

  -- A result of the core together with a valid state.
  record Result (r : ℕ × Cpu D) : Type 0 where
    valid : IsValid r.1

  Result-if : (b : Bool) {r t : ℕ × Cpu D} → Result r → Result t → Result (if b then r else t)
  Result-if true hr ht = hr
  Result-if false hr ht = ht

  step-Result : (s : Cpu D) → IsValid s → Result (step s)
  unfolding step
  step-Result s v =
      Result-if (s.halted || s.stopped) (record { valid = v })
        (Result-if (s.waiting && (not s.nmi_pending && s.irq == 0)) (record { valid = v })
          (Result-if s.nmi_pending (record { valid = (Yields-step_nmi.at s v).0 })
            (Result-if (not (s.irq == 0) && not (has s.p flag_interrupt))
              (record { valid = (Yields-step_irq.at s v).0 })
              (record { valid = (Yields-step_opcode.at s v).0 }))))

  -- Whatever the opcode at the program counter, and whatever interrupts are pending, a step of the core
  -- takes a valid state to a valid state: every register stays within its width, emulation mode keeps
  -- X and Y to a byte and the stack in page 1, and the bus goes on holding bytes.
  pub step-IsValid : (s : Cpu D) → IsValid s → IsValid (step s).1
  step-IsValid s v = (step-Result s v).valid
