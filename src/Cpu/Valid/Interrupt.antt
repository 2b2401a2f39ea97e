-- ===== src/Cpu/Valid/Interrupt.antt =====
-- BRK, COP, RTI and the entry into an interrupt keep the core valid.
use oric2_golden_model.Base.{ℕ, ◌+◌, true, false, arith, if◌then◌else◌, u16, word}
use oric2_golden_model.Cpu.State.{flag_interrupt, flag_decimal, Cpu}
use oric2_golden_model.Cpu.Access.{setf}
use oric2_golden_model.Cpu.Exec.Interrupt.{
  rti, push_bank, push_frame, go_vector, cop, brk, interrupt_cases,
}
use oric2_golden_model.Cpu.Valid.{Any, Yields, Keeps, yields_rules}
use oric2_golden_model.Cpu.Valid.Access.{
  Yields-mem_read, Yields-push, Yields-pull, Yields-push_word, Yields-pull_word,
}
use oric2_golden_model.Cpu.Valid.Alu.{setf-IsValid, if-IsValid}
use oric2_golden_model.Cpu.Valid.Control.{word-lt, Keeps-pc, Keeps-pbr, Keeps-take_status}
use oric2_golden_model.Cpu.Valid.Shapes.{KeepsCase, KeepsCases, shape_rules}

module _ {D : Type 0} where
  Keeps-bank_zero : Keeps {D = D} (λ s. record s { pbr = 0 })
  Keeps-bank_zero = Keeps-pbr 0 (omega arith)

  pub Yields-push_frame : (status : ℕ → ℕ) → Yields {D = D} Any (push_frame status)
  unfolding push_frame push_bank
  Yields-push_frame status =
      search (yields_rules, Yields-push, Yields-push_word, Keeps-bank_zero) depth 12

  Keeps-vector : (lo hi : ℕ) → Keeps {D = D} (λ s. record s { pc = word lo hi })
  Keeps-vector lo hi = Keeps-pc (word lo hi) (word-lt lo hi)

  pub Yields-go_vector : (vector : ℕ) → Yields {D = D} Any (go_vector vector)
  unfolding go_vector
  Yields-go_vector vector = search (yields_rules, Yields-mem_read, Keeps-vector) depth 12

  Keeps-skip_signature : Keeps {D = D} (λ s. record s { pc = u16 (s.pc + 1) })
  Keeps-skip_signature = record { at = λ s v. (Keeps-pc (u16 (s.pc + 1)) (omega arith)).at s v }

  Keeps-mask : Keeps {D = D} (setf flag_interrupt true)
  Keeps-mask = record { at = λ s v. setf-IsValid flag_interrupt true s (omega arith) v }

  Keeps-binary : Keeps {D = D} (setf flag_decimal false)
  Keeps-binary = record { at = λ s v. setf-IsValid flag_decimal false s (omega arith) v }

  pub Keeps-if_native : {f : Cpu D → Cpu D} → Keeps f → Keeps (λ s. if s.e then s else f s)
  Keeps-if_native h = record { at = λ s v. if-IsValid s.e v (h.at s v) }

  KeepsCase-rti : KeepsCase {D = D} rti
  unfolding rti
  KeepsCase-rti = record {
    for = λ n.
        search (yields_rules, Yields-pull, Yields-pull_word, Keeps-take_status, Keeps-pc, Keeps-pbr)
          depth 16;
  }

  KeepsCase-cop : KeepsCase {D = D} cop
  unfolding cop
  KeepsCase-cop = record {
    for = λ n.
        search
          (
            yields_rules, Keeps-skip_signature, Yields-push_frame, Keeps-mask, Keeps-binary,
            Yields-go_vector,
          )
          depth 16;
  }

  KeepsCase-brk : KeepsCase {D = D} brk
  unfolding brk
  KeepsCase-brk = record {
    for = λ n.
        search
          (
            yields_rules, Keeps-skip_signature, Yields-push_frame, Keeps-mask, Keeps-binary,
            Keeps-if_native, Yields-go_vector,
          )
          depth 16;
  }

  pub KeepsCases-interrupt_cases : KeepsCases {D = D} interrupt_cases
  unfolding interrupt_cases
  KeepsCases-interrupt_cases =
      search (shape_rules, KeepsCase-rti, KeepsCase-cop, KeepsCase-brk) depth 20
