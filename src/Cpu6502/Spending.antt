-- ===== src/Cpu6502/Spending.antt =====
-- The cases of the 6502's switch: each returns its base cycles at least, and leaves the bus a bus of bytes.
use oric2_golden_model.Base.{ℕ, zero, suc, ◌-◌, ◌≤◌, Bool, [], ◌∷◌, ◌++◌, arith}
use oric2_golden_model.Cpu6502
use oric2_golden_model.Cpu6502.{Cpu6502, N}
use oric2_golden_model.Cpu.Table.{opcode_table}
use oric2_golden_model.Memory.Bytes.{HoldsBytes}
use oric2_golden_model.Cpu6502.Bytes.{KeepsMemory, KeepsBytes, KeepsBytes-cpu_fetch_byte}
use oric2_golden_model.Cpu6502.Bytes.Changes.{
  bus_rules, KeepsMemoryAt, KeepsBytesAt, KeepsMemoryAt-set_status,
}
use oric2_golden_model.Cpu6502.Access.{cpu_fetch_byte}
use oric2_golden_model.Cpu6502.Exec.{cases, default_case, skip_operand}
use oric2_golden_model.Cpu6502.Exec.Operand.{
  lda_cases, ldx_cases, ldy_cases, sta_cases, stx_cases, sty_cases, adc_cases, sbc_cases, and_cases,
  ora_cases, eor_cases, cmp_cases, cpx_cases, cpy_cases, bit_cases,
}
use oric2_golden_model.Cpu6502.Exec.Registers.{
  asl_cases, lsr_cases, rol_cases, ror_cases, inc_cases, dec_cases, index_cases, transfer_cases,
  stack_cases, branch_cases, jump_cases, flag_cases, nop_cases,
}
use oric2_golden_model.Cpu6502.Exec.Shapes.{
  Action, Cases, on_operand, store, change_byte, on_registers, push_value, pull_value, branch_if,
  jmp, jsr, rts, rti, brk,
}

module _ {D : Type 0} where
  -- A case that returns the base cycles of its opcode at least, and leaves the bus a bus of bytes.
  pub record Spends (act : Action D) : Type 0 where
    pub at_least : (cycles : ℕ) (s : Cpu6502 D) → cycles ≤ (act cycles s).0
    pub keeps : (cycles : ℕ) → KeepsBytes {D = D} (act cycles)

  pub data AllSpend : Cases D → Type 0 where
    all_nil : AllSpend []
    all_cons :
        {op : ℕ} {act : Action D} {rest : Cases D}
        → Spends act
        → AllSpend rest
        → AllSpend ((op, act) ∷ rest)

  AllSpend-append :
      {cases cases' : Cases D} → AllSpend cases → AllSpend cases' → AllSpend (cases ++ cases')
  AllSpend-append all_nil h' = h'
  AllSpend-append (all_cons h hs) h' = all_cons h (AllSpend-append hs h')

  keeps_on_operand :
      {mode : N D (ℕ × Bool)} {act : ℕ → Cpu6502 D → Cpu6502 D}
      → KeepsBytes mode
      → KeepsMemoryAt act
      → (cycles : ℕ) → KeepsBytes {D = D} (on_operand mode act cycles)
  unfolding on_operand
  keeps_on_operand h0 h1 cycles = search (bus_rules, h1.for) depth 16

  Spends-on_operand :
      {mode : N D (ℕ × Bool)} {act : ℕ → Cpu6502 D → Cpu6502 D}
      → KeepsBytes mode
      → KeepsMemoryAt act
      → Spends (on_operand mode act)
  unfolding on_operand Cpu6502.◌>>=◌ Cpu6502.pure
  Spends-on_operand h0 h1 = record { at_least = λ n s. omega arith; keeps = keeps_on_operand h0 h1 }

  keeps_store :
      {mode : N D ℕ} (reg : Cpu6502 D → ℕ)
      → KeepsBytes mode
      → (cycles : ℕ) → KeepsBytes {D = D} (store mode reg cycles)
  unfolding store
  keeps_store reg h0 cycles = search (bus_rules) depth 16

  Spends-store : {mode : N D ℕ} (reg : Cpu6502 D → ℕ) → KeepsBytes mode → Spends (store mode reg)
  unfolding store Cpu6502.◌>>=◌ Cpu6502.pure
  Spends-store reg h0 = record { at_least = λ n s. omega arith; keeps = keeps_store reg h0 }

  keeps_change_byte :
      {mode : N D ℕ} {change : ℕ → N D ℕ}
      → KeepsBytes mode
      → KeepsBytesAt change
      → (cycles : ℕ) → KeepsBytes {D = D} (change_byte mode change cycles)
  unfolding change_byte
  keeps_change_byte h0 h1 cycles = search (bus_rules, h1.for) depth 20

  Spends-change_byte :
      {mode : N D ℕ} {change : ℕ → N D ℕ}
      → KeepsBytes mode
      → KeepsBytesAt change
      → Spends (change_byte mode change)
  unfolding change_byte Cpu6502.◌>>=◌ Cpu6502.pure
  Spends-change_byte h0 h1 = record {
    at_least = λ n s. omega arith;
    keeps = keeps_change_byte h0 h1;
  }

  keeps_on_registers :
      {change : Cpu6502 D → Cpu6502 D}
      → KeepsMemory change
      → (cycles : ℕ) → KeepsBytes {D = D} (on_registers change cycles)
  unfolding on_registers
  keeps_on_registers h0 cycles = search (bus_rules) depth 16

  Spends-on_registers :
      {change : Cpu6502 D → Cpu6502 D} → KeepsMemory change → Spends (on_registers change)
  unfolding on_registers Cpu6502.◌>>=◌ Cpu6502.pure
  Spends-on_registers h0 = record { at_least = λ n s. omega arith; keeps = keeps_on_registers h0 }

  keeps_push_value :
      (value : Cpu6502 D → ℕ) → (cycles : ℕ) → KeepsBytes {D = D} (push_value value cycles)
  unfolding push_value
  keeps_push_value value cycles = search (bus_rules) depth 16

  Spends-push_value : (value : Cpu6502 D → ℕ) → Spends (push_value value)
  unfolding push_value Cpu6502.◌>>=◌ Cpu6502.pure
  Spends-push_value value = record { at_least = λ n s. omega arith; keeps = keeps_push_value value }

  keeps_pull_value :
      {act : ℕ → Cpu6502 D → Cpu6502 D}
      → KeepsMemoryAt act
      → (cycles : ℕ) → KeepsBytes {D = D} (pull_value act cycles)
  unfolding pull_value
  keeps_pull_value h0 cycles = search (bus_rules, h0.for) depth 16

  Spends-pull_value :
      {act : ℕ → Cpu6502 D → Cpu6502 D} → KeepsMemoryAt act → Spends (pull_value act)
  unfolding pull_value Cpu6502.◌>>=◌ Cpu6502.pure
  Spends-pull_value h0 = record { at_least = λ n s. omega arith; keeps = keeps_pull_value h0 }

  keeps_branch_if :
      (f : ℕ) (wanted : Bool) → (cycles : ℕ) → KeepsBytes {D = D} (branch_if f wanted cycles)
  unfolding branch_if
  keeps_branch_if f wanted cycles = search (bus_rules) depth 16

  Spends-branch_if : (f : ℕ) (wanted : Bool) → Spends (branch_if f wanted)
  unfolding branch_if Cpu6502.◌>>=◌ Cpu6502.pure
  Spends-branch_if f wanted = record {
    at_least = λ n s. omega arith;
    keeps = keeps_branch_if f wanted;
  }

  keeps_jmp : {mode : N D ℕ} → KeepsBytes mode → (cycles : ℕ) → KeepsBytes {D = D} (jmp mode cycles)
  unfolding jmp
  keeps_jmp h0 cycles = search (bus_rules) depth 16

  Spends-jmp : {mode : N D ℕ} → KeepsBytes mode → Spends (jmp mode)
  unfolding jmp Cpu6502.◌>>=◌ Cpu6502.pure
  Spends-jmp h0 = record { at_least = λ n s. omega arith; keeps = keeps_jmp h0 }

  keeps_jsr : (cycles : ℕ) → KeepsBytes {D = D} (jsr cycles)
  unfolding jsr
  keeps_jsr cycles = search (bus_rules) depth 16

  Spends-jsr : Spends jsr
  unfolding jsr Cpu6502.◌>>=◌ Cpu6502.pure
  Spends-jsr = record { at_least = λ n s. omega arith; keeps = keeps_jsr }

  keeps_rts : (cycles : ℕ) → KeepsBytes {D = D} (rts cycles)
  unfolding rts
  keeps_rts cycles = search (bus_rules) depth 16

  Spends-rts : Spends rts
  unfolding rts Cpu6502.◌>>=◌ Cpu6502.pure
  Spends-rts = record { at_least = λ n s. omega arith; keeps = keeps_rts }

  keeps_rti : (cycles : ℕ) → KeepsBytes {D = D} (rti cycles)
  unfolding rti
  keeps_rti cycles =
      let status = KeepsMemoryAt-set_status {D = D} in search (bus_rules, status.for) depth 20

  Spends-rti : Spends rti
  unfolding rti Cpu6502.◌>>=◌ Cpu6502.pure
  Spends-rti = record { at_least = λ n s. omega arith; keeps = keeps_rti }

  keeps_brk : (cycles : ℕ) → KeepsBytes {D = D} (brk cycles)
  unfolding brk
  keeps_brk cycles = search (bus_rules) depth 20

  Spends-brk : Spends brk
  unfolding brk Cpu6502.◌>>=◌ Cpu6502.pure
  Spends-brk = record { at_least = λ n s. omega arith; keeps = keeps_brk }

  Spends-pure : Spends Cpu6502.pure
  unfolding Cpu6502.pure
  Spends-pure = record { at_least = λ n s. omega arith; keeps = λ n. record { at = λ s h. h } }

  skip_operand-HoldsBytes :
      (n : ℕ) (s : Cpu6502 D) → HoldsBytes s.memory → HoldsBytes (skip_operand n s).memory
  unfolding skip_operand
  skip_operand-HoldsBytes zero s h = h
  skip_operand-HoldsBytes (suc n) s h =
      skip_operand-HoldsBytes n (cpu_fetch_byte s).1 (let f = KeepsBytes-cpu_fetch_byte in f.at s h)

  pub Spends-default_case : (op : ℕ) → Spends (default_case op)
  unfolding default_case Cpu6502.◌>>=◌ Cpu6502.pure Cpu6502.modify
  Spends-default_case op = record {
    at_least = λ n s. omega arith;
    keeps = λ n. record { at = λ s h. skip_operand-HoldsBytes ((opcode_table op).size - 1) s h };
  }

  ruleset spend_rules = (
    bus_rules, all_nil, all_cons, AllSpend-append, Spends-on_operand, Spends-store,
    Spends-change_byte, Spends-on_registers, Spends-push_value, Spends-pull_value, Spends-branch_if,
    Spends-jmp, Spends-jsr, Spends-rts, Spends-rti, Spends-brk, Spends-pure,
  )

  AllSpend-lda_cases : AllSpend lda_cases
  unfolding lda_cases
  AllSpend-lda_cases = search (spend_rules) depth 20

  AllSpend-ldx_cases : AllSpend ldx_cases
  unfolding ldx_cases
  AllSpend-ldx_cases = search (spend_rules) depth 20

  AllSpend-ldy_cases : AllSpend ldy_cases
  unfolding ldy_cases
  AllSpend-ldy_cases = search (spend_rules) depth 20

  AllSpend-sta_cases : AllSpend sta_cases
  unfolding sta_cases
  AllSpend-sta_cases = search (spend_rules) depth 20

  AllSpend-stx_cases : AllSpend stx_cases
  unfolding stx_cases
  AllSpend-stx_cases = search (spend_rules) depth 20

  AllSpend-sty_cases : AllSpend sty_cases
  unfolding sty_cases
  AllSpend-sty_cases = search (spend_rules) depth 20

  AllSpend-adc_cases : AllSpend adc_cases
  unfolding adc_cases
  AllSpend-adc_cases = search (spend_rules) depth 20

  AllSpend-sbc_cases : AllSpend sbc_cases
  unfolding sbc_cases
  AllSpend-sbc_cases = search (spend_rules) depth 20

  AllSpend-and_cases : AllSpend and_cases
  unfolding and_cases
  AllSpend-and_cases = search (spend_rules) depth 20

  AllSpend-ora_cases : AllSpend ora_cases
  unfolding ora_cases
  AllSpend-ora_cases = search (spend_rules) depth 20

  AllSpend-eor_cases : AllSpend eor_cases
  unfolding eor_cases
  AllSpend-eor_cases = search (spend_rules) depth 20

  AllSpend-cmp_cases : AllSpend cmp_cases
  unfolding cmp_cases
  AllSpend-cmp_cases = search (spend_rules) depth 20

  AllSpend-cpx_cases : AllSpend cpx_cases
  unfolding cpx_cases
  AllSpend-cpx_cases = search (spend_rules) depth 20

  AllSpend-cpy_cases : AllSpend cpy_cases
  unfolding cpy_cases
  AllSpend-cpy_cases = search (spend_rules) depth 20

  AllSpend-bit_cases : AllSpend bit_cases
  unfolding bit_cases
  AllSpend-bit_cases = search (spend_rules) depth 20

  AllSpend-asl_cases : AllSpend asl_cases
  unfolding asl_cases
  AllSpend-asl_cases = search (spend_rules) depth 20

  AllSpend-lsr_cases : AllSpend lsr_cases
  unfolding lsr_cases
  AllSpend-lsr_cases = search (spend_rules) depth 20

  AllSpend-rol_cases : AllSpend rol_cases
  unfolding rol_cases
  AllSpend-rol_cases = search (spend_rules) depth 20

  AllSpend-ror_cases : AllSpend ror_cases
  unfolding ror_cases
  AllSpend-ror_cases = search (spend_rules) depth 20

  AllSpend-inc_cases : AllSpend inc_cases
  unfolding inc_cases
  AllSpend-inc_cases = search (spend_rules) depth 20

  AllSpend-dec_cases : AllSpend dec_cases
  unfolding dec_cases
  AllSpend-dec_cases = search (spend_rules) depth 20

  AllSpend-index_cases : AllSpend index_cases
  unfolding index_cases
  AllSpend-index_cases = search (spend_rules) depth 20

  AllSpend-transfer_cases : AllSpend transfer_cases
  unfolding transfer_cases
  AllSpend-transfer_cases = search (spend_rules) depth 20

  AllSpend-stack_cases : AllSpend stack_cases
  unfolding stack_cases
  AllSpend-stack_cases = search (spend_rules) depth 20

  AllSpend-branch_cases : AllSpend branch_cases
  unfolding branch_cases
  AllSpend-branch_cases = search (spend_rules) depth 20

  AllSpend-jump_cases : AllSpend jump_cases
  unfolding jump_cases
  AllSpend-jump_cases = search (spend_rules) depth 20

  AllSpend-flag_cases : AllSpend flag_cases
  unfolding flag_cases
  AllSpend-flag_cases = search (spend_rules) depth 20

  AllSpend-nop_cases : AllSpend nop_cases
  unfolding nop_cases
  AllSpend-nop_cases = search (spend_rules) depth 20

  pub AllSpend-cases : AllSpend cases
  unfolding cases
  AllSpend-cases = AllSpend-append AllSpend-lda_cases (
      AllSpend-append AllSpend-ldx_cases (
        AllSpend-append AllSpend-ldy_cases (
          AllSpend-append AllSpend-sta_cases (
            AllSpend-append AllSpend-stx_cases (
              AllSpend-append AllSpend-sty_cases (
                AllSpend-append AllSpend-adc_cases (
                  AllSpend-append AllSpend-sbc_cases (
                    AllSpend-append AllSpend-and_cases (
                      AllSpend-append AllSpend-ora_cases (
                        AllSpend-append AllSpend-eor_cases (
                          AllSpend-append AllSpend-cmp_cases (
                            AllSpend-append AllSpend-cpx_cases (
                              AllSpend-append AllSpend-cpy_cases (
                                AllSpend-append AllSpend-bit_cases (
                                  AllSpend-append AllSpend-asl_cases (
                                    AllSpend-append AllSpend-lsr_cases (
                                      AllSpend-append AllSpend-rol_cases (
                                        AllSpend-append AllSpend-ror_cases (
                                          AllSpend-append AllSpend-inc_cases (
                                            AllSpend-append AllSpend-dec_cases (
                                              AllSpend-append AllSpend-index_cases (
                                                AllSpend-append AllSpend-transfer_cases (
                                                  AllSpend-append AllSpend-stack_cases (
                                                    AllSpend-append AllSpend-branch_cases (
                                                      AllSpend-append AllSpend-jump_cases (
                                                        AllSpend-append AllSpend-flag_cases
                                                          AllSpend-nop_cases))))))))))))))))))))))))))
