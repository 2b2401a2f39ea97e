-- ===== src/Cpu6502/Bytes/Changes.antt =====
-- What the opcodes of the 6502 do with operands and registers leaves the bus alone.
use oric2_golden_model.Base.{
  ℕ, bit_and, bit_or, bit_xor, ◌≡◌, refl, Bool, true, false, if◌then◌else◌,
}
use oric2_golden_model.Cpu.State.{flag_decimal}
use oric2_golden_model.Cpu6502.{Cpu6502, N}
use oric2_golden_model.Cpu6502.Access.{cpu_get_flag, cpu_set_flag}
use oric2_golden_model.Cpu6502.Alu.{
  lda, ldx, ldy, bit, op_adc, op_adc_binary, op_adc_decimal, op_sbc, op_sbc_binary, op_sbc_decimal,
  op_cmp, asl, lsr, rol, ror, inc, dec, update_nz,
}
use oric2_golden_model.Cpu6502.Exec.Registers.{on_a}
use oric2_golden_model.Cpu6502.Exec.Shapes.{set_status, do_branch, interrupt}
use oric2_golden_model.Cpu6502.Bytes.{
  KeepsMemory, KeepsBytes, KeepsBytes-pure, KeepsBytes-gets, KeepsBytes-if, KeepsBytes-modify,
  KeepsBytes-bind, KeepsBytes-cpu_mem_read, KeepsBytes-cpu_mem_write, KeepsMemory-pc,
  KeepsMemory-sp, bytes_rules, KeepsBytes-addr_immediate, KeepsBytes-cpu_fetch_byte,
  KeepsBytes-cpu_push, KeepsBytes-cpu_pull, KeepsBytes-cpu_push_word, KeepsBytes-cpu_pull_word,
  KeepsBytes-cpu_fetch_word_pc, KeepsBytes-page_zero_pointer, KeepsBytes-addr_zero_page,
  KeepsBytes-addr_zero_page_x, KeepsBytes-addr_zero_page_y, KeepsBytes-addr_absolute,
  KeepsBytes-addr_indirect, KeepsBytes-addr_indexed_indirect, KeepsBytes-addr_relative,
  KeepsBytes-addr_absolute_x, KeepsBytes-addr_absolute_y, KeepsBytes-addr_indirect_indexed,
  KeepsBytes-plain, KeepsBytes-no_cross,
}

module _ {D : Type 0} where
  -- What opcodes do with an operand, and with the registers.
  pub record KeepsMemoryAt (act : ℕ → Cpu6502 D → Cpu6502 D) : Type 0 where
    pub for : (n : ℕ) → KeepsMemory (act n)

  at_each :
      {act : ℕ → Cpu6502 D → Cpu6502 D}
      → ((n : ℕ) (s : Cpu6502 D) → (act n s).memory ≡ s.memory)
      → KeepsMemoryAt act
  at_each h = record { for = λ n. record { same = h n } }

  either_memory :
      (b : Bool) (s t u : Cpu6502 D)
      → s.memory ≡ u.memory
      → t.memory ≡ u.memory
      → (if b then s else t).memory ≡ u.memory
  either_memory true s t u hs ht = hs
  either_memory false s t u hs ht = ht

  pub KeepsMemoryAt-lda : KeepsMemoryAt lda
  unfolding lda update_nz cpu_set_flag
  KeepsMemoryAt-lda = at_each λ n s. refl

  pub KeepsMemoryAt-ldx : KeepsMemoryAt ldx
  unfolding ldx update_nz cpu_set_flag
  KeepsMemoryAt-ldx = at_each λ n s. refl

  pub KeepsMemoryAt-ldy : KeepsMemoryAt ldy
  unfolding ldy update_nz cpu_set_flag
  KeepsMemoryAt-ldy = at_each λ n s. refl

  pub KeepsMemoryAt-bit : KeepsMemoryAt bit
  unfolding bit cpu_set_flag
  KeepsMemoryAt-bit = at_each λ n s. refl

  pub KeepsMemoryAt-set_status : KeepsMemoryAt set_status
  unfolding set_status cpu_set_flag
  KeepsMemoryAt-set_status = at_each λ n s. refl

  pub KeepsMemoryAt-op_adc : KeepsMemoryAt op_adc
  unfolding op_adc op_adc_decimal op_adc_binary update_nz cpu_set_flag
  KeepsMemoryAt-op_adc = at_each λ n s.
      either_memory (cpu_get_flag flag_decimal s) (op_adc_decimal n s) (op_adc_binary n s) s refl
        refl

  pub KeepsMemoryAt-op_sbc : KeepsMemoryAt op_sbc
  unfolding op_sbc op_sbc_decimal op_sbc_binary update_nz cpu_set_flag
  KeepsMemoryAt-op_sbc = at_each λ n s.
      either_memory (cpu_get_flag flag_decimal s) (op_sbc_decimal n s) (op_sbc_binary n s) s refl
        refl

  pub KeepsMemoryAt-and : KeepsMemoryAt (λ v s. lda (bit_and s.a v) s)
  unfolding lda update_nz cpu_set_flag
  KeepsMemoryAt-and = at_each λ n s. refl

  pub KeepsMemoryAt-or : KeepsMemoryAt (λ v s. lda (bit_or s.a v) s)
  unfolding lda update_nz cpu_set_flag
  KeepsMemoryAt-or = at_each λ n s. refl

  pub KeepsMemoryAt-xor : KeepsMemoryAt (λ v s. lda (bit_xor s.a v) s)
  unfolding lda update_nz cpu_set_flag
  KeepsMemoryAt-xor = at_each λ n s. refl

  pub KeepsMemoryAt-cmp_a : KeepsMemoryAt (λ v s. op_cmp s.a v s)
  unfolding op_cmp update_nz cpu_set_flag
  KeepsMemoryAt-cmp_a = at_each λ n s. refl

  pub KeepsMemoryAt-cmp_x : KeepsMemoryAt (λ v s. op_cmp s.x v s)
  unfolding op_cmp update_nz cpu_set_flag
  KeepsMemoryAt-cmp_x = at_each λ n s. refl

  pub KeepsMemoryAt-cmp_y : KeepsMemoryAt (λ v s. op_cmp s.y v s)
  unfolding op_cmp update_nz cpu_set_flag
  KeepsMemoryAt-cmp_y = at_each λ n s. refl

  -- What a read-modify-write opcode does with the byte.
  pub record KeepsBytesAt (change : ℕ → N D ℕ) : Type 0 where
    pub for : (n : ℕ) → KeepsBytes (change n)

  pub KeepsBytesAt-asl : KeepsBytesAt asl
  unfolding asl cpu_set_flag
  KeepsBytesAt-asl = record { for = λ n. record { at = λ s h. h } }

  pub KeepsBytesAt-lsr : KeepsBytesAt lsr
  unfolding lsr cpu_set_flag
  KeepsBytesAt-lsr = record { for = λ n. record { at = λ s h. h } }

  pub KeepsBytesAt-rol : KeepsBytesAt rol
  unfolding rol cpu_set_flag
  KeepsBytesAt-rol = record { for = λ n. record { at = λ s h. h } }

  pub KeepsBytesAt-ror : KeepsBytesAt ror
  unfolding ror cpu_set_flag
  KeepsBytesAt-ror = record { for = λ n. record { at = λ s h. h } }

  pub KeepsBytesAt-inc : KeepsBytesAt inc
  unfolding inc cpu_set_flag
  KeepsBytesAt-inc = record { for = λ n. record { at = λ s h. h } }

  pub KeepsBytesAt-dec : KeepsBytesAt dec
  unfolding dec cpu_set_flag
  KeepsBytesAt-dec = record { for = λ n. record { at = λ s h. h } }

  pub KeepsMemory-on_a-asl : KeepsMemory {D = D} (on_a asl)
  unfolding on_a asl lda update_nz cpu_set_flag
  KeepsMemory-on_a-asl = record { same = λ s. refl }

  pub KeepsMemory-on_a-lsr : KeepsMemory {D = D} (on_a lsr)
  unfolding on_a lsr lda update_nz cpu_set_flag
  KeepsMemory-on_a-lsr = record { same = λ s. refl }

  pub KeepsMemory-on_a-rol : KeepsMemory {D = D} (on_a rol)
  unfolding on_a rol lda update_nz cpu_set_flag
  KeepsMemory-on_a-rol = record { same = λ s. refl }

  pub KeepsMemory-on_a-ror : KeepsMemory {D = D} (on_a ror)
  unfolding on_a ror lda update_nz cpu_set_flag
  KeepsMemory-on_a-ror = record { same = λ s. refl }

  pub KeepsMemory-to_a : (f : Cpu6502 D → ℕ) → KeepsMemory (λ s. lda (f s) s)
  unfolding lda update_nz cpu_set_flag
  KeepsMemory-to_a f = record { same = λ s. refl }

  pub KeepsMemory-to_x : (f : Cpu6502 D → ℕ) → KeepsMemory (λ s. ldx (f s) s)
  unfolding ldx update_nz cpu_set_flag
  KeepsMemory-to_x f = record { same = λ s. refl }

  pub KeepsMemory-to_y : (f : Cpu6502 D → ℕ) → KeepsMemory (λ s. ldy (f s) s)
  unfolding ldy update_nz cpu_set_flag
  KeepsMemory-to_y f = record { same = λ s. refl }

  pub KeepsMemory-cpu_set_flag : (f : ℕ) (b : Bool) → KeepsMemory {D = D} (cpu_set_flag f b)
  unfolding cpu_set_flag
  KeepsMemory-cpu_set_flag f b = record { same = λ s. refl }

  pub KeepsMemory-update_nz : (n : ℕ) → KeepsMemory {D = D} (update_nz n)
  unfolding update_nz cpu_set_flag
  KeepsMemory-update_nz n = record { same = λ s. refl }

  -- PC and the status byte on the stack, and PC from a vector.
  pub KeepsBytes-interrupt :
      (status : ℕ → ℕ) (vector : ℕ) → KeepsBytes {D = D} {A = Unit {0}} (interrupt status vector)
  unfolding interrupt
  KeepsBytes-interrupt status vector =
      search (bytes_rules, KeepsBytes-cpu_push, KeepsBytes-cpu_push_word, KeepsMemory-cpu_set_flag)
        depth 20

  pub KeepsBytes-do_branch : (condition : Bool) → KeepsBytes {D = D} {A = ℕ} (do_branch condition)
  unfolding do_branch
  KeepsBytes-do_branch condition = search (bytes_rules, KeepsBytes-addr_relative) depth 14

pub ruleset bus_rules = (
  bytes_rules, KeepsBytes-plain, KeepsBytes-no_cross, KeepsBytes-addr_immediate,
  KeepsBytes-addr_zero_page, KeepsBytes-addr_zero_page_x, KeepsBytes-addr_zero_page_y,
  KeepsBytes-addr_absolute, KeepsBytes-addr_absolute_x, KeepsBytes-addr_absolute_y,
  KeepsBytes-addr_indirect, KeepsBytes-addr_indexed_indirect, KeepsBytes-addr_indirect_indexed,
  KeepsBytes-cpu_push, KeepsBytes-cpu_pull, KeepsBytes-cpu_push_word, KeepsBytes-cpu_pull_word,
  KeepsBytes-interrupt, KeepsBytes-do_branch, KeepsMemory-update_nz, KeepsMemoryAt-lda,
  KeepsMemoryAt-ldx, KeepsMemoryAt-ldy, KeepsMemoryAt-bit, KeepsMemoryAt-set_status,
  KeepsMemoryAt-op_adc, KeepsMemoryAt-op_sbc, KeepsMemoryAt-and, KeepsMemoryAt-or,
  KeepsMemoryAt-xor, KeepsMemoryAt-cmp_a, KeepsMemoryAt-cmp_x, KeepsMemoryAt-cmp_y,
  KeepsMemory-to_a, KeepsMemory-to_x, KeepsMemory-to_y, KeepsMemory-cpu_set_flag,
  KeepsMemory-on_a-asl, KeepsMemory-on_a-lsr, KeepsMemory-on_a-rol, KeepsMemory-on_a-ror,
  KeepsBytesAt-asl, KeepsBytesAt-lsr, KeepsBytesAt-rol, KeepsBytesAt-ror, KeepsBytesAt-inc,
  KeepsBytesAt-dec,
)
