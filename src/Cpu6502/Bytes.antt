-- ===== src/Cpu6502/Bytes.antt =====
-- The actions of the 6502 leave a bus of bytes a bus of bytes.
pub mod Changes
use oric2_golden_model.Base.{
  ℕ, zero, suc, ◌+◌, ◌-◌, ◌*◌, ◌/◌, ◌%◌, ◌^◌, ◌≤◌, ◌<◌, bit_and, bit_or, bit_xor, ◌≡◌, refl, sym,
  ap, ◌∙◌, ◌≢◌, ◌⊎◌, inl, inr, Bool, true, false, not, ◌&&◌, ◌||◌, Option, none, some, List, [],
  ◌∷◌, ◌++◌, arith, ltb, leb, ◌==◌, bool_eq, if◌then◌else◌, ==_iff, Bool-cases, Option-cases,
  all_below, all_below_sound, update, fill, IsBytes, update-IsBytes, fill-IsBytes, u8, u16, u32,
  u64, shl, shr, has, clear8, word, bit_and_step, bit_or_step, bit_and-zero, bit_or-zero,
  bit_or_fields, word_lem, byte_bit, bit_and_low_byte, bit_and_low_word, bit_and-le, bit_or_byte,
  bit_or_word, bit_xor_step, bit_xor-lt, bit_xor_word,
}
use mathlib.Core.Path.{subst}
use oric2_golden_model.Memory
use oric2_golden_model.Memory.Bytes.{HoldsBytes, read-HoldsBytes, write-HoldsBytes}
use oric2_golden_model.Cpu.State.{flag_decimal, flag_carry, flag_interrupt}
use oric2_golden_model.Cpu6502
use oric2_golden_model.Cpu6502.{Cpu6502, N}
use oric2_golden_model.Cpu6502.Access.{
  cpu_get_flag, cpu_set_flag, cpu_mem_read, cpu_mem_write, addr_immediate, cpu_fetch_byte,
  cpu_fetch_word_pc, addr_zero_page, addr_zero_page_x, addr_zero_page_y, addr_absolute,
  addr_absolute_x, addr_absolute_y, addr_indirect, page_zero_pointer, addr_indexed_indirect,
  addr_indirect_indexed, addr_relative, cpu_push, cpu_pull, cpu_push_word, cpu_pull_word,
}
use oric2_golden_model.Cpu6502.Alu
use oric2_golden_model.Cpu6502.Alu.{
  lda, ldx, ldy, bit, op_adc, op_adc_binary, op_adc_decimal, op_sbc, op_sbc_binary, op_sbc_decimal,
  op_cmp, asl, lsr, rol, ror, inc, dec, update_nz,
}
use oric2_golden_model.Cpu6502.Exec.Registers.{on_a}
use oric2_golden_model.Cpu6502.Exec.Shapes.{
  plain, no_cross, on_operand, store, change_byte, on_registers, push_value, pull_value, set_status,
  do_branch, branch_if, jmp, jsr, rts, rti, interrupt, brk,
}

module _ {D : Type 0} where
  -- A change of the registers alone.
  pub record KeepsMemory (f : Cpu6502 D → Cpu6502 D) : Type 0 where
    pub same : (s : Cpu6502 D) → (f s).memory ≡ s.memory

  pub record KeepsBytes {A : Type 0} (m : N D A) : Type 0 where
    pub at : (s : Cpu6502 D) → HoldsBytes s.memory → HoldsBytes (m s).1.memory

  module _ {A : Type 0} where
    pub KeepsBytes-pure : (a : A) → KeepsBytes (Cpu6502.pure a)
    unfolding Cpu6502.pure
    KeepsBytes-pure a = record { at = λ s h. h }

    pub KeepsBytes-gets : (f : Cpu6502 D → A) → KeepsBytes (Cpu6502.gets f)
    unfolding Cpu6502.gets
    KeepsBytes-gets f = record { at = λ s h. h }

    pub KeepsBytes-if :
        (b : Bool) {m n : N D A} → KeepsBytes m → KeepsBytes n → KeepsBytes (if b then m else n)
    KeepsBytes-if true hm hn = hm
    KeepsBytes-if false hm hn = hn

  pub KeepsBytes-modify :
      {f : Cpu6502 D → Cpu6502 D} → KeepsMemory f → KeepsBytes (Cpu6502.modify f)
  unfolding Cpu6502.modify
  KeepsBytes-modify k = record { at = λ s h. subst HoldsBytes (sym (k.same s)) h }

  pub KeepsBytes-bind :
      {A B : Type 0} {m : N D A} {f : A → N D B}
      → KeepsBytes m
      → ((a : A) → KeepsBytes (f a))
      → KeepsBytes (Cpu6502.◌>>=◌ m f)
  unfolding Cpu6502.◌>>=◌
  KeepsBytes-bind {m} hm hf = record { at = λ s h. let k = hf (m s).0 in k.at (m s).1 (hm.at s h) }

  pub KeepsBytes-cpu_mem_read : (a : ℕ) → KeepsBytes {A = ℕ} (cpu_mem_read a)
  unfolding cpu_mem_read
  KeepsBytes-cpu_mem_read a = record { at = λ s h. (read-HoldsBytes a s.memory h).0 }

  pub KeepsBytes-cpu_mem_write : (a v : ℕ) → KeepsBytes {A = Unit {0}} (cpu_mem_write a v)
  unfolding cpu_mem_write
  KeepsBytes-cpu_mem_write a v = record {
    at = λ s h. write-HoldsBytes a (u8 v) s.memory (omega arith) h;
  }

  pub KeepsMemory-pc : (f : Cpu6502 D → ℕ) → KeepsMemory (λ s. record s { pc = f s })
  KeepsMemory-pc f = record { same = λ s. refl }

  pub KeepsMemory-sp : (f : Cpu6502 D → ℕ) → KeepsMemory (λ s. record s { sp = f s })
  KeepsMemory-sp f = record { same = λ s. refl }

  pub ruleset bytes_rules = (
    KeepsBytes-pure, KeepsBytes-gets, KeepsBytes-if, KeepsBytes-modify, KeepsBytes-bind,
    KeepsBytes-cpu_mem_read, KeepsBytes-cpu_mem_write, KeepsMemory-pc, KeepsMemory-sp,
  )

  pub KeepsBytes-addr_immediate : KeepsBytes {A = ℕ} addr_immediate
  unfolding addr_immediate
  KeepsBytes-addr_immediate = search (bytes_rules) depth 12

  pub KeepsBytes-cpu_fetch_byte : KeepsBytes {A = ℕ} cpu_fetch_byte
  unfolding cpu_fetch_byte
  KeepsBytes-cpu_fetch_byte = search (bytes_rules, KeepsBytes-addr_immediate) depth 12

  pub KeepsBytes-cpu_push : (v : ℕ) → KeepsBytes {A = Unit {0}} (cpu_push v)
  unfolding cpu_push
  KeepsBytes-cpu_push v = search (bytes_rules) depth 12

  pub KeepsBytes-cpu_pull : KeepsBytes {A = ℕ} cpu_pull
  unfolding cpu_pull
  KeepsBytes-cpu_pull = search (bytes_rules) depth 12

  pub KeepsBytes-cpu_push_word : (v : ℕ) → KeepsBytes {A = Unit {0}} (cpu_push_word v)
  unfolding cpu_push_word
  KeepsBytes-cpu_push_word v = search (bytes_rules, KeepsBytes-cpu_push) depth 14

  pub KeepsBytes-cpu_pull_word : KeepsBytes {A = ℕ} cpu_pull_word
  unfolding cpu_pull_word
  KeepsBytes-cpu_pull_word = search (bytes_rules, KeepsBytes-cpu_pull) depth 14

  pub KeepsBytes-cpu_fetch_word_pc : KeepsBytes {A = ℕ} cpu_fetch_word_pc
  unfolding cpu_fetch_word_pc
  KeepsBytes-cpu_fetch_word_pc = search (bytes_rules, KeepsBytes-cpu_fetch_byte) depth 14

  pub KeepsBytes-page_zero_pointer : (zpg : ℕ) → KeepsBytes {A = ℕ} (page_zero_pointer zpg)
  unfolding page_zero_pointer
  KeepsBytes-page_zero_pointer zpg = search (bytes_rules) depth 14

  pub KeepsBytes-addr_zero_page : KeepsBytes {A = ℕ} addr_zero_page
  unfolding addr_zero_page
  KeepsBytes-addr_zero_page = search (bytes_rules, KeepsBytes-cpu_fetch_byte) depth 14

  pub KeepsBytes-addr_zero_page_x : KeepsBytes {A = ℕ} addr_zero_page_x
  unfolding addr_zero_page_x
  KeepsBytes-addr_zero_page_x = search (bytes_rules, KeepsBytes-cpu_fetch_byte) depth 14

  pub KeepsBytes-addr_zero_page_y : KeepsBytes {A = ℕ} addr_zero_page_y
  unfolding addr_zero_page_y
  KeepsBytes-addr_zero_page_y = search (bytes_rules, KeepsBytes-cpu_fetch_byte) depth 14

  pub KeepsBytes-addr_absolute : KeepsBytes {A = ℕ} addr_absolute
  unfolding addr_absolute
  KeepsBytes-addr_absolute = search (bytes_rules, KeepsBytes-cpu_fetch_word_pc) depth 14

  pub KeepsBytes-addr_indirect : KeepsBytes {A = ℕ} addr_indirect
  unfolding addr_indirect
  KeepsBytes-addr_indirect = search (bytes_rules, KeepsBytes-cpu_fetch_word_pc) depth 14

  pub KeepsBytes-addr_indexed_indirect : KeepsBytes {A = ℕ} addr_indexed_indirect
  unfolding addr_indexed_indirect
  KeepsBytes-addr_indexed_indirect =
      search (bytes_rules, KeepsBytes-cpu_fetch_byte, KeepsBytes-page_zero_pointer) depth 14

  pub KeepsBytes-addr_relative : KeepsBytes {A = ℕ} addr_relative
  unfolding addr_relative
  KeepsBytes-addr_relative = search (bytes_rules, KeepsBytes-cpu_fetch_byte) depth 14

  pub KeepsBytes-addr_absolute_x : KeepsBytes {A = ℕ × Bool} addr_absolute_x
  unfolding addr_absolute_x
  KeepsBytes-addr_absolute_x = search (bytes_rules, KeepsBytes-cpu_fetch_word_pc) depth 14

  pub KeepsBytes-addr_absolute_y : KeepsBytes {A = ℕ × Bool} addr_absolute_y
  unfolding addr_absolute_y
  KeepsBytes-addr_absolute_y = search (bytes_rules, KeepsBytes-cpu_fetch_word_pc) depth 14

  pub KeepsBytes-addr_indirect_indexed : KeepsBytes {A = ℕ × Bool} addr_indirect_indexed
  unfolding addr_indirect_indexed
  KeepsBytes-addr_indirect_indexed =
      search (bytes_rules, KeepsBytes-cpu_fetch_byte, KeepsBytes-page_zero_pointer) depth 14

  pub KeepsBytes-plain : {mode : N D ℕ} → KeepsBytes mode → KeepsBytes (plain mode)
  KeepsBytes-plain h = search (bytes_rules) depth 12

  pub KeepsBytes-no_cross : {mode : N D (ℕ × Bool)} → KeepsBytes mode → KeepsBytes (no_cross mode)
  KeepsBytes-no_cross h = search (bytes_rules) depth 12
