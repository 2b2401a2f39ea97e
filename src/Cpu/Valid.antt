-- ===== src/Cpu/Valid.antt =====
-- The well-formed states of the core: every register fits its width, in emulation mode the index
-- registers fit a byte and the stack lies in page 1, and the bus holds bytes. Here are the rules by
-- which the modules below prove that the programs of the core keep it so.
pub mod Access
pub mod Address
pub mod Alu
pub mod Arith
pub mod Shapes
pub mod Operand
pub mod Memory
pub mod Registers
pub mod Control
pub mod Blocks
pub mod Interrupt
pub mod Step
pub mod Reached
use oric2_golden_model.Base.{
  ℕ, zero, suc, ◌+◌, ◌-◌, ◌*◌, ◌/◌, ◌%◌, ◌^◌, ◌≤◌, ◌<◌, bit_and, bit_or, bit_xor, ◌≡◌, refl, sym,
  ap, ◌∙◌, ◌≢◌, ◌⊎◌, inl, inr, Bool, true, false, not, ◌&&◌, ◌||◌, Option, none, some, List, [],
  ◌∷◌, ◌++◌, arith, ltb, leb, ◌==◌, bool_eq, if◌then◌else◌, ==_iff, Bool-cases, Option-cases,
  all_below, all_below_sound, update, fill, IsBytes, update-IsBytes, fill-IsBytes, u8, u16, u32,
  u64, shl, shr, has, clear8, word, bit_and_step, bit_or_step, bit_and-zero, bit_or-zero,
  bit_or_fields, word_lem, byte_bit, bit_and_low_byte, bit_and_low_word, bit_and-le, bit_or_byte,
  bit_or_word,
}
use oric2_golden_model.Memory.Bytes.{HoldsBytes}
use oric2_golden_model.Cpu.State.{
  flag_carry, flag_zero, flag_interrupt, flag_decimal, flag_break, flag_unused, flag_overflow,
  flag_negative, flag_x_index, flag_m_mem, IrqSource, irq_mask, Cpu, M, pure, gets, modify, ◌>>=◌,
  ◌>>◌, irq_via, irq_disk, irq_serial,
}
use oric2_golden_model.Cpu.Access.{
  flag, setf, m_is_8bit, x_is_8bit, a8, set_a8, x8, y8, sp8, set_sp8, mem_read, mem_write, read24,
  write24, fetch_byte, fetch_word_pc, push, pull, push_word, pull_word, update_nz, update_nz16,
  update_nz_m, update_nz_x, a_get_m, a_set_m, x_get_x, x_set_x, y_get_x, y_set_x, m_extra_cycle,
  x_extra_cycle, read_sized, write_sized, fetch_imm, push_sized, pull_sized, read_m, write_m,
  fetch_imm_m, push_m, pull_m, read_x, write_x, fetch_imm_x, push_x, pull_x, read_m24, write_m24,
}
use oric2_golden_model.Cpu.Address.{
  page_differs, add_signed8, add_signed16, long_word, indexed, addr_zp, addr_zp_x, addr_zp_y,
  addr_abs, addr_abs_x, addr_abs_y, addr_indirect, zp_pointer, addr_indexed_indirect,
  addr_indirect_indexed, addr_relative, fetch_long_pc, addr_long, addr_long_x,
  addr_dp_indirect_long, addr_dp_indirect_long_y, addr_dp_indirect,
}
use oric2_golden_model.Cpu.Alu.{
  carry_in, adc_lo, adc_hi, adc_hi_corrected, sbc_digit, sbc_corrected, op_adc_decimal,
  op_adc_binary, op_adc, borrow_in, op_sbc_decimal, op_sbc_binary, op_sbc, op_cmp, op_adc16,
  op_sbc16, op_adc_m, op_sbc_m, op_cmp_m, op_cmp_x, load_a, load_x, load_y, and_a, or_a, xor_a,
  cmp_a, cmp_x, cmp_y, bit_a, asl8, lsr8, rol8, ror8, inc8, dec8,
}
use oric2_golden_model.Cpu.Table.{OpcodeInfo, opcode_table}

pub record IsValid {D : Type 0} (s : Cpu D) : Type 0 where
  pub c : s.c < 65536
  pub x : s.x < (if s.e then 256 else 65536)
  pub y : s.y < (if s.e then 256 else 65536)
  pub stack_low : (if s.e then 256 else 0) ≤ s.s
  pub stack_high : s.s < (if s.e then 512 else 65536)
  pub d : s.d < 65536
  pub pc : s.pc < 65536
  pub dbr : s.dbr < 256
  pub pbr : s.pbr < 256
  pub p : s.p < 256
  pub irq : s.irq < 256
  pub bus : HoldsBytes s.memory

abbrev pub Any : {A : Type 0} → A → Type 0
Any a = Unit

abbrev pub Byte : ℕ → Type 0
Byte n = n < 256

abbrev pub Word : ℕ → Type 0
Word n = n < 65536

-- an address whose page crossing is reported beside it
abbrev pub Address : ℕ × Bool → Type 0
Address at = at.0 < 65536

-- `m` keeps a valid state valid, and its result satisfies `P`.
pub record Yields {D A : Type 0} (P : A → Type 0) (m : M D A) : Type 0 where
  pub at : (s : Cpu D) → IsValid s → IsValid (m s).1 × P (m s).0

-- `f` keeps a valid state valid.
pub record Keeps {D : Type 0} (f : Cpu D → Cpu D) : Type 0 where
  pub at : (s : Cpu D) → IsValid s → IsValid (f s)

module _ {D A : Type 0} where
  pub Yields-pure : (P : A → Type 0) (a : A) → P a → Yields {D = D} P (pure a)
  unfolding pure
  Yields-pure P a h = record { at = λ s v. (v, h) }

  pub Yields-gets :
      (P : A → Type 0) (f : Cpu D → A) → ((s : Cpu D) → IsValid s → P (f s)) → Yields P (gets f)
  unfolding gets
  Yields-gets P f h = record { at = λ s v. (v, h s v) }

  pub Yields-look : (f : Cpu D → A) → Yields Any (gets f)
  unfolding gets
  Yields-look f = record { at = λ s v. (v, tt) }

  pub Yields-end : (a : A) → Yields {D = D} Any (pure a)
  unfolding pure
  Yields-end a = record { at = λ s v. (v, tt) }

  pub Yields-if :
      {P : A → Type 0} (b : Bool) {m n : M D A}
      → Yields P m
      → Yields P n
      → Yields P (if b then m else n)
  Yields-if true hm hn = hm
  Yields-if false hm hn = hn

pub Yields-modify : {D : Type 0} {f : Cpu D → Cpu D} → Keeps f → Yields Any (modify f)
unfolding modify
Yields-modify k = record { at = λ s v. (k.at s v, tt) }

pub Yields-bind :
    {D A B : Type 0} {P : A → Type 0} {Q : B → Type 0} {m : M D A} {f : A → M D B}
    → Yields P m
    → ((a : A) → P a → Yields Q (f a))
    → Yields Q (m >>= f)
unfolding ◌>>=◌
Yields-bind {m} hm hf = record {
  at = λ s v. let (v', p) = hm.at s v in (hf (m s).0 p).at (m s).1 v';
}

module _ {D B : Type 0} {Q : B → Type 0} where
  pub then-Any :
      {A : Type 0} (m : M D A) (f : A → M D B)
      → Yields Any m
      → ((a : A) → Yields Q (f a))
      → Yields Q (m >>= f)
  then-Any m f hm hf = Yields-bind hm (λ a _. hf a)

  pub then-Byte :
      (m : M D ℕ) (f : ℕ → M D B)
      → Yields Byte m
      → ((a : ℕ) → a < 256 → Yields Q (f a))
      → Yields Q (m >>= f)
  then-Byte m f hm hf = Yields-bind hm hf

  pub then-Word :
      (m : M D ℕ) (f : ℕ → M D B)
      → Yields Word m
      → ((a : ℕ) → a < 65536 → Yields Q (f a))
      → Yields Q (m >>= f)
  then-Word m f hm hf = Yields-bind hm hf

  pub then-Address :
      (m : M D (ℕ × Bool)) (f : ℕ × Bool → M D B)
      → Yields Address m
      → ((at : ℕ × Bool) → at.0 < 65536 → Yields Q (f at))
      → Yields Q (m >>= f)
  then-Address m f hm hf = Yields-bind hm hf

pub ruleset yields_rules = (
  then-Any, then-Byte, then-Word, then-Address, Yields-look, Yields-end, Yields-pure, Yields-if,
  Yields-modify,
)
