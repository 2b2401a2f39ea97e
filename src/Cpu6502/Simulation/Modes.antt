-- ===== src/Cpu6502/Simulation/Modes.antt =====
-- The addressing modes of the two cores agree.
use oric2_golden_model.Base.{ℕ, ◌+◌, bit_and, bit_or, refl, Bool, false, arith, word, bit_and-le}
use oric2_golden_model.Cpu.State
use oric2_golden_model.Cpu.State.{Cpu, M}
use oric2_golden_model.Cpu.Access.{x8, y8, x_is_8bit, x_get_x, y_get_x}
use oric2_golden_model.Cpu.Address as Addressing
use oric2_golden_model.Cpu.Address.{
  page_differs, add_signed8, indexed, addr_zp, addr_zp_x, addr_zp_y, addr_abs, addr_abs_x,
  addr_abs_y, zp_pointer,
}
use oric2_golden_model.Cpu.Valid.{Any, Byte, Word, Address}
use oric2_golden_model.Cpu.Exec.Shapes.{plain, no_cross}
use oric2_golden_model.Cpu6502
use oric2_golden_model.Cpu6502.{Cpu6502, N}
use oric2_golden_model.Cpu6502.Access
use oric2_golden_model.Cpu6502.Access.{
  addr_immediate, cpu_fetch_byte, cpu_mem_read, addr_zero_page, addr_zero_page_x, addr_zero_page_y,
  addr_absolute, addr_absolute_x, addr_absolute_y, page_zero_pointer,
}
use oric2_golden_model.Cpu6502.Exec.Shapes
use oric2_golden_model.Cpu6502.Simulation.{
  view, Simulates, Simulates-bind, Simulates-pure, Simulates-gets,
}
use oric2_golden_model.Cpu6502.Simulation.Access.{
  Simulates-mem_read, Simulates-fetch_byte, Simulates-fetch_word_pc,
}

module _ {D : Type 0} {I : ℕ → Type 0} where
  pub Simulates-weaken : {m : M D ℕ} {n : N D ℕ} → Simulates I I Byte m n → Simulates I I Word m n
  Simulates-weaken h = record {
    at = λ s e i. let (e1, j, p, same) = h.at s e i in (e1, j, omega arith, same);
  }

  pub Simulates-plain :
      {m : M D ℕ} {n : N D ℕ}
      → Simulates I I Word m n
      → Simulates I I Address (plain m) (Shapes.plain n)
  Simulates-plain h = Simulates-bind h λ a lt. Simulates-pure (a, false) lt

  pub Simulates-no_cross :
      {m : M D (ℕ × Bool)} {n : N D (ℕ × Bool)}
      → Simulates I I Address m n
      → Simulates I I Word (no_cross m) (Shapes.no_cross n)
  Simulates-no_cross h = Simulates-bind h λ at lt. Simulates-pure at.0 lt

  pub Simulates-addr_zp : Simulates {D = D} I I Word addr_zp addr_zero_page
  unfolding addr_zp addr_zero_page
  Simulates-addr_zp = Simulates-weaken Simulates-fetch_byte

  pub Simulates-addr_zp_x : Simulates {D = D} I I Word addr_zp_x addr_zero_page_x
  unfolding addr_zp_x addr_zero_page_x view x8
  Simulates-addr_zp_x = Simulates-bind Simulates-fetch_byte λ b hb.
      Simulates-bind (Simulates-gets {P = Any} x8 (λ s. s.x) λ s e. (refl, tt))
        λ x hx. Simulates-pure (bit_and (b + x) 0xff) (omega (arith, bit_and-le (b + x) 0xff))

  pub Simulates-addr_zp_y : Simulates {D = D} I I Word addr_zp_y addr_zero_page_y
  unfolding addr_zp_y addr_zero_page_y view y8
  Simulates-addr_zp_y = Simulates-bind Simulates-fetch_byte λ b hb.
      Simulates-bind (Simulates-gets {P = Any} y8 (λ s. s.y) λ s e. (refl, tt))
        λ y hy. Simulates-pure (bit_and (b + y) 0xff) (omega (arith, bit_and-le (b + y) 0xff))

  pub Simulates-addr_abs : Simulates {D = D} I I Word addr_abs addr_absolute
  unfolding addr_abs addr_absolute
  Simulates-addr_abs = Simulates-fetch_word_pc

  pub Simulates-x_get_x : Simulates {D = D} I I Byte (State.gets x_get_x) (Cpu6502.gets (λ s. s.x))
  unfolding x_get_x x_is_8bit view
  Simulates-x_get_x =
      Simulates-gets x_get_x (λ s. s.x)
        λ s e. (ground (arith, e.emulates), ground (arith, e.emulates, bit_and-le s.x 0xff))

  pub Simulates-y_get_x : Simulates {D = D} I I Byte (State.gets y_get_x) (Cpu6502.gets (λ s. s.y))
  unfolding y_get_x x_is_8bit view
  Simulates-y_get_x =
      Simulates-gets y_get_x (λ s. s.y)
        λ s e. (ground (arith, e.emulates), ground (arith, e.emulates, bit_and-le s.y 0xff))

  Simulates-indexed :
      (base idx : ℕ)
      → Simulates {D = D} I I Address
          (State.pure (indexed base idx))
          (Cpu6502.pure (indexed base idx))
  unfolding indexed
  Simulates-indexed base idx = Simulates-pure (indexed base idx) (omega arith)

  pub Simulates-addr_abs_x : Simulates {D = D} I I Address addr_abs_x addr_absolute_x
  unfolding addr_abs_x addr_absolute_x
  Simulates-addr_abs_x =
      Simulates-bind Simulates-fetch_word_pc
        λ base hb. Simulates-bind Simulates-x_get_x λ x hx. Simulates-indexed base x

  pub Simulates-addr_abs_y : Simulates {D = D} I I Address addr_abs_y addr_absolute_y
  unfolding addr_abs_y addr_absolute_y
  Simulates-addr_abs_y =
      Simulates-bind Simulates-fetch_word_pc
        λ base hb. Simulates-bind Simulates-y_get_x λ y hy. Simulates-indexed base y

  pub Simulates-word :
      (lo hi : ℕ) → Simulates {D = D} I I Word (State.pure (word lo hi)) (Cpu6502.pure (word lo hi))
  unfolding word
  Simulates-word lo hi = Simulates-pure (word lo hi) (omega arith)

  pub Simulates-addr_indirect :
      Simulates {D = D} I I Word Addressing.addr_indirect Access.addr_indirect
  unfolding Addressing.addr_indirect Access.addr_indirect
  Simulates-addr_indirect = Simulates-bind Simulates-fetch_word_pc λ ptr hp.
      Simulates-bind (Simulates-mem_read ptr) λ lo hl.
        Simulates-bind (Simulates-mem_read (bit_or (bit_and ptr 0xff00) (bit_and (ptr + 1) 0x00ff)))
          λ hi hh. Simulates-word lo hi

  Simulates-pointer :
      (zpg : ℕ) → Simulates {D = D} I I Word (zp_pointer zpg) (page_zero_pointer zpg)
  unfolding zp_pointer page_zero_pointer
  Simulates-pointer zpg = Simulates-bind (Simulates-mem_read zpg) λ lo hl.
      Simulates-bind (Simulates-mem_read (bit_and (zpg + 1) 0xff)) λ hi hh. Simulates-word lo hi

  pub Simulates-indexed_indirect :
      Simulates {D = D} I I Word Addressing.addr_indexed_indirect Access.addr_indexed_indirect
  unfolding Addressing.addr_indexed_indirect Access.addr_indexed_indirect view x8
  Simulates-indexed_indirect = Simulates-bind Simulates-fetch_byte λ b hb.
      Simulates-bind (Simulates-gets {P = Any} x8 (λ s. s.x) λ s e. (refl, tt))
        λ x hx. Simulates-pointer (bit_and (b + x) 0xff)

  pub Simulates-indirect_indexed :
      Simulates {D = D} I I Address Addressing.addr_indirect_indexed Access.addr_indirect_indexed
  unfolding Addressing.addr_indirect_indexed Access.addr_indirect_indexed
  Simulates-indirect_indexed = Simulates-bind Simulates-fetch_byte λ zpg hz.
      Simulates-bind (Simulates-pointer zpg)
        λ base hb. Simulates-bind Simulates-y_get_x λ y hy. Simulates-indexed base y

  pub Simulates-addr_relative :
      Simulates {D = D} I I Word Addressing.addr_relative Access.addr_relative
  unfolding Addressing.addr_relative Access.addr_relative view add_signed8
  Simulates-addr_relative = Simulates-bind Simulates-fetch_byte λ offset ho.
      Simulates-bind (Simulates-gets {P = Any} (λ s. s.pc) (λ s. s.pc) λ s e. (refl, tt))
        λ pc hp. Simulates-pure (add_signed8 pc offset) (ground arith)
