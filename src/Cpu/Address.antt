-- ===== src/Cpu/Address.antt =====
-- cpu65c816_opcodes.c: the addressing modes. A mode that reports a page crossing gives it beside the
-- address; callers that pass NULL drop it.
use oric2_golden_model.Base.{
  ℕ, ◌+◌, ◌-◌, bit_and, bit_or, Bool, not, ltb, ◌==◌, if◌then◌else◌, u16, shl, word,
}
use oric2_golden_model.Cpu.State.{M, pure, gets, ◌>>=◌}
use oric2_golden_model.Cpu.Access.{
  x8, y8, x_get_x, y_get_x, fetch_byte, fetch_word_pc, mem_read, read24,
}

-- the two addresses lie in different pages
unfoldable pub page_differs : ℕ → ℕ → Bool
page_differs a b = not (bit_and a 0xff00 == bit_and b 0xff00)

-- `(uint16_t)(base + (int8_t)offset)`
unfoldable pub add_signed8 : ℕ → ℕ → ℕ
add_signed8 base offset =
    if ltb offset 128 then u16 (base + offset) else u16 (base + 65536 - (256 - offset))

-- `(uint16_t)(base + (int16_t)offset)`
unfoldable pub add_signed16 : ℕ → ℕ → ℕ
add_signed16 base offset =
    if ltb offset 32768 then u16 (base + offset) else u16 (base + 65536 - (65536 - offset))

-- bank, high and low byte of a 24-bit address
unfoldable pub long_word : ℕ → ℕ → ℕ → ℕ
long_word lo hi bank = bit_or (bit_or (shl bank 16) (shl hi 8)) lo

-- `base` indexed, with its page crossing
unfoldable pub indexed : ℕ → ℕ → ℕ × Bool
unfolding page_differs
indexed base idx = let a = u16 (base + idx) in (a, page_differs base a)

module _ {D : Type 0} where
  unfoldable pub addr_zp : M D ℕ
  addr_zp = fetch_byte

  unfoldable pub addr_zp_x : M D ℕ
  addr_zp_x = do b ← fetch_byte; x ← gets x8; pure (bit_and (b + x) 0xff)

  unfoldable pub addr_zp_y : M D ℕ
  addr_zp_y = do b ← fetch_byte; y ← gets y8; pure (bit_and (b + y) 0xff)

  unfoldable pub addr_abs : M D ℕ
  addr_abs = fetch_word_pc

  unfoldable pub addr_abs_x : M D (ℕ × Bool)
  addr_abs_x = do base ← fetch_word_pc; idx ← gets x_get_x; pure (indexed base idx)

  unfoldable pub addr_abs_y : M D (ℕ × Bool)
  addr_abs_y = do base ← fetch_word_pc; idx ← gets y_get_x; pure (indexed base idx)

  -- JMP ($xxxx): the high byte of the pointer does not leave the page.
  unfoldable pub addr_indirect : M D ℕ
  addr_indirect = do
    ptr ← fetch_word_pc
    lo ← mem_read ptr
    hi ← mem_read (bit_or (bit_and ptr 0xff00) (bit_and (ptr + 1) 0x00ff))
    pure (word lo hi)

  -- the pointer at `zpg` of page 0
  unfoldable pub zp_pointer : ℕ → M D ℕ
  zp_pointer zpg = do lo ← mem_read zpg; hi ← mem_read (bit_and (zpg + 1) 0xff); pure (word lo hi)

  unfoldable pub addr_indexed_indirect : M D ℕ
  addr_indexed_indirect = do b ← fetch_byte; x ← gets x8; zp_pointer (bit_and (b + x) 0xff)

  unfoldable pub addr_indirect_indexed : M D (ℕ × Bool)
  addr_indirect_indexed = do
    zpg ← fetch_byte
    base ← zp_pointer zpg
    idx ← gets y_get_x
    pure (indexed base idx)

  unfoldable pub addr_relative : M D ℕ
  addr_relative = do offset ← fetch_byte; pc ← gets (λ s. s.pc); pure (add_signed8 pc offset)

  unfoldable pub fetch_long_pc : M D ℕ
  fetch_long_pc = do
    lo ← fetch_byte
    hi ← fetch_byte
    bank ← fetch_byte
    pure (long_word lo hi bank)

  unfoldable pub addr_long : M D ℕ
  addr_long = fetch_long_pc

  unfoldable pub addr_long_x : M D ℕ
  addr_long_x = do base ← fetch_long_pc; x ← gets (λ s. s.x); pure (bit_and (base + x) 0xffffff)

  unfoldable pub addr_dp_indirect_long : M D ℕ
  addr_dp_indirect_long = do
    zpg ← fetch_byte
    base ← gets (λ s. u16 (s.d + zpg))
    lo ← read24 base
    hi ← read24 (u16 (base + 1))
    bank ← read24 (u16 (base + 2))
    pure (long_word lo hi bank)

  unfoldable pub addr_dp_indirect_long_y : M D ℕ
  addr_dp_indirect_long_y = do
    base ← addr_dp_indirect_long
    y ← gets (λ s. s.y)
    pure (bit_and (base + y) 0xffffff)

  unfoldable pub addr_dp_indirect : M D ℕ
  addr_dp_indirect = do
    zpg ← fetch_byte
    base ← gets (λ s. u16 (s.d + zpg))
    lo ← read24 base
    hi ← read24 (u16 (base + 1))
    bank ← gets (λ s. s.dbr)
    pure (bit_or (shl bank 16) (word lo hi))
