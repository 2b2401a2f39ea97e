-- ===== src/Cpu6502/Access.antt =====
-- addressing.c and the flags: memory accesses, fetches, addressing modes and the stack of the 6502.
use oric2_golden_model.Base.{
  ℕ, ◌+◌, ◌-◌, bit_and, bit_or, Bool, if◌then◌else◌, u8, u16, shr, has, clear8, word,
}
use oric2_golden_model.Memory
use oric2_golden_model.Cpu.Address.{page_differs, add_signed8, indexed}
use oric2_golden_model.Cpu6502.{Cpu6502, N, pure, gets, modify, ◌>>=◌, ◌>>◌}

module _ {D : Type 0} where
  unfoldable pub cpu_get_flag : ℕ → Cpu6502 D → Bool
  cpu_get_flag f s = has s.p f

  unfoldable pub cpu_set_flag : ℕ → Bool → Cpu6502 D → Cpu6502 D
  cpu_set_flag f v s = record s { p = if v then bit_or s.p f else clear8 s.p f }

  unfoldable pub cpu_mem_read : ℕ → N D ℕ
  cpu_mem_read a s = let (v, m) = Memory.read a s.memory in (v, record s { memory = m })

  unfoldable pub cpu_mem_write : ℕ → ℕ → N D (Unit {0})
  cpu_mem_write a v s = (tt, record s { memory = Memory.write a (u8 v) s.memory })

  -- `cpu->PC++`, as the address that it gives.
  unfoldable pub addr_immediate : N D ℕ
  addr_immediate = do at ← gets (λ s. s.pc); modify (λ s. record s { pc = u16 (s.pc + 1) }); pure at

  unfoldable pub cpu_fetch_byte : N D ℕ
  unfolding addr_immediate
  cpu_fetch_byte = do at ← addr_immediate; cpu_mem_read at

  unfoldable pub cpu_fetch_word_pc : N D ℕ
  cpu_fetch_word_pc = do lo ← cpu_fetch_byte; hi ← cpu_fetch_byte; pure (word lo hi)

  unfoldable pub addr_zero_page : N D ℕ
  addr_zero_page = cpu_fetch_byte

  unfoldable pub addr_zero_page_x : N D ℕ
  addr_zero_page_x = do b ← cpu_fetch_byte; x ← gets (λ s. s.x); pure (bit_and (b + x) 0xff)

  unfoldable pub addr_zero_page_y : N D ℕ
  addr_zero_page_y = do b ← cpu_fetch_byte; y ← gets (λ s. s.y); pure (bit_and (b + y) 0xff)

  unfoldable pub addr_absolute : N D ℕ
  addr_absolute = cpu_fetch_word_pc

  -- A mode that reports a page crossing gives it beside the address.
  unfoldable pub addr_absolute_x : N D (ℕ × Bool)
  unfolding indexed page_differs
  addr_absolute_x = do base ← cpu_fetch_word_pc; x ← gets (λ s. s.x); pure (indexed base x)

  unfoldable pub addr_absolute_y : N D (ℕ × Bool)
  unfolding indexed page_differs
  addr_absolute_y = do base ← cpu_fetch_word_pc; y ← gets (λ s. s.y); pure (indexed base y)

  unfoldable pub addr_indirect : N D ℕ
  addr_indirect = do
    ptr ← cpu_fetch_word_pc
    lo ← cpu_mem_read ptr
    hi ← cpu_mem_read (bit_or (bit_and ptr 0xff00) (bit_and (ptr + 1) 0x00ff))
    pure (word lo hi)

  -- the pointer at `zpg` of page 0
  unfoldable pub page_zero_pointer : ℕ → N D ℕ
  page_zero_pointer zpg = do
    lo ← cpu_mem_read zpg
    hi ← cpu_mem_read (bit_and (zpg + 1) 0xff)
    pure (word lo hi)

  unfoldable pub addr_indexed_indirect : N D ℕ
  unfolding page_zero_pointer
  addr_indexed_indirect = do
    b ← cpu_fetch_byte
    x ← gets (λ s. s.x)
    page_zero_pointer (bit_and (b + x) 0xff)

  unfoldable pub addr_indirect_indexed : N D (ℕ × Bool)
  unfolding page_zero_pointer indexed page_differs
  addr_indirect_indexed = do
    zpg ← cpu_fetch_byte
    base ← page_zero_pointer zpg
    y ← gets (λ s. s.y)
    pure (indexed base y)

  unfoldable pub addr_relative : N D ℕ
  unfolding add_signed8
  addr_relative = do offset ← cpu_fetch_byte; pc ← gets (λ s. s.pc); pure (add_signed8 pc offset)

  unfoldable pub cpu_push : ℕ → N D (Unit {0})
  cpu_push v = do
    sp ← gets (λ s. s.sp)
    cpu_mem_write (0x0100 + sp) v
    modify (λ s. record s { sp = u8 (s.sp + 256 - 1) })

  unfoldable pub cpu_pull : N D ℕ
  cpu_pull = do
    modify (λ s. record s { sp = u8 (s.sp + 1) })
    sp ← gets (λ s. s.sp)
    cpu_mem_read (0x0100 + sp)

  unfoldable pub cpu_push_word : ℕ → N D (Unit {0})
  cpu_push_word v = do cpu_push (u8 (shr v 8)); cpu_push (u8 (bit_and v 0xff))

  unfoldable pub cpu_pull_word : N D ℕ
  cpu_pull_word = do lo ← cpu_pull; hi ← cpu_pull; pure (word lo hi)
