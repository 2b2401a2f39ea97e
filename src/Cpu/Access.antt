-- ===== src/Cpu/Access.antt =====
-- cpu65c816_opcodes.c, the lower half: the registers at their current width, the fetches, the stack
-- and the accesses of one or two bytes.
use oric2_golden_model.Base.{
  ℕ, ◌+◌, ◌-◌, bit_and, bit_or, Bool, ◌||◌, ◌==◌, if◌then◌else◌, u8, u16, shl, shr, has, clear8,
  word,
}
use oric2_golden_model.Memory
use oric2_golden_model.Cpu.State.{
  Cpu, M, pure, gets, modify, ◌>>=◌, ◌>>◌, flag_zero, flag_negative, flag_x_index, flag_m_mem,
}

module _ {D : Type 0} where
  unfoldable pub flag : ℕ → Cpu D → Bool
  flag f s = has s.p f

  unfoldable pub setf : ℕ → Bool → Cpu D → Cpu D
  setf f v s = record s { p = if v then bit_or s.p f else clear8 s.p f }

  unfoldable pub m_is_8bit : Cpu D → Bool
  m_is_8bit s = s.e || has s.p flag_m_mem

  unfoldable pub x_is_8bit : Cpu D → Bool
  x_is_8bit s = s.e || has s.p flag_x_index

  unfoldable pub a8 : Cpu D → ℕ
  a8 s = bit_and s.c 0xff

  unfoldable pub set_a8 : ℕ → Cpu D → Cpu D
  set_a8 v s = record s { c = bit_or (bit_and s.c 0xff00) v }

  unfoldable pub x8 : Cpu D → ℕ
  x8 s = bit_and s.x 0xff

  unfoldable pub y8 : Cpu D → ℕ
  y8 s = bit_and s.y 0xff

  unfoldable pub sp8 : Cpu D → ℕ
  sp8 s = bit_and s.s 0xff

  unfoldable pub set_sp8 : ℕ → Cpu D → Cpu D
  set_sp8 v s = record s { s = bit_or 0x0100 v }

  unfoldable pub mem_read : ℕ → M D ℕ
  mem_read a s = let (v, m) = Memory.read a s.memory in (v, record s { memory = m })

  -- The value is a `uint8_t` here, and in the calls below.
  unfoldable pub mem_write : ℕ → ℕ → M D (Unit {0})
  mem_write a v s = (tt, record s { memory = Memory.write a (u8 v) s.memory })

  unfoldable pub read24 : ℕ → M D ℕ
  read24 a s = let (v, m) = Memory.read24 a s.memory in (v, record s { memory = m })

  unfoldable pub write24 : ℕ → ℕ → M D (Unit {0})
  write24 a v s = (tt, record s { memory = Memory.write24 a (u8 v) s.memory })

  unfoldable pub fetch_byte : M D ℕ
  fetch_byte = do
    at ← gets (λ s. bit_or (shl s.pbr 16) s.pc)
    v ← read24 at
    modify (λ s. record s { pc = u16 (s.pc + 1) })
    pure v

  unfoldable pub fetch_word_pc : M D ℕ
  fetch_word_pc = do lo ← fetch_byte; hi ← fetch_byte; pure (word lo hi)

  -- In emulation mode the stack stays in page 1.
  unfoldable pub push : ℕ → M D (Unit {0})
  push v = do
    at ← gets (λ s. s.s)
    mem_write at v
    modify (λ s. record s {
      s = if s.e then bit_or 0x0100 (bit_and (s.s + 65536 - 1) 0xff) else u16 (s.s + 65536 - 1);
    })

  unfoldable pub pull : M D ℕ
  pull = do
    modify (λ s. record s {
      s = if s.e then bit_or 0x0100 (bit_and (s.s + 1) 0xff) else u16 (s.s + 1);
    })
    at ← gets (λ s. s.s)
    mem_read at

  unfoldable pub push_word : ℕ → M D (Unit {0})
  push_word v = do push (u8 (shr v 8)); push (u8 (bit_and v 0xff))

  unfoldable pub pull_word : M D ℕ
  pull_word = do lo ← pull; hi ← pull; pure (word lo hi)

  unfoldable pub update_nz : ℕ → Cpu D → Cpu D
  unfolding setf
  update_nz v s = setf flag_negative (has v 0x80) (setf flag_zero (v == 0) s)

  -- N and Z of a 16-bit value
  unfoldable pub update_nz16 : ℕ → Cpu D → Cpu D
  update_nz16 v s =
      let p0 = clear8 s.p (bit_or flag_zero flag_negative) in
      let p1 = if v == 0 then bit_or p0 flag_zero else p0 in
      record s { p = if has v 0x8000 then bit_or p1 flag_negative else p1 }

  unfoldable pub update_nz_m : ℕ → Cpu D → Cpu D
  update_nz_m v s = if m_is_8bit s then update_nz (u8 v) s else update_nz16 v s

  unfoldable pub update_nz_x : ℕ → Cpu D → Cpu D
  update_nz_x v s = if x_is_8bit s then update_nz (u8 v) s else update_nz16 v s

  unfoldable pub a_get_m : Cpu D → ℕ
  a_get_m s = if m_is_8bit s then bit_and s.c 0xff else s.c

  unfoldable pub a_set_m : ℕ → Cpu D → Cpu D
  a_set_m v s = record s {
    c = if m_is_8bit s then bit_or (bit_and s.c 0xff00) (bit_and v 0xff) else v;
  }

  unfoldable pub x_get_x : Cpu D → ℕ
  x_get_x s = if x_is_8bit s then bit_and s.x 0xff else s.x

  unfoldable pub x_set_x : ℕ → Cpu D → Cpu D
  x_set_x v s = record s { x = if x_is_8bit s then bit_and v 0xff else v }

  unfoldable pub y_get_x : Cpu D → ℕ
  y_get_x s = if x_is_8bit s then bit_and s.y 0xff else s.y

  unfoldable pub y_set_x : ℕ → Cpu D → Cpu D
  y_set_x v s = record s { y = if x_is_8bit s then bit_and v 0xff else v }

  unfoldable pub m_extra_cycle : Cpu D → ℕ
  m_extra_cycle s = if m_is_8bit s then 0 else 1

  unfoldable pub x_extra_cycle : Cpu D → ℕ
  x_extra_cycle s = if x_is_8bit s then 0 else 1

  -- One byte at `a`, or two, the second with the 16-bit wrap.
  unfoldable pub read_sized : (Cpu D → Bool) → ℕ → M D ℕ
  read_sized is_8bit a = do
    short ← gets is_8bit
    lo ← mem_read a
    if short then pure lo else do hi ← mem_read (u16 (a + 1)); pure (word lo hi)

  unfoldable pub write_sized : (Cpu D → Bool) → ℕ → ℕ → M D (Unit {0})
  write_sized is_8bit a v = do
    mem_write a (u8 v)
    short ← gets is_8bit
    if short then pure tt else mem_write (u16 (a + 1)) (u8 (shr v 8))

  unfoldable pub fetch_imm : (Cpu D → Bool) → M D ℕ
  fetch_imm is_8bit = do short ← gets is_8bit; if short then fetch_byte else fetch_word_pc

  unfoldable pub push_sized : (Cpu D → Bool) → ℕ → M D (Unit {0})
  push_sized is_8bit v = do
    short ← gets is_8bit
    if short then pure tt else push (u8 (shr v 8))
    push (u8 v)

  unfoldable pub pull_sized : (Cpu D → Bool) → M D ℕ
  pull_sized is_8bit = do
    lo ← pull
    short ← gets is_8bit
    if short then pure lo else do hi ← pull; pure (word lo hi)

  unfoldable pub read_m : ℕ → M D ℕ
  unfolding read_sized
  read_m = read_sized m_is_8bit

  unfoldable pub write_m : ℕ → ℕ → M D (Unit {0})
  unfolding write_sized
  write_m = write_sized m_is_8bit

  unfoldable pub fetch_imm_m : M D ℕ
  unfolding fetch_imm
  fetch_imm_m = fetch_imm m_is_8bit

  unfoldable pub push_m : ℕ → M D (Unit {0})
  unfolding push_sized
  push_m = push_sized m_is_8bit

  unfoldable pub pull_m : M D ℕ
  unfolding pull_sized
  pull_m = pull_sized m_is_8bit

  unfoldable pub read_x : ℕ → M D ℕ
  unfolding read_sized
  read_x = read_sized x_is_8bit

  unfoldable pub write_x : ℕ → ℕ → M D (Unit {0})
  unfolding write_sized
  write_x = write_sized x_is_8bit

  unfoldable pub fetch_imm_x : M D ℕ
  unfolding fetch_imm
  fetch_imm_x = fetch_imm x_is_8bit

  unfoldable pub push_x : ℕ → M D (Unit {0})
  unfolding push_sized
  push_x = push_sized x_is_8bit

  unfoldable pub pull_x : M D ℕ
  unfolding pull_sized
  pull_x = pull_sized x_is_8bit

  unfoldable pub read_m24 : ℕ → M D ℕ
  read_m24 a = do
    short ← gets m_is_8bit
    lo ← read24 a
    if short then pure lo else do hi ← read24 (bit_and (a + 1) 0xffffff); pure (word lo hi)

  unfoldable pub write_m24 : ℕ → ℕ → M D (Unit {0})
  write_m24 a v = do
    write24 a (u8 v)
    short ← gets m_is_8bit
    if short then pure tt else write24 (bit_and (a + 1) 0xffffff) (u8 (shr v 8))
