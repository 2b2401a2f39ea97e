-- ===== src/Cpu/Exec/Shapes.antt =====
-- The shapes of the cases of `cpu816_execute_opcode_e`. An action takes the base cycles of the opcode
-- and gives the cycles that the case returns.
use oric2_golden_model.Base.{ℕ, ◌+◌, Bool, false, List, if◌then◌else◌}
use oric2_golden_model.Cpu.State.{Cpu, M, pure, gets, modify, ◌>>=◌, ◌>>◌}
use oric2_golden_model.Cpu.Access.{
  mem_read, mem_write, fetch_byte, fetch_word_pc, update_nz, a_get_m, m_extra_cycle, x_extra_cycle,
  read_m, write_m, fetch_imm_m, read_x, write_x, fetch_imm_x, read_m24, write_m24,
}
use oric2_golden_model.Cpu.Address.{fetch_long_pc}

abbrev pub Action : Type 0 → Type 0
Action D = ℕ → M D ℕ

-- cases of the switch, with their opcodes
abbrev pub Cases : Type 0 → Type 0
Cases D = List (ℕ × Action D)

-- `if (page_crossed) extra++`
unfoldable pub page_extra : Bool → ℕ
page_extra crossed = if crossed then 1 else 0

module _ {D : Type 0} where
  -- a mode that reports no page crossing, and one whose caller passes NULL
  abbrev pub plain : M D ℕ → M D (ℕ × Bool)
  plain mode = do a ← mode; pure (a, false)

  abbrev pub no_cross : M D (ℕ × Bool) → M D ℕ
  no_cross mode = do at ← mode; pure at.0

  -- Opcodes that work on the operand: read at an address, immediate, and read at a 24-bit address.
  unfoldable pub on_m : M D (ℕ × Bool) → (ℕ → Cpu D → Cpu D) → Action D
  on_m mode act cycles = do
    at ← mode
    v ← read_m at.0
    modify (act v)
    extra ← gets m_extra_cycle
    pure (cycles + page_extra at.1 + extra)

  unfoldable pub on_imm_m : (ℕ → Cpu D → Cpu D) → Action D
  on_imm_m act cycles = do
    v ← fetch_imm_m
    modify (act v)
    extra ← gets m_extra_cycle
    pure (cycles + extra)

  unfoldable pub on_x : M D (ℕ × Bool) → (ℕ → Cpu D → Cpu D) → Action D
  on_x mode act cycles = do
    at ← mode
    v ← read_x at.0
    modify (act v)
    extra ← gets x_extra_cycle
    pure (cycles + page_extra at.1 + extra)

  unfoldable pub on_imm_x : (ℕ → Cpu D → Cpu D) → Action D
  on_imm_x act cycles = do
    v ← fetch_imm_x
    modify (act v)
    extra ← gets x_extra_cycle
    pure (cycles + extra)

  -- An opcode of native mode, which in emulation mode only skips its operand.
  unfoldable pub native : M D (Unit {0}) → Action D → Action D
  native skip act cycles = do e ← gets (λ s. s.e); if e then (do skip; pure cycles) else act cycles

  abbrev pub skip_none : M D (Unit {0})
  skip_none = pure tt

  abbrev pub skip_byte : M D (Unit {0})
  skip_byte = do fetch_byte; pure tt

  abbrev pub skip_word : M D (Unit {0})
  skip_word = do fetch_word_pc; pure tt

  abbrev pub skip_long : M D (Unit {0})
  skip_long = do fetch_long_pc; pure tt

  unfoldable pub on_m24 : M D (Unit {0}) → M D ℕ → (ℕ → Cpu D → Cpu D) → Action D
  unfolding native
  on_m24 skip mode act = native skip λ cycles. do
    a ← mode
    v ← read_m24 a
    modify (act v)
    extra ← gets m_extra_cycle
    pure (cycles + extra)

  -- Stores of a register.
  unfoldable pub store_m : M D ℕ → (Cpu D → ℕ) → Action D
  store_m mode reg cycles = do
    a ← mode
    v ← gets reg
    write_m a v
    extra ← gets m_extra_cycle
    pure (cycles + extra)

  unfoldable pub store_x : M D ℕ → (Cpu D → ℕ) → Action D
  store_x mode reg cycles = do
    a ← mode
    v ← gets reg
    write_x a v
    extra ← gets x_extra_cycle
    pure (cycles + extra)

  unfoldable pub store_m24 : M D (Unit {0}) → M D ℕ → Action D
  unfolding native
  store_m24 skip mode = native skip λ cycles. do
    a ← mode
    v ← gets a_get_m
    write_m24 a v
    extra ← gets m_extra_cycle
    pure (cycles + extra)

  -- Read, change and write back one byte.
  unfoldable pub rmw : M D ℕ → (ℕ → M D ℕ) → Action D
  rmw mode change cycles = do
    a ← mode
    v ← mem_read a
    result ← change v
    mem_write a result
    modify (update_nz result)
    pure cycles

  -- A case that changes registers alone.
  unfoldable pub on_regs : (Cpu D → Cpu D) → Action D
  on_regs change cycles = do modify change; pure cycles
