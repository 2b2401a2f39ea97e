-- ===== src/Cpu/Exec/Control.antt =====
-- The cases of the switch that move the program counter or the stack: pushes and pulls, branches,
-- jumps, subroutines, block moves, BRK, COP and RTI.
use oric2_golden_model.Base.{
  ℕ, zero, suc, ◌+◌, ◌-◌, ◌*◌, bit_and, bit_or, Bool, true, false, not, ◌&&◌, [], ◌∷◌, bool_eq,
  if◌then◌else◌, u8, u16, u32, shl, shr, has, clear8, word,
}
use oric2_golden_model.Cpu.State.{
  flag_carry, flag_zero, flag_break, flag_unused, flag_overflow, flag_negative, flag_x_index, Cpu,
  M, pure, gets, modify, ◌>>=◌, ◌>>◌,
}
use oric2_golden_model.Cpu.Access.{
  flag, read24, write24, fetch_byte, fetch_word_pc, push, pull, push_word, pull_word, update_nz,
  update_nz16, a_get_m, x_get_x, y_get_x, m_extra_cycle, push_m, pull_m, push_x, pull_x,
}
use oric2_golden_model.Cpu.Address.{
  page_differs, add_signed16, addr_abs, addr_indirect, zp_pointer, addr_relative, fetch_long_pc,
  addr_long,
}
use oric2_golden_model.Cpu.Alu.{load_a, load_x, load_y}
use oric2_golden_model.Cpu.Exec.Shapes.{Action, Cases, native, skip_none, skip_word, skip_long}
use oric2_golden_model.Cpu.Exec.Registers.{truncate_xy}

module _ {D : Type 0} where
  unfoldable pub pla : Action D
  pla cycles = do v ← pull_m; modify (load_a v); extra ← gets m_extra_cycle; pure (cycles + extra)

  unfoldable pub pha : Action D
  pha cycles = do v ← gets a_get_m; push_m v; extra ← gets m_extra_cycle; pure (cycles + extra)

  unfoldable pub php : Action D
  php cycles = do
    v ← gets (λ s. if s.e then bit_or (bit_or s.p flag_break) flag_unused else s.p)
    push v
    pure cycles

  -- The status byte `v` as PLP and RTI take it in.
  unfoldable pub take_status : ℕ → Cpu D → Cpu D
  unfolding truncate_xy
  take_status v s =
      if s.e
      then record s { p = bit_or (clear8 v flag_break) flag_unused }
      else if not (has s.p flag_x_index) && has v flag_x_index
      then truncate_xy (record s { p = v })
      else record s { p = v }

  unfoldable pub plp : Action D
  unfolding take_status
  plp cycles = do v ← pull; modify (take_status v); pure cycles

  unfoldable pub push_reg_x : (Cpu D → ℕ) → Action D
  push_reg_x reg cycles = do v ← gets reg; push_x v; pure cycles

  unfoldable pub pull_reg_x : (ℕ → Cpu D → Cpu D) → Action D
  pull_reg_x act cycles = do v ← pull_x; modify (act v); pure cycles

  unfoldable pub stack_cases : Cases D
  stack_cases =
      (0x48, pha)
      ∷ (0x68, pla)
      ∷ (0x08, php)
      ∷ (0xda, native skip_none (push_reg_x x_get_x))
      ∷ (0x5a, native skip_none (push_reg_x y_get_x))
      ∷ (0xfa, native skip_none (pull_reg_x load_x))
      ∷ (0x7a, native skip_none (pull_reg_x load_y))
      ∷ (0x28, plp)
      ∷ []

  unfoldable pub push_byte_of : (Cpu D → ℕ) → Action D
  push_byte_of reg cycles = do v ← gets reg; push v; pure 3

  unfoldable pub plb : Action D
  plb cycles = do v ← pull; modify (λ s. update_nz v (record s { dbr = v })); pure 4

  unfoldable pub phd : Action D
  phd cycles = do v ← gets (λ s. s.d); push_word v; pure 4

  unfoldable pub pld : Action D
  pld cycles = do v ← pull_word; modify (λ s. update_nz16 v (record s { d = v })); pure 5

  unfoldable pub pea : Action D
  pea cycles = do v ← fetch_word_pc; push_word v; pure 5

  unfoldable pub pei : Action D
  pei cycles = do zpg ← fetch_byte; v ← zp_pointer zpg; push_word v; pure 6

  unfoldable pub per : Action D
  per cycles = do
    offset ← fetch_word_pc
    v ← gets (λ s. add_signed16 s.pc offset)
    push_word v
    pure 6

  unfoldable pub native_stack_cases : Cases D
  native_stack_cases =
      (0x8b, native skip_none (push_byte_of (λ s. s.dbr)))
      ∷ (0xab, native skip_none plb)
      ∷ (0x4b, native skip_none (push_byte_of (λ s. s.pbr)))
      ∷ (0x0b, native skip_none phd)
      ∷ (0x2b, native skip_none pld)
      ∷ (0xf4, native skip_none pea)
      ∷ (0xd4, native skip_none pei)
      ∷ (0x62, native skip_none per)
      ∷ []

  -- the cycles beyond the base of a branch that is taken
  unfoldable pub branch_extra : ℕ → Cpu D → ℕ
  branch_extra target s = if page_differs s.pc target then 2 else 1

  unfoldable pub do_branch : Bool → M D ℕ
  unfolding branch_extra
  do_branch condition = do
    target ← addr_relative
    extra ← gets (branch_extra target)
    if condition then (do modify (λ s. record s { pc = target }); pure extra) else pure 0

  unfoldable pub branch_on : ℕ → Bool → Action D
  unfolding do_branch
  branch_on f wanted cycles = do
    v ← gets (flag f)
    extra ← do_branch (bool_eq v wanted)
    pure (cycles + extra)

  unfoldable pub branch_cases : Cases D
  branch_cases =
      (0x10, branch_on flag_negative false)
      ∷ (0x30, branch_on flag_negative true)
      ∷ (0x50, branch_on flag_overflow false)
      ∷ (0x70, branch_on flag_overflow true)
      ∷ (0x90, branch_on flag_carry false)
      ∷ (0xb0, branch_on flag_carry true)
      ∷ (0xd0, branch_on flag_zero false)
      ∷ (0xf0, branch_on flag_zero true)
      ∷ []

  unfoldable pub bra : Action D
  unfolding branch_extra
  bra cycles = do
    target ← addr_relative
    extra ← gets (branch_extra target)
    modify (λ s. record s { pc = target })
    pure (2 + extra)

  unfoldable pub brl : Action D
  brl cycles = do
    offset ← fetch_word_pc
    modify (λ s. record s { pc = add_signed16 s.pc offset })
    pure 4

  unfoldable pub bra_cases : Cases D
  bra_cases = (0x80, bra) ∷ (0x82, brl) ∷ []

  unfoldable pub jump_to : M D ℕ → Action D
  jump_to mode cycles = do a ← mode; modify (λ s. record s { pc = a }); pure cycles

  -- PBR and PC from a 24-bit address
  unfoldable pub go_long : ℕ → Cpu D → Cpu D
  go_long target s = record s { pbr = u8 (shr target 16); pc = u16 (bit_and target 0xffff) }

  unfoldable pub jmp_long : Action D
  unfolding go_long
  jmp_long cycles = do target ← addr_long; modify (go_long target); pure cycles

  unfoldable pub jml : Action D
  jml cycles = do
    ptr ← fetch_word_pc
    lo ← read24 ptr
    hi ← read24 (u16 (ptr + 1))
    bank ← read24 (u16 (ptr + 2))
    modify (λ s. record s { pbr = bank; pc = word lo hi })
    pure cycles

  unfoldable pub jsl : Action D
  unfolding go_long
  jsl cycles = do
    target ← fetch_long_pc
    bank ← gets (λ s. s.pbr)
    push bank
    back ← gets (λ s. u16 (s.pc + 65536 - 1))
    push_word back
    modify (go_long target)
    pure cycles

  unfoldable pub rtl : Action D
  rtl cycles = do
    back ← pull_word
    modify (λ s. record s { pc = u16 (back + 1) })
    bank ← pull
    modify (λ s. record s { pbr = bank })
    pure cycles

  unfoldable pub jsr : Action D
  jsr cycles = do
    a ← addr_abs
    back ← gets (λ s. u16 (s.pc + 65536 - 1))
    push_word back
    modify (λ s. record s { pc = a })
    pure cycles

  unfoldable pub rts : Action D
  rts cycles = do back ← pull_word; modify (λ s. record s { pc = u16 (back + 1) }); pure cycles

  unfoldable pub jump_cases : Cases D
  jump_cases =
      (0x4c, jump_to addr_abs)
      ∷ (0x6c, jump_to addr_indirect)
      ∷ (0x5c, native skip_long jmp_long)
      ∷ (0xdc, native skip_word jml)
      ∷ (0x22, native skip_long jsl)
      ∷ (0x6b, native skip_none rtl)
      ∷ (0x20, jsr)
      ∷ (0x60, rts)
      ∷ []

  -- One byte of MVN (`ascending`) or MVP.
  unfoldable pub move_byte : Bool → ℕ → ℕ → M D (Unit {0})
  move_byte ascending src_bank dst_bank = do
    src ← gets (λ s. bit_or (shl src_bank 16) s.x)
    dst ← gets (λ s. bit_or (shl dst_bank 16) s.y)
    b ← read24 src
    write24 dst b
    modify (λ s.
        if ascending
        then record s { x = u16 (s.x + 1); y = u16 (s.y + 1) }
        else record s { x = u16 (s.x + 65536 - 1); y = u16 (s.y + 65536 - 1) })

  unfoldable pub move_bytes : ℕ → Bool → ℕ → ℕ → Cpu D → Cpu D
  unfolding move_byte
  move_bytes zero ascending src dst s = s
  move_bytes (suc n) ascending src dst s =
      move_bytes n ascending src dst (move_byte ascending src dst s).1

  unfoldable pub block_move : Bool → Action D
  unfolding move_bytes
  block_move ascending cycles = do
    dst_bank ← fetch_byte
    src_bank ← fetch_byte
    modify (λ s. record s { dbr = dst_bank })
    count ← gets (λ s. u32 (s.c + 1))
    modify (move_bytes count ascending src_bank dst_bank)
    modify (λ s. record s { c = 0xffff })
    pure (7 * count)

  abbrev pub skip_two : M D (Unit {0})
  skip_two = do fetch_byte; fetch_byte; pure tt

  unfoldable pub block_cases : Cases D
  block_cases =
      (0x54, native skip_two (block_move true)) ∷ (0x44, native skip_two (block_move false)) ∷ []
