-- ===== src/Cpu/Exec/Memory.antt =====
-- The cases of the switch that write memory: STA, STX, STY, STZ, and the read-modify-write opcodes.
use oric2_golden_model.Base.{ℕ, [], ◌∷◌}
use oric2_golden_model.Cpu.State.{Cpu}
use oric2_golden_model.Cpu.Access.{a_get_m, x_get_x, y_get_x}
use oric2_golden_model.Cpu.Address.{
  addr_zp, addr_zp_x, addr_zp_y, addr_abs, addr_abs_x, addr_abs_y, addr_indexed_indirect,
  addr_indirect_indexed, addr_long, addr_long_x, addr_dp_indirect_long, addr_dp_indirect_long_y,
  addr_dp_indirect,
}
use oric2_golden_model.Cpu.Alu.{asl8, lsr8, rol8, ror8, inc8, dec8}
use oric2_golden_model.Cpu.Exec.Shapes.{
  Cases, no_cross, native, skip_byte, skip_word, skip_long, store_m, store_x, store_m24, rmw,
}

module _ {D : Type 0} where
  abbrev zero_reg : Cpu D → ℕ
  zero_reg s = 0

  unfoldable pub sta_long_cases : Cases D
  sta_long_cases =
      (0x8f, store_m24 skip_long addr_long)
      ∷ (0x9f, store_m24 skip_long addr_long_x)
      ∷ (0x87, store_m24 skip_byte addr_dp_indirect_long)
      ∷ (0x97, store_m24 skip_byte addr_dp_indirect_long_y)
      ∷ []

  unfoldable pub sta_dp_indirect_cases : Cases D
  sta_dp_indirect_cases = (0x92, store_m24 skip_byte addr_dp_indirect) ∷ []

  unfoldable pub sta_cases : Cases D
  sta_cases =
      (0x85, store_m addr_zp a_get_m)
      ∷ (0x95, store_m addr_zp_x a_get_m)
      ∷ (0x8d, store_m addr_abs a_get_m)
      ∷ (0x9d, store_m (no_cross addr_abs_x) a_get_m)
      ∷ (0x99, store_m (no_cross addr_abs_y) a_get_m)
      ∷ (0x81, store_m addr_indexed_indirect a_get_m)
      ∷ (0x91, store_m (no_cross addr_indirect_indexed) a_get_m)
      ∷ []

  unfoldable pub stx_cases : Cases D
  stx_cases =
      (0x86, store_x addr_zp x_get_x)
      ∷ (0x96, store_x addr_zp_y x_get_x)
      ∷ (0x8e, store_x addr_abs x_get_x)
      ∷ []

  unfoldable pub sty_cases : Cases D
  sty_cases =
      (0x84, store_x addr_zp y_get_x)
      ∷ (0x94, store_x addr_zp_x y_get_x)
      ∷ (0x8c, store_x addr_abs y_get_x)
      ∷ []

  unfoldable pub stz_cases : Cases D
  stz_cases =
      (0x9c, native skip_word (store_m addr_abs zero_reg))
      ∷ (0x9e, native skip_word (store_m (no_cross addr_abs_x) zero_reg))
      ∷ (0x64, native skip_byte (store_m addr_zp zero_reg))
      ∷ (0x74, native skip_byte (store_m addr_zp_x zero_reg))
      ∷ []

  unfoldable pub asl_cases : Cases D
  asl_cases =
      (0x06, rmw addr_zp asl8)
      ∷ (0x16, rmw addr_zp_x asl8)
      ∷ (0x0e, rmw addr_abs asl8)
      ∷ (0x1e, rmw (no_cross addr_abs_x) asl8)
      ∷ []

  unfoldable pub lsr_cases : Cases D
  lsr_cases =
      (0x46, rmw addr_zp lsr8)
      ∷ (0x56, rmw addr_zp_x lsr8)
      ∷ (0x4e, rmw addr_abs lsr8)
      ∷ (0x5e, rmw (no_cross addr_abs_x) lsr8)
      ∷ []

  unfoldable pub rol_cases : Cases D
  rol_cases =
      (0x26, rmw addr_zp rol8)
      ∷ (0x36, rmw addr_zp_x rol8)
      ∷ (0x2e, rmw addr_abs rol8)
      ∷ (0x3e, rmw (no_cross addr_abs_x) rol8)
      ∷ []

  unfoldable pub ror_cases : Cases D
  ror_cases =
      (0x66, rmw addr_zp ror8)
      ∷ (0x76, rmw addr_zp_x ror8)
      ∷ (0x6e, rmw addr_abs ror8)
      ∷ (0x7e, rmw (no_cross addr_abs_x) ror8)
      ∷ []

  unfoldable pub inc_cases : Cases D
  inc_cases =
      (0xe6, rmw addr_zp inc8)
      ∷ (0xf6, rmw addr_zp_x inc8)
      ∷ (0xee, rmw addr_abs inc8)
      ∷ (0xfe, rmw (no_cross addr_abs_x) inc8)
      ∷ []

  unfoldable pub dec_cases : Cases D
  dec_cases =
      (0xc6, rmw addr_zp dec8)
      ∷ (0xd6, rmw addr_zp_x dec8)
      ∷ (0xce, rmw addr_abs dec8)
      ∷ (0xde, rmw (no_cross addr_abs_x) dec8)
      ∷ []
