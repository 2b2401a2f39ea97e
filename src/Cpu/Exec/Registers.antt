-- ===== src/Cpu/Exec/Registers.antt =====
-- The cases of the switch that change registers alone: the shifts of A, the counters, the transfers,
-- the flags, REP, SEP and XCE.
use oric2_golden_model.Base.{
  ℕ, ◌+◌, ◌-◌, bit_and, bit_or, true, false, [], ◌∷◌, if◌then◌else◌, u8, u16, shl, shr, has, clear8,
}
use oric2_golden_model.Cpu.State.{
  flag_carry, flag_interrupt, flag_decimal, flag_unused, flag_overflow, flag_x_index, flag_m_mem,
  Cpu, pure, modify, ◌>>=◌, ◌>>◌,
}
use oric2_golden_model.Cpu.Access.{
  flag, setf, m_is_8bit, x_is_8bit, a8, set_a8, sp8, set_sp8, fetch_byte, update_nz, update_nz16,
  update_nz_m, update_nz_x, a_get_m, a_set_m, x_get_x, x_set_x, y_get_x, y_set_x,
}
use oric2_golden_model.Cpu.Alu.{load_a, load_x, load_y}
use oric2_golden_model.Cpu.Exec.Shapes.{Action, Cases, native, skip_none, on_regs}

module _ {D : Type 0} where
  unfoldable pub asl_a : Cpu D → Cpu D
  asl_a s =
      if m_is_8bit s
      then (let s1 = setf flag_carry (has (a8 s) 0x80) s in
          let s2 = set_a8 (u8 (shl (a8 s1) 1)) s1 in update_nz (a8 s2) s2)
      else (let s1 = setf flag_carry (has s.c 0x8000) s in
          let r = u16 (shl s1.c 1) in update_nz_m r (record s1 { c = r }))

  unfoldable pub lsr_a : Cpu D → Cpu D
  lsr_a s =
      if m_is_8bit s
      then (let s1 = setf flag_carry (has (a8 s) 0x01) s in
          let s2 = set_a8 (u8 (shr (a8 s1) 1)) s1 in update_nz (a8 s2) s2)
      else (let s1 = setf flag_carry (has s.c 0x0001) s in
          let r = u16 (shr s1.c 1) in update_nz_m r (record s1 { c = r }))

  unfoldable pub rol_a : Cpu D → Cpu D
  rol_a s =
      let c = if flag flag_carry s then 1 else 0 in
      if m_is_8bit s
      then (let s1 = setf flag_carry (has (a8 s) 0x80) s in
          let s2 = set_a8 (u8 (bit_or (shl (a8 s1) 1) c)) s1 in update_nz (a8 s2) s2)
      else (let s1 = setf flag_carry (has s.c 0x8000) s in
          let r = u16 (bit_or (shl s1.c 1) c) in update_nz_m r (record s1 { c = r }))

  unfoldable pub ror_a : Cpu D → Cpu D
  ror_a s =
      if m_is_8bit s
      then (let c = if flag flag_carry s then 0x80 else 0 in
          let s1 = setf flag_carry (has (a8 s) 0x01) s in
          let s2 = set_a8 (u8 (bit_or (shr (a8 s1) 1) c)) s1 in update_nz (a8 s2) s2)
      else (let c = if flag flag_carry s then 0x8000 else 0 in
          let s1 = setf flag_carry (has s.c 0x0001) s in
          let r = u16 (bit_or (shr s1.c 1) c) in update_nz_m r (record s1 { c = r }))

  unfoldable pub shift_a_cases : Cases D
  shift_a_cases =
      (0x0a, on_regs asl_a)
      ∷ (0x4a, on_regs lsr_a)
      ∷ (0x2a, on_regs rol_a)
      ∷ (0x6a, on_regs ror_a)
      ∷ []

  unfoldable pub inc_a_cases : Cases D
  inc_a_cases =
      (0x1a, native skip_none (on_regs (λ s. load_a (u16 (a_get_m s + 1)) s)))
      ∷ (0x3a, native skip_none (on_regs (λ s. load_a (u16 (a_get_m s + 65536 - 1)) s)))
      ∷ []

  unfoldable pub index_cases : Cases D
  index_cases =
      (0xe8, on_regs (λ s. load_x (u16 (x_get_x s + 1)) s))
      ∷ (0xc8, on_regs (λ s. load_y (u16 (y_get_x s + 1)) s))
      ∷ (0xca, on_regs (λ s. load_x (u16 (x_get_x s + 65536 - 1)) s))
      ∷ (0x88, on_regs (λ s. load_y (u16 (y_get_x s + 65536 - 1)) s))
      ∷ []

  unfoldable pub tax : Cpu D → Cpu D
  tax s = let s1 = x_set_x s.c s in update_nz_x (x_get_x s1) s1

  unfoldable pub txa : Cpu D → Cpu D
  txa s = let s1 = a_set_m s.x s in update_nz_m (a_get_m s1) s1

  unfoldable pub tay : Cpu D → Cpu D
  tay s = let s1 = y_set_x s.c s in update_nz_x (y_get_x s1) s1

  unfoldable pub tya : Cpu D → Cpu D
  tya s = let s1 = a_set_m s.y s in update_nz_m (a_get_m s1) s1

  unfoldable pub tsx : Cpu D → Cpu D
  tsx s = load_x (if x_is_8bit s then sp8 s else s.s) s

  unfoldable pub txs : Cpu D → Cpu D
  txs s = if s.e then set_sp8 (u8 (x_get_x s)) s else record s { s = x_get_x s }

  unfoldable pub tcs : Cpu D → Cpu D
  tcs s = record s { s = if s.e then bit_or 0x0100 (bit_and s.c 0xff) else s.c }

  unfoldable pub transfer_cases : Cases D
  transfer_cases =
      (0xaa, on_regs tax)
      ∷ (0x8a, on_regs txa)
      ∷ (0xa8, on_regs tay)
      ∷ (0x98, on_regs tya)
      ∷ (0xba, on_regs tsx)
      ∷ (0x9a, on_regs txs)
      ∷ []

  unfoldable pub native_transfer_cases : Cases D
  native_transfer_cases =
      (0x5b, on_regs (λ s. update_nz16 s.c (record s { d = s.c })))
      ∷ (0x7b, on_regs (λ s. update_nz16 s.d (record s { c = s.d })))
      ∷ (0x1b, on_regs tcs)
      ∷ (0x3b, on_regs (λ s. update_nz16 s.s (record s { c = s.s })))
      ∷ (0x9b, on_regs (λ s. load_y (x_get_x s) s))
      ∷ (0xbb, on_regs (λ s. load_x (y_get_x s) s))
      ∷ []

  unfoldable pub flag_cases : Cases D
  flag_cases =
      (0x18, on_regs (setf flag_carry false))
      ∷ (0x38, on_regs (setf flag_carry true))
      ∷ (0x58, on_regs (setf flag_interrupt false))
      ∷ (0x78, on_regs (setf flag_interrupt true))
      ∷ (0xd8, on_regs (setf flag_decimal false))
      ∷ (0xf8, on_regs (setf flag_decimal true))
      ∷ (0xb8, on_regs (setf flag_overflow false))
      ∷ []

  -- X and Y keep their low bytes.
  unfoldable pub truncate_xy : Cpu D → Cpu D
  truncate_xy s = record s { x = bit_and s.x 0x00ff; y = bit_and s.y 0x00ff }

  unfoldable pub rep : ℕ → Cpu D → Cpu D
  rep mask s = let p = clear8 s.p mask in record s { p = if s.e then bit_or p flag_unused else p }

  unfoldable pub sep : ℕ → Cpu D → Cpu D
  unfolding truncate_xy
  sep mask s =
      let s1 = record s { p = bit_or s.p mask } in
      if has mask flag_x_index then truncate_xy s1 else s1

  unfoldable pub on_mask : (ℕ → Cpu D → Cpu D) → Action D
  on_mask act cycles = do mask ← fetch_byte; modify (act mask); pure 3

  unfoldable pub rep_sep_cases : Cases D
  rep_sep_cases = (0xc2, on_mask rep) ∷ (0xe2, on_mask sep) ∷ []

  unfoldable pub xce : Cpu D → Cpu D
  unfolding truncate_xy
  xce s =
      let s1 = setf flag_carry s.e (record s { e = flag flag_carry s }) in
      if s1.e
      then truncate_xy (record s1 {
        p = bit_or s1.p (bit_or flag_m_mem flag_x_index);
        s = bit_or 0x0100 (bit_and s1.s 0x00ff);
      })
      else s1

  unfoldable pub xce_cases : Cases D
  xce_cases = (0xfb, on_regs xce) ∷ []

  -- NOP, WDM, STP and WAI
  unfoldable pub wdm : Action D
  wdm cycles = do fetch_byte; pure 2

  unfoldable pub halt_as : (Cpu D → Cpu D) → Action D
  halt_as change cycles = do modify change; pure 3

  unfoldable pub wdm_cases : Cases D
  wdm_cases = (0x42, wdm) ∷ []

  unfoldable pub stop_cases : Cases D
  stop_cases =
      (0xdb, native skip_none (halt_as (λ s. record s { stopped = true })))
      ∷ (0xcb, native skip_none (halt_as (λ s. record s { waiting = true })))
      ∷ []

  unfoldable pub nop_cases : Cases D
  nop_cases = (0xea, pure) ∷ []
