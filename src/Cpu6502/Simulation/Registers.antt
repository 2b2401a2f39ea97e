-- ===== src/Cpu6502/Simulation/Registers.antt =====
-- The counters, transfers and flags of the two cores agree.
use oric2_golden_model.Base.{
  ℕ, ◌+◌, ◌-◌, ◌<◌, bit_and, bit_or, ◌≡◌, refl, ap, ◌∙◌, Bool, arith, u8, u16, bit_or_fields,
  bit_and_low_byte,
}
use oric2_golden_model.Cpu.Access.{
  setf, m_is_8bit, x_is_8bit, sp8, set_sp8, update_nz, update_nz_m, update_nz_x, a_get_m, a_set_m,
  x_get_x, x_set_x, y_get_x, y_set_x,
}
use oric2_golden_model.Cpu.Alu.{load_x, load_y}
use oric2_golden_model.Cpu.Exec.Registers.{tax, txa, tay, tya, tsx, txs}
use oric2_golden_model.Cpu.Exec.Control.{take_status}
use oric2_golden_model.Cpu.Valid.Alu.{load_x-IsValid, load_y-IsValid}
use oric2_golden_model.Cpu.Valid.Control.{Keeps-take_status}
use oric2_golden_model.Cpu.Valid.Registers.{
  Keeps-tax, Keeps-txa, Keeps-tay, Keeps-tya, Keeps-tsx, Keeps-txs, Keeps-setf,
}
use oric2_golden_model.Cpu6502.Access.{cpu_set_flag}
use oric2_golden_model.Cpu6502.Alu
use oric2_golden_model.Cpu6502.Alu.{carry, lda, ldx, ldy, asl, lsr, rol, ror, inc, dec}
use oric2_golden_model.Cpu6502.Exec.Shapes.{set_status}
use oric2_golden_model.Cpu6502.Simulation.{Always, view}
use oric2_golden_model.Cpu6502.Simulation.Alu.{
  framed, low-lt, low_byte_shown, load_x_low-Agrees, load_y_low-Agrees, Agrees-same, Simulates-act,
}
use oric2_golden_model.Cpu6502.Simulation.Acts.{SimulatesAct}
use oric2_golden_model.Cpu6502.Simulation.Changes.{SimulatesRegs, regs}

next_word-lt : (n : ℕ) → u16 n < 65536
next_word-lt n = omega arith

twice : (n : ℕ) → bit_and n 0xff ≡ bit_and (bit_and n 0xff) 0xff
twice n = omega (arith, bit_and_low_byte n, bit_and_low_byte (bit_and n 0xff))

same_byte : (n : ℕ) → bit_and n 0xff ≡ u8 (bit_and n 0xff)
same_byte n = omega (arith, low-lt n)

page_one_low : (n : ℕ) → bit_and n 0xff ≡ bit_and (bit_or 0x0100 (u8 (bit_and n 0xff))) 0xff
page_one_low n = omega (
  arith,
  bit_and_low_byte (bit_or 0x0100 (u8 (bit_and n 0xff))),
  bit_or_fields 8 1 (u8 (bit_and n 0xff)) (omega arith),
  low-lt n,
)

module _ {D : Type 0} where
  -- The counters.
  pub SimulatesRegs-inx :
      SimulatesRegs {D = D} (λ s. load_x (u16 (x_get_x s + 1)) s) (λ s. ldx (u8 (s.x + 1)) s)
  unfolding x_get_x x_is_8bit view
  SimulatesRegs-inx =
      regs (record { at = λ s v. load_x-IsValid _ s (next_word-lt (x_get_x s + 1)) v })
        λ s e.
          Agrees-same refl (ap (λ m. ldx m (view s)) (omega arith))
            (load_x_low-Agrees (u16 (bit_and s.x 0xff + 1)) s)

  pub SimulatesRegs-dex :
      SimulatesRegs {D = D}
        (λ s. load_x (u16 (x_get_x s + 65536 - 1)) s)
        (λ s. ldx (u8 (s.x + 256 - 1)) s)
  unfolding x_get_x x_is_8bit view
  SimulatesRegs-dex =
      regs (record { at = λ s v. load_x-IsValid _ s (next_word-lt (x_get_x s + 65536 - 1)) v })
        λ s e.
          Agrees-same refl (ap (λ m. ldx m (view s)) (omega arith))
            (load_x_low-Agrees (u16 (bit_and s.x 0xff + 65536 - 1)) s)

  pub SimulatesRegs-iny :
      SimulatesRegs {D = D} (λ s. load_y (u16 (y_get_x s + 1)) s) (λ s. ldy (u8 (s.y + 1)) s)
  unfolding y_get_x x_is_8bit view
  SimulatesRegs-iny =
      regs (record { at = λ s v. load_y-IsValid _ s (next_word-lt (y_get_x s + 1)) v })
        λ s e.
          Agrees-same refl (ap (λ m. ldy m (view s)) (omega arith))
            (load_y_low-Agrees (u16 (bit_and s.y 0xff + 1)) s)

  pub SimulatesRegs-dey :
      SimulatesRegs {D = D}
        (λ s. load_y (u16 (y_get_x s + 65536 - 1)) s)
        (λ s. ldy (u8 (s.y + 256 - 1)) s)
  unfolding y_get_x x_is_8bit view
  SimulatesRegs-dey =
      regs (record { at = λ s v. load_y-IsValid _ s (next_word-lt (y_get_x s + 65536 - 1)) v })
        λ s e.
          Agrees-same refl (ap (λ m. ldy m (view s)) (omega arith))
            (load_y_low-Agrees (u16 (bit_and s.y 0xff + 65536 - 1)) s)

  -- The transfers.
  pub SimulatesRegs-tax : SimulatesRegs {D = D} tax (λ s. ldx s.a s)
  unfolding tax ldx x_set_x x_get_x x_is_8bit update_nz_x update_nz Alu.update_nz setf cpu_set_flag
      view
  SimulatesRegs-tax = regs Keeps-tax λ s e.
      let low = twice s.c in
      framed refl (λ j.
        Alu.update_nz ((low ∙ same_byte (bit_and s.c 0xff)) j) (record (view s) { x = low j }))

  pub SimulatesRegs-tay : SimulatesRegs {D = D} tay (λ s. ldy s.a s)
  unfolding tay ldy y_set_x y_get_x x_is_8bit update_nz_x update_nz Alu.update_nz setf cpu_set_flag
      view
  SimulatesRegs-tay = regs Keeps-tay λ s e.
      let low = twice s.c in
      framed refl (λ j.
        Alu.update_nz ((low ∙ same_byte (bit_and s.c 0xff)) j) (record (view s) { y = low j }))

  pub SimulatesRegs-txa : SimulatesRegs {D = D} txa (λ s. lda s.x s)
  unfolding txa lda a_set_m a_get_m m_is_8bit update_nz_m update_nz Alu.update_nz setf cpu_set_flag
      view
  SimulatesRegs-txa = regs Keeps-txa λ s e.
      let low = low_byte_shown (bit_and s.x 0xff) s (low-lt s.x) e in
      framed refl (λ j. Alu.update_nz ((low ∙ same_byte _) j) (record (view s) { a = low j }))

  pub SimulatesRegs-tya : SimulatesRegs {D = D} tya (λ s. lda s.y s)
  unfolding tya lda a_set_m a_get_m m_is_8bit update_nz_m update_nz Alu.update_nz setf cpu_set_flag
      view
  SimulatesRegs-tya = regs Keeps-tya λ s e.
      let low = low_byte_shown (bit_and s.y 0xff) s (low-lt s.y) e in
      framed refl (λ j. Alu.update_nz ((low ∙ same_byte _) j) (record (view s) { a = low j }))

  pub SimulatesRegs-tsx : SimulatesRegs {D = D} tsx (λ s. ldx s.sp s)
  unfolding tsx sp8 x_is_8bit view
  SimulatesRegs-tsx = regs Keeps-tsx λ s e.
      Agrees-same refl (ap (λ m. ldx m (view s)) (same_byte s.s))
        (load_x_low-Agrees (bit_and s.s 0xff) s)

  pub SimulatesRegs-txs : SimulatesRegs {D = D} txs (λ s. record s { sp = s.x })
  unfolding txs set_sp8 x_get_x x_is_8bit view
  SimulatesRegs-txs =
      regs Keeps-txs λ s e. framed refl (λ j. record (view s) { sp = page_one_low s.x j })

  -- The flags.
  pub SimulatesRegs-setf :
      (f : ℕ) (b : Bool) → f < 256 → SimulatesRegs {D = D} (setf f b) (cpu_set_flag f b)
  unfolding setf cpu_set_flag view
  SimulatesRegs-setf f b lt = regs (Keeps-setf f b lt) λ s e. framed refl refl

  pub SimulatesAct-take_status : SimulatesAct {D = D} Always take_status set_status
  unfolding take_status set_status view
  SimulatesAct-take_status = record {
    for = λ n lt.
        let keeps = Keeps-take_status n lt in
        Simulates-act (take_status n) (set_status n) keeps.at (λ s e _. framed refl refl);
  }
