-- ===== src/Cpu6502/Simulation/Alu.antt =====
-- The operations on registers of the two cores agree.
use oric2_golden_model.Base.{
  Bool, ℕ, ◌<◌, bit_and, bit_or, ◌≡◌, refl, sym, ap, ◌∙◌, true, arith, u8, bit_and_low_byte,
}
use mathlib.Core.Path.{subst}
use oric2_golden_model.Cpu.State
use oric2_golden_model.Cpu.State.{Cpu, M, flag_carry, flag_decimal, flag_zero}
use oric2_golden_model.Cpu.Access.{
  setf, m_is_8bit, x_is_8bit, a8, set_a8, update_nz, update_nz_m, update_nz_x, a_set_m, x_set_x,
  y_set_x,
}
use oric2_golden_model.Cpu.Alu.{load_a, load_x, load_y}
use oric2_golden_model.Cpu.Flags.{a8-set_a8}
use oric2_golden_model.Cpu.Valid.{IsValid, Any}
use oric2_golden_model.Cpu6502
use oric2_golden_model.Cpu6502.{Cpu6502, N}
use oric2_golden_model.Cpu6502.Access.{cpu_set_flag}
use oric2_golden_model.Cpu6502.Alu
use oric2_golden_model.Cpu6502.Alu.{lda, ldx, ldy, bit}
use oric2_golden_model.Cpu6502.Simulation.{
  Always, view, IsEmulating, Simulates, still, Simulates-modify,
}

pub low-lt : (n : ℕ) → bit_and n 0xff < 256
low-lt n = omega (arith, bit_and_low_byte n)

module _ {D : Type 0} where
  -- From `s`, seen as a state in emulation mode, `f` leaves the parts alone that emulation mode needs, and does what
  -- `g` does.
  pub record Agrees (f : Cpu D → Cpu D) (g : Cpu6502 D → Cpu6502 D) (s : Cpu D) : Type 0 where
    pub e : (f (record s { e = true })).e ≡ true
    pub pbr : (f (record s { e = true })).pbr ≡ s.pbr
    pub stopped : (f (record s { e = true })).stopped ≡ s.stopped
    pub waiting : (f (record s { e = true })).waiting ≡ s.waiting
    pub same : g (view s) ≡ view (f (record s { e = true }))

  as_emulation : (s : Cpu D) → IsEmulating s → (record s { e = true }) ≡ s
  as_emulation s e = λ j. record s { e = sym e.emulates j }

  pub Simulates-act :
      {I : ℕ → Type 0} (f : Cpu D → Cpu D) (g : Cpu6502 D → Cpu6502 D)
      → ((s : Cpu D) → IsValid s → IsValid (f s))
      → ((s : Cpu D) → IsEmulating s → I s.p → Agrees f g s)
      → Simulates I Always Any (State.modify f) (Cpu6502.modify g)
  Simulates-act f g keeps agrees = Simulates-modify f g λ s e i.
      let h = agrees s e i in
      let (he, hb, hs, hw, same) =
        subst
          (λ u.
            ((f u).e ≡ true)
            × ((f u).pbr ≡ s.pbr)
            × ((f u).stopped ≡ s.stopped)
            × ((f u).waiting ≡ s.waiting)
            × (g (view s) ≡ view (f u)))
          (as_emulation s e) (h.e, h.pbr, h.stopped, h.waiting, h.same) in
      (still e (keeps s e.valid) (he ∙ sym e.emulates) hb hs hw, tt, same)

  -- The four parts together, and what `f` does.
  abbrev pub mode_of : Cpu D → Bool × ℕ × Bool × Bool
  mode_of s = (s.e, s.pbr, s.stopped, s.waiting)

  pub framed :
      {f : Cpu D → Cpu D} {g : Cpu6502 D → Cpu6502 D} {s : Cpu D}
      → mode_of (f (record s { e = true })) ≡ mode_of (record s { e = true })
      → g (view s) ≡ view (f (record s { e = true }))
      → Agrees f g s
  framed frame same = record {
    e = ap (λ r. r.0) frame;
    pbr = ap (λ r. r.1) frame;
    stopped = ap (λ r. r.2) frame;
    waiting = ap (λ r. r.3) frame;
    same = same;
  }

  -- Operations that come to those of an agreement.
  pub Agrees-same :
      {f f' : Cpu D → Cpu D} {g g' : Cpu6502 D → Cpu6502 D} {s : Cpu D}
      → f (record s { e = true }) ≡ f' (record s { e = true })
      → g (view s) ≡ g' (view s)
      → Agrees f' g' s
      → Agrees f g s
  Agrees-same {f} {g} {s} hf hg h =
      let (he, hb, hs, hw, same) =
        subst
          (λ u.
            (u.e ≡ true)
            × (u.pbr ≡ s.pbr)
            × (u.stopped ≡ s.stopped)
            × (u.waiting ≡ s.waiting)
            × (g (view s) ≡ view u))
          (sym hf) (h.e, h.pbr, h.stopped, h.waiting, hg ∙ h.same) in
      record { e = he; pbr = hb; stopped = hs; waiting = hw; same = same }

  -- The accumulator shows the byte that it was given.
  pub low_byte_shown :
      (r : ℕ) (s : Cpu D)
      → r < 256
      → IsEmulating s
      → r ≡ bit_and (bit_or (bit_and s.c 0xff00) r) 0xff
  unfolding a8 set_a8
  low_byte_shown r s lt e = sym (a8-set_a8 r s lt e.valid.c).0

  -- Loads of the low byte of a word, and of a byte.
  pub load_a_low-Agrees : (n : ℕ) (s : Cpu D) → IsEmulating s → Agrees (load_a n) (lda (u8 n)) s
  unfolding load_a lda update_nz_m update_nz Alu.update_nz a_set_m m_is_8bit view setf cpu_set_flag
  load_a_low-Agrees n s e =
      let low = sym (bit_and_low_byte n) ∙ low_byte_shown (bit_and n 0xff) s (low-lt n) e in
      framed refl (λ j. Alu.update_nz (u8 n) (record (view s) { a = low j }))

  pub load_x_low-Agrees : (n : ℕ) (s : Cpu D) → Agrees (load_x n) (ldx (u8 n)) s
  unfolding load_x ldx update_nz_x update_nz Alu.update_nz x_set_x x_is_8bit view setf cpu_set_flag
  load_x_low-Agrees n s =
      let low : u8 n ≡ bit_and (bit_and n 0xff) 0xff =
        omega (arith, bit_and_low_byte n, bit_and_low_byte (bit_and n 0xff)) in
      framed refl (λ j. Alu.update_nz (u8 n) (record (view s) { x = low j }))

  pub load_y_low-Agrees : (n : ℕ) (s : Cpu D) → Agrees (load_y n) (ldy (u8 n)) s
  unfolding load_y ldy update_nz_x update_nz Alu.update_nz y_set_x x_is_8bit view setf cpu_set_flag
  load_y_low-Agrees n s =
      let low : u8 n ≡ bit_and (bit_and n 0xff) 0xff =
        omega (arith, bit_and_low_byte n, bit_and_low_byte (bit_and n 0xff)) in
      framed refl (λ j. Alu.update_nz (u8 n) (record (view s) { y = low j }))

  pub load_a-Agrees : (n : ℕ) (s : Cpu D) → n < 256 → IsEmulating s → Agrees (load_a n) (lda n) s
  load_a-Agrees n s lt e =
      Agrees-same refl (ap (λ m. lda m (view s)) (omega arith)) (load_a_low-Agrees n s e)

  pub load_x-Agrees : (n : ℕ) (s : Cpu D) → n < 256 → Agrees (load_x n) (ldx n) s
  load_x-Agrees n s lt =
      Agrees-same refl (ap (λ m. ldx m (view s)) (omega arith)) (load_x_low-Agrees n s)

  pub load_y-Agrees : (n : ℕ) (s : Cpu D) → n < 256 → Agrees (load_y n) (ldy n) s
  load_y-Agrees n s lt =
      Agrees-same refl (ap (λ m. ldy m (view s)) (omega arith)) (load_y_low-Agrees n s)
