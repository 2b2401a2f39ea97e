-- ===== src/Cpu/Valid/Alu.antt =====
-- The operations on registers keep the core valid.
use oric2_golden_model.Base.{
  ℕ, ◌-◌, ◌<◌, bit_and, bit_or, Bool, true, false, arith, ◌==◌, if◌then◌else◌, u8, clear8,
  bit_and-le, bit_or_byte, bit_or_word,
}
use oric2_golden_model.Cpu.State.{Cpu}
use oric2_golden_model.Cpu.Access.{
  setf, m_is_8bit, x_is_8bit, set_a8, update_nz, update_nz16, update_nz_m, update_nz_x, a_get_m,
  a_set_m, x_set_x, y_set_x,
}
use oric2_golden_model.Cpu.Alu.{load_a, load_x, load_y}
use oric2_golden_model.Cpu.Valid.{IsValid}

clear8-lt : (p f : ℕ) → p < 256 → clear8 p f < 256
clear8-lt p f h = omega (arith, bit_and-le p (255 - f))

module _ {D : Type 0} where
  -- A new status byte, and a new accumulator, in a valid state.
  pub p-IsValid : (p : ℕ) (s : Cpu D) → IsValid s → p < 256 → IsValid (record s { p = p })
  p-IsValid p s v h = ground arith

  pub c-IsValid : (c : ℕ) (s : Cpu D) → IsValid s → c < 65536 → IsValid (record s { c = c })
  c-IsValid c s v h = ground arith

  pub setf-IsValid : (f : ℕ) (b : Bool) (s : Cpu D) → f < 256 → IsValid s → IsValid (setf f b s)
  unfolding setf
  setf-IsValid f b s lt v =
      p-IsValid _ s v (ground (arith, bit_or_byte s.p f, bit_and-le s.p (255 - f)))

  pub update_nz-IsValid : (n : ℕ) (s : Cpu D) → IsValid s → IsValid (update_nz n s)
  unfolding update_nz
  update_nz-IsValid n s v =
      setf-IsValid _ _ _ (omega arith) (setf-IsValid _ (n == 0) s (omega arith) v)

  pub update_nz16-IsValid : (n : ℕ) (s : Cpu D) → IsValid s → IsValid (update_nz16 n s)
  unfolding update_nz16
  update_nz16-IsValid n s v = p-IsValid _ s v (
      ground (
        arith,
        bit_and-le s.p (255 - 130),
        bit_or_byte (bit_and s.p 125) 2,
        bit_or_byte (bit_or (bit_and s.p 125) 2) 128,
        bit_or_byte (bit_and s.p 125) 128,
      ))

  pub if-IsValid : (b : Bool) {s t : Cpu D} → IsValid s → IsValid t → IsValid (if b then s else t)
  if-IsValid true hs ht = hs
  if-IsValid false hs ht = ht

  pub update_nz_m-IsValid : (n : ℕ) (s : Cpu D) → IsValid s → IsValid (update_nz_m n s)
  unfolding update_nz_m
  update_nz_m-IsValid n s v =
      if-IsValid (m_is_8bit s) (update_nz-IsValid (u8 n) s v) (update_nz16-IsValid n s v)

  pub update_nz_x-IsValid : (n : ℕ) (s : Cpu D) → IsValid s → IsValid (update_nz_x n s)
  unfolding update_nz_x
  update_nz_x-IsValid n s v =
      if-IsValid (x_is_8bit s) (update_nz-IsValid (u8 n) s v) (update_nz16-IsValid n s v)

  pub set_a8-IsValid : (n : ℕ) (s : Cpu D) → n < 65536 → IsValid s → IsValid (set_a8 n s)
  unfolding set_a8
  set_a8-IsValid n s lt v =
      c-IsValid _ s v (ground (arith, bit_and-le s.c 0xff00, bit_or_word (bit_and s.c 0xff00) n))

  pub a_set_m-IsValid : (n : ℕ) (s : Cpu D) → n < 65536 → IsValid s → IsValid (a_set_m n s)
  unfolding a_set_m
  a_set_m-IsValid n s lt v = c-IsValid _ s v (
      ground (
        arith,
        bit_and-le s.c 0xff00,
        bit_and-le n 0xff,
        bit_or_word (bit_and s.c 0xff00) (bit_and n 0xff),
      ))

  pub x_set_x-IsValid : (n : ℕ) (s : Cpu D) → n < 65536 → IsValid s → IsValid (x_set_x n s)
  unfolding x_set_x x_is_8bit
  x_set_x-IsValid n s lt v = ground (arith, bit_and-le n 0xff)

  pub y_set_x-IsValid : (n : ℕ) (s : Cpu D) → n < 65536 → IsValid s → IsValid (y_set_x n s)
  unfolding y_set_x x_is_8bit
  y_set_x-IsValid n s lt v = ground (arith, bit_and-le n 0xff)

  pub load_a-IsValid : (n : ℕ) (s : Cpu D) → n < 65536 → IsValid s → IsValid (load_a n s)
  unfolding load_a
  load_a-IsValid n s lt v = update_nz_m-IsValid n _ (a_set_m-IsValid n s lt v)

  pub load_x-IsValid : (n : ℕ) (s : Cpu D) → n < 65536 → IsValid s → IsValid (load_x n s)
  unfolding load_x
  load_x-IsValid n s lt v = update_nz_x-IsValid n _ (x_set_x-IsValid n s lt v)

  pub load_y-IsValid : (n : ℕ) (s : Cpu D) → n < 65536 → IsValid s → IsValid (load_y n s)
  unfolding load_y
  load_y-IsValid n s lt v = update_nz_x-IsValid n _ (y_set_x-IsValid n s lt v)

  pub a_get_m-lt : (s : Cpu D) → IsValid s → a_get_m s < 65536
  unfolding a_get_m
  a_get_m-lt s v = ground (arith, bit_and-le s.c 0xff)
