-- ===== src/Memory/Bus.antt =====
-- Bank 0 of memory.c against a flat memory of 64 KiB in which some addresses are write-protected.
use oric2_golden_model.Base.{
  ℕ, ◌+◌, ◌<◌, bit_and, ◌≡◌, inl, inr, Bool, true, false, not, ◌&&◌, ◌||◌, ◌∷◌, arith, ltb, leb,
  ◌==◌, if◌then◌else◌, Bool-cases, u8, u16, shr, word_lem, bit_and_low_byte,
}
use oric2_golden_model.Memory.{
  Memory, mem_read, mem_write, is_io, trace, mapped_byte, read, store, write_io, write, read24,
  write24, read_word, write_word,
}

module _ {D : Type 0} where
  -- the addresses whose writes reach an array
  abbrev pub is_writable : ℕ → Memory D → Bool
  is_writable a m =
      not (is_io a)
      && (ltb a 0xc000
          || (if m.basic_rom_disabled
              then not (m.overlay_active && leb 0xe000 a)
              else not m.rom_enabled))

  mapped_byte-trace :
      (b a v : ℕ) (m : Memory D) → mapped_byte b (trace a v mem_write m) ≡ mapped_byte b m
  unfolding trace mapped_byte
  mapped_byte-trace b a v m = ground arith

  mapped_byte-store :
      (a b v : ℕ) (m : Memory D)
      → is_io a ≡ false
      → mapped_byte b (store a v m) ≡ (if (a == b) && is_writable a m then v else mapped_byte b m)
  unfolding store mapped_byte
  mapped_byte-store a b v m h = ground arith

  mapped_byte-io : (b a v : ℕ) (m : Memory D) → mapped_byte b (write_io a v m) ≡ mapped_byte b m
  unfolding write_io mapped_byte
  mapped_byte-io b a v m = ground arith

  is_writable-trace :
      (a v : ℕ) (m : Memory D) → is_writable a (trace a v mem_write m) ≡ is_writable a m
  unfolding trace
  is_writable-trace a v m = ground arith

  pub read-mapped : (a : ℕ) (m : Memory D) → is_io a ≡ false → (read a m).0 ≡ mapped_byte a m
  unfolding read
  read-mapped a m h = rw h

  pub mapped_byte-write :
      (a b v : ℕ) (m : Memory D)
      → mapped_byte b (write a v m) ≡ (if (a == b) && is_writable a m then v else mapped_byte b m)
  unfolding write
  mapped_byte-write a b v m = elim (Bool-cases (is_io a)) [
    | inl io ↦
        rw io
          (ground (arith, mapped_byte-trace b a v m, mapped_byte-io b a v (trace a v mem_write m)))
    | inr plain ↦ rw plain (
        ground (
          arith,
          mapped_byte-trace b a v m,
          mapped_byte-store a b v (trace a v mem_write m) plain,
          is_writable-trace a v m,
        ))
  ]

  -- Outside the I/O page `memory_read` after `memory_write` gives the byte written where the address
  -- is the same and is not write-protected, and else the byte that was there. This holds up to $FFFF:
  -- with the BASIC ROM disabled a byte written at $F800-$FFFF is kept, unless the overlay is active.
  pub read-write :
      (a b v : ℕ) (m : Memory D)
      → is_io b ≡ false
      → (read b (write a v m)).0 ≡ (if (a == b) && is_writable a m then v else (read b m).0)
  read-write a b v m h =
      rw (read-mapped b (write a v m) h, read-mapped b m h) (mapped_byte-write a b v m)

  -- What bank 0 is read from: its arrays, the overlay ROM, and what maps them.
  abbrev pub SameBank0 : Memory D → Memory D → Type 0
  SameBank0 m w =
      (w.ram ≡ m.ram)
      × (w.rom ≡ m.rom)
      × (w.upper_ram ≡ m.upper_ram)
      × (w.charset ≡ m.charset)
      × (w.overlay_rom ≡ m.overlay_rom)
      × (w.overlay_rom_size ≡ m.overlay_rom_size)
      × (w.overlay_active ≡ m.overlay_active)
      × (w.basic_rom_disabled ≡ m.basic_rom_disabled)
      × (w.rom_enabled ≡ m.rom_enabled)

  read-traced :
      (a : ℕ) (m : Memory D)
      → (read a m).1.trace_log ≡ (
          if m.trace_enabled && m.trace_callback
          then (a, (read a m).0, mem_read) ∷ m.trace_log
          else m.trace_log)
  unfolding read trace
  read-traced a m = ground arith

  write-traced :
      (a v : ℕ) (m : Memory D)
      → (write a v m).trace_log ≡ (
          if m.trace_enabled && m.trace_callback
          then (a, v, mem_write) ∷ m.trace_log
          else m.trace_log)
  unfolding write store trace
  write-traced a v m = ground arith

  read24-traced :
      (c : ℕ) (m : Memory D)
      → (read24 c m).1.trace_log ≡ (
          if (m.trace_enabled && m.trace_callback) && (u8 (shr c 16) == 0)
          then (bit_and c 0xffff, (read24 c m).0, mem_read) ∷ m.trace_log
          else m.trace_log)
  unfolding read24
  read24-traced c m = ground (arith, read-traced (bit_and c 0xffff) m)

  write24-traced :
      (c v : ℕ) (m : Memory D)
      → (write24 c v m).trace_log ≡ (
          if (m.trace_enabled && m.trace_callback) && (u8 (shr c 16) == 0)
          then (bit_and c 0xffff, v, mem_write) ∷ m.trace_log
          else m.trace_log)
  unfolding write24
  write24-traced c v m = ground (arith, write-traced (bit_and c 0xffff) v m)

  -- With tracing on and a callback set, every call of `memory_read` and of `memory_write` calls it
  -- once, with address, byte and kind; else none does. A 24-bit access traces as these do in bank 0,
  -- with the low 16 bits of its address, and never calls the callback in the banks above 0.
  pub trace_each :
      (a c v : ℕ) (m : Memory D)
      → let traced = m.trace_enabled && m.trace_callback in
        let low = bit_and c 0xffff in
        let traced24 = traced && (u8 (shr c 16) == 0) in
        ((read a m).1.trace_log
          ≡ (if traced then (a, (read a m).0, mem_read) ∷ m.trace_log else m.trace_log))
        × ((write a v m).trace_log
            ≡ (if traced then (a, v, mem_write) ∷ m.trace_log else m.trace_log))
        × ((read24 c m).1.trace_log
            ≡ (if traced24 then (low, (read24 c m).0, mem_read) ∷ m.trace_log else m.trace_log))
        × ((write24 c v m).trace_log
            ≡ (if traced24 then (low, v, mem_write) ∷ m.trace_log else m.trace_log))
  trace_each a c v m =
      (read-traced a m, write-traced a v m, read24-traced c m, write24-traced c v m)

  pub is_writable-write : (a b v : ℕ) (m : Memory D) → is_writable b (write a v m) ≡ is_writable b m
  unfolding write write_io store trace
  is_writable-write a b v m = ground arith

  pub mapped_byte-read : (a b : ℕ) (m : Memory D) → mapped_byte b (read a m).1 ≡ mapped_byte b m
  unfolding read trace mapped_byte
  mapped_byte-read a b m = ground arith

  -- A word written at two writable addresses of bank 0, the second at the next address with the
  -- 16-bit wrap, is read back.
  pub read_word-write_word :
      (a v : ℕ) (m : Memory D)
      → a < 65536
      → v < 65536
      → is_writable a m ≡ true
      → is_writable (u16 (a + 1)) m ≡ true
      → (read_word a (write_word a v m)).0 ≡ v
  unfolding read_word write_word
  read_word-write_word a v m ha hv wa wb =
      let b = u16 (a + 1) in
      let lo = u8 (bit_and v 0xff) in
      let hi = u8 (shr v 8) in
      let m' = write b hi (write a lo m) in
      ground (
        arith,
        read-mapped a m',
        read-mapped b (read a m').1,
        mapped_byte-read a b m',
        mapped_byte-write b a hi (write a lo m),
        mapped_byte-write b b hi (write a lo m),
        mapped_byte-write a a lo m,
        is_writable-write a b lo m,
        bit_and_low_byte v,
        word_lem lo hi,
      )
