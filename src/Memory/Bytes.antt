-- ===== src/Memory/Bytes.antt =====
-- Every cell of the bus holds a byte, and every access keeps it so.
use oric2_golden_model.Base.{
  ℕ, ◌-◌, ◌<◌, ◌≡◌, ap, ◌⊎◌, inl, inr, Bool, true, false, not, ◌&&◌, some, arith, ltb, leb, ◌==◌,
  if◌then◌else◌, Bool-cases, Option-cases, update, u8, shr,
}
use mathlib.Core.Path.{subst}
use mathlib.Core.Option.{get_or}
use oric2_golden_model.Memory.{
  Memory, Access, mem_write, is_io, trace, mapped_byte, read, store, write_io, write, read24,
  write24, calloc_bank, set_in_bank, ensure_bank,
}

pub record HoldsBytes {D : Type 0} (m : Memory D) : Type 0 where
  pub ram : (i : ℕ) → m.ram i < 256
  pub rom : (i : ℕ) → m.rom i < 256
  pub upper_ram : (i : ℕ) → m.upper_ram i < 256
  pub overlay : (f : ℕ → ℕ) (i : ℕ) → m.overlay_rom ≡ some f → f i < 256
  pub banks : (k : ℕ) (f : ℕ → ℕ) (i : ℕ) → m.extra_banks k ≡ some f → f i < 256

module _ {D : Type 0} where
  -- The fields that `h` speaks of, in a memory that differs in others.
  trace-HoldsBytes :
      (a v : ℕ) (kind : Access) (m : Memory D) → HoldsBytes m → HoldsBytes (trace a v kind m)
  unfolding trace
  trace-HoldsBytes a v kind m h = record {
    ram = h.ram;
    rom = h.rom;
    upper_ram = h.upper_ram;
    overlay = h.overlay;
    banks = h.banks;
  }

  userdata-HoldsBytes :
      (d : D) (m : Memory D) → HoldsBytes m → HoldsBytes (record m { io_userdata = d })
  userdata-HoldsBytes d m h = record {
    ram = h.ram;
    rom = h.rom;
    upper_ram = h.upper_ram;
    overlay = h.overlay;
    banks = h.banks;
  }

  if-HoldsBytes :
      (b : Bool) (m n : Memory D) → HoldsBytes m → HoldsBytes n → HoldsBytes (if b then m else n)
  if-HoldsBytes true m n hm hn = hm
  if-HoldsBytes false m n hm hn = hn

  mapped_byte-lt : (a : ℕ) (m : Memory D) → HoldsBytes m → mapped_byte a m < 256
  unfolding mapped_byte
  mapped_byte-lt a m h = elim (Option-cases m.overlay_rom) [
    | inl e ↦ ground (arith, h.ram a, h.rom (a - 0xc000), h.upper_ram (a - 0xc000))
    | inr (f, e) ↦
        ground
          (arith, h.ram a, h.rom (a - 0xc000), h.upper_ram (a - 0xc000), h.overlay f (a - 0xe000) e)
  ]

  -- A read gives a byte and keeps the bus.
  pub read-HoldsBytes :
      (a : ℕ) (m : Memory D) → HoldsBytes m → HoldsBytes (read a m).1 × ((read a m).0 < 256)
  unfolding read
  read-HoldsBytes a m h = elim (Bool-cases (is_io a)) [
    | inl io ↦ elim (Option-cases m.io_read) [
      | inl e ↦ rw (io, e) (trace-HoldsBytes _ _ _ m h, mapped_byte-lt a m h)
      | inr (f, e) ↦ rw (io, e) (trace-HoldsBytes _ _ _ _ (userdata-HoldsBytes _ m h), omega arith)
    ]
    | inr plain ↦ rw plain (trace-HoldsBytes _ _ _ m h, mapped_byte-lt a m h)
  ]

  ram-HoldsBytes :
      (a v : ℕ) (m : Memory D)
      → v < 256
      → HoldsBytes m
      → HoldsBytes (record m { ram = update m.ram a v })
  ram-HoldsBytes a v m lt h = record {
    ram = λ i. ground (arith, h.ram i);
    rom = h.rom;
    upper_ram = h.upper_ram;
    overlay = h.overlay;
    banks = h.banks;
  }

  rom-HoldsBytes :
      (a v : ℕ) (m : Memory D)
      → v < 256
      → HoldsBytes m
      → HoldsBytes (record m { rom = update m.rom a v })
  rom-HoldsBytes a v m lt h = record {
    ram = h.ram;
    rom = λ i. ground (arith, h.rom i);
    upper_ram = h.upper_ram;
    overlay = h.overlay;
    banks = h.banks;
  }

  upper_ram-HoldsBytes :
      (a v : ℕ) (m : Memory D)
      → v < 256
      → HoldsBytes m
      → HoldsBytes (record m { upper_ram = update m.upper_ram a v })
  upper_ram-HoldsBytes a v m lt h = record {
    ram = h.ram;
    rom = h.rom;
    upper_ram = λ i. ground (arith, h.upper_ram i);
    overlay = h.overlay;
    banks = h.banks;
  }

  store-HoldsBytes : (a v : ℕ) (m : Memory D) → v < 256 → HoldsBytes m → HoldsBytes (store a v m)
  unfolding store
  store-HoldsBytes a v m lt h = if-HoldsBytes (ltb a 0xc000) _ _ (ram-HoldsBytes a v m lt h) (
      if-HoldsBytes m.basic_rom_disabled _ _
        (if-HoldsBytes (m.overlay_active && leb 0xe000 a) _ _ h
          (upper_ram-HoldsBytes (a - 0xc000) v m lt h))
        (if-HoldsBytes (not m.rom_enabled) _ _ (rom-HoldsBytes (a - 0xc000) v m lt h) h))

  write_io-HoldsBytes : (a v : ℕ) (m : Memory D) → HoldsBytes m → HoldsBytes (write_io a v m)
  unfolding write_io
  write_io-HoldsBytes a v m h = userdata-HoldsBytes _ m h

  -- A write of a byte keeps the bus.
  pub write-HoldsBytes :
      (a v : ℕ) (m : Memory D) → v < 256 → HoldsBytes m → HoldsBytes (write a v m)
  unfolding write
  write-HoldsBytes a v m lt h =
      let traced = trace-HoldsBytes a v mem_write m h in
      if-HoldsBytes (is_io a) _ _ (write_io-HoldsBytes a v _ traced)
        (store-HoldsBytes a v _ lt traced)

  pub read24-HoldsBytes :
      (a : ℕ) (m : Memory D) → HoldsBytes m → HoldsBytes (read24 a m).1 × ((read24 a m).0 < 256)
  unfolding read24
  read24-HoldsBytes a m h = elim (Bool-cases (u8 (shr a 16) == 0)) [
    | inl low ↦ rw low (read-HoldsBytes _ m h)
    | inr high ↦ elim (Option-cases (m.extra_banks (u8 (shr a 16)))) [
      | inl e ↦ rw (high, e) (h, omega arith)
      | inr (f, e) ↦ rw (high, e) (h, h.banks _ f _ e)
    ]
  ]

  bank-HoldsBytes :
      (k n : ℕ) (p : ℕ → ℕ) (m : Memory D)
      → ((i : ℕ) → p i < 256)
      → HoldsBytes m
      → HoldsBytes (record m { extra_banks = update m.extra_banks k (some p); free_blocks = n })
  bank-HoldsBytes k n p m hp h = record {
    ram = h.ram;
    rom = h.rom;
    upper_ram = h.upper_ram;
    overlay = h.overlay;
    banks = λ j f i e. updated j f i (Bool-cases (k == j)) e;
  }
    where
      updated :
          (j : ℕ) (f : ℕ → ℕ) (i : ℕ)
          → ((k == j) ≡ true) ⊎ ((k == j) ≡ false)
          → (if k == j then some p else m.extra_banks j) ≡ some f
          → f i < 256
      updated j f i (inl same) e =
          let e' : some p ≡ some f = rw same at e in
          subst (λ (g : ℕ → ℕ). g i < 256) (ap (λ o. get_or o p) e') (hp i)
      updated j f i (inr other) e = h.banks j f i (ground arith)

  ensure_bank-HoldsBytes : (k : ℕ) (m : Memory D) → HoldsBytes m → HoldsBytes (ensure_bank k m)
  unfolding ensure_bank calloc_bank
  ensure_bank-HoldsBytes k m h = elim (Option-cases (m.extra_banks k)) [
    | inl e ↦
        rw (e, ensure_bank)
          (if-HoldsBytes (m.free_blocks == 0) _ _ h
            (bank-HoldsBytes k _ (λ _. 0) m (λ i. omega arith) h))
    | inr (f, e) ↦ rw (e, ensure_bank) h
  ]

  set_in_bank-HoldsBytes :
      (k off v : ℕ) (m : Memory D) → v < 256 → HoldsBytes m → HoldsBytes (set_in_bank k off v m)
  unfolding set_in_bank
  set_in_bank-HoldsBytes k off v m lt h = elim (Option-cases (m.extra_banks k)) [
    | inl e ↦ rw (e, set_in_bank) h
    | inr (f, e) ↦
        rw (e, set_in_bank)
          (bank-HoldsBytes k m.free_blocks (update f off v) m (λ i. ground (arith, h.banks k f i e))
            h)
  ]

  pub write24-HoldsBytes :
      (a v : ℕ) (m : Memory D) → v < 256 → HoldsBytes m → HoldsBytes (write24 a v m)
  unfolding write24
  write24-HoldsBytes a v m lt h =
      if-HoldsBytes (u8 (shr a 16) == 0) _ _ (write-HoldsBytes _ v m lt h)
        (set_in_bank-HoldsBytes _ _ v _ lt (ensure_bank-HoldsBytes _ m h))
