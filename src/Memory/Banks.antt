-- ===== src/Memory/Banks.antt =====
-- The banks 1 to 255 of the 24-bit bus, which are allocated by the first write.
use oric2_golden_model.Base.{
  ℕ, ◌%◌, ◌<◌, ◌≡◌, ◌≢◌, Bool, not, ◌&&◌, ◌||◌, none, some, arith, ◌==◌, if◌then◌else◌, u8, shr,
  bit_and_low_word,
}
use oric2_golden_model.Memory.{Memory, is_some, read24, write24, alloc_bank}
use oric2_golden_model.Memory.Bus.{SameBank0}

-- the bank of a 24-bit address
abbrev pub bank_of : ℕ → ℕ
bank_of a = u8 (shr a 16)

module _ {D : Type 0} where
  -- the byte of a bank above 0
  abbrev pub byte_in : ℕ → ℕ → Memory D → ℕ
  byte_in bank off m = elim (m.extra_banks bank) [ none ↦ 0 | some p ↦ p off ]

  -- the bank is there, or a block is left for it
  abbrev pub is_granted : ℕ → Memory D → Bool
  is_granted bank m = is_some (m.extra_banks bank) || not (m.free_blocks == 0)

  read24-high :
      (a : ℕ) (m : Memory D) → bank_of a ≢ 0 → (read24 a m).0 ≡ byte_in (bank_of a) (a % 65536) m
  unfolding read24
  read24-high a m h = ground (arith, bit_and_low_word a)

  -- In the banks above 0 a read after a write gives the byte written where the address is the same
  -- and the bank is there or can be had, and else the byte that was there.
  pub read24-write24 :
      (a b v : ℕ) (m : Memory D)
      → a < 16777216
      → b < 16777216
      → bank_of a ≢ 0
      → bank_of b ≢ 0
      → (read24 b (write24 a v m)).0
        ≡ (if (a == b) && is_granted (bank_of a) m then v else (read24 b m).0)
  unfolding write24
  read24-write24 a b v m ha hb na nb =
      ground (arith, read24-high b m nb, read24-high b (write24 a v m) nb, bit_and_low_word a)

  -- A write above bank 0 leaves all arrays of bank 0, mapped or not, and their mapping as they were,
  -- and so every other bank; it reaches no device and calls no trace callback.
  pub write24_isolates :
      (a k v : ℕ) (m : Memory D)
      → bank_of a ≢ 0
      → k ≢ bank_of a
      → SameBank0 m (write24 a v m)
        × ((write24 a v m).extra_banks k ≡ m.extra_banks k)
        × ((write24 a v m).io_userdata ≡ m.io_userdata)
        × ((write24 a v m).trace_log ≡ m.trace_log)
  unfolding write24
  write24_isolates a k v m h hk = ground arith

  -- `memory_alloc_bank` refuses bank 0 and succeeds elsewhere exactly when the bank is there or a
  -- block is left; on success reads of the bank give what they gave before, zeros in a new one.
  pub alloc_bank_lem :
      (bank off : ℕ) (m : Memory D)
      → ((alloc_bank bank m).0 ≡ (not (bank == 0) && is_granted bank m))
        × (byte_in bank off (alloc_bank bank m).1 ≡ byte_in bank off m)
  unfolding alloc_bank
  alloc_bank_lem bank off m = ground arith
