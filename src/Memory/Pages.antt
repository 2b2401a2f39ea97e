-- ===== src/Memory/Pages.antt =====
-- The loops of `memory_init` and `memory_clear_ram` over the pages, against the pattern that they
-- write: 128 bytes of 0x00, then 128 bytes of 0xFF.
use oric2_golden_model.Base.{
  ℕ, zero, suc, ◌+◌, ◌*◌, ◌%◌, ◌≤◌, ◌<◌, ◌≡◌, refl, arith, ltb, ◌==◌, if◌then◌else◌,
}
use oric2_golden_model.Memory.{
  Memory, ram_size, rom_size, init, clear_ram, init_page, init_pages, clear_page, clear_pages,
}

abbrev pub power_up : ℕ → ℕ
power_up j = if ltb (j % 256) 128 then 0 else 255

-- `a` has the pattern below `i`.
abbrev Patterned : ℕ → (ℕ → ℕ) → Type 0
Patterned i a = (j : ℕ) → j < i → a j ≡ power_up j

abbrev ClearFrom : ℕ → (ℕ → ℕ) → Type 0
ClearFrom i a = (j : ℕ) → i ≤ j → a j ≡ 0

-- One round of `memory_init` at the page `q`.
init_page_lem :
    (size q j : ℕ) (a : ℕ → ℕ)
    → 256 * q + 256 ≤ size
    → Patterned (256 * q) a
    → ClearFrom (256 * q) a
    → (init_page size (256 * q) a j ≡ (if ltb j (256 * q + 256) then power_up j else 0))
unfolding init_page
init_page_lem size q j a h p c = ground (arith, p j, c j)

init_pages_lem :
    (n size q : ℕ) (a : ℕ → ℕ)
    → 256 * (q + n) ≤ size
    → Patterned (256 * q) a
    → ClearFrom (256 * q) a
    → Patterned (256 * (q + n)) (init_pages n size (256 * q) a)
unfolding init_pages
init_pages_lem zero size q a h p c j lt = p j (omega arith)
init_pages_lem (suc n) size q a h p c j lt =
    let next : 256 * q + 256 ≡ 256 * (q + 1) = omega arith in
    rw next (
      init_pages_lem n size (q + 1) (init_page size (256 * q) a) (omega arith)
        (λ k lk. ground (arith, init_page_lem size q k a (omega arith) p c))
        (λ k lk. ground (arith, init_page_lem size q k a (omega arith) p c)) j (omega arith))

clear_page_lem :
    (size q j : ℕ) (a : ℕ → ℕ)
    → 256 * q + 256 ≤ size
    → Patterned (256 * q) a
    → j < 256 * q + 256
    → clear_page size (256 * q) a j ≡ power_up j
unfolding clear_page
clear_page_lem size q j a h p lt = ground (arith, p j)

clear_pages_lem :
    (n size q : ℕ) (a : ℕ → ℕ)
    → 256 * (q + n) ≤ size
    → Patterned (256 * q) a
    → Patterned (256 * (q + n)) (clear_pages n size (256 * q) a)
unfolding clear_pages
clear_pages_lem zero size q a h p j lt = p j (omega arith)
clear_pages_lem (suc n) size q a h p j lt =
    let next : 256 * q + 256 ≡ 256 * (q + 1) = omega arith in
    rw next (
      clear_pages_lem n size (q + 1) (clear_page size (256 * q) a) (omega arith)
        (λ k lk. clear_page_lem size q k a (omega arith) p (omega arith)) j (omega arith))

-- `memory_init` leaves the power-up pattern in RAM and in the RAM behind the ROM.
pub init_pattern :
    {D : Type 0} (null : D) (blocks j : ℕ)
    → j < ram_size
    → ((init null blocks).ram j ≡ power_up j)
      × ((init null blocks).upper_ram (j % rom_size) ≡ power_up (j % rom_size))
unfolding init
init_pattern null blocks j h = (
  init_pages_lem 192 ram_size 0 (λ _. 0) (omega arith) (λ k lk. absurd (omega arith)) (λ k lk. refl)
      j h,
  init_pages_lem 64 rom_size 0 (λ _. 0) (omega arith) (λ k lk. absurd (omega arith)) (λ k lk. refl)
      (j % rom_size) (omega arith),
)

-- `memory_clear_ram`, whatever the arrays held, writes the power-up pattern when asked for the
-- pattern 0, and else the pattern itself into every cell of both arrays.
pub clear_ram_pattern :
    {D : Type 0} (pattern j : ℕ) (m : Memory D)
    → j < ram_size
    → ((clear_ram pattern m).ram j ≡ (if pattern == 0 then power_up j else pattern))
      × ((clear_ram pattern m).upper_ram (j % rom_size)
          ≡ (if pattern == 0 then power_up (j % rom_size) else pattern))
unfolding clear_ram
clear_ram_pattern pattern j m h = ground (
  arith,
  clear_pages_lem 192 ram_size 0 m.ram (omega arith) (λ k lk. absurd (omega arith)) j h,
  clear_pages_lem 64 rom_size 0 m.upper_ram (omega arith) (λ k lk. absurd (omega arith))
      (j % rom_size) (omega arith),
)
