-- ===== src/Memory/Tests.antt =====
-- The theorems on the bus at concrete states.
use oric2_golden_model.Base.{
  ℕ, ◌+◌, ◌%◌, ◌≡◌, refl, true, not, ◌&&◌, some, ◌∷◌, arith, ◌==◌, if◌then◌else◌,
}
use oric2_golden_model.Memory.{
  Memory, mem_read, mem_write, init, read, write, read24, write24, read_word, write_word,
  alloc_bank, clear_ram, set_io_callbacks, set_trace, rom_size,
}
use oric2_golden_model.Memory.Bus.{
  is_writable, SameBank0, read-write, trace_each, read_word-write_word,
}
use oric2_golden_model.Memory.Banks.{
  bank_of, is_granted, byte_in, read24-write24, write24_isolates, alloc_bank_lem,
}
use oric2_golden_model.Memory.Pages.{power_up, init_pattern, clear_ram_pattern}

-- The bus after `memory_init`, with two blocks to allocate, and the same with a device that counts.
abbrev fresh : Memory ℕ
fresh = init 0 2

count_read : ℕ → ℕ → ℕ × ℕ
count_read a d = (d, d + 1)

count_write : ℕ → ℕ → ℕ → ℕ
count_write a v d = d + v

abbrev with_device : Memory ℕ
with_device = set_io_callbacks (some count_read) (some count_write) 5 fresh

read-write_example :
    (read 0x0400 (write 0x0400 7 fresh)).0
    ≡ (if (0x0400 == 0x0400) && is_writable 0x0400 fresh then 7 else (read 0x0400 fresh).0)
read-write_example = read-write 0x0400 0x0400 7 fresh refl

-- The bus with its tracing on.
abbrev watched : Memory ℕ
watched = set_trace true true fresh

trace_each_example :
    ((read 5 watched).1.trace_log ≡ (5, (read 5 watched).0, mem_read) ∷ watched.trace_log)
    × ((write 5 7 watched).trace_log ≡ (5, 7, mem_write) ∷ watched.trace_log)
    × ((read24 0x020005 watched).1.trace_log ≡ watched.trace_log)
    × ((write24 0x020005 7 watched).trace_log ≡ watched.trace_log)
unfolding set_trace
trace_each_example = trace_each 5 0x020005 7 watched

fresh-writable : (is_writable 0x0400 fresh ≡ true) × (is_writable 0x0401 fresh ≡ true)
unfolding init
fresh-writable = (refl, refl)

read_word-write_word_example : (read_word 0x0400 (write_word 0x0400 0x1234 fresh)).0 ≡ 0x1234
read_word-write_word_example =
    read_word-write_word 0x0400 0x1234 fresh (omega arith) (omega arith) fresh-writable.0
      fresh-writable.1

read24-write24_example : (read24 0x020005 (write24 0x020005 9 fresh)).0 ≡ (
    if (0x020005 == 0x020005) && is_granted (bank_of 0x020005) fresh
    then 9
    else (read24 0x020005 fresh).0)
read24-write24_example =
    read24-write24 0x020005 0x020005 9 fresh (omega arith) (omega arith) (λ h. absurd (omega arith))
      (λ h. absurd (omega arith))

write24_isolates_example :
    SameBank0 fresh (write24 0x020005 9 fresh)
    × ((write24 0x020005 9 fresh).extra_banks 3 ≡ fresh.extra_banks 3)
    × ((write24 0x020005 9 fresh).io_userdata ≡ fresh.io_userdata)
    × ((write24 0x020005 9 fresh).trace_log ≡ fresh.trace_log)
write24_isolates_example =
    write24_isolates 0x020005 3 9 fresh (λ h. absurd (omega arith)) (λ h. absurd (omega arith))

alloc_bank_lem_example :
    ((alloc_bank 4 fresh).0 ≡ (not (4 == 0) && is_granted 4 fresh))
    × (byte_in 4 5 (alloc_bank 4 fresh).1 ≡ byte_in 4 5 fresh)
alloc_bank_lem_example = alloc_bank_lem 4 5 fresh

init_pattern_example :
    (fresh.ram 0x4080 ≡ power_up 0x4080)
    × (fresh.upper_ram (0x4080 % rom_size) ≡ power_up (0x4080 % rom_size))
init_pattern_example = init_pattern 0 2 0x4080 (omega arith)

clear_ram_pattern_example :
    ((clear_ram 0 fresh).ram 0x80 ≡ (if 0 == 0 then power_up 0x80 else 0))
    × ((clear_ram 0 fresh).upper_ram (0x80 % rom_size)
        ≡ (if 0 == 0 then power_up (0x80 % rom_size) else 0))
clear_ram_pattern_example = clear_ram_pattern 0 0x80 fresh (omega arith)
