-- ===== src/Memory.antt =====
-- src/memory/memory.c and banking.c: the 64 KiB bus of bank 0, the banks of the 24-bit bus, and the
-- tracing of accesses. An array is a function from its index; a callback is an `Option`, `none` for
-- NULL. `D` is what `io_userdata` points to.
pub mod Bus
pub mod Banks
pub mod Pages
pub mod Bytes
mod Tests
use oric2_golden_model.Base.{
  ℕ, zero, suc, ◌+◌, ◌-◌, ◌/◌, bit_and, Bool, true, false, ◌&&◌, not, Option, none, some, List, [],
  ◌∷◌, ltb, leb, ◌==◌, if◌then◌else◌, update, fill, u8, u16, shr, word,
}

pub data Access : Type 0 where
  mem_read mem_write mem_exec : Access

pub data Bank : Type 0 where
  bank_rom bank_ram : Bank

abbrev pub ram_size : ℕ
ram_size = 49152

abbrev pub rom_size : ℕ
rom_size = 16384

-- `memory_t`. `trace_log` holds the calls of the trace callback, the last one first, and
-- `free_blocks` counts the 64 KiB blocks that `calloc` still grants.
pub record Memory (D : Type 0) : Type 0 where
  pub ram : ℕ → ℕ
  pub rom : ℕ → ℕ
  pub charset : ℕ → ℕ
  pub upper_ram : ℕ → ℕ
  pub charset_bank : Bank
  pub rom_enabled : Bool
  pub overlay_rom : Option (ℕ → ℕ)
  pub overlay_rom_size : ℕ
  pub overlay_active : Bool
  pub basic_rom_disabled : Bool
  pub io_read : Option (ℕ → D → ℕ × D)
  pub io_write : Option (ℕ → ℕ → D → D)
  pub io_userdata : D
  pub trace_enabled : Bool
  pub trace_callback : Bool
  pub trace_log : List (ℕ × ℕ × Access)
  pub extra_banks : ℕ → Option (ℕ → ℕ)
  pub free_blocks : ℕ

-- One page of the power-up pattern: the loop body of `memory_init`.
init_page : ℕ → ℕ → (ℕ → ℕ) → ℕ → ℕ
init_page size i a =
    let end = if ltb size (i + 256) then size else i + 256 in
    let half = i + 128 in if ltb half end then fill a half (end - half) 255 else a

-- `for (i = 0; i < size; i += 256)`, with the number of pages that are left.
init_pages : ℕ → ℕ → ℕ → (ℕ → ℕ) → ℕ → ℕ
init_pages zero size i a = a
init_pages (suc n) size i a = init_pages n size (i + 256) (init_page size i a)

-- The loop body of `memory_clear_ram` for the pattern 0.
clear_page : ℕ → ℕ → (ℕ → ℕ) → ℕ → ℕ
clear_page size i a =
    let end = if ltb size (i + 256) then size else i + 256 in
    let half = if ltb end (i + 128) then end else i + 128 in
    let low = fill a i (half - i) 0 in if ltb half end then fill low half (end - half) 255 else low

clear_pages : ℕ → ℕ → ℕ → (ℕ → ℕ) → ℕ → ℕ
clear_pages zero size i a = a
clear_pages (suc n) size i a = clear_pages n size (i + 256) (clear_page size i a)

-- the I/O page
abbrev pub is_io : ℕ → Bool
is_io a = leb 0x0300 a && leb a 0x03ff

abbrev pub is_some : Option (ℕ → ℕ) → Bool
is_some none = false
is_some (some _) = true

-- A file as `fopen`, `ftell` and `fread` show it: `delivered` is what `fread` returns of it.
pub record RomFile : Type 0 where
  pub size : ℕ
  pub bytes : ℕ → ℕ
  pub delivered : ℕ

-- `fread(&a[offset], 1, n, fp)`
copy_in : (ℕ → ℕ) → ℕ → ℕ → (ℕ → ℕ) → ℕ → ℕ
copy_in bytes offset n a j = if leb offset j && ltb j (offset + n) then bytes (j - offset) else a j

module _ {D : Type 0} where
  -- `null` stands for the zero bytes that `memset` leaves in `io_userdata`.
  pub init : D → ℕ → Memory D
  init null blocks = record {
    ram = init_pages (ram_size / 256) ram_size 0 (λ _. 0);
    rom = λ _. 0;
    charset = λ _. 0;
    upper_ram = init_pages (rom_size / 256) rom_size 0 (λ _. 0);
    charset_bank = bank_rom;
    rom_enabled = true;
    overlay_rom = none;
    overlay_rom_size = 0;
    overlay_active = false;
    basic_rom_disabled = false;
    io_read = none;
    io_write = none;
    io_userdata = null;
    trace_enabled = false;
    trace_callback = false;
    trace_log = [];
    extra_banks = λ _. none;
    free_blocks = blocks;
  }

  -- The banks are given back; `free(NULL)` is skipped, and so is bank 0.
  cleanup_banks : ℕ → ℕ → Memory D → Memory D
  cleanup_banks zero i m = m
  cleanup_banks (suc n) i m = cleanup_banks n (i + 1) (elim (m.extra_banks i) [
    | none ↦ m
    | some _ ↦ record m {
      extra_banks = update m.extra_banks i none;
      free_blocks = m.free_blocks + 1;
    }
  ])

  pub cleanup : Memory D → Memory D
  unfolding cleanup_banks
  cleanup m = cleanup_banks 255 1 m

  -- `if (mem->trace_enabled && mem->trace_callback) mem->trace_callback(...)`
  unfoldable pub trace : ℕ → ℕ → Access → Memory D → Memory D
  trace a v kind m = record m {
    trace_log =
        if m.trace_enabled && m.trace_callback then (a, v, kind) ∷ m.trace_log else m.trace_log;
  }

  pub load_rom : Option RomFile → ℕ → Memory D → Bool × Memory D
  unfolding copy_in
  load_rom none offset m = (false, m)
  load_rom (some file) offset m = if ltb rom_size (offset + file.size) then (false, m) else (
    file.delivered == file.size,
    record m { rom = copy_in file.bytes offset file.delivered m.rom },
  )

  pub load_charset : Option RomFile → Memory D → Bool × Memory D
  unfolding copy_in
  load_charset none m = (false, m)
  load_charset (some file) m =
      (ltb 0 file.delivered, record m { charset = copy_in file.bytes 0 file.delivered m.charset })

  -- What the Microdisc maps at $E000-$FFFF while its overlay is active.
  overlay_byte : ℕ → Memory D → ℕ
  overlay_byte a m = elim m.overlay_rom [
    | none ↦ m.upper_ram (a - 0xc000)
    | some rom ↦
        if ltb (a - 0xe000) m.overlay_rom_size then rom (a - 0xe000) else m.upper_ram (a - 0xc000)
  ]

  -- The byte of `memory_read` outside the I/O page.
  unfoldable pub mapped_byte : ℕ → Memory D → ℕ
  unfolding overlay_byte
  mapped_byte a m =
      if ltb a 0xc000
      then m.ram a
      else if m.basic_rom_disabled
      then if m.overlay_active && leb 0xe000 a then overlay_byte a m else m.upper_ram (a - 0xc000)
      else m.rom (a - 0xc000)

  read_mapped : ℕ → Memory D → ℕ × Memory D
  read_mapped a m = let v = mapped_byte a m in (v, trace a v mem_read m)

  -- The callback returns a `uint8_t`.
  unfoldable pub read : ℕ → Memory D → ℕ × Memory D
  unfolding read_mapped
  read a m =
      if is_io a
      then elim m.io_read [
        | none ↦ read_mapped a m
        | some callback ↦
            let (v, d) = callback a m.io_userdata in
            (u8 v, trace a (u8 v) mem_read (record m { io_userdata = d }))
      ]
      else read_mapped a m

  -- `memory_write` behind its tracing and outside the I/O page.
  unfoldable pub store : ℕ → ℕ → Memory D → Memory D
  store a v m =
      if ltb a 0xc000
      then record m { ram = update m.ram a v }
      else if m.basic_rom_disabled
      then if m.overlay_active && leb 0xe000 a
        then m
        else record m { upper_ram = update m.upper_ram (a - 0xc000) v }
      else if not m.rom_enabled
      then record m { rom = update m.rom (a - 0xc000) v }
      else m

  write_io : ℕ → ℕ → Memory D → Memory D
  write_io a v m = record m {
    io_userdata = elim m.io_write [
      | none ↦ m.io_userdata
      | some callback ↦ callback a v m.io_userdata
    ];
  }

  unfoldable pub write : ℕ → ℕ → Memory D → Memory D
  unfolding write_io
  write a v m =
      let traced = trace a v mem_write m in
      if is_io a then write_io a v traced else store a v traced

  -- `memory_read24` and `memory_write24`, at an address of 24 bits.
  unfoldable pub read24 : ℕ → Memory D → ℕ × Memory D
  read24 a m =
      let bank = u8 (shr a 16) in
      let off = bit_and a 0xffff in
      if bank == 0
      then read off m
      else elim (m.extra_banks bank) [ none ↦ (0, m) | some p ↦ (p off, m) ]

  -- `calloc(65536, 1)` for a bank.
  unfoldable pub calloc_bank : ℕ → Memory D → Memory D
  calloc_bank bank m = if m.free_blocks == 0 then m else record m {
    extra_banks = update m.extra_banks bank (some (λ _. 0));
    free_blocks = m.free_blocks - 1;
  }

  -- The write into a bank that is there; with none the write is lost.
  set_in_bank : ℕ → ℕ → ℕ → Memory D → Memory D
  set_in_bank bank off v m = elim (m.extra_banks bank) [
    | none ↦ m
    | some p ↦ record m { extra_banks = update m.extra_banks bank (some (update p off v)) }
  ]

  ensure_bank : ℕ → Memory D → Memory D
  unfolding calloc_bank
  ensure_bank bank m = elim (m.extra_banks bank) [ none ↦ calloc_bank bank m | some _ ↦ m ]

  unfoldable pub write24 : ℕ → ℕ → Memory D → Memory D
  unfolding set_in_bank ensure_bank
  write24 a v m =
      let bank = u8 (shr a 16) in
      let off = bit_and a 0xffff in
      if bank == 0 then write off v m else set_in_bank bank off v (ensure_bank bank m)

  pub alloc_bank : ℕ → Memory D → Bool × Memory D
  unfolding ensure_bank
  alloc_bank bank m =
      if bank == 0
      then (false, m)
      else let m' = ensure_bank bank m in (is_some (m'.extra_banks bank), m')

  unfoldable pub read_word : ℕ → Memory D → ℕ × Memory D
  unfolding word
  read_word a m =
      let (lo, m1) = read a m in let (hi, m2) = read (u16 (a + 1)) m1 in (word lo hi, m2)

  unfoldable pub write_word : ℕ → ℕ → Memory D → Memory D
  write_word a v m = write (u16 (a + 1)) (u8 (shr v 8)) (write a (u8 (bit_and v 0xff)) m)

  pub set_io_callbacks : Option (ℕ → D → ℕ × D) → Option (ℕ → ℕ → D → D) → D → Memory D → Memory D
  set_io_callbacks r w d m = record m { io_read = r; io_write = w; io_userdata = d }

  unfoldable pub set_trace : Bool → Bool → Memory D → Memory D
  set_trace enabled callback m = record m { trace_enabled = enabled; trace_callback = callback }

  pub clear_ram : ℕ → Memory D → Memory D
  clear_ram pattern m =
      if pattern == 0
      then record m {
        ram = clear_pages (ram_size / 256) ram_size 0 m.ram;
        upper_ram = clear_pages (rom_size / 256) rom_size 0 m.upper_ram;
      }
      else record m {
        ram = fill m.ram 0 ram_size pattern;
        upper_ram = fill m.upper_ram 0 rom_size pattern;
      }

  -- `memory_get_ptr`, as the index into `ram`
  pub get_ptr : ℕ → Memory D → Option ℕ
  get_ptr a m = if ltb a ram_size then some a else none

  pub set_rom_enabled : Bool → Memory D → Memory D
  set_rom_enabled enabled m = record m { rom_enabled = enabled }

  pub get_rom_enabled : Memory D → Bool
  get_rom_enabled m = m.rom_enabled

  pub set_charset_bank : Bank → Memory D → Memory D
  set_charset_bank bank m = record m { charset_bank = bank }
