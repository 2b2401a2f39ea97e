-- ===== src/Fdc.antt =====
-- src/storage/disk.c: the WD1793 disk controller.
pub mod Registers
pub mod Bounds
pub mod Sector
pub mod Seek
pub mod Wires
mod Tests
use oric2_golden_model.Base.{
  ℕ, zero, suc, ◌+◌, ◌-◌, ◌*◌, ◌/◌, ◌%◌, ◌^◌, ◌≤◌, ◌<◌, bit_and, bit_or, bit_xor, ◌≡◌, refl, sym,
  ap, ◌∙◌, ◌≢◌, ◌⊎◌, inl, inr, Bool, true, false, not, ◌&&◌, ◌||◌, Option, none, some, List, [],
  ◌∷◌, ◌++◌, arith, ltb, leb, ◌==◌, bool_eq, if◌then◌else◌, ==_iff, Bool-cases, Option-cases,
  all_below, all_below_sound, update, fill, IsBytes, update-IsBytes, fill-IsBytes, u8, u16, u32,
  u64, shl, shr, has, clear8, word, bit_and_step, bit_or_step, bit_and-zero, bit_or-zero,
  bit_or_fields, word_lem, byte_bit, bit_and_low_byte, bit_and_low_word, bit_and-le, bit_or_byte,
  bit_or_word, bit_xor_step, bit_xor-lt, bit_xor_word,
}

-- `fdc_op_t`
pub data FdcOp : Type 0 where
  op_none op_read_sector op_read_sectors op_write_sector op_write_sectors : FdcOp
  op_read_address op_read_track op_write_track : FdcOp

abbrev pub st_busy : ℕ
st_busy = 0x01

abbrev pub sti_pulse : ℕ
sti_pulse = 0x02

abbrev pub st_drq : ℕ
st_drq = 0x02

abbrev pub sti_trk0 : ℕ
sti_trk0 = 0x04

abbrev pub sti_seek_err : ℕ
sti_seek_err = 0x10

abbrev pub st_not_found : ℕ
st_not_found = 0x10

abbrev pub sti_headl : ℕ
sti_headl = 0x20

abbrev pub st_not_ready : ℕ
st_not_ready = 0x80

-- `fdc_t`. A pointer into a disk image is the number of a heap block with an offset, and `blocks`
-- holds the bytes of the blocks. A status of -1 is `none`. `D` is what both `userdata` pointers point to.
pub record Fdc (D : Type 0) : Type 0 where
  pub status : ℕ
  pub command : ℕ
  pub track : ℕ
  pub sector : ℕ
  pub data_reg : ℕ
  pub direction : ℕ
  pub c_track : ℕ
  pub c_sector : ℕ
  pub side : ℕ
  pub disk_data : Option ℕ
  pub disk_size : ℕ
  pub tracks : ℕ
  pub sectors_per_track : ℕ
  pub currentop : FdcOp
  pub cur_sector_data : Option (ℕ × ℕ)
  pub cur_sector_len : ℕ
  pub cur_offset : ℕ
  pub sec_type : ℕ
  pub delayed_drq : ℕ
  pub delayed_int : ℕ
  pub di_status : Option ℕ
  pub dd_status : Option ℕ
  pub set_drq : D → D
  pub clr_drq : D → D
  pub set_intrq : D → D
  pub clr_intrq : D → D
  pub userdata : D
  pub blocks : ℕ → ℕ → ℕ

-- `delay -= cycles` on an `int`, as its bit pattern.
abbrev pub counted_down : ℕ → ℕ → ℕ
counted_down delay cycles = u32 (delay + (4294967296 - u32 cycles))

-- `delay > 0` and `delay <= 0` on an `int`
abbrev pub is_positive : ℕ → Bool
is_positive delay = ltb 0 delay && ltb delay 2147483648

abbrev pub status_or : Option ℕ → ℕ → ℕ
status_or none status = status
status_or (some s) status = u8 s

module _ {D : Type 0} where
  unfoldable pub raise_drq : Fdc D → Fdc D
  raise_drq f = record f { userdata = f.set_drq f.userdata }

  unfoldable pub drop_drq : Fdc D → Fdc D
  drop_drq f = record f { userdata = f.clr_drq f.userdata }

  unfoldable pub raise_intrq : Fdc D → Fdc D
  raise_intrq f = record f { userdata = f.set_intrq f.userdata }

  unfoldable pub drop_intrq : Fdc D → Fdc D
  drop_intrq f = record f { userdata = f.clr_intrq f.userdata }

  -- `null` and `blocks` are the pointers and the heap, which `memset` clears or leaves alone.
  unfoldable pub init : D → (ℕ → ℕ → ℕ) → Fdc D
  init null blocks = record {
    status = 0;
    command = 0;
    track = 0;
    sector = 0;
    data_reg = 0;
    direction = 0;
    c_track = 0;
    c_sector = 0;
    side = 0;
    disk_data = none;
    disk_size = 0;
    tracks = 80;
    sectors_per_track = 17;
    currentop = op_none;
    cur_sector_data = none;
    cur_sector_len = 0;
    cur_offset = 0;
    sec_type = 0;
    delayed_drq = 0;
    delayed_int = 0;
    di_status = none;
    dd_status = none;
    set_drq = λ d. d;
    clr_drq = λ d. d;
    set_intrq = λ d. d;
    clr_intrq = λ d. d;
    userdata = null;
    blocks = blocks;
  }

  unfoldable pub reset : Fdc D → Fdc D
  reset f = record f {
    status = 0;
    track = 0;
    sector = 1;
    c_track = 0;
    c_sector = 0;
    currentop = op_none;
    cur_sector_data = none;
    cur_offset = 0;
    delayed_drq = 0;
    delayed_int = 0;
    di_status = none;
    dd_status = none;
  }

  unfoldable pub set_disk : Option ℕ → ℕ → Fdc D → Fdc D
  set_disk block size f = record f { disk_data = block; disk_size = size }

  -- Where sector `sec_id` of the current side and track starts in the image.
  abbrev pub sector_offset : ℕ → Fdc D → ℕ
  sector_offset sec_id f = u32 (
      (f.side * f.tracks * f.sectors_per_track + f.c_track * f.sectors_per_track + (sec_id - 1))
      * 256)

  unfoldable pub find_sector : ℕ → Fdc D → Option (ℕ × ℕ)
  find_sector sec_id f = elim f.disk_data [
    | none ↦ none
    | some block ↦
        if leb f.tracks f.c_track || (sec_id == 0 || ltb f.sectors_per_track sec_id)
        then none
        else if ltb f.disk_size (u32 (sector_offset sec_id f + 256))
        then none
        else some (block, sector_offset sec_id f)
  ]

  unfoldable pub seek_track : ℕ → Fdc D → Fdc D
  unfolding raise_intrq
  seek_track wanted f = elim f.disk_data [
    | none ↦ record (raise_intrq f) { track = 0; status = bit_or st_not_ready sti_seek_err }
    | some _ ↦
        let beyond = leb f.tracks wanted in
        let target = if beyond then (if ltb 0 f.tracks then f.tracks - 1 else 0) else wanted in
        let found = if beyond then bit_or sti_headl sti_seek_err else bit_or sti_headl sti_pulse in
        record f {
          c_track = target;
          c_sector = 0;
          track = target;
          delayed_int = 20;
          di_status = some (if target == 0 then bit_or found sti_trk0 else found);
        }
  ]

  unfoldable pub tick_int : ℕ → Fdc D → Fdc D
  unfolding raise_intrq
  tick_int cycles f =
      let left = counted_down f.delayed_int cycles in
      if not (is_positive f.delayed_int)
      then f
      else if is_positive left
      then record f { delayed_int = left }
      else raise_intrq
          (record f { delayed_int = 0; status = status_or f.di_status f.status; di_status = none })

  unfoldable pub tick_drq : ℕ → Fdc D → Fdc D
  unfolding raise_drq
  tick_drq cycles f =
      let left = counted_down f.delayed_drq cycles in
      if not (is_positive f.delayed_drq)
      then f
      else if is_positive left
      then record f { delayed_drq = left }
      else raise_drq (record f {
        delayed_drq = 0;
        status = bit_or (status_or f.dd_status f.status) st_drq;
        dd_status = none;
      })

  unfoldable pub ticktock : ℕ → Fdc D → Fdc D
  unfolding tick_int tick_drq
  ticktock cycles f = tick_drq cycles (tick_int cycles f)
