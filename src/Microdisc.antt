-- ===== src/Microdisc.antt =====
-- src/io/microdisc.c: the Microdisc interface between the disk controller and the bus.
pub mod Line
mod Tests
use oric2_golden_model.Base.{
  ℕ, zero, suc, ◌+◌, ◌-◌, ◌*◌, ◌/◌, ◌%◌, ◌^◌, ◌≤◌, ◌<◌, bit_and, bit_or, bit_xor, ◌≡◌, refl, sym,
  ap, ◌∙◌, ◌≢◌, ◌⊎◌, inl, inr, Bool, true, false, not, ◌&&◌, ◌||◌, Option, none, some, List, [],
  ◌∷◌, ◌++◌, arith, ltb, leb, ◌==◌, bool_eq, if◌then◌else◌, ==_iff, Bool-cases, Option-cases,
  all_below, all_below_sound, update, fill, IsBytes, update-IsBytes, fill-IsBytes, u8, u16, u32,
  u64, shl, shr, has, clear8, word, bit_and_step, bit_or_step, bit_and-zero, bit_or-zero,
  bit_or_fields, word_lem, byte_bit, bit_and_low_byte, bit_and_low_word, bit_and-le, bit_or_byte,
  bit_or_word, bit_xor_step, bit_xor-lt, bit_xor_word,
}
use oric2_golden_model.Memory.{RomFile}
use oric2_golden_model.Fdc.{Fdc}
use oric2_golden_model.Fdc
use oric2_golden_model.Fdc.Registers.{read, write}

abbrev pub ctrl_intena : ℕ
ctrl_intena = 0x01

abbrev pub ctrl_romdis : ℕ
ctrl_romdis = 0x02

abbrev pub ctrl_side : ℕ
ctrl_side = 0x10

abbrev pub ctrl_eprom : ℕ
ctrl_eprom = 0x80

abbrev pub max_drives : ℕ
max_drives = 4

-- The fields of `microdisc_t` that the callbacks of the disk controller touch, with the callbacks to the
-- processor, which act on `E`.
pub record Wires (E : Type 0) : Type 0 where
  pub status : ℕ
  pub intrq : ℕ
  pub drq : ℕ
  pub cpu_irq_set : Option (E → E)
  pub cpu_irq_clr : Option (E → E)
  pub cpu_userdata : E

-- `microdisc_t`, whose other fields are in the user data of the disk controller.
pub record Microdisc (E : Type 0) : Type 0 where
  pub fdc : Fdc (Wires E)
  pub diskrom : Bool
  pub romdis : Bool
  pub intena : Bool
  pub drive : ℕ
  pub side : ℕ
  pub disk_data : ℕ → Option ℕ
  pub disk_size : ℕ → ℕ
  pub disk_tracks : ℕ → ℕ
  pub disk_sectors : ℕ → ℕ
  pub diskrom_data : Option (ℕ → ℕ)
  pub diskrom_size : ℕ

-- the ports of the disk controller
abbrev pub is_fdc : ℕ → Bool
is_fdc addr = leb 0x0310 addr && leb addr 0x0313

module _ {E : Type 0} where
  -- `if (callback) callback(md->cpu_userdata)`
  abbrev pub call : Option (E → E) → E → E
  call none e = e
  call (some callback) e = callback e

  unfoldable pub fdc_set_drq : Wires E → Wires E
  fdc_set_drq w = record w { drq = 0x00 }

  unfoldable pub fdc_clr_drq : Wires E → Wires E
  fdc_clr_drq w = record w { drq = 0x80 }

  unfoldable pub fdc_set_intrq : Wires E → Wires E
  fdc_set_intrq w = record w {
    intrq = 0x00;
    cpu_userdata =
        if has w.status ctrl_intena then call w.cpu_irq_set w.cpu_userdata else w.cpu_userdata;
  }

  unfoldable pub fdc_clr_intrq : Wires E → Wires E
  fdc_clr_intrq w = record w { intrq = 0x80; cpu_userdata = call w.cpu_irq_clr w.cpu_userdata }

  unfoldable pub select_drive : ℕ → Microdisc E → Microdisc E
  unfolding Fdc.set_disk
  select_drive drive md = if leb max_drives drive then md else record md {
    drive = drive;
    fdc = record (Fdc.set_disk (md.disk_data drive) (md.disk_size drive) md.fdc) {
      tracks = md.disk_tracks drive;
      sectors_per_track = md.disk_sectors drive;
    };
  }

  -- `null` stands for the zero bytes in `cpu_userdata`.
  unfoldable pub init : E → (ℕ → ℕ → ℕ) → Microdisc E
  unfolding Fdc.init fdc_set_drq fdc_clr_drq fdc_set_intrq fdc_clr_intrq
  init null blocks = record {
    fdc =
        record (Fdc.init
          (record {
            status = 0;
            intrq = 0x80;
            drq = 0x80;
            cpu_irq_set = none;
            cpu_irq_clr = none;
            cpu_userdata = null;
          })
          blocks) {
            set_drq = fdc_set_drq;
            clr_drq = fdc_clr_drq;
            set_intrq = fdc_set_intrq;
            clr_intrq = fdc_clr_intrq;
          };
    diskrom = true;
    romdis = true;
    intena = false;
    drive = 0;
    side = 0;
    disk_data = λ _. none;
    disk_size = λ _. 0;
    disk_tracks = λ _. 0;
    disk_sectors = λ _. 0;
    diskrom_data = none;
    diskrom_size = 0;
  }

  unfoldable pub reset : Microdisc E → Microdisc E
  unfolding Fdc.reset
  reset md = record md {
    fdc = record (Fdc.reset md.fdc) {
      userdata = record md.fdc.userdata { status = 0; intrq = 0x80; drq = 0x80 };
    };
    diskrom = true;
    romdis = true;
    intena = false;
    drive = 0;
    side = 0;
  }

  -- What the other ports show.
  unfoldable pub port_value : ℕ → Microdisc E → ℕ
  port_value addr md =
      if addr == 0x0314
      then bit_or md.fdc.userdata.intrq 0x7f
      else if addr == 0x0318
      then bit_or md.fdc.userdata.drq 0x7f
      else 0xff

  unfoldable pub read_port : ℕ → Microdisc E → ℕ × Microdisc E
  unfolding read port_value
  read_port addr md =
      let (v, fdc) = read (bit_and addr 3) md.fdc in
      if is_fdc addr then (v, record md { fdc = fdc }) else (port_value addr md, md)

  -- The interrupt line of the processor, behind a write of the control register.
  unfoldable pub route_irq : ℕ → Wires E → Wires E
  route_irq value w = record w {
    status = value;
    cpu_userdata =
        if has value ctrl_intena && w.intrq == 0x00
        then call w.cpu_irq_set w.cpu_userdata
        else call w.cpu_irq_clr w.cpu_userdata;
  }

  unfoldable pub write_control : ℕ → Microdisc E → Microdisc E
  unfolding route_irq select_drive
  write_control value md =
      let side = if has value ctrl_side then 1 else 0 in
      let md1 = record md {
        fdc = record md.fdc { userdata = route_irq value md.fdc.userdata; side = side };
        intena = has value ctrl_intena;
        romdis = not (has value ctrl_romdis);
        side = side;
        diskrom = not (has value ctrl_eprom);
      } in
      let new_drive = bit_and (shr value 5) 0x03 in
      if new_drive == md1.drive then md1 else select_drive new_drive md1

  unfoldable pub write_port : ℕ → ℕ → Microdisc E → Microdisc E
  unfolding write write_control
  write_port addr value md =
      if is_fdc addr
      then record md { fdc = write (bit_and addr 3) value md.fdc }
      else if addr == 0x0314
      then write_control value md
      else md

  unfoldable pub set_disk : ℕ → Option ℕ → ℕ → ℕ → ℕ → Microdisc E → Microdisc E
  unfolding Fdc.set_disk
  set_disk drive block size tracks sectors md =
      if leb max_drives drive
      then md
      else (let md1 = record md {
        disk_data = update md.disk_data drive block;
        disk_size = update md.disk_size drive size;
        disk_tracks = update md.disk_tracks drive tracks;
        disk_sectors = update md.disk_sectors drive sectors;
      } in
          if drive == md1.drive
          then record md1 {
            fdc = record (Fdc.set_disk block size md1.fdc) {
              tracks = tracks;
              sectors_per_track = sectors;
            };
          }
          else md1)

  -- `granted` says whether `malloc` gives the block.
  unfoldable pub load_rom : Option RomFile → Bool → Microdisc E → Bool × Microdisc E
  load_rom none granted md = (false, md)
  load_rom (some file) granted md =
      if file.size == 0 || ltb 16384 file.size
      then (false, md)
      else if not granted
      then (false, record md { diskrom_data = none })
      else if not (file.delivered == file.size)
      then (false, record md { diskrom_data = none })
      else (true, record md { diskrom_data = some file.bytes; diskrom_size = file.size })

  unfoldable pub cleanup : Microdisc E → Microdisc E
  cleanup md = record md { diskrom_data = none }
