-- ===== src/Fdc/Registers.antt =====
-- The registers of the controller: `fdc_read` and `fdc_write`.
use oric2_golden_model.Base.{
  ℕ, ◌+◌, ◌-◌, bit_and, bit_or, Bool, true, false, Option, none, some, ltb, leb, ◌==◌,
  if◌then◌else◌, update, u8, u16, has, clear8,
}
use oric2_golden_model.Fdc.{
  FdcOp, op_none, op_read_sector, op_read_sectors, op_write_sector, op_write_sectors,
  op_read_address, op_read_track, op_write_track, st_busy, st_drq, sti_headl, st_not_found,
  st_not_ready, Fdc, raise_drq, drop_drq, raise_intrq, drop_intrq, find_sector, seek_track,
}

-- The address field that `FDC_OP_READ_ADDRESS` delivers. Its six bytes are never left, as Fdc/Bounds shows.
abbrev pub addr_field : ℕ → ℕ → ℕ → ℕ → ℕ
addr_field c_track side sector i =
    if i == 0
    then c_track
    else if i == 1
    then side
    else if i == 2
    then sector
    else if i == 3
    then 1
    else 0

module _ {D : Type 0} where
  -- A transfer with no sector behind it.
  unfoldable pub lost_sector : Fdc D → Fdc D
  unfolding drop_drq
  lost_sector f =
      record (drop_drq (record f { status = bit_or (clear8 f.status st_drq) st_not_found })) {
        currentop = op_none;
      }

  -- The end of a transfer, with the delay of its interrupt.
  unfoldable pub end_transfer : ℕ → Fdc D → Fdc D
  unfolding drop_drq
  end_transfer delay f = drop_drq (record f {
    delayed_int = delay;
    di_status = some f.sec_type;
    currentop = op_none;
    status = clear8 f.status st_drq;
  })

  -- What follows the last byte of a sector; `many` for the commands on many sectors.
  unfoldable pub next_sector : Bool → Fdc D → Fdc D
  unfolding end_transfer find_sector
  next_sector false f = end_transfer 32 f
  next_sector true f =
      let f1 = record f { sector = u8 (f.sector + 1); cur_offset = 0 } in
      elim (find_sector f1.sector f1) [
        | none ↦ end_transfer 20 (record f1 { cur_sector_data = none })
        | some p ↦ record f1 { cur_sector_data = some p; delayed_drq = 180 }
      ]

  -- What follows a byte: DRQ goes down, and the next byte, the next sector or the end is set up.
  unfoldable pub byte_done : Bool → Fdc D → Fdc D
  unfolding drop_drq next_sector
  byte_done many f =
      let f1 = drop_drq (record f { status = clear8 f.status st_drq }) in
      if leb f1.cur_sector_len f1.cur_offset
      then next_sector many f1
      else record f1 { delayed_drq = 32 }

  -- `FDC_OP_READ_SECTOR` and `FDC_OP_READ_SECTORS`, at the pointer to the sector.
  unfoldable pub read_transfer : Bool → Option (ℕ × ℕ) → Fdc D → Fdc D
  unfolding lost_sector byte_done
  read_transfer many none f = lost_sector f
  read_transfer many (some (block, start)) f = byte_done many (record f {
    sec_type = if f.cur_offset == 0 then 0 else f.sec_type;
    data_reg = f.blocks block (start + f.cur_offset);
    cur_offset = u16 (f.cur_offset + 1);
  })

  unfoldable pub read_address : Fdc D → Fdc D
  unfolding drop_drq
  read_address f =
      let f1 : Fdc D = elim f.cur_sector_data [
        | none ↦ f
        | some _ ↦ record f {
          data_reg = addr_field f.c_track f.side f.sector f.cur_offset;
          cur_offset = u16 (f.cur_offset + 1);
        }
      ] in
      let f2 = drop_drq (record f1 { status = clear8 f1.status st_drq }) in
      if leb 6 f2.cur_offset
      then record f2 { delayed_int = 20; di_status = some 0; currentop = op_none }
      else record f2 { delayed_drq = 32 }

  unfoldable pub read_op : FdcOp → Fdc D → Fdc D
  unfolding read_transfer read_address
  read_op op_read_sector f = read_transfer false f.cur_sector_data f
  read_op op_read_sectors f = read_transfer true f.cur_sector_data f
  read_op op_read_address f = read_address f
  read_op op_none f = f
  read_op op_write_sector f = f
  read_op op_write_sectors f = f
  read_op op_read_track f = f
  read_op op_write_track f = f

  unfoldable pub read : ℕ → Fdc D → ℕ × Fdc D
  unfolding drop_intrq read_op
  read reg f =
      let r = bit_and reg 3 in
      if r == 0
      then (f.status, drop_intrq f)
      else if r == 1
      then (f.track, f)
      else if r == 2
      then (f.sector, f)
      else (let g = read_op f.currentop f in (g.data_reg, g))

  -- The commands of type I start busy.
  unfoldable pub start_seek : ℕ → Fdc D → Fdc D
  start_seek value f = record f {
    status = if has value 0x08 then bit_or st_busy sti_headl else st_busy;
  }

  unfoldable pub refuse_sector : Fdc D → Fdc D
  unfolding drop_drq raise_intrq
  refuse_sector f = record (raise_intrq (drop_drq (record f { status = st_not_found }))) {
    currentop = op_none;
  }

  -- The commands of type II: the delay of the first DRQ and the operation.
  unfoldable pub start_sector : ℕ → FdcOp → Fdc D → Fdc D
  unfolding refuse_sector find_sector
  start_sector delay op f = elim (find_sector f.sector f) [
    | none ↦ refuse_sector (record f { cur_offset = 0; cur_sector_data = none })
    | some p ↦ record f {
      cur_offset = 0;
      cur_sector_data = some p;
      cur_sector_len = 256;
      status = bit_or st_busy st_not_ready;
      delayed_drq = delay;
      currentop = op;
    }
  ]

  unfoldable pub start_address : Fdc D → Fdc D
  unfolding refuse_sector find_sector raise_drq
  start_address f = elim (find_sector 1 f) [
    | none ↦ refuse_sector (record f { cur_offset = 0; cur_sector_data = none })
    | some p ↦
        record (raise_drq (record f {
          cur_offset = 0;
          cur_sector_data = some p;
          status = bit_or (bit_or st_not_ready st_busy) st_drq;
        })) { currentop = op_read_address }
  ]

  unfoldable pub force_interrupt : Fdc D → Fdc D
  unfolding drop_drq raise_intrq
  force_interrupt f = record (raise_intrq (drop_drq (record f { status = 0 }))) {
    delayed_int = 0;
    delayed_drq = 0;
    currentop = op_none;
  }

  unfoldable pub start_write_track : Fdc D → Fdc D
  unfolding drop_drq drop_intrq
  start_write_track f =
      record (drop_intrq
        (drop_drq (record f { status = bit_or st_not_ready st_busy; delayed_drq = 500 }))) {
          delayed_int = 0;
          currentop = op_write_track;
        }

  -- The switch over the command, behind the clearing of INTRQ.
  unfoldable pub execute : ℕ → Fdc D → Fdc D
  unfolding start_seek seek_track start_sector start_address force_interrupt start_write_track
  execute value f =
      let kind = bit_and value 0xe0 in
      let low = has value 0x10 in
      let f1 = start_seek value f in
      if kind == 0x00
      then record (if low then seek_track f1.data_reg f1 else seek_track 0 f1) {
        currentop = op_none;
      }
      else if kind == 0x20
      then record (if f1.direction == 0
          then seek_track (u8 (f1.c_track + 1)) f1
          else seek_track (if ltb 0 f1.c_track then f1.c_track - 1 else 0) f1) {
            currentop = op_none;
          }
      else if kind == 0x40
      then record (let f2 = record f1 { direction = 0 } in seek_track (u8 (f2.c_track + 1)) f2) {
        currentop = op_none;
      }
      else if kind == 0x60
      then record (let f2 = record f1 { direction = 1 } in
          if ltb 0 f2.c_track then seek_track (f2.c_track - 1) f2 else f2) { currentop = op_none }
      else if kind == 0x80
      then start_sector 60 (if low then op_read_sectors else op_read_sector) f
      else if kind == 0xa0
      then start_sector 500 (if low then op_write_sectors else op_write_sector) f
      else if kind == 0xc0
      then (if low then force_interrupt f else start_address f)
      else if low
      then start_write_track f
      else record f {
        status = bit_or st_busy st_not_ready;
        delayed_drq = 60;
        currentop = op_read_track;
      }

  -- `FDC_OP_WRITE_SECTOR` and `FDC_OP_WRITE_SECTORS`
  unfoldable pub write_transfer : ℕ → Bool → Option (ℕ × ℕ) → Fdc D → Fdc D
  unfolding lost_sector byte_done
  write_transfer value many none f = lost_sector f
  write_transfer value many (some (block, start)) f = byte_done many (record f {
    blocks = update f.blocks block (update (f.blocks block) (start + f.cur_offset) value);
    cur_offset = u16 (f.cur_offset + 1);
  })

  unfoldable pub write_op : ℕ → FdcOp → Fdc D → Fdc D
  unfolding write_transfer
  write_op value op_write_sector f = write_transfer value false f.cur_sector_data f
  write_op value op_write_sectors f = write_transfer value true f.cur_sector_data f
  write_op value op_none f = f
  write_op value op_read_sector f = f
  write_op value op_read_sectors f = f
  write_op value op_read_address f = f
  write_op value op_read_track f = f
  write_op value op_write_track f = f

  unfoldable pub write : ℕ → ℕ → Fdc D → Fdc D
  unfolding drop_intrq execute write_op
  write reg value f =
      let r = bit_and reg 3 in
      if r == 0
      then execute value (drop_intrq f)
      else if r == 1
      then record f { track = value }
      else if r == 2
      then record f { sector = value }
      else write_op value f.currentop (record f { data_reg = value })
