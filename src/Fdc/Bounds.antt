-- ===== src/Fdc/Bounds.antt =====
-- The memory safety of transfers.
use oric2_golden_model.Base.{
  ℕ, ◌+◌, ◌-◌, ◌*◌, ◌≤◌, ◌<◌, bit_and, bit_or, ◌≡◌, refl, ap, Bool, true, false, Option, none, some,
  arith, ltb, ◌==◌, if◌then◌else◌, u8, u16, has, clear8,
}
use oric2_golden_model.Fdc.{
  FdcOp, op_none, op_read_sector, op_read_sectors, op_write_sector, op_write_sectors,
  op_read_address, op_read_track, op_write_track, st_busy, st_drq, sti_headl, st_not_ready, Fdc,
  drop_drq, drop_intrq, init, reset, set_disk, find_sector, seek_track, ticktock,
}
use oric2_golden_model.Fdc.Registers.{
  lost_sector, next_sector, byte_done, read_transfer, read_address, read_op, read, start_seek,
  refuse_sector, start_sector, start_address, force_interrupt, start_write_track, execute,
  write_transfer, write_op, write,
}

-- A pointer to 256 bytes inside its block, or none.
abbrev pub SectorFits : (ℕ → ℕ) → Option (ℕ × ℕ) → Type 0
SectorFits sizes none = Unit {0}
SectorFits sizes (some (block, start)) = start + 256 ≤ sizes block

abbrev pub DiskFits : (ℕ → ℕ) → Option ℕ → ℕ → Type 0
DiskFits sizes none size = Unit {0}
DiskFits sizes (some block) size = size ≤ sizes block

-- What an operation needs of the offset of its next byte.
abbrev pub OffsetFits : FdcOp → ℕ → ℕ → Type 0
OffsetFits op_read_sector offset len = (offset < 256) × (len ≡ 256)
OffsetFits op_read_sectors offset len = (offset < 256) × (len ≡ 256)
OffsetFits op_write_sector offset len = (offset < 256) × (len ≡ 256)
OffsetFits op_write_sectors offset len = (offset < 256) × (len ≡ 256)
OffsetFits op_read_address offset len = offset < 6
OffsetFits op_none offset len = Unit {0}
OffsetFits op_read_track offset len = Unit {0}
OffsetFits op_write_track offset len = Unit {0}

-- Every byte that an operation in progress would touch lies in its block, whose size is `sizes`.
pub record IsInBounds {D : Type 0} (sizes : ℕ → ℕ) (f : Fdc D) : Type 0 where
  pub disk : DiskFits sizes f.disk_data f.disk_size
  pub transfer : SectorFits sizes f.cur_sector_data
  pub offset : OffsetFits f.currentop f.cur_offset f.cur_sector_len
  pub side_bit : f.side < 2
  pub tracks_byte : f.tracks < 256
  pub sectors_byte : f.sectors_per_track < 256

-- the operations on sectors
abbrev is_sector : FdcOp → Bool
is_sector op_read_sector = true
is_sector op_read_sectors = true
is_sector op_write_sector = true
is_sector op_write_sectors = true
is_sector op_none = false
is_sector op_read_address = false
is_sector op_read_track = false
is_sector op_write_track = false

sector_op-Fits :
    (op : FdcOp) (offset len : ℕ)
    → is_sector op ≡ true
    → offset < 256
    → len ≡ 256
    → OffsetFits op offset len
sector_op-Fits op_read_sector offset len s h e = (h, e)
sector_op-Fits op_read_sectors offset len s h e = (h, e)
sector_op-Fits op_write_sector offset len s h e = (h, e)
sector_op-Fits op_write_sectors offset len s h e = (h, e)
sector_op-Fits op_none offset len s h e = tt
sector_op-Fits op_read_address offset len s h e = cc
sector_op-Fits op_read_track offset len s h e = tt
sector_op-Fits op_write_track offset len s h e = tt

sector_op-len :
    (op : FdcOp) (offset len : ℕ)
    → is_sector op ≡ true
    → OffsetFits op offset len
    → (offset < 256) × (len ≡ 256)
sector_op-len op_read_sector offset len s h = h
sector_op-len op_read_sectors offset len s h = h
sector_op-len op_write_sector offset len s h = h
sector_op-len op_write_sectors offset len s h = h
sector_op-len op_none offset len s h = cc
sector_op-len op_read_address offset len s h = cc
sector_op-len op_read_track offset len s h = cc
sector_op-len op_write_track offset len s h = cc

-- the status that a command of type I starts with
abbrev start_status : ℕ → ℕ
start_status value = if has value 0x08 then bit_or st_busy sti_headl else st_busy

byte_product : (x y a b : ℕ) → x ≤ a → y ≤ b → x * y ≤ a * b
byte_product x y a b hx hy = grind arith

module _ {D : Type 0} where
  -- No offset of a sector wraps around.
  sector_number-lt :
      (id : ℕ) (f : Fdc D)
      → f.side < 2
      → f.tracks < 256
      → f.sectors_per_track < 256
      → f.c_track < f.tracks
      → id ≤ f.sectors_per_track
      → f.side * f.tracks * f.sectors_per_track + f.c_track * f.sectors_per_track + (id - 1)
        < 200000
  sector_number-lt id f hs ht hp hc hi = omega (
    arith,
    byte_product (f.side * f.tracks) f.sectors_per_track 255 255
        (omega (arith, byte_product f.side f.tracks 1 255 (omega arith) (omega arith)))
        (omega arith),
    byte_product f.c_track f.sectors_per_track 255 255 (omega arith) (omega arith),
  )

  find_sector-Fits :
      (sizes : ℕ → ℕ) (id : ℕ) (f : Fdc D)
      → DiskFits sizes f.disk_data f.disk_size
      → f.side < 2
      → f.tracks < 256
      → f.sectors_per_track < 256
      → SectorFits sizes (find_sector id f)
  unfolding find_sector
  find_sector-Fits sizes id f disk hs ht hp = ground (arith, sector_number-lt id f)

  module _ (sizes : ℕ → ℕ) where
    sector-Fits : (id : ℕ) (f : Fdc D) → IsInBounds sizes f → SectorFits sizes (find_sector id f)
    sector-Fits id f h = find_sector-Fits sizes id f h.disk h.side_bit h.tracks_byte h.sectors_byte

    init-InBounds : (null : D) (blocks : ℕ → ℕ → ℕ) → IsInBounds sizes (init null blocks)
    unfolding init
    init-InBounds null blocks = ground arith

    reset-InBounds : (f : Fdc D) → IsInBounds sizes f → IsInBounds sizes (reset f)
    unfolding reset
    reset-InBounds f h = ground arith

    seek_track-InBounds :
        (wanted : ℕ) (f : Fdc D) → IsInBounds sizes f → IsInBounds sizes (seek_track wanted f)
    unfolding seek_track
    seek_track-InBounds wanted f h = ground arith

    ticktock-InBounds :
        (cycles : ℕ) (f : Fdc D) → IsInBounds sizes f → IsInBounds sizes (ticktock cycles f)
    unfolding ticktock
    ticktock-InBounds cycles f h = ground arith

    next_sector-InBounds :
        (many : Bool) (f : Fdc D)
        → IsInBounds sizes (record f { cur_offset = 0 })
        → IsInBounds sizes (next_sector many f)
    unfolding next_sector
    next_sector-InBounds false f h = ground arith
    next_sector-InBounds true f h =
        let f1 = record f { sector = u8 (f.sector + 1); cur_offset = 0 } in
        ground (arith, find_sector-Fits sizes f1.sector f1)

    byte_done-InBounds :
        (many : Bool) (f : Fdc D)
        → IsInBounds sizes (record f { cur_offset = 0 })
        → is_sector f.currentop ≡ true
        → f.cur_sector_len ≡ 256
        → IsInBounds sizes (byte_done many f)
    unfolding byte_done
    byte_done-InBounds many f h s e =
        let f1 = drop_drq (record f { status = clear8 f.status st_drq }) in
        ground (
          arith,
          next_sector-InBounds many f1,
          sector_op-Fits f.currentop f.cur_offset f.cur_sector_len,
        )

    -- A sector that is being transferred fits also from its first byte on.
    restart-InBounds :
        (f : Fdc D)
        → IsInBounds sizes f
        → is_sector f.currentop ≡ true
        → IsInBounds sizes (record f { cur_offset = 0 })
    restart-InBounds f h s =
        let old = sector_op-len f.currentop f.cur_offset f.cur_sector_len s h.offset in
        record {
          disk = h.disk;
          transfer = h.transfer;
          offset = sector_op-Fits f.currentop 0 f.cur_sector_len s (omega arith) old.1;
          side_bit = h.side_bit;
          tracks_byte = h.tracks_byte;
          sectors_byte = h.sectors_byte;
        }

    -- Behind a byte the transfer stays in bounds, whatever the other registers and the bytes of the disks are.
    moved-InBounds :
        (many : Bool) (f : Fdc D) (kind byte : ℕ) (blocks : ℕ → ℕ → ℕ)
        → IsInBounds sizes f
        → is_sector f.currentop ≡ true
        → IsInBounds sizes (
            byte_done many (record f {
              sec_type = kind;
              data_reg = byte;
              blocks = blocks;
              cur_offset = u16 (f.cur_offset + 1);
            }))
    moved-InBounds many f kind byte blocks h s =
        let r = restart-InBounds f h s in
        byte_done-InBounds many _
          (record {
            disk = r.disk;
            transfer = r.transfer;
            offset = r.offset;
            side_bit = r.side_bit;
            tracks_byte = r.tracks_byte;
            sectors_byte = r.sectors_byte;
          })
          s (sector_op-len f.currentop f.cur_offset f.cur_sector_len s h.offset).1

    lost_sector-InBounds : (f : Fdc D) → IsInBounds sizes f → IsInBounds sizes (lost_sector f)
    unfolding lost_sector
    lost_sector-InBounds f h = ground arith

    read_transfer-InBounds :
        (many : Bool) (p : Option (ℕ × ℕ)) (f : Fdc D)
        → IsInBounds sizes f
        → is_sector f.currentop ≡ true
        → IsInBounds sizes (read_transfer many p f)
    unfolding read_transfer
    read_transfer-InBounds many none f h s = lost_sector-InBounds f h
    read_transfer-InBounds many (some (block, start)) f h s = moved-InBounds many f _ _ _ h s

    write_transfer-InBounds :
        (value : ℕ) (many : Bool) (p : Option (ℕ × ℕ)) (f : Fdc D)
        → IsInBounds sizes f
        → is_sector f.currentop ≡ true
        → IsInBounds sizes (write_transfer value many p f)
    unfolding write_transfer
    write_transfer-InBounds value many none f h s = lost_sector-InBounds f h
    write_transfer-InBounds value many (some (block, start)) f h s = moved-InBounds many f _ _ _ h s

    read_address-InBounds :
        (f : Fdc D)
        → IsInBounds sizes f
        → f.currentop ≡ op_read_address
        → IsInBounds sizes (read_address f)
    unfolding read_address
    read_address-InBounds f h e = ground arith

    read_op-InBounds :
        (op : FdcOp) (f : Fdc D)
        → IsInBounds sizes f
        → f.currentop ≡ op
        → IsInBounds sizes (read_op op f)
    unfolding read_op
    read_op-InBounds op_read_sector f h e =
        read_transfer-InBounds false f.cur_sector_data f h (ap is_sector e)
    read_op-InBounds op_read_sectors f h e =
        read_transfer-InBounds true f.cur_sector_data f h (ap is_sector e)
    read_op-InBounds op_read_address f h e = read_address-InBounds f h e
    read_op-InBounds op_none f h e = h
    read_op-InBounds op_write_sector f h e = h
    read_op-InBounds op_write_sectors f h e = h
    read_op-InBounds op_read_track f h e = h
    read_op-InBounds op_write_track f h e = h

    write_op-InBounds :
        (value : ℕ) (op : FdcOp) (f : Fdc D)
        → IsInBounds sizes f
        → f.currentop ≡ op
        → IsInBounds sizes (write_op value op f)
    unfolding write_op
    write_op-InBounds value op_write_sector f h e =
        write_transfer-InBounds value false f.cur_sector_data f h (ap is_sector e)
    write_op-InBounds value op_write_sectors f h e =
        write_transfer-InBounds value true f.cur_sector_data f h (ap is_sector e)
    write_op-InBounds value op_none f h e = h
    write_op-InBounds value op_read_sector f h e = h
    write_op-InBounds value op_read_sectors f h e = h
    write_op-InBounds value op_read_address f h e = h
    write_op-InBounds value op_read_track f h e = h
    write_op-InBounds value op_write_track f h e = h

    start_sector-InBounds :
        (delay : ℕ) (op : FdcOp) (f : Fdc D)
        → IsInBounds sizes f
        → is_sector op ≡ true
        → IsInBounds sizes (start_sector delay op f)
    unfolding start_sector refuse_sector
    start_sector-InBounds delay op f h s =
        ground (arith, sector-Fits f.sector f h, sector_op-Fits op 0 256 s)

    start_address-InBounds : (f : Fdc D) → IsInBounds sizes f → IsInBounds sizes (start_address f)
    unfolding start_address refuse_sector
    start_address-InBounds f h = ground (arith, sector-Fits 1 f h)

    InBounds-if :
        (b : Bool) {f g : Fdc D}
        → IsInBounds sizes f
        → IsInBounds sizes g
        → IsInBounds sizes (if b then f else g)
    InBounds-if true hf hg = hf
    InBounds-if false hf hg = hg

    -- A seek that starts from other registers, with no operation left in progress.
    sought-InBounds :
        (wanted status direction : ℕ) (f : Fdc D)
        → IsInBounds sizes f
        → IsInBounds sizes
            (record (seek_track wanted (record f { status = status; direction = direction })) {
              currentop = op_none;
            })
    sought-InBounds wanted status direction f h =
        ground
          (arith, seek_track-InBounds wanted (record f { status = status; direction = direction }))

    halted-InBounds :
        (status direction : ℕ) (f : Fdc D)
        → IsInBounds sizes f
        → IsInBounds sizes
            (record f { status = status; direction = direction; currentop = op_none })
    halted-InBounds status direction f h = ground arith

    sought-if :
        (b : Bool) (there here status direction : ℕ) (f : Fdc D)
        → IsInBounds sizes f
        → let g = record f { status = status; direction = direction } in
          IsInBounds sizes
            (record (if b then seek_track there g else seek_track here g) { currentop = op_none })
    sought-if true there here status direction f h = sought-InBounds there status direction f h
    sought-if false there here status direction f h = sought-InBounds here status direction f h

    step_out-InBounds :
        (b : Bool) (there status : ℕ) (f : Fdc D)
        → IsInBounds sizes f
        → let g = record f { status = status; direction = 1 } in
          IsInBounds sizes (record (if b then seek_track there g else g) { currentop = op_none })
    step_out-InBounds true there status f h = sought-InBounds there status 1 f h
    step_out-InBounds false there status f h = halted-InBounds status 1 f h

    force_interrupt-InBounds :
        (f : Fdc D) → IsInBounds sizes f → IsInBounds sizes (force_interrupt f)
    unfolding force_interrupt
    force_interrupt-InBounds f h = ground arith

    track-InBounds :
        (f : Fdc D)
        → IsInBounds sizes f
        → IsInBounds sizes (start_write_track f)
          × IsInBounds sizes (record f {
            status = bit_or st_busy st_not_ready;
            delayed_drq = 60;
            currentop = op_read_track;
          })
    unfolding start_write_track
    track-InBounds f h = (ground arith, ground arith)

    execute-InBounds :
        (value : ℕ) (f : Fdc D) → IsInBounds sizes f → IsInBounds sizes (execute value f)
    unfolding execute start_seek
    execute-InBounds value f h =
        let kind = bit_and value 0xe0 in
        let low = has value 0x10 in
        InBounds-if (kind == 0x00) (sought-if low f.data_reg 0 (start_status value) f.direction f h)
          (InBounds-if (kind == 0x20)
            (sought-if (f.direction == 0) (u8 (f.c_track + 1))
              (if ltb 0 f.c_track then f.c_track - 1 else 0) (start_status value) f.direction f h)
            (InBounds-if (kind == 0x40)
              (sought-InBounds (u8 (f.c_track + 1)) (start_status value) 0 f h)
              (InBounds-if (kind == 0x60)
                (step_out-InBounds (ltb 0 f.c_track) (f.c_track - 1) (start_status value) f h)
                (InBounds-if (kind == 0x80)
                  (start_sector-InBounds 60 (if low then op_read_sectors else op_read_sector) f h
                    (ground arith))
                  (InBounds-if (kind == 0xa0)
                    (start_sector-InBounds 500 (if low then op_write_sectors else op_write_sector) f
                      h (ground arith))
                    (InBounds-if (kind == 0xc0)
                      (InBounds-if low (force_interrupt-InBounds f h) (start_address-InBounds f h))
                      (InBounds-if low (track-InBounds f h).0 (track-InBounds f h).1)))))))

    read-InBounds : (reg : ℕ) (f : Fdc D) → IsInBounds sizes f → IsInBounds sizes (read reg f).1
    unfolding read
    read-InBounds reg f h = ground (arith, read_op-InBounds f.currentop f h refl)

    write-InBounds :
        (reg value : ℕ) (f : Fdc D) → IsInBounds sizes f → IsInBounds sizes (write reg value f)
    unfolding write
    write-InBounds reg value f h =
        let with_data = record f { data_reg = value } in
        ground (
          arith,
          execute-InBounds value (drop_intrq f),
          write_op-InBounds value f.currentop with_data,
        )

-- What happens to a controller. A disk that is inserted has the size of its block at least.
pub data FdcEvent (sizes : ℕ → ℕ) : Type 0 where
  read_event : ℕ → FdcEvent sizes
  write_event : ℕ → ℕ → FdcEvent sizes
  tick_event : ℕ → FdcEvent sizes
  reset_event eject_event : FdcEvent sizes
  insert_event : (block size : ℕ) → size ≤ sizes block → FdcEvent sizes
  geometry_event :
      (side tracks sectors : ℕ) → side < 2 → tracks < 256 → sectors < 256 → FdcEvent sizes

module _ {D : Type 0} (sizes : ℕ → ℕ) where
  unfoldable pub happen : FdcEvent sizes → Fdc D → Fdc D
  happen (read_event reg) f = (read reg f).1
  happen (write_event reg value) f = write reg value f
  happen (tick_event cycles) f = ticktock cycles f
  happen reset_event f = reset f
  happen eject_event f = set_disk none 0 f
  happen (insert_event block size fits) f = set_disk (some block) size f
  happen (geometry_event side tracks sectors _ _ _) f = record f {
    side = side;
    tracks = tracks;
    sectors_per_track = sectors;
  }

  -- The states after `fdc_init` and any events.
  pub data Reached : Fdc D → Type 0 where
    initialised : (null : D) (blocks : ℕ → ℕ → ℕ) → Reached (init null blocks)
    happened : (event : FdcEvent sizes) (f : Fdc D) → Reached f → Reached (happen event f)

  happen-InBounds :
      (event : FdcEvent sizes) (f : Fdc D) → IsInBounds sizes f → IsInBounds sizes (happen event f)
  unfolding happen set_disk
  happen-InBounds (read_event reg) f h = read-InBounds sizes reg f h
  happen-InBounds (write_event reg value) f h = write-InBounds sizes reg value f h
  happen-InBounds (tick_event cycles) f h = ticktock-InBounds sizes cycles f h
  happen-InBounds reset_event f h = reset-InBounds sizes f h
  happen-InBounds eject_event f h = ground arith
  happen-InBounds (insert_event block size fits) f h = ground arith
  happen-InBounds (geometry_event side tracks sectors hs ht hp) f h = ground arith

  -- After `fdc_init`, whatever register accesses, ticks, resets, disk changes and changes of geometry follow, in
  -- any order, every byte that the operation in progress would touch lies in its heap block: a
  -- sector that is read or written fits with all its 256 bytes, its next byte is one of them, and
  -- the next byte of an address field is one of its six.
  pub Reached-InBounds : (f : Fdc D) → Reached f → IsInBounds sizes f
  Reached-InBounds _ (initialised null blocks) = init-InBounds sizes null blocks
  Reached-InBounds _ (happened event f r) = happen-InBounds event f (Reached-InBounds f r)
