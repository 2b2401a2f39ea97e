-- ===== src/Fdc/Tests.antt =====
-- The theorems on the disk controller at a drive with a disk.
use oric2_golden_model.Base.{
  ℕ, zero, suc, ◌+◌, ◌%◌, ◌≡◌, refl, true, some, List, [], ◌∷◌, arith, has,
}
use oric2_golden_model.Fdc
use oric2_golden_model.Fdc.{Fdc, init, st_busy, find_sector}
use oric2_golden_model.Fdc.Registers.{write}
use oric2_golden_model.Fdc.Bounds.{
  IsInBounds, FdcEvent, write_event, insert_event, happen, initialised, happened, Reached-InBounds,
}
use oric2_golden_model.Fdc.Sector.{
  length, slice, read_bytes, write_bytes, read_sector_lem, read_bytes-write_bytes,
}
use oric2_golden_model.Fdc.Seek.{total, ticks, ticks-seek, ticks-step_out}

-- A drive with a disk of 357 sectors in block 1, whose byte `i` is `i % 256`.
abbrev drive : Fdc ℕ
drive = record (init 0 (λ _ i. i % 256)) {
  disk_data = some 1;
  disk_size = 91392;
  tracks = 21;
  sector = 3;
  set_intrq = λ d. d + 1;
}

abbrev sizes : ℕ → ℕ
sizes _ = 91392

abbrev inserted : FdcEvent sizes
inserted = insert_event 1 91392 (omega arith)

Reached-InBounds_example :
    IsInBounds sizes
      (happen {D = ℕ} sizes (write_event 0 0x80) (happen sizes inserted (init 0 (λ _ i. i % 256))))
Reached-InBounds_example =
    Reached-InBounds sizes _
      (happened (write_event 0 0x80) _ (happened inserted _ (initialised 0 (λ _ i. i % 256))))

drive_sector : find_sector drive.sector drive ≡ some (1, 512)
unfolding find_sector init
drive_sector = refl

read_sector_lem_example :
    let (bytes, g) = read_bytes 256 (write 0 0x80 drive) in
    (bytes ≡ slice (drive.blocks 1) 512 256)
    × (g.blocks ≡ drive.blocks)
    × (g.currentop ≡ Fdc.op_none)
    × (g.delayed_int ≡ 32)
read_sector_lem_example = read_sector_lem 1 512 drive drive_sector

-- `n` bytes that count up
count_up : ℕ → ℕ → List ℕ
count_up zero k = []
count_up (suc n) k = k ∷ count_up n (k + 1)

length-count_up : length (count_up 255 1) ≡ 255
unfolding count_up
length-count_up = refl

read_bytes-write_bytes_example :
    (read_bytes 256 (write 0 0x80 (write_bytes (0 ∷ count_up 255 1) (write 0 0xa0 drive)))).0
    ≡ 0 ∷ count_up 255 1
read_bytes-write_bytes_example =
    read_bytes-write_bytes 0 (count_up 255 1) 1 512 drive drive_sector length-count_up

-- The drive asked for track 7.
abbrev seeking : Fdc ℕ
seeking = record drive { data_reg = 7 }

-- The command with its flag for the head, and ticks of an instruction each.
ticks-seek_example :
    let g = ticks (7 ∷ 9 ∷ 8 ∷ []) (write 0 0x18 seeking) in
    (g.c_track ≡ 7)
    × (g.track ≡ 7)
    × (g.status ≡ 0x22)
    × (g.userdata ≡ 1)
    × (g.currentop ≡ Fdc.op_none)
    × (g.delayed_int ≡ 0)
    × (g.delayed_drq ≡ 0)
unfolding init total
ticks-seek_example =
    ticks-seek 0x18 1 (7 ∷ 9 ∷ 8 ∷ []) seeking refl refl refl (omega arith) refl
      (omega arith, (omega arith, (omega arith, tt)))

ticks-step_out_example :
    let g = ticks (100 ∷ 100 ∷ []) (write 0 0x68 drive) in
    (has g.status st_busy ≡ true) × (g.userdata ≡ 0)
unfolding init
ticks-step_out_example = ticks-step_out 0x68 (100 ∷ 100 ∷ []) drive refl refl refl refl
