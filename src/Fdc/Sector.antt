-- ===== src/Fdc/Sector.antt =====
-- The bytes of a sector, written and read through the data register.
use oric2_golden_model.Base.{
  ℕ, zero, suc, ◌+◌, ◌<◌, bit_or, ◌≡◌, refl, sym, ap, ◌∙◌, inl, inr, false, some, List, [], ◌∷◌,
  arith, leb, Bool-cases, update, u16,
}
use oric2_golden_model.Fdc.{
  FdcOp, op_none, op_read_sector, op_write_sector, Fdc, st_busy, st_not_ready, drop_drq, drop_intrq,
  find_sector,
}
use oric2_golden_model.Fdc.Registers.{
  end_transfer, next_sector, byte_done, read_transfer, read_op, read, start_sector, execute,
  write_transfer, write_op, write,
}

-- The bytes `a[start] ... a[start + n - 1]`.
abbrev pub slice : (ℕ → ℕ) → ℕ → ℕ → List ℕ
slice a start zero = []
slice a start (suc n) = a start ∷ slice a (start + 1) n

abbrev pub length : List ℕ → ℕ
length [] = 0
length (x ∷ xs) = suc (length xs)

cons-eq : {v w : ℕ} {vs ws : List ℕ} → v ≡ w → vs ≡ ws → v ∷ vs ≡ w ∷ ws
cons-eq hv hs = cc

module _ {D : Type 0} where
  -- `n` reads of the data register
  unfoldable pub read_bytes : ℕ → Fdc D → List ℕ × Fdc D
  unfolding read
  read_bytes zero f = ([], f)
  read_bytes (suc n) f =
      let (v, f1) = read 3 f in let (rest, last) = read_bytes n f1 in (v ∷ rest, last)

  -- writes of the data register
  unfoldable pub write_bytes : List ℕ → Fdc D → Fdc D
  unfolding write
  write_bytes [] f = f
  write_bytes (v ∷ vs) f = write_bytes vs (write 3 v f)

  -- A sector at `start` of a block is being read, or written, and `offset` bytes are through.
  pub record Transfers (op : FdcOp) (block start offset : ℕ) (f : Fdc D) : Type 0 where
    pub operation : f.currentop ≡ op
    pub pointer : f.cur_sector_data ≡ some (block, start)
    pub size : f.cur_sector_len ≡ 256
    pub reached : f.cur_offset ≡ offset

  -- Behind a byte, the next one is at hand or the transfer is over, and its interrupt is due in 32 cycles.
  record Moved (op : FdcOp) (block start offset : ℕ) (f g : Fdc D) : Type 0 where
    more : offset < 255 → Transfers op block start (offset + 1) g
    over : offset ≡ 255 → (g.currentop ≡ op_none) × (g.delayed_int ≡ 32)
    place : find_sector g.sector g ≡ find_sector f.sector f

  byte_done-Moved :
      (op : FdcOp) (block start offset : ℕ) (f g : Fdc D)
      → Transfers op block start offset f
      → offset < 256
      → g.currentop ≡ op
      → g.cur_sector_data ≡ some (block, start)
      → g.cur_sector_len ≡ 256
      → g.cur_offset ≡ u16 (f.cur_offset + 1)
      → find_sector g.sector g ≡ find_sector f.sector f
      → Moved op block start offset f (byte_done false g)
  unfolding byte_done next_sector end_transfer drop_drq find_sector
  byte_done-Moved op block start offset f g h lt e1 e2 e3 e4 place =
      elim (Bool-cases (leb g.cur_sector_len g.cur_offset)) [
        | inl last ↦ rw last (record {
          more = λ below. absurd (ground (arith, last, h.reached));
          over = λ _. (refl, refl);
          place = place;
        })
        | inr inner ↦ rw inner (record {
          more = λ _. record {
            operation = e1;
            pointer = e2;
            size = e3;
            reached = ground (arith, h.reached);
          };
          over = λ full. absurd (ground (arith, inner, h.reached));
          place = place;
        })
      ]

  read_op-transfer :
      {block start offset : ℕ} {f : Fdc D}
      → Transfers op_read_sector block start offset f
      → read_op f.currentop f ≡ read_transfer false (some (block, start)) f
  unfolding read_op
  read_op-transfer {f = f} h =
      ap (λ op. read_op op f) h.operation ∙ ap (λ p. read_transfer false p f) h.pointer

  write_op-transfer :
      {block start offset : ℕ} (v : ℕ) {f : Fdc D}
      → Transfers op_write_sector block start offset f
      → write_op v f.currentop f ≡ write_transfer v false (some (block, start)) f
  unfolding write_op
  write_op-transfer v {f = f} h =
      ap (λ op. write_op v op f) h.operation ∙ ap (λ p. write_transfer v false p f) h.pointer

  read_transfer-Moved :
      (block start offset : ℕ) (f : Fdc D)
      → Transfers op_read_sector block start offset f
      → offset < 256
      → let g = read_transfer false (some (block, start)) f in
        (g.data_reg ≡ f.blocks block (start + offset))
        × (g.blocks ≡ f.blocks)
        × Moved op_read_sector block start offset f g
  unfolding read_transfer byte_done next_sector end_transfer drop_drq find_sector
  read_transfer-Moved block start offset f h lt = (
    ground (arith, h.reached),
    ground arith,
    byte_done-Moved op_read_sector block start offset f _ h lt h.operation h.pointer h.size refl
        refl,
  )

  write_transfer-Moved :
      (v block start offset : ℕ) (f : Fdc D)
      → Transfers op_write_sector block start offset f
      → offset < 256
      → let g = write_transfer v false (some (block, start)) f in
        (g.blocks ≡ update f.blocks block (update (f.blocks block) (start + offset) v))
        × Moved op_write_sector block start offset f g
  unfolding write_transfer byte_done next_sector end_transfer drop_drq find_sector
  write_transfer-Moved v block start offset f h lt = (
    ground (arith, h.reached),
    byte_done-Moved op_write_sector block start offset f _ h lt h.operation h.pointer h.size refl
        refl,
  )

  -- The controller behind the last byte of a sector.
  pub record Over (f g : Fdc D) : Type 0 where
    pub operation : g.currentop ≡ op_none
    pub delay : g.delayed_int ≡ 32
    pub place : find_sector g.sector g ≡ find_sector f.sector f

  Over-trans :
      {f g k : Fdc D} → find_sector g.sector g ≡ find_sector f.sector f → Over g k → Over f k
  Over-trans e h = record { operation = h.operation; delay = h.delay; place = h.place ∙ e }

  -- The rest of a sector that is being read is delivered in its order, and ends the command.
  read_bytes-slice :
      (n block start offset : ℕ) (f : Fdc D)
      → Transfers op_read_sector block start offset f
      → offset + suc n ≡ 256
      → let (bytes, g) = read_bytes (suc n) f in
        (bytes ≡ slice (f.blocks block) (start + offset) (suc n)) × (g.blocks ≡ f.blocks) × Over f g
  unfolding read_bytes read
  read_bytes-slice zero block start offset f h e = rw (read_op-transfer h) (
      let (byte, same, moved) = read_transfer-Moved block start offset f h (omega arith) in
      let (operation, delay) = moved.over (omega arith) in
      (
        ap (λ v. v ∷ []) byte,
        same,
        record { operation = operation; delay = delay; place = moved.place },
      ))
  read_bytes-slice (suc n) block start offset f h e = rw (read_op-transfer h) (
      let (byte, same, moved) = read_transfer-Moved block start offset f h (omega arith) in
      let g = read_transfer false (some (block, start)) f in
      let (rest, kept, over) =
        read_bytes-slice n block start (offset + 1) g (moved.more (omega arith)) (omega arith) in
      let moved_on : slice (g.blocks block) (start + (offset + 1)) (suc n)
          ≡ slice (f.blocks block) (start + offset + 1) (suc n) =
        ap (λ a. slice (a block) (start + (offset + 1)) (suc n)) same
        ∙ ap (λ k. slice (f.blocks block) k (suc n)) {y = start + offset + 1} (omega arith) in
      (cons-eq byte (rest ∙ moved_on), kept ∙ same, Over-trans moved.place over))

  -- The write of one byte, at the value of the data register that it leaves.
  write_byte-Moved :
      (v block start offset : ℕ) (f : Fdc D)
      → Transfers op_write_sector block start offset f
      → offset < 256
      → ((write 3 v f).blocks block (start + offset) ≡ v)
        × ((i : ℕ) → i < start + offset → (write 3 v f).blocks block i ≡ f.blocks block i)
        × Moved op_write_sector block start offset f (write 3 v f)
  unfolding write find_sector
  write_byte-Moved v block start offset f h lt =
      let f1 = record f { data_reg = v } in
      let h1 : Transfers op_write_sector block start offset f1 = record {
        operation = h.operation;
        pointer = h.pointer;
        size = h.size;
        reached = h.reached;
      } in
      rw (write_op-transfer v h1) (
        let (bytes, moved) = write_transfer-Moved v block start offset f1 h1 lt in
        (
          ap (λ a. a block (start + offset)) bytes ∙ ground arith,
          λ i below. ap (λ a. a block i) bytes ∙ ground arith,
          record { more = moved.more; over = moved.over; place = moved.place },
        ))

  -- Bytes that are written to a sector replace its rest and leave the bytes before it alone; the last one
  -- ends the command.
  write_bytes-slice :
      (v : ℕ) (vs : List ℕ) (block start offset : ℕ) (f : Fdc D)
      → Transfers op_write_sector block start offset f
      → offset + suc (length vs) ≡ 256
      → let g = write_bytes (v ∷ vs) f in
        (slice (g.blocks block) (start + offset) (suc (length vs)) ≡ v ∷ vs)
        × ((i : ℕ) → i < start + offset → g.blocks block i ≡ f.blocks block i)
        × Over f g
  unfolding write_bytes write
  write_bytes-slice v [] block start offset f h e =
      let (byte, below, moved) = write_byte-Moved v block start offset f h (omega arith) in
      let (operation, delay) = moved.over (omega arith) in
      (
        ap (λ b. b ∷ []) byte,
        below,
        record { operation = operation; delay = delay; place = moved.place },
      )
  write_bytes-slice v (w ∷ vs) block start offset f h e =
      let (byte, below, moved) = write_byte-Moved v block start offset f h (omega arith) in
      let g = write 3 v f in
      let last = write_bytes (w ∷ vs) g in
      let (rest, kept, over) =
        write_bytes-slice w vs block start (offset + 1) g (moved.more (omega arith))
          (omega arith) in
      let moved_on : slice (last.blocks block) (start + offset + 1) (suc (length vs)) ≡ w ∷ vs =
        ap (λ k. slice (last.blocks block) k (suc (length vs))) {y = start + (offset + 1)}
          (omega arith)
        ∙ rest in
      (
        cons-eq (kept (start + offset) (omega arith) ∙ byte) moved_on,
        λ i lt. kept i (omega arith) ∙ below i lt,
        Over-trans moved.place over,
      )

  -- The controller at the start of a transfer.
  abbrev started : ℕ → FdcOp → ℕ × ℕ → Fdc D → Fdc D
  started delay op p f = record f {
    cur_offset = 0;
    cur_sector_data = some p;
    cur_sector_len = 256;
    status = bit_or st_busy st_not_ready;
    delayed_drq = delay;
    currentop = op;
  }

  start_sector-found :
      (delay : ℕ) (op : FdcOp) (p : ℕ × ℕ) (f : Fdc D)
      → find_sector f.sector f ≡ some p
      → start_sector delay op f ≡ started delay op p f
  unfolding start_sector
  start_sector-found delay op p f e = ground (arith, e)

  started-place :
      (delay : ℕ) (op : FdcOp) (p : ℕ × ℕ) (f : Fdc D)
      → find_sector f.sector (started delay op p f) ≡ find_sector f.sector f
  unfolding find_sector
  started-place delay op p f = refl

  drop_intrq-place : (f : Fdc D) → find_sector f.sector (drop_intrq f) ≡ find_sector f.sector f
  unfolding find_sector drop_intrq
  drop_intrq-place f = refl

  -- the command register
  execute-read : (f : Fdc D) → write 0 0x80 f ≡ start_sector 60 op_read_sector (drop_intrq f)
  unfolding write execute
  execute-read f = refl

  execute-write : (f : Fdc D) → write 0 0xa0 f ≡ start_sector 500 op_write_sector (drop_intrq f)
  unfolding write execute
  execute-write f = refl

  command-found :
      (delay command : ℕ) (op : FdcOp) (p : ℕ × ℕ) (f : Fdc D)
      → write 0 command f ≡ start_sector delay op (drop_intrq f)
      → find_sector f.sector f ≡ some p
      → write 0 command f ≡ started delay op p (drop_intrq f)
  unfolding drop_intrq
  command-found delay command op p f code e =
      code ∙ start_sector-found delay op p (drop_intrq f) (drop_intrq-place f ∙ e)

  started-Transfers :
      (delay : ℕ) (op : FdcOp) (block start : ℕ) (f : Fdc D)
      → Transfers op block start 0 (started delay op (block, start) f)
  started-Transfers delay op block start f = record {
    operation = refl;
    pointer = refl;
    size = refl;
    reached = refl;
  }

  -- The bytes of a sector come in their order, from a transfer that has just started.
  read_bytes-started :
      (block start : ℕ) (f : Fdc D)
      → let (bytes, g) = read_bytes 256 (started 60 op_read_sector (block, start) f) in
        (bytes ≡ slice (f.blocks block) start 256) × (g.blocks ≡ f.blocks) × Over f g
  unfolding find_sector
  read_bytes-started block start f =
      let f1 = started 60 op_read_sector (block, start) f in
      let (bytes, same, over) =
        read_bytes-slice 255 block start 0 f1 (started-Transfers _ _ block start f) (omega arith) in
      (
        bytes ∙ ap (λ k. slice (f.blocks block) k 256) {y = start} (omega arith),
        same,
        record { operation = over.operation; delay = over.delay; place = over.place },
      )

  write_bytes-started :
      (v : ℕ) (vs : List ℕ) (block start : ℕ) (f : Fdc D)
      → length vs ≡ 255
      → let g = write_bytes (v ∷ vs) (started 500 op_write_sector (block, start) f) in
        (slice (g.blocks block) start 256 ≡ v ∷ vs)
        × ((i : ℕ) → i < start → g.blocks block i ≡ f.blocks block i)
        × Over f g
  unfolding find_sector
  write_bytes-started v vs block start f e =
      let f1 = started 500 op_write_sector (block, start) f in
      let g = write_bytes (v ∷ vs) f1 in
      let (bytes, below, over) =
        write_bytes-slice v vs block start 0 f1 (started-Transfers _ _ block start f)
          (omega arith) in
      (
        ap (λ n. slice (g.blocks block) start (suc n)) (sym e)
            ∙ ap (λ k. slice (g.blocks block) k (suc (length vs))) {y = start + 0} (omega arith)
            ∙ bytes,
        λ i lt. below i (omega arith),
        record { operation = over.operation; delay = over.delay; place = over.place },
      )

  -- A read command on a sector that is there, and then 256 reads of the data register, deliver the 256 bytes of
  -- the sector in their order, leave the disks alone, end the operation, and have its interrupt
  -- due 32 cycles later.
  pub read_sector_lem :
      (block start : ℕ) (f : Fdc D)
      → find_sector f.sector f ≡ some (block, start)
      → let (bytes, g) = read_bytes 256 (write 0 0x80 f) in
        (bytes ≡ slice (f.blocks block) start 256)
        × (g.blocks ≡ f.blocks)
        × (g.currentop ≡ op_none)
        × (g.delayed_int ≡ 32)
  unfolding drop_intrq
  read_sector_lem block start f e =
      rw (command-found 60 0x80 op_read_sector (block, start) f (execute-read f) e) (
        let (bytes, same, over) = read_bytes-started block start (drop_intrq f) in
        (bytes, same, over.operation, over.delay))

  -- Where the sector register names a sector that is there, 256 bytes that a write command and the data register
  -- put on the disk are what a read command then delivers.
  pub read_bytes-write_bytes :
      (v : ℕ) (vs : List ℕ) (block start : ℕ) (f : Fdc D)
      → find_sector f.sector f ≡ some (block, start)
      → length vs ≡ 255
      → let written = write_bytes (v ∷ vs) (write 0 0xa0 f) in
        (read_bytes 256 (write 0 0x80 written)).0 ≡ v ∷ vs
  unfolding drop_intrq
  read_bytes-write_bytes v vs block start f e full =
      rw (command-found 500 0xa0 op_write_sector (block, start) f (execute-write f) e) (
        let g = write_bytes (v ∷ vs) (started 500 op_write_sector (block, start) (drop_intrq f)) in
        let (bytes, below, over) = write_bytes-started v vs block start (drop_intrq f) full in
        (read_sector_lem block start g (over.place ∙ drop_intrq-place f ∙ e)).0 ∙ bytes)
