-- ===== src/Fdc/Wires.antt =====
-- What the callbacks keep, every operation of the controller keeps.
use oric2_golden_model.Base.{
  ℕ, zero, suc, ◌+◌, ◌-◌, bit_and, bit_or, Bool, true, false, not, Option, none, some, arith, ltb,
  leb, ◌==◌, if◌then◌else◌, u8, u16, has, clear8,
}
use oric2_golden_model.Fdc.{
  FdcOp, op_none, op_read_sector, op_read_sectors, op_write_sector, op_write_sectors,
  op_read_address, op_read_track, op_write_track, st_busy, st_drq, sti_headl, st_not_found,
  counted_down, is_positive, Fdc, raise_drq, drop_drq, raise_intrq, drop_intrq, find_sector,
  seek_track, tick_int, tick_drq, ticktock,
}
use oric2_golden_model.Fdc.Registers.{
  addr_field, lost_sector, end_transfer, next_sector, byte_done, read_transfer, read_address,
  read_op, read, start_seek, refuse_sector, start_sector, start_address, force_interrupt,
  start_write_track, execute, write_transfer, write_op, write,
}

module _ {D : Type 0} (P : D → Type 0) where
  -- What the callbacks keep holds of what they act on.
  pub record IsWired (set_drq clr_drq set_intrq clr_intrq : D → D) (userdata : D) : Type 0 where
    pub holds : P userdata
    pub keeps_set_drq : (d : D) → P d → P (set_drq d)
    pub keeps_clr_drq : (d : D) → P d → P (clr_drq d)
    pub keeps_set_intrq : (d : D) → P d → P (set_intrq d)
    pub keeps_clr_intrq : (d : D) → P d → P (clr_intrq d)

  abbrev pub Wired : Fdc D → Type 0
  Wired f = IsWired f.set_drq f.clr_drq f.set_intrq f.clr_intrq f.userdata

  pub rewired :
      {sd cd si ci : D → D} {d e : D} → IsWired sd cd si ci d → P e → IsWired sd cd si ci e
  rewired h p = record {
    holds = p;
    keeps_set_drq = h.keeps_set_drq;
    keeps_clr_drq = h.keeps_clr_drq;
    keeps_set_intrq = h.keeps_set_intrq;
    keeps_clr_intrq = h.keeps_clr_intrq;
  }

  raise_drq-Wired : (f : Fdc D) → Wired f → Wired (raise_drq f)
  unfolding raise_drq
  raise_drq-Wired f h = rewired h (h.keeps_set_drq f.userdata h.holds)

  drop_drq-Wired : (f : Fdc D) → Wired f → Wired (drop_drq f)
  unfolding drop_drq
  drop_drq-Wired f h = rewired h (h.keeps_clr_drq f.userdata h.holds)

  raise_intrq-Wired : (f : Fdc D) → Wired f → Wired (raise_intrq f)
  unfolding raise_intrq
  raise_intrq-Wired f h = rewired h (h.keeps_set_intrq f.userdata h.holds)

  drop_intrq-Wired : (f : Fdc D) → Wired f → Wired (drop_intrq f)
  unfolding drop_intrq
  drop_intrq-Wired f h = rewired h (h.keeps_clr_intrq f.userdata h.holds)

  -- A wired controller, as a branch of a test.
  record Branch (f : Fdc D) : Type 0 where
    wired : Wired f

  same : {f : Fdc D} → Wired f → Branch f
  same h = record { wired = h }

  Branch-if : (b : Bool) {f g : Fdc D} → Branch f → Branch g → Branch (if b then f else g)
  Branch-if true hf hg = hf
  Branch-if false hf hg = hg

  Branch-Option :
      {A : Type 0} (o : Option A) {f : Fdc D} {g : A → Fdc D}
      → Branch f
      → ((a : A) → Branch (g a))
      → Branch (elim o [ none ↦ f | some a ↦ g a ])
  Branch-Option none hf hg = hf
  Branch-Option (some a) hf hg = hg a

  tick_int-Branch : (cycles : ℕ) (f : Fdc D) → Wired f → Branch (tick_int cycles f)
  unfolding tick_int
  tick_int-Branch cycles f h = Branch-if (not (is_positive f.delayed_int)) (same h) (
      Branch-if (is_positive (counted_down f.delayed_int cycles)) (same h)
        (same (raise_intrq-Wired f h)))

  tick_drq-Branch : (cycles : ℕ) (f : Fdc D) → Wired f → Branch (tick_drq cycles f)
  unfolding tick_drq
  tick_drq-Branch cycles f h = Branch-if (not (is_positive f.delayed_drq)) (same h) (
      Branch-if (is_positive (counted_down f.delayed_drq cycles)) (same h)
        (same (raise_drq-Wired f h)))

  seek_track-Branch : (wanted : ℕ) (f : Fdc D) → Wired f → Branch (seek_track wanted f)
  unfolding seek_track
  seek_track-Branch wanted f h =
      Branch-Option f.disk_data (same (raise_intrq-Wired f h)) (λ block. same h)

  end_transfer-Wired : (delay : ℕ) (f : Fdc D) → Wired f → Wired (end_transfer delay f)
  unfolding end_transfer
  end_transfer-Wired delay f h = drop_drq-Wired f h

  next_sector-Branch : (many : Bool) (f : Fdc D) → Wired f → Branch (next_sector many f)
  unfolding next_sector
  next_sector-Branch false f h = same (end_transfer-Wired 32 f h)
  next_sector-Branch true f h =
      let f1 = record f { sector = u8 (f.sector + 1); cur_offset = 0 } in
      Branch-Option (find_sector f1.sector f1) (same (end_transfer-Wired 20 f h)) (λ p. same h)

  byte_done-Branch : (many : Bool) (f : Fdc D) → Wired f → Branch (byte_done many f)
  unfolding byte_done
  byte_done-Branch many f h =
      let f1 = drop_drq (record f { status = clear8 f.status st_drq }) in
      let h1 : Wired f1 = drop_drq-Wired f h in
      Branch-if (leb f1.cur_sector_len f1.cur_offset) (next_sector-Branch many f1 h1) (same h1)

  lost_sector-Wired : (f : Fdc D) → Wired f → Wired (lost_sector f)
  unfolding lost_sector
  lost_sector-Wired f h =
      drop_drq-Wired (record f { status = bit_or (clear8 f.status st_drq) st_not_found }) h

  read_transfer-Branch :
      (many : Bool) (p : Option (ℕ × ℕ)) (f : Fdc D) → Wired f → Branch (read_transfer many p f)
  unfolding read_transfer
  read_transfer-Branch many none f h = same (lost_sector-Wired f h)
  read_transfer-Branch many (some (block, start)) f h = byte_done-Branch many _ h

  write_transfer-Branch :
      (v : ℕ) (many : Bool) (p : Option (ℕ × ℕ)) (f : Fdc D)
      → Wired f
      → Branch (write_transfer v many p f)
  unfolding write_transfer
  write_transfer-Branch v many none f h = same (lost_sector-Wired f h)
  write_transfer-Branch v many (some (block, start)) f h = byte_done-Branch many _ h

  read_address-Branch : (f : Fdc D) → Wired f → Branch (read_address f)
  unfolding read_address
  read_address-Branch f h =
      let next = record f {
        data_reg = addr_field f.c_track f.side f.sector f.cur_offset;
        cur_offset = u16 (f.cur_offset + 1);
      } in
      let f1 : Fdc D = elim f.cur_sector_data [ none ↦ f | some _ ↦ next ] in
      let h1 =
        Branch-Option f.cur_sector_data {f = f} {g = λ _. next} (same {f = f} h)
          (λ p. same {f = next} h) in
      let f2 = drop_drq (record f1 { status = clear8 f1.status st_drq }) in
      let h2 : Wired f2 = drop_drq-Wired f1 h1.wired in
      let ended = record f2 { delayed_int = 20; di_status = some 0; currentop = op_none } in
      let going = record f2 { delayed_drq = 32 } in
      Branch-if (leb 6 f2.cur_offset) (same {f = ended} h2) (same {f = going} h2)

  read_op-Branch : (op : FdcOp) (f : Fdc D) → Wired f → Branch (read_op op f)
  unfolding read_op
  read_op-Branch op_read_sector f h = read_transfer-Branch false f.cur_sector_data f h
  read_op-Branch op_read_sectors f h = read_transfer-Branch true f.cur_sector_data f h
  read_op-Branch op_read_address f h = read_address-Branch f h
  read_op-Branch op_none f h = same h
  read_op-Branch op_write_sector f h = same h
  read_op-Branch op_write_sectors f h = same h
  read_op-Branch op_read_track f h = same h
  read_op-Branch op_write_track f h = same h

  write_op-Branch : (v : ℕ) (op : FdcOp) (f : Fdc D) → Wired f → Branch (write_op v op f)
  unfolding write_op
  write_op-Branch v op_write_sector f h = write_transfer-Branch v false f.cur_sector_data f h
  write_op-Branch v op_write_sectors f h = write_transfer-Branch v true f.cur_sector_data f h
  write_op-Branch v op_none f h = same h
  write_op-Branch v op_read_sector f h = same h
  write_op-Branch v op_read_sectors f h = same h
  write_op-Branch v op_read_address f h = same h
  write_op-Branch v op_read_track f h = same h
  write_op-Branch v op_write_track f h = same h

  refuse_sector-Wired : (f : Fdc D) → Wired f → Wired (refuse_sector f)
  unfolding refuse_sector
  refuse_sector-Wired f h = raise_intrq-Wired (drop_drq f) (drop_drq-Wired f h)

  start_sector-Branch :
      (delay : ℕ) (op : FdcOp) (f : Fdc D) → Wired f → Branch (start_sector delay op f)
  unfolding start_sector
  start_sector-Branch delay op f h =
      Branch-Option (find_sector f.sector f) (same (refuse_sector-Wired f h)) (λ p. same h)

  start_address-Branch : (f : Fdc D) → Wired f → Branch (start_address f)
  unfolding start_address
  start_address-Branch f h =
      Branch-Option (find_sector 1 f) (same (refuse_sector-Wired f h))
        (λ p. same (raise_drq-Wired f h))

  force_interrupt-Wired : (f : Fdc D) → Wired f → Wired (force_interrupt f)
  unfolding force_interrupt
  force_interrupt-Wired f h = raise_intrq-Wired (drop_drq f) (drop_drq-Wired f h)

  start_write_track-Wired : (f : Fdc D) → Wired f → Wired (start_write_track f)
  unfolding start_write_track
  start_write_track-Wired f h = drop_intrq-Wired (drop_drq f) (drop_drq-Wired f h)

  -- A seek that starts from other registers, with no operation left in progress.
  sought-Branch :
      (wanted status direction : ℕ) (f : Fdc D)
      → Wired f
      → Branch (record (seek_track wanted (record f { status = status; direction = direction })) {
        currentop = op_none;
      })
  sought-Branch wanted status direction f h =
      same (seek_track-Branch wanted (record f { status = status; direction = direction }) h).wired

  sought-if :
      (b : Bool) (there here status direction : ℕ) (f : Fdc D)
      → Wired f
      → let g = record f { status = status; direction = direction } in
        Branch
          (record (if b then seek_track there g else seek_track here g) { currentop = op_none })
  sought-if true there here status direction f h = sought-Branch there status direction f h
  sought-if false there here status direction f h = sought-Branch here status direction f h

  step_out-Branch :
      (b : Bool) (there status : ℕ) (f : Fdc D)
      → Wired f
      → let g = record f { status = status; direction = 1 } in
        Branch (record (if b then seek_track there g else g) { currentop = op_none })
  step_out-Branch true there status f h = sought-Branch there status 1 f h
  step_out-Branch false there status f h = same h

  execute-Branch : (value : ℕ) (f : Fdc D) → Wired f → Branch (execute value f)
  unfolding execute start_seek
  execute-Branch value f h =
      let kind = bit_and value 0xe0 in
      let low = has value 0x10 in
      let start = if has value 0x08 then bit_or st_busy sti_headl else st_busy in
      let before = if ltb 0 f.c_track then f.c_track - 1 else 0 in
      Branch-if (kind == 0x00) (sought-if low f.data_reg 0 start f.direction f h) (
        Branch-if (kind == 0x20)
          (sought-if (f.direction == 0) (u8 (f.c_track + 1)) before start f.direction f h)
          (Branch-if (kind == 0x40) (sought-Branch (u8 (f.c_track + 1)) start 0 f h) (
            Branch-if (kind == 0x60) (step_out-Branch (ltb 0 f.c_track) (f.c_track - 1) start f h) (
              Branch-if (kind == 0x80)
                (start_sector-Branch 60 (if low then op_read_sectors else op_read_sector) f h)
                (Branch-if (kind == 0xa0)
                  (start_sector-Branch 500 (if low then op_write_sectors else op_write_sector) f h)
                  (Branch-if (kind == 0xc0)
                    (Branch-if low (same (force_interrupt-Wired f h)) (start_address-Branch f h))
                    (Branch-if low (same (start_write_track-Wired f h)) (same h))))))))

  pub ticktock-Wired : (cycles : ℕ) (f : Fdc D) → Wired f → Wired (ticktock cycles f)
  unfolding ticktock
  ticktock-Wired cycles f h =
      (tick_drq-Branch cycles (tick_int cycles f) (tick_int-Branch cycles f h).wired).wired

  -- a read, by the number of its register
  abbrev register : ℕ → Fdc D → Fdc D → ℕ × Fdc D
  register r f g =
      if r == 0
      then (f.status, drop_intrq f)
      else if r == 1
      then (f.track, f)
      else if r == 2
      then (f.sector, f)
      else (g.data_reg, g)

  register-Branch :
      (r : ℕ) (f g : Fdc D)
      → Branch (drop_intrq f)
      → Branch f
      → Branch g
      → Branch (register r f g).1
  register-Branch zero f g hd hf hg = hd
  register-Branch (suc zero) f g hd hf hg = hf
  register-Branch (suc (suc zero)) f g hd hf hg = hf
  register-Branch (suc (suc (suc r))) f g hd hf hg = ground arith

  pub read-Wired : (reg : ℕ) (f : Fdc D) → Wired f → Wired (read reg f).1
  unfolding read
  read-Wired reg f h =
      (register-Branch (bit_and reg 3) f (read_op f.currentop f) (same (drop_intrq-Wired f h))
        (same h) (read_op-Branch f.currentop f h)).wired

  pub write-Wired : (reg value : ℕ) (f : Fdc D) → Wired f → Wired (write reg value f)
  unfolding write
  write-Wired reg value f h =
      let r = bit_and reg 3 in
      (Branch-if (r == 0) (execute-Branch value (drop_intrq f) (drop_intrq-Wired f h)) (
        Branch-if (r == 1) (same h)
          (Branch-if (r == 2) (same h) (write_op-Branch value f.currentop _ h)))).wired
