-- ===== src/Via/Ports.antt =====
-- `via_read` and `via_write`.
use oric2_golden_model.Base.{
  ℕ, ◌-◌, bit_and, bit_or, true, not, ◌&&◌, Option, none, some, ◌==◌, if◌then◌else◌, u8, shl, shr,
  has, clear8,
}
use oric2_golden_model.Via.{
  Via, int_ca2, int_ca1, int_sr, int_cb2, int_cb1, int_t2, int_t1, int_any, ier_mask, check_irq,
  lower,
}

pub data Register : Type 0 where
  orb ora ddrb ddra t1cl t1ch t1ll t1lh t2cl t2ch sr acr pcr ifr ier ora_nh : Register

-- The register of the low four bits of an address.
unfoldable pub register_at : ℕ → Register
register_at reg =
    if reg == 0x0
    then orb
    else if reg == 0x1
    then ora
    else if reg == 0x2
    then ddrb
    else if reg == 0x3
    then ddra
    else if reg == 0x4
    then t1cl
    else if reg == 0x5
    then t1ch
    else if reg == 0x6
    then t1ll
    else if reg == 0x7
    then t1lh
    else if reg == 0x8
    then t2cl
    else if reg == 0x9
    then t2ch
    else if reg == 0xa
    then sr
    else if reg == 0xb
    then acr
    else if reg == 0xc
    then pcr
    else if reg == 0xd
    then ifr
    else if reg == 0xe
    then ier
    else ora_nh

-- `(x & m) | (y & ~m)`
abbrev pub merge : ℕ → ℕ → ℕ → ℕ
merge m x y = bit_or (bit_and x m) (bit_and y (255 - m))

module _ {D : Type 0} where
  -- A port callback, or 0xFF without one. It returns a `uint8_t`.
  unfoldable pub input : Option (D → ℕ × D) → Via D → ℕ × Via D
  input none v = (0xff, v)
  input (some callback) v = let (x, d) = callback v.userdata in (u8 x, record v { userdata = d })

  unfoldable pub output : Option (ℕ → D → D) → ℕ → Via D → Via D
  output none value v = v
  output (some callback) value v = record v { userdata = callback value v.userdata }

  -- The flags that an access of a port clears: CB1 or CA1, and CB2 or CA2 but in the independent modes.
  unfoldable pub portb_flags : Via D → ℕ
  portb_flags v =
      let mode = bit_and v.peripheral_control 0xe0 in
      let cleared = clear8 v.flags int_cb1 in
      if not (mode == 0x20) && not (mode == 0x60) then clear8 cleared int_cb2 else cleared

  unfoldable pub porta_flags : Via D → ℕ
  porta_flags v =
      let mode = bit_and v.peripheral_control 0x0e in
      let cleared = clear8 v.flags int_ca1 in
      if not (mode == 0x02) && not (mode == 0x06) then clear8 cleared int_ca2 else cleared

  unfoldable pub read_register : Register → Via D → ℕ × Via D
  unfolding check_irq lower input portb_flags porta_flags
  read_register orb v =
      let (x, v1) = input v.portb_read v in
      let v2 = check_irq (record v1 { flags = portb_flags v1 }) in (merge v2.dir_b v2.out_b x, v2)
  read_register ora v =
      let (x, v1) = input v.porta_read v in
      let v2 = check_irq (record v1 { flags = porta_flags v1 }) in (merge v2.dir_a v2.out_a x, v2)
  read_register ddrb v = (v.dir_b, v)
  read_register ddra v = (v.dir_a, v)
  read_register t1cl v = let v1 = lower int_t1 v in (u8 (bit_and v1.t1_counter 0xff), v1)
  read_register t1ch v = (u8 (shr v.t1_counter 8), v)
  read_register t1ll v = (u8 (bit_and v.t1_latch 0xff), v)
  read_register t1lh v = (u8 (shr v.t1_latch 8), v)
  read_register t2cl v = let v1 = lower int_t2 v in (u8 (bit_and v1.t2_counter 0xff), v1)
  read_register t2ch v = (u8 (shr v.t2_counter 8), v)
  read_register sr v = let v1 = lower int_sr v in (v1.shift, v1)
  read_register acr v = (v.aux_control, v)
  read_register pcr v = (v.peripheral_control, v)
  read_register ifr v = (v.flags, v)
  read_register ier v = (bit_or v.enabled int_any, v)
  read_register ora_nh v = let (x, v1) = input v.porta_read v in (merge v1.dir_a v1.out_a x, v1)

  unfoldable pub read : ℕ → Via D → ℕ × Via D
  unfolding register_at read_register
  read reg v = read_register (register_at (bit_and reg 0x0f)) v

  -- The latch of timer 1 with a new high byte.
  abbrev pub latch_high : ℕ → Via D → ℕ
  latch_high value v = bit_or (bit_and v.t1_latch 0x00ff) (shl value 8)

  unfoldable pub write_register : Register → ℕ → Via D → Via D
  unfolding check_irq lower output portb_flags porta_flags
  write_register orb value v =
      let v1 = record v { out_b = value } in
      let v2 = check_irq (record v1 { flags = portb_flags v1 }) in output v2.portb_write value v2
  write_register ora value v =
      let v1 = record v { out_a = value } in
      let v2 = check_irq (record v1 { flags = porta_flags v1 }) in output v2.porta_write value v2
  write_register ddrb value v = record v { dir_b = value }
  write_register ddra value v = record v { dir_a = value }
  write_register t1cl value v = record v { t1_latch = bit_or (bit_and v.t1_latch 0xff00) value }
  write_register t1ll value v = record v { t1_latch = bit_or (bit_and v.t1_latch 0xff00) value }
  write_register t1ch value v = lower int_t1 (record v {
    t1_latch = latch_high value v;
    t1_counter = latch_high value v;
    t1_running = true;
  })
  write_register t1lh value v = lower int_t1 (record v { t1_latch = latch_high value v })
  write_register t2cl value v = record v { t2_latch = value }
  write_register t2ch value v =
      lower int_t2 (record v { t2_counter = bit_or (shl value 8) v.t2_latch; t2_running = true })
  write_register sr value v = lower int_sr (record v { shift = value })
  write_register acr value v = record v { aux_control = value }
  write_register pcr value v = record v { peripheral_control = value }
  write_register ifr value v = lower (bit_and value ier_mask) v
  write_register ier value v = check_irq (record v {
    enabled =
        if has value int_any
        then bit_or v.enabled (bit_and value ier_mask)
        else clear8 v.enabled (bit_and value ier_mask);
  })
  write_register ora_nh value v =
      let v1 = record v { out_a = value } in output v1.porta_write value v1

  unfoldable pub write : ℕ → ℕ → Via D → Via D
  unfolding register_at write_register
  write reg value v = write_register (register_at (bit_and reg 0x0f)) value v
