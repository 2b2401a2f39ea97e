-- ===== src/Via.antt =====
-- src/io/via6522.c: the ports, timers and interrupts of the VIA 6522. `D` is the state behind the port
-- callbacks; `irq_log` holds the states passed to the interrupt callback, the last one first.
pub mod Ports
pub mod Timer
pub mod Edge
pub mod Line
pub mod Expiry
mod Tests
use oric2_golden_model.Base.{
  ℕ, zero, suc, ◌+◌, ◌-◌, ◌*◌, ◌/◌, ◌%◌, ◌^◌, ◌≤◌, ◌<◌, bit_and, bit_or, bit_xor, ◌≡◌, refl, sym,
  ap, ◌∙◌, ◌≢◌, ◌⊎◌, inl, inr, Bool, true, false, not, ◌&&◌, ◌||◌, Option, none, some, List, [],
  ◌∷◌, ◌++◌, arith, ltb, leb, ◌==◌, bool_eq, if◌then◌else◌, ==_iff, Bool-cases, Option-cases,
  all_below, all_below_sound, update, fill, IsBytes, update-IsBytes, fill-IsBytes, u8, u16, u32,
  u64, shl, shr, has, clear8, word, bit_and_step, bit_or_step, bit_and-zero, bit_or-zero,
  bit_or_fields, word_lem, byte_bit, bit_and_low_byte, bit_and_low_word, bit_and-le, bit_or_byte,
  bit_or_word, bit_xor_step, bit_xor-lt, bit_xor_word,
}

abbrev pub int_ca2 : ℕ
int_ca2 = 0x01

abbrev pub int_ca1 : ℕ
int_ca1 = 0x02

abbrev pub int_sr : ℕ
int_sr = 0x04

abbrev pub int_cb2 : ℕ
int_cb2 = 0x08

abbrev pub int_cb1 : ℕ
int_cb1 = 0x10

abbrev pub int_t2 : ℕ
int_t2 = 0x20

abbrev pub int_t1 : ℕ
int_t1 = 0x40

abbrev pub int_any : ℕ
int_any = 0x80

abbrev pub ier_mask : ℕ
ier_mask = 0x7f

-- `via6522_t`
pub record Via (D : Type 0) : Type 0 where
  pub out_a : ℕ
  pub out_b : ℕ
  pub in_a : ℕ
  pub in_b : ℕ
  pub dir_a : ℕ
  pub dir_b : ℕ
  pub t1_counter : ℕ
  pub t1_latch : ℕ
  pub t2_counter : ℕ
  pub t2_latch : ℕ
  pub t1_running : Bool
  pub t2_running : Bool
  pub shift : ℕ
  pub shift_count : ℕ
  pub aux_control : ℕ
  pub peripheral_control : ℕ
  pub flags : ℕ
  pub enabled : ℕ
  pub porta_read : Option (D → ℕ × D)
  pub porta_write : Option (ℕ → D → D)
  pub portb_read : Option (D → ℕ × D)
  pub portb_write : Option (ℕ → D → D)
  pub userdata : D
  pub cb1_pin : Bool
  pub irq_line : Bool
  pub irq_callback : Bool
  pub irq_log : List Bool

module _ {D : Type 0} where
  unfoldable pub check_irq : Via D → Via D
  check_irq v =
      let irq = not (bit_and (bit_and v.flags v.enabled) ier_mask == 0) in
      let v1 = record v {
        flags = if irq then bit_or v.flags int_any else clear8 v.flags int_any;
      } in
      if bool_eq irq v1.irq_line then v1 else record v1 {
        irq_line = irq;
        irq_log = if v1.irq_callback then irq ∷ v1.irq_log else v1.irq_log;
      }

  -- `via->ifr &= ~mask; via_check_irq(via);` and `via->ifr |= mask; via_check_irq(via);`
  unfoldable pub lower : ℕ → Via D → Via D
  unfolding check_irq
  lower mask v = check_irq (record v { flags = clear8 v.flags mask })

  unfoldable pub raise : ℕ → Via D → Via D
  unfolding check_irq
  raise mask v = check_irq (record v { flags = bit_or v.flags mask })

  unfoldable pub init : D → Via D
  init null = record {
    out_a = 0;
    out_b = 0;
    in_a = 0;
    in_b = 0;
    dir_a = 0;
    dir_b = 0;
    t1_counter = 0;
    t1_latch = 0;
    t2_counter = 0;
    t2_latch = 0;
    t1_running = false;
    t2_running = false;
    shift = 0;
    shift_count = 0;
    aux_control = 0;
    peripheral_control = 0;
    flags = 0;
    enabled = 0;
    porta_read = none;
    porta_write = none;
    portb_read = none;
    portb_write = none;
    userdata = null;
    cb1_pin = true;
    irq_line = false;
    irq_callback = false;
    irq_log = [];
  }

  unfoldable pub reset : Via D → Via D
  reset v = record v {
    out_a = 0;
    out_b = 0;
    in_a = 0xff;
    in_b = 0xff;
    dir_a = 0;
    dir_b = 0;
    t1_counter = 0xffff;
    t1_latch = 0xffff;
    t2_counter = 0xffff;
    t2_latch = 0xff;
    t1_running = false;
    t2_running = false;
    shift = 0;
    shift_count = 0;
    aux_control = 0;
    peripheral_control = 0;
    flags = 0;
    enabled = 0;
    cb1_pin = true;
    irq_line = false;
  }
