-- ===== src/Via/Line/Kept.antt =====
-- Lemmas on the interrupt line of the VIA, for each register access, each timer and an edge on CB1.
use oric2_golden_model.Base.{
  ℕ, ◌-◌, ◌<◌, bit_and, bit_or, ◌≡◌, refl, inl, inr, Bool, true, false, not, ◌&&◌, Option, none,
  some, arith, ◌==◌, bool_eq, if◌then◌else◌, Bool-cases, all_below, all_below_sound, has, clear8,
  bit_and-le, bit_or_byte,
}
use oric2_golden_model.Base.{bit_or-lt}
use mathlib.Core.Bool.{false≢true}
use oric2_golden_model.Via.{
  Via, int_sr, int_cb1, int_t2, int_t1, int_any, ier_mask, check_irq, lower, raise,
}
use oric2_golden_model.Via.Ports.{
  Register, orb, ora, ddrb, ddra, t1cl, t1ch, t1ll, t1lh, t2cl, t2ch, sr, acr, pcr, ifr, ier,
  ora_nh, input, output, portb_flags, porta_flags, read_register, write_register,
}
use oric2_golden_model.Via.Timer.{ran_out, counted, update_t1, update_t2}
use oric2_golden_model.Via.Edge.{set_cb1}

-- some enabled flag is up
abbrev pub pending : ℕ → ℕ → Bool
pending flags enabled = not (bit_and (bit_and flags enabled) ier_mask == 0)

-- IFR and IER are bytes, bit 7 of IFR and the line are up when an enabled flag is.
pub record IsSettled (flags enabled : ℕ) (line : Bool) : Type 0 where
  pub flags_byte : flags < 256
  pub enabled_bits : enabled < 128
  pub line_pending : line ≡ pending flags enabled
  pub any_line : has flags int_any ≡ line

abbrev pub Settled : {D : Type 0} → Via D → Type 0
Settled v = IsSettled v.flags v.enabled v.irq_line

-- Bit 7 is read back as it was set, and is not one of the flags that can be enabled.
abbrev any_bit : ℕ → ℕ → Bool
any_bit q p =
    has (bit_or p int_any) int_any
    && (not (has (clear8 p int_any) int_any)
        && (bool_eq (pending (bit_or p int_any) q) (pending p q)
            && bool_eq (pending (clear8 p int_any) q) (pending p q)))

any_bit_table : all_below 128 (λ q. all_below 256 (any_bit q)) ≡ true
unfolding all_below
any_bit_table = refl

any_bit_lem : (flags enabled : ℕ) → flags < 256 → enabled < 128 → any_bit enabled flags ≡ true
any_bit_lem flags enabled hf he =
    let row = all_below_sound 128 (λ q. all_below 256 (any_bit q)) enabled any_bit_table he in
    all_below_sound 256 (any_bit enabled) flags row hf

settle :
    (flags enabled : ℕ) (irq : Bool)
    → flags < 256
    → enabled < 128
    → pending flags enabled ≡ irq
    → IsSettled (if irq then bit_or flags int_any else clear8 flags int_any) enabled irq
settle flags enabled true hf he h =
    let bits = any_bit_lem flags enabled hf he in
    record {
      flags_byte = bit_or_byte flags int_any hf (omega arith);
      enabled_bits = he;
      line_pending = ground (arith, bits, h);
      any_line = ground (arith, bits);
    }
settle flags enabled false hf he h =
    let bits = any_bit_lem flags enabled hf he in
    record {
      flags_byte = omega (arith, bit_and-le flags 127);
      enabled_bits = he;
      line_pending = ground (arith, bits, h);
      any_line = ground (arith, bits);
    }

-- A line that is as it should be need not change.
agree :
    (flags enabled : ℕ) (a b : Bool)
    → IsSettled flags enabled a
    → bool_eq a b ≡ true
    → IsSettled flags enabled b
agree flags enabled true true h e = h
agree flags enabled true false h e = absurd (false≢true e)
agree flags enabled false true h e = absurd (false≢true e)
agree flags enabled false false h e = h

enabled-lt :
    (up : Bool) (enabled mask : ℕ)
    → enabled < 128
    → mask < 128
    → (if up then bit_or enabled mask else clear8 enabled mask) < 128
enabled-lt true enabled mask he hm = bit_or-lt 7 enabled mask he hm
enabled-lt false enabled mask he hm = omega (arith, bit_and-le enabled (255 - mask))

module _ {D : Type 0} where
  check_irq-Settled : (v : Via D) → v.flags < 256 → v.enabled < 128 → Settled (check_irq v)
  unfolding check_irq
  check_irq-Settled v hf he =
      let irq = pending v.flags v.enabled in
      let h = settle v.flags v.enabled irq hf he refl in
      elim (Bool-cases (bool_eq irq v.irq_line)) [
        | inl same ↦ rw same (agree _ _ irq v.irq_line h same)
        | inr other ↦ rw other h
      ]

  lower-Settled : (mask : ℕ) (v : Via D) → v.flags < 256 → v.enabled < 128 → Settled (lower mask v)
  unfolding lower
  lower-Settled mask v hf he =
      check_irq-Settled _ (omega (arith, bit_and-le v.flags (255 - mask))) he

  pub raise-Settled :
      (mask : ℕ) (v : Via D) → mask < 256 → v.flags < 256 → v.enabled < 128 → Settled (raise mask v)
  unfolding raise
  raise-Settled mask v hm hf he = check_irq-Settled _ (bit_or_byte v.flags mask hf hm) he

  input-Settled : (port : Option (D → ℕ × D)) (v : Via D) → Settled v → Settled (input port v).1
  unfolding input
  input-Settled none v h = h
  input-Settled (some callback) v h = h

  output-Settled :
      (port : Option (ℕ → D → D)) (value : ℕ) (v : Via D)
      → Settled v
      → Settled (output port value v)
  unfolding output
  output-Settled none value v h = h
  output-Settled (some callback) value v h = h

  portb_flags-lt : (v : Via D) → v.flags < 256 → portb_flags v < 256
  unfolding portb_flags
  portb_flags-lt v h =
      ground (arith, bit_and-le v.flags 0xef, bit_and-le (bit_and v.flags 0xef) 0xf7)

  porta_flags-lt : (v : Via D) → v.flags < 256 → porta_flags v < 256
  unfolding porta_flags
  porta_flags-lt v h =
      ground (arith, bit_and-le v.flags 0xfd, bit_and-le (bit_and v.flags 0xfd) 0xfe)

  pub read_register-Settled :
      (reg : Register) (v : Via D) → Settled v → Settled (read_register reg v).1
  unfolding read_register
  read_register-Settled orb v h =
      let h1 = input-Settled v.portb_read v h in
      check_irq-Settled _ (portb_flags-lt (input v.portb_read v).1 h1.flags_byte) h1.enabled_bits
  read_register-Settled ora v h =
      let h1 = input-Settled v.porta_read v h in
      check_irq-Settled _ (porta_flags-lt (input v.porta_read v).1 h1.flags_byte) h1.enabled_bits
  read_register-Settled ddrb v h = h
  read_register-Settled ddra v h = h
  read_register-Settled t1cl v h = lower-Settled int_t1 v h.flags_byte h.enabled_bits
  read_register-Settled t1ch v h = h
  read_register-Settled t1ll v h = h
  read_register-Settled t1lh v h = h
  read_register-Settled t2cl v h = lower-Settled int_t2 v h.flags_byte h.enabled_bits
  read_register-Settled t2ch v h = h
  read_register-Settled sr v h = lower-Settled int_sr v h.flags_byte h.enabled_bits
  read_register-Settled acr v h = h
  read_register-Settled pcr v h = h
  read_register-Settled ifr v h = h
  read_register-Settled ier v h = h
  read_register-Settled ora_nh v h = input-Settled v.porta_read v h

  pub write_register-Settled :
      (reg : Register) (value : ℕ) (v : Via D) → Settled v → Settled (write_register reg value v)
  unfolding write_register
  write_register-Settled orb value v h = output-Settled _ value _ (
      check_irq-Settled _ (portb_flags-lt (record v { out_b = value }) h.flags_byte) h.enabled_bits)
  write_register-Settled ora value v h = output-Settled _ value _ (
      check_irq-Settled _ (porta_flags-lt (record v { out_a = value }) h.flags_byte) h.enabled_bits)
  write_register-Settled ddrb value v h = h
  write_register-Settled ddra value v h = h
  write_register-Settled t1cl value v h = h
  write_register-Settled t1ll value v h = h
  write_register-Settled t1ch value v h = lower-Settled int_t1 _ h.flags_byte h.enabled_bits
  write_register-Settled t1lh value v h = lower-Settled int_t1 _ h.flags_byte h.enabled_bits
  write_register-Settled t2cl value v h = h
  write_register-Settled t2ch value v h = lower-Settled int_t2 _ h.flags_byte h.enabled_bits
  write_register-Settled sr value v h = lower-Settled int_sr _ h.flags_byte h.enabled_bits
  write_register-Settled acr value v h = h
  write_register-Settled pcr value v h = h
  write_register-Settled ifr value v h = lower-Settled _ v h.flags_byte h.enabled_bits
  write_register-Settled ier value v h = check_irq-Settled _ h.flags_byte (
      enabled-lt (has value int_any) v.enabled (bit_and value ier_mask) h.enabled_bits
        (omega (arith, bit_and-le value ier_mask)))
  write_register-Settled ora_nh value v h = output-Settled v.porta_write value _ h

  -- A settled VIA, as a branch of a test.
  pub record Branch (v : Via D) : Type 0 where
    pub settled : Settled v

  Branch-if : (b : Bool) {v w : Via D} → Branch v → Branch w → Branch (if b then v else w)
  Branch-if true hv hw = hv
  Branch-if false hv hw = hw

  pub update_t1-Branch : (cycles : ℕ) (v : Via D) → Settled v → Branch (update_t1 cycles v)
  unfolding update_t1
  update_t1-Branch cycles v h =
      let counting = record v { t1_counter = counted v.t1_counter cycles } in
      let fired = raise-Settled int_t1 counting (omega arith) h.flags_byte h.enabled_bits in
      Branch-if (not v.t1_running) (record { settled = h })
        (Branch-if (not (ran_out v.t1_counter cycles)) (record { settled = h })
          (Branch-if (has (raise int_t1 counting).aux_control 0x40) (record { settled = fired })
            (record { settled = fired })))

  pub update_t2-Branch : (cycles : ℕ) (v : Via D) → Settled v → Branch (update_t2 cycles v)
  unfolding update_t2
  update_t2-Branch cycles v h =
      let counting = record v { t2_counter = counted v.t2_counter cycles } in
      Branch-if (not (v.t2_running && not (has v.aux_control 0x20))) (record { settled = h })
        (Branch-if (not (ran_out v.t2_counter cycles)) (record { settled = h })
          (record {
            settled = raise-Settled int_t2 counting (omega arith) h.flags_byte h.enabled_bits;
          }))

  pub set_cb1-Branch : (state : Bool) (v : Via D) → Settled v → Branch (set_cb1 state v)
  unfolding set_cb1
  set_cb1-Branch state v h =
      let fired =
        raise-Settled int_cb1 (record v { cb1_pin = state }) (omega arith) h.flags_byte
          h.enabled_bits in
      let rising_edge = has v.peripheral_control 0x10 in
      Branch-if (bool_eq v.cb1_pin state) (record { settled = h })
        (Branch-if (rising_edge && (not v.cb1_pin && state)) (record { settled = fired })
          (Branch-if (not rising_edge && (v.cb1_pin && not state)) (record { settled = fired })
            (record { settled = h })))
