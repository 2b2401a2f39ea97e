-- ===== src/Via/Expiry.antt =====
-- When timer 1 of the VIA runs out, and what `via_update` then does.
use oric2_golden_model.Base.{
  ℕ, ◌+◌, ◌-◌, ◌<◌, bit_or, ◌≡◌, refl, ◌∙◌, Bool, true, not, ◌&&◌, ◌||◌, arith, ltb, leb, bool_eq,
  if◌then◌else◌, all_below, all_below_sound, u16, has, clear8, bit_and-le, bit_or_byte,
}
use oric2_golden_model.Via.{Via, int_t2, int_t1, int_any, check_irq, raise}
use oric2_golden_model.Via.Timer.{counted, update_t1, update_t2, update_timers, ran_out_lem}

-- The flag of timer 1 in a flag byte, behind the other changes of that byte.
abbrev t1_bit : ℕ → Bool
t1_bit p =
    bool_eq (has (bit_or p int_any) int_t1) (has p int_t1)
    && (bool_eq (has (clear8 p int_any) int_t1) (has p int_t1)
        && (bool_eq (has (bit_or p int_t2) int_t1) (has p int_t1) && has (bit_or p int_t1) int_t1))

t1_bit_table : all_below 256 t1_bit ≡ true
unfolding all_below
t1_bit_table = refl

t1_bit_lem :
    (p : ℕ)
    → p < 256
    → (has (bit_or p int_any) int_t1 ≡ has p int_t1)
      × (has (clear8 p int_any) int_t1 ≡ has p int_t1)
      × (has (bit_or p int_t2) int_t1 ≡ has p int_t1)
      × (has (bit_or p int_t1) int_t1 ≡ true)
t1_bit_lem p h = let row = all_below_sound 256 t1_bit p t1_bit_table h in ground (arith, row)

module _ {D : Type 0} where
  -- `via_check_irq` changes neither timer nor the flag of timer 1.
  check_irq-timer :
      (v : Via D)
      → v.flags < 256
      → ((check_irq v).t1_counter ≡ v.t1_counter)
        × ((check_irq v).t1_latch ≡ v.t1_latch)
        × ((check_irq v).t1_running ≡ v.t1_running)
        × ((check_irq v).aux_control ≡ v.aux_control)
        × (has (check_irq v).flags int_t1 ≡ has v.flags int_t1)
  unfolding check_irq
  check_irq-timer v h = ground (arith, t1_bit_lem v.flags h)

  check_irq-flags : (v : Via D) → v.flags < 256 → (check_irq v).flags < 256
  unfolding check_irq
  check_irq-flags v h = ground (arith, bit_or_byte v.flags int_any, bit_and-le v.flags 127)

  -- Timer 1 as `update_t1` leaves it.
  t1_after :
      (cycles : ℕ) (v : Via D)
      → v.flags < 256
      → v.t1_counter < 65536
      → 0 < cycles
      → cycles < 65536
      → let w = update_t1 cycles v in
        let free_running = has v.aux_control 0x40 in
        (w.t1_running ≡ (v.t1_running && (ltb cycles v.t1_counter || free_running)))
        × (w.t1_counter ≡ (
            if not v.t1_running
            then v.t1_counter
            else if ltb cycles v.t1_counter
            then v.t1_counter - cycles
            else if free_running
            then v.t1_latch
            else u16 (v.t1_counter + 65536 - cycles)))
        × (has w.flags int_t1 ≡ (has v.flags int_t1 || (v.t1_running && leb v.t1_counter cycles)))
        × (w.flags < 256)
  unfolding update_t1 raise counted
  t1_after cycles v hf hc pos lt =
      let raised = record v {
        t1_counter = counted v.t1_counter cycles;
        flags = bit_or v.flags int_t1;
      } in
      let byte = bit_or_byte v.flags int_t1 hf (omega arith) in
      ground (
        arith,
        ran_out_lem v.t1_counter cycles hc pos lt,
        check_irq-timer raised byte,
        check_irq-flags raised byte,
        t1_bit_lem v.flags hf,
      )

  -- Timer 2 leaves timer 1 alone.
  t2_apart :
      (cycles : ℕ) (v : Via D)
      → v.flags < 256
      → let w = update_t2 cycles v in
        (w.t1_running ≡ v.t1_running)
        × (w.t1_counter ≡ v.t1_counter)
        × (has w.flags int_t1 ≡ has v.flags int_t1)
  unfolding update_t2 raise
  t2_apart cycles v hf =
      let raised = record v {
        t2_counter = counted v.t2_counter cycles;
        flags = bit_or v.flags int_t2;
      } in
      let byte = bit_or_byte v.flags int_t2 hf (omega arith) in
      ground (arith, check_irq-timer raised byte, t1_bit_lem v.flags hf)

  -- `via_update` with fewer than 65536 cycles, but at least one, on a VIA whose IFR is a byte and whose
  -- timer 1 has a 16-bit counter. With the timer running, its flag goes up exactly when the counter is
  -- not above the cycles, and is else left as it was; the counter goes down by the cycles, or is
  -- reloaded from the latch in free-running mode, or wraps around when the one-shot runs out, which
  -- stops it. With the timer stopped, its flag and its counter are left as they were and it stays stopped.
  pub update_timers-t1 :
      (cycles : ℕ) (v : Via D)
      → v.flags < 256
      → v.t1_counter < 65536
      → 0 < cycles
      → cycles < 65536
      → let w = update_timers cycles v in
        let free_running = has v.aux_control 0x40 in
        (has w.flags int_t1 ≡ (has v.flags int_t1 || (v.t1_running && leb v.t1_counter cycles)))
        × (w.t1_running ≡ (v.t1_running && (ltb cycles v.t1_counter || free_running)))
        × (w.t1_counter ≡ (
            if not v.t1_running
            then v.t1_counter
            else if ltb cycles v.t1_counter
            then v.t1_counter - cycles
            else if free_running
            then v.t1_latch
            else u16 (v.t1_counter + 65536 - cycles)))
  unfolding update_timers
  update_timers-t1 cycles v hf hc pos lt =
      let (running, counter, flag_up, byte) = t1_after cycles v hf hc pos lt in
      let (same_running, same_counter, same_flag) = t2_apart cycles (update_t1 cycles v) byte in
      (same_flag ∙ flag_up, same_running ∙ running, same_counter ∙ counter)
