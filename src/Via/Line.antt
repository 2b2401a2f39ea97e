-- ===== src/Via/Line.antt =====
-- The interrupt line of src/io/via6522.c over any sequence of calls, as the emulator wires it.
mod Kept
pub use Kept.{Settled}
use oric2_golden_model.Base.{ℕ, refl, Bool, true, false, Option, arith}
use oric2_golden_model.Via.{Via, int_ca2, int_ca1, int_cb2, init, reset}
use oric2_golden_model.Via.Ports.{read, write}
use oric2_golden_model.Via.Timer.{update_t1, update_timers}
use oric2_golden_model.Via.Edge.{
  trigger_ca1, trigger_ca2, trigger_cb1, trigger_cb2, set_cb1, set_port_callbacks, set_irq_callback,
}
use Kept.{
  IsSettled, read_register-Settled, write_register-Settled, raise-Settled, update_t1-Branch,
  update_t2-Branch, set_cb1-Branch,
}

quiet-IsSettled : IsSettled 0 0 false
quiet-IsSettled = record {
  flags_byte = omega arith;
  enabled_bits = omega arith;
  line_pending = refl;
  any_line = refl;
}

-- What happens to a VIA whose port callbacks act on a `D`: calls of its functions, and the
-- assignments with which `emulator_init` wires its port callbacks.
pub data ViaEvent (D : Type 0) : Type 0 where
  read_event : ℕ → ViaEvent D
  write_event : ℕ → ℕ → ViaEvent D
  update_event : ℕ → ViaEvent D
  ca1_event ca2_event cb1_pulse_event cb2_event reset_event : ViaEvent D
  cb1_event : Bool → ViaEvent D
  port_callbacks_event :
      Option (D → ℕ × D)
      → Option (ℕ → D → D)
      → Option (D → ℕ × D)
      → Option (ℕ → D → D)
      → D
      → ViaEvent D
  irq_callback_event : Bool → ViaEvent D
  porta_read_event portb_read_event : Option (D → ℕ × D) → ViaEvent D
  device_event : (D → D) → ViaEvent D

module _ {D : Type 0} where
  unfoldable pub happen : ViaEvent D → Via D → Via D
  happen (read_event reg) v = (read reg v).1
  happen (write_event reg value) v = write reg value v
  happen (update_event cycles) v = update_timers cycles v
  happen ca1_event v = trigger_ca1 v
  happen ca2_event v = trigger_ca2 v
  happen cb1_pulse_event v = trigger_cb1 v
  happen cb2_event v = trigger_cb2 v
  happen reset_event v = reset v
  happen (cb1_event state) v = set_cb1 state v
  happen (port_callbacks_event a_read a_write b_read b_write d) v =
      set_port_callbacks a_read a_write b_read b_write d v
  happen (irq_callback_event callback) v = set_irq_callback callback v
  happen (porta_read_event callback) v = record v { porta_read = callback }
  happen (portb_read_event callback) v = record v { portb_read = callback }
  happen (device_event change) v = record v { userdata = change v.userdata }

  -- The states after `via_init` and any events: no callback is set at first, and the events set and
  -- change the callbacks, at any time.
  pub data Reached : Via D → Type 0 where
    initialised : (null : D) → Reached (init null)
    happened : (event : ViaEvent D) (v : Via D) → Reached v → Reached (happen event v)

  reset-Settled : (v : Via D) → Settled (reset v)
  unfolding reset
  reset-Settled v = quiet-IsSettled

  init-Settled : (null : D) → Settled (init null)
  unfolding init
  init-Settled null = quiet-IsSettled

  happen-Settled : (event : ViaEvent D) (v : Via D) → Settled v → Settled (happen event v)
  unfolding happen read write update_timers trigger_ca1 trigger_ca2 trigger_cb1 trigger_cb2
      set_port_callbacks set_irq_callback
  happen-Settled (read_event reg) v h = read_register-Settled _ v h
  happen-Settled (write_event reg value) v h = write_register-Settled _ value v h
  happen-Settled (update_event cycles) v h =
      (update_t2-Branch cycles (update_t1 cycles v) (update_t1-Branch cycles v h).settled).settled
  happen-Settled ca1_event v h = raise-Settled int_ca1 v (omega arith) h.flags_byte h.enabled_bits
  happen-Settled ca2_event v h = raise-Settled int_ca2 v (omega arith) h.flags_byte h.enabled_bits
  happen-Settled cb2_event v h = raise-Settled int_cb2 v (omega arith) h.flags_byte h.enabled_bits
  happen-Settled reset_event v h = reset-Settled v
  happen-Settled cb1_pulse_event v h =
      (set_cb1-Branch true (set_cb1 false v) (set_cb1-Branch false v h).settled).settled
  happen-Settled (cb1_event state) v h = (set_cb1-Branch state v h).settled
  happen-Settled (port_callbacks_event a_read a_write b_read b_write d) v h = h
  happen-Settled (irq_callback_event callback) v h = h
  happen-Settled (porta_read_event callback) v h = h
  happen-Settled (portb_read_event callback) v h = h
  happen-Settled (device_event change) v h = h

  -- After `via_init` and any register accesses, timer updates, edges on the control lines, resets and changes
  -- of the port and interrupt callbacks and of the state of the devices behind the ports, in any
  -- order, the interrupt line is up exactly when a flag of IFR is up that IER enables, bit 7 of IFR
  -- shows the line, IFR is a byte, and IER holds only the seven enable bits.
  pub Reached-Settled : (v : Via D) → Reached v → Settled v
  Reached-Settled _ (initialised null) = init-Settled null
  Reached-Settled _ (happened event v r) = happen-Settled event v (Reached-Settled v r)
