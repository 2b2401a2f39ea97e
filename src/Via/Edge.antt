-- ===== src/Via/Edge.antt =====
-- The control lines: `via_trigger_ca1`, `via_trigger_ca2`, `via_set_cb1`, `via_trigger_cb1` and
-- `via_trigger_cb2`, and the callbacks.
use oric2_golden_model.Base.{ℕ, Bool, true, false, not, ◌&&◌, Option, bool_eq, if◌then◌else◌, has}
use oric2_golden_model.Via.{Via, int_ca2, int_ca1, int_cb2, int_cb1, raise}

module _ {D : Type 0} where
  unfoldable pub trigger_ca1 : Via D → Via D
  unfolding raise
  trigger_ca1 v = raise int_ca1 v

  unfoldable pub trigger_ca2 : Via D → Via D
  unfolding raise
  trigger_ca2 v = raise int_ca2 v

  unfoldable pub trigger_cb2 : Via D → Via D
  unfolding raise
  trigger_cb2 v = raise int_cb2 v

  unfoldable pub set_cb1 : Bool → Via D → Via D
  unfolding raise
  set_cb1 state v =
      let old = v.cb1_pin in
      let v1 = record v { cb1_pin = state } in
      let rising_edge = has v1.peripheral_control 0x10 in
      if bool_eq old state
      then v1
      else if rising_edge && (not old && state)
      then raise int_cb1 v1
      else if not rising_edge && (old && not state)
      then raise int_cb1 v1
      else v1

  unfoldable pub trigger_cb1 : Via D → Via D
  unfolding set_cb1
  trigger_cb1 v = set_cb1 true (set_cb1 false v)

  unfoldable pub set_port_callbacks :
      Option (D → ℕ × D)
      → Option (ℕ → D → D)
      → Option (D → ℕ × D)
      → Option (ℕ → D → D)
      → D
      → Via D
      → Via D
  set_port_callbacks a_read a_write b_read b_write d v = record v {
    porta_read = a_read;
    porta_write = a_write;
    portb_read = b_read;
    portb_write = b_write;
    userdata = d;
  }

  unfoldable pub set_irq_callback : Bool → Via D → Via D
  set_irq_callback callback v = record v { irq_callback = callback }
