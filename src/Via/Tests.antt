-- ===== src/Via/Tests.antt =====
-- The theorems on the VIA at concrete states.
use oric2_golden_model.Base.{ℕ, ◌+◌, ◌<◌, ◌≡◌, true, false, none, some, arith, has}
use oric2_golden_model.Via.{Via, int_t1, init}
use oric2_golden_model.Via.Timer.{update_timers}
use oric2_golden_model.Via.Line.{
  ViaEvent, read_event, write_event, ca1_event, port_callbacks_event, irq_callback_event, happen,
  Reached, initialised, happened, Settled, Reached-Settled,
}
use oric2_golden_model.Via.Expiry.{update_timers-t1}

abbrev fresh : Via ℕ
fresh = init 0

-- The VIA as the emulator wires it: the callbacks that read the ports and the one for interrupts.
abbrev count_read : ℕ → ℕ × ℕ
count_read d = (d, d + 1)

abbrev wire_ports : ViaEvent ℕ
wire_ports = port_callbacks_event (some count_read) none (some count_read) none 5

abbrev wired : Via ℕ
wired = happen (irq_callback_event true) (happen wire_ports fresh)

wired-Reached : Reached wired
wired-Reached = happened (irq_callback_event true) _ (happened wire_ports _ (initialised 0))

-- CA1 enabled, an edge on it, and a read of port B.
abbrev enable_ca1 : ViaEvent ℕ
enable_ca1 = write_event 0xe 0x82

Reached-Settled_example :
    Settled (happen (read_event 0) (happen ca1_event (happen enable_ca1 wired)))
Reached-Settled_example =
    Reached-Settled _
      (happened (read_event 0) _ (happened ca1_event _ (happened enable_ca1 _ wired-Reached)))

-- Timer 1 running at 100.
abbrev ticking : Via ℕ
ticking = record (init 0) { t1_counter = 100; t1_latch = 200; t1_running = true }

ticking-flags : ticking.flags < 256
unfolding init
ticking-flags = omega arith

update_timers-t1_example :
    let w = update_timers 150 ticking in
    (has w.flags int_t1 ≡ true) × (w.t1_running ≡ false) × (w.t1_counter ≡ 65486)
unfolding init
update_timers-t1_example =
    update_timers-t1 150 ticking ticking-flags (omega arith) (omega arith) (omega arith)
