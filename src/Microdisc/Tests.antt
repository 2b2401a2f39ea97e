-- ===== src/Microdisc/Tests.antt =====
-- The theorem on the interrupt line of the Microdisc at a run.
use oric2_golden_model.Base.{◌≡◌, ◌&&◌, ◌==◌, has}
use oric2_golden_model.Microdisc.{ctrl_intena}
use oric2_golden_model.Microdisc.Line.{
  connected, write_event, happen, started, happened, Reached-level,
}

-- Interrupts are enabled, and a seek without a disk raises INTRQ at once.
Reached-level_example :
    let md =
      happen (write_event 0x0310 0x10) (happen (write_event 0x0314 0x01) (connected (λ _ _. 0))) in
    let w = md.fdc.userdata in w.cpu_userdata ≡ (has w.status ctrl_intena && w.intrq == 0x00)
Reached-level_example = Reached-level _ (
    happened (write_event 0x0310 0x10) _
      (happened (write_event 0x0314 0x01) _ (started (λ _ _. 0))))
