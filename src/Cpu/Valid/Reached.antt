-- ===== src/Cpu/Valid/Reached.antt =====
-- The states that the core reaches from power-up: by reset, steps, and the interrupt lines that the
-- devices drive, in any order.
use oric2_golden_model.Base.{ℕ, ◌-◌, ◌<◌, Bool, false, arith, bit_and-le, bit_or_byte}
use oric2_golden_model.Cpu.State.{IrqSource, irq_mask, Cpu, irq_via, irq_disk, irq_serial}
use oric2_golden_model.Memory.{Memory}
use oric2_golden_model.Memory.Bytes.{HoldsBytes, read-HoldsBytes}
use oric2_golden_model.Cpu.Run.{init, reset, step, nmi, irq_set, irq_clear}
use oric2_golden_model.Cpu.Valid.{IsValid}
use oric2_golden_model.Cpu.Valid.Control.{word-lt}
use oric2_golden_model.Cpu.Valid.Step.{step-IsValid}

irq_mask-lt : (source : IrqSource) → irq_mask source < 256
irq_mask-lt irq_via = omega arith
irq_mask-lt irq_disk = omega arith
irq_mask-lt irq_serial = omega arith

-- What happens to a core: an instruction or interrupt entry, a reset, or a device that drives a line.
pub data Event : Type 0 where
  step_event reset_event nmi_event : Event
  irq_set_event : IrqSource → Event
  irq_clear_event : IrqSource → Event

module _ {D : Type 0} where
  unfoldable pub happen : Event → Cpu D → Cpu D
  happen step_event s = (step s).1
  happen reset_event s = reset s
  happen nmi_event s = nmi s
  happen (irq_set_event source) s = irq_set source s
  happen (irq_clear_event source) s = irq_clear source s

  -- The states after power-up with the bus `m`, a reset, and any events.
  pub data Reached (m : Memory D) : Cpu D → Type 0 where
    powered_up : Reached m (reset (init m))
    happened : (event : Event) (s : Cpu D) → Reached m s → Reached m (happen event s)

  reset-IsValid : (s : Cpu D) → HoldsBytes s.memory → IsValid (reset s)
  unfolding reset
  reset-IsValid s h =
      let (h1, lo) = read-HoldsBytes 0xfffc s.memory h in
      let (h2, hi) = read-HoldsBytes 0xfffd _ h1 in
      record {
        c = omega arith;
        x = omega arith;
        y = omega arith;
        stack_low = omega arith;
        stack_high = omega arith;
        d = omega arith;
        pc = word-lt _ _;
        dbr = omega arith;
        pbr = omega arith;
        p = omega arith;
        irq = omega arith;
        bus = h2;
      }

  init_bus : (m : Memory D) → HoldsBytes m → HoldsBytes (init m).memory
  unfolding init
  init_bus m h = h

  nmi-IsValid : (s : Cpu D) → IsValid s → IsValid (nmi s)
  unfolding nmi
  nmi-IsValid s v = ground arith

  irq-IsValid :
      (irq : ℕ) (waiting : Bool) (s : Cpu D)
      → IsValid s
      → irq < 256
      → IsValid (record s { irq = irq; waiting = waiting })
  irq-IsValid irq waiting s v h = ground arith

  irq_set-IsValid : (source : IrqSource) (s : Cpu D) → IsValid s → IsValid (irq_set source s)
  unfolding irq_set
  irq_set-IsValid source s v =
      irq-IsValid _ false s v (bit_or_byte s.irq (irq_mask source) v.irq (irq_mask-lt source))

  irq_clear-IsValid : (source : IrqSource) (s : Cpu D) → IsValid s → IsValid (irq_clear source s)
  unfolding irq_clear
  irq_clear-IsValid source s v =
      irq-IsValid _ s.waiting s v (omega (arith, bit_and-le s.irq (255 - irq_mask source), v.irq))

  happen-IsValid : (event : Event) (s : Cpu D) → IsValid s → IsValid (happen event s)
  unfolding happen
  happen-IsValid step_event s v = step-IsValid s v
  happen-IsValid reset_event s v = reset-IsValid s v.bus
  happen-IsValid nmi_event s v = nmi-IsValid s v
  happen-IsValid (irq_set_event source) s v = irq_set-IsValid source s v
  happen-IsValid (irq_clear_event source) s v = irq_clear-IsValid source s v

  -- After power-up on a bus that holds bytes and a reset, whatever instructions, resets, NMIs and changes of
  -- the interrupt lines follow and in whatever order, the core is in a valid state: its registers are
  -- within their widths, in emulation mode X and Y fit a byte and the stack lies in page 1, and the
  -- bus holds bytes.
  pub Reached-IsValid : (m : Memory D) (s : Cpu D) → HoldsBytes m → Reached m s → IsValid s
  Reached-IsValid m _ h powered_up = reset-IsValid (init m) (init_bus m h)
  Reached-IsValid m _ h (happened event s r) = happen-IsValid event s (Reached-IsValid m s h r)
