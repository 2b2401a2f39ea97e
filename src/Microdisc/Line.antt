-- ===== src/Microdisc/Line.antt =====
-- The interrupt line that the Microdisc drives.
use oric2_golden_model.Base.{
  ℕ, bit_and, ◌≡◌, refl, inl, inr, Bool, true, false, ◌&&◌, Option, some, arith, leb, ◌==◌,
  if◌then◌else◌, Bool-cases, shr, has,
}
use oric2_golden_model.Fdc.{Fdc, ticktock}
use oric2_golden_model.Fdc
use oric2_golden_model.Fdc.Wires.{Wired, rewired, ticktock-Wired, read-Wired, write-Wired}
use oric2_golden_model.Microdisc.{
  ctrl_intena, max_drives, Wires, Microdisc, fdc_set_drq, fdc_clr_drq, fdc_set_intrq, fdc_clr_intrq,
  is_fdc, select_drive, init, read_port, route_irq, write_control, write_port, set_disk,
}

-- The disk source of the processor's interrupt register: the callbacks set and clear it, and it is set exactly
-- when interrupts are enabled and INTRQ, which is active low, is up.
pub record IsRouted (w : Wires Bool) : Type 0 where
  pub sets : w.cpu_irq_set ≡ some (λ _. true)
  pub clears : w.cpu_irq_clr ≡ some (λ _. false)
  pub level : w.cpu_userdata ≡ (has w.status ctrl_intena && w.intrq == 0x00)

set_drq-Routed : (w : Wires Bool) → IsRouted w → IsRouted (fdc_set_drq w)
unfolding fdc_set_drq
set_drq-Routed w h = record { sets = h.sets; clears = h.clears; level = h.level }

clr_drq-Routed : (w : Wires Bool) → IsRouted w → IsRouted (fdc_clr_drq w)
unfolding fdc_clr_drq
clr_drq-Routed w h = record { sets = h.sets; clears = h.clears; level = h.level }

set_intrq-Routed : (w : Wires Bool) → IsRouted w → IsRouted (fdc_set_intrq w)
unfolding fdc_set_intrq
set_intrq-Routed w h = record {
  sets = h.sets;
  clears = h.clears;
  level = ground (arith, h.sets, h.level);
}

clr_intrq-Routed : (w : Wires Bool) → IsRouted w → IsRouted (fdc_clr_intrq w)
unfolding fdc_clr_intrq
clr_intrq-Routed w h = record { sets = h.sets; clears = h.clears; level = ground (arith, h.clears) }

route_irq-Routed : (value : ℕ) (w : Wires Bool) → IsRouted w → IsRouted (route_irq value w)
unfolding route_irq
route_irq-Routed value w h = record {
  sets = h.sets;
  clears = h.clears;
  level = ground (arith, h.sets, h.clears);
}

-- The interface as the emulator sets it up.
pub connected : (ℕ → ℕ → ℕ) → Microdisc Bool
unfolding init
connected blocks =
    let md = init false blocks in
    record md {
      fdc = record md.fdc {
        userdata = record md.fdc.userdata {
          cpu_irq_set = some (λ _. true);
          cpu_irq_clr = some (λ _. false);
        };
      };
    }

-- What happens to the interface while the emulator runs.
pub data DiscEvent : Type 0 where
  read_event : ℕ → DiscEvent
  write_event : ℕ → ℕ → DiscEvent
  tick_event : ℕ → DiscEvent
  disk_event : (drive : ℕ) → Option ℕ → (size tracks sectors : ℕ) → DiscEvent

unfoldable pub happen : DiscEvent → Microdisc Bool → Microdisc Bool
happen (read_event addr) md = (read_port addr md).1
happen (write_event addr value) md = write_port addr value md
happen (tick_event cycles) md = record md { fdc = ticktock cycles md.fdc }
happen (disk_event drive block size tracks sectors) md = set_disk drive block size tracks sectors md

pub data Reached : Microdisc Bool → Type 0 where
  started : (blocks : ℕ → ℕ → ℕ) → Reached (connected blocks)
  happened : (event : DiscEvent) (md : Microdisc Bool) → Reached md → Reached (happen event md)

-- A connected interface, as a branch of a test.
record Branch (md : Microdisc Bool) : Type 0 where
  wired : Wired IsRouted md.fdc

Branch-if : (b : Bool) {f g : Microdisc Bool} → Branch f → Branch g → Branch (if b then f else g)
Branch-if true hf hg = hf
Branch-if false hf hg = hg

connected-Branch : (blocks : ℕ → ℕ → ℕ) → Branch (connected blocks)
unfolding connected init Fdc.init
connected-Branch blocks = record {
  wired = record {
    holds = record { sets = refl; clears = refl; level = refl };
    keeps_set_drq = set_drq-Routed;
    keeps_clr_drq = clr_drq-Routed;
    keeps_set_intrq = set_intrq-Routed;
    keeps_clr_intrq = clr_intrq-Routed;
  };
}

write_control-Branch :
    (value : ℕ) (md : Microdisc Bool) → Wired IsRouted md.fdc → Branch (write_control value md)
unfolding write_control select_drive Fdc.set_disk
write_control-Branch value md h =
    let h1 = rewired IsRouted h (route_irq-Routed value md.fdc.userdata h.holds) in
    let new_drive = bit_and (shr value 5) 0x03 in
    Branch-if (new_drive == md.drive) (record { wired = h1 })
      (Branch-if (leb max_drives new_drive) (record { wired = h1 }) (record { wired = h1 }))

read_port-Branch :
    (addr : ℕ) (md : Microdisc Bool) → Wired IsRouted md.fdc → Branch (read_port addr md).1
unfolding read_port
read_port-Branch addr md h = elim (Bool-cases (is_fdc addr)) [
  | inl e ↦ rw e (record { wired = read-Wired IsRouted (bit_and addr 3) md.fdc h })
  | inr e ↦ rw e (record { wired = h })
]

write_port-Branch :
    (addr value : ℕ) (md : Microdisc Bool)
    → Wired IsRouted md.fdc
    → Branch (write_port addr value md)
unfolding write_port
write_port-Branch addr value md h =
    Branch-if (is_fdc addr)
      (record { wired = write-Wired IsRouted (bit_and addr 3) value md.fdc h })
      (Branch-if (addr == 0x0314) (write_control-Branch value md h) (record { wired = h }))

set_disk-Branch :
    (drive : ℕ) (block : Option ℕ) (size tracks sectors : ℕ) (md : Microdisc Bool)
    → Wired IsRouted md.fdc
    → Branch (set_disk drive block size tracks sectors md)
unfolding set_disk Fdc.set_disk
set_disk-Branch drive block size tracks sectors md h =
    Branch-if (leb max_drives drive) (record { wired = h })
      (Branch-if (drive == md.drive) (record { wired = h }) (record { wired = h }))

happen-Branch :
    (event : DiscEvent) (md : Microdisc Bool) → Wired IsRouted md.fdc → Branch (happen event md)
unfolding happen
happen-Branch (read_event addr) md h = read_port-Branch addr md h
happen-Branch (write_event addr value) md h = write_port-Branch addr value md h
happen-Branch (tick_event cycles) md h = record { wired = ticktock-Wired IsRouted cycles md.fdc h }
happen-Branch (disk_event drive block size tracks sectors) md h =
    set_disk-Branch drive block size tracks sectors md h

Reached-Branch : (md : Microdisc Bool) → Reached md → Branch md
Reached-Branch _ (started blocks) = connected-Branch blocks
Reached-Branch _ (happened event md r) = happen-Branch event md (Reached-Branch md r).wired

-- Whatever port accesses, ticks of the disk controller and disk changes follow the set-up of the Microdisc, in
-- any order, the disk source of the processor's interrupt register is set exactly when the last
-- control byte enables interrupts and INTRQ is up.
pub Reached-level :
    (md : Microdisc Bool)
    → Reached md
    → let w = md.fdc.userdata in w.cpu_userdata ≡ (has w.status ctrl_intena && w.intrq == 0x00)
Reached-level md r = (Reached-Branch md r).wired.holds.level
