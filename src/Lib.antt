-- ===== src/Lib.antt =====
-- Verification library of the emulator's core.
--
-- The emulator runs an Oric-1/Atmos and its successor Oric 2 around a 65C816. The core fetches,
-- reads and writes through one bus; the bus decodes each address into RAM, ROM, the RAM behind the
-- ROM or the Microdisc overlay, hands the page $0300-$03FF to the callbacks of the devices, and
-- serves the banks 1 to 255 of the 24-bit space from blocks that the first write allocates. The
-- devices drive the interrupt lines of the core. What is modelled is translated function by function:
--
--   Base      casts, shifts and masks of C on natural numbers, with their bitwise laws (Base/Bits)
--   Memory    src/memory/memory.c, src/memory/banking.c: `memory_t` is the record `Memory`; the
--             function `memory_read` is `read`, `memory_write24` is `write24`, and so on
--   Cpu       src/cpu/cpu65c816_opcodes.c and src/cpu/cpu65c816.c: `cpu65c816_t` is the record `Cpu`,
--             and a C function that changes it is an action of the monad `M` of Cpu/State. Cpu/Access
--             has registers, fetches and the stack, Cpu/Address the addressing modes, Cpu/Alu the
--             arithmetic, Cpu/Table `opcode_table` (src/cpu/opcode_metadata.c), Cpu/Exec the switch of
--             `cpu816_execute_opcode_e` as lists of cases in the order of the source, Cpu/Run init,
--             reset, interrupts, `cpu816_step` and `cpu816_execute_cycles`
--   Cpu6502   src/cpu/cpu6502.c, opcodes.c, addressing.c: `cpu6502_t` is the record `Cpu6502`. The switch
--             is a list of cases again. Simulation relates it to the 65C816 in emulation mode: `view`
--             forgets what a 6502 does not have, `Simulates` relates an action of either core.
--             Bytes, Spending and Loop are about `cpu_execute_cycles`, whose fuel is its turns
--   Via       src/io/via6522.c: `via6522_t` is the record `Via`, with one function per C function;
--             Via/Ports has reads and writes of registers, Via/Timer `via_update`, Via/Edge the control
--             lines. The calls of the interrupt callback are the list `irq_log`
--   Ay        src/audio/ay3891x.c: `ay3891x_t` is the record `Ay`; Ay/Generate has `ay_generate`, whose
--             `while` loops are `drain` with the counter as fuel, enough since a threshold is positive;
--             Ay/Counter and Ay/Noise have the theorems, Ay/Tests the runs
--   Fdc       src/storage/disk.c: `fdc_t` is the record `Fdc`, with one function per C function;
--             Fdc/Registers has `fdc_read` and `fdc_write`, one function per command. A pointer into a
--             disk image is a heap block with an offset. Fdc/Bounds, Sector, Seek and Wires are proofs
--   Microdisc src/io/microdisc.c: `microdisc_t` is the record `Microdisc`, of which the callbacks of
--             the disk controller see the record `Wires`; Microdisc/Line is about the interrupt line
--
-- The proofs stand below what they are about: Memory/Bus, Banks, Pages and Bytes; Cpu/Valid with its
-- children for the invariant of the core, Cpu/Loop for the cycle loop, Cpu/Flags, Arithmetic,
-- Decimal and Wide for the arithmetic, Cpu/Stack and Frames for the stack. Via/Line has the
-- invariant of the VIA, from the lemmas of Via/Line/Kept, Via/Expiry its timer. The files named Tests apply the theorems at
-- concrete states.
--
-- Numbers of w bits are natural numbers with the wrap-around written out; an `int16_t` is its bit
-- pattern. An array is a function from its index, a callback is an `Option`, `none` for NULL, and
-- acts on the device state `D` that `io_userdata` points to. A file is what `fread` delivers of it,
-- and `calloc` grants as many banks as `free_blocks` counts.
--
-- Loops over pages, bytes and samples are recursion on the number of rounds, and the `while` loops
-- of `ay_generate` have their counter as fuel. `cpu816_execute_cycles` takes fuel: `execute_cycles`
-- gives `none` while the loop is still running, and the theorem on it says how much is enough.
--
-- Not modelled: a device that drives an interrupt line of the core from inside a bus access of the
-- same instruction (in the model it does so between steps), `cpu816_get_state_string` and other
-- printing, the overflow of the `int` totals of the two cycle loops, which are unbounded natural
-- numbers here and so differ from C near INT_MAX, and the devices and host services other than those above.
pub mod Base
pub mod Memory
pub mod Cpu
pub mod Cpu6502
pub mod Ay
pub mod Fdc
pub mod Microdisc
pub mod Via
