-- ===== src/Cpu.antt =====
-- src/cpu: the 65C816 core that the emulator runs (cpu65c816.c, cpu65c816_opcodes.c) and the opcode
-- table of opcode_metadata.c.
pub mod State
pub mod Access
pub mod Address
pub mod Alu
pub mod Table
pub mod Exec
pub mod Run
pub mod Loop
pub mod Flags
pub mod Arithmetic
pub mod Decimal
pub mod Stack
pub mod Frames
pub mod Wide
mod Tests
pub mod Valid
