-- ===== src/Cpu6502/Simulation/Changes.antt =====
-- The shifts and the counting of bytes in memory, and the shifts of A, agree.
use oric2_golden_model.Base.{
  ℕ, ◌<◌, bit_and, bit_or, refl, Bool, arith, if◌then◌else◌, u8, shl, shr, has,
}
use oric2_golden_model.Cpu.State
use oric2_golden_model.Cpu.State.{Cpu, M, flag_carry, flag_break, flag_unused}
use oric2_golden_model.Cpu.Access.{flag, setf, m_is_8bit, a8, set_a8, update_nz}
use oric2_golden_model.Cpu.Alu.{carry_in, asl8, lsr8, rol8, ror8, inc8, dec8}
use oric2_golden_model.Cpu.Exec.Registers.{asl_a, lsr_a, rol_a, ror_a}
use oric2_golden_model.Cpu.Valid.{Any, Byte, Keeps}
use oric2_golden_model.Cpu.Valid.Alu.{setf-IsValid}
use oric2_golden_model.Cpu.Valid.Registers.{Keeps-asl_a, Keeps-lsr_a, Keeps-rol_a, Keeps-ror_a}
use oric2_golden_model.Cpu6502
use oric2_golden_model.Cpu6502.{Cpu6502, N}
use oric2_golden_model.Cpu6502.Access.{cpu_get_flag, cpu_set_flag}
use oric2_golden_model.Cpu6502.Alu
use oric2_golden_model.Cpu6502.Alu.{carry, lda, ldx, ldy, asl, lsr, rol, ror, inc, dec}
use oric2_golden_model.Cpu6502.Exec.Registers.{on_a}
use oric2_golden_model.Cpu6502.Simulation.{Always, view, IsEmulating, Simulates, still}
use oric2_golden_model.Cpu6502.Simulation.Alu.{framed, low_byte_shown, Agrees, Simulates-act}

module _ {D : Type 0} where
  -- What a read-modify-write opcode does with the byte.
  pub record SimulatesChange (change : ℕ → M D ℕ) (change6502 : ℕ → N D ℕ) : Type 0 where
    pub for : (n : ℕ) → n < 256 → Simulates Always Always Byte (change n) (change6502 n)

  carried : (b : Bool) (s : Cpu D) → IsEmulating s → IsEmulating (setf flag_carry b s)
  unfolding setf
  carried b s e = still e (setf-IsValid flag_carry b s (omega arith) e.valid) refl refl refl refl

  pub SimulatesChange-asl : SimulatesChange asl8 asl
  unfolding asl8 asl setf cpu_set_flag view
  SimulatesChange-asl = record {
    for = λ n lt. record { at = λ s e i. (carried _ s e, tt, omega arith, refl) };
  }

  pub SimulatesChange-lsr : SimulatesChange lsr8 lsr
  unfolding lsr8 lsr setf cpu_set_flag view
  SimulatesChange-lsr = record {
    for = λ n lt. record { at = λ s e i. (carried _ s e, tt, omega arith, refl) };
  }

  pub SimulatesChange-rol : SimulatesChange rol8 rol
  unfolding rol8 rol carry_in carry flag cpu_get_flag setf cpu_set_flag view
  SimulatesChange-rol = record {
    for = λ n lt. record { at = λ s e i. (carried _ s e, tt, omega arith, refl) };
  }

  pub SimulatesChange-ror : SimulatesChange ror8 ror
  unfolding ror8 ror flag cpu_get_flag setf cpu_set_flag view
  SimulatesChange-ror = record {
    for = λ n lt. record { at = λ s e i. (carried _ s e, tt, omega arith, refl) };
  }

  pub SimulatesChange-inc : SimulatesChange inc8 inc
  unfolding inc8 inc
  SimulatesChange-inc = record { for = λ n lt. record { at = λ s e i. (e, tt, omega arith, refl) } }

  pub SimulatesChange-dec : SimulatesChange dec8 dec
  unfolding dec8 dec
  SimulatesChange-dec = record { for = λ n lt. record { at = λ s e i. (e, tt, omega arith, refl) } }

  -- What an opcode does with the registers.
  pub record SimulatesRegs (f : Cpu D → Cpu D) (g : Cpu6502 D → Cpu6502 D) : Type 0 where
    pub act : Simulates Always Always Any (State.modify f) (Cpu6502.modify g)

  pub regs :
      {f : Cpu D → Cpu D} {g : Cpu6502 D → Cpu6502 D}
      → Keeps f
      → ((s : Cpu D) → IsEmulating s → Agrees f g s)
      → SimulatesRegs f g
  regs {f} {g} keeps agrees = record { act = Simulates-act f g keeps.at (λ s e _. agrees s e) }

  -- The shifts of A.
  pub SimulatesRegs-asl_a : SimulatesRegs asl_a (on_a asl)
  unfolding asl_a on_a asl lda setf cpu_set_flag a8 set_a8 update_nz Alu.update_nz m_is_8bit view
  SimulatesRegs-asl_a = regs Keeps-asl_a λ s e.
      let a = bit_and s.c 0xff in
      let r = u8 (shl a 1) in
      let low = low_byte_shown r s (omega arith) e in
      framed refl (λ j.
        Alu.update_nz (low j)
          (record (cpu_set_flag flag_carry (has a 0x80) (view s)) { a = low j }))

  pub SimulatesRegs-lsr_a : SimulatesRegs lsr_a (on_a lsr)
  unfolding lsr_a on_a lsr lda setf cpu_set_flag a8 set_a8 update_nz Alu.update_nz m_is_8bit view
  SimulatesRegs-lsr_a = regs Keeps-lsr_a λ s e.
      let a = bit_and s.c 0xff in
      let r = u8 (shr a 1) in
      let low = low_byte_shown r s (omega arith) e in
      framed refl (λ j.
        Alu.update_nz (low j)
          (record (cpu_set_flag flag_carry (has a 0x01) (view s)) { a = low j }))

  pub SimulatesRegs-rol_a : SimulatesRegs rol_a (on_a rol)
  unfolding rol_a on_a rol carry flag cpu_get_flag lda setf cpu_set_flag a8 set_a8 update_nz
      Alu.update_nz m_is_8bit view
  SimulatesRegs-rol_a = regs Keeps-rol_a λ s e.
      let a = bit_and s.c 0xff in
      let r = u8 (bit_or (shl a 1) (if has s.p flag_carry then 1 else 0)) in
      let low = low_byte_shown r s (omega arith) e in
      framed refl (λ j.
        Alu.update_nz (low j)
          (record (cpu_set_flag flag_carry (has a 0x80) (view s)) { a = low j }))

  pub SimulatesRegs-ror_a : SimulatesRegs ror_a (on_a ror)
  unfolding ror_a on_a ror flag cpu_get_flag lda setf cpu_set_flag a8 set_a8 update_nz Alu.update_nz
      m_is_8bit view
  SimulatesRegs-ror_a = regs Keeps-ror_a λ s e.
      let a = bit_and s.c 0xff in
      let r = u8 (bit_or (shr a 1) (if has s.p flag_carry then 0x80 else 0)) in
      let low = low_byte_shown r s (omega arith) e in
      framed refl (λ j.
        Alu.update_nz (low j)
          (record (cpu_set_flag flag_carry (has a 0x01) (view s)) { a = low j }))
