-- ===== src/Cpu6502/Simulation/Access.antt =====
-- The accesses, fetches and stack operations of the two cores agree.
use oric2_golden_model.Base.{
  ℕ, ◌+◌, ◌-◌, ◌%◌, ◌<◌, bit_and, bit_or, ◌≡◌, refl, sym, ap, ◌∙◌, arith, if◌then◌else◌, u8, u16,
  shl, shr, word, bit_or_fields, bit_and_low_byte, bit_and_low_word,
}
use oric2_golden_model.Memory
use oric2_golden_model.Memory.{Memory}
use oric2_golden_model.Cpu.State
use oric2_golden_model.Cpu.State.{Cpu, M}
use oric2_golden_model.Cpu.Access.{
  mem_read, mem_write, read24, fetch_byte, fetch_word_pc, push, pull, push_word, pull_word,
}
use oric2_golden_model.Cpu.Valid.{Any, Byte, Word}
use oric2_golden_model.Cpu.Valid.Access.{
  Yields-mem_read, Yields-mem_write, Yields-fetch_byte, Yields-push, Yields-pull,
}
use oric2_golden_model.Cpu6502
use oric2_golden_model.Cpu6502.{Cpu6502, N}
use oric2_golden_model.Cpu6502.Access.{
  cpu_mem_read, cpu_mem_write, cpu_fetch_byte, cpu_fetch_word_pc, cpu_push, cpu_pull, cpu_push_word,
  cpu_pull_word,
}
use oric2_golden_model.Cpu6502.Simulation.{
  view, IsEmulating, Simulates, Simulates-bind, still, Simulates-pure,
}

-- Bank 0 of the 24-bit bus is the 16-bit bus.
read24-bank_zero :
    {D : Type 0} (bank pc : ℕ) (m : Memory D)
    → bank ≡ 0
    → pc < 65536
    → Memory.read24 (bit_or (shl bank 16) pc) m ≡ Memory.read pc m
unfolding Memory.read24
read24-bank_zero bank pc m zero_bank lt =
    let same : bit_or (shl bank 16) pc ≡ pc = bit_or_fields 16 bank pc lt ∙ omega arith in
    rw same (ground (arith, bit_and_low_word pc))

-- The stack pointer of emulation mode is the 6502's in page 1.
stack-view : {D : Type 0} (s : Cpu D) → IsEmulating s → 0x0100 + bit_and s.s 0xff ≡ s.s
stack-view s e =
    ground (arith, e.valid.stack_low, e.valid.stack_high, e.emulates, bit_and_low_byte s.s)

low_page_one : (n : ℕ) → bit_and (bit_or 0x0100 (bit_and n 0xff)) 0xff ≡ n % 256
low_page_one n = omega (
  arith,
  bit_and_low_byte (bit_or 0x0100 (bit_and n 0xff)),
  bit_or_fields 8 1 (bit_and n 0xff) (omega (arith, bit_and_low_byte n)),
  bit_and_low_byte n,
)

-- the stack pointer behind a push and behind a pull
pushed-view :
    {D : Type 0} (s : Cpu D)
    → IsEmulating s
    → u8 (bit_and s.s 0xff + 256 - 1)
      ≡ bit_and
          (if s.e then bit_or 0x0100 (bit_and (s.s + 65536 - 1) 0xff) else u16 (s.s + 65536 - 1))
          0xff
pushed-view s e =
    ground
      (arith, e.emulates, low_page_one (s.s + 65536 - 1), bit_and_low_byte s.s, e.valid.stack_low)

pulled-view :
    {D : Type 0} (s : Cpu D)
    → IsEmulating s
    → u8 (bit_and s.s 0xff + 1)
      ≡ bit_and (if s.e then bit_or 0x0100 (bit_and (s.s + 1) 0xff) else u16 (s.s + 1)) 0xff
pulled-view s e = ground (arith, e.emulates, low_page_one (s.s + 1), bit_and_low_byte s.s)

-- The stack byte that a pull reads.
pulled_at :
    {D : Type 0} (s : Cpu D)
    → IsEmulating s
    → 0x0100 + u8 (bit_and s.s 0xff + 1)
      ≡ (if s.e then bit_or 0x0100 (bit_and (s.s + 1) 0xff) else u16 (s.s + 1))
pulled_at s e = ground (
  arith,
  e.emulates,
  bit_or_fields 8 1 (bit_and (s.s + 1) 0xff),
  bit_and_low_byte (s.s + 1),
  bit_and_low_byte s.s,
)

module _ {D : Type 0} {I : ℕ → Type 0} where
  pub Simulates-mem_read : (a : ℕ) → Simulates {D = D} I I Byte (mem_read a) (cpu_mem_read a)
  unfolding mem_read cpu_mem_read view
  Simulates-mem_read a = record {
    at = λ s e i.
        let (v, p) = (Yields-mem_read a).at s e.valid in
        (still e v refl refl refl refl, i, p, refl);
  }

  pub Simulates-mem_write :
      (a v : ℕ) → Simulates {D = D} I I Any (mem_write a v) (cpu_mem_write a v)
  unfolding mem_write cpu_mem_write view
  Simulates-mem_write a v = record {
    at =
        λ s e i. (still e ((Yields-mem_write a v).at s e.valid).0 refl refl refl refl, i, tt, refl);
  }

  pub Simulates-fetch_byte : Simulates {D = D} I I Byte fetch_byte cpu_fetch_byte
  unfolding fetch_byte cpu_fetch_byte read24 cpu_mem_read view State.◌>>=◌ Cpu6502.◌>>=◌
  Simulates-fetch_byte = record {
    at = λ s e i.
        let (v, p) = Yields-fetch_byte.at s e.valid in
        (
          still e v refl refl refl refl,
          i,
          p,
          ap (λ (r : ℕ × Memory D). (r.0, record (view s) { pc = u16 (s.pc + 1); memory = r.1 }))
              (sym (read24-bank_zero s.pbr s.pc s.memory e.bank_zero e.valid.pc)),
        );
  }

  pub Simulates-fetch_word_pc : Simulates {D = D} I I Word fetch_word_pc cpu_fetch_word_pc
  unfolding fetch_word_pc cpu_fetch_word_pc word
  Simulates-fetch_word_pc = Simulates-bind Simulates-fetch_byte λ lo hl.
      Simulates-bind Simulates-fetch_byte λ hi hh. Simulates-pure (word lo hi) (omega arith)

  pub Simulates-push : (v : ℕ) → Simulates {D = D} I I Any (push v) (cpu_push v)
  unfolding push cpu_push mem_write cpu_mem_write view State.◌>>=◌ State.gets State.modify
      Cpu6502.◌>>=◌ Cpu6502.gets Cpu6502.modify
  Simulates-push v = record {
    at = λ s e i.
        let valid = ((Yields-push v).at s e.valid).0 in
        (
          still e valid refl refl refl refl,
          i,
          tt,
          λ j. (
            tt,
            record (view s) {
              memory = Memory.write (stack-view s e j) (u8 v) s.memory;
              sp = pushed-view s e j;
            },
          ),
        );
  }

  pub Simulates-pull : Simulates {D = D} I I Byte pull cpu_pull
  unfolding pull cpu_pull mem_read cpu_mem_read view State.◌>>=◌ State.gets State.modify
      Cpu6502.◌>>=◌ Cpu6502.gets Cpu6502.modify
  Simulates-pull = record {
    at = λ s e i.
        let (valid, byte) = Yields-pull.at s e.valid in
        (
          still e valid refl refl refl refl,
          i,
          byte,
          λ j.
              let r = Memory.read (pulled_at s e j) s.memory in
              (r.0, record (view s) { memory = r.1; sp = pulled-view s e j }),
        );
  }

  pub Simulates-push_word : (v : ℕ) → Simulates {D = D} I I Any (push_word v) (cpu_push_word v)
  unfolding push_word cpu_push_word
  Simulates-push_word v =
      Simulates-bind (Simulates-push (u8 (shr v 8))) λ _ _. Simulates-push (u8 (bit_and v 0xff))

  pub Simulates-pull_word : Simulates {D = D} I I Word pull_word cpu_pull_word
  unfolding pull_word cpu_pull_word word
  Simulates-pull_word =
      Simulates-bind Simulates-pull
        λ lo hl. Simulates-bind Simulates-pull λ hi hh. Simulates-pure (word lo hi) (omega arith)
