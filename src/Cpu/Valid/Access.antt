-- ===== src/Cpu/Valid/Access.antt =====
-- The accesses and addressing modes keep the core valid.
use oric2_golden_model.Base.{
  ℕ, zero, suc, ◌+◌, ◌-◌, ◌*◌, ◌/◌, ◌%◌, ◌^◌, ◌≤◌, ◌<◌, bit_and, bit_or, bit_xor, ◌≡◌, refl, sym,
  ap, ◌∙◌, ◌≢◌, ◌⊎◌, inl, inr, Bool, true, false, not, ◌&&◌, ◌||◌, Option, none, some, List, [],
  ◌∷◌, ◌++◌, arith, ltb, leb, ◌==◌, bool_eq, if◌then◌else◌, ==_iff, Bool-cases, Option-cases,
  all_below, all_below_sound, update, fill, IsBytes, update-IsBytes, fill-IsBytes, u8, u16, u32,
  u64, shl, shr, has, clear8, word, bit_and_step, bit_or_step, bit_and-zero, bit_or-zero,
  bit_or_fields, word_lem, byte_bit, bit_and_low_byte, bit_and_low_word, bit_and-le, bit_or_byte,
  bit_or_word,
}
use oric2_golden_model.Memory.{Memory}
use oric2_golden_model.Memory.Bytes.{
  HoldsBytes, read-HoldsBytes, write-HoldsBytes, read24-HoldsBytes, write24-HoldsBytes,
}
use oric2_golden_model.Cpu.State.{Cpu, M, pure}
use oric2_golden_model.Cpu.Access.{
  mem_read, mem_write, read24, write24, fetch_byte, fetch_word_pc, push, pull, push_word, pull_word,
  read_sized, write_sized, fetch_imm, push_sized, pull_sized, read_m24, write_m24,
}
use oric2_golden_model.Cpu.Valid.{
  IsValid, Any, Byte, Word, Yields, Keeps, Yields-pure, Yields-look, Yields-if, yields_rules,
  then-Any, then-Byte,
}

pub ruleset bit_bounds = (arith, bit_and-le, bit_or_byte, bit_or_word)

-- The address of a stack byte in page 1.
pub page_one : (b : ℕ) → bit_or 0x0100 (bit_and b 0xff) ≡ 256 + bit_and b 0xff
page_one b = bit_or_fields 8 1 (bit_and b 0xff) (omega (arith, bit_and-le b 0xff))

module _ {D : Type 0} where
  bus-IsValid :
      (m : Memory D) (s : Cpu D) → IsValid s → HoldsBytes m → IsValid (record s { memory = m })
  bus-IsValid m s v h = record {
    c = v.c;
    x = v.x;
    y = v.y;
    stack_low = v.stack_low;
    stack_high = v.stack_high;
    d = v.d;
    pc = v.pc;
    dbr = v.dbr;
    pbr = v.pbr;
    p = v.p;
    irq = v.irq;
    bus = h;
  }

  pub Yields-mem_read : (a : ℕ) → Yields {D = D} Byte (mem_read a)
  unfolding mem_read
  Yields-mem_read a = record {
    at = λ s v. let (h, lt) = read-HoldsBytes a s.memory v.bus in (bus-IsValid _ s v h, lt);
  }

  pub Yields-mem_write : (a b : ℕ) → Yields {D = D} Any (mem_write a b)
  unfolding mem_write
  Yields-mem_write a b = record {
    at = λ s v. (bus-IsValid _ s v (write-HoldsBytes a (u8 b) s.memory (omega arith) v.bus), tt);
  }

  pub Yields-read24 : (a : ℕ) → Yields {D = D} Byte (read24 a)
  unfolding read24
  Yields-read24 a = record {
    at = λ s v. let (h, lt) = read24-HoldsBytes a s.memory v.bus in (bus-IsValid _ s v h, lt);
  }

  pub Yields-write24 : (a b : ℕ) → Yields {D = D} Any (write24 a b)
  unfolding write24
  Yields-write24 a b = record {
    at = λ s v. (bus-IsValid _ s v (write24-HoldsBytes a (u8 b) s.memory (omega arith) v.bus), tt);
  }

  Keeps-next_pc : Keeps (λ (s : Cpu D). record s { pc = u16 (s.pc + 1) })
  Keeps-next_pc = record { at = λ s v. ground arith }

  pub Yields-fetch_byte : Yields {D = D} Byte fetch_byte
  unfolding fetch_byte
  Yields-fetch_byte = search (yields_rules, Yields-read24, Keeps-next_pc)

  pub Yields-word : (lo hi : ℕ) → Yields {D = D} Word (pure (word lo hi))
  unfolding word
  Yields-word lo hi = Yields-pure Word (word lo hi) (omega arith)

  pub Yields-fetch_word_pc : Yields {D = D} Word fetch_word_pc
  unfolding fetch_word_pc
  Yields-fetch_word_pc = search (yields_rules, Yields-fetch_byte, Yields-word)

  Keeps-push_s : Keeps (λ (s : Cpu D). record s {
    s = if s.e then bit_or 0x0100 (bit_and (s.s + 65536 - 1) 0xff) else u16 (s.s + 65536 - 1);
  })
  Keeps-push_s = record {
    at = λ s v. ground (arith, page_one (s.s + 65536 - 1), bit_and-le (s.s + 65536 - 1) 0xff);
  }

  Keeps-pull_s : Keeps (λ (s : Cpu D). record s {
    s = if s.e then bit_or 0x0100 (bit_and (s.s + 1) 0xff) else u16 (s.s + 1);
  })
  Keeps-pull_s = record {
    at = λ s v. ground (arith, page_one (s.s + 1), bit_and-le (s.s + 1) 0xff);
  }

  pub Yields-push : (v : ℕ) → Yields {D = D} Any (push v)
  unfolding push
  Yields-push v = search (yields_rules, Yields-mem_write, Keeps-push_s)

  pub Yields-pull : Yields {D = D} Byte pull
  unfolding pull
  Yields-pull = search (yields_rules, Yields-mem_read, Keeps-pull_s)

  pub Yields-push_word : (v : ℕ) → Yields {D = D} Any (push_word v)
  unfolding push_word
  Yields-push_word v = search (yields_rules, Yields-push)

  pub Yields-pull_word : Yields {D = D} Word pull_word
  unfolding pull_word
  Yields-pull_word = search (yields_rules, Yields-pull, Yields-word)

  pub Yields-byte-Word : (v : ℕ) → v < 256 → Yields {D = D} Word (pure v)
  Yields-byte-Word v lt = Yields-pure Word v (omega arith)

  pub Yields-weaken : {m : M D ℕ} → Yields Byte m → Yields Word m
  Yields-weaken h = record { at = λ s v. let (v', lt) = h.at s v in (v', omega arith) }

  module _ (is_8bit : Cpu D → Bool) where
    pub Yields-read_sized : (a : ℕ) → Yields Word (read_sized is_8bit a)
    unfolding read_sized
    Yields-read_sized a = search (
      then-Any, then-Byte, Yields-look, Yields-if, Yields-mem_read, Yields-word, Yields-byte-Word,
    )

    pub Yields-write_sized : (a v : ℕ) → Yields Any (write_sized is_8bit a v)
    unfolding write_sized
    Yields-write_sized a v = search (yields_rules, Yields-mem_write)

    pub Yields-fetch_imm : Yields Word (fetch_imm is_8bit)
    unfolding fetch_imm
    Yields-fetch_imm =
        search
          (then-Any, Yields-look, Yields-if, Yields-weaken, Yields-fetch_byte, Yields-fetch_word_pc)

    pub Yields-push_sized : (v : ℕ) → Yields Any (push_sized is_8bit v)
    unfolding push_sized
    Yields-push_sized v = search (yields_rules, Yields-push)

    pub Yields-pull_sized : Yields Word (pull_sized is_8bit)
    unfolding pull_sized
    Yields-pull_sized =
        search
          (then-Any, then-Byte, Yields-look, Yields-if, Yields-pull, Yields-word, Yields-byte-Word)

  pub Yields-read_m24 : (a : ℕ) → Yields {D = D} Word (read_m24 a)
  unfolding read_m24
  Yields-read_m24 a =
      search
        (then-Any, then-Byte, Yields-look, Yields-if, Yields-read24, Yields-word, Yields-byte-Word)

  pub Yields-write_m24 : (a v : ℕ) → Yields {D = D} Any (write_m24 a v)
  unfolding write_m24
  Yields-write_m24 a v = search (yields_rules, Yields-write24)
