-- ===== src/Cpu/Stack.antt =====
-- The stack of the core, and the subroutines that use it.
use oric2_golden_model.Base.{
  ℕ, ◌+◌, ◌-◌, ◌%◌, ◌≤◌, ◌<◌, bit_and, bit_or, ◌≡◌, refl, ap, ◌∙◌, ◌≢◌, true, false, arith,
  if◌then◌else◌, u8, u16, shr, word, word_lem, bit_and_low_byte,
}
use oric2_golden_model.Memory
use oric2_golden_model.Memory.{Memory, is_io, mapped_byte}
use oric2_golden_model.Memory.Bus.{
  is_writable, read-mapped, mapped_byte-write, mapped_byte-read, is_writable-write,
}
use oric2_golden_model.Cpu.State.{Cpu, ◌>>=◌}
use oric2_golden_model.Cpu.Access.{
  push, pull, push_word, pull_word, mem_read, mem_write, fetch_byte, fetch_word_pc, read24,
}
use oric2_golden_model.Cpu.Address.{addr_abs}
use oric2_golden_model.Cpu.Exec.Control.{jsr, rts}
use oric2_golden_model.Cpu.Valid.{IsValid}
use oric2_golden_model.Cpu.Valid.Access.{page_one, Yields-push}
use oric2_golden_model.Cpu.Valid.Address.{Yields-addr_abs}

joined_lem : (v : ℕ) → v < 65536 → word (u8 (u8 (bit_and v 0xff))) (u8 (u8 (shr v 8))) ≡ v
joined_lem v h = omega (
  arith,
  bit_and_low_byte v,
  word_lem (u8 (u8 (bit_and v 0xff))) (u8 (u8 (shr v 8))) (omega arith) (omega arith),
)

module _ {D : Type 0} where
  -- The stack pointer after a push and after a pull.
  abbrev pub below : Cpu D → ℕ
  below s = if s.e then bit_or 0x0100 (bit_and (s.s + 65536 - 1) 0xff) else u16 (s.s + 65536 - 1)

  abbrev pub above : Cpu D → ℕ
  above s = if s.e then bit_or 0x0100 (bit_and (s.s + 1) 0xff) else u16 (s.s + 1)

  -- A push and a pull, in full.
  push_lem :
      (v : ℕ) (s : Cpu D)
      → (push v s).1 ≡ record s { s = below s; memory = Memory.write s.s (u8 v) s.memory }
  unfolding push ◌>>=◌ mem_write
  push_lem v s = refl

  pull_lem :
      (s : Cpu D)
      → pull s ≡ (
        (Memory.read (above s) s.memory).0,
        record s { s = above s; memory = (Memory.read (above s) s.memory).1 },
      )
  unfolding pull ◌>>=◌ mem_read
  pull_lem s = refl

  -- The pointers of a valid state, as numbers.
  below_lem :
      (s : Cpu D)
      → IsValid s
      → below s ≡ (if s.e then 256 + (s.s + 255) % 256 else (s.s + 65535) % 65536)
  below_lem s h = ground (arith, page_one (s.s + 65536 - 1), bit_and_low_byte (s.s + 65536 - 1))

  above_lem :
      (s : Cpu D) → IsValid s → above s ≡ (if s.e then 256 + (s.s + 1) % 256 else (s.s + 1) % 65536)
  above_lem s h = ground (arith, page_one (s.s + 1), bit_and_low_byte (s.s + 1))

  writable-plain : (a : ℕ) (m : Memory D) → is_writable a m ≡ true → is_io a ≡ false
  writable-plain a m h = ground (arith, h)

  -- The byte that a read gives outside the I/O page.
  pulled : (a : ℕ) (m : Memory D) → is_writable a m ≡ true → (Memory.read a m).0 ≡ mapped_byte a m
  pulled a m h = read-mapped a m (writable-plain a m h)

  above-below :
      (s : Cpu D) (m : Memory D) → IsValid s → above (record s { s = below s; memory = m }) ≡ s.s
  above-below s m h =
      ground (arith, below_lem s h, page_one (below s + 1), bit_and_low_byte (below s + 1))

  -- What is pushed is pulled, in either mode: in a valid state whose stack byte is writable memory, a pull
  -- behind a push of a byte gives that byte, and brings back the stack pointer and PC.
  pub pull-push :
      (v : ℕ) (s : Cpu D)
      → IsValid s
      → v < 256
      → is_writable s.s s.memory ≡ true
      → let after = pull (push v s).1 in (after.0 ≡ v) × (after.1.s ≡ s.s) × (after.1.pc ≡ s.pc)
  unfolding push pull ◌>>=◌ mem_write mem_read
  pull-push v s h hv hw =
      let m1 = Memory.write s.s (u8 v) s.memory in
      let back = above-below s m1 h in
      let kept = is_writable-write s.s s.s (u8 v) s.memory ∙ hw in
      (
        ap (λ a. (Memory.read a m1).0) back
            ∙ pulled s.s m1 kept
            ∙ mapped_byte-write s.s s.s (u8 v) s.memory
            ∙ ground (arith, hw),
        back,
        refl,
      )

  -- Two bytes written at different writable addresses, read in the other order.
  two_cells :
      (a b x y : ℕ) (m : Memory D)
      → a ≢ b
      → is_writable a m ≡ true
      → is_writable b m ≡ true
      → let m2 = Memory.write b y (Memory.write a x m) in
        ((Memory.read b m2).0 ≡ y) × ((Memory.read a (Memory.read b m2).1).0 ≡ x)
  two_cells a b x y m apart wa wb =
      let m1 = Memory.write a x m in
      let m2 = Memory.write b y m1 in
      ground (
        arith,
        read-mapped b m2,
        read-mapped a (Memory.read b m2).1,
        mapped_byte-read b a m2,
        mapped_byte-write b b y m1,
        mapped_byte-write b a y m1,
        mapped_byte-write a a x m,
        is_writable-write a b x m,
      )

  apart_below : (s : Cpu D) → IsValid s → s.s ≢ below s
  apart_below s h e = ground (arith, e, below_lem s h)

  -- The same for a word, when both of its stack bytes are writable memory.
  pub pull_word-push_word :
      (v : ℕ) (s : Cpu D)
      → IsValid s
      → v < 65536
      → is_writable s.s s.memory ≡ true
      → is_writable (below s) s.memory ≡ true
      → let after = pull_word (push_word v s).1 in
        (after.0 ≡ v) × (after.1.s ≡ s.s) × (after.1.pc ≡ s.pc)
  unfolding push_word pull_word push pull ◌>>=◌ mem_write mem_read
  pull_word-push_word v s h hv wa wb =
      let m1 = Memory.write s.s (u8 (u8 (shr v 8))) s.memory in
      let m2 = Memory.write (below s) (u8 (u8 (bit_and v 0xff))) m1 in
      let s1 : Cpu D = record s { s = below s; memory = m1 } in
      let s2 : Cpu D = record s1 { s = below s1; memory = m2 } in
      let back1 = above-below s1 m2 ((Yields-push (u8 (shr v 8))).at s h).0 in
      let back2 = ap (λ t. above (record s { s = t })) back1 ∙ above-below s s.memory h in
      let (lo, hi) =
        two_cells s.s (below s) (u8 (u8 (shr v 8))) (u8 (u8 (bit_and v 0xff))) s.memory
          (apart_below s h) wa wb in
      let lo' = ap (λ a. (Memory.read a m2).0) back1 ∙ lo in
      let hi' =
        ap (λ a. (Memory.read (above (record s { s = above s2 })) (Memory.read a m2).1).0) back1
        ∙ ap (λ a. (Memory.read a (Memory.read (below s) m2).1).0) back2
        ∙ hi in
      (
        ap
              (λ x.
                word x
                  (Memory.read (above (record s { s = above s2 })) (Memory.read (above s2) m2).1).0)
              lo'
            ∙ ap (word (u8 (u8 (bit_and v 0xff)))) hi'
            ∙ joined_lem v hv,
        back2,
        refl,
      )

  -- Page 1 is RAM.
  page_one_writable : (a : ℕ) (m : Memory D) → 256 ≤ a → a < 512 → is_writable a m ≡ true
  page_one_writable a m lo hi = ground arith

  fetch_byte_lem :
      (s : Cpu D)
      → ((fetch_byte s).1.s ≡ s.s)
        × ((fetch_byte s).1.e ≡ s.e)
        × ((fetch_byte s).1.pc ≡ u16 (s.pc + 1))
  unfolding fetch_byte ◌>>=◌ read24
  fetch_byte_lem s = (refl, refl, refl)

  addr_abs_lem :
      (s : Cpu D)
      → ((addr_abs s).1.s ≡ s.s)
        × ((addr_abs s).1.e ≡ s.e)
        × ((addr_abs s).1.pc ≡ u16 (u16 (s.pc + 1) + 1))
  unfolding addr_abs fetch_word_pc fetch_byte ◌>>=◌ read24
  addr_abs_lem s = (refl, refl, refl)

  -- In emulation mode RTS undoes JSR: in a valid state, an RTS right after a JSR brings PC behind the two
  -- bytes of the JSR's operand, and the stack pointer back to where it was.
  pub rts-jsr :
      (cycles : ℕ) (s : Cpu D)
      → IsValid s
      → s.e ≡ true
      → let after = (rts cycles (jsr cycles s).1).1 in (after.pc ≡ u16 (s.pc + 2)) × (after.s ≡ s.s)
  unfolding jsr rts ◌>>=◌ pull_word pull mem_read
  rts-jsr cycles s h he =
      let s1 = (addr_abs s).1 in
      let h1 = (Yields-addr_abs.at s h).0 in
      let (same_s, same_e, at) = addr_abs_lem s in
      let e1 = same_e ∙ he in
      let v = u16 (s1.pc + 65536 - 1) in
      let (word_back, s_back, _) =
        pull_word-push_word v s1 h1 (omega arith)
          (page_one_writable s1.s s1.memory (ground (arith, e1, h1.stack_low))
            (ground (arith, e1, h1.stack_high)))
          (page_one_writable (below s1) s1.memory (ground (arith, e1, below_lem s1 h1))
            (ground (arith, e1, below_lem s1 h1))) in
      (ap (λ x. u16 (x + 1)) word_back ∙ omega (arith, at), s_back ∙ same_s)
