-- ===== src/Cpu/Frames.antt =====
-- Interrupts in emulation mode: the frame that an IRQ or NMI pushes, and RTI, which takes it back.
use oric2_golden_model.Base.{
  ℕ, ◌+◌, ◌-◌, ◌%◌, ◌≤◌, ◌<◌, bit_and, bit_or, ◌≡◌, refl, sym, ap, ◌∙◌, ◌≢◌, Bool, true, false,
  ◌&&◌, arith, ltb, ◌==◌, all_below, all_below_sound, u8, u16, shr, word, bit_or_fields, word_lem,
  bit_and_low_byte,
}
use mathlib.Core.Path.{subst}
use oric2_golden_model.Memory
use oric2_golden_model.Memory.{Memory, is_io, mapped_byte}
use oric2_golden_model.Memory.Bus.{is_writable, read-mapped, mapped_byte-write, mapped_byte-read}
use oric2_golden_model.Cpu.State.{Cpu, ◌>>=◌}
use oric2_golden_model.Cpu.Access.{push, pull, push_word, pull_word, mem_read, mem_write}
use oric2_golden_model.Cpu.Exec.Control.{take_status}
use oric2_golden_model.Cpu.Exec.Interrupt.{status_irq, push_bank, push_frame, go_vector, rti}
use oric2_golden_model.Cpu.Run.{handle_irq_or_nmi}
use oric2_golden_model.Cpu.Valid.{IsValid}

-- The stack pointer of emulation mode after a push and after a pull.
abbrev down : ℕ → ℕ
down s = bit_or 0x0100 (bit_and (s + 65536 - 1) 0xff)

abbrev up : ℕ → ℕ
up s = bit_or 0x0100 (bit_and (s + 1) 0xff)

page : (n : ℕ) → bit_or 0x0100 (bit_and n 0xff) ≡ 256 + n % 256
page n = ap (bit_or 0x0100) (bit_and_low_byte n) ∙ bit_or_fields 8 1 (n % 256) (omega arith)

up-down : (s : ℕ) → 256 ≤ s → s < 512 → up (down s) ≡ s
up-down s lo hi = page (down s + 1) ∙ omega (arith, page (s + 65536 - 1))

down_page : (s : ℕ) → (256 ≤ down s) × (down s < 512)
down_page s = (omega (arith, page (s + 65536 - 1)), omega (arith, page (s + 65536 - 1)))

apart : (s : ℕ) → 256 ≤ s → s < 512 → s ≢ down s
apart s lo hi e = omega (arith, e, page (s + 65536 - 1))

apart_two : (s : ℕ) → 256 ≤ s → s < 512 → s ≢ down (down s)
apart_two s lo hi e = omega (arith, e, page (s + 65536 - 1), page (down s + 65536 - 1))

page_one_plain : (a : ℕ) → 256 ≤ a → a < 512 → is_io a ≡ false
page_one_plain a lo hi = ground arith

-- A status byte that was pushed by an interrupt is pulled as it is.
status_table :
    all_below 256 (λ p. status_irq (status_irq p) == status_irq p && ltb (status_irq p) 256) ≡ true
unfolding all_below
status_table = refl

status_lem : (p : ℕ) → p < 256 → (status_irq (status_irq p) ≡ status_irq p) × (status_irq p < 256)
status_lem p h =
    let row =
      all_below_sound 256 (λ p. status_irq (status_irq p) == status_irq p && ltb (status_irq p) 256)
        p status_table h in
    ground (arith, row)

word_halves : (v : ℕ) → v < 65536 → word (u8 (u8 (bit_and v 0xff))) (u8 (u8 (shr v 8))) ≡ v
word_halves v h = omega (
  arith,
  bit_and_low_byte v,
  word_lem (u8 (u8 (bit_and v 0xff))) (u8 (u8 (shr v 8))) (omega arith) (omega arith),
)

module _ {D : Type 0} where
  page_one_writable : (a : ℕ) (m : Memory D) → 256 ≤ a → a < 512 → is_writable a m ≡ true
  page_one_writable a m lo hi = ground arith

  -- Three bytes written in page 1, and what is read there.
  frame_write :
      (a b c x y z : ℕ) (m : Memory D)
      → 256 ≤ a
      → a < 512
      → 256 ≤ b
      → b < 512
      → 256 ≤ c
      → c < 512
      → a ≢ b
      → b ≢ c
      → a ≢ c
      → let m3 = Memory.write c z (Memory.write b y (Memory.write a x m)) in
        (mapped_byte a m3 ≡ x) × (mapped_byte b m3 ≡ y) × (mapped_byte c m3 ≡ z)
  frame_write a b c x y z m la ha lb hb lc hc ab bc ac =
      let m1 = Memory.write a x m in
      let m2 = Memory.write b y m1 in
      ground (
        arith,
        mapped_byte-write c c z m2,
        mapped_byte-write c b z m2,
        mapped_byte-write c a z m2,
        mapped_byte-write b b y m1,
        mapped_byte-write b a y m1,
        mapped_byte-write a a x m,
        page_one_writable a m la ha,
        page_one_writable b m1 lb hb,
        page_one_writable c m2 lc hc,
      )

  frame_read :
      (a b c u v w : ℕ) (m : Memory D)
      → u ≡ c
      → v ≡ b
      → w ≡ a
      → is_io a ≡ false
      → is_io b ≡ false
      → is_io c ≡ false
      → let m1 = (Memory.read u m).1 in
        let m2 = (Memory.read v m1).1 in
        ((Memory.read u m).0 ≡ mapped_byte c m)
        × ((Memory.read v m1).0 ≡ mapped_byte b m)
        × ((Memory.read w m2).0 ≡ mapped_byte a m)
  frame_read a b c u v w m hu hv hw ia ib ic =
      let m1 = (Memory.read u m).1 in
      let m2 = (Memory.read v m1).1 in
      (
        ap (λ t. (Memory.read t m).0) hu ∙ read-mapped c m ic,
        ap (λ t. (Memory.read t m1).0) hv ∙ read-mapped b m1 ib ∙ mapped_byte-read u b m,
        ap (λ t. (Memory.read t m2).0) hw
            ∙ read-mapped a m2 ia
            ∙ mapped_byte-read v a m1
            ∙ mapped_byte-read u a m,
      )

  vector_read :
      (b p q : ℕ) (m : Memory D)
      → mapped_byte b (Memory.read q (Memory.read p m).1).1 ≡ mapped_byte b m
  vector_read b p q m = mapped_byte-read q b (Memory.read p m).1 ∙ mapped_byte-read p b m

  emulating :
      (vector cycles : ℕ) (s : Cpu D)
      → IsValid (record s { e = true })
      → let after = (rti cycles (handle_irq_or_nmi vector (record s { e = true })).1).1 in
        (after.pc ≡ s.pc) × (after.p ≡ status_irq s.p) × (after.s ≡ s.s)
  unfolding rti take_status handle_irq_or_nmi push_frame push_bank go_vector push_word push
      pull_word pull ◌>>=◌ mem_read mem_write
  emulating vector cycles s h =
      let a = s.s in
      let (lb, hb) = down_page a in
      let (lc, hc) = down_page (down a) in
      let d = down (down (down a)) in
      let p1 : up d ≡ down (down a) = up-down (down (down a)) lc hc in
      let p2 : up (up d) ≡ down a = ap up p1 ∙ up-down (down a) lb hb in
      let p3 : up (up (up d)) ≡ a = ap up p2 ∙ up-down a h.stack_low h.stack_high in
      let hi = u8 (u8 (shr s.pc 8)) in
      let lo = u8 (u8 (bit_and s.pc 0xff)) in
      let st = u8 (status_irq s.p) in
      let m3 =
        Memory.write (down (down a)) st (Memory.write (down a) lo (Memory.write a hi s.memory)) in
      let m4 = (Memory.read (u16 (vector + 1)) (Memory.read vector m3).1).1 in
      let (wa, wb, wc) =
        frame_write a (down a) (down (down a)) hi lo st s.memory h.stack_low h.stack_high lb hb lc
          hc (apart a h.stack_low h.stack_high) (apart (down a) lb hb)
          (apart_two a h.stack_low h.stack_high) in
      let (rc, rb, ra) =
        frame_read a (down a) (down (down a)) (up d) (up (up d)) (up (up (up d))) m4 p1 p2 p3
          (page_one_plain a h.stack_low h.stack_high) (page_one_plain (down a) lb hb)
          (page_one_plain (down (down a)) lc hc) in
      let low = rb ∙ vector_read (down a) vector (u16 (vector + 1)) m3 ∙ wb in
      let high = ra ∙ vector_read a vector (u16 (vector + 1)) m3 ∙ wa in
      let (twice, byte) = status_lem s.p h.p in
      let flags =
        rc ∙ vector_read (down (down a)) vector (u16 (vector + 1)) m3 ∙ wc ∙ omega (arith, byte) in
      let m5 = (Memory.read (up d) m4).1 in
      let m6 = (Memory.read (up (up d)) m5).1 in
      (
        ap (λ x. word x (Memory.read (up (up (up d))) m6).0) low
            ∙ ap (word lo) high
            ∙ word_halves s.pc h.pc,
        ap status_irq flags ∙ twice,
        p3,
      )

  -- In emulation mode RTI undoes an interrupt: in a valid state, an RTI right after the entry of an IRQ or NMI
  -- brings back PC and the stack pointer, and the status byte with B clear and bit 5 set, whatever
  -- the vector is.
  pub rti-handle_irq_or_nmi :
      (vector cycles : ℕ) (s : Cpu D)
      → IsValid s
      → s.e ≡ true
      → let after = (rti cycles (handle_irq_or_nmi vector s).1).1 in
        (after.pc ≡ s.pc) × (after.p ≡ status_irq s.p) × (after.s ≡ s.s)
  rti-handle_irq_or_nmi vector cycles s h he =
      let same : record s { e = true } ≡ s = ap (λ (b : Bool). record s { e = b }) (sym he) in
      subst
        (λ (t : Cpu D).
          let after = (rti cycles (handle_irq_or_nmi vector t).1).1 in
          (after.pc ≡ t.pc) × (after.p ≡ status_irq t.p) × (after.s ≡ t.s))
        same (emulating vector cycles s (subst IsValid (sym same) h))
