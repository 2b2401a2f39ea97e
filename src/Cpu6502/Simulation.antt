-- ===== src/Cpu6502/Simulation.antt =====
-- The simulation of the 6502 by the 65C816 in emulation mode: relation and rules.
pub mod Access
pub mod Modes
pub mod Alu
pub mod Acts
pub mod Arith
pub mod Changes
pub mod Registers
pub mod Shapes
pub mod Control
pub mod Interrupt
pub mod Cases
pub mod Step
use oric2_golden_model.Base.{
  ℕ, zero, suc, ◌+◌, ◌-◌, ◌*◌, ◌/◌, ◌%◌, ◌^◌, ◌≤◌, ◌<◌, bit_and, bit_or, bit_xor, ◌≡◌, refl, sym,
  ap, ◌∙◌, ◌≢◌, ◌⊎◌, inl, inr, Bool, true, false, not, ◌&&◌, ◌||◌, Option, none, some, List, [],
  ◌∷◌, ◌++◌, arith, ltb, leb, ◌==◌, bool_eq, if◌then◌else◌, ==_iff, Bool-cases, Option-cases,
  all_below, all_below_sound, update, fill, IsBytes, update-IsBytes, fill-IsBytes, u8, u16, u32,
  u64, shl, shr, has, clear8, word, bit_and_step, bit_or_step, bit_and-zero, bit_or-zero,
  bit_or_fields, word_lem, byte_bit, bit_and_low_byte, bit_and_low_word, bit_and-le, bit_or_byte,
  bit_or_word, bit_xor_step, bit_xor-lt, bit_xor_word,
}
use mathlib.Core.Path.{subst}
use oric2_golden_model.Cpu.State
use oric2_golden_model.Cpu.State.{Cpu, M}
use oric2_golden_model.Cpu.Access.{a8, x8, y8, sp8}
use oric2_golden_model.Cpu.Valid.{IsValid, Any, Byte, Word, Address, Yields}
use oric2_golden_model.Cpu6502
use oric2_golden_model.Cpu6502.{Cpu6502, N}

-- The decimal flag is off, which is all that ADC and SBC need.
abbrev pub Binary : ℕ → Type 0
Binary p = has p 0x08 ≡ false

abbrev pub Always : ℕ → Type 0
Always p = Unit {0}

module _ {D : Type 0} where
  -- What the 65C816 shows of a 6502.
  unfoldable pub view : Cpu D → Cpu6502 D
  view s = record {
    a = bit_and s.c 0xff;
    x = bit_and s.x 0xff;
    y = bit_and s.y 0xff;
    sp = bit_and s.s 0xff;
    pc = s.pc;
    p = s.p;
    cycles = s.cycles;
    cycles_left = s.cycles_left;
    halted = s.halted;
    nmi_pending = s.nmi_pending;
    irq = s.irq;
    memory = s.memory;
  }

  -- A valid state in emulation mode that runs in bank 0.
  pub record IsEmulating (s : Cpu D) : Type 0 where
    pub valid : IsValid s
    pub emulates : s.e ≡ true
    pub bank_zero : s.pbr ≡ 0
    pub running : s.stopped ≡ false
    pub awake : s.waiting ≡ false

  -- From a state whose status byte satisfies `I`, an action of the 65C816 and one of the 6502 have the same result
  -- and lead to the same view, and the status byte then satisfies `J`.
  pub record Simulates {A : Type 0} (I J : ℕ → Type 0) (P : A → Type 0) (m : M D A) (n : N D A)
      : Type 0 where
    pub at :
        (s : Cpu D)
        → IsEmulating s
        → I s.p
        → IsEmulating (m s).1 × J (m s).1.p × P (m s).0 × (n (view s) ≡ ((m s).0, view (m s).1))

  pub Simulates-bind :
      {A B : Type 0} {I J K : ℕ → Type 0} {P : A → Type 0} {Q : B → Type 0} {m : M D A} {n : N D A}
      {f : A → M D B} {g : A → N D B}
      → Simulates I J P m n
      → ((a : A) → P a → Simulates J K Q (f a) (g a))
      → Simulates I K Q (State.◌>>=◌ m f) (Cpu6502.◌>>=◌ n g)
  unfolding State.◌>>=◌ Cpu6502.◌>>=◌
  Simulates-bind {m} {n} {f} {g} hm hf = record {
    at = λ s e i.
        let (e1, j, p, same) = hm.at s e i in
        let (e2, k, q, same2) = (hf (m s).0 p).at (m s).1 e1 j in
        (e2, k, q, ap (λ (r : _ × Cpu6502 D). g r.0 r.1) same ∙ same2);
  }

  -- The parts of the state that emulation mode needs are as before.
  pub still :
      {s t : Cpu D}
      → IsEmulating s
      → IsValid t
      → t.e ≡ s.e
      → t.pbr ≡ s.pbr
      → t.stopped ≡ s.stopped
      → t.waiting ≡ s.waiting
      → IsEmulating t
  still h v e b r w = record {
    valid = v;
    emulates = e ∙ h.emulates;
    bank_zero = b ∙ h.bank_zero;
    running = r ∙ h.running;
    awake = w ∙ h.awake;
  }

  module _ {A : Type 0} {I : ℕ → Type 0} {P : A → Type 0} where
    pub Simulates-pure : (a : A) → P a → Simulates I I P (State.pure a) (Cpu6502.pure a)
    unfolding State.pure Cpu6502.pure
    Simulates-pure a h = record { at = λ s e i. (e, i, h, refl) }

    pub Simulates-gets :
        (f : Cpu D → A) (g : Cpu6502 D → A)
        → ((s : Cpu D) → IsEmulating s → (g (view s) ≡ f s) × P (f s))
        → Simulates I I P (State.gets f) (Cpu6502.gets g)
    unfolding State.gets Cpu6502.gets
    Simulates-gets f g h = record {
      at = λ s e i. let (same, p) = h s e in (e, i, p, ap (λ a. (a, view s)) same);
    }

    pub Simulates-if :
        {J : ℕ → Type 0} (b : Bool) {m m' : M D A} {n n' : N D A}
        → Simulates I J P m n
        → Simulates I J P m' n'
        → Simulates I J P (if b then m else m') (if b then n else n')
    Simulates-if true h h' = h
    Simulates-if false h h' = h'

    -- A look at the state whose result is known in emulation mode.
    pub Simulates-look :
        {B : Type 0} {J : ℕ → Type 0} (f : Cpu D → B) (b : B) (k : B → M D A) {n : N D A}
        → ((s : Cpu D) → IsEmulating s → f s ≡ b)
        → Simulates I J P (k b) n
        → Simulates I J P (State.◌>>=◌ (State.gets f) k) n
    unfolding State.◌>>=◌ State.gets
    Simulates-look {J} f b k {n} known h = record {
      at = λ s e i.
          subst
            (λ c.
              let r = k c s in IsEmulating r.1 × J r.1.p × P r.0 × (n (view s) ≡ (r.0, view r.1)))
            (sym (known s e)) (h.at s e i);
    }

  pub Simulates-modify :
      {I J : ℕ → Type 0} (f : Cpu D → Cpu D) (g : Cpu6502 D → Cpu6502 D)
      → ((s : Cpu D)
          → IsEmulating s
          → I s.p
          → IsEmulating (f s) × J (f s).p × (g (view s) ≡ view (f s)))
      → Simulates I J Any (State.modify f) (Cpu6502.modify g)
  unfolding State.modify Cpu6502.modify
  Simulates-modify f g h = record {
    at = λ s e i. let (e1, j, same) = h s e i in (e1, j, tt, ap (λ t. (tt, t)) same);
  }
