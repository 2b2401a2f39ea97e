-- ===== src/Cpu6502/Simulation/Cases.antt =====
-- The switches of the two cores, case by case: each case of the 6502's has one of the 65C816's that agrees with it.
pub mod Load
pub mod Combine
pub mod Store
pub mod Change
pub mod Control
use oric2_golden_model.Base.{
  ℕ, zero, suc, ◌+◌, ◌-◌, ◌*◌, ◌/◌, ◌%◌, ◌^◌, ◌≤◌, ◌<◌, bit_and, bit_or, bit_xor, ◌≡◌, refl, sym,
  ap, ◌∙◌, ◌≢◌, ◌⊎◌, inl, inr, Bool, true, false, not, ◌&&◌, ◌||◌, Option, none, some, List, [],
  ◌∷◌, ◌++◌, arith, ltb, leb, ◌==◌, bool_eq, if◌then◌else◌, ==_iff, Bool-cases, Option-cases,
  all_below, all_below_sound, update, fill, IsBytes, update-IsBytes, fill-IsBytes, u8, u16, u32,
  u64, shl, shr, has, clear8, word, bit_and_step, bit_or_step, bit_and-zero, bit_or-zero,
  bit_or_fields, word_lem, byte_bit, bit_and_low_byte, bit_and_low_word, bit_and-le, bit_or_byte,
  bit_or_word, bit_xor_step, bit_xor-lt, bit_xor_word,
}
use mathlib.Core.Path.{subst}
use mathlib.Core.Option.{some-injective, none-ne-some}
use oric2_golden_model.Cpu.Exec.{find_case}
use oric2_golden_model.Cpu.Exec.Shapes as Wide
use oric2_golden_model.Cpu.State
use oric2_golden_model.Cpu6502
use oric2_golden_model.Cpu6502.Exec.{lookup_case}
use oric2_golden_model.Cpu6502.Exec.Shapes.{Action, Cases}
use oric2_golden_model.Cpu6502.Simulation.{Binary, Always, Simulates-pure, Simulates}
use oric2_golden_model.Cpu6502.Simulation.Shapes.{SimulatesCase, Simulates-from_always}

module _ {D : Type 0} where
  pub SimulatesCase-pure : SimulatesCase {D = D} State.pure Cpu6502.pure
  SimulatesCase-pure = record { for = λ n. Simulates-from_always (Simulates-pure n tt) }

  -- The 65C816 has a case for the opcode, which agrees with the 6502's.
  pub record SimulatesFind (op : ℕ) (act6502 : Action D) : Type 0 where
    pub act : Wide.Action D
    pub found : find_case op ≡ some act
    pub agrees : SimulatesCase act act6502

  pub SimulatesFind-at :
      {op : ℕ} {act : Wide.Action D} {act6502 : Action D}
      → find_case op ≡ some act
      → SimulatesCase act act6502
      → SimulatesFind op act6502
  SimulatesFind-at found agrees = record { act = _; found = found; agrees = agrees }

  infixr 5 ◌▸◌
  -- All cases of a list.
  pub data SimulatesCases : Cases D → Type 0 where
    simulates_nil : SimulatesCases []
    ◌▸◌ :
        {op : ℕ} {act6502 : Action D} {cases : Cases D}
        → SimulatesFind op act6502
        → SimulatesCases cases
        → SimulatesCases ((op, act6502) ∷ cases)

  pub SimulatesCases-append :
      {cases cases' : Cases D}
      → SimulatesCases cases
      → SimulatesCases cases'
      → SimulatesCases (cases ++ cases')
  SimulatesCases-append simulates_nil h' = h'
  SimulatesCases-append (h ▸ hs) h' = h ▸ SimulatesCases-append hs h'

  head_or_rest :
      {op k : ℕ} {act act6502 : Action D} {rest : Option (Action D)} (b : Bool)
      → (k == op) ≡ b
      → SimulatesFind k act
      → (rest ≡ some act6502 → SimulatesFind op act6502)
      → (if b then some act else rest) ≡ some act6502
      → SimulatesFind op act6502
  head_or_rest {op} {k} {act} {act6502} true same h later eq =
      let at_op : k ≡ op = ground (arith, same) in
      subst (λ o. SimulatesFind o act6502) at_op
        (subst (SimulatesFind k) (some-injective act act6502 eq) h)
  head_or_rest false other h later eq = later eq

  pub SimulatesFind-lookup_case :
      (cases : Cases D) (op : ℕ) (act6502 : Action D)
      → SimulatesCases cases
      → lookup_case op cases ≡ some act6502
      → SimulatesFind op act6502
  unfolding lookup_case
  SimulatesFind-lookup_case [] op act6502 h found = absurd (none-ne-some act6502 found)
  SimulatesFind-lookup_case ((k, act) ∷ rest) op act6502 (h ▸ hs) found =
      head_or_rest (k == op) refl h (λ later. SimulatesFind-lookup_case rest op act6502 hs later)
        found
